-- ===== src/Prelude/Update.antt =====
-- Stores as functions from addresses: what is read behind a write.
use Prim.Native.Nat.{ℕ}
use mathlib.Core.Path.{◌≡◌, refl}
use mathlib.Core.Logic.{◌≢◌}
use native.Mathlib.Omega.{arith}
use exscape_os.Prelude.Tests.{◌==◌, ==_refl, if◌then◌else◌}

abbrev pub update {ℓ} : {A : Type ℓ} → (ℕ → A) → ℕ → A → ℕ → A
update f a v b = if a == b then v else f b

module _ {A : Type 0} (f : ℕ → A) where
  pub update_ne : (a b : ℕ) (x : A) → b ≢ a → update f a x b ≡ f b
  update_ne a b x ne = ground (arith, ne)

  pub update_self : (a : ℕ) (x : A) → update f a x a ≡ x
  update_self a x = rw (==_refl a) refl
