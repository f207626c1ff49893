-- ===== src/CString/Compare.antt =====
-- The comparisons of lib/string.c against the lexicographic order of the texts.
use exscape_os.Prelude.{
  ℕ, zero, suc, ◌<◌, ◌≡◌, ◌↔◌, inl, inr, refl, ap, ℤ, pos, negsuc, List, [], ◌∷◌, ◌++◌, some, arith,
  ltb, ◌==◌, if◌then◌else◌, Bool-cases, All, length, take,
}
use exscape_os.CString.{strcmp, strncmp, memcmp}

-- the bytes of a string, without its terminator
abbrev pub IsText : List ℕ → Type 0
IsText xs = All (λ c. (0 < c) × (c < 256)) xs

-- the lexicographic order, a prefix first: -1, 0 or 1
unfoldable pub order : List ℕ → List ℕ → ℤ
order [] [] = pos 0
order [] (d ∷ ys) = negsuc 0
order (c ∷ xs) [] = pos 1
order (c ∷ xs) (d ∷ ys) =
    let rest = order xs ys in if c == d then rest else if ltb c d then negsuc 0 else pos 1

pub order-eq : (xs ys : List ℕ) → order xs ys ≡ pos 0 → xs ≡ ys
unfolding order
order-eq [] [] h = refl
order-eq [] (d ∷ ys) h = absurd (ground (arith, h))
order-eq (c ∷ xs) [] h = absurd (ground (arith, h))
order-eq (c ∷ xs) (d ∷ ys) h = elim (Bool-cases (c == d)) [
  | inl e ↦
      let same : c ≡ d = ground (arith, e) in
      let tail : order xs ys ≡ pos 0 = ground (arith, e, h) in rw (same, order-eq xs ys tail) refl
  | inr ne ↦ absurd (ground (arith, ne, h))
]

pub order_refl : (xs : List ℕ) → order xs xs ≡ pos 0
unfolding order
order_refl [] = refl
order_refl (c ∷ xs) = ground (arith, order_refl xs)

-- `strcmp` of two strings is the lexicographic order of their bytes.
pub strcmp-order :
    (xs ys r s : List ℕ)
    → IsText xs
    → IsText ys
    → strcmp (xs ++ 0 ∷ r) (ys ++ 0 ∷ s) ≡ some (order xs ys)
unfolding strcmp order
strcmp-order [] [] r s v w = refl
strcmp-order [] (d ∷ ys) r s v w = ground arith
strcmp-order (c ∷ xs) [] r s v w = ground arith
strcmp-order (c ∷ xs) (d ∷ ys) r s v w = ground (arith, strcmp-order xs ys r s v.1 w.1)

-- `strcmp` returns 0 for two strings just when they have the same bytes.
pub strcmp-zero :
    (xs ys r s : List ℕ)
    → IsText xs
    → IsText ys
    → (strcmp (xs ++ 0 ∷ r) (ys ++ 0 ∷ s) ≡ some (pos 0)) ↔ (xs ≡ ys)
strcmp-zero xs ys r s v w = (
  λ h. order-eq xs ys (ground (arith, h, strcmp-order xs ys r s v w)),
  λ e. rw (strcmp-order xs ys r s v w, e) (ap some (order_refl ys)),
)

-- `strncmp` is the order of the first `n` bytes of the two strings.
pub strncmp-order :
    (xs ys r s : List ℕ) (n : ℕ)
    → IsText xs
    → IsText ys
    → strncmp (xs ++ 0 ∷ r) (ys ++ 0 ∷ s) n ≡ some (order (take n xs) (take n ys))
unfolding strncmp order
strncmp-order xs ys r s zero v w = refl
strncmp-order [] [] r s (suc n) v w = ground arith
strncmp-order [] (d ∷ ys) r s (suc n) v w = ground arith
strncmp-order (c ∷ xs) [] r s (suc n) v w = ground arith
strncmp-order (c ∷ xs) (d ∷ ys) r s (suc n) v w = ground (arith, strncmp-order xs ys r s n v.1 w.1)

-- `memcmp` of `count` bytes is the order of the bytes, zeros included.
pub memcmp-order :
    (xs ys r s : List ℕ)
    → length xs ≡ length ys
    → memcmp (xs ++ r) (ys ++ s) (length xs) ≡ some (order xs ys)
unfolding memcmp order
memcmp-order [] [] r s h = refl
memcmp-order [] (d ∷ ys) r s h = absurd (omega arith)
memcmp-order (c ∷ xs) [] r s h = absurd (omega arith)
memcmp-order (c ∷ xs) (d ∷ ys) r s h = ground (arith, memcmp-order xs ys r s (omega arith))
