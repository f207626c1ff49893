-- ===== src/Stdlib/Tests.antt =====
-- Runs of lib/stdlib.c.
use exscape_os.Prelude.{
  ℕ, ◌-◌, ◌^◌, ◌≡◌, ◌≢◌, arith, refl, ap, ℤ, pos, negsuc, List, [], ◌∷◌, none, some,
}
use exscape_os.Stdlib.{
  itoa, atoi, reverse, reverse_loop, digits, skip_other, atoi_sign, magnitude, digit_run,
  sum_digits, isdigit, ipow, power_loop,
}
use exscape_os.Stdlib.Decimal.{atoi-itoa}

reverse_three : reverse (97 ∷ 98 ∷ 99 ∷ []) ≡ some (99 ∷ 98 ∷ 97 ∷ [])
unfolding reverse reverse_loop
reverse_three = refl

reverse_nothing : reverse [] ≡ none
unfolding reverse reverse_loop
reverse_nothing = refl

itoa_negative : itoa (negsuc 41) ≡ some (45 ∷ 52 ∷ 50 ∷ [])
unfolding itoa reverse reverse_loop digits
itoa_negative = refl

atoi_between : atoi (32 ∷ 52 ∷ 50 ∷ 120 ∷ 55 ∷ []) ≡ pos 42
unfolding atoi skip_other atoi_sign magnitude digit_run sum_digits isdigit ipow power_loop
atoi_between = refl

abbrev below : ℤ → ℕ
below (pos n) = 0
below (negsuc n) = n

not_least : negsuc 41 ≢ negsuc (2 ^ 31 - 1)
not_least e = let same : 41 ≡ 2 ^ 31 - 1 = ap below e in absurd (omega arith)

atoi-itoa_example : (s : List ℕ) × (itoa (negsuc 41) ≡ some s) × (atoi s ≡ negsuc 41)
atoi-itoa_example = atoi-itoa (negsuc 41) not_least
