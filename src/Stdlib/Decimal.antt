-- ===== src/Stdlib/Decimal.antt =====
-- `itoa` and `atoi` of lib/stdlib.c: the digits of a number, and the number of the digits.
use exscape_os.Prelude.{
  ℕ, zero, suc, ◌+◌, ◌-◌, ◌*◌, ◌/◌, ◌^◌, ◌≤◌, ◌≡◌, ◌≢◌, inl, inr, refl, ap, sym, ◌∙◌, ℤ, pos,
  negsuc, true, false, List, [], ◌∷◌, ◌++◌, some, arith, ◌==◌, All, length, length-append,
  Bool-cases,
}
use exscape_os.Stdlib.{
  digits, itoa, isdigit, power_loop, ipow, skip_other, digit_run, sum_digits, negated, magnitude,
  atoi_sign, atoi,
}
use exscape_os.Stdlib.Reverse.{reversed, reversed-append, reverse-reversed}

abbrev IsDigit : ℕ → Type 0
IsDigit c = (48 ≤ c) × (c ≤ 57)

isdigit-IsDigit : (c : ℕ) → IsDigit c → isdigit c ≡ true
unfolding isdigit
isdigit-IsDigit c (low, high) = ground arith

-- the number of digits of which the first is the last
abbrev value : List ℕ → ℕ
value [] = 0
value (c ∷ s) = (c - 48) + 10 * value s

digits_lem : (r n : ℕ) → n ≤ r → All IsDigit (digits r n) × (value (digits r n) ≡ n)
unfolding digits
digits_lem zero n le = (tt, omega arith)
digits_lem (suc r) n le = elim (Bool-cases (n == 0)) [
  | inl t ↦ rw t (tt, ground arith)
  | inr f ↦
      let nonzero : n ≢ 0 = ground arith in
      let (ds, v) = digits_lem r (n / 10) (omega arith) in
      rw f (((omega arith, omega arith), ds), omega arith)
]

power_loop-ten : (n r : ℕ) → power_loop n 10 (r * 10) ≡ 10 * power_loop n 10 r
unfolding power_loop
power_loop-ten zero r = omega arith
power_loop-ten (suc n) r = power_loop-ten n (r * 10)

ipow-suc : (n : ℕ) → ipow 10 (pos (suc n)) ≡ 10 * ipow 10 (pos n)
unfolding ipow power_loop
ipow-suc zero = refl
ipow-suc (suc n) = power_loop-ten (suc n) 1

ipow-zero : ipow 10 (pos 0) ≡ 1
unfolding ipow
ipow-zero = refl

sum_digits-append :
    (xs : List ℕ) (c : ℕ) → sum_digits (xs ++ c ∷ []) ≡ 10 * sum_digits xs + (c - 48)
unfolding sum_digits
sum_digits-append [] c = rw ipow-zero (omega arith)
sum_digits-append (x ∷ xs) c =
    let rec = sum_digits-append xs c in
    let l : length (xs ++ c ∷ []) ≡ suc (length xs) = length-append xs (c ∷ []) ∙ omega arith in
    let p : ipow 10 (pos (length (xs ++ c ∷ []))) ≡ 10 * ipow 10 (pos (length xs)) =
      ap (λ k. ipow 10 (pos k)) l ∙ ipow-suc (length xs) in
    rw p (grind arith)

sum_digits-reversed : (s : List ℕ) → sum_digits (reversed s) ≡ value s
unfolding sum_digits
sum_digits-reversed [] = refl
sum_digits-reversed (c ∷ s) =
    let rec = sum_digits-reversed s in let e = sum_digits-append (reversed s) c in omega arith

All-append : (xs ys : List ℕ) → All IsDigit xs → All IsDigit ys → All IsDigit (xs ++ ys)
All-append [] ys _ all = all
All-append (x ∷ xs) ys (h, hs) all = (h, All-append xs ys hs all)

All-reversed : (s : List ℕ) → All IsDigit s → All IsDigit (reversed s)
All-reversed [] all = tt
All-reversed (c ∷ s) (h, hs) = All-append (reversed s) (c ∷ []) (All-reversed s hs) (h, tt)

digit_run_all : (s : List ℕ) → All IsDigit s → digit_run s ≡ s
unfolding digit_run
digit_run_all [] all = refl
digit_run_all (c ∷ s) (h, hs) = rw (isdigit-IsDigit c h) (ap (λ t. c ∷ t) (digit_run_all s hs))

-- the text of a number's digits is read as the number
magnitude-digits : (n : ℕ) → magnitude (reversed (digits n n)) ≡ n
unfolding magnitude
magnitude-digits n =
    let (ds, v) = digits_lem n n (omega arith) in
    ap sum_digits (digit_run_all (reversed (digits n n)) (All-reversed (digits n n) ds))
    ∙ sum_digits-reversed (digits n n)
    ∙ v

magnitude-nil : magnitude [] ≡ 0
unfolding magnitude digit_run sum_digits
magnitude-nil = refl

magnitude-zero : magnitude (48 ∷ []) ≡ 0
unfolding magnitude digit_run sum_digits isdigit ipow
magnitude-zero = refl

atoi_unsigned : (s : List ℕ) → All IsDigit s → atoi s ≡ pos (magnitude s)
unfolding atoi atoi_sign skip_other
atoi_unsigned [] all = ap pos (sym magnitude-nil)
atoi_unsigned (c ∷ s) (h, hs) =
    let no_minus : (c == 45) ≡ false = ground arith in rw (isdigit-IsDigit c h, no_minus) refl

atoi_minus : (s : List ℕ) → atoi (45 ∷ s) ≡ negated (magnitude s)
unfolding atoi atoi_sign skip_other isdigit
atoi_minus s = refl

length-digits : (r n : ℕ) → 1 ≤ length (digits (suc r) (suc n))
unfolding digits
length-digits r n = let more : (suc n == 0) ≡ false = ground arith in rw more (omega arith)

-- Every number but the least has a text, and `atoi` reads the number from the text that `itoa` leaves.
pub atoi-itoa : (n : ℤ) → n ≢ negsuc (2 ^ 31 - 1) → (s : List ℕ) × (itoa n ≡ some s) × (atoi s ≡ n)
unfolding itoa
atoi-itoa (pos zero) _ = (
  48 ∷ [],
  refl,
  atoi_unsigned (48 ∷ []) ((omega arith, omega arith), tt) ∙ ap pos magnitude-zero,
)
atoi-itoa (pos (suc n)) _ =
    let ds = digits (suc n) (suc n) in
    let (all, _) = digits_lem (suc n) (suc n) (omega arith) in
    (
      reversed ds,
      reverse-reversed ds (length-digits n n),
      atoi_unsigned (reversed ds) (All-reversed ds all) ∙ ap pos (magnitude-digits (suc n)),
    )
atoi-itoa (negsuc n) ne =
    let ds = digits (suc n) (suc n) in
    let l = length-append ds (45 ∷ []) in
    let not_least : (n == 2 ^ 31 - 1) ≡ false = elim (Bool-cases (n == 2 ^ 31 - 1)) [
      | inl t ↦ (let least : n ≡ 2 ^ 31 - 1 = ground arith in absurd (ne (ap negsuc least)))
      | inr f ↦ f
    ] in
    (
      45 ∷ reversed ds,
      rw not_least (
          reverse-reversed (ds ++ 45 ∷ []) (omega (arith, l))
          ∙ ap some (reversed-append ds (45 ∷ []))),
      atoi_minus (reversed ds) ∙ ap negated (magnitude-digits (suc n)),
    )
