-- ===== src/Stdlib.antt =====
-- lib/stdlib.c: decimal numbers and their texts, powers, and the generator of random numbers. A text is
-- the list of its bytes without the terminator. Arithmetic on `int` and `long` is that of the integers,
-- since an overflow of a signed number has no meaning in C.
pub mod Reverse
pub mod Decimal
mod Tests
use exscape_os.Prelude.{
  ℕ, zero, suc, ◌+◌, ◌-◌, ◌*◌, ◌/◌, ◌%◌, ◌^◌, ℤ, pos, negsuc, Bool, true, false, ◌&&◌, ◌||◌, not,
  List, [], ◌∷◌, ◌++◌, Option, none, some, ltb, leb, ◌==◌, if◌then◌else◌, get_elem?, set, length,
  ◌>>=◌,
}

-- The loop of `reverse`: the bytes at `i` and `j` change places. A fault (`none`) is an access outside
-- the string.
unfoldable pub reverse_loop : (rounds i j : ℕ) → List ℕ → Option (List ℕ)
reverse_loop zero i j s = some s
reverse_loop (suc rounds) i j s =
    if ltb i j
    then (do
      tmp ← get_elem? s j
      c ← get_elem? s i
      reverse_loop rounds (i + 1) (j - 1) (set (set s j c) i tmp))
    else some s

-- `j` of an empty string wraps around to the largest number.
unfoldable pub reverse : List ℕ → Option (List ℕ)
reverse s = reverse_loop (length s + 1) 0 (if length s == 0 then 2 ^ 32 - 1 else length s - 1) s

-- `for (i = 0; n > 0; i++)`: the digits from the last to the first
unfoldable pub digits : (rounds n : ℕ) → List ℕ
digits zero n = []
digits (suc rounds) n =
    let rest = digits rounds (n / 10) in if n == 0 then [] else (n % 10 + 48) ∷ rest

-- the text that `itoa` leaves; the negative of the least number overflows
unfoldable pub itoa : ℤ → Option (List ℕ)
itoa (pos zero) = some (48 ∷ [])
itoa (pos (suc n)) = reverse (digits (suc n) (suc n))
itoa (negsuc n) = if n == 2 ^ 31 - 1 then none else reverse (digits (suc n) (suc n) ++ 45 ∷ [])

unfoldable pub isdigit : ℕ → Bool
isdigit c = leb 48 c && leb c 57

-- `while (exp--) result *= base`
unfoldable pub power_loop : (exp base result : ℕ) → ℕ
power_loop zero base result = result
power_loop (suc exp) base result = power_loop exp base (result * base)

-- `ipow` with a base that is not negative
unfoldable pub ipow : (base : ℕ) → (exp : ℤ) → ℕ
unfolding power_loop
ipow base exp =
    if base == 0
    then 0
    else elim exp [ negsuc n ↦ 0 | pos zero ↦ 1 | pos (suc n) ↦ power_loop (suc n) base 1 ]

-- `while (*str && !isdigit(*str) && *str != '-') str++`
unfoldable pub skip_other : List ℕ → List ℕ
skip_other [] = []
skip_other (c ∷ str) = let rest = skip_other str in if isdigit c || (c == 45) then c ∷ str else rest

-- the bytes up to `end`
unfoldable pub digit_run : List ℕ → List ℕ
digit_run [] = []
digit_run (c ∷ str) = let rest = digit_run str in if isdigit c then c ∷ rest else []

-- `for (i = 0; i < len; i++)`: each digit times its power of 10
unfoldable pub sum_digits : List ℕ → ℕ
sum_digits [] = 0
sum_digits (c ∷ p) = (c - 48) * ipow 10 (pos (length p)) + sum_digits p

abbrev pub negated : ℕ → ℤ
negated zero = pos 0
negated (suc n) = negsuc n

-- the number behind the sign
unfoldable pub magnitude : List ℕ → ℕ
unfolding digit_run sum_digits
magnitude str = sum_digits (digit_run str)

unfoldable pub atoi_sign : List ℕ → ℤ
atoi_sign [] = pos 0
atoi_sign (c ∷ str) = if c == 45 then negated (magnitude str) else pos (magnitude (c ∷ str))

unfoldable pub atoi : List ℕ → ℤ
atoi str = atoi_sign (skip_other str)

-- `rand` with its state `next`, of 32 bits: the number, and the next state
unfoldable pub rand : (next : ℕ) → ℕ × ℕ
rand next = let n = (next * 1103515245 + 12345) % 2 ^ 32 in (n / 65536 % 32768, n)

abbrev pub srand : (seed : ℕ) → ℕ
srand seed = seed
