-- ===== src/CString/Search.antt =====
-- The searches of lib/string.c: `strspn` and `strcspn` against the longest run, and `strstr`.
use exscape_os.Prelude.{
  ℕ, zero, suc, ◌+◌, ◌≤◌, ◌<◌, ◌≡◌, inl, inr, refl, ap, Bool, true, false, ◌||◌, List, [], ◌∷◌,
  ◌++◌, Option, none, some, arith, ◌==◌, if◌then◌else◌, Bool-cases, Option-cases, is_some, length,
  length-append, get_elem?, take, drop, ◌⊎◌,
}
use exscape_os.CString.{char, find_char, strchr, strspn, strcspn, agree, strstr_from, strstr}
use exscape_os.CString.Compare.{IsText}

-- whether a byte is among others
unfoldable pub elem : ℕ → List ℕ → Bool
elem c [] = false
elem c (y ∷ ys) = (y == c) || elem c ys

-- the length of the longest front whose bytes all pass, or all fail, the test of being in `ys`
unfoldable pub run_of : Bool → (ys xs : List ℕ) → ℕ
unfolding elem
run_of b ys [] = 0
run_of true ys (c ∷ xs) = if elem c ys then 1 + run_of true ys xs else 0
run_of false ys (c ∷ xs) = if elem c ys then 0 else 1 + run_of false ys xs

find_char-elem :
    (ys r : List ℕ) (c : ℕ)
    → IsText ys
    → 0 < c
    → (found : Option ℕ) × (find_char (ys ++ 0 ∷ r) c ≡ some found) × (is_some found ≡ elem c ys)
unfolding find_char elem
find_char-elem [] r c v h = (none, ground arith, refl)
find_char-elem (y ∷ ys) r c v h = elim (Bool-cases (y == c)) [
  | inl e ↦ (some 0, ground (arith, e), ground (arith, e))
  | inr ne ↦
      let (found, e, m) = find_char-elem ys r c v.1 h in
      elim (Option-cases found) [
        | inl n ↦ (none, ground (arith, ne, e, n, v.0), ground (arith, ne, m, n))
        | inr (i, s) ↦ (some (i + 1), ground (arith, ne, e, s, v.0), ground (arith, ne, m, s))
      ]
]

strchr-elem :
    (ys r : List ℕ) (c : ℕ)
    → IsText ys
    → 0 < c
    → c < 256
    → (found : Option ℕ) × (strchr (ys ++ 0 ∷ r) c ≡ some found) × (is_some found ≡ elem c ys)
unfolding strchr
strchr-elem ys r c v h k = let e : char c ≡ c = omega arith in rw e (find_char-elem ys r c v h)

-- `strspn` returns the length of the longest front of the first string that has only bytes of
-- the second.
pub strspn-run_of :
    (xs ys r s : List ℕ)
    → IsText xs
    → IsText ys
    → strspn (xs ++ 0 ∷ r) (ys ++ 0 ∷ s) ≡ some (run_of true ys xs)
unfolding strspn run_of
strspn-run_of [] ys r s v w = refl
strspn-run_of (zero ∷ xs) ys r s v w = absurd (omega (arith, v.0))
strspn-run_of (suc c ∷ xs) ys r s v w =
    let (found, e, m) = strchr-elem ys s (suc c) w (omega arith) (omega (arith, v.0)) in
    rw (e, m, strspn-run_of xs ys r s v.1 w) (ground arith)

-- `strcspn` returns the length of the longest front of the first string that has no byte of the
-- second.
pub strcspn-run_of :
    (xs ys r s : List ℕ)
    → IsText xs
    → IsText ys
    → strcspn (xs ++ 0 ∷ r) (ys ++ 0 ∷ s) ≡ some (run_of false ys xs)
unfolding strcspn run_of
strcspn-run_of [] ys r s v w = refl
strcspn-run_of (zero ∷ xs) ys r s v w = absurd (omega (arith, v.0))
strcspn-run_of (suc c ∷ xs) ys r s v w =
    let (found, e, m) = strchr-elem ys s (suc c) w (omega arith) (omega (arith, v.0)) in
    rw (e, m, strcspn-run_of xs ys r s v.1 w) (ground arith)

-- `agree` ends at the needle's terminator just behind a copy of the needle.
agree-prefix :
    (p1 ys s : List ℕ) (n : ℕ)
    → IsText ys
    → agree p1 (ys ++ 0 ∷ s) ≡ some (n, 0)
    → take (length ys) p1 ≡ ys
unfolding agree
agree-prefix p1 [] s n v h = refl
agree-prefix p1 (zero ∷ ys) s n v h = absurd (omega (arith, v.0))
agree-prefix [] (suc d ∷ ys) s n v h = absurd cc
agree-prefix (c ∷ p1) (suc d ∷ ys) s n v h = elim (Option-cases (agree p1 (ys ++ 0 ∷ s))) [
  | inl e ↦ absurd (ground (arith, h, e))
  | inr ((m, zero), e) ↦
      let same : c ≡ suc d = ground (arith, h, e) in rw (same, agree-prefix p1 ys s m v.1 e) refl
  | inr ((m, suc k), e) ↦ absurd (ground (arith, h, e))
]

strstr_from-prefix :
    (fuel at : ℕ) (haystack ys s : List ℕ) (i : ℕ)
    → IsText ys
    → strstr_from fuel at haystack (ys ++ 0 ∷ s) ≡ some (some i)
    → take (length ys) (drop i haystack) ≡ ys
unfolding strstr_from
strstr_from-prefix zero at haystack ys s i v h = absurd cc
strstr_from-prefix (suc fuel) at haystack ys s i v h = elim (Option-cases (get_elem? haystack at)) [
  | inl e ↦ absurd (ground (arith, h, e))
  | inr (c, e) ↦ elim (Option-cases (get_elem? (ys ++ 0 ∷ s) 0)) [
    | inl e' ↦ absurd (ground (arith, h, e, e'))
    | inr (d, e') ↦ elim (Bool-cases (c == 0)) [
      | inl z ↦ absurd (ground (arith, h, e, e', z))
      | inr nz ↦ elim (Bool-cases (c == d)) [
        | inr ne ↦ strstr_from-prefix fuel (at + 1) haystack ys s i v (rw (e, e', nz, ne) at h)
        | inl eq ↦ elim (Option-cases (agree (drop at haystack) (ys ++ 0 ∷ s))) [
          | inl a ↦ absurd (cc (rw (e, e', nz, eq, a) at h))
          | inr ((n, zero), a) ↦
              let here : some (some at) ≡ some (some i) = rw (e, e', nz, eq, a) at h in
              let same : at ≡ i = cc in rw same at (agree-prefix (drop at haystack) ys s n v a)
          | inr ((n, suc k), a) ↦
              strstr_from-prefix fuel (at + n) haystack ys s i v (rw (e, e', nz, eq, a) at h)
        ]
      ]
    ]
  ]
]

-- Where `strstr` returns a place in the first string, the bytes of the second stand there.
pub strstr-prefix :
    (haystack ys s : List ℕ) (i : ℕ)
    → IsText ys
    → strstr haystack (ys ++ 0 ∷ s) ≡ some (some i)
    → take (length ys) (drop i haystack) ≡ ys
unfolding strstr
strstr-prefix haystack [] s i v h = refl
strstr-prefix haystack (y ∷ ys) s i v h =
    strstr_from-prefix (length haystack) 0 haystack (y ∷ ys) s i v (ground (arith, h, v.0))

agree_lem :
    (xs ys r s : List ℕ)
    → IsText xs
    → IsText ys
    → (n : ℕ) × (e : ℕ) × (agree (xs ++ 0 ∷ r) (ys ++ 0 ∷ s) ≡ some (n, e)) × (n ≤ length xs)
unfolding agree
agree_lem xs [] r s v w = (0, 0, refl, omega arith)
agree_lem xs (zero ∷ ys) r s v w = absurd (omega (arith, w.0))
agree_lem [] (suc d ∷ ys) r s v w = (0, suc d, ground arith, omega arith)
agree_lem (c ∷ xs) (suc d ∷ ys) r s v w =
    let (n, e, a, le) = agree_lem xs ys r s v.1 w.1 in
    elim (Bool-cases (c == suc d)) [
      | inl eq ↦ (n + 1, e, rw (a, eq) refl, omega arith)
      | inr ne ↦ (0, suc d, rw (a, ne) refl, omega arith)
    ]

drop-text : (n : ℕ) (xs r : List ℕ) → n ≤ length xs → drop n (xs ++ r) ≡ drop n xs ++ r
drop-text zero xs r h = refl
drop-text (suc n) [] r h = absurd (omega arith)
drop-text (suc n) (x ∷ xs) r h = drop-text n xs r (omega arith)

drop-IsText : (n : ℕ) (xs : List ℕ) → IsText xs → IsText (drop n xs)
drop-IsText zero xs v = v
drop-IsText (suc n) [] v = v
drop-IsText (suc n) (x ∷ xs) v = drop-IsText n xs v.1

-- at a place inside a string there is its byte, and the rest of the string behind it
place_cases :
    (n : ℕ) (xs r : List ℕ)
    → n ≤ length xs
    → IsText xs
    → ((n ≡ length xs) × (get_elem? (xs ++ 0 ∷ r) n ≡ some 0))
      ⊎ ((c : ℕ) × (ys : List ℕ) × (get_elem? (xs ++ 0 ∷ r) n ≡ some (suc c))
          × (drop n (xs ++ 0 ∷ r) ≡ suc c ∷ ys ++ 0 ∷ r)
          × IsText ys
          × (n + 1 + length ys ≡ length xs))
place_cases n [] r h v = let e : n ≡ 0 = omega arith in inl (e, rw e refl)
place_cases zero (zero ∷ xs) r h v = absurd (omega (arith, v.0))
place_cases zero (suc c ∷ xs) r h v = inr (c, xs, refl, refl, v.1, omega arith)
place_cases (suc n) (x ∷ xs) r h v = elim (place_cases n xs r (omega arith) v.1) [
  | inl (e, g) ↦ inl (ap suc e, g)
  | inr (c, ys, g, d, w, e) ↦ inr (c, ys, g, d, w, omega arith)
]

either_is_some :
    (k : ℕ) (a b : Option (Option ℕ))
    → is_some a ≡ true
    → is_some b ≡ true
    → is_some (elim k as (λ x. Option (Option ℕ)) [ zero ↦ a | suc e ↦ b ]) ≡ true
either_is_some zero a b h k = h
either_is_some (suc e) a b h k = k

strstr_from-is_some :
    (fuel at : ℕ) (xs r ys s : List ℕ) (d : ℕ)
    → IsText xs
    → IsText ys
    → at ≤ length xs
    → length xs < fuel + at
    → is_some (strstr_from fuel at (xs ++ 0 ∷ r) (suc d ∷ ys ++ 0 ∷ s)) ≡ true
unfolding strstr_from agree
strstr_from-is_some zero at xs r ys s d v w le lt = absurd (omega arith)
strstr_from-is_some (suc fuel) at xs r ys s d v w le lt = elim (place_cases at xs r le v) [
  | inl (e, g) ↦ rw g refl
  | inr (c, zs, g, dr, t, e) ↦
      let nz : (suc c == 0) ≡ false = ground arith in
      elim (Bool-cases (suc c == suc d)) [
        | inr ne ↦
            rw (g, nz, ne)
              (strstr_from-is_some fuel (at + 1) xs r ys s d v w (omega arith) (omega arith))
        | inl eq ↦
            let (n, k, a, n_le) = agree_lem zs ys r s t w in
            rw (g, nz, eq, dr)
              (rw (a, eq)
                (either_is_some k _ _ refl (
                  strstr_from-is_some fuel (at + (n + 1)) xs r ys s d v w (omega arith)
                    (omega arith))))
      ]
]

-- `strstr` of two strings ends, whether it finds a place or not.
pub strstr-is_some :
    (xs ys r s : List ℕ)
    → IsText xs
    → IsText ys
    → is_some (strstr (xs ++ 0 ∷ r) (ys ++ 0 ∷ s)) ≡ true
unfolding strstr
strstr-is_some xs [] r s v w = refl
strstr-is_some xs (zero ∷ ys) r s v w = absurd (omega (arith, w.0))
strstr-is_some xs (suc d ∷ ys) r s v w =
    let nz : (suc d == 0) ≡ false = ground arith in
    rw nz (
      strstr_from-is_some (length (xs ++ 0 ∷ r)) 0 xs r ys s d v w.1 (omega arith)
        (omega (arith, length-append xs (0 ∷ r))))
