-- ===== src/Pmm/Count.antt =====
-- `pmm_bytes_free` and `pmm_bytes_used` of kernel/pmm.c against the number of clear and set bits.
use exscape_os.Prelude.{
  ℕ, zero, suc, ◌+◌, ◌*◌, ◌/◌, ◌^◌, ◌≤◌, ◌<◌, ◌≡◌, inl, inr, refl, ap, ◌∙◌, subst, Bool, true,
  false, List, [], ◌∷◌, ◌++◌, some, arith, if◌then◌else◌, Bool-cases, length, get_elem?, set, take,
  drop, length-take,
}
use exscape_os.Pmm.{
  Pmm, page_size, all_set, all_clear, dword, count_bits, sum_free, sum_used, pmm_bytes_free,
  pmm_bytes_used, pmm_alloc,
}
use exscape_os.Pmm.Scan.{length-dword}
use exscape_os.Pmm.Alloc.{IsPmm, pmm_alloc-lowest, pmm_alloc-IsPmm, taken}

count_bits-append :
    (b : Bool) (xs ys : List Bool) → count_bits b (xs ++ ys) ≡ count_bits b xs + count_bits b ys
unfolding count_bits
count_bits-append true [] ys = omega arith
count_bits-append false [] ys = omega arith
count_bits-append true (x ∷ xs) ys = ground (arith, count_bits-append true xs ys)
count_bits-append false (x ∷ xs) ys = ground (arith, count_bits-append false xs ys)

count_bits-all_set :
    (xs : List Bool)
    → all_set xs ≡ true
    → (count_bits true xs ≡ length xs) × (count_bits false xs ≡ 0)
unfolding count_bits all_set
count_bits-all_set [] h = (refl, refl)
count_bits-all_set (true ∷ xs) h = let (t, f) = count_bits-all_set xs h in (omega (arith, t), f)
count_bits-all_set (false ∷ xs) h = absurd cc

count_bits-all_clear :
    (xs : List Bool)
    → all_clear xs ≡ true
    → (count_bits false xs ≡ length xs) × (count_bits true xs ≡ 0)
unfolding count_bits all_clear
count_bits-all_clear [] h = (refl, refl)
count_bits-all_clear (false ∷ xs) h =
    let (t, f) = count_bits-all_clear xs h in (omega (arith, t), f)
count_bits-all_clear (true ∷ xs) h = absurd cc

count_bits-sum : (xs : List Bool) → count_bits false xs + count_bits true xs ≡ length xs
unfolding count_bits
count_bits-sum [] = refl
count_bits-sum (true ∷ xs) = omega (arith, count_bits-sum xs)
count_bits-sum (false ∷ xs) = omega (arith, count_bits-sum xs)

take_nil : (n : ℕ) → [] ≡ take {A = Bool} n []
take_nil zero = refl
take_nil (suc n) = refl

drop_nil : (n : ℕ) → drop {A = Bool} n [] ≡ []
drop_nil zero = refl
drop_nil (suc n) = refl

take_add : (m n : ℕ) (xs : List Bool) → take (m + n) xs ≡ take m xs ++ take n (drop m xs)
take_add zero n xs = let e : 0 + n ≡ n = omega arith in rw e
take_add (suc m) n [] = let e : suc m + n ≡ suc (m + n) = omega arith in rw e (take_nil n)
take_add (suc m) n (x ∷ xs) =
    let e : suc m + n ≡ suc (m + n) = omega arith in rw e (ap (λ r. x ∷ r) (take_add m n xs))

drop_add : (m n : ℕ) (xs : List Bool) → drop n (drop m xs) ≡ drop (m + n) xs
drop_add zero n xs = let e : 0 + n ≡ n = omega arith in rw e
drop_add (suc m) n [] = let e : suc m + n ≡ suc (m + n) = omega arith in rw e (drop_nil n)
drop_add (suc m) n (x ∷ xs) =
    let e : suc m + n ≡ suc (m + n) = omega arith in rw e (drop_add m n xs)

-- the bits of `rounds` dwords from `index` on
abbrev bits_from : (rounds index : ℕ) → List Bool → List Bool
bits_from rounds index used = take (32 * rounds) (drop (32 * index) used)

bits_from-suc :
    (r i : ℕ) (used : List Bool)
    → bits_from (suc r) i used ≡ dword i used ++ bits_from r (i + 1) used
bits_from-suc r i used =
    let e : 32 * suc r ≡ 32 + 32 * r = omega arith in
    let e' : 32 * (i + 1) ≡ 32 * i + 32 = omega arith in
    rw (e, e', take_add 32 (32 * r) (drop (32 * i) used), drop_add (32 * i) 32 used) refl

-- a dword's part of the sum, by its three cases
dword_free :
    (bits : List Bool)
    → length bits ≡ 32
    → (rest : ℕ)
    → (if all_clear bits
        then page_size * 32 + rest
        else if all_set bits
        then rest
        else count_bits false bits * page_size + rest)
      ≡ count_bits false bits * page_size + rest
dword_free bits len rest = elim (Bool-cases (all_clear bits)) [
  | inl c ↦ let (f, t) = count_bits-all_clear bits c in rw c (omega arith)
  | inr not_clear ↦ elim (Bool-cases (all_set bits)) [
    | inl s ↦ let (t, f) = count_bits-all_set bits s in rw (not_clear, s) (omega arith)
    | inr not_set ↦ rw (not_clear, not_set) refl
  ]
]

sum_free_lem :
    (r i : ℕ) (used : List Bool)
    → 32 * (i + r) ≤ length used
    → sum_free r i used ≡ count_bits false (bits_from r i used) * page_size
unfolding sum_free count_bits
sum_free_lem zero i used h = refl
sum_free_lem (suc r) i used h =
    let len = length-dword i used (omega arith) in
    let rest = sum_free_lem r (i + 1) used (omega arith) in
    rw
      (
        bits_from-suc r i used,
        count_bits-append false (dword i used) (bits_from r (i + 1) used),
        rest,
      )
      (dword_free (dword i used) len _ ∙ omega arith)

-- a dword's part of the sum, by its three cases
dword_used :
    (bits : List Bool)
    → length bits ≡ 32
    → (rest : ℕ)
    → (if all_clear bits
        then rest
        else if all_set bits
        then 32 * 4096 + rest
        else count_bits true bits * page_size + rest)
      ≡ count_bits true bits * page_size + rest
dword_used bits len rest = elim (Bool-cases (all_clear bits)) [
  | inl c ↦ let (f, t) = count_bits-all_clear bits c in rw c (omega arith)
  | inr not_clear ↦ elim (Bool-cases (all_set bits)) [
    | inl s ↦ let (t, f) = count_bits-all_set bits s in rw (not_clear, s) (omega arith)
    | inr not_set ↦ rw (not_clear, not_set) refl
  ]
]

sum_used_lem :
    (r i : ℕ) (used : List Bool)
    → 32 * (i + r) ≤ length used
    → sum_used r i used ≡ count_bits true (bits_from r i used) * page_size
unfolding sum_used count_bits
sum_used_lem zero i used h = refl
sum_used_lem (suc r) i used h =
    let len = length-dword i used (omega arith) in
    let rest = sum_used_lem r (i + 1) used (omega arith) in
    rw
      (
        bits_from-suc r i used,
        count_bits-append true (dword i used) (bits_from r (i + 1) used),
        rest,
      )
      (dword_used (dword i used) len _ ∙ omega arith)

-- the bits that the two functions look at: those of the whole dwords
abbrev pub counted : Pmm → List Bool
counted p = take (32 * (p.nframes / 32)) p.used_frames

length-counted : (p : Pmm) → IsPmm p → length (counted p) ≡ 32 * (p.nframes / 32)
length-counted p v =
    let len = v.length_used in length-take (32 * (p.nframes / 32)) p.used_frames ∙ omega arith

count-le :
    (p : Pmm)
    → IsPmm p
    → p.nframes < 2 ^ 20
    → (count_bits false (counted p) < 2 ^ 20) × (count_bits true (counted p) < 2 ^ 20)
count-le p v lt =
    let sum = count_bits-sum (counted p) in
    let len = length-counted p v in (omega arith, omega arith)

pub pmm_bytes_free-count :
    (p : Pmm)
    → IsPmm p
    → p.nframes < 2 ^ 20
    → pmm_bytes_free p ≡ count_bits false (counted p) * page_size
unfolding pmm_bytes_free
pmm_bytes_free-count p v lt =
    let len = v.length_used in
    let (f, t) = count-le p v lt in
    rw (sum_free_lem (p.nframes / 32) 0 p.used_frames (omega arith)) (omega arith)

pub pmm_bytes_used-count :
    (p : Pmm)
    → IsPmm p
    → p.nframes < 2 ^ 20
    → pmm_bytes_used p ≡ count_bits true (counted p) * page_size
unfolding pmm_bytes_used
pmm_bytes_used-count p v lt =
    let len = v.length_used in
    let (f, t) = count-le p v lt in
    rw (sum_used_lem (p.nframes / 32) 0 p.used_frames (omega arith)) (omega arith)

-- With fewer than 2 ^ 20 frames, the free and the used bytes add up to the memory that the whole
-- dwords of the bitmap stand for.
pub pmm_bytes_free-pmm_bytes_used :
    (p : Pmm)
    → IsPmm p
    → p.nframes < 2 ^ 20
    → pmm_bytes_free p + pmm_bytes_used p ≡ p.nframes / 32 * 32 * page_size
pmm_bytes_free-pmm_bytes_used p v lt =
    let sum = count_bits-sum (counted p) in
    let len = length-counted p v in
    omega (arith, pmm_bytes_free-count p v lt, pmm_bytes_used-count p v lt)

count_bits-set :
    (n k : ℕ) (xs : List Bool)
    → k < n
    → get_elem? xs k ≡ some false
    → count_bits false (take n xs) ≡ count_bits false (take n (set xs k true)) + 1
unfolding count_bits
count_bits-set zero k xs h c = absurd (omega arith)
count_bits-set (suc n) k [] h c = absurd cc
count_bits-set (suc n) zero (x ∷ xs) h c = ground (arith, c)
count_bits-set (suc n) (suc k) (x ∷ xs) h c = ground (arith, count_bits-set n k xs (omega arith) c)

-- `pmm_alloc` leaves one frame less that is free, by what `pmm_bytes_free` returns.
pub pmm_alloc-pmm_bytes_free :
    (p q : Pmm) (a : ℕ)
    → IsPmm p
    → p.nframes < 2 ^ 20
    → pmm_alloc p ≡ some (a, q)
    → pmm_bytes_free p ≡ pmm_bytes_free q + page_size
pmm_alloc-pmm_bytes_free p q a v lt h = elim (pmm_alloc-lowest p v) [
  | inl (e, full) ↦ absurd cc
  | inr (k, e, c, inside, front) ↦
      let same : q ≡ taken k p = cc in
      let w : IsPmm (taken k p) = subst IsPmm same (pmm_alloc-IsPmm p q a v h) in
      rw same (
        omega (
          arith,
          pmm_bytes_free-count p v lt,
          pmm_bytes_free-count (taken k p) w lt,
          count_bits-set (32 * (p.nframes / 32)) k p.used_frames inside c,
        ))
]
