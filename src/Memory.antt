-- ===== src/Memory.antt =====
-- `memcpy` between objects in memory: an object is the list of its bytes, and an access outside
-- of it is a fault, `none`. The copies of src/kernel/pipe.c and src/lib/string.c go through it.
use exscape_os.Prelude.{
  ℕ, zero, suc, ◌+◌, ◌≤◌, ◌<◌, ◌≡◌, refl, ap, List, [], ◌∷◌, ◌++◌, Option, none, some, arith, leb,
  if◌then◌else◌, length, take, drop, length-append, length-take, length-drop, Bool-cases, inl, inr,
  leb→le,
}

-- the `n` bytes from offset `at` on, as `memcpy` reads them
unfoldable pub slice : (at n : ℕ) → List ℕ → Option (List ℕ)
slice at n xs = if leb (at + n) (length xs) then some (take n (drop at xs)) else none

-- the object after `memcpy` has written `bytes` from offset `at` on
unfoldable pub splice : (at : ℕ) → List ℕ → List ℕ → Option (List ℕ)
splice at bytes xs =
    if leb (at + length bytes) (length xs)
    then some (take at xs ++ (bytes ++ drop (at + length bytes) xs))
    else none

take_part : (a b c : List ℕ) → take (length b) (drop (length a) (a ++ (b ++ c))) ≡ b
take_part [] [] c = refl
take_part [] (x ∷ b) c = ap (λ r. x ∷ r) (take_part [] b c)
take_part (x ∷ a) b c = take_part a b c

take_front : (a b : List ℕ) → take (length a) (a ++ b) ≡ a
take_front [] b = refl
take_front (x ∷ a) b = ap (λ r. x ∷ r) (take_front a b)

drop_part : (a b c : List ℕ) (k : ℕ) → length b ≡ k → drop (length a + k) (a ++ (b ++ c)) ≡ c
drop_part [] [] c k h = let e : 0 + k ≡ 0 = omega arith in rw e
drop_part [] (x ∷ b) c k h =
    let e : 0 + k ≡ suc (0 + length b) = omega arith in rw e (drop_part [] b c (length b) refl)
drop_part (x ∷ a) b c k h =
    let e : length (x ∷ a) + k ≡ suc (length a + k) = omega arith in rw e (drop_part a b c k h)

-- Reading the middle of an object.
pub slice-append :
    (a b c : List ℕ) (at n : ℕ) → at ≡ length a → n ≡ length b → slice at n (a ++ (b ++ c)) ≡ some b
unfolding slice
slice-append a b c at n ea eb =
    rw (ea, eb) (ground (arith, take_part a b c, length-append a (b ++ c), length-append b c))

-- Writing over the middle of an object.
pub splice-append :
    (a b c d : List ℕ) (at : ℕ)
    → at ≡ length a
    → length d ≡ length b
    → splice at d (a ++ (b ++ c)) ≡ some (a ++ (d ++ c))
unfolding splice
splice-append a b c d at ea e = rw ea (
    ground (
      arith,
      take_front a (b ++ c),
      drop_part a b c (length d),
      length-append a (b ++ c),
      length-append b c,
    ))

-- A write that leaves the object faults.
pub splice-fault : (at : ℕ) (d xs : List ℕ) → length xs < at + length d → splice at d xs ≡ none
unfolding splice
splice-fault at d xs h = ground arith

-- A read that leaves the object faults.
pub slice-fault : (at n : ℕ) (xs : List ℕ) → length xs < at + n → slice at n xs ≡ none
unfolding slice
slice-fault at n xs h = ground arith

-- What a read yields has the length that was asked for.
pub length-slice : (at n : ℕ) (xs : List ℕ) {ys : List ℕ} → slice at n xs ≡ some ys → length ys ≡ n
unfolding slice
length-slice at n xs {ys} h = elim (Bool-cases (leb (at + n) (length xs))) [
  | inl inside ↦
      let e : some (take n (drop at xs)) ≡ some ys = rw inside at h in
      let e' : take n (drop at xs) ≡ ys = cc in
      rw (← e') (omega (arith, length-take n (drop at xs), length-drop at xs, leb→le _ _ inside))
  | inr outside ↦ let bad : none ≡ some ys = rw outside at h in cc
]

-- Two ways to cut one list, the first cut no later than the second.
pub append-split :
    (a b c d : List ℕ)
    → a ++ b ≡ c ++ d
    → length a ≤ length c
    → (m : List ℕ) × (c ≡ a ++ m) × (b ≡ m ++ d)
append-split [] b c d e h = (c, refl, e)
append-split (x ∷ a) b [] d e h = absurd (omega arith)
append-split (x ∷ a) b (y ∷ c) d e h =
    let r : (m : List ℕ) × (c ≡ a ++ m) × (b ≡ m ++ d) = append-split a b c d (cc) (omega arith) in
    (r.0, cc (r.1), r.2)

-- A list cut at a length that it has.
pub cut :
    (n : ℕ) (xs : List ℕ)
    → n ≤ length xs
    → (a : List ℕ) × (b : List ℕ) × (xs ≡ a ++ b) × (length a ≡ n)
cut zero xs h = ([], xs, refl, refl)
cut (suc n) [] h = absurd (omega arith)
cut (suc n) (x ∷ xs) h =
    let r : (a : List ℕ) × (b : List ℕ) × (xs ≡ a ++ b) × (length a ≡ n) = cut n xs (omega arith) in
    (x ∷ r.0, r.1, ap (λ t. x ∷ t) r.2, ap suc r.3)

pub length_zero : (xs : List ℕ) → length xs ≡ 0 → xs ≡ []
length_zero [] h = refl
length_zero (x ∷ xs) h = absurd (omega arith)
