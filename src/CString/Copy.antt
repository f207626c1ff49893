-- ===== src/CString/Copy.antt =====
-- The copies of lib/string.c: what `strlcpy` and `strlcat` leave in the destination.
use exscape_os.Prelude.{
  ℕ, zero, suc, ◌+◌, ◌-◌, ◌≤◌, ◌<◌, ◌≡◌, inl, inr, refl, ap, ◌∙◌, true, false, ◌&&◌, List, [], ◌∷◌,
  ◌++◌, some, arith, ltb, leb, ◌==◌, Bool-cases, length, length-append, set, take, drop, take_all,
  append_assoc, length-take, length-drop, take-append, drop-append,
}
use exscape_os.CString.{strcpy, strlen, copy_bytes, store, strlcpy, strlcat}
use exscape_os.CString.Compare.{IsText}

-- `strlen` of a string is the number of its bytes.
pub strlen_lem : (xs r : List ℕ) → IsText xs → strlen (xs ++ 0 ∷ r) ≡ some (length xs)
unfolding strlen
strlen_lem [] r v = refl
strlen_lem (zero ∷ xs) r v = absurd (omega (arith, v.0))
strlen_lem (suc c ∷ xs) r v = rw (strlen_lem xs r v.1) (ap some (omega arith))

strcpy_lem :
    (dst xs r : List ℕ)
    → IsText xs
    → length xs < length dst
    → strcpy dst (xs ++ 0 ∷ r) ≡ some (xs ++ 0 ∷ drop (suc (length xs)) dst)
unfolding strcpy
strcpy_lem [] xs r v h = absurd (omega arith)
strcpy_lem (d ∷ dst) [] r v h = refl
strcpy_lem (d ∷ dst) (zero ∷ xs) r v h = absurd (omega (arith, v.0))
strcpy_lem (d ∷ dst) (suc c ∷ xs) r v h = rw (strcpy_lem dst xs r v.1 (omega arith)) refl

copy_bytes_lem :
    (n : ℕ) (dst src : List ℕ)
    → n ≤ length dst
    → n ≤ length src
    → copy_bytes n dst src ≡ some (take n src ++ drop n dst)
unfolding copy_bytes
copy_bytes_lem zero dst src h k = refl
copy_bytes_lem (suc n) [] src h k = absurd (omega arith)
copy_bytes_lem (suc n) (d ∷ dst) [] h k = absurd (omega arith)
copy_bytes_lem (suc n) (d ∷ dst) (c ∷ src) h k =
    rw (copy_bytes_lem n dst src (omega arith) (omega arith)) refl

set-append : (xs ys : List ℕ) (y c : ℕ) → set (xs ++ y ∷ ys) (length xs) c ≡ xs ++ c ∷ ys
set-append [] ys y c = refl
set-append (x ∷ xs) ys y c = ap (λ r. x ∷ r) (set-append xs ys y c)

store_lem :
    (xs ys : List ℕ) (c : ℕ)
    → 0 < length ys
    → store (length xs) c (xs ++ ys) ≡ some (xs ++ c ∷ drop 1 ys)
unfolding store
store_lem xs [] c h = absurd (omega arith)
store_lem xs (y ∷ ys) c h =
    let inside : ltb (length xs) (length (xs ++ y ∷ ys)) ≡ true =
      ground (arith, length-append xs (y ∷ ys)) in
    rw (inside, set-append xs ys y c) refl

take-text : (n : ℕ) (xs ys : List ℕ) → n ≤ length xs → take n (xs ++ ys) ≡ take n xs
take-text zero xs ys h = refl
take-text (suc n) [] ys h = absurd (omega arith)
take-text (suc n) (x ∷ xs) ys h = ap (λ r. x ∷ r) (take-text n xs ys (omega arith))

drop-suc : (n : ℕ) (xs : List ℕ) → drop 1 (drop n xs) ≡ drop (suc n) xs
drop-suc zero xs = refl
drop-suc (suc n) [] = refl
drop-suc (suc n) (x ∷ xs) = drop-suc n xs

-- the terminator behind what was copied
end_lem :
    (t dst : List ℕ)
    → length t < length dst
    → store (length t) 0 (t ++ drop (length t) dst) ≡ some (t ++ 0 ∷ drop (suc (length t)) dst)
end_lem t dst h =
    rw
      (
        store_lem t (drop (length t) dst) 0 (omega (arith, length-drop (length t) dst)),
        drop-suc (length t) dst,
      )
      refl

-- `strlcpy` into an object of `size` bytes or more leaves the first `size - 1` bytes of the string
-- with a terminator, no byte behind it changed, and returns the length of the whole string.
pub strlcpy-take :
    (dst xs r : List ℕ) (size : ℕ)
    → IsText xs
    → 0 < size
    → size ≤ length dst
    → strlcpy dst (xs ++ 0 ∷ r) size
      ≡ some (take (size - 1) xs ++ 0 ∷ drop (suc (length (take (size - 1) xs))) dst, length xs)
unfolding strlcpy
strlcpy-take dst xs r size v h k = elim (Bool-cases (leb (length xs + 1) size)) [
  | inl fits ↦
      rw
        (
          strlen_lem xs r v,
          fits,
          strcpy_lem dst xs r v (ground (arith, fits)),
          take_all (size - 1) xs (ground (arith, fits)),
        )
        refl
  | inr long ↦
      let t : List ℕ = take (size - 1) xs in
      let n : length (take (size - 1) xs) ≡ size - 1 =
        ground (arith, long, length-take (size - 1) xs) in
      let positive : (size == 0) ≡ false = ground arith in
      let ended : store (size - 1) 0 (take (size - 1) xs ++ drop (size - 1) dst)
          ≡ some (take (size - 1) xs ++ 0 ∷ drop (suc (size - 1)) dst) =
        rw n at (end_lem (take (size - 1) xs) dst (omega arith)) in
      rw
        (
          strlen_lem xs r v,
          long,
          positive,
          copy_bytes_lem (size - 1) dst (xs ++ 0 ∷ r) (omega arith)
              (ground (arith, long, length-append xs (0 ∷ r))),
          take-text (size - 1) xs (0 ∷ r) (ground (arith, long)),
          ended,
          n,
        )
        refl
]

-- what `strlcat` appends, where `room` bytes of the destination's `size` are left
cat_lem :
    (rest xs r : List ℕ) (copy : ℕ)
    → copy ≤ length xs
    → copy < length rest
    → copy_bytes copy rest (xs ++ 0 ∷ r) ≡ some (take copy xs ++ drop copy rest)
cat_lem rest xs r copy h k =
    copy_bytes_lem copy rest (xs ++ 0 ∷ r) (omega arith) (omega (arith, length-append xs (0 ∷ r)))
    ∙ ap (λ t. some (t ++ drop copy rest)) (take-text copy xs (0 ∷ r) h)

-- the terminator behind what was appended
end_cat :
    (ys rest xs : List ℕ) (copy : ℕ)
    → copy ≤ length xs
    → copy < length rest
    → store (length ys + copy) 0 (ys ++ (take copy xs ++ drop copy rest))
      ≡ some (ys ++ (take copy xs ++ 0 ∷ drop (suc copy) rest))
end_cat ys rest xs copy h k =
    let n : length (ys ++ take copy xs) ≡ length ys + copy =
      length-append ys (take copy xs) ∙ omega (arith, length-take copy xs) in
    let l : store (length ys + copy) 0 ((ys ++ take copy xs) ++ drop copy rest)
        ≡ some ((ys ++ take copy xs) ++ 0 ∷ drop 1 (drop copy rest)) =
      rw n at (
        store_lem (ys ++ take copy xs) (drop copy rest) 0 (omega (arith, length-drop copy rest))) in
    rw
      (
        append_assoc ys (take copy xs) (drop copy rest),
        append_assoc ys (take copy xs) (0 ∷ drop 1 (drop copy rest)),
        drop-suc copy rest,
      )
      at l

-- `strlcat` onto a string that leaves room in an object of `size` bytes or more: as much of the
-- second string as leaves the last byte for the terminator; it returns the sum of both lengths.
pub strlcat-take :
    (ys rest xs r : List ℕ) (size : ℕ)
    → IsText ys
    → IsText xs
    → length ys + 1 < size
    → size ≤ length ys + 1 + length rest
    → strlcat (ys ++ 0 ∷ rest) (xs ++ 0 ∷ r) size
      ≡ some (
        ys
            ++ (take (size - length ys - 1) xs
                ++ 0 ∷ drop (length (take (size - length ys - 1) xs)) rest),
        length ys + length xs,
      )
unfolding strlcat
strlcat-take ys rest xs r size v w h k =
    let room : (ltb 0 size && ltb (length ys) (size - 1)) ≡ true = ground arith in
    elim (Bool-cases (leb (size - length ys) (length xs))) [
      | inl long ↦
          let le : size - length ys - 1 ≤ length xs = ground (arith, long) in
          let n : length (take (size - length ys - 1) xs) ≡ size - length ys - 1 =
            omega (arith, length-take (size - length ys - 1) xs) in
          rw
            (
              strlen_lem ys rest v,
              strlen_lem xs r w,
              room,
              long,
              drop-append ys (0 ∷ rest),
              take-append ys (0 ∷ rest),
              cat_lem (0 ∷ rest) xs r (size - length ys - 1) le (omega arith),
              end_cat ys (0 ∷ rest) xs (size - length ys - 1) le (omega arith),
              n,
            )
            refl
      | inr fits ↦
          let all : take (size - length ys - 1) xs ≡ xs =
            take_all (size - length ys - 1) xs (ground (arith, fits)) in
          let whole : take (length xs) xs ≡ xs = take_all (length xs) xs (omega arith) in
          let lt : length xs < length (0 ∷ rest) = ground (arith, fits) in
          rw
            (
              strlen_lem ys rest v,
              strlen_lem xs r w,
              room,
              fits,
              drop-append ys (0 ∷ rest),
              take-append ys (0 ∷ rest),
              cat_lem (0 ∷ rest) xs r (length xs) (omega arith) lt,
              end_cat ys (0 ∷ rest) xs (length xs) (omega arith) lt,
              all,
              whole,
            )
            refl
    ]
