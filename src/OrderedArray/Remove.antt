-- ===== src/OrderedArray/Remove.antt =====
-- Removal from an ordered array of kernel/ordered_array.c, on the elements in use.
use exscape_os.Prelude.{
  ℕ, zero, suc, ◌-◌, ◌<◌, ◌≡◌, inl, inr, refl, ◌∙◌, false, List, [], ◌∷◌, ◌++◌, some, arith, ◌==◌,
  Option-cases, length, get_elem?,
}
use exscape_os.OrderedArray.{store, close_gap, remove_ordered_array}
use exscape_os.OrderedArray.Insert.{cons, store-cons}

close_gap-cons :
    (r i x : ℕ) (xs : List ℕ) → close_gap r (suc i) (x ∷ xs) ≡ cons x (close_gap r i xs)
unfolding close_gap
close_gap-cons zero i x xs = refl
close_gap-cons (suc r) i x xs = elim (Option-cases (get_elem? xs (suc i))) [
  | inl e ↦ rw e refl
  | inr (y, e) ↦ elim (Option-cases (store i y xs)) [
    | inl e' ↦ rw (e, store-cons i y x xs, e') refl
    | inr (zs, e') ↦ rw (e, store-cons i y x xs, e') (close_gap-cons r (suc i) x zs)
  ]
]

store_front : (x w : ℕ) (xs : List ℕ) → store 0 x (w ∷ xs) ≡ some (x ∷ xs)
unfolding store
store_front x w xs = ground arith

-- The loop moves the elements behind the first one back by one; the last one it reads stays.
close_gap_lem :
    (zs : List ℕ) (w y : ℕ) (ys : List ℕ)
    → close_gap (suc (length zs)) 0 (w ∷ (zs ++ y ∷ ys)) ≡ some (zs ++ y ∷ y ∷ ys)
unfolding close_gap
close_gap_lem [] w y ys = rw (store_front y w (y ∷ ys)) refl
close_gap_lem (z ∷ zs) w y ys =
    rw (store_front z w (z ∷ (zs ++ y ∷ ys))) (
      close_gap-cons (suc (length zs)) 0 z (z ∷ (zs ++ y ∷ ys)) ∙ rw (close_gap_lem zs z y ys) refl)

-- a list without its element at an index
unfoldable pub remove_at : ℕ → List ℕ → List ℕ
remove_at i [] = []
remove_at zero (x ∷ xs) = xs
remove_at (suc i) (x ∷ xs) = x ∷ remove_at i xs

gap_at :
    (i y : ℕ) (xs ys : List ℕ)
    → i < length xs
    → close_gap (length xs - i) i (xs ++ y ∷ ys) ≡ some (remove_at i xs ++ y ∷ y ∷ ys)
unfolding remove_at
gap_at i y [] ys h = absurd (omega arith)
gap_at zero y (x ∷ xs) ys h =
    let e : suc (length xs) - 0 ≡ suc (length xs) = omega arith in rw e (close_gap_lem xs x y ys)
gap_at (suc i) y (x ∷ xs) ys h =
    let e : suc (length xs) - suc i ≡ length xs - i = omega arith in
    rw e
      (close_gap-cons (length xs - i) i x (xs ++ y ∷ ys) ∙ rw (gap_at i y xs ys (omega arith)) refl)

-- Removal of an index in use leaves the other elements in their order; one element behind those in
-- use must be there to be read.
pub remove_ordered_array-remove_at :
    (i y max : ℕ) (xs ys : List ℕ)
    → i < length xs
    → remove_ordered_array i (record { array = xs ++ y ∷ ys; size = length xs; max_size = max })
      ≡ some (record { array = remove_at i xs ++ y ∷ y ∷ ys; size = length xs - 1; max_size = max })
unfolding remove_ordered_array
remove_ordered_array-remove_at i y max xs ys h =
    let some_left : (length xs == 0) ≡ false = ground arith in
    rw (gap_at i y xs ys h, some_left) refl
