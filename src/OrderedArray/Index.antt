-- ===== src/OrderedArray/Index.antt =====
-- An ordered array of kernel/ordered_array.c as a collection: what an insertion and the removal of
-- an item make of the number of times that each element is in use.
use exscape_os.Prelude.{
  ℕ, zero, suc, ◌+◌, ◌-◌, ◌≤◌, ◌<◌, ◌≡◌, inl, inr, refl, ap, ◌∙◌, sym, subst, Bool, true, List, [],
  ◌∷◌, ◌++◌, some, arith, ltb, ◌==◌, if◌then◌else◌, Bool-cases, length, length-append, get_elem?,
  lt_of_get_elem?, take, drop, take-append, length-take, length-drop, take-append-drop,
}
use exscape_os.OrderedArray.{
  OrderedArray, insert_ordered_array, lookup_ordered_array, index_from, remove_ordered_array_item,
}
use exscape_os.OrderedArray.Insert.{
  insert_sorted, insert_ordered_array-insert_sorted, length-insert_sorted,
}
use exscape_os.OrderedArray.Remove.{remove_at, remove_ordered_array-remove_at}

-- the elements in use
abbrev pub entries : OrderedArray → List ℕ
entries a = take a.size a.array

-- 1 for the element itself
abbrev pub hit : ℕ → ℕ → ℕ
hit x a = if x == a then 1 else 0

unfoldable pub count : ℕ → List ℕ → ℕ
count x [] = 0
count x (a ∷ xs) = hit x a + count x xs

-- There is an element of memory behind the largest array.
pub record IsArray (a : OrderedArray) : Type 0 where
  pub room : a.max_size < length a.array
  pub within : a.size ≤ a.max_size

count-insert_sorted :
    (lt : ℕ → ℕ → Bool) (x a : ℕ) (xs : List ℕ)
    → count x (insert_sorted lt a xs) ≡ count x xs + hit x a
unfolding count insert_sorted
count-insert_sorted lt x a [] = omega arith
count-insert_sorted lt x a (y ∷ ys) = ground (arith, count-insert_sorted lt x a ys)

-- the elements in use, and one element behind them
shape :
    (a : OrderedArray)
    → IsArray a
    → (y : ℕ) × (ys : List ℕ) × (a.array ≡ entries a ++ y ∷ ys) × (length (entries a) ≡ a.size)
shape a v =
    behind (drop a.size a.array) (sym (take-append-drop a.size a.array))
      (omega (arith, length-drop a.size a.array, v.room, v.within))
  where
    n : length (entries a) ≡ a.size
    n = omega (arith, length-take a.size a.array, v.room, v.within)

    behind :
        (rest : List ℕ)
        → a.array ≡ entries a ++ rest
        → 0 < length rest
        → (y : ℕ) × (ys : List ℕ) × (a.array ≡ entries a ++ y ∷ ys) × (length (entries a) ≡ a.size)
    behind [] e h = absurd (omega arith)
    behind (y ∷ ys) e h = (y, ys, e, n)

-- the record that the elements and what lies behind them make
abbrev of_parts : (max : ℕ) (xs : List ℕ) (y : ℕ) (ys : List ℕ) → OrderedArray
of_parts max xs y ys = record { array = xs ++ y ∷ ys; size = length xs; max_size = max }

by_parts :
    (P : OrderedArray → Type 0) (a : OrderedArray)
    → IsArray a
    → ((max : ℕ) (xs : List ℕ) (y : ℕ) (ys : List ℕ)
        → IsArray (of_parts max xs y ys)
        → P (of_parts max xs y ys))
    → P a
by_parts P a v f =
    let (y, ys, e, n) = shape a v in
    let same : of_parts a.max_size (entries a) y ys ≡ a =
      ap (λ (m : ℕ). record { array = entries a ++ y ∷ ys; size = m; max_size = a.max_size }) n
      ∙ ap (λ (l : List ℕ). record { array = l; size = a.size; max_size = a.max_size }) (sym e) in
    subst P same (f a.max_size (entries a) y ys (subst IsArray (sym same) v))

-- What an insertion gives, as a collection.
abbrev pub Inserted : (lt : ℕ → ℕ → Bool) (item : ℕ) (a : OrderedArray) → Type 0
Inserted lt item a =
    (b : OrderedArray) × (insert_ordered_array lt item a ≡ some b)
    × IsArray b
    × (b.size ≡ a.size + 1)
    × (b.max_size ≡ a.max_size)
    × ((x : ℕ) → count x (entries b) ≡ count x (entries a) + hit x item)

pub insert_index :
    (lt : ℕ → ℕ → Bool) (item : ℕ) (a : OrderedArray)
    → IsArray a
    → a.size < a.max_size
    → Inserted lt item a
insert_index lt item a v =
    by_parts (λ a. a.size < a.max_size → Inserted lt item a) a v
      (λ max xs y ys w h.
        let n = length-insert_sorted lt item xs in
        let e : take (length xs + 1) (insert_sorted lt item xs ++ ys) ≡ insert_sorted lt item xs =
          rw n at (take-append (insert_sorted lt item xs) ys) in
        (
          record { array = insert_sorted lt item xs ++ ys; size = length xs + 1; max_size = max },
          insert_ordered_array-insert_sorted lt item y max xs ys h,
          record {
            room = omega (
              arith,
              w.room,
              n,
              length-append xs (y ∷ ys),
              length-append (insert_sorted lt item xs) ys,
            );
            within = omega arith;
          },
          refl,
          refl,
          λ x. rw (e, take-append xs (y ∷ ys)) (count-insert_sorted lt x item xs),
        ))

-- The loop finds an item that is there.
index_from_lem :
    (item i : ℕ) (xs : List ℕ) (a : OrderedArray)
    → ((j : ℕ) → j < length xs → get_elem? a.array (i + j) ≡ get_elem? xs j)
    → i + length xs ≤ a.size
    → 0 < count item xs
    → (k : ℕ) × (index_from (length xs) i item a ≡ some (some (i + k)))
      × (get_elem? xs k ≡ some item)
unfolding index_from lookup_ordered_array count
index_from_lem item i [] a f le h = absurd (omega arith)
index_from_lem item i (x ∷ xs) a f le h =
    let zero_at : i + 0 ≡ i = omega arith in
    let inside : ltb i a.size ≡ true = ground arith in
    let here : get_elem? a.array i ≡ some x = rw zero_at at (f 0 (omega arith)) in
    elim (Bool-cases (x == item)) [
      | inl e ↦
          let same : x ≡ item = ground (arith, e) in
          (0, rw (inside, here, e) (ap (λ (n : ℕ). some (some n)) (omega arith)), ap some same)
      | inr ne ↦
          let later = λ (j : ℕ) (lt : j < length xs).
            let at : i + 1 + j ≡ i + suc j = omega arith in
            ap (λ (n : ℕ). get_elem? a.array n) at ∙ f (suc j) (omega arith) in
          let (k, e, g) =
            index_from_lem item (i + 1) xs a later (omega arith) (ground (arith, h, ne)) in
          (suc k, rw (inside, here, ne, e) (ap (λ (n : ℕ). some (some n)) (omega arith)), g)
    ]

count-remove_at :
    (xs : List ℕ) (k x a : ℕ)
    → get_elem? xs k ≡ some a
    → count x (remove_at k xs) + hit x a ≡ count x xs
unfolding count remove_at
count-remove_at [] k x a h = cc
count-remove_at (y ∷ xs) zero x a h = let same : y ≡ a = cc in rw same (omega arith)
count-remove_at (y ∷ xs) (suc k) x a h = omega (arith, count-remove_at xs k x a h)

get_elem?-front : (xs ys : List ℕ) (j : ℕ) → j < length xs → get_elem? (xs ++ ys) j ≡ get_elem? xs j
get_elem?-front [] ys j h = absurd (omega arith)
get_elem?-front (x ∷ xs) ys zero h = refl
get_elem?-front (x ∷ xs) ys (suc j) h = get_elem?-front xs ys j (omega arith)

length-remove_at : (xs : List ℕ) (k : ℕ) → k < length xs → length (remove_at k xs) + 1 ≡ length xs
unfolding remove_at
length-remove_at [] k h = absurd (omega arith)
length-remove_at (x ∷ xs) zero h = omega arith
length-remove_at (x ∷ xs) (suc k) h = omega (arith, length-remove_at xs k (omega arith))

-- What the removal of an item gives, as a collection.
abbrev pub Removed : (item : ℕ) (a : OrderedArray) → Type 0
Removed item a =
    (b : OrderedArray) × (remove_ordered_array_item item a ≡ some b)
    × IsArray b
    × (b.size + 1 ≡ a.size)
    × (b.max_size ≡ a.max_size)
    × ((x : ℕ) → count x (entries b) + hit x item ≡ count x (entries a))

pub remove_index :
    (item : ℕ) (a : OrderedArray) → IsArray a → 0 < count item (entries a) → Removed item a
unfolding remove_ordered_array_item
remove_index item a v =
    by_parts (λ a. 0 < count item (entries a) → Removed item a) a v
      (λ max xs y ys w h.
        let used = take-append xs (y ∷ ys) in
        let (k, found, at) =
          index_from_lem item 0 xs (of_parts max xs y ys)
            (λ j lt. let z : 0 + j ≡ j = omega arith in rw z (get_elem?-front xs (y ∷ ys) j lt))
            (omega arith) (rw used at h) in
        removed max xs y ys w k found at used)
  where
    removed :
        (max : ℕ) (xs : List ℕ) (y : ℕ) (ys : List ℕ)
        → IsArray (of_parts max xs y ys)
        → (k : ℕ) → index_from (length xs) 0 item (of_parts max xs y ys) ≡ some (some (0 + k))
        → get_elem? xs k ≡ some item
        → take (length xs) (xs ++ y ∷ ys) ≡ xs
        → Removed item (of_parts max xs y ys)
    removed max xs y ys w k found at used =
        let lt = lt_of_get_elem? xs k at in
        let n = length-remove_at xs k lt in
        let z : 0 + k ≡ k = omega arith in
        let m : length xs - 1 ≡ length (remove_at k xs) = omega arith in
        let e : take (length xs - 1) (remove_at k xs ++ y ∷ y ∷ ys) ≡ remove_at k xs =
          rw m (take-append (remove_at k xs) (y ∷ y ∷ ys)) in
        (
          record { array = remove_at k xs ++ y ∷ y ∷ ys; size = length xs - 1; max_size = max },
          rw found (rw z (remove_ordered_array-remove_at k y max xs ys lt)),
          record {
            room = omega (
              arith,
              w.room,
              n,
              length-append xs (y ∷ ys),
              length-append (remove_at k xs) (y ∷ y ∷ ys),
            );
            within = omega (arith, w.within);
          },
          omega arith,
          refl,
          λ x. rw (e, used) (count-remove_at xs k x item at),
        )
