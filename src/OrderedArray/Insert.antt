-- ===== src/OrderedArray/Insert.antt =====
-- Insertion into an ordered array of kernel/ordered_array.c, on the elements in use.
use exscape_os.Prelude.{
  ℕ, zero, suc, ◌+◌, ◌-◌, ◌<◌, ◌≡◌, inl, inr, refl, ◌∙◌, Bool, true, false, List, [], ◌∷◌, ◌++◌,
  Option, none, some, arith, leb, ◌==◌, if◌then◌else◌, Bool-cases, Option-cases, All, length,
  get_elem?, take, take-append,
}
use exscape_os.OrderedArray.{OrderedArray, store, find_place, shift, put_item, insert_ordered_array}

-- an element in front of what a loop leaves
abbrev pub cons : ℕ → Option (List ℕ) → Option (List ℕ)
cons x none = none
cons x (some xs) = some (x ∷ xs)

pub store-cons :
    (i item x : ℕ) (xs : List ℕ) → store (suc i) item (x ∷ xs) ≡ cons x (store i item xs)
unfolding store
store-cons i item x xs = ground arith

shift-cons :
    (r i tmp x : ℕ) (xs : List ℕ) → shift r (suc i) tmp (x ∷ xs) ≡ cons x (shift r i tmp xs)
unfolding shift
shift-cons zero i tmp x xs = refl
shift-cons (suc r) i tmp x xs = elim (Option-cases (get_elem? xs (suc i))) [
  | inl e ↦ rw e refl
  | inr (y, e) ↦ elim (Option-cases (store (suc i) tmp xs)) [
    | inl e' ↦ rw (e, store-cons (suc i) tmp x xs, e') refl
    | inr (zs, e') ↦ rw (e, store-cons (suc i) tmp x xs, e') (shift-cons r (suc i) y x zs)
  ]
]

store_one : (tmp w z : ℕ) (zs : List ℕ) → store 1 tmp (w ∷ z ∷ zs) ≡ some (w ∷ tmp ∷ zs)
unfolding store
store_one tmp w z zs = ground arith

-- The loop moves `tmp` and the elements behind it by one; what stood behind them is overwritten.
shift_lem :
    (zs : List ℕ) (tmp w y : ℕ) (ys : List ℕ)
    → shift (suc (length zs)) 0 tmp (w ∷ (zs ++ y ∷ ys)) ≡ some (w ∷ tmp ∷ (zs ++ ys))
unfolding shift
shift_lem [] tmp w y ys = rw (store_one tmp w y ys) refl
shift_lem (z ∷ zs) tmp w y ys =
    rw (store_one tmp w z (zs ++ y ∷ ys)) (
      shift-cons (suc (length zs)) 0 z w (tmp ∷ (zs ++ y ∷ ys)) ∙ rw (shift_lem zs z tmp y ys) refl)

put_item-cons :
    (n i item x : ℕ) (xs : List ℕ)
    → put_item (suc n) (suc i) item (x ∷ xs) ≡ cons x (put_item n i item xs)
unfolding put_item
put_item-cons n i item x xs = elim (Bool-cases (i == n)) [
  | inl e ↦
      let e' : (suc i == suc n) ≡ true = ground (arith, e) in rw (e, e') (store-cons n item x xs)
  | inr ne ↦
      let e' : (suc i == suc n) ≡ false = ground (arith, ne) in
      let sub : suc n - suc i ≡ n - i = omega arith in
      rw (ne, e', sub)
        (elim (Option-cases (get_elem? xs i)) [
          | inl g ↦ rw g refl
          | inr (t, g) ↦ elim (Option-cases (store i item xs)) [
            | inl s ↦ rw (g, store-cons i item x xs, s) refl
            | inr (ys, s) ↦ rw (g, store-cons i item x xs, s) (shift-cons (n - i) i t x ys)
          ]
        ])
]

put_front :
    (item x y : ℕ) (xs ys : List ℕ)
    → put_item (suc (length xs)) 0 item (x ∷ (xs ++ y ∷ ys)) ≡ some (item ∷ x ∷ (xs ++ ys))
unfolding put_item
put_front item x y xs ys =
    let s : store 0 item (x ∷ (xs ++ y ∷ ys)) ≡ some (item ∷ (xs ++ y ∷ ys)) =
      unfold store in ground arith in
    let e : (0 == suc (length xs)) ≡ false = ground arith in
    let e2 : suc (length xs) - 0 ≡ suc (length xs) = omega arith in
    rw (e, s, e2) (shift_lem xs x item y ys)

module _ (less_than : ℕ → ℕ → Bool) where
  -- the place of the item: behind the elements in front that are less than it
  unfoldable pub place : ℕ → List ℕ → ℕ
  place item [] = 0
  place item (x ∷ xs) = if less_than x item then suc (place item xs) else 0

  -- the elements with the item at its place
  unfoldable pub insert_sorted : ℕ → List ℕ → List ℕ
  insert_sorted item [] = item ∷ []
  insert_sorted item (x ∷ xs) =
      if less_than x item then x ∷ insert_sorted item xs else item ∷ x ∷ xs

  -- No element is less than one in front of it.
  abbrev pub IsSorted : List ℕ → Type 0
  IsSorted [] = Unit
  IsSorted (x ∷ xs) = All (λ y. less_than y x ≡ false) xs × IsSorted xs

  next_place : Option ℕ → Option ℕ
  next_place none = none
  next_place (some i) = some (suc i)

  find_place-cons :
      (r i item x : ℕ) (xs : List ℕ)
      → find_place less_than r (suc i) item (x ∷ xs) ≡ next_place (find_place less_than r i item xs)
  unfolding find_place next_place
  find_place-cons zero i item x xs = refl
  find_place-cons (suc r) i item x xs = elim (Option-cases (get_elem? xs i)) [
    | inl e ↦ rw e refl
    | inr (y, e) ↦ elim (Bool-cases (less_than y item)) [
      | inl lt ↦ rw (e, lt) (find_place-cons r (suc i) item x xs)
      | inr ge ↦ rw (e, ge) refl
    ]
  ]

  find_place_lem :
      (item : ℕ) (xs ys : List ℕ)
      → find_place less_than (length xs) 0 item (xs ++ ys) ≡ some (place item xs)
  unfolding find_place place next_place
  find_place_lem item [] ys = refl
  find_place_lem item (x ∷ xs) ys = elim (Bool-cases (less_than x item)) [
    | inl lt ↦
        rw lt
          (find_place-cons (length xs) 0 item x (xs ++ ys) ∙ rw (find_place_lem item xs ys) refl)
    | inr ge ↦ rw ge refl
  ]

  put_item_lem :
      (item y : ℕ) (xs ys : List ℕ)
      → put_item (length xs) (place item xs) item (xs ++ y ∷ ys)
        ≡ some (insert_sorted item xs ++ ys)
  unfolding place insert_sorted
  put_item_lem item y [] ys = unfold put_item store in ground arith
  put_item_lem item y (x ∷ xs) ys = elim (Bool-cases (less_than x item)) [
    | inl lt ↦ rw lt (
        put_item-cons (length xs) (place item xs) item x (xs ++ y ∷ ys)
        ∙ rw (put_item_lem item y xs ys) refl)
    | inr ge ↦ rw ge (put_front item x y xs ys)
  ]

  -- With room in the array, an insertion leaves the elements in use with the item at its place,
  -- behind those in front that are less than it.
  pub insert_ordered_array-insert_sorted :
      (item y max : ℕ) (xs ys : List ℕ)
      → length xs < max
      → insert_ordered_array less_than item
          (record { array = xs ++ y ∷ ys; size = length xs; max_size = max })
        ≡ some
            (record { array = insert_sorted item xs ++ ys; size = length xs + 1; max_size = max })
  unfolding insert_ordered_array
  insert_ordered_array-insert_sorted item y max xs ys h =
      let room : leb (length xs + 1) max ≡ true = ground arith in
      rw (room, find_place_lem item xs (y ∷ ys), put_item_lem item y xs ys) refl

  pub length-insert_sorted :
      (item : ℕ) (xs : List ℕ) → length (insert_sorted item xs) ≡ length xs + 1
  unfolding insert_sorted
  length-insert_sorted item [] = refl
  length-insert_sorted item (x ∷ xs) = ground (arith, length-insert_sorted item xs)

  -- The order of the array: what its predicate has to be for an insertion to keep it.
  pub record IsOrder : Type 0 where
    pub asymmetric : (x y : ℕ) → less_than x y ≡ true → less_than y x ≡ false
    pub transitive :
        (x y z : ℕ) → less_than y x ≡ false → less_than z y ≡ false → less_than z x ≡ false

  above :
      (x y : ℕ) (xs : List ℕ)
      → IsOrder
      → less_than y x ≡ false
      → All (λ z. less_than z y ≡ false) xs
      → All (λ z. less_than z x ≡ false) xs
  above x y [] o h k = k
  above x y (z ∷ zs) o h (m, k) = (o.transitive x y z h m, above x y zs o h k)

  All-insert_sorted :
      (x item : ℕ) (xs : List ℕ)
      → less_than item x ≡ false
      → All (λ z. less_than z x ≡ false) xs
      → All (λ z. less_than z x ≡ false) (insert_sorted item xs)
  unfolding insert_sorted
  All-insert_sorted x item [] h k = (h, k)
  All-insert_sorted x item (y ∷ xs) h (m, k) = elim (Bool-cases (less_than y item)) [
    | inl lt ↦ rw lt (m, All-insert_sorted x item xs h k)
    | inr ge ↦ rw ge (h, (m, k))
  ]

  insert_sorted-IsSorted :
      (item : ℕ) (xs : List ℕ) → IsOrder → IsSorted xs → IsSorted (insert_sorted item xs)
  unfolding insert_sorted
  insert_sorted-IsSorted item [] o h = ground arith
  insert_sorted-IsSorted item (x ∷ xs) o (k, h) = elim (Bool-cases (less_than x item)) [
    | inl lt ↦
        rw lt (
          All-insert_sorted x item xs (o.asymmetric x item lt) k,
          insert_sorted-IsSorted item xs o h,
        )
    | inr ge ↦ rw ge ((ge, above item x xs o ge k), (k, h))
  ]

  -- With room in the array, and an asymmetric predicate whose negation is transitive, an insertion
  -- returns and leaves the elements in use in order if they were.
  pub insert_ordered_array-IsSorted :
      (item y max : ℕ) (xs ys : List ℕ)
      → IsOrder
      → length xs < max
      → IsSorted xs
      → (a : OrderedArray) × (insert_ordered_array less_than item
            (record { array = xs ++ y ∷ ys; size = length xs; max_size = max })
          ≡ some a)
        × IsSorted (take a.size a.array)
  insert_ordered_array-IsSorted item y max xs ys o h k =
      let n : take (length xs + 1) (insert_sorted item xs ++ ys) ≡ insert_sorted item xs =
        rw (length-insert_sorted item xs) at (take-append (insert_sorted item xs) ys) in
      (
        record { array = insert_sorted item xs ++ ys; size = length xs + 1; max_size = max },
        insert_ordered_array-insert_sorted item y max xs ys h,
        rw n (insert_sorted-IsSorted item xs o k),
      )
