-- ===== src/OrderedArray.antt =====
-- kernel/ordered_array.c: an array that insertions keep in order. `less_than` is the predicate that
-- the array is created with, and `array` is the whole memory of the array, of which the first `size`
-- elements are in use. A fault (`none`) is a failed assertion or an access outside that memory.
pub mod Insert
pub mod Remove
pub mod Index
mod Tests
use exscape_os.Prelude.{
  ℕ, zero, suc, ◌+◌, ◌-◌, Bool, true, false, List, [], ◌∷◌, Option, none, some, ltb, leb, ◌==◌,
  if◌then◌else◌, ◌>>=◌, ◌>>◌, assert, get_elem?, set, length,
}

pub record OrderedArray : Type 0 where
  pub array : List ℕ
  pub size : ℕ
  pub max_size : ℕ

-- `array[i] = item`
unfoldable pub store : ℕ → ℕ → List ℕ → Option (List ℕ)
store i item array = if ltb i (length array) then some (set array i item) else none

-- `while (i < size && less_than(array[i], item)) i++`, with `rounds` elements left
unfoldable pub find_place : (ℕ → ℕ → Bool) → (rounds i item : ℕ) → List ℕ → Option ℕ
find_place less_than zero i item array = some i
find_place less_than (suc rounds) i item array = do
  x ← get_elem? array i
  let rest = find_place less_than rounds (suc i) item array
  if less_than x item then rest else some i

-- `while (i < size)`: the rest moves one step forwards
unfoldable pub shift : (rounds i tmp : ℕ) → List ℕ → Option (List ℕ)
unfolding store
shift zero i tmp array = some array
shift (suc rounds) i tmp array = do
  tmp2 ← get_elem? array (suc i)
  array' ← store (suc i) tmp array
  shift rounds (suc i) tmp2 array'

-- the two branches of the insertion at index `i`
unfoldable pub put_item : (size i item : ℕ) → List ℕ → Option (List ℕ)
put_item size i item array =
    if i == size
    then store size item array
    else (do tmp ← get_elem? array i; placed ← store i item array; shift (size - i) i tmp placed)

unfoldable pub insert_ordered_array : (ℕ → ℕ → Bool) → ℕ → OrderedArray → Option OrderedArray
insert_ordered_array less_than item a = do
  assert (leb (a.size + 1) a.max_size)
  i ← find_place less_than a.size 0 item a.array
  array' ← put_item a.size i item a.array
  some (record a { array = array'; size = a.size + 1 })

unfoldable pub lookup_ordered_array : ℕ → OrderedArray → Option ℕ
lookup_ordered_array i a = do assert (ltb i a.size); get_elem? a.array i

unfoldable pub update_ordered_array : (i item : ℕ) → OrderedArray → Option OrderedArray
update_ordered_array i item a = do
  assert (ltb i a.size)
  array' ← store i item a.array
  some (record a { array = array' })

-- the loop over the indices; `some none` stands for -1
unfoldable pub index_from : (rounds i item : ℕ) → OrderedArray → Option (Option ℕ)
unfolding lookup_ordered_array
index_from zero i item a = some none
index_from (suc rounds) i item a = do
  x ← lookup_ordered_array i a
  let rest = index_from rounds (i + 1) item a
  if x == item then some (some i) else rest

unfoldable pub indexof_ordered_array : ℕ → OrderedArray → Option (Option ℕ)
indexof_ordered_array item a = index_from a.size 0 item a

-- `while (i < size)`: the rest moves one step back
unfoldable pub close_gap : (rounds i : ℕ) → List ℕ → Option (List ℕ)
unfolding store
close_gap zero i array = some array
close_gap (suc rounds) i array = do
  x ← get_elem? array (suc i)
  array' ← store i x array
  close_gap rounds (suc i) array'

-- An array that is empty has its size, of 32 bits, wrap around.
unfoldable pub remove_ordered_array : ℕ → OrderedArray → Option OrderedArray
remove_ordered_array i a = do
  array' ← close_gap (a.size - i) i a.array
  some (record a { array = array'; size = if a.size == 0 then 4294967295 else a.size - 1 })

unfoldable pub remove_ordered_array_item : ℕ → OrderedArray → Option OrderedArray
remove_ordered_array_item item a = do
  found ← index_from a.size 0 item a
  elim found [ none ↦ some a | some i ↦ remove_ordered_array i a ]
