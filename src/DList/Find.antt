-- ===== src/DList/Find.antt =====
-- `list_create`, `list_size` and `list_find_first` of kernel/list.c on the sequence that a list holds.
use exscape_os.Prelude.{
  ℕ, zero, suc, ◌+◌, ◌≤◌, ◌≡◌, refl, List, [], ◌∷◌, Option, none, some, arith, ◌==◌, ==_refl,
  if◌then◌else◌, length,
}
use exscape_os.DList.{
  Node, Head, Store, set_list, list_create, list_size, find_forward, list_find_first,
}
use exscape_os.DList.Chain.{Cell, Chain, IsList, list_validate_lem}

-- A list that was just created is empty.
pub list_create-IsList :
    (s : Store)
    → (s' : Store) × (v : Head) × (list_create s ≡ some (s.fresh, s')) × IsList s.fresh s' v []
unfolding list_create set_list
list_create-IsList s =
    let v : Head = record { head = none; tail = none; count = 0 } in
    let s' : Store = record (set_list s.fresh v s) { fresh = s.fresh + 1 } in
    let j : IsList s.fresh s' v [] = record {
      found = rw (==_refl s.fresh) refl;
      count_is = refl;
      chain = (refl, refl);
      distinct = ground arith;
      below = ground arith;
      room = omega arith;
    } in
    (s', v, rw (list_validate_lem s.fresh s' v [] j) refl, j)

-- `list_size` returns how many elements the list holds.
pub list_size-length :
    (l : ℕ) (s : Store) (v : Head) (cells : List Cell)
    → IsList l s v cells
    → list_size l s ≡ some (length cells)
unfolding list_size
list_size-length l s v cells i = rw (list_validate_lem l s v cells i, i.found, i.count_is) refl

-- the address of the first cell with the data
unfoldable pub first_with : ℕ → List Cell → Option ℕ
first_with d [] = none
first_with d (c ∷ cells) = if c.1 == d then some c.0 else first_with d cells

find_forward_lem :
    (fuel l d : ℕ) (nodes : ℕ → Option Node) (p f t : Option ℕ) (cells : List Cell)
    → Chain l nodes p f cells t
    → length cells ≤ fuel
    → find_forward fuel nodes f d ≡ some (first_with d cells)
unfolding find_forward first_with
find_forward_lem zero l d nodes p f t [] (e, last) h = rw e refl
find_forward_lem (suc fuel) l d nodes p f t [] (e, last) h = rw e refl
find_forward_lem zero l d nodes p f t (c ∷ cells) ch h = absurd (omega arith)
find_forward_lem (suc fuel) l d nodes p f t (c ∷ cells) (e, n, at, rest) h =
    rw (e, at, find_forward_lem fuel l d nodes (some c.0) n t cells rest (omega arith))
      (ground arith)

-- `list_find_first` on a list that is not empty returns the first node with the data, or NULL if
-- there is none; on an empty list its assertion fails.
pub list_find_first-first_with :
    (l d : ℕ) (s : Store) (v : Head) (cells : List Cell)
    → IsList l s v cells
    → list_find_first l d s ≡ (if length cells == 0 then none else some (first_with d cells))
unfolding list_find_first
list_find_first-first_with l d s v [] i = let (e, e') = i.chain in rw (i.found, e) refl
list_find_first-first_with l d s v (c ∷ cells) i =
    let (e, n, at, rest) = i.chain in
    let found =
      find_forward_lem s.fresh l d s.nodes none v.head v.tail (c ∷ cells) i.chain i.room in
    rw (i.found, list_validate_lem l s v (c ∷ cells) i, found, e) (ground arith)
