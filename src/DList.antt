-- ===== src/DList.antt =====
-- kernel/list.c: the doubly linked list, on a store of nodes and lists. A pointer is an address,
-- or `none` for NULL, and `kmalloc` gives an address that was never used. The interrupt locks have
-- no counterpart. A fault (`none`) is a failed assertion or a read of what is not there.
pub mod Chain
pub mod Insert
pub mod Find
pub mod Segment
pub mod Remove
mod Tests
use exscape_os.Prelude.{
  ℕ, zero, suc, ◌+◌, ◌-◌, Bool, true, false, ◌&&◌, ◌||◌, not, Option, none, some, ltb, ◌==◌,
  if◌then◌else◌, ◌>>=◌, ◌>>◌, assert, is_some, update,
}

pub record Node : Type 0 where
  pub data_of : ℕ
  pub prev : Option ℕ
  pub next : Option ℕ
  pub list : ℕ

pub record Head : Type 0 where
  pub head : Option ℕ
  pub tail : Option ℕ
  pub count : ℕ

pub record Store : Type 0 where
  pub nodes : ℕ → Option Node
  pub lists : ℕ → Option Head
  pub fresh : ℕ

abbrev pub is_null : Option ℕ → Bool
is_null p = not (is_some p)

-- whether two pointers are equal
abbrev pub same : Option ℕ → Option ℕ → Bool
same none none = true
same none (some b) = false
same (some a) none = false
same (some a) (some b) = a == b

unfoldable pub set_node : ℕ → Node → Store → Store
set_node a n s = record s { nodes = update s.nodes a (some n) }

unfoldable pub set_list : ℕ → Head → Store → Store
set_list l v s = record s { lists = update s.lists l (some v) }

-- `kmalloc` of a node, with its contents
unfoldable pub new_node : Node → Store → Store
new_node n s = record s { nodes = update s.nodes s.fresh (some n); fresh = s.fresh + 1 }

-- `it->next->prev == it`, where there is a next node
unfoldable pub linked : (ℕ → Option Node) → ℕ → Option ℕ → Bool
linked nodes it none = true
linked nodes it (some a) = elim (nodes a) [ none ↦ false | some n ↦ same n.prev (some it) ]

-- The walk of `list_validate`: the number of nodes. A chain that ends has fewer of them than
-- addresses were ever given out.
unfoldable pub walk : (fuel l : ℕ) → (ℕ → Option Node) → Option ℕ → Option ℕ
walk zero l nodes none = some 0
walk zero l nodes (some a) = none
walk (suc fuel) l nodes none = some 0
walk (suc fuel) l nodes (some a) = do
  n ← nodes a
  assert (n.list == l)
  assert (linked nodes a n.next)
  rest ← walk fuel l nodes n.next
  some (rest + 1)

-- the assertions of `list_validate` on the two ends
unfoldable pub ends_ok : (ℕ → Option Node) → Head → Bool
ends_ok nodes v = elim v.head [
  | none ↦ false
  | some h ↦ elim v.tail [
    | none ↦ false
    | some t ↦ elim (nodes h) [
      | none ↦ false
      | some first ↦ elim (nodes t) [
        | none ↦ false
        | some last ↦
            (not (ltb 1 v.count) || not (h == t)) && is_null first.prev && is_null last.next
      ]
    ]
  ]
]

unfoldable pub list_validate : ℕ → Store → Option Store
list_validate l s = do
  v ← s.lists l
  if v.count == 0 then (do assert (is_null v.head && is_null v.tail); some s) else (do
    assert (ends_ok s.nodes v)
    actual_count ← walk s.fresh l s.nodes v.head
    assert (v.count == actual_count)
    some s)

unfoldable pub list_size : ℕ → Store → Option ℕ
list_size l s = do s' ← list_validate l s; v ← s'.lists l; some v.count

unfoldable pub list_create : Store → Option (ℕ × Store)
list_create s = do
  s' ←
      list_validate s.fresh
        (record (set_list s.fresh (record { head = none; tail = none; count = 0 }) s) {
          fresh = s.fresh + 1;
        })
  some (s.fresh, s')

unfoldable pub list_prepend : ℕ → (data_of : ℕ) → Store → Option (ℕ × Store)
unfolding new_node set_node set_list
list_prepend l d s = do
  v ← s.lists l
  let new = s.fresh
  elim v.head [
    | some old_head ↦ (do
      let s1 = new_node (record { data_of = d; prev = none; next = some old_head; list = l }) s
      o ← s1.nodes old_head
      assert (is_null o.prev)
      let s2 = set_node old_head (record o { prev = some new }) s1
      s3 ← list_validate l (set_list l (record v { head = some new; count = v.count + 1 }) s2)
      some (new, s3))
    | none ↦ (do
      assert (is_null v.tail)
      assert (v.count == 0)
      let s1 = new_node (record { data_of = d; prev = none; next = none; list = l }) s
      s2 ←
          list_validate l
            (set_list l (record { head = some new; tail = some new; count = v.count + 1 }) s1)
      some (new, s2))
  ]

unfoldable pub list_append : ℕ → (data_of : ℕ) → Store → Option (ℕ × Store)
unfolding new_node set_node set_list
list_append l d s = do
  v ← s.lists l
  let new = s.fresh
  elim v.tail [
    | some old_tail ↦ (do
      let s1 = new_node (record { data_of = d; prev = some old_tail; next = none; list = l }) s
      o ← s1.nodes old_tail
      assert (is_null o.next)
      let s2 = set_node old_tail (record o { next = some new }) s1
      s3 ← list_validate l (set_list l (record v { tail = some new; count = v.count + 1 }) s2)
      some (new, s3))
    | none ↦ (do
      assert (is_null v.head)
      assert (v.count == 0)
      let s1 = new_node (record { data_of = d; prev = none; next = none; list = l }) s
      s2 ←
          list_validate l
            (set_list l (record { head = some new; tail = some new; count = v.count + 1 }) s1)
      some (new, s2))
  ]

unfoldable pub list_node_insert_before : ℕ → (data_of : ℕ) → Store → Option (ℕ × Store)
unfolding new_node set_node set_list
list_node_insert_before node d s = do
  n ← s.nodes node
  v ← s.lists n.list
  let new = s.fresh
  elim n.prev [
    | none ↦ (do assert (same v.head (some node)); list_prepend n.list d s)
    | some before ↦ (do
      assert (not (same v.head (some node)))
      let s1 = new_node (record { data_of = d; prev = n.prev; next = some node; list = n.list }) s
      b ← s1.nodes before
      let s2 = set_node before (record b { next = some new }) s1
      n2 ← s2.nodes node
      let s3 = set_node node (record n2 { prev = some new }) s2
      s4 ← list_validate n.list (set_list n.list (record v { count = v.count + 1 }) s3)
      some (new, s4))
  ]

unfoldable pub list_node_insert_after : ℕ → (data_of : ℕ) → Store → Option (ℕ × Store)
unfolding new_node set_node set_list
list_node_insert_after node d s = do
  n ← s.nodes node
  v ← s.lists n.list
  let new = s.fresh
  elim n.next [
    | none ↦ (do assert (same v.tail (some node)); list_append n.list d s)
    | some after ↦ (do
      assert (not (same v.tail (some node)))
      let s1 = new_node (record { data_of = d; prev = some node; next = n.next; list = n.list }) s
      n2 ← s1.nodes node
      let s2 = set_node node (record n2 { next = some new }) s1
      a ← s2.nodes after
      let s3 = set_node after (record a { prev = some new }) s2
      s4 ← list_validate n.list (set_list n.list (record v { count = v.count + 1 }) s3)
      some (new, s4))
  ]

-- a store of `next` or `prev` in the node that a pointer leads to, if it is not NULL
unfoldable pub relink_next : Option ℕ → (next : Option ℕ) → Store → Option Store
unfolding set_node
relink_next none p s = some s
relink_next (some a) p s = do n ← s.nodes a; some (set_node a (record n { next = p }) s)

unfoldable pub relink_prev : Option ℕ → (prev : Option ℕ) → Store → Option Store
unfolding set_node
relink_prev none p s = some s
relink_prev (some a) p s = do n ← s.nodes a; some (set_node a (record n { prev = p }) s)

unfoldable pub kfree_node : ℕ → Store → Store
kfree_node a s = record s { nodes = update s.nodes a none }

-- The count has 32 bits and is above 0, since the list has the node.
unfoldable pub list_remove_node : ℕ → (node : ℕ) → Store → Option Store
list_remove_node l node s = do
  n ← s.nodes node
  assert (n.list == l)
  s1 ← relink_next n.prev n.next s
  n1 ← s1.nodes node
  s2 ← relink_prev n1.next n1.prev s1
  n2 ← s2.nodes node
  v ← s2.lists l
  let head = if same (some node) v.head then n2.next else v.head
  let tail = if same (some node) v.tail then n2.prev else v.tail
  s3 ← list_validate l (set_list l (record { head = head; tail = tail; count = v.count - 1 }) s2)
  some (kfree_node node s3)

-- `list_foreach` with the test for the data, and the same from the tail
unfoldable pub find_forward : (fuel : ℕ) → (ℕ → Option Node) → Option ℕ → ℕ → Option (Option ℕ)
find_forward zero nodes none d = some none
find_forward zero nodes (some a) d = none
find_forward (suc fuel) nodes none d = some none
find_forward (suc fuel) nodes (some a) d = do
  n ← nodes a
  let rest = find_forward fuel nodes n.next d
  if n.data_of == d then some (some a) else rest

unfoldable pub find_backward : (fuel : ℕ) → (ℕ → Option Node) → Option ℕ → ℕ → Option (Option ℕ)
find_backward zero nodes none d = some none
find_backward zero nodes (some a) d = none
find_backward (suc fuel) nodes none d = some none
find_backward (suc fuel) nodes (some a) d = do
  n ← nodes a
  let rest = find_backward fuel nodes n.prev d
  if n.data_of == d then some (some a) else rest

unfoldable pub list_find_first : ℕ → (data_of : ℕ) → Store → Option (Option ℕ)
list_find_first l d s = do
  v ← s.lists l
  assert (not (is_null v.head))
  s' ← list_validate l s
  find_forward s'.fresh s'.nodes v.head d

unfoldable pub list_find_last : ℕ → (data_of : ℕ) → Store → Option (Option ℕ)
list_find_last l d s = do
  v ← s.lists l
  assert (not (is_null v.tail))
  s' ← list_validate l s
  find_backward s'.fresh s'.nodes v.tail d

unfoldable pub list_remove_first : ℕ → (data_of : ℕ) → Store → Option (Bool × Store)
list_remove_first l d s = do
  found ← list_find_first l d s
  elim found [ none ↦ some (false, s) | some a ↦ (do s' ← list_remove_node l a s; some (true, s')) ]

unfoldable pub list_remove_last : ℕ → (data_of : ℕ) → Store → Option (Bool × Store)
list_remove_last l d s = do
  found ← list_find_last l d s
  elim found [ none ↦ some (false, s) | some a ↦ (do s' ← list_remove_node l a s; some (true, s')) ]

-- the loop of `list_destroy`
unfoldable pub free_nodes : (fuel : ℕ) → Option ℕ → Store → Option Store
unfolding kfree_node
free_nodes zero none s = some s
free_nodes zero (some a) s = none
free_nodes (suc fuel) none s = some s
free_nodes (suc fuel) (some a) s = do n ← s.nodes a; free_nodes fuel n.next (kfree_node a s)

unfoldable pub list_destroy : ℕ → Store → Option Store
list_destroy l s = do
  s' ← list_validate l s
  v ← s'.lists l
  s2 ← free_nodes s'.fresh v.head s'
  some (record s2 { lists = update s2.lists l none })

-- `list_node_find_next_predicate`: the loop to the end, and the one from the head to the node
unfoldable pub find_after :
    (fuel : ℕ) → (ℕ → Option Node) → (ℕ → Bool) → (it stop : Option ℕ) → Option (Option ℕ)
find_after zero nodes pred it stop = if same it stop then some none else none
find_after (suc fuel) nodes pred none stop = if is_null stop then some none else none
find_after (suc fuel) nodes pred (some a) stop =
    let rest = nodes a >>= (λ n. find_after fuel nodes pred n.next stop) in
    if same (some a) stop then some none else if pred a then some (some a) else rest

unfoldable pub list_node_find_next_predicate : ℕ → (ℕ → Bool) → Store → Option (Option ℕ)
list_node_find_next_predicate node predicate_func s = do
  n ← s.nodes node
  found ← find_after s.fresh s.nodes predicate_func n.next none
  elim found [
    | some a ↦ some (some a)
    | none ↦ (do v ← s.lists n.list; find_after s.fresh s.nodes predicate_func v.head (some node))
  ]

-- The loop of `list_copy`, from the node `it` on; `prev` is the copy of the node before it.
unfoldable pub copy_nodes :
    (fuel : ℕ) → (copy_data : ℕ → ℕ) → (it prev : Option ℕ) → (copy : ℕ) → Store → Option Store
unfolding new_node relink_next set_list
copy_nodes zero f none prev copy s = some s
copy_nodes zero f (some it) prev copy s = none
copy_nodes (suc fuel) f none prev copy s = some s
copy_nodes (suc fuel) f (some it) prev copy s = do
  n ← s.nodes it
  let new = s.fresh
  s1 ←
      relink_next prev (some new)
        (new_node (record { data_of = f n.data_of; prev = prev; next = none; list = copy }) s)
  v ← s1.lists copy
  let head = if is_null v.head then some new else v.head
  copy_nodes fuel f n.next (some new) copy
      (set_list copy (record { head = head; tail = some new; count = v.count + 1 }) s1)

-- `copy_data` is the identity where the source gets NULL for it
unfoldable pub list_copy : ℕ → (copy_data : ℕ → ℕ) → Store → Option (ℕ × Store)
unfolding set_list
list_copy orig copy_data s = do
  v ← s.lists orig
  let copy = s.fresh
  s1 ←
      copy_nodes s.fresh copy_data v.head none copy
        (record (set_list copy (record { head = none; tail = none; count = 0 }) s) {
          fresh = s.fresh + 1;
        })
  s2 ← list_validate copy s1
  some (copy, s2)
