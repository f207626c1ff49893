-- ===== src/DList/Tests.antt =====
-- Runs of kernel/list.c and the witnesses of its theorems.
use exscape_os.Prelude.{
  ℕ, zero, suc, ◌+◌, ◌≡◌, refl, List, [], ◌∷◌, ◌++◌, Option, none, some, arith, ◌>>=◌, ◌==◌,
  if◌then◌else◌,
}
use exscape_os.DList.{
  Node, Head, Store, linked, walk, ends_ok, list_validate, list_create, list_prepend, list_append,
  list_node_insert_before, list_node_insert_after, list_remove_node, find_backward, list_find_last,
  list_remove_last, free_nodes, list_destroy, copy_nodes, list_copy, relink_next, relink_prev,
}
use exscape_os.DList.Chain.{Cell, IsList}
use exscape_os.DList.Insert.{list_prepend-IsList, list_append-IsList}
use exscape_os.DList.Remove.{list_remove_node-IsList}

abbrev empty : Store
empty = record { nodes = λ a. none; lists = λ a. none; fresh = 1 }

-- the data from a node on
data_from : ℕ → (ℕ → Option Node) → Option ℕ → List ℕ
data_from zero nodes p = []
data_from (suc fuel) nodes none = []
data_from (suc fuel) nodes (some a) = elim (nodes a) [
  | none ↦ []
  | some n ↦ n.data_of ∷ data_from fuel nodes n.next
]

contents : Store → ℕ → List ℕ
contents s l = elim (s.lists l) [ none ↦ [] | some v ↦ data_from s.fresh s.nodes v.head ]

abbrev script : Option (List ℕ)
script = do
  (l, s) ← list_create empty
  (b, s) ← list_append l 20 s
  (a, s) ← list_prepend l 10 s
  (d, s) ← list_append l 40 s
  (c, s) ← list_node_insert_before d 30 s
  (e, s) ← list_node_insert_after d 20 s
  (gone, s) ← list_remove_last l 20 s
  (copy, s) ← list_copy l (λ x. x + 1) s
  s ← list_remove_node l c s
  s ← list_destroy copy s
  some (contents s l)

script_run : script ≡ some (10 ∷ 20 ∷ 40 ∷ [])
unfolding list_create list_append list_prepend list_node_insert_before list_node_insert_after
    list_remove_node list_remove_last list_find_last find_backward list_copy copy_nodes list_destroy
    free_nodes list_validate walk linked ends_ok contents data_from relink_prev relink_next
script_run = refl

-- the list at 1, with 10 in node 2 and 20 in node 3
abbrev pair : Store
pair = record {
  nodes = λ a.
      if a == 2
      then some (record { data_of = 10; prev = none; next = some 3; list = 1 })
      else if a == 3
      then some (record { data_of = 20; prev = some 2; next = none; list = 1 })
      else none;
  lists = λ l. if l == 1 then some (record { head = some 2; tail = some 3; count = 2 }) else none;
  fresh = 4;
}

abbrev pair_head : Head
pair_head = record { head = some 2; tail = some 3; count = 2 }

abbrev cells : List Cell
cells = (2, 10) ∷ (3, 20) ∷ []

pair-IsList : IsList 1 pair pair_head cells
pair-IsList = record {
  found = refl;
  count_is = refl;
  chain = (refl, some 3, refl, (refl, none, refl, (refl, refl)));
  distinct = ground arith;
  below = ground arith;
  room = omega arith;
}

list_prepend-IsList_example :
    (s : Store) × (v : Head) × (list_prepend 1 5 pair ≡ some (pair.fresh, s))
    × IsList 1 s v ((pair.fresh, 5) ∷ cells)
list_prepend-IsList_example = list_prepend-IsList 1 5 pair pair_head cells pair-IsList

list_append-IsList_example :
    (s : Store) × (v : Head) × (list_append 1 5 pair ≡ some (pair.fresh, s))
    × IsList 1 s v (cells ++ (pair.fresh, 5) ∷ [])
list_append-IsList_example = list_append-IsList 1 5 pair pair_head cells pair-IsList

list_remove_node-IsList_example :
    (s : Store) × (v : Head) × (list_remove_node 1 2 pair ≡ some s)
    × IsList 1 s v ([] ++ (3, 20) ∷ [])
    × (s.nodes 2 ≡ none)
list_remove_node-IsList_example =
    list_remove_node-IsList 1 2 10 pair pair_head [] ((3, 20) ∷ []) pair-IsList
