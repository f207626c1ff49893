-- ===== src/OrderedArray/Tests.antt =====
-- Runs of kernel/ordered_array.c and the witnesses of its theorems.
use exscape_os.Prelude.{ℕ, ◌-◌, ◌≡◌, List, [], ◌∷◌, ◌++◌, some, arith, ltb, length, take}
use exscape_os.OrderedArray.{OrderedArray, insert_ordered_array, remove_ordered_array}
use exscape_os.OrderedArray.Insert.{IsOrder, IsSorted, insert_ordered_array-IsSorted}
use exscape_os.OrderedArray.Remove.{remove_at, remove_ordered_array-remove_at}

-- `standard_lessthan_predicate`
ltb-IsOrder : IsOrder ltb
ltb-IsOrder = record {
  asymmetric = λ x y h. ground (arith, h);
  transitive = λ x y z h k. ground (arith, h, k);
}

abbrev used : List ℕ
used = 2 ∷ 5 ∷ 9 ∷ []

insert_ordered_array-IsSorted_example :
    (a : OrderedArray) × (insert_ordered_array ltb 6
        (record { array = used ++ 0 ∷ 0 ∷ []; size = length used; max_size = 4 })
      ≡ some a)
    × IsSorted ltb (take a.size a.array)
insert_ordered_array-IsSorted_example =
    insert_ordered_array-IsSorted ltb 6 0 4 used (0 ∷ []) ltb-IsOrder (omega arith) (ground arith)

remove_ordered_array-remove_at_example :
    remove_ordered_array 1 (record { array = used ++ 0 ∷ 0 ∷ []; size = length used; max_size = 4 })
    ≡ some (record {
      array = remove_at 1 used ++ 0 ∷ 0 ∷ 0 ∷ [];
      size = length used - 1;
      max_size = 4;
    })
remove_ordered_array-remove_at_example =
    remove_ordered_array-remove_at 1 0 4 used (0 ∷ []) (omega arith)
