-- ===== src/Heap/Validate.antt =====
-- `validate_heap_index` of kernel/heap.c on a heap of areas.
use exscape_os.Prelude.{ℕ, ◌<◌, ◌≡◌, refl, Bool, true, false, List, [], ◌∷◌, arith, ==_refl}
use exscape_os.Heap.{Heap, validate_index, validate_heap_index}
use exscape_os.Heap.Alloc.Asserts.{tally-IsTile}
use exscape_os.Heap.Tiles.{Area, IsHeap, IsTile}
use exscape_os.OrderedArray.Index.{entries, hit, count}

validate_tiles :
    (b : Bool) (h : Heap) (xs : List ℕ)
    → ((x : ℕ) → 0 < count x xs → (k : ℕ) × IsTile h.headers h.footers x k b)
    → validate_index b h xs ≡ true
unfolding validate_index count
validate_tiles b h [] p = refl
validate_tiles true h (x ∷ xs) p =
    let one : hit x x ≡ 1 = rw (==_refl x) refl in
    let (k, (big, hh, ff)) = p x (omega arith) in
    rw (hh, ff, ==_refl x, validate_tiles true h xs (λ y c. p y (omega arith))) refl
validate_tiles false h (x ∷ xs) p =
    let one : hit x x ≡ 1 = rw (==_refl x) refl in
    let (k, (big, hh, ff)) = p x (omega arith) in
    rw (hh, ff, ==_refl x, validate_tiles false h xs (λ y c. p y (omega arith))) refl

-- The check of both indexes succeeds on a heap of areas.
pub validate_heap_index_lem :
    (areas : List Area) (h : Heap) → IsHeap areas h → validate_heap_index h ≡ true
unfolding validate_heap_index
validate_heap_index_lem areas h v =
    let tile = λ (b : Bool) (x : ℕ).
      tally-IsTile h.headers h.footers b x h.start_address areas h.end_address v.tiles in
    let frees =
      validate_tiles true h (entries h.free_index)
        (λ x c. let (k, t, _, _) = tile true x (omega (arith, v.free_entries x)) in (k, t)) in
    let used =
      validate_tiles false h (entries h.used_index)
        (λ x c. let (k, t, _, _) = tile false x (omega (arith, v.used_entries x)) in (k, t)) in
    rw (used, frees) refl
