-- ===== src/Heap/Free/Lookup.antt =====
-- How `heap_free` of kernel/heap.c gets from the address that `heap_alloc` returned to the area.
use exscape_os.Prelude.{
  ℕ, zero, suc, ◌+◌, ◌-◌, ◌%◌, ◌<◌, ◌≤◌, ◌≡◌, ◌≢◌, inl, inr, refl, true, false, List, ◌∷◌, ◌++◌,
  some, arith, ◌==◌, ==_refl, Bool-cases, if◌then◌else◌, ltb, ◌>>=◌, ◌||◌,
}
use exscape_os.Heap.{Heap, heap_magic}
use exscape_os.Heap.Alloc.{result_address}
use exscape_os.Heap.Free.{find_header, find_area_and_validate, free_area, contract_waste, heap_free}
use exscape_os.Heap.Tiles.{Area, total, IsHeap, IsTile-at, Tiles-end}
use exscape_os.OrderedArray.{OrderedArray}

-- no header between an area's own and the address behind it that `heap_alloc` returned
abbrev pub IsQuiet : (header : ℕ) → Heap → Type 0
IsQuiet header h =
    (x : ℕ) → header < x → x + 12 ≤ result_address header → (h.headers x).magic ≢ heap_magic

find_header_down :
    (k fuel header : ℕ) (h : Heap)
    → k < fuel
    → (h.headers header).magic ≡ heap_magic
    → ((x : ℕ) → header < x → x ≤ header + k → (h.headers x).magic ≢ heap_magic)
    → find_header fuel (header + k) h ≡ some header
unfolding find_header
find_header_down k zero header h lt m q = absurd (omega arith)
find_header_down zero (suc fuel) header h lt m q =
    let z : header + 0 ≡ header = omega arith in
    let yes : ((h.headers header).magic == heap_magic) ≡ true = rw m refl in rw (z, yes) refl
find_header_down (suc k) (suc fuel) header h lt m q =
    let no : ((h.headers (header + suc k)).magic == heap_magic) ≡ false =
      ground (arith, q (header + suc k) (omega arith) (omega arith)) in
    let down : header + suc k - 1 ≡ header + k = omega arith in
    rw (no, down) (find_header_down k fuel header h (omega arith) m (λ x a b. q x a (omega arith)))

-- the alignment takes less than 4 bytes
result_offset : (header : ℕ) → (k : ℕ) × (result_address header ≡ header + k + 12) × (k < 4)
result_offset header = elim (Bool-cases ((header + 12) % 4 == 0)) [
  | inl t ↦ (0, rw t (omega arith), omega arith)
  | inr f ↦ (4 - (header + 12) % 4, rw f (ground (arith, f)), ground (arith, f))
]

-- The walk down from an address that `heap_alloc` returned ends at the header of the area.
pub find_area_and_validate_lem :
    (header m : ℕ) (pre post : List Area) (h : Heap)
    → IsHeap (pre ++ (m, false) ∷ post) h
    → header ≡ h.start_address + total pre
    → h.end_address ≤ h.max_address
    → IsQuiet header h
    → find_area_and_validate (result_address header) h ≡ some (some header)
unfolding find_area_and_validate total
find_area_and_validate_lem header m pre post h v at bound quiet =
    let (big, hh, ff) =
      IsTile-at h.headers h.footers h.start_address pre m false post h.end_address header at
        v.tiles in
    let e =
      Tiles-end h.headers h.footers h.start_address pre ((m, false) ∷ post) h.end_address header at
        v.tiles in
    let p = result_address header in
    let (k, pe, small) : (k : ℕ) × (p ≡ header + k + 12) × (k < 4) = result_offset header in
    let inside : (ltb h.max_address p || ltb p h.start_address) ≡ false = ground arith in
    let back : p - 12 ≡ header + k = omega arith in
    let magic : (h.headers header).magic ≡ heap_magic = rw hh refl in
    let walk =
      find_header_down k p header h (omega arith) magic (λ x a b. quiet x a (omega arith)) in
    rw (inside, back, walk, hh, ff, ==_refl header) refl

-- Freeing the address behind the header of an area in use frees the area, and then looks at the size
-- of the last area, if no other address that the walk passes looks like a header.
pub heap_free-free_area :
    (used : OrderedArray) (header m : ℕ) (pre post : List Area) (h : Heap)
    → IsHeap (pre ++ (m, false) ∷ post) h
    → header ≡ h.start_address + total pre
    → h.end_address ≤ h.max_address
    → IsQuiet header h
    → heap_free used (result_address header) h
      ≡ (free_area header h >>= λ g. contract_waste (if h.kernel then g.used_index else used) g)
unfolding heap_free
heap_free-free_area used header m pre post h v at bound quiet =
    let (k, e, _) = result_offset header in
    let no : (result_address header == 0) ≡ false = ground (arith, e) in
    rw (no, find_area_and_validate_lem header m pre post h v at bound quiet) refl
