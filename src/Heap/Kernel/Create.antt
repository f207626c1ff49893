-- ===== src/Heap/Kernel/Create.antt =====
-- `heap_create` of kernel/heap.c: the heap that it makes.
use exscape_os.Prelude.{
  ℕ, ◌+◌, ◌-◌, ◌*◌, ◌%◌, ◌^◌, ◌<◌, ◌≡◌, refl, Bool, true, false, [], ◌∷◌, some, arith, ◌==◌,
  ==_refl, if◌then◌else◌, length-replicate,
}
use exscape_os.Heap.{Heap, u32, page_aligned}
use exscape_os.Heap.Kernel.{heap_create, place_ordered_array, page_up}
use exscape_os.Heap.Tiles.{IsHeap, IsHeapBut, Tiles, tally, last_at, sound_header, sound_footer}
use exscape_os.Heap.Free.Release.{add_free-IsHeap}
use exscape_os.OrderedArray.Index.{IsArray, count, hit}

place_ordered_array-IsArray : (n : ℕ) → IsArray (place_ordered_array n)
unfolding place_ordered_array
place_ordered_array-IsArray n = record {
  room = omega (arith, length-replicate {A = ℕ} (n + 1) 0);
  within = omega arith;
}

-- the heap before its area is in the index
abbrev fresh : (n start size max : ℕ) → Bool → Heap
fresh n start size max kernel = record {
  start_address = start;
  end_address = start + size;
  max_address = max;
  kernel = kernel;
  free_index = place_ordered_array n;
  used_index = place_ordered_array n;
  rightmost_area = start;
  headers = λ a.
      if a == start then sound_header size true else record { size = 0; free = false; magic = 0 };
  footers =
      λ a. if a == start + size - 8 then sound_footer start else record { magic = 0; header = 0 };
}

fresh-IsHeapBut :
    (n start size max : ℕ) (kernel : Bool)
    → 20 < size
    → IsHeapBut (λ x. hit x start) ((size, true) ∷ []) (fresh n start size max kernel)
unfolding Tiles tally last_at place_ordered_array count
fresh-IsHeapBut n start size max kernel big =
    let ne : (start + size == start) ≡ false = ground arith in
    record {
      tiles = ((big, rw (==_refl start) refl, rw (==_refl (start + size - 8)) refl), refl);
      free_entries = λ x. omega arith;
      used_entries = λ x. omega arith;
      free_array = place_ordered_array-IsArray n;
      used_array = place_ordered_array-IsArray n;
      rightmost = refl;
      behind = rw ne (λ e. ground (arith, e));
    }

-- Creating a heap at the start of a page does not fault, if its size leaves room for an area behind
-- the two indexes and its end is the end of a page within 32 bits: the heap is one free area.
pub heap_create-IsHeap :
    (n start initial max : ℕ) (kernel : Bool)
    → 0 < n
    → start % 4096 ≡ 0
    → (n * 4 * 2) % 4096 ≡ 0
    → initial % 4096 ≡ 0
    → n * 4 * 2 + 20 < initial
    → start + initial < 2 ^ 32
    → (h : Heap) × (heap_create n start initial max kernel ≡ some h)
      × IsHeap ((initial - n * 4 * 2, true) ∷ []) h
      × (h.start_address ≡ start + n * 4 * 2)
      × (h.end_address ≡ start + initial)
unfolding heap_create place_ordered_array
heap_create-IsHeap n start initial max kernel pos a1 a2 a3 big bound =
    let s = start + n * 4 * 2 in
    let size = initial - n * 4 * 2 in
    let (h, eq, v, same_start, same_end) =
      add_free-IsHeap s ((size, true) ∷ []) (fresh n s size max kernel) pos
        (fresh-IsHeapBut n s size max kernel (omega arith)) in
    let b1 : page_aligned start ≡ true = ground arith in
    let b2 : page_up (u32 (start + n * 4 * 2)) ≡ s = ground arith in
    let b3 : u32 (initial + 2 ^ 32 - n * 4 * 2) ≡ size = omega arith in
    let b4 : u32 (s + size) ≡ s + size = omega arith in
    let b5 : page_aligned (s + size) ≡ true = ground arith in
    (h, rw (b1, b2, b3, b4, b5) eq, v, same_start, omega arith)
