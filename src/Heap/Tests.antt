-- ===== src/Heap/Tests.antt =====
-- The theorems on the heap of kernel/heap.c at a small heap.
use exscape_os.Prelude.{
  ℕ, ◌+◌, ◌-◌, ◌*◌, ◌<◌, ◌≤◌, ◌%◌, ◌≡◌, ◌⊎◌, refl, true, false, List, [], ◌∷◌, ◌++◌, Option, none,
  some, arith, ◌==◌, if◌then◌else◌,
}
use exscape_os.Heap.{Heap, is_sound, find_hole}
use exscape_os.Heap.Alloc.{heap_alloc, use_hole, result_address}
use exscape_os.Heap.Alloc.Holes.{FirstFit, IsSmall, find_hole-FirstFit}
use exscape_os.Heap.Alloc.Request.{heap_alloc-IsHeap}
use exscape_os.Heap.Alloc.Split.{allot}
use exscape_os.Heap.Free.{free_area}
use exscape_os.Heap.Free.Merge.{given_back}
use exscape_os.Heap.Free.Release.{free_area-IsHeap}
use exscape_os.Heap.Free.RoundTrip.{IsCoalesced, free_area-use_hole}
use exscape_os.Heap.Kernel.{heap_create, kmalloc_int}
use exscape_os.Heap.Kernel.Create.{heap_create-IsHeap}
use exscape_os.Heap.Kernel.Place.{kmalloc_int-early}
use exscape_os.Heap.Tiles.{Area, Tiles, IsHeap, sound_header, sound_footer, tally, total, last_at}
use exscape_os.OrderedArray.{OrderedArray}
use exscape_os.OrderedArray.Index.{count}

abbrev index_of : List ℕ → ℕ → OrderedArray
index_of xs n = record { array = xs; size = n; max_size = 4 }

-- three areas from 4096 on: 100 bytes in use, 200 that are free, 100 in use
abbrev small : Heap
small = record {
  start_address = 4096;
  end_address = 4496;
  max_address = 8192;
  kernel = true;
  free_index = index_of (4196 ∷ 0 ∷ 0 ∷ 0 ∷ 0 ∷ []) 1;
  used_index = index_of (4096 ∷ 4396 ∷ 0 ∷ 0 ∷ 0 ∷ []) 2;
  rightmost_area = 4396;
  headers = λ a.
      if a == 4096
      then sound_header 100 false
      else if a == 4196
      then sound_header 200 true
      else if a == 4396
      then sound_header 100 false
      else record { size = 0; free = false; magic = 0 };
  footers = λ a.
      if a == 4188
      then sound_footer 4096
      else if a == 4388
      then sound_footer 4196
      else if a == 4488
      then sound_footer 4396
      else record { magic = 0; header = 0 };
}

abbrev small_areas : List Area
small_areas = (100, false) ∷ (200, true) ∷ (100, false) ∷ []

small-IsHeap : IsHeap small_areas small
unfolding Tiles tally last_at count
small-IsHeap = record {
  tiles =
      ((omega arith, refl, refl), ((omega arith, refl, refl), ((omega arith, refl, refl), refl)));
  free_entries = λ x. omega arith;
  used_entries = λ x. omega arith;
  free_array = record { room = omega arith; within = omega arith };
  used_array = record { room = omega arith; within = omega arith };
  rightmost = refl;
  behind = λ e. omega arith;
}

free_area-IsHeap_example :
    (g : Heap) × (free_area 4096 small ≡ some g)
    × IsHeap (given_back [] 100 ((200, true) ∷ (100, false) ∷ [])) g
unfolding total
free_area-IsHeap_example =
    free_area-IsHeap 4096 100 [] ((200, true) ∷ (100, false) ∷ []) small small-IsHeap refl
      (omega arith)

given_back_test :
    given_back [] 100 ((200, true) ∷ (100, false) ∷ []) ≡ (300, true) ∷ (100, false) ∷ []
unfolding given_back
given_back_test = refl

heap_alloc-IsHeap_example :
    (pre : List Area) × (n : ℕ) × (post : List Area) × (g : Heap) × (small_areas
      ≡ pre ++ (n, true) ∷ post)
    × (50 + 23 ≤ n)
    × (heap_alloc 1 50 false small ≡ some (result_address (4096 + total pre), g))
    × IsHeap (pre ++ (allot (50 + 23) n ++ post)) g
heap_alloc-IsHeap_example =
    heap_alloc-IsHeap 0 50 small_areas small small-IsHeap (omega arith) (omega arith)
      ((100, false) ∷ []) 200 ((100, false) ∷ []) refl (omega arith)

free_area-use_hole_example :
    (g : Heap) × (k : Heap) × (use_hole 73 false 4196 small ≡ some (result_address 4196, g))
    × (free_area 4196 g ≡ some k)
    × IsHeap small_areas k
unfolding total IsCoalesced
free_area-use_hole_example =
    free_area-use_hole 4196 200 73 ((100, false) ∷ []) ((100, false) ∷ []) small small-IsHeap tt
      refl (omega arith) (omega arith) (omega arith) (omega arith)

find_hole-FirstFit_example :
    (found : Option ℕ) × (find_hole 150 true small (4196 ∷ []) ≡ some found)
    × FirstFit 150 true small (4196 ∷ []) found
unfolding is_sound count
find_hole-FirstFit_example =
    find_hole-FirstFit 150 true small (4196 ∷ []) (λ a pos. indexed a pos) (λ a pos. below a pos)
  where
    indexed :
        (a : ℕ)
        → 0 < count a (4196 ∷ [])
        → ((small.headers a).free ≡ true) × (is_sound small a ≡ true)
    indexed a pos = let same : a ≡ 4196 = ground arith in rw same (refl, refl)

    below : (a : ℕ) → 0 < count a (4196 ∷ []) → IsSmall 150 true small a
    below a pos = let same : a ≡ 4196 = ground arith in rw same (omega arith, omega arith)

heap_create-IsHeap_example :
    (h : Heap) × (heap_create 512 0x10000 0x9000 0x20000 true ≡ some h)
    × IsHeap ((0x9000 - 512 * 4 * 2, true) ∷ []) h
    × (h.start_address ≡ 0x10000 + 512 * 4 * 2)
    × (h.end_address ≡ 0x10000 + 0x9000)
heap_create-IsHeap_example =
    heap_create-IsHeap 512 0x10000 0x9000 0x20000 true (omega arith) refl refl refl (omega arith)
      (omega arith)

kmalloc_int-early_example :
    (p : ℕ) × (kmalloc_int 0 100 true (record { kheap = none; placement_address = 5000 })
      ≡ some (p, record { kheap = none; placement_address = p + 100 }))
    × (5000 ≤ p)
    × (p < 5000 + 4096)
    × (p % 4 ≡ 0)
    × ((true ≡ false) ⊎ (p % 4096 ≡ 0))
kmalloc_int-early_example = kmalloc_int-early 0 100 true 5000 (omega arith)
