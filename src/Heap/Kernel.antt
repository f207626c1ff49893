-- ===== src/Heap/Kernel.antt =====
-- The kernel's own heap of kernel/heap.c: how it is set up, the allocation before that, and the
-- functions that the rest of the kernel calls.
pub mod Create
pub mod Place
use exscape_os.Prelude.{
  ℕ, zero, suc, ◌+◌, ◌-◌, ◌*◌, ◌/◌, ◌%◌, ◌^◌, Bool, true, false, ◌&&◌, ◌||◌, not, List, [], ◌∷◌,
  Option, none, some, ltb, leb, ◌==◌, if◌then◌else◌, ◌>>=◌, ◌>>◌, assert, replicate,
}
use exscape_os.Heap.{
  AreaHeader, AreaFooter, Heap, u32, heap_magic, page_size, page_aligned, header_size, footer_size,
  add_free,
}
use exscape_os.Heap.Alloc.{heap_alloc}
use exscape_os.Heap.Free.{find_area_and_validate, heap_free}
use exscape_os.OrderedArray.{OrderedArray}
use exscape_os.OrderedArray.Index.{entries}

-- `sizeof(type_t)`
abbrev pub type_size : ℕ
type_size = 4

-- `place_ordered_array`, on memory of which one element follows the array
unfoldable pub place_ordered_array : (max_size : ℕ) → OrderedArray
place_ordered_array max_size = record {
  array = replicate (max_size + 1) 0;
  size = 0;
  max_size = max_size;
}

-- the next multiple of a page, if it is not one
abbrev pub page_up : ℕ → ℕ
page_up a = if page_aligned a then a else u32 (a / page_size * page_size + page_size)

-- `heap_create` behind the allocation of its pages; `index_size` is HEAP_INDEX_SIZE.
unfoldable pub heap_create :
    (index_size start_address initial_size max_address : ℕ) → (kernel : Bool) → Option Heap
unfolding place_ordered_array
heap_create index_size start_address initial_size max_address kernel = do
  assert (page_aligned start_address)
  let start = page_up (u32 (start_address + index_size * type_size * 2))
  let size = u32 (initial_size + 2 ^ 32 - index_size * type_size * 2)
  assert (page_aligned (u32 (start + size)))
  let h : Heap = record {
    start_address = start;
    end_address = u32 (start + size);
    max_address = max_address;
    kernel = kernel;
    free_index = place_ordered_array index_size;
    used_index = place_ordered_array index_size;
    rightmost_area = start;
    headers = λ a.
        if a == start
        then record { size = size; free = true; magic = heap_magic }
        else record { size = 0; free = false; magic = 0 };
    footers = λ a.
        if a == start + size - footer_size
        then record { magic = heap_magic; header = start }
        else record { magic = 0; header = 0 };
  }
  add_free start h

-- `kheap`, NULL until it is created, and the address that is given out until then
pub record KernelHeap : Type 0 where
  pub kheap : Option Heap
  pub placement_address : ℕ

-- the sum of the sizes of the areas in use
unfoldable pub sum_sizes : Heap → List ℕ → ℕ
sum_sizes h [] = 0
sum_sizes h (a ∷ index) = (h.headers a).size + sum_sizes h index

unfoldable pub kheap_used_bytes : KernelHeap → ℕ
unfolding sum_sizes
kheap_used_bytes k = elim k.kheap [ none ↦ 0 | some h ↦ u32 (sum_sizes h (entries h.used_index)) ]

-- The alignment of `placement_address`: to a page, or else to 4 bytes.
unfoldable pub placed_at : (align : Bool) → ℕ → ℕ
placed_at align a =
    if align && not (page_aligned a)
    then u32 (a / page_size * page_size + page_size)
    else if a % 4 == 0
    then a
    else u32 (a / 4 * 4 + 4)

-- `kmalloc_int` without `phys`: the address, and the kernel.
unfoldable pub kmalloc_int : (fuel size : ℕ) → (align : Bool) → KernelHeap → Option (ℕ × KernelHeap)
unfolding placed_at
kmalloc_int fuel size align k = elim k.kheap [
  | some h ↦ (do
    (addr, g) ← heap_alloc fuel size align h
    assert (not align || page_aligned addr)
    some (addr, record k { kheap = some g }))
  | none ↦ (do
    let ret = placed_at align k.placement_address
    assert (ret % 4 == 0)
    assert (not align || page_aligned ret)
    some (ret, record k { placement_address = u32 (ret + size) }))
]

abbrev pub kmalloc : (fuel size : ℕ) → KernelHeap → Option (ℕ × KernelHeap)
kmalloc fuel size k = kmalloc_int fuel size false k

abbrev pub kmalloc_a : (fuel size : ℕ) → KernelHeap → Option (ℕ × KernelHeap)
kmalloc_a fuel size k = kmalloc_int fuel size true k

-- It reads `kheap` whether it is there or not.
unfoldable pub kfree : (p : ℕ) → KernelHeap → Option KernelHeap
kfree p k = do
  h ← k.kheap
  assert (ltb p h.end_address)
  g ← heap_free h.used_index p h
  some (record k { kheap = some g })

-- How many bytes `krealloc` copies, the new address, and the kernel. The first test is in 32 bits.
unfoldable pub krealloc : (fuel p new_size : ℕ) → KernelHeap → Option (ℕ × ℕ × KernelHeap)
unfolding kfree
krealloc fuel p new_size k = if (p == 0) || (new_size == 0) then some (0, 0, k) else (do
  h ← k.kheap
  found ← find_area_and_validate p h
  elim found [
    | none ↦ some (0, 0, k)
    | some header ↦
        (let size = (h.headers header).size in
          if leb new_size (u32 (size + 2 ^ 32 - header_size - footer_size - 3))
          then some (0, p, k)
          else (do
            (p2, k2) ← kmalloc fuel (if leb new_size size then size else new_size) k
            k3 ← kfree p k2
            some (size, p2, k3)))
  ])

unfoldable pub kheap_is_valid : (p : ℕ) → KernelHeap → Option Bool
kheap_is_valid p k = if p == 0 then some false else (do
  h ← k.kheap
  found ← find_area_and_validate p h
  elim found [ none ↦ some false | some header ↦ some true ])
