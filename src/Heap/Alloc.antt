-- ===== src/Heap/Alloc.antt =====
-- `heap_alloc` of kernel/heap.c.
pub mod Asserts
pub mod Holes
pub mod Hollow
pub mod Split
pub mod Request
use exscape_os.Prelude.{
  ℕ, zero, suc, ◌+◌, ◌-◌, ◌*◌, ◌/◌, ◌%◌, ◌^◌, Bool, true, false, ◌&&◌, ◌||◌, not, Option, none,
  some, ltb, leb, ◌==◌, if◌then◌else◌, ◌>>=◌, ◌>>◌, assert,
}
use exscape_os.Heap.{
  Heap, u32, heap_magic, header_size, footer_size, page_aligned, page_offset, footer_from_header,
  set_header, set_footer, add_free, add_used, drop_free, create_area, find_smallest_hole,
  heap_expand,
}

-- What is done behind `heap_expand`: the new space goes to the rightmost area if that is free, and
-- is a new free area otherwise. `grown` is the difference of the sizes.
unfoldable pub use_new_space : (grown : ℕ) → Heap → Option Heap
use_new_space grown h =
    let r = h.rightmost_area in
    let f = footer_from_header h r in
    let size = (h.headers r).size in
    if not (r == 0) && (h.headers r).free
    then (let h1 = set_footer f (record (h.footers f) { magic = 0 }) h in
        let h2 = set_header r (record (h.headers r) { size = size + grown }) h1 in
        some (set_footer (footer_from_header h2 r) (record { magic = heap_magic; header = r }) h2))
    else (do
      assert (not (r == 0))
      h1 ← create_area (r + size) grown true h
      add_free (r + size) h1)

-- The space in front of the aligned area: a free area, if it is large enough for one, and else more
-- space for the area to the left, if there is one.
unfoldable pub use_waste : (area offset : ℕ) → Heap → Option Heap
use_waste area offset h =
    let test_footer = area - footer_size in
    let left = (h.footers test_footer).header in
    if ltb (header_size + footer_size) offset
    then (do h1 ← create_area area offset true h; add_free area h1)
    else if ((h.footers test_footer).magic == heap_magic) && ((h.headers left).magic == heap_magic)
    then (let h1 = set_footer test_footer (record (h.footers test_footer) { magic = 0 }) h in
        let h2 =
          set_header left (record (h.headers left) { size = (h.headers left).size + offset }) h1 in
        some (
          set_footer (footer_from_header h2 left) (record { magic = heap_magic; header = left })
            h2))
    else some h

-- the area that is aligned, and the heap
unfoldable pub align_area : (size area : ℕ) → Heap → Option (ℕ × Heap)
align_area size area h =
    let offset = page_offset area in
    let cached_size = (h.headers area).size in
    if page_aligned (area + header_size) then some (area, h) else (do
      assert (ltb offset cached_size)
      assert (leb (size + offset) cached_size)
      h1 ← use_waste area offset h
      let aligned = area + offset
      let h2 = set_header aligned (record (h1.headers aligned) { size = cached_size - offset }) h1
      assert (page_aligned (aligned + header_size))
      assert (leb size (h2.headers aligned).size)
      some (aligned, h2))

-- the area of `size` bytes in use, with a free area behind it if enough is left for one
unfoldable pub split_area : (size area : ℕ) → Heap → Option Heap
split_area size area h =
    let left = (h.headers area).size - size in
    if leb (16 + header_size + footer_size) left
    then (do
      h1 ← create_area (area + size) left true h
      h2 ← add_free (area + size) h1
      h3 ← create_area area size false h2
      add_used area h3)
    else (do h1 ← create_area area (size + left) false h; add_used area h1)

-- the address behind the header, moved up to a multiple of 4
abbrev pub result_address : ℕ → ℕ
result_address area = let ret = area + header_size in if ret % 4 == 0 then ret else ret / 4 * 4 + 4

-- `size` with the space for the header, the footer and the alignment, in 32 bits
abbrev pub full_size : (size : ℕ) → (page_align : Bool) → ℕ
full_size size page_align =
    let sum = u32 (size + (header_size + footer_size)) in if page_align then sum else u32 (sum + 3)

-- `heap_alloc` behind the search, for a hole that was found
unfoldable pub use_hole : (size : ℕ) → (page_align : Bool) → (hole : ℕ) → Heap → Option (ℕ × Heap)
use_hole size page_align hole h = do
  h1 ← drop_free hole h
  (area, h2) ← (if page_align then align_area size hole h1 else some (hole, h1))
  h3 ← split_area size area h2
  some (result_address area, h3)

-- `heap_alloc`, which calls itself again on a heap that has grown, with what it made of `size`: each
-- call adds the overhead once more. `none` also stands for too little fuel.
unfoldable pub heap_alloc : (fuel size : ℕ) → (page_align : Bool) → Heap → Option (ℕ × Heap)
heap_alloc zero request page_align h = none
heap_alloc (suc fuel) request page_align h = do
  let size = full_size request page_align
  hole ← find_smallest_hole size page_align h
  elim hole [
    | some a ↦ use_hole size page_align a h
    | none ↦ (do
      h1 ← heap_expand size h
      h2 ← use_new_space (h1.end_address - h.end_address) h1
      heap_alloc fuel size page_align h2)
  ]
