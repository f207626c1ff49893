-- ===== src/Heap/Free.antt =====
-- `heap_free` of kernel/heap.c.
pub mod Left
pub mod Right
pub mod Merge
pub mod Release
pub mod Lookup
pub mod RoundTrip
use exscape_os.Prelude.{
  ℕ, zero, suc, ◌+◌, ◌-◌, ◌*◌, ◌^◌, Bool, true, false, ◌&&◌, ◌||◌, not, Option, none, some, ltb,
  leb, ◌==◌, if◌then◌else◌, ◌>>=◌, ◌>>◌, assert,
}
use exscape_os.Heap.{
  Heap, heap_magic, header_size, footer_size, footer_from_header, is_sound, set_header, set_footer,
  add_free, drop_free, drop_used, heap_contract,
}
use exscape_os.OrderedArray.{OrderedArray}

-- The walk down to the header, a byte at a time: `count` never grows, so that nothing bounds it.
unfoldable pub find_header : (fuel at : ℕ) → Heap → Option ℕ
find_header zero at h = none
find_header (suc fuel) at h =
    let rest = find_header fuel (at - 1) h in
    if (h.headers at).magic == heap_magic then some at else rest

-- `find_area_and_validate`: `none` is a panic, `some none` an address outside the heap
unfoldable pub find_area_and_validate : ℕ → Heap → Option (Option ℕ)
unfolding is_sound
find_area_and_validate p h = if ltb h.max_address p || ltb p h.start_address then some none else (do
  header ← find_header p (p - header_size) h
  assert (not (h.headers header).free)
  assert (is_sound h header)
  some (some header))

-- Unify left: the heap, the header of the area, and whether it has to go to the index.
unfoldable pub unify_left : (header : ℕ) → Heap → Option (ℕ × Bool × Heap)
unify_left header h =
    let left_footer = header - footer_size in
    let left = (h.footers left_footer).header in
    let footer = footer_from_header h header in
    if leb (h.start_address + footer_size) header
      && ((h.footers left_footer).magic == heap_magic)
      && ((h.headers left).magic == heap_magic)
      && (h.headers left).free
    then (do
      let sum = (h.headers left).size + (h.headers header).size
      let h1 = set_header left (record (h.headers left) { size = sum }) h
      assert (footer_from_header h1 left == footer)
      let h2 = set_footer footer (record (h1.footers footer) { header = left }) h1
      let h3 = set_header header (record (h2.headers header) { magic = 0 }) h2
      let h4 = set_footer left_footer (record (h3.footers left_footer) { magic = 0 }) h3
      some (
        left,
        false,
        if header == h.rightmost_area then record h4 { rightmost_area = left } else h4,
      ))
    else some (header, true, h)

-- Unify right; `footer` is the area's own.
unfoldable pub unify_right : (header footer : ℕ) → Heap → Option Heap
unify_right header footer h =
    let right = footer + footer_size in
    let right_footer = footer_from_header h right in
    if ((h.headers right).magic == heap_magic)
      && (h.headers right).free
      && ((h.footers right_footer).magic == heap_magic)
      && ((h.footers right_footer).header == right)
    then (do
      h1 ← drop_free right h
      let sum = (h1.headers header).size + (h1.headers right).size
      let h2 = set_header header (record (h1.headers header) { size = sum }) h1
      let h3 = set_footer footer (record (h2.footers footer) { magic = 0 }) h2
      let h4 = set_header right (record (h3.headers right) { magic = 0 }) h3
      let h5 = if h.rightmost_area == right then record h4 { rightmost_area = header } else h4
      assert (right_footer == footer_from_header h5 header)
      let h6 = set_footer right_footer (record (h5.footers right_footer) { header = header }) h5
      some (set_header header (record (h6.headers header) { free = true }) h6))
    else some h

-- The areas' part of `heap_free`: everything in front of the contraction.
unfoldable pub free_area : (header : ℕ) → Heap → Option Heap
free_area header h = do
  let footer = footer_from_header h header
  h1 ← drop_used header h
  let h2 = set_header header (record (h1.headers header) { free = true }) h1
  (area, add_to_index, h3) ← unify_left header h2
  h4 ← unify_right area footer h3
  if add_to_index then add_free area h4 else some h4

abbrev pub max_waste : ℕ
max_waste = 0x120000

-- The contraction at the end of `heap_free`; `used` is the used index of `kheap`.
unfoldable pub contract_waste : OrderedArray → Heap → Option Heap
unfolding is_sound
contract_waste used h =
    let r = h.rightmost_area in
    let size = (h.headers r).size in
    if (h.headers r).free && leb max_waste size
    then (do
      assert (is_sound h r)
      h1 ← heap_contract (size - 0x100000) used h
      let shrunk = h.end_address - h1.end_address
      let h2 = set_header r (record (h1.headers r) { size = size - shrunk }) h1
      some (
          if shrunk == 0
          then h1
          else set_footer (footer_from_header h2 r) (record { magic = heap_magic; header = r }) h2))
    else some h

unfoldable pub heap_free : OrderedArray → (p : ℕ) → Heap → Option Heap
heap_free kheap_used p h = if p == 0 then some h else (do
  found ← find_area_and_validate p h
  elim found [
    | none ↦ some h
    | some header ↦ (do
      h1 ← free_area header h
      contract_waste (if h.kernel then h1.used_index else kheap_used) h1)
  ])
