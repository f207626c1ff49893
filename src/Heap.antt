-- ===== src/Heap.antt =====
-- kernel/heap.c: a heap of areas, each between a header and a footer, with an ordered index of the
-- free areas and one of those in use. The memory is given by the header and the footer that stand at
-- each address; what the users of the heap write is not in it. An address has 32 bits and 0 is NULL.
-- The pages that the heap gets from vmm.c are zero. Leaks are not traced (`leak_info` is NULL).
-- A fault (`none`) is a failed assertion or a panic.
pub mod Alloc
pub mod Free
pub mod Kernel
pub mod Tiles
pub mod Validate
mod Tests
use exscape_os.Prelude.{
  ℕ, zero, suc, ◌+◌, ◌-◌, ◌*◌, ◌/◌, ◌%◌, ◌^◌, Bool, true, false, ◌&&◌, ◌||◌, not, List, [], ◌∷◌,
  Option, none, some, ltb, leb, ◌==◌, if◌then◌else◌, ◌>>=◌, ◌>>◌, assert, update,
}
use exscape_os.OrderedArray.{OrderedArray, insert_ordered_array, remove_ordered_array_item}
use exscape_os.OrderedArray.Index.{entries}

-- `type` is AREA_FREE or AREA_USED
pub record AreaHeader : Type 0 where
  pub size : ℕ
  pub free : Bool
  pub magic : ℕ

pub record AreaFooter : Type 0 where
  pub magic : ℕ
  pub header : ℕ

-- `kernel` tells the kernel's heap, `kheap`, from one of user space
pub record Heap : Type 0 where
  pub start_address : ℕ
  pub end_address : ℕ
  pub max_address : ℕ
  pub kernel : Bool
  pub free_index : OrderedArray
  pub used_index : OrderedArray
  pub rightmost_area : ℕ
  pub headers : ℕ → AreaHeader
  pub footers : ℕ → AreaFooter

abbrev pub u32 : ℕ → ℕ
u32 n = n % 2 ^ 32

abbrev pub heap_magic : ℕ
heap_magic = 0xabcdef12

abbrev pub page_size : ℕ
page_size = 4096

-- `sizeof(area_header_t)` and `sizeof(area_footer_t)`
abbrev pub header_size : ℕ
header_size = 12

abbrev pub footer_size : ℕ
footer_size = 8

abbrev pub page_aligned : ℕ → Bool
page_aligned a = a % page_size == 0

-- FOOTER_FROM_HEADER
abbrev pub footer_from_header : Heap → ℕ → ℕ
footer_from_header h a = a + (h.headers a).size - footer_size

abbrev pub set_header : ℕ → AreaHeader → Heap → Heap
set_header a x h = record h { headers = update h.headers a x }

abbrev pub set_footer : ℕ → AreaFooter → Heap → Heap
set_footer a x h = record h { footers = update h.footers a x }

-- `area_header_t_less_than`
abbrev pub area_header_t_less_than : Heap → ℕ → ℕ → Bool
area_header_t_less_than h a b = ltb (h.headers a).size (h.headers b).size

abbrev pub add_free : ℕ → Heap → Option Heap
add_free a h = do
  index ← insert_ordered_array (area_header_t_less_than h) a h.free_index
  some (record h { free_index = index })

abbrev pub add_used : ℕ → Heap → Option Heap
add_used a h = do
  index ← insert_ordered_array (area_header_t_less_than h) a h.used_index
  some (record h { used_index = index })

abbrev pub drop_free : ℕ → Heap → Option Heap
drop_free a h = do
  index ← remove_ordered_array_item a h.free_index
  some (record h { free_index = index })

abbrev pub drop_used : ℕ → Heap → Option Heap
drop_used a h = do
  index ← remove_ordered_array_item a h.used_index
  some (record h { used_index = index })

-- the three assertions that an area of an index is sound
unfoldable pub is_sound : Heap → ℕ → Bool
is_sound h a =
    ((h.headers a).magic == heap_magic)
    && ((h.footers (footer_from_header h a)).magic == heap_magic)
    && ((h.footers (footer_from_header h a)).header == a)

-- an area of an index that lies beside the one to be created
unfoldable pub is_apart : Heap → (header_to_create footer_to_create size found : ℕ) → Bool
is_apart h header_to_create footer_to_create size found =
    let found_footer = footer_from_header h found in
    not (found == header_to_create)
    && not (found_footer == footer_to_create)
    && not (found == footer_to_create)
    && not (found_footer == header_to_create)
    && (if ltb header_to_create found
        then leb (header_to_create + size) found
        else not (ltb found header_to_create)
          || leb (found + (h.headers found).size) header_to_create)

unfoldable pub do_asserts_for_index :
    Heap → (header_to_create footer_to_create size : ℕ) → List ℕ → Bool
unfolding is_sound is_apart
do_asserts_for_index h header footer size [] = true
do_asserts_for_index h header footer size (found ∷ index) =
    is_apart h header footer size found
    && is_sound h found
    && do_asserts_for_index h header footer size index

-- the loop over one index, whose areas are all of one type
unfoldable pub validate_index : (free : Bool) → Heap → List ℕ → Bool
unfolding is_sound
validate_index free h [] = true
validate_index free h (a ∷ index) =
    (if free then (h.headers a).free else not (h.headers a).free)
    && is_sound h a
    && validate_index free h index

unfoldable pub validate_heap_index : Heap → Bool
unfolding validate_index
validate_heap_index h =
    validate_index false h (entries h.used_index) && validate_index true h (entries h.free_index)

unfoldable pub create_area : (address size : ℕ) → (free : Bool) → Heap → Option Heap
create_area address size free h = do
  assert (ltb (header_size + footer_size) size)
  assert (leb h.start_address address && leb (address + size) h.end_address)
  let footer = address + size - footer_size
  assert (do_asserts_for_index h address footer size (entries h.free_index))
  assert (do_asserts_for_index h address footer size (entries h.used_index))
  let h1 = set_header address (record { size = size; free = free; magic = heap_magic }) h
  let h2 = set_footer footer (record { magic = heap_magic; header = address }) h1
  some (if ltb h.rightmost_area address then record h2 { rightmost_area = address } else h2)

-- what the alignment of the data to a page takes from an area at `location`
abbrev pub page_offset : ℕ → ℕ
page_offset location =
    if page_aligned (location + header_size)
    then 0
    else page_size - (location + header_size) % page_size

-- The loop of `find_smallest_hole`; the differences of the alignment are signed.
-- the signed number of 32 bits that a word is, as its distance from the least one
abbrev pub signed : ℕ → ℕ
signed x = (x + 2 ^ 31) % 2 ^ 32

unfoldable pub find_hole : (size : ℕ) → (page_align : Bool) → Heap → List ℕ → Option (Option ℕ)
unfolding is_sound
find_hole size page_align h [] = some none
find_hole size page_align h (a ∷ index) = do
  assert ((h.headers a).free && is_sound h a)
  let rest = find_hole size page_align h index
  let fits =
      leb size (h.headers a).size
      && (not page_align || leb (signed size + page_offset a) (signed (h.headers a).size))
  if fits then some (some a) else rest

unfoldable pub find_smallest_hole : (size : ℕ) → (page_align : Bool) → Heap → Option (Option ℕ)
find_smallest_hole size page_align h = find_hole size page_align h (entries h.free_index)

abbrev pub min_growth : ℕ
min_growth = 0x8000

-- the pages that the heap gets are zero
abbrev pub cleared : (from to : ℕ) → Heap → Heap
cleared from to h = record h {
  headers = λ a.
      if leb from a && ltb a to then record { size = 0; free = false; magic = 0 } else h.headers a;
  footers = λ a. if leb from a && ltb a to then record { magic = 0; header = 0 } else h.footers a;
}

-- how much `heap_expand` adds, before the new end is aligned
unfoldable pub growth : (size_to_add : ℕ) → Heap → ℕ
growth size_to_add h =
    let least = if ltb size_to_add min_growth then min_growth else size_to_add in
    let pages =
      if least % page_size == 0 then least else u32 (least / page_size * page_size + page_size) in
    if ltb h.max_address (u32 (h.start_address + pages))
    then u32 (h.max_address + 2 ^ 32 - h.end_address)
    else pages

-- The heap has a page behind its end, so that the pages it gets begin a page behind it.
unfoldable pub heap_expand : (size_to_add : ℕ) → Heap → Option Heap
unfolding growth
heap_expand size_to_add h = do
  let size = growth size_to_add h
  assert (leb (u32 (h.start_address + size)) h.max_address)
  assert (ltb h.start_address (u32 (h.start_address + size)))
  let new_end = u32 (h.end_address + size) / page_size * page_size
  assert (page_aligned h.start_address)
  assert (ltb h.end_address new_end)
  some (record (cleared (h.end_address + page_size) (new_end + page_size) h) {
    end_address = new_end;
  })

-- Whether an area that is in use ends behind the new end.
unfoldable pub past_end : Heap → ℕ → List ℕ → Bool
past_end h new_end [] = false
past_end h new_end (a ∷ index) = ltb new_end (a + (h.headers a).size) || past_end h new_end index

abbrev pub initial_size : ℕ
initial_size = 0x90000

-- `used` is the used index of `kheap`, whichever heap is contracted
unfoldable pub heap_contract : (bytes_to_shrink : ℕ) → (used : OrderedArray) → Heap → Option Heap
unfolding past_end
heap_contract bytes_to_shrink used h =
    let old_size = h.end_address - h.start_address in
    let smaller = old_size - bytes_to_shrink in
    let new_size = if ltb smaller initial_size && h.kernel then initial_size else smaller in
    let sum = h.start_address + new_size in
    let new_end = if page_aligned sum then sum else sum / page_size * page_size + page_size in
    if ltb bytes_to_shrink (512 * 1024) then some h else (do
      assert (not (past_end h new_end (entries used)))
      some (record h { end_address = new_end }))
