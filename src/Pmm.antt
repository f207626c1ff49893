-- ===== src/Pmm.antt =====
-- kernel/pmm.c: the bitmap of the physical frames. It is one list of bits, lowest first: dword `i`
-- of `used_frames` is its bits 32 * i to 32 * i + 31. Addresses have 32 bits. A fault (`none`) is a
-- panic: a failed assertion, a read outside the bitmap, or no memory.
pub mod Scan
pub mod Alloc
pub mod Count
mod Tests
use exscape_os.Prelude.{
  ℕ, zero, suc, ◌+◌, ◌-◌, ◌*◌, ◌/◌, ◌%◌, ◌^◌, Bool, true, false, ◌&&◌, ◌||◌, not, List, [], ◌∷◌,
  Option, none, some, ltb, leb, ◌==◌, if◌then◌else◌, ◌>>=◌, ◌>>◌, assert, get_elem?, set, take,
  drop, replicate,
}

pub record Pmm : Type 0 where
  pub used_frames : List Bool
  pub nframes : ℕ
  pub last_allocated_frame : ℕ
  pub mem_end_page : ℕ

abbrev pub u32 : ℕ → ℕ
u32 n = n % 2 ^ 32

abbrev pub page_size : ℕ
page_size = 4096

-- 0xffffffff
abbrev pub no_frame : ℕ
no_frame = 2 ^ 32 - 1

-- the bit of an address, behind the assertion on its dword
unfoldable pub test_frame : ℕ → Pmm → Option Bool
test_frame phys_addr p = do
  let frame_index = phys_addr / page_size
  assert (leb (frame_index / 32) (p.nframes / 32))
  get_elem? p.used_frames frame_index

unfoldable pub set_frame : ℕ → Pmm → Option Pmm
unfolding test_frame
set_frame phys_addr p = do
  bit ← test_frame phys_addr p
  assert (not bit)
  some (record p { used_frames = set p.used_frames (phys_addr / page_size) true })

unfoldable pub clear_frame : ℕ → Pmm → Option Pmm
unfolding test_frame
clear_frame phys_addr p = do
  bit ← test_frame phys_addr p
  assert bit
  some (record p { used_frames = set p.used_frames (phys_addr / page_size) false })

abbrev pub dword : ℕ → List Bool → List Bool
dword index used = take 32 (drop (32 * index) used)

-- the test against 0xffffffff
unfoldable pub all_set : List Bool → Bool
all_set [] = true
all_set (b ∷ bits) = b && all_set bits

-- the test against 0
unfoldable pub all_clear : List Bool → Bool
all_clear [] = true
all_clear (b ∷ bits) = not b && all_clear bits

-- the loop over the offsets into a dword
unfoldable pub first_clear : (offset : ℕ) → List Bool → Option ℕ
first_clear offset [] = none
first_clear offset (true ∷ bits) = first_clear (offset + 1) bits
first_clear offset (false ∷ bits) = some offset

-- the loop over the dwords, `rounds` of them from `index`
unfoldable pub scan_dwords : (rounds index : ℕ) → List Bool → ℕ
scan_dwords zero index used = no_frame
scan_dwords (suc rounds) index used =
    let rest = scan_dwords rounds (index + 1) used in
    if all_set (dword index used) then rest else elim (first_clear 0 (dword index used)) [
      | none ↦ rest
      | some offset ↦ (index * 32 + offset) * page_size
    ]

-- the dword where the search starts: one before the address's, if there is one
abbrev pub start_index : ℕ → ℕ
start_index start_addr = start_addr / page_size / 32 - 1

unfoldable pub first_free_frame : (start_addr : ℕ) → Pmm → ℕ
first_free_frame start_addr p =
    scan_dwords (p.nframes / 32 - start_index start_addr) (start_index start_addr) p.used_frames

unfoldable pub pmm_alloc : Pmm → Option (ℕ × Pmm)
pmm_alloc p = do
  let last = if p.last_allocated_frame == no_frame then 0 else p.last_allocated_frame
  let phys_addr = first_free_frame last p
  assert (not (phys_addr == no_frame))
  q ← set_frame phys_addr (record p { last_allocated_frame = phys_addr })
  some (phys_addr, q)

unfoldable pub pmm_free : ℕ → Pmm → Option Pmm
pmm_free phys_addr p = do
  q ← clear_frame phys_addr p
  some (record q { last_allocated_frame = no_frame })

-- The first used frame behind `start`, from `i` on: its number, if there is one.
unfoldable pub find_used : (rounds i start : ℕ) → Pmm → Option (Option ℕ)
find_used zero i start p = some none
find_used (suc rounds) i start p = do
  bit ← test_frame (u32 (start + i * page_size)) p
  let rest = find_used rounds (i + 1) start p
  if bit then some (some i) else rest

-- `while (!success)`
unfoldable pub seek : (fuel num_frames start : ℕ) → Pmm → Option ℕ
seek zero num_frames start p = none
seek (suc fuel) num_frames start p = do
  assert (leb (u32 (start + (num_frames - 1) * page_size)) p.mem_end_page)
  found ← find_used (num_frames - 1) 1 start p
  elim found [
    | none ↦ some start
    | some i ↦ seek fuel num_frames (u32 (start + (i + 1) * page_size)) p
  ]

unfoldable pub set_frames : (rounds i start : ℕ) → Pmm → Option Pmm
set_frames zero i start p = some p
set_frames (suc rounds) i start p = do
  q ← set_frame (u32 (start + i * page_size)) p
  set_frames rounds (i + 1) start q

-- Each round but the last moves `start` up by two frames at least.
unfoldable pub pmm_alloc_continuous : (num_frames : ℕ) → Pmm → Option (ℕ × Pmm)
pmm_alloc_continuous num_frames p = if ltb num_frames 2 then pmm_alloc p else (do
  start ← seek (p.nframes + 2) num_frames (first_free_frame 0 p) p
  q ← set_frames num_frames 0 start p
  some (start, q))

-- how many bits of a dword have a value, by the loop over the offsets
unfoldable pub count_bits : Bool → List Bool → ℕ
count_bits b [] = 0
count_bits true (c ∷ bits) = if c then 1 + count_bits true bits else count_bits true bits
count_bits false (c ∷ bits) = if c then count_bits false bits else 1 + count_bits false bits

unfoldable pub sum_free : (rounds index : ℕ) → List Bool → ℕ
sum_free zero index used = 0
sum_free (suc rounds) index used =
    let rest = sum_free rounds (index + 1) used in
    if all_clear (dword index used)
    then page_size * 32 + rest
    else if all_set (dword index used)
    then rest
    else count_bits false (dword index used) * page_size + rest

unfoldable pub sum_used : (rounds index : ℕ) → List Bool → ℕ
sum_used zero index used = 0
sum_used (suc rounds) index used =
    let rest = sum_used rounds (index + 1) used in
    if all_clear (dword index used)
    then rest
    else if all_set (dword index used)
    then 32 * 4096 + rest
    else count_bits true (dword index used) * page_size + rest

unfoldable pub pmm_bytes_free : Pmm → ℕ
pmm_bytes_free p = u32 (sum_free (p.nframes / 32) 0 p.used_frames)

unfoldable pub pmm_bytes_used : Pmm → ℕ
pmm_bytes_used p = u32 (sum_used (p.nframes / 32) 0 p.used_frames)

-- an entry of the memory map of the boot loader
pub record MemoryMap : Type 0 where
  pub base_addr_low : ℕ
  pub base_addr_high : ℕ
  pub length_low : ℕ
  pub type : ℕ

-- `addr & 0xfffff000`
abbrev pub page_floor : ℕ → ℕ
page_floor addr = addr / page_size * page_size

-- the page-aligned start and end of an area, in either pass
unfoldable pub addr_lo : MemoryMap → ℕ
addr_lo e =
    let low = if ltb e.base_addr_low page_size then page_size else e.base_addr_low in
    if low % page_size == 0 then low else u32 (page_floor low + page_size)

unfoldable pub addr_hi : MemoryMap → ℕ
unfolding addr_lo
addr_hi e = page_floor (u32 (addr_lo e + e.length_low))

-- The first pass: the end of the memory.
unfoldable pub find_end : List MemoryMap → ℕ → ℕ
unfolding addr_hi
find_end [] mem_end_page = mem_end_page
find_end (e ∷ entries) mem_end_page =
    let is_free = (e.type == 1) && (e.base_addr_high == 0) in
    find_end entries (if is_free && ltb mem_end_page (addr_hi e) then addr_hi e else mem_end_page)

-- `for (addr = addr_lo; addr < addr_hi; addr += PAGE_SIZE)`, with `limit` the assertion's bound
unfoldable pub clear_frames : (rounds addr limit : ℕ) → Pmm → Option Pmm
clear_frames zero addr limit p = some p
clear_frames (suc rounds) addr limit p = do
  assert (ltb addr limit)
  q ← clear_frame addr p
  clear_frames rounds (addr + page_size) limit q

-- an area of the second pass; its end moves down if its start was moved out of the first page
unfoldable pub clear_area : MemoryMap → Pmm → Option Pmm
clear_area e p =
    let lo = addr_lo e in
    let end = u32 (lo + e.length_low) in
    let hi =
      page_floor (if ltb e.base_addr_low page_size then u32 (end + 2 ^ 32 - page_size) else end) in
    if ltb lo hi
    then (do
      assert (leb e.base_addr_low lo)
      clear_frames ((hi - lo) / page_size) lo (u32 (e.base_addr_low + e.length_low)) p)
    else some p

unfoldable pub clear_areas : List MemoryMap → Pmm → Option Pmm
clear_areas [] p = some p
clear_areas (e ∷ entries) p = do
  q ← (if (e.type == 1) && (e.base_addr_high == 0) then clear_area e p else some p)
  clear_areas entries q

-- `pmm_init`, with the memory map if there is one
unfoldable pub pmm_init : Option (List MemoryMap) → (upper_mem : ℕ) → Option Pmm
pmm_init map upper_mem =
    let continuous = page_floor (u32 (1048576 + u32 (upper_mem * 1024))) in
    let mem_end : ℕ = elim map [ none ↦ continuous | some entries ↦ find_end entries continuous ] in
    let p : Pmm = record {
      used_frames = replicate ((mem_end / page_size / 32 + 1) * 32) true;
      nframes = mem_end / page_size;
      last_allocated_frame = no_frame;
      mem_end_page = mem_end;
    } in
    elim map [
      | none ↦ clear_frames ((mem_end - 1048576) / page_size) 1048576 mem_end p
      | some entries ↦ clear_areas entries p
    ]
