-- ===== src/Pmm/Tests.antt =====
-- Runs of kernel/pmm.c and the witnesses of its theorems.
use exscape_os.Prelude.{
  ℕ, ◌*◌, ◌/◌, ◌<◌, ◌≡◌, ◌⊎◌, refl, Bool, true, false, List, [], ◌∷◌, none, some, arith, get_elem?,
  set, replicate,
}
use exscape_os.Pmm.{
  Pmm, page_size, no_frame, pmm_alloc, pmm_free, pmm_alloc_continuous, first_free_frame,
  scan_dwords, all_set, first_clear, set_frame, clear_frame, test_frame, pmm_init, clear_areas,
  clear_area, clear_frames, find_end, addr_hi, addr_lo, seek, find_used, set_frames,
}
use exscape_os.Pmm.Scan.{SetFrom}
use exscape_os.Pmm.Alloc.{
  IsPmm, pmm_alloc-lowest, pmm_alloc-IsPmm, pmm_free-IsPmm, pmm_alloc-pmm_free, taken,
}

-- 64 frames, of which 3 and 5 are free
abbrev bits : List Bool
bits = true ∷ true ∷ true ∷ false ∷ true ∷ false ∷ replicate 90 true

abbrev small : Pmm
small = record {
  used_frames = bits;
  nframes = 64;
  last_allocated_frame = no_frame;
  mem_end_page = 64 * page_size;
}

small-IsPmm : IsPmm small
small-IsPmm = record {
  length_used = refl;
  nframes_le = omega arith;
  searched = λ ne. absurd (ne refl);
}

small_run : pmm_alloc small ≡ some (3 * page_size, taken 3 small)
unfolding pmm_alloc first_free_frame scan_dwords all_set first_clear set_frame test_frame
small_run = refl

pmm_alloc-lowest_example :
    ((pmm_alloc small ≡ none) × SetFrom 0 (32 * (small.nframes / 32)) small.used_frames)
    ⊎ ((k : ℕ) × (pmm_alloc small ≡ some (k * page_size, taken k small))
        × (get_elem? small.used_frames k ≡ some false)
        × (k < 32 * (small.nframes / 32))
        × SetFrom 0 k small.used_frames)
pmm_alloc-lowest_example = pmm_alloc-lowest small small-IsPmm

pmm_alloc-IsPmm_example : IsPmm (taken 3 small)
pmm_alloc-IsPmm_example =
    pmm_alloc-IsPmm small (taken 3 small) (3 * page_size) small-IsPmm small_run

abbrev freed : Pmm
freed = record small { used_frames = set bits 2 false }

freed_run : pmm_free (2 * page_size) small ≡ some freed
unfolding pmm_free clear_frame test_frame
freed_run = refl

pmm_free-IsPmm_example : IsPmm freed
pmm_free-IsPmm_example = pmm_free-IsPmm small freed (2 * page_size) small-IsPmm freed_run

pmm_alloc-pmm_free_example :
    pmm_free (3 * page_size) (taken 3 small)
    ≡ some (record small { last_allocated_frame = no_frame })
pmm_alloc-pmm_free_example =
    pmm_alloc-pmm_free small (taken 3 small) (3 * page_size) small-IsPmm small_run

-- Frames 3, 5, 7 and 8 are free.
restart_run :
    pmm_alloc_continuous 2
      (record small { used_frames = set (set (set bits 7 false) 6 true) 8 false })
    ≡ some (7 * page_size, record small { used_frames = set (set bits 8 true) 6 true })
unfolding pmm_alloc_continuous pmm_alloc first_free_frame scan_dwords all_set first_clear set_frame
    test_frame seek find_used set_frames
restart_run = refl

-- Frames 3, 5, 8, 9 and 10 are free. The search starts over at frame 7, which is in use and is not
-- tested, and the assertion of `_pmm_set_frame` fails on it, although 8 and 9 are free.
restart_fault :
    pmm_alloc_continuous 2
      (record small { used_frames = set (set (set bits 8 false) 9 false) 10 false })
    ≡ none
unfolding pmm_alloc_continuous pmm_alloc first_free_frame scan_dwords all_set first_clear set_frame
    test_frame seek find_used set_frames
restart_fault = refl

-- an area from 1 KB to 16 KB, of which frames 1 and 2 become free, and one that is reserved
init_run :
    pmm_init
      (some (
        record { base_addr_low = 1024; base_addr_high = 0; length_low = 15360; type = 1 }
        ∷ record { base_addr_low = 1048576; base_addr_high = 0; length_low = 4096; type = 2 }
        ∷ []))
      0
    ≡ some (record {
      used_frames = true ∷ false ∷ false ∷ replicate 285 true;
      nframes = 256;
      last_allocated_frame = no_frame;
      mem_end_page = 1048576;
    })
unfolding pmm_init clear_areas clear_area clear_frames clear_frame test_frame find_end addr_hi
    addr_lo
init_run = refl
