-- ===== src/Pmm/Alloc.antt =====
-- `pmm_alloc` and `pmm_free` of kernel/pmm.c: the lowest free frame, although the search starts at
-- the last one that was allocated.
use exscape_os.Prelude.{
  ℕ, zero, suc, ◌+◌, ◌*◌, ◌/◌, ◌^◌, ◌≤◌, ◌<◌, ◌≡◌, ◌≢◌, ◌⊎◌, inl, inr, refl, ap, ◌∙◌, sym, Bool,
  true, false, List, [], ◌∷◌, none, some, arith, if◌then◌else◌, Bool-cases, Option-cases, leb, ◌==◌,
  length, get_elem?, set, length-set, get_elem?-set_self, get_elem?-set_ne, lt_of_get_elem?, subst,
}
use exscape_os.Pmm.{
  Pmm, page_size, no_frame, test_frame, set_frame, clear_frame, start_index, first_free_frame,
  pmm_alloc, pmm_free,
}
use exscape_os.Pmm.Scan.{SetFrom, Search, scan_from}

-- The bitmap has its size, the memory fits 32-bit addresses, and no frame in front of the place
-- where the next search starts is free.
pub record IsPmm (p : Pmm) : Type 0 where
  pub length_used : length p.used_frames ≡ (p.nframes / 32 + 1) * 32
  pub nframes_le : p.nframes ≤ 2 ^ 20
  pub searched :
      p.last_allocated_frame ≢ no_frame
      → (start_index p.last_allocated_frame ≤ p.nframes / 32)
        × SetFrom 0 (32 * start_index p.last_allocated_frame) p.used_frames

-- where the search of `pmm_alloc` starts
abbrev last : Pmm → ℕ
last p = if p.last_allocated_frame == no_frame then 0 else p.last_allocated_frame

last_searched :
    (p : Pmm)
    → IsPmm p
    → (start_index (last p) ≤ p.nframes / 32) × SetFrom 0 (32 * start_index (last p)) p.used_frames
last_searched p v = elim (Bool-cases (p.last_allocated_frame == no_frame)) [
  | inl e ↦ rw e (omega arith, λ j from to. absurd (omega arith))
  | inr ne ↦ rw ne (v.searched (λ e. ground (arith, ne, e)))
]

first_free_frame_lem :
    (p : Pmm)
    → IsPmm p
    → Search (first_free_frame (last p) p) 0 (32 * (p.nframes / 32)) p.used_frames
unfolding first_free_frame
first_free_frame_lem p v =
    let (le, front) = last_searched p v in
    let len = v.length_used in
    scan_from (p.nframes / 32) (start_index (last p)) p.used_frames (omega arith) le front

-- what `pmm_alloc` makes of the bitmap, when it takes frame `k`
abbrev pub taken : ℕ → Pmm → Pmm
taken k p = record p {
  used_frames = set p.used_frames k true;
  last_allocated_frame = k * page_size;
}

set_frame-clear :
    (k : ℕ) (p : Pmm)
    → k < 32 * (p.nframes / 32)
    → get_elem? p.used_frames k ≡ some false
    → set_frame (k * page_size) p ≡ some (record p { used_frames = set p.used_frames k true })
unfolding set_frame test_frame
set_frame-clear k p lt c =
    let e : k * page_size / page_size ≡ k = omega arith in
    let inside : leb (k / 32) (p.nframes / 32) ≡ true = ground arith in rw (e, inside, c) refl

-- With the invariant, `pmm_alloc` takes the lowest free frame of the whole dwords of the bitmap,
-- and panics only if there is none.
pub pmm_alloc-lowest :
    (p : Pmm)
    → IsPmm p
    → ((pmm_alloc p ≡ none) × SetFrom 0 (32 * (p.nframes / 32)) p.used_frames)
      ⊎ ((k : ℕ) × (pmm_alloc p ≡ some (k * page_size, taken k p))
          × (get_elem? p.used_frames k ≡ some false)
          × (k < 32 * (p.nframes / 32))
          × SetFrom 0 k p.used_frames)
unfolding pmm_alloc
pmm_alloc-lowest p v = elim (first_free_frame_lem p v) [
  | inl (e, full) ↦ inl (rw e refl, full)
  | inr (k, e, c, ge, lt, front) ↦
      let some_frame : (k * page_size == no_frame) ≡ false = ground arith in
      inr (
        k,
        rw
            (
              e,
              some_frame,
              set_frame-clear k (record p { last_allocated_frame = k * page_size }) lt c,
            )
            refl,
        c,
        lt,
        front,
      )
]

SetFrom-set : (n k : ℕ) (used : List Bool) → SetFrom 0 n used → SetFrom 0 n (set used k true)
SetFrom-set n k used f j from to = elim (Bool-cases (j == k)) [
  | inl e ↦
      let same : j ≡ k = ground (arith, e) in
      let value : get_elem? used k ≡ some true = rw same at (f j from to) in
      rw same (get_elem?-set_self used k true (lt_of_get_elem? used k value))
  | inr ne ↦ get_elem?-set_ne used k j true (λ e. ground (arith, ne, e)) ∙ f j from to
]

-- `pmm_alloc` preserves the invariant.
pub pmm_alloc-IsPmm : (p q : Pmm) (a : ℕ) → IsPmm p → pmm_alloc p ≡ some (a, q) → IsPmm q
pmm_alloc-IsPmm p q a v h = elim (pmm_alloc-lowest p v) [
  | inl (e, full) ↦ absurd cc
  | inr (k, e, c, lt, front) ↦
      let same : taken k p ≡ q = cc in
      subst IsPmm same (record {
        length_used = length-set p.used_frames k true ∙ v.length_used;
        nframes_le = v.nframes_le;
        searched = λ h.
            (omega arith, λ j from to. SetFrom-set k k p.used_frames front j from (omega arith));
      })
]

-- Freeing a frame that is in use keeps the invariant: the next search starts at the first frame.
pub pmm_free-IsPmm : (p q : Pmm) (a : ℕ) → IsPmm p → pmm_free a p ≡ some q → IsPmm q
unfolding pmm_free clear_frame
pmm_free-IsPmm p q a v h = elim (Option-cases (test_frame a p)) [
  | inl e ↦ absurd (ground (arith, h, e))
  | inr (b, e) ↦ elim (Bool-cases b) [
    | inl t ↦
        let same : record p {
          used_frames = set p.used_frames (a / page_size) false;
          last_allocated_frame = no_frame;
        }
            ≡ q =
          ground (arith, h, e, t) in
        subst IsPmm same (record {
          length_used = length-set p.used_frames (a / page_size) false ∙ v.length_used;
          nframes_le = v.nframes_le;
          searched = λ h. absurd (h refl);
        })
    | inr f ↦ absurd (ground (arith, h, e, f))
  ]
]

set-set_back :
    (xs : List Bool) (k : ℕ) (b c : Bool) → get_elem? xs k ≡ some b → set (set xs k c) k b ≡ xs
set-set_back [] k b c h = refl
set-set_back (x ∷ xs) zero b c h = ap (λ y. y ∷ xs) (cc)
set-set_back (x ∷ xs) (suc k) b c h = ap (λ r. x ∷ r) (set-set_back xs k b c h)

-- Freeing the frame that `pmm_alloc` just gave restores the bitmap.
pub pmm_alloc-pmm_free :
    (p q : Pmm) (a : ℕ)
    → IsPmm p
    → pmm_alloc p ≡ some (a, q)
    → pmm_free a q ≡ some (record p { last_allocated_frame = no_frame })
unfolding pmm_free clear_frame test_frame
pmm_alloc-pmm_free p q a v h = elim (pmm_alloc-lowest p v) [
  | inl (e, full) ↦ absurd cc
  | inr (k, e, c, lt, front) ↦
      let same : taken k p ≡ q = cc in
      let addr : k * page_size ≡ a = cc in
      let quot : k * page_size / page_size ≡ k = omega arith in
      let inside : leb (k / 32) (p.nframes / 32) ≡ true = ground arith in
      rw
        (
          sym same,
          sym addr,
          quot,
          inside,
          get_elem?-set_self p.used_frames k true (lt_of_get_elem? p.used_frames k c),
          set-set_back p.used_frames k false true c,
        )
        refl
]
