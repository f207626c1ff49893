-- ===== src/Heap/Free/Left.antt =====
-- Unify left, in `heap_free` of kernel/heap.c: the area and a free one in front of it become one.
use exscape_os.Prelude.{
  ℕ, ◌+◌, ◌-◌, ◌≤◌, ◌≡◌, inl, inr, refl, ap, sym, true, false, List, [], ◌∷◌, ◌++◌, some, arith,
  leb, ◌==◌, ==_refl, Bool-cases, if◌then◌else◌, update,
}
use exscape_os.Heap.{AreaHeader, AreaFooter, Heap}
use exscape_os.Heap.Tiles.{
  Area, sound_header, sound_footer, IsTile, Tiles, total, IsHeapBut, none_missing, Tiles-end,
  IsTile-at, tally_merged, last_at_merged, Tiles-back, retile,
}
use exscape_os.Heap.Free.{unify_left}
use exscape_os.OrderedArray.Index.{hit}

-- the headers behind the unification
abbrev left_headers : (left n m : ℕ) → (ℕ → AreaHeader) → ℕ → AreaHeader
left_headers left n m hs =
    update (update hs left (sound_header (n + m) true)) (left + n)
      (record { size = m; free = true; magic = 0 })

abbrev left_footers : (left n m : ℕ) → (ℕ → AreaFooter) → ℕ → AreaFooter
left_footers left n m fs =
    update (update fs (left + n + m - 8) (sound_footer left)) (left + n - 8)
      (record { magic = 0; header = left })

abbrev left_unified : (left n m : ℕ) → Heap → Heap
left_unified left n m h = record h {
  rightmost_area = if left + n == h.rightmost_area then left else h.rightmost_area;
  headers = left_headers left n m h.headers;
  footers = left_footers left n m h.footers;
}

unify_left-eq :
    (left n m : ℕ) (h : Heap)
    → h.start_address ≤ left
    → IsTile h.headers h.footers left n true
    → IsTile h.headers h.footers (left + n) m true
    → unify_left (left + n) h ≡ some (left, false, left_unified left n m h)
unfolding unify_left
unify_left-eq left n m h le (bn, hl, fl) (bm, hm, fm) =
    let inside : leb (h.start_address + 8) (left + n) ≡ true = ground arith in
    let apart : (left == left + n) ≡ false = ground arith in
    let back : (left + (n + m) - 8 == left + n + m - 8) ≡ true = ground arith in
    let feet : (left + n + m - 8 == left + n - 8) ≡ false = ground arith in
    rw (inside, fl, hl, hm, fm, ==_refl left, apart, back, feet)
      (elim (Bool-cases (left + n == h.rightmost_area)) [ inl t ↦ rw t refl | inr f ↦ rw f refl ])

pub left_unified-IsHeapBut :
    (left n m : ℕ) (pre post : List Area) (h : Heap)
    → left ≡ h.start_address + total pre
    → IsTile h.headers h.footers left n true
    → IsTile h.headers h.footers (left + n) m true
    → IsHeapBut (λ x. hit x (left + n)) (pre ++ (n, true) ∷ (m, true) ∷ post) h
    → IsHeapBut none_missing (pre ++ (n + m, true) ∷ post) (left_unified left n m h)
unfolding Tiles total
left_unified-IsHeapBut left n m pre post h at (bn, hl, fl) (bm, hm, fm) v =
    let s = h.start_address in
    let e =
      Tiles-end h.headers h.footers s pre ((n, true) ∷ (m, true) ∷ post) h.end_address left at
        v.tiles in
    let apart : (left + n == left) ≡ false = ground arith in
    let foot : left + (n + m) - 8 ≡ left + n + m - 8 = omega arith in
    let feet : (left + n - 8 == left + n + m - 8) ≡ false = ground arith in
    let ne1 : (left == h.end_address) ≡ false = ground (arith, e) in
    let ne2 : (left + n == h.end_address) ≡ false = ground (arith, e) in
    record {
      tiles =
          retile h.headers (left_headers left n m h.headers) h.footers
            (left_footers left n m h.footers) s pre ((n, true) ∷ (m, true) ∷ [])
            ((n + m, true) ∷ []) post left (left + n + m) h.end_address at (omega arith)
            (λ x p. ground arith) (λ x p. ground arith)
            (
              (
                omega arith,
                rw (apart, ==_refl left) refl,
                rw (foot, feet, ==_refl (left + n + m - 8)) refl,
              ),
              omega arith,
            )
            v.tiles;
      free_entries = λ x. omega (
        arith,
        v.free_entries x,
        tally_merged true x s pre n m true post,
        ap (hit x) (ap (λ (y : ℕ). y + n) at),
      );
      used_entries = λ x. omega (arith, v.used_entries x, tally_merged false x s pre n m true post);
      free_array = v.free_array;
      used_array = v.used_array;
      rightmost =
          rw v.rightmost (sym (last_at_merged s pre n m true true true post left at (omega arith)));
      behind = rw (ne1, ne2) v.behind;
    }

-- The unification: what it returns, and the heap that it leaves.
pub unify_left-IsHeapBut :
    (left n m : ℕ) (pre post : List Area) (h : Heap)
    → left ≡ h.start_address + total pre
    → IsHeapBut (λ x. hit x (left + n)) (pre ++ (n, true) ∷ (m, true) ∷ post) h
    → (g : Heap) × (unify_left (left + n) h ≡ some (left, false, g))
      × IsHeapBut none_missing (pre ++ (n + m, true) ∷ post) g
      × (g.start_address ≡ h.start_address)
      × (g.free_index ≡ h.free_index)
unfolding Tiles
unify_left-IsHeapBut left n m pre post h at v =
    let here =
      IsTile-at h.headers h.footers h.start_address pre n true ((m, true) ∷ post) h.end_address left
        at v.tiles in
    let back : Tiles h.headers h.footers left ((n, true) ∷ (m, true) ∷ post) h.end_address = rw at (
      Tiles-back h.headers h.footers h.start_address pre ((n, true) ∷ (m, true) ∷ post)
        h.end_address v.tiles) in
    let next = back.1.0 in
    (
      left_unified left n m h,
      unify_left-eq left n m h (omega arith) here next,
      left_unified-IsHeapBut left n m pre post h at here next v,
      refl,
      refl,
    )

-- The first area of the heap, and one behind an area in use, stay as they are.
pub unify_left_first :
    (header : ℕ) (h : Heap)
    → header ≡ h.start_address
    → unify_left header h ≡ some (header, true, h)
unfolding unify_left
unify_left_first header h e =
    let no : leb (h.start_address + 8) header ≡ false = ground (arith, e) in rw no refl

pub unify_left_used :
    (left n : ℕ) (h : Heap)
    → h.start_address ≤ left
    → IsTile h.headers h.footers left n false
    → unify_left (left + n) h ≡ some (left + n, true, h)
unfolding unify_left
unify_left_used left n h le (bn, hl, fl) =
    let inside : leb (h.start_address + 8) (left + n) ≡ true = ground arith in
    rw (inside, fl, hl) refl
