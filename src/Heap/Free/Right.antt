-- ===== src/Heap/Free/Right.antt =====
-- Unify right, in `heap_free` of kernel/heap.c: the area and a free one behind it become one.
use exscape_os.Prelude.{
  ℕ, ◌+◌, ◌-◌, ◌<◌, ◌≡◌, ◌≢◌, inl, inr, ◌⊎◌, refl, ap, sym, true, false, List, [], ◌∷◌, ◌++◌, some,
  arith, ◌==◌, ==_refl, Bool-cases, if◌then◌else◌, update,
}
use exscape_os.Heap.{AreaHeader, AreaFooter, Heap, heap_magic}
use exscape_os.Heap.Tiles.{
  Area, sound_header, sound_footer, IsTile, Tiles, total, IsHeapBut, Tiles-end, IsTile-at,
  Tiles-back, tally_merged, last_at_merged, retile,
}
use exscape_os.Heap.Free.{unify_right}
use exscape_os.OrderedArray.{OrderedArray, remove_ordered_array_item}
use exscape_os.OrderedArray.Index.{entries, hit, count, IsArray, remove_index}

-- the headers behind the unification
abbrev right_headers : (area m k : ℕ) → (ℕ → AreaHeader) → ℕ → AreaHeader
right_headers area m k hs =
    update
      (update (update hs area (sound_header (m + k) true)) (area + m)
        (record { size = k; free = true; magic = 0 }))
      area (sound_header (m + k) true)

abbrev right_footers : (area m k : ℕ) → (ℕ → AreaFooter) → ℕ → AreaFooter
right_footers area m k fs =
    update (update fs (area + m - 8) (record { magic = 0; header = area })) (area + m + k - 8)
      (sound_footer area)

abbrev right_unified : (area m k : ℕ) → OrderedArray → Heap → Heap
right_unified area m k index h = record h {
  free_index = index;
  rightmost_area = if area + m == h.rightmost_area then area else h.rightmost_area;
  headers = right_headers area m k h.headers;
  footers = right_footers area m k h.footers;
}

==_comm : (a b : ℕ) → (a == b) ≡ (b == a)
==_comm a b = ground arith

unify_right-eq :
    (area m k : ℕ) (index : OrderedArray) (h : Heap)
    → IsTile h.headers h.footers area m true
    → IsTile h.headers h.footers (area + m) k true
    → remove_ordered_array_item (area + m) h.free_index ≡ some index
    → unify_right area (area + m - 8) h ≡ some (right_unified area m k index h)
unfolding unify_right
unify_right-eq area m k index h (bm, hm, fm) (bk, hk, fk) r =
    let next : area + m - 8 + 8 ≡ area + m = omega arith in
    let apart : (area + m == area) ≡ false = ground arith in
    let back : (area + m + k - 8 == area + (m + k) - 8) ≡ true = ground arith in
    let feet : (area + m - 8 == area + m + k - 8) ≡ false = ground arith in
    let ahead : (area == area + m) ≡ false = ground arith in
    let flip = ==_comm (area + m) h.rightmost_area in
    elim (Bool-cases (h.rightmost_area == area + m)) [
      | inl t ↦
          rw (next, hk, fk, ==_refl (area + m), r, t, flip, t)
            (rw (apart, ==_refl area, hm, fm, hk, back, feet, fk) (rw ahead refl))
      | inr f ↦
          rw (next, hk, fk, ==_refl (area + m), r, f, flip, f)
            (rw (apart, ==_refl area, hm, fm, hk, back, feet, fk) (rw ahead refl))
    ]

right_unified-IsHeapBut :
    (missing : ℕ → ℕ) (area m k : ℕ) (pre post : List Area) (h : Heap) (index : OrderedArray)
    → area ≡ h.start_address + total pre
    → IsTile h.headers h.footers area m true
    → IsTile h.headers h.footers (area + m) k true
    → IsArray index
    → ((x : ℕ) → count x (entries index) + hit x (area + m) ≡ count x (entries h.free_index))
    → IsHeapBut missing (pre ++ (m, true) ∷ (k, true) ∷ post) h
    → IsHeapBut missing (pre ++ (m + k, true) ∷ post) (right_unified area m k index h)
unfolding Tiles total
right_unified-IsHeapBut missing area m k pre post h index at (bm, hm, fm) (bk, hk, fk) ok r v =
    let s = h.start_address in
    let e =
      Tiles-end h.headers h.footers s pre ((m, true) ∷ (k, true) ∷ post) h.end_address area at
        v.tiles in
    let foot : area + (m + k) - 8 ≡ area + m + k - 8 = omega arith in
    let ne1 : (area == h.end_address) ≡ false = ground (arith, e) in
    let ne2 : (area + m == h.end_address) ≡ false = ground (arith, e) in
    record {
      tiles =
          retile h.headers (right_headers area m k h.headers) h.footers
            (right_footers area m k h.footers) s pre ((m, true) ∷ (k, true) ∷ [])
            ((m + k, true) ∷ []) post area (area + m + k) h.end_address at (omega arith)
            (λ x p. ground arith) (λ x p. ground arith)
            (
              (omega arith, rw (==_refl area) refl, rw (foot, ==_refl (area + m + k - 8)) refl),
              omega arith,
            )
            v.tiles;
      free_entries = λ x. omega (
        arith,
        v.free_entries x,
        r x,
        tally_merged true x s pre m k true post,
        ap (hit x) (ap (λ (y : ℕ). y + m) at),
      );
      used_entries = λ x. omega (arith, v.used_entries x, tally_merged false x s pre m k true post);
      free_array = ok;
      used_array = v.used_array;
      rightmost =
          rw v.rightmost (sym (last_at_merged s pre m k true true true post area at (omega arith)));
      behind = rw (ne1, ne2) v.behind;
    }

-- The unification: it does not fault, and the heap that it leaves.
pub unify_right-IsHeapBut :
    (missing : ℕ → ℕ) (area m k : ℕ) (pre post : List Area) (h : Heap)
    → area ≡ h.start_address + total pre
    → missing (area + m) ≡ 0
    → IsHeapBut missing (pre ++ (m, true) ∷ (k, true) ∷ post) h
    → (g : Heap) × (unify_right area (area + m - 8) h ≡ some g)
      × IsHeapBut missing (pre ++ (m + k, true) ∷ post) g
      × (g.free_index.size < g.free_index.max_size)
      × (g.free_index.max_size ≡ h.free_index.max_size)
unfolding Tiles
unify_right-IsHeapBut missing area m k pre post h at zero v =
    let here =
      IsTile-at h.headers h.footers h.start_address pre m true ((k, true) ∷ post) h.end_address area
        at v.tiles in
    let back : Tiles h.headers h.footers area ((m, true) ∷ (k, true) ∷ post) h.end_address = rw at (
      Tiles-back h.headers h.footers h.start_address pre ((m, true) ∷ (k, true) ∷ post)
        h.end_address v.tiles) in
    let next = back.1.0 in
    let one : hit (area + m) (area + m) ≡ 1 = rw (==_refl (area + m)) refl in
    let there : 0 < count (area + m) (entries h.free_index) = omega (
      arith,
      v.free_entries (area + m),
      zero,
      tally_merged true (area + m) h.start_address pre m k true post,
      ap (hit (area + m)) (ap (λ (y : ℕ). y + m) at),
      one,
    ) in
    let (index, eq, ok, size, max, r) = remove_index (area + m) h.free_index v.free_array there in
    (
      right_unified area m k index h,
      unify_right-eq area m k index h here next eq,
      right_unified-IsHeapBut missing area m k pre post h index at here next ok r v,
      omega (arith, size, max, v.free_array.within),
      max,
    )

-- Nothing free behind the area: the heap stays.
pub unify_right_used :
    (area m : ℕ) (h : Heap)
    → 20 < m
    → ((h.headers (area + m)).magic ≢ heap_magic) ⊎ ((h.headers (area + m)).free ≡ false)
    → unify_right area (area + m - 8) h ≡ some h
unfolding unify_right
unify_right_used area m h big (inl ne) =
    let next : area + m - 8 + 8 ≡ area + m = omega arith in
    let no : ((h.headers (area + m)).magic == heap_magic) ≡ false = ground (arith, ne) in
    rw (next, no) refl
unify_right_used area m h big (inr f) =
    let next : area + m - 8 + 8 ≡ area + m = omega arith in
    elim (Bool-cases ((h.headers (area + m)).magic == heap_magic)) [
      | inl t ↦ rw (next, t, f) refl
      | inr n ↦ rw (next, n) refl
    ]
