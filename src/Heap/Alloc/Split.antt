-- ===== src/Heap/Alloc/Split.antt =====
-- `heap_alloc` of kernel/heap.c behind the search: the hole leaves the index of free areas, and
-- becomes the area in use, with the rest of it as a free area behind that if it is large enough.
use exscape_os.Prelude.{
  ℕ, ◌+◌, ◌-◌, ◌<◌, ◌≤◌, ◌≡◌, inl, inr, refl, ap, ◌∙◌, Bool, true, false, List, [], ◌∷◌, ◌++◌, some,
  arith, ◌==◌, ==_refl, Bool-cases, if◌then◌else◌, ltb, leb,
}
use exscape_os.Heap.{Heap, drop_free, area_header_t_less_than}
use exscape_os.Heap.Alloc.{split_area, use_hole, result_address}
use exscape_os.Heap.Alloc.Hollow.{
  IsHollow, Beside-part, bounds, free_Beside, used_Beside, filled-IsHeap, hole_le_rightmost,
  last_at_split,
}
use exscape_os.Heap.Alloc.Asserts.{Beside, created, create_area-Beside}
use exscape_os.Heap.Tiles.{
  Area, Tiles, total, tally, IsHeap, last_at, last_at_flag, IsTile-at, tally-append, last_at_flag,
}
use exscape_os.OrderedArray.Index.{entries, hit, count, insert_index, remove_index}

-- The areas that `size` bytes of a hole of `n` make.
unfoldable pub allot : (size n : ℕ) → List Area
allot size n = if leb 36 (n - size) then (size, false) ∷ (n - size, true) ∷ [] else (n, false) ∷ []

-- what else an allocation keeps: the start, and the room of the index of free areas but for `spare`
abbrev pub Keeps : (spare : ℕ) → Heap → Heap → Type 0
Keeps spare h g =
    (g.start_address ≡ h.start_address)
    × (g.free_index.max_size ≡ h.free_index.max_size)
    × (g.free_index.size ≤ h.free_index.size + spare)

-- The hole as a whole goes to the area in use.
split_whole-IsHeap :
    (hole n size : ℕ) (pre post : List Area) (h : Heap)
    → IsHollow hole n pre post h
    → size ≤ n
    → n - size < 36
    → (g : Heap) × (split_area size hole h ≡ some g)
      × IsHeap (pre ++ (n, false) ∷ post) g
      × Keeps 1 h g
unfolding split_area Tiles total tally
split_whole-IsHeap hole n size pre post h v le small =
    let (_, hh, _) =
      IsTile-at h.headers h.footers h.start_address pre n true post h.end_address hole v.place
        v.tiles in
    let (from, to, big, _) = bounds hole n pre post h v in
    let h1 = created hole n false h in
    let made =
      create_area-Beside hole n false h big from to (free_Beside hole n pre post h v)
        (used_Beside hole n pre post h v) in
    let (index, eq, ok, _, _, c) =
      insert_index (area_header_t_less_than h1) hole h.used_index v.used_array v.used_room in
    let no : leb (16 + 12 + 8) (n - size) ≡ false = ground arith in
    let sum : size + (n - size) ≡ n = omega arith in
    let more : ltb h.rightmost_area hole ≡ false =
      ground (arith, hole_le_rightmost hole n pre post h v) in
    let last : h1.rightmost_area ≡ last_at h.start_address (pre ++ (n, false) ∷ post) =
      rw more (v.rightmost ∙ last_at_flag h.start_address pre n true false post) in
    (
      record h1 { used_index = index },
      rw (hh, no, sum, made, eq) refl,
      filled-IsHeap hole n pre post h v h1.headers h1.footers ((n, false) ∷ []) h.free_index index
          h1.rightmost_area (omega arith) (λ y p. ground arith) (λ y p. ground (arith, big))
          ((big, rw (==_refl hole) refl, rw (==_refl (hole + n - 8)) refl), refl) v.free_array ok
          (λ x. omega arith) (λ x. omega (arith, c x)) last,
      (refl, refl, omega arith),
    )

-- The hole is large enough for a free area behind the one in use.
split_two-IsHeap :
    (hole n size : ℕ) (pre post : List Area) (h : Heap)
    → IsHollow hole n pre post h
    → 20 < size
    → size + 36 ≤ n
    → (g : Heap) × (split_area size hole h ≡ some g)
      × IsHeap (pre ++ (size, false) ∷ (n - size, true) ∷ post) g
      × Keeps 1 h g
unfolding split_area Tiles total tally
split_two-IsHeap hole n size pre post h v big le =
    let (_, hh, _) =
      IsTile-at h.headers h.footers h.start_address pre n true post h.end_address hole v.place
        v.tiles in
    let (from, to, _, _) = bounds hole n pre post h v in
    let rest = hole + size in
    let left = n - size in
    let h1 = created rest left true h in
    let part = λ (x : ℕ).
      Beside-part h.headers h.headers h.footers h.footers hole n rest left x (omega arith)
        (omega arith) (λ y p. refl) (λ y p. refl) in
    let made1 =
      create_area-Beside rest left true h (omega arith) (omega arith) (omega arith)
        (λ x c. part x (free_Beside hole n pre post h v x c))
        (λ x c. part x (used_Beside hole n pre post h v x c)) in
    let (frees, eq1, ok1, grown, max, c1) =
      insert_index (area_header_t_less_than h1) rest h.free_index v.free_array v.free_room in
    let h2 = record h1 { free_index = frees } in
    let h3 = created hole size false h2 in
    let kept = λ (x : ℕ).
      Beside-part h.headers h2.headers h.footers h2.footers hole n hole size x (omega arith)
        (omega arith) (λ y p. ground arith) (λ y p. ground arith) in
    let fresh : (x : ℕ) → 0 < count x (entries frees) → Beside h2.headers h2.footers hole size x =
      λ x c. elim (Bool-cases (x == rest)) [
        | inl t ↦
            let same : x ≡ rest = ground (arith, t) in
            (
              left,
              true,
              rw same (omega arith, rw (==_refl rest) refl, rw (==_refl (rest + left - 8)) refl),
              inr (omega arith),
            )
        | inr f ↦
            let none_here : hit x rest ≡ 0 = rw f refl in
            kept x (free_Beside hole n pre post h v x (omega (arith, c1 x)))
      ] in
    let made2 =
      create_area-Beside hole size false h2 big from (omega arith) fresh
        (λ x c. kept x (used_Beside hole n pre post h v x c)) in
    let (used, eq2, ok2, _, _, c2) =
      insert_index (area_header_t_less_than h3) hole h.used_index v.used_array v.used_room in
    let apart : (hole == rest) ≡ false = ground (arith, big) in
    let feet : (hole + size - 8 == rest + left - 8) ≡ false = ground (arith, le) in
    let yes : leb (16 + 12 + 8) (n - size) ≡ true = ground arith in
    let more : ltb h1.rightmost_area hole ≡ false =
      ground (arith, hole_le_rightmost hole n pre post h v) in
    let last : h3.rightmost_area
        ≡ last_at h.start_address (pre ++ (size, false) ∷ (left, true) ∷ post) =
      rw (more, v.rightmost)
        (last_at_split h.start_address pre post n size hole v.place (omega arith) (omega arith)) in
    (
      record h3 { used_index = used },
      rw (hh, yes, made1, eq1, made2, eq2) refl,
      filled-IsHeap hole n pre post h v h3.headers h3.footers ((size, false) ∷ (left, true) ∷ [])
          frees used h3.rightmost_area (omega arith) (λ y p. ground arith) (λ y p. ground arith)
          (
            (big, rw (==_refl hole) refl, rw (==_refl (hole + size - 8)) refl),
            (
              (
                omega arith,
                rw (apart, ==_refl rest) refl,
                rw (feet, ==_refl (rest + left - 8)) refl,
              ),
              omega arith,
            ),
          )
          ok1 ok2 (λ x. omega (arith, c1 x)) (λ x. omega (arith, c2 x)) last,
      (refl, max, omega arith),
    )

-- The hole leaves the index of free areas.
drop_free-IsHollow :
    (hole n : ℕ) (pre post : List Area) (h : Heap)
    → IsHeap (pre ++ (n, true) ∷ post) h
    → hole ≡ h.start_address + total pre
    → h.used_index.size < h.used_index.max_size
    → (g : Heap) × (drop_free hole h ≡ some g)
      × IsHollow hole n pre post g
      × (g.start_address ≡ h.start_address)
      × (g.free_index.max_size ≡ h.free_index.max_size)
      × (g.free_index.size + 1 ≡ h.free_index.size)
unfolding tally
drop_free-IsHollow hole n pre post h v at room =
    let s = h.start_address in
    let one : hit hole hole ≡ 1 = rw (==_refl hole) refl in
    let parts = λ (b : Bool) (x : ℕ). tally-append b x s pre ((n, true) ∷ post) in
    let there : 0 < count hole (entries h.free_index) =
      omega (arith, v.free_entries hole, parts true hole, ap (hit hole) at, one) in
    let (index, eq, ok, size, max, c) = remove_index hole h.free_index v.free_array there in
    (
      record h { free_index = index },
      rw eq refl,
      record {
        tiles = v.tiles;
        place = at;
        free_entries = λ x. omega (
          arith,
          v.free_entries x,
          c x,
          parts true x,
          ap (hit x) at,
          ap (λ (y : ℕ). tally true x (y + n) post) at,
        );
        used_entries = λ x.
            omega (
              arith,
              v.used_entries x,
              parts false x,
              ap (λ (y : ℕ). tally false x (y + n) post) at,
            );
        free_array = ok;
        used_array = v.used_array;
        free_room = omega (arith, size, max, v.free_array.within);
        used_room = room;
        rightmost = v.rightmost;
        behind = v.behind;
      },
      refl,
      max,
      size,
    )

split_area-IsHeap :
    (hole n size : ℕ) (pre post : List Area) (h : Heap)
    → IsHollow hole n pre post h
    → 20 < size
    → size ≤ n
    → (g : Heap) × (split_area size hole h ≡ some g)
      × IsHeap (pre ++ (allot size n ++ post)) g
      × Keeps 1 h g
unfolding allot
split_area-IsHeap hole n size pre post h v big le = elim (Bool-cases (leb 36 (n - size))) [
  | inl t ↦ rw t (split_two-IsHeap hole n size pre post h v big (ground (arith, t)))
  | inr f ↦ rw f (split_whole-IsHeap hole n size pre post h v le (ground (arith, f)))
]

-- Using a hole of a heap of areas does not fault: the heap that is left has in place of the hole the
-- area in use, and behind it the rest as a free area, if that is large enough for one; the result
-- is behind the header of the area. The used index has to have a place left.
pub use_hole-IsHeap :
    (hole n size : ℕ) (pre post : List Area) (h : Heap)
    → IsHeap (pre ++ (n, true) ∷ post) h
    → hole ≡ h.start_address + total pre
    → 20 < size
    → size ≤ n
    → h.used_index.size < h.used_index.max_size
    → (g : Heap) × (use_hole size false hole h ≡ some (result_address hole, g))
      × IsHeap (pre ++ (allot size n ++ post)) g
      × Keeps 0 h g
unfolding use_hole
use_hole-IsHeap hole n size pre post h v at big le room =
    let (h1, d, w, start, max, size_eq) = drop_free-IsHollow hole n pre post h v at room in
    let (g, s, u, (start2, max2, le2)) = split_area-IsHeap hole n size pre post h1 w big le in
    (g, rw (d, s) refl, u, (start2 ∙ start, max2 ∙ max, omega arith))
