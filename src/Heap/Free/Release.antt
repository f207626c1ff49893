-- ===== src/Heap/Free/Release.antt =====
-- `heap_free` of kernel/heap.c: the area that is freed, and what becomes of those beside it.
use exscape_os.Prelude.{
  ℕ, ◌+◌, ◌-◌, ◌<◌, ◌≡◌, inl, inr, ◌⊎◌, refl, ap, ◌∙◌, sym, subst, Bool, true, false, List, [], ◌∷◌,
  ◌++◌, append_assoc, some, arith, ◌==◌, ==_refl, if◌then◌else◌, update,
}
use exscape_os.Heap.{AreaHeader, Heap, add_free, area_header_t_less_than, drop_used}
use exscape_os.Heap.Tiles.{
  Area, sound_header, Tiles, total, tally, IsHeap, IsHeapBut, none_missing, Tiles-end, IsTile-at,
  Tiles-back, tally-append, retile, last_at, last_at_flag,
}
use exscape_os.Heap.Free.{unify_left, unify_right, free_area}
use exscape_os.Heap.Free.Merge.{
  join_right, given_back, given_back_free, given_back_used, last_area, total-snoc,
}
use exscape_os.Heap.Free.Left.{unify_left-IsHeapBut, unify_left_first, unify_left_used}
use exscape_os.Heap.Free.Right.{unify_right-IsHeapBut, unify_right_used}
use exscape_os.OrderedArray.{OrderedArray}
use exscape_os.OrderedArray.Index.{entries, hit, count, IsArray, remove_index, insert_index}

-- Unify right, whatever stands behind the area.
join_right-IsHeapBut :
    (missing : ℕ → ℕ) (area m : ℕ) (pre post : List Area) (h : Heap)
    → area ≡ h.start_address + total pre
    → missing (area + m) ≡ 0
    → h.free_index.size < h.free_index.max_size
    → IsHeapBut missing (pre ++ (m, true) ∷ post) h
    → (g : Heap) × (unify_right area (area + m - 8) h ≡ some g)
      × IsHeapBut missing (pre ++ join_right m post) g
      × (g.free_index.size < g.free_index.max_size)
unfolding join_right Tiles total
join_right-IsHeapBut missing area m pre [] h at zero room v =
    let here =
      IsTile-at h.headers h.footers h.start_address pre m true [] h.end_address area at v.tiles in
    let e =
      Tiles-end h.headers h.footers h.start_address pre ((m, true) ∷ []) h.end_address area at
        v.tiles in
    let last : area + m ≡ h.end_address = omega arith in
    (h, unify_right_used area m h here.0 (inl (rw last v.behind)), v, room)
join_right-IsHeapBut missing area m pre ((k, true) ∷ post) h at zero room v =
    let (g, eq, w, r, _) = unify_right-IsHeapBut missing area m k pre post h at zero v in
    (g, eq, w, r)
join_right-IsHeapBut missing area m pre ((k, false) ∷ post) h at zero room v =
    let back : Tiles h.headers h.footers area ((m, true) ∷ (k, false) ∷ post) h.end_address =
      rw at (
        Tiles-back h.headers h.footers h.start_address pre ((m, true) ∷ (k, false) ∷ post)
          h.end_address v.tiles) in
    let next = back.1.0.1 in
    (h, unify_right_used area m h back.0.0 (inr (ap (λ (x : AreaHeader). x.free) next)), v, room)

-- The area goes from the used index to no index.
abbrev marked : (header m : ℕ) → OrderedArray → Heap → Heap
marked header m index h = record h {
  used_index = index;
  headers = update h.headers header (sound_header m true);
}

marked-IsHeapBut :
    (header m : ℕ) (pre post : List Area) (h : Heap) (index : OrderedArray)
    → header ≡ h.start_address + total pre
    → IsArray index
    → ((x : ℕ) → count x (entries index) + hit x header ≡ count x (entries h.used_index))
    → IsHeap (pre ++ (m, false) ∷ post) h
    → IsHeapBut (λ x. hit x header) (pre ++ (m, true) ∷ post) (marked header m index h)
unfolding Tiles total tally last_at
marked-IsHeapBut header m pre post h index at ok r v =
    let s = h.start_address in
    let (big, hh, ff) =
      IsTile-at h.headers h.footers s pre m false post h.end_address header at v.tiles in
    let e =
      Tiles-end h.headers h.footers s pre ((m, false) ∷ post) h.end_address header at v.tiles in
    let ne : (header == h.end_address) ≡ false = ground (arith, e) in
    record {
      tiles =
          retile h.headers (update h.headers header (sound_header m true)) h.footers h.footers s pre
            ((m, false) ∷ []) ((m, true) ∷ []) post header (header + m) h.end_address at
            (omega arith) (λ x p. ground arith) (λ x p. refl)
            ((big, rw (==_refl header) refl, ff), omega arith) v.tiles;
      free_entries = λ x. omega (
        arith,
        v.free_entries x,
        tally-append true x s pre ((m, false) ∷ post),
        tally-append true x s pre ((m, true) ∷ post),
        ap (hit x) at,
      );
      used_entries = λ x. omega (
        arith,
        v.used_entries x,
        r x,
        tally-append false x s pre ((m, false) ∷ post),
        tally-append false x s pre ((m, true) ∷ post),
        ap (hit x) at,
      );
      free_array = v.free_array;
      used_array = ok;
      rightmost = v.rightmost ∙ last_at_flag s pre m false true post;
      behind = rw ne v.behind;
    }

-- The area goes to the free index.
pub add_free-IsHeap :
    (area : ℕ) (areas : List Area) (h : Heap)
    → h.free_index.size < h.free_index.max_size
    → IsHeapBut (λ x. hit x area) areas h
    → (g : Heap) × (add_free area h ≡ some g)
      × IsHeap areas g
      × (g.start_address ≡ h.start_address)
      × (g.end_address ≡ h.end_address)
add_free-IsHeap area areas h room v =
    let (index, eq, ok, _, _, c) =
      insert_index (area_header_t_less_than h) area h.free_index v.free_array room in
    (
      record h { free_index = index },
      rw eq refl,
      record {
        tiles = v.tiles;
        free_entries = λ x. omega (arith, c x, v.free_entries x);
        used_entries = v.used_entries;
        free_array = ok;
        used_array = v.used_array;
        rightmost = v.rightmost;
        behind = v.behind;
      },
      refl,
      refl,
    )

-- The steps of `free_area` behind the used index.
free_area_steps :
    (header m area : ℕ) (add : Bool) (index : OrderedArray) (h h3 h4 g : Heap)
    → h.headers header ≡ sound_header m false
    → drop_used header h ≡ some (record h { used_index = index })
    → unify_left header (marked header m index h) ≡ some (area, add, h3)
    → unify_right area (header + m - 8) h3 ≡ some h4
    → (if add then add_free area h4 else some h4) ≡ some g
    → free_area header h ≡ some g
unfolding free_area
free_area_steps header m area add index h h3 h4 g hh d l r a = rw (hh, d, hh, l, r) a

-- What the theorem on `free_area` says of an area and those beside it.
abbrev Freed : (header : ℕ) → List Area → Heap → Type 0
Freed header areas h = (g : Heap) × (free_area header h ≡ some g) × IsHeap areas g

-- The area, when nothing becomes one with it on the left.
Freed-alone :
    (header m : ℕ) (pre post : List Area) (index : OrderedArray) (h : Heap)
    → header ≡ h.start_address + total pre
    → 0 < m
    → h.free_index.size < h.free_index.max_size
    → h.headers header ≡ sound_header m false
    → drop_used header h ≡ some (record h { used_index = index })
    → unify_left header (marked header m index h) ≡ some (header, true, marked header m index h)
    → IsHeapBut (λ x. hit x header) (pre ++ (m, true) ∷ post) (marked header m index h)
    → Freed header (pre ++ join_right m post) h
Freed-alone header m pre post index h at pos room hh d l v =
    let apart : hit (header + m) header ≡ 0 = ground arith in
    let (h4, r, w, room4) =
      join_right-IsHeapBut (λ x. hit x header) header m pre post (marked header m index h) at apart
        room v in
    let (g, a, u, _, _) = add_free-IsHeap header (pre ++ join_right m post) h4 room4 w in
    (g, free_area_steps header m header true index h (marked header m index h) h4 g hh d l r a, u)

-- The area behind a free one.
Freed-left :
    (left n m : ℕ) (pre post : List Area) (index : OrderedArray) (h : Heap)
    → left ≡ h.start_address + total pre
    → h.free_index.size < h.free_index.max_size
    → h.headers (left + n) ≡ sound_header m false
    → drop_used (left + n) h ≡ some (record h { used_index = index })
    → IsHeapBut
        (λ x. hit x (left + n))
        (pre ++ (n, true) ∷ (m, true) ∷ post)
        (marked (left + n) m index h)
    → Freed (left + n) (pre ++ join_right (n + m) post) h
Freed-left left n m pre post index h at room hh d v =
    let (h3, l, w, start, frees) =
      unify_left-IsHeapBut left n m pre post (marked (left + n) m index h) at v in
    let (h4, r, u, _) =
      join_right-IsHeapBut none_missing left (n + m) pre post h3
        (at ∙ ap (λ (s : ℕ). s + total pre) (sym start)) refl (rw frees room) w in
    let foot : left + (n + m) - 8 ≡ left + n + m - 8 = omega arith in
    (h4, free_area_steps (left + n) m left false index h h3 h4 h4 hh d l (rw foot at r) refl, u)

-- The area leaves the used index.
taken :
    (header m : ℕ) (pre post : List Area) (h : Heap)
    → IsHeap (pre ++ (m, false) ∷ post) h
    → header ≡ h.start_address + total pre
    → (index : OrderedArray) × (drop_used header h ≡ some (record h { used_index = index }))
      × (0 < m)
      × (h.headers header ≡ sound_header m false)
      × IsHeapBut (λ x. hit x header) (pre ++ (m, true) ∷ post) (marked header m index h)
unfolding tally
taken header m pre post h v at =
    let s = h.start_address in
    let (big, hh, ff) =
      IsTile-at h.headers h.footers s pre m false post h.end_address header at v.tiles in
    let one : hit header header ≡ 1 = rw (==_refl header) refl in
    let there : 0 < count header (entries h.used_index) = omega (
      arith,
      v.used_entries header,
      tally-append false header s pre ((m, false) ∷ post),
      ap (hit header) at,
      one,
    ) in
    let (index, eq, ok, _, _, c) = remove_index header h.used_index v.used_array there in
    (index, rw eq refl, omega arith, hh, marked-IsHeapBut header m pre post h index at ok c v)

-- The three places that an area in use can have.
Freed-first :
    (header m : ℕ) (post : List Area) (h : Heap)
    → IsHeap ((m, false) ∷ post) h
    → header ≡ h.start_address + 0
    → h.free_index.size < h.free_index.max_size
    → Freed header (join_right m post) h
unfolding total
Freed-first header m post h v at room =
    let (index, d, pos, hh, w) = taken header m [] post h v at in
    Freed-alone header m [] post index h at pos room hh d
      (unify_left_first header (marked header m index h) (omega arith)) w

Freed-behind_free :
    (left n m : ℕ) (pre post : List Area) (h : Heap)
    → IsHeap (pre ++ (n, true) ∷ (m, false) ∷ post) h
    → left ≡ h.start_address + total pre
    → h.free_index.size < h.free_index.max_size
    → Freed (left + n) (pre ++ join_right (n + m) post) h
unfolding total
Freed-behind_free left n m pre post h v at room =
    let (index, d, _, hh, w) =
      taken (left + n) m (pre ++ (n, true) ∷ []) post h
        (subst (λ l. IsHeap l h) (sym (append_assoc pre ((n, true) ∷ []) ((m, false) ∷ post))) v)
        (omega (arith, total-snoc pre n true, at)) in
    Freed-left left n m pre post index h at room hh d (
      subst (λ l. IsHeapBut (λ x. hit x (left + n)) l (marked (left + n) m index h))
        (append_assoc pre ((n, true) ∷ []) ((m, true) ∷ post)) w)

Freed-behind_used :
    (left n m : ℕ) (pre post : List Area) (h : Heap)
    → IsHeap (pre ++ (n, false) ∷ (m, false) ∷ post) h
    → left ≡ h.start_address + total pre
    → h.free_index.size < h.free_index.max_size
    → Freed (left + n) (pre ++ (n, false) ∷ join_right m post) h
unfolding total
Freed-behind_used left n m pre post h v at room =
    let next : left + n ≡ h.start_address + total (pre ++ (n, false) ∷ []) =
      omega (arith, total-snoc pre n false, at) in
    let here =
      IsTile-at h.headers h.footers h.start_address pre n false ((m, false) ∷ post) h.end_address
        left at v.tiles in
    let (index, d, pos, hh, w) =
      taken (left + n) m (pre ++ (n, false) ∷ []) post h
        (subst (λ l. IsHeap l h) (sym (append_assoc pre ((n, false) ∷ []) ((m, false) ∷ post))) v)
        next in
    let apart : (left + n == left) ≡ false = ground (arith, here.0) in
    let stays =
      unify_left_used left n (marked (left + n) m index h) (omega arith)
        (here.0, rw apart here.1, here.2) in
    let (g, eq, u) =
      Freed-alone (left + n) m (pre ++ (n, false) ∷ []) post index h next pos room hh d stays w in
    (g, eq, subst (λ l. IsHeap l g) (append_assoc pre ((n, false) ∷ []) (join_right m post)) u)

Freed-behind :
    (left n m : ℕ) (f : Bool) (pre post : List Area) (h : Heap)
    → IsHeap (pre ++ (n, f) ∷ (m, false) ∷ post) h
    → left ≡ h.start_address + total pre
    → h.free_index.size < h.free_index.max_size
    → Freed (left + n) (given_back (pre ++ (n, f) ∷ []) m post) h
Freed-behind left n m true pre post h v at room =
    rw (given_back_free pre n m post) (Freed-behind_free left n m pre post h v at room)
Freed-behind left n m false pre post h v at room =
    rw (given_back_used pre n m post) (Freed-behind_used left n m pre post h v at room)

-- Freeing an area in use of a heap of areas does not fault and leaves a heap of areas, in which the
-- area is free and one with each neighbour that was free; the free index has to have a place left.
pub free_area-IsHeap :
    (header m : ℕ) (pre post : List Area) (h : Heap)
    → IsHeap (pre ++ (m, false) ∷ post) h
    → header ≡ h.start_address + total pre
    → h.free_index.size < h.free_index.max_size
    → (g : Heap) × (free_area header h ≡ some g) × IsHeap (given_back pre m post) g
unfolding given_back total
free_area-IsHeap header m pre post h v at room = by_place (last_area pre) v at
  where
    behind :
        (front : List Area) (n : ℕ) (f : Bool)
        → IsHeap ((front ++ (n, f) ∷ []) ++ (m, false) ∷ post) h
        → header ≡ h.start_address + total (front ++ (n, f) ∷ [])
        → Freed header (given_back (front ++ (n, f) ∷ []) m post) h
    behind front n f v at =
        let e : header ≡ h.start_address + total front + n =
          omega (arith, total-snoc front n f, at) in
        let w = subst (λ l. IsHeap l h) (append_assoc front ((n, f) ∷ []) ((m, false) ∷ post)) v in
        rw e (Freed-behind (h.start_address + total front) n m f front post h w refl room)

    by_place :
        (pre ≡ []) ⊎ ((front : List Area) × (n : ℕ) × (f : Bool) × (pre ≡ front ++ (n, f) ∷ []))
        → IsHeap (pre ++ (m, false) ∷ post) h
        → header ≡ h.start_address + total pre
        → Freed header (given_back pre m post) h
    by_place (inl e) v at = rw e (Freed-first header m post h (rw e at v) (rw e at at) room)
    by_place (inr (front, n, f, e)) v at = rw e (behind front n f (rw e at v) (rw e at at))
