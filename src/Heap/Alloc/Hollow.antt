-- ===== src/Heap/Alloc/Hollow.antt =====
-- A hole of a heap of kernel/heap.c that `heap_alloc` has taken out of the index of free areas, and
-- the areas that it is then filled with.
use exscape_os.Prelude.{
  ℕ, if◌then◌else◌, sym, ltb, ◌+◌, ◌-◌, ◌<◌, ◌≤◌, ◌≡◌, inl, inr, ◌⊎◌, ◌≢◌, refl, ◌∙◌, sym, Bool,
  true, false, List, [], ◌∷◌, ◌++◌, arith, Bool-cases, ltb,
}
use exscape_os.Heap.{AreaHeader, AreaFooter, Heap, heap_magic}
use exscape_os.Heap.Alloc.Asserts.{Beside, tally-IsTile}
use exscape_os.Heap.Tiles.{
  Area, Tiles, total, tally, IsHeap, last_at, Tiles-end, Tiles-front, Tiles-back, IsTile-at,
  tally-append, last_at-append, le_last_at, retile,
}
use exscape_os.OrderedArray.{OrderedArray}
use exscape_os.OrderedArray.Index.{entries, count, IsArray}

-- An area that is in front of the hole or behind it.
outside_tile :
    (hs : ℕ → AreaHeader) (fs : ℕ → AreaFooter) (b f : Bool) (x at : ℕ) (pre post : List Area)
    (n e hole : ℕ)
    → Tiles hs fs at (pre ++ (n, f) ∷ post) e
    → hole ≡ at + total pre
    → 0 < tally b x at pre + tally b x (hole + n) post
    → Beside hs fs hole n x
unfolding Tiles
outside_tile hs fs b f x at pre post n e hole t eq pos =
    let front : Tiles hs fs at pre hole = rw eq (Tiles-front hs fs at pre ((n, f) ∷ post) e t) in
    let back : Tiles hs fs hole ((n, f) ∷ post) e =
      rw eq (Tiles-back hs fs at pre ((n, f) ∷ post) e t) in
    elim (Bool-cases (ltb 0 (tally b x at pre))) [
      | inl t ↦
          let (k, tile, _, le) = tally-IsTile hs fs b x at pre hole front (ground arith) in
          (k, b, tile, inl le)
      | inr f ↦
          let (k, tile, ge, _) = tally-IsTile hs fs b x (hole + n) post e back.1 (ground arith) in
          (k, b, tile, inr ge)
    ]

-- Beside the hole, beside a part of it, also when only the hole has been written to.
pub Beside-part :
    (hs gs : ℕ → AreaHeader) (fs es : ℕ → AreaFooter) (hole n a size x : ℕ)
    → hole ≤ a
    → a + size ≤ hole + n
    → ((y : ℕ) → (y < hole) ⊎ (hole + n ≤ y) → gs y ≡ hs y)
    → ((y : ℕ) → (y < hole) ⊎ (hole + n ≤ y) → es y ≡ fs y)
    → Beside hs fs hole n x
    → Beside gs es a size x
Beside-part hs gs fs es hole n a size x le1 le2 p q (k, f, (big, hh, ff), side) = (
  k,
  f,
  (big, p x (ground (arith, side)) ∙ hh, q (x + k - 8) (ground (arith, side)) ∙ ff),
  ground (arith, side),
)

-- A heap whose hole is in no index.
pub record IsHollow (hole n : ℕ) (pre post : List Area) (h : Heap) : Type 0 where
  pub tiles : Tiles h.headers h.footers h.start_address (pre ++ (n, true) ∷ post) h.end_address
  pub place : hole ≡ h.start_address + total pre
  pub free_entries :
      (x : ℕ)
      → count x (entries h.free_index)
        ≡ tally true x h.start_address pre + tally true x (hole + n) post
  pub used_entries :
      (x : ℕ)
      → count x (entries h.used_index)
        ≡ tally false x h.start_address pre + tally false x (hole + n) post
  pub free_array : IsArray h.free_index
  pub used_array : IsArray h.used_index
  pub free_room : h.free_index.size < h.free_index.max_size
  pub used_room : h.used_index.size < h.used_index.max_size
  pub rightmost : h.rightmost_area ≡ last_at h.start_address (pre ++ (n, true) ∷ post)
  pub behind : (h.headers h.end_address).magic ≢ heap_magic

module _ (hole n : ℕ) (pre post : List Area) (h : Heap) (v : IsHollow hole n pre post h) where
  pub bounds :
      (h.start_address ≤ hole)
      × (hole + n ≤ h.end_address)
      × (20 < n)
      × (hole + n + total post ≡ h.end_address)
  unfolding total
  bounds =
      let (big, _, _) =
        IsTile-at h.headers h.footers h.start_address pre n true post h.end_address hole v.place
          v.tiles in
      let e =
        Tiles-end h.headers h.footers h.start_address pre ((n, true) ∷ post) h.end_address hole
          v.place v.tiles in
      let le = v.place in (omega arith, omega arith, big, omega arith)

  pub free_Beside :
      (x : ℕ) → 0 < count x (entries h.free_index) → Beside h.headers h.footers hole n x
  free_Beside x pos =
      outside_tile h.headers h.footers true true x h.start_address pre post n h.end_address hole
        v.tiles v.place (omega (arith, v.free_entries x))

  pub used_Beside :
      (x : ℕ) → 0 < count x (entries h.used_index) → Beside h.headers h.footers hole n x
  used_Beside x pos =
      outside_tile h.headers h.footers false true x h.start_address pre post n h.end_address hole
        v.tiles v.place (omega (arith, v.used_entries x))

  -- Areas that fill the hole make a heap.
  pub filled-IsHeap :
      (gs : ℕ → AreaHeader) (es : ℕ → AreaFooter) (areas : List Area) (frees used : OrderedArray)
      (rightmost : ℕ)
      → n ≡ total areas
      → ((y : ℕ) → (y < hole) ⊎ (hole + n ≤ y) → gs y ≡ h.headers y)
      → ((y : ℕ) → (y < hole) ⊎ (hole + n ≤ y) → es y ≡ h.footers y)
      → Tiles gs es hole areas (hole + n)
      → IsArray frees
      → IsArray used
      → ((x : ℕ)
          → count x (entries frees) ≡ count x (entries h.free_index) + tally true x hole areas)
      → ((x : ℕ)
          → count x (entries used) ≡ count x (entries h.used_index) + tally false x hole areas)
      → rightmost ≡ last_at h.start_address (pre ++ (areas ++ post))
      → IsHeap (pre ++ (areas ++ post)) (record h {
        headers = gs;
        footers = es;
        free_index = frees;
        used_index = used;
        rightmost_area = rightmost;
      })
  unfolding total
  filled-IsHeap gs es areas frees used rightmost sum p q t fa ua fc uc r =
      let s = h.start_address in
      let (_, _, _, e) = bounds in
      let at : s + total pre ≡ hole = sym v.place in
      let next : hole + total areas ≡ hole + n = omega (arith, sum) in
      let parts : (b : Bool) (x : ℕ)
          → tally b x s (pre ++ (areas ++ post))
            ≡ tally b x s pre + (tally b x hole areas + tally b x (hole + n) post) =
        λ b x.
          rw (tally-append b x s pre (areas ++ post), at, tally-append b x hole areas post, next)
            refl in
      record {
        tiles =
            retile h.headers gs h.footers es s pre ((n, true) ∷ []) areas post hole (hole + n)
              h.end_address v.place (omega arith) p q t v.tiles;
        free_entries = λ x. omega (arith, fc x, v.free_entries x, parts true x);
        used_entries = λ x. omega (arith, uc x, v.used_entries x, parts false x);
        free_array = fa;
        used_array = ua;
        rightmost = r;
        behind = rw (p h.end_address (inr (omega (arith, e)))) v.behind;
      }

  pub hole_le_rightmost : hole ≤ h.rightmost_area
  hole_le_rightmost = omega (
    arith,
    v.rightmost,
    v.place,
    last_at-append h.start_address pre (n, true) post,
    le_last_at (h.start_address + total pre) ((n, true) ∷ post),
  )

-- The last area when the hole is split.
pub last_at_split :
    (at : ℕ) (pre post : List Area) (n size hole : ℕ)
    → hole ≡ at + total pre
    → 0 < size
    → size < n
    → (if ltb (last_at at (pre ++ (n, true) ∷ post)) (hole + size)
        then hole + size
        else last_at at (pre ++ (n, true) ∷ post))
      ≡ last_at at (pre ++ (size, false) ∷ (n - size, true) ∷ post)
unfolding last_at
last_at_split at pre [] n size hole e pos lt =
    let less : ltb hole (hole + size) ≡ true = ground arith in
    rw
      (
        last_at-append at pre (n, true) [],
        last_at-append at pre (size, false) ((n - size, true) ∷ []),
        sym e,
        less,
      )
      refl
last_at_split at pre (p ∷ post) n size hole e pos lt =
    let sum : hole + size + (n - size) ≡ hole + n = omega arith in
    let more : ltb (last_at (hole + n) (p ∷ post)) (hole + size) ≡ false =
      ground (arith, le_last_at (hole + n) (p ∷ post)) in
    rw
      (
        last_at-append at pre (n, true) (p ∷ post),
        last_at-append at pre (size, false) ((n - size, true) ∷ p ∷ post),
        sym e,
        more,
        sum,
      )
      refl
