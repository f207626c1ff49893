-- ===== src/Heap/Alloc/Request.antt =====
-- `heap_alloc` of kernel/heap.c for a request that some free area can hold.
use exscape_os.Prelude.{
  ℕ, suc, ◌+◌, ◌^◌, ◌<◌, ◌≤◌, ◌≡◌, inl, inr, refl, ap, ◌∙◌, sym, subst, Bool, true, false, List, [],
  ◌∷◌, ◌++◌, Option, none, some, arith, ◌==◌, ==_refl, Bool-cases, All,
}
use exscape_os.Heap.{AreaHeader, Heap, is_sound, find_smallest_hole}
use exscape_os.Heap.Alloc.{heap_alloc, full_size, use_hole, result_address}
use exscape_os.Heap.Alloc.Asserts.{hit_or, is_sound_tile, tally-IsTile}
use exscape_os.Heap.Alloc.Holes.{Fits, FirstFit, find_hole-FirstFit}
use exscape_os.Heap.Alloc.Split.{allot, use_hole-IsHeap}
use exscape_os.Heap.Tiles.{Area, IsHeap, total, tally, IsTile-at, tally-append}
use exscape_os.OrderedArray.Index.{entries, hit, count}

-- The area that an address of the tally belongs to.
tally_split :
    (b : Bool) (x at : ℕ) (areas : List Area)
    → 0 < tally b x at areas
    → (pre : List Area) × (n : ℕ) × (post : List Area) × (areas ≡ pre ++ (n, b) ∷ post)
      × (x ≡ at + total pre)
unfolding tally total
tally_split b x at [] pos = absurd (omega arith)
tally_split b x at ((n, f) ∷ rest) pos = elim (hit_or b f x at (tally b x (at + n) rest) pos) [
  | inl (same, eq) ↦ ([], n, rest, ap (λ (g : Bool). (n, g) ∷ rest) (sym same), omega arith)
  | inr later ↦
      let (pre, k, post, e, p) = tally_split b x (at + n) rest later in
      ((n, f) ∷ pre, k, post, ap (λ l. (n, f) ∷ l) e, omega arith)
]

count_middle : (before after : List ℕ) (a : ℕ) → 0 < count a (before ++ a ∷ after)
unfolding count
count_middle [] after a = let one : hit a a ≡ 1 = rw (==_refl a) refl in omega arith
count_middle (b ∷ before) after a = omega (arith, count_middle before after a)

all_count : (P : ℕ → Type 0) (xs : List ℕ) (x : ℕ) → All P xs → 0 < count x xs → P x
unfolding count
all_count P [] x all pos = absurd (omega arith)
all_count P (y ∷ xs) x (p, all) pos = elim (Bool-cases (x == y)) [
  | inl t ↦ let same : x ≡ y = ground (arith, t) in subst P (sym same) p
  | inr f ↦ let other : hit x y ≡ 0 = rw f refl in all_count P xs x all (omega arith)
]

module _ (areas : List Area) (h : Heap) (v : IsHeap areas h) where
  -- what the search asserts of the areas of the index
  indexed :
      (a : ℕ)
      → 0 < count a (entries h.free_index)
      → ((h.headers a).free ≡ true) × (is_sound h a ≡ true)
  indexed a pos =
      let (k, tile, _, _) =
        tally-IsTile h.headers h.footers true a h.start_address areas h.end_address v.tiles
          (omega (arith, v.free_entries a)) in
      (ap (λ (x : AreaHeader). x.free) tile.1, is_sound_tile h a k true tile)

  -- a free area is in the index
  free_area_counted :
      (pre : List Area) (n : ℕ) (post : List Area)
      → areas ≡ pre ++ (n, true) ∷ post
      → (0 < count (h.start_address + total pre) (entries h.free_index))
        × ((h.headers (h.start_address + total pre)).size ≡ n)
  unfolding tally
  free_area_counted pre n post e =
      let a = h.start_address + total pre in
      let one : hit a a ≡ 1 = rw (==_refl a) refl in
      let t = subst (λ l. IsHeap l h) e v in
      let (_, hh, _) =
        IsTile-at h.headers h.footers h.start_address pre n true post h.end_address a refl
          t.tiles in
      (
        omega (
          arith,
          t.free_entries a,
          tally-append true a h.start_address pre ((n, true) ∷ post),
          one,
        ),
        ap (λ (x : AreaHeader). x.size) hh,
      )

-- What is found when a free area is large enough.
found_hole :
    (size : ℕ) (areas : List Area) (h : Heap)
    → IsHeap areas h
    → (pre0 : List Area) (n0 : ℕ) (post0 : List Area) → areas ≡ pre0 ++ (n0, true) ∷ post0
    → size ≤ n0
    → (pre : List Area) × (n : ℕ) × (post : List Area) × (areas ≡ pre ++ (n, true) ∷ post)
      × (size ≤ n)
      × (find_smallest_hole size false h ≡ some (some (h.start_address + total pre)))
unfolding find_smallest_hole
found_hole size areas h v pre0 n0 post0 e0 le =
    let (found, eq, first) =
      find_hole-FirstFit size false h (entries h.free_index) (indexed areas h v)
        (λ a pos. omega arith) in
    by_found found eq first
  where
    by_found :
        (found : Option ℕ)
        → find_smallest_hole size false h ≡ some found
        → FirstFit size false h (entries h.free_index) found
        → (pre : List Area) × (n : ℕ) × (post : List Area) × (areas ≡ pre ++ (n, true) ∷ post)
          × (size ≤ n)
          × (find_smallest_hole size false h ≡ some (some (h.start_address + total pre)))
    by_found none eq all =
        let a = h.start_address + total pre0 in
        let (pos, size_eq) = free_area_counted areas h v pre0 n0 post0 e0 in
        let no = all_count (λ b. ¬ (Fits size false h b)) (entries h.free_index) a all pos in
        absurd (no (omega (arith, size_eq, le)))
    by_found (some a) eq (before, after, e, _, t) =
        let pos : 0 < count a (entries h.free_index) = rw e (count_middle before after a) in
        let (pre, n, post, split, at) =
          tally_split true a h.start_address areas (omega (arith, v.free_entries a)) in
        let (_, size_eq) = free_area_counted areas h v pre n post split in
        let same : (h.headers a).size ≡ n = ap (λ (b : ℕ). (h.headers b).size) at ∙ size_eq in
        (pre, n, post, split, omega (arith, t, same), eq ∙ ap (λ (b : ℕ). some (some b)) at)

heap_alloc_found :
    (fuel request size hole : ℕ) (h : Heap) (r : ℕ × Heap)
    → full_size request false ≡ size
    → find_smallest_hole size false h ≡ some (some hole)
    → use_hole size false hole h ≡ some r
    → heap_alloc (suc fuel) request false h ≡ some r
unfolding heap_alloc
heap_alloc_found fuel request size hole h r s f u = rw (s, f, s, u) refl

-- A request without alignment to a page, for which some free area is large enough, with its header, its footer and the space for
-- the alignment, does not fault and gets no more memory. It is served from such a free area: the
-- result is behind its header, and in its place are the area in use and what is left of it.
-- The request leaves room for the overhead in 32 bits, and the used index has a place left.
pub heap_alloc-IsHeap :
    (fuel request : ℕ) (areas : List Area) (h : Heap)
    → IsHeap areas h
    → request + 23 < 2 ^ 32
    → h.used_index.size < h.used_index.max_size
    → (pre0 : List Area) (n0 : ℕ) (post0 : List Area) → areas ≡ pre0 ++ (n0, true) ∷ post0
    → request + 23 ≤ n0
    → (pre : List Area) × (n : ℕ) × (post : List Area) × (g : Heap) × (areas
        ≡ pre ++ (n, true) ∷ post)
      × (request + 23 ≤ n)
      × (heap_alloc (suc fuel) request false h
          ≡ some (result_address (h.start_address + total pre), g))
      × IsHeap (pre ++ (allot (request + 23) n ++ post)) g
heap_alloc-IsHeap fuel request areas h v bound room pre0 n0 post0 e0 le =
    let size_eq : full_size request false ≡ request + 23 = omega arith in
    let (pre, n, post, e, fit, found) = found_hole (request + 23) areas h v pre0 n0 post0 e0 le in
    let (g, used, u, _) =
      use_hole-IsHeap (h.start_address + total pre) n (request + 23) pre post h
        (subst (λ l. IsHeap l h) e v) refl (omega arith) fit room in
    (
      pre,
      n,
      post,
      g,
      e,
      fit,
      heap_alloc_found fuel request (request + 23) (h.start_address + total pre) h
          (result_address (h.start_address + total pre), g) size_eq found used,
      u,
    )
