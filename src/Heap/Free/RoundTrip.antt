-- ===== src/Heap/Free/RoundTrip.antt =====
-- An area that `heap_alloc` of kernel/heap.c makes and that is then freed leaves the areas that were
-- there before, when no two free areas stand beside each other.
use exscape_os.Prelude.{
  ℕ, ◌+◌, ◌-◌, ◌<◌, ◌≤◌, ◌≡◌, refl, ap, ◌∙◌, sym, subst, true, false, List, [], ◌∷◌, ◌++◌, some,
  arith, Bool-cases, inl, inr, leb,
}
use exscape_os.Heap.{Heap}
use exscape_os.Heap.Alloc.{use_hole, result_address}
use exscape_os.Heap.Alloc.Split.{allot, use_hole-IsHeap}
use exscape_os.Heap.Free.{free_area}
use exscape_os.Heap.Free.Merge.{join_right, given_back}
use exscape_os.Heap.Free.Release.{free_area-IsHeap}
use exscape_os.Heap.Tiles.{Area, total, IsHeap}

-- no two free areas in a row
unfoldable pub IsCoalesced : List Area → Type 0
IsCoalesced [] = Unit
IsCoalesced ((n, f) ∷ []) = Unit
IsCoalesced ((n, true) ∷ (m, true) ∷ rest) = ⊥
IsCoalesced ((n, true) ∷ (m, false) ∷ rest) = IsCoalesced ((m, false) ∷ rest)
IsCoalesced ((n, false) ∷ a ∷ rest) = IsCoalesced (a ∷ rest)

tail_IsCoalesced : (a : Area) (rest : List Area) → IsCoalesced (a ∷ rest) → IsCoalesced rest
unfolding IsCoalesced
tail_IsCoalesced (n, f) [] c = tt
tail_IsCoalesced (n, true) ((m, true) ∷ rest) c = absurd c
tail_IsCoalesced (n, true) ((m, false) ∷ rest) c = c
tail_IsCoalesced (n, false) ((m, f) ∷ rest) c = c

-- the whole of a hole, freed
given_back_whole :
    (pre : List Area) (n : ℕ) (post : List Area)
    → IsCoalesced (pre ++ (n, true) ∷ post)
    → given_back pre n post ≡ pre ++ (n, true) ∷ post
unfolding given_back join_right IsCoalesced
given_back_whole [] n [] c = refl
given_back_whole [] n ((k, true) ∷ post) c = absurd c
given_back_whole [] n ((k, false) ∷ post) c = refl
given_back_whole ((k, true) ∷ []) n post c = absurd c
given_back_whole ((k, false) ∷ []) n post c =
    ap (λ l. (k, false) ∷ l) (given_back_whole [] n post c)
given_back_whole ((k, f) ∷ p ∷ pre) n post c =
    ap (λ l. (k, f) ∷ l)
      (given_back_whole (p ∷ pre) n post (tail_IsCoalesced (k, f) (p ∷ pre ++ (n, true) ∷ post) c))

-- a part of a hole, freed
given_back_part :
    (pre : List Area) (size left : ℕ) (post : List Area)
    → IsCoalesced (pre ++ (size + left, true) ∷ post)
    → given_back pre size ((left, true) ∷ post) ≡ pre ++ (size + left, true) ∷ post
unfolding given_back join_right IsCoalesced
given_back_part [] size left post c = refl
given_back_part ((k, true) ∷ []) size left post c = absurd c
given_back_part ((k, false) ∷ []) size left post c = refl
given_back_part ((k, f) ∷ p ∷ pre) size left post c =
    ap (λ l. (k, f) ∷ l)
      (given_back_part (p ∷ pre) size left post
        (tail_IsCoalesced (k, f) (p ∷ pre ++ (size + left, true) ∷ post) c))

-- The area that was made of a hole, freed.
given_back_allot :
    (hole n size : ℕ) (pre post : List Area) (g : Heap)
    → IsHeap (pre ++ (allot size n ++ post)) g
    → IsCoalesced (pre ++ (n, true) ∷ post)
    → hole ≡ g.start_address + total pre
    → size ≤ n
    → g.free_index.size < g.free_index.max_size
    → (k : Heap) × (free_area hole g ≡ some k) × IsHeap (pre ++ (n, true) ∷ post) k
unfolding allot
given_back_allot hole n size pre post g w c at le room =
    let sum : size + (n - size) ≡ n = omega arith in
    elim (Bool-cases (leb 36 (n - size))) [
      | inl t ↦
          let (k, freed, u) =
            free_area-IsHeap hole size pre ((n - size, true) ∷ post) g (rw t at w) at room in
          let back = given_back_part pre size (n - size) post (rw sum c) in
          (k, freed, subst (λ l. IsHeap l k) (back ∙ ap (λ (x : ℕ). pre ++ (x, true) ∷ post) sum) u)
      | inr f ↦
          let (k, freed, u) = free_area-IsHeap hole n pre post g (rw f at w) at room in
          (k, freed, subst (λ l. IsHeap l k) (given_back_whole pre n post c) u)
    ]

-- Using a hole, without alignment to a page, of a heap without two free areas in a row, and freeing
-- the area again, brings back the same areas. Each index has a place left.
pub free_area-use_hole :
    (hole n size : ℕ) (pre post : List Area) (h : Heap)
    → IsHeap (pre ++ (n, true) ∷ post) h
    → IsCoalesced (pre ++ (n, true) ∷ post)
    → hole ≡ h.start_address + total pre
    → 20 < size
    → size ≤ n
    → h.used_index.size < h.used_index.max_size
    → h.free_index.size < h.free_index.max_size
    → (g : Heap) × (k : Heap) × (use_hole size false hole h ≡ some (result_address hole, g))
      × (free_area hole g ≡ some k)
      × IsHeap (pre ++ (n, true) ∷ post) k
free_area-use_hole hole n size pre post h v c at big le room frees =
    let (g, used, w, (start, max, few)) = use_hole-IsHeap hole n size pre post h v at big le room in
    let (k, freed, u) =
      given_back_allot hole n size pre post g w c (at ∙ ap (λ (s : ℕ). s + total pre) (sym start))
        le (omega arith) in
    (g, k, used, freed, u)
