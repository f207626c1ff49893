-- ===== src/Heap/Free/Merge.antt =====
-- What freeing an area makes of the areas of a heap, as a list: the account that `heap_free` of
-- kernel/heap.c is compared with.
use exscape_os.Prelude.{
  ℕ, ◌+◌, ◌≡◌, inl, inr, ◌⊎◌, refl, ap, Bool, true, false, List, [], ◌∷◌, ◌++◌, arith,
}
use exscape_os.Heap.Tiles.{Area, total, total-append}

-- a free area of `m` bytes in front of the others
unfoldable pub join_right : ℕ → List Area → List Area
join_right m [] = (m, true) ∷ []
join_right m ((k, true) ∷ post) = (m + k, true) ∷ post
join_right m ((k, false) ∷ post) = (m, true) ∷ (k, false) ∷ post

-- The areas when the one of `m` bytes between `pre` and `post` is freed: it becomes one with each
-- of its neighbours that is free.
unfoldable pub given_back : List Area → ℕ → List Area → List Area
unfolding join_right
given_back [] m post = join_right m post
given_back ((n, f) ∷ p ∷ pre) m post = (n, f) ∷ given_back (p ∷ pre) m post
given_back ((n, true) ∷ []) m post = join_right (n + m) post
given_back ((n, false) ∷ []) m post = (n, false) ∷ join_right m post

pub given_back_free :
    (pre : List Area) (n m : ℕ) (post : List Area)
    → given_back (pre ++ (n, true) ∷ []) m post ≡ pre ++ join_right (n + m) post
unfolding given_back
given_back_free [] n m post = refl
given_back_free ((k, f) ∷ []) n m post = refl
given_back_free ((k, f) ∷ p ∷ pre) n m post =
    ap (λ l. (k, f) ∷ l) (given_back_free (p ∷ pre) n m post)

pub given_back_used :
    (pre : List Area) (n m : ℕ) (post : List Area)
    → given_back (pre ++ (n, false) ∷ []) m post ≡ pre ++ (n, false) ∷ join_right m post
unfolding given_back
given_back_used [] n m post = refl
given_back_used ((k, f) ∷ []) n m post = refl
given_back_used ((k, f) ∷ p ∷ pre) n m post =
    ap (λ l. (k, f) ∷ l) (given_back_used (p ∷ pre) n m post)

pub last_area :
    (pre : List Area)
    → (pre ≡ []) ⊎ ((front : List Area) × (n : ℕ) × (f : Bool) × (pre ≡ front ++ (n, f) ∷ []))
last_area [] = inl refl
last_area ((n, f) ∷ pre) = elim (last_area pre) [
  | inl e ↦ inr ([], n, f, ap (λ l. (n, f) ∷ l) e)
  | inr (front, k, g, e) ↦ inr ((n, f) ∷ front, k, g, ap (λ l. (n, f) ∷ l) e)
]

pub total-snoc : (xs : List Area) (n : ℕ) (f : Bool) → total (xs ++ (n, f) ∷ []) ≡ total xs + n
unfolding total
total-snoc xs n f = omega (arith, total-append xs ((n, f) ∷ []))
