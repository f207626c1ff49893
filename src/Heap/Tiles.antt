-- ===== src/Heap/Tiles.antt =====
-- The areas of a heap of kernel/heap.c as tiles: from the start of the heap to its end each area has
-- a header and a footer that agree, and the two indexes hold the areas of their type, each once.
use exscape_os.Prelude.{
  ℕ, ◌+◌, ◌-◌, ◌≤◌, ◌<◌, ◌≡◌, ◌≢◌, ◌⊎◌, inl, inr, refl, ◌∙◌, Bool, true, false, List, [], ◌∷◌, ◌++◌,
  arith, ◌==◌, ==_refl, sym, if◌then◌else◌,
}
use exscape_os.Heap.{AreaHeader, AreaFooter, Heap, heap_magic}
use exscape_os.OrderedArray.Index.{IsArray, entries, hit, count}

-- the size of an area, and whether it is free
abbrev pub Area : Type 0
Area = ℕ × Bool

abbrev pub sound_header : (size : ℕ) → (free : Bool) → AreaHeader
sound_header n f = record { size = n; free = f; magic = heap_magic }

abbrev pub sound_footer : ℕ → AreaFooter
sound_footer a = record { magic = heap_magic; header = a }

-- an area is larger than its header and its footer
abbrev pub IsTile : (ℕ → AreaHeader) → (ℕ → AreaFooter) → (at size : ℕ) → (free : Bool) → Type 0
IsTile hs fs at n f = (20 < n) × (hs at ≡ sound_header n f) × (fs (at + n - 8) ≡ sound_footer at)

unfoldable pub Tiles : (ℕ → AreaHeader) → (ℕ → AreaFooter) → ℕ → List Area → ℕ → Type 0
Tiles hs fs at [] e = at ≡ e
Tiles hs fs at ((n, f) ∷ rest) e = IsTile hs fs at n f × Tiles hs fs (at + n) rest e

unfoldable pub total : List Area → ℕ
total [] = 0
total ((n, f) ∷ rest) = n + total rest

abbrev pub same : Bool → Bool → Bool
same true b = b
same false true = false
same false false = true

-- how often an address is the one of an area of the type
unfoldable pub tally : (free : Bool) → (x at : ℕ) → List Area → ℕ
tally b x at [] = 0
tally b x at ((n, f) ∷ rest) = (if same b f then hit x at else 0) + tally b x (at + n) rest

-- the address of the last area
unfoldable pub last_at : ℕ → List Area → ℕ
last_at at [] = at
last_at at ((n, f) ∷ []) = at
last_at at ((n, f) ∷ a ∷ rest) = last_at (at + n) (a ∷ rest)

-- A heap of these areas, but for what is `missing` in the free index.
pub record IsHeapBut (missing : ℕ → ℕ) (areas : List Area) (h : Heap) : Type 0 where
  pub tiles : Tiles h.headers h.footers h.start_address areas h.end_address
  pub free_entries :
      (x : ℕ) → count x (entries h.free_index) + missing x ≡ tally true x h.start_address areas
  pub used_entries : (x : ℕ) → count x (entries h.used_index) ≡ tally false x h.start_address areas
  pub free_array : IsArray h.free_index
  pub used_array : IsArray h.used_index
  pub rightmost : h.rightmost_area ≡ last_at h.start_address areas
  pub behind : (h.headers h.end_address).magic ≢ heap_magic

abbrev pub none_missing : ℕ → ℕ
none_missing x = 0

abbrev pub IsHeap : List Area → Heap → Type 0
IsHeap areas h = IsHeapBut none_missing areas h

module _ (hs : ℕ → AreaHeader) (fs : ℕ → AreaFooter) where
  pub Tiles-total :
      (at : ℕ) (rest : List Area) (e : ℕ) → Tiles hs fs at rest e → at + total rest ≡ e
  unfolding Tiles total
  Tiles-total at [] e t = omega arith
  Tiles-total at ((n, f) ∷ rest) e (_, t) = omega (arith, Tiles-total (at + n) rest e t)

  pub Tiles-front :
      (at : ℕ) (xs ys : List Area) (e : ℕ)
      → Tiles hs fs at (xs ++ ys) e
      → Tiles hs fs at xs (at + total xs)
  unfolding Tiles total
  Tiles-front at [] ys e t = omega arith
  Tiles-front at ((n, f) ∷ xs) ys e (i, t) =
      let sum : at + n + total xs ≡ at + (n + total xs) = omega arith in
      (i, rw sum at (Tiles-front (at + n) xs ys e t))

  pub Tiles-back :
      (at : ℕ) (xs ys : List Area) (e : ℕ)
      → Tiles hs fs at (xs ++ ys) e
      → Tiles hs fs (at + total xs) ys e
  unfolding Tiles total
  Tiles-back at [] ys e t = let z : at + 0 ≡ at = omega arith in rw z t
  Tiles-back at ((n, f) ∷ xs) ys e (i, t) =
      let sum : at + n + total xs ≡ at + (n + total xs) = omega arith in
      rw sum at (Tiles-back (at + n) xs ys e t)

  pub Tiles-join :
      (at : ℕ) (xs ys : List Area) (mid e : ℕ)
      → Tiles hs fs at xs mid
      → Tiles hs fs mid ys e
      → Tiles hs fs at (xs ++ ys) e
  unfolding Tiles
  Tiles-join at [] ys mid e t u = let eq : at ≡ mid = t in rw eq u
  Tiles-join at ((n, f) ∷ xs) ys mid e (i, t) u = (i, Tiles-join (at + n) xs ys mid e t u)

  pub IsTile-at :
      (at : ℕ) (pre : List Area) (n : ℕ) (f : Bool) (post : List Area) (e a : ℕ)
      → a ≡ at + total pre
      → Tiles hs fs at (pre ++ (n, f) ∷ post) e
      → IsTile hs fs a n f
  unfolding Tiles
  IsTile-at at pre n f post e a eq t =
      let back : Tiles hs fs a ((n, f) ∷ post) e = rw eq (Tiles-back at pre ((n, f) ∷ post) e t) in
      back.0

  pub Tiles-end :
      (at : ℕ) (pre rest : List Area) (e a : ℕ)
      → a ≡ at + total pre
      → Tiles hs fs at (pre ++ rest) e
      → a + total rest ≡ e
  Tiles-end at pre rest e a eq t =
      omega (arith, Tiles-total (at + total pre) rest e (Tiles-back at pre rest e t), eq)

-- Two stores that agree on the areas.
pub Tiles-frame :
    (hs gs : ℕ → AreaHeader) (fs es : ℕ → AreaFooter) (at : ℕ) (rest : List Area) (e : ℕ)
    → ((x : ℕ) → at ≤ x → x < e → gs x ≡ hs x)
    → ((x : ℕ) → at ≤ x → x < e → es x ≡ fs x)
    → Tiles hs fs at rest e
    → Tiles gs es at rest e
unfolding Tiles
Tiles-frame hs gs fs es at [] e p q t = t
Tiles-frame hs gs fs es at ((n, f) ∷ rest) e p q ((big, ih, if0), t) =
    let le = Tiles-total hs fs (at + n) rest e t in
    (
      (
        big,
        p at (omega arith) (omega arith) ∙ ih,
        q (at + n - 8) (omega arith) (omega arith) ∙ if0,
      ),
      Tiles-frame hs gs fs es (at + n) rest e (λ x a b. p x (omega arith) b)
          (λ x a b. q x (omega arith) b) t,
    )

-- Some areas in the middle are replaced by others that take rest much space.
pub retile :
    (hs gs : ℕ → AreaHeader) (fs es : ℕ → AreaFooter) (at : ℕ) (pre old new post : List Area)
    (a b e : ℕ)
    → a ≡ at + total pre
    → b ≡ a + total old
    → ((x : ℕ) → (x < a) ⊎ (b ≤ x) → gs x ≡ hs x)
    → ((x : ℕ) → (x < a) ⊎ (b ≤ x) → es x ≡ fs x)
    → Tiles gs es a new b
    → Tiles hs fs at (pre ++ (old ++ post)) e
    → Tiles gs es at (pre ++ (new ++ post)) e
retile hs gs fs es at pre old new post a b e ea eb p q n t =
    let front : Tiles hs fs at pre a = rw ea (Tiles-front hs fs at pre (old ++ post) e t) in
    let middle : Tiles hs fs a (old ++ post) e =
      rw ea (Tiles-back hs fs at pre (old ++ post) e t) in
    let back : Tiles hs fs b post e = rw eb (Tiles-back hs fs a old post e middle) in
    Tiles-join gs es at pre (new ++ post) a e
      (Tiles-frame hs gs fs es at pre a (λ x _ lt. p x (inl lt)) (λ x _ lt. q x (inl lt)) front)
      (Tiles-join gs es a new post b e n
        (Tiles-frame hs gs fs es b post e (λ x le _. p x (inr le)) (λ x le _. q x (inr le)) back))

pub tally-append :
    (b : Bool) (x at : ℕ) (xs ys : List Area)
    → tally b x at (xs ++ ys) ≡ tally b x at xs + tally b x (at + total xs) ys
unfolding tally total
tally-append b x at [] ys = let z : at + 0 ≡ at = omega arith in rw z (omega arith)
tally-append b x at ((n, f) ∷ xs) ys =
    let sum : at + n + total xs ≡ at + (n + total xs) = omega arith in
    rw (tally-append b x (at + n) xs ys, sum) (omega arith)

pub last_at-append :
    (at : ℕ) (xs : List Area) (a : Area) (ys : List Area)
    → last_at at (xs ++ a ∷ ys) ≡ last_at (at + total xs) (a ∷ ys)
unfolding last_at total
last_at-append at [] a ys = let z : at + 0 ≡ at = omega arith in rw z refl
last_at-append at ((n, f) ∷ []) a ys = let z : at + (n + 0) ≡ at + n = omega arith in rw z refl
last_at-append at ((n, f) ∷ x ∷ xs) a ys =
    let sum : at + n + total (x ∷ xs) ≡ at + (n + total (x ∷ xs)) = omega arith in
    rw sum at (last_at-append (at + n) (x ∷ xs) a ys)

pub le_last_at : (at : ℕ) (xs : List Area) → at ≤ last_at at xs
unfolding last_at
le_last_at at [] = omega arith
le_last_at at ((n, f) ∷ []) = omega arith
le_last_at at ((n, f) ∷ x ∷ xs) = omega (arith, le_last_at (at + n) (x ∷ xs))

-- Two areas in a row of the same type count as one that takes their space, but for the second.
pub tally_merged :
    (b : Bool) (x at : ℕ) (pre : List Area) (n m : ℕ) (f : Bool) (post : List Area)
    → tally b x at (pre ++ (n, f) ∷ (m, f) ∷ post)
      ≡ tally b x at (pre ++ (n + m, f) ∷ post)
        + (if same b f then hit x (at + total pre + n) else 0)
unfolding tally
tally_merged b x at pre n m f post =
    let sum : at + total pre + n + m ≡ at + total pre + (n + m) = omega arith in
    rw
      (
        tally-append b x at pre ((n, f) ∷ (m, f) ∷ post),
        tally-append b x at pre ((n + m, f) ∷ post),
        sum,
      )
      (omega arith)

-- The last area when two in a row become one.
pub last_at_merged :
    (at : ℕ) (pre : List Area) (n m : ℕ) (f g k : Bool) (post : List Area) (left : ℕ)
    → left ≡ at + total pre
    → 0 < m
    → last_at at (pre ++ (n + m, k) ∷ post) ≡ (
        if left + n == last_at at (pre ++ (n, f) ∷ (m, g) ∷ post)
        then left
        else last_at at (pre ++ (n, f) ∷ (m, g) ∷ post))
unfolding last_at
last_at_merged at pre n m f g k [] left e pos =
    rw
      (
        last_at-append at pre (n + m, k) [],
        last_at-append at pre (n, f) ((m, g) ∷ []),
        sym e,
        ==_refl (left + n),
      )
      refl
last_at_merged at pre n m f g k (p ∷ post) left e pos =
    let sum : left + (n + m) ≡ left + n + m = omega arith in
    let later : (left + n == last_at (left + n + m) (p ∷ post)) ≡ false =
      ground (arith, le_last_at (left + n + m) (p ∷ post)) in
    rw
      (
        last_at-append at pre (n + m, k) (p ∷ post),
        last_at-append at pre (n, f) ((m, g) ∷ p ∷ post),
        sym e,
        later,
        sum,
      )
      refl

pub last_at_flag :
    (at : ℕ) (pre : List Area) (n : ℕ) (f g : Bool) (post : List Area)
    → last_at at (pre ++ (n, f) ∷ post) ≡ last_at at (pre ++ (n, g) ∷ post)
unfolding last_at
last_at_flag at pre n f g [] =
    rw (last_at-append at pre (n, f) [], last_at-append at pre (n, g) []) refl
last_at_flag at pre n f g (p ∷ post) =
    rw (last_at-append at pre (n, f) (p ∷ post), last_at-append at pre (n, g) (p ∷ post)) refl

pub total-append : (xs ys : List Area) → total (xs ++ ys) ≡ total xs + total ys
unfolding total
total-append [] ys = omega arith
total-append ((n, f) ∷ xs) ys = omega (arith, total-append xs ys)
