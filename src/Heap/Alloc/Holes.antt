-- ===== src/Heap/Alloc/Holes.antt =====
-- The search of `heap_alloc` of kernel/heap.c through the index of free areas.
use exscape_os.Prelude.{
  ℕ, ◌+◌, ◌-◌, ◌%◌, ◌^◌, ◌<◌, ◌≤◌, ◌≡◌, ◌≢◌, ◌↔◌, ◌==◌, inl, inr, refl, ap, Bool, true, false, List,
  [], ◌∷◌, ◌++◌, Option, none, some, arith, ==_refl, Bool-cases, leb, not, ◌&&◌, ◌||◌, All,
}
use exscape_os.Heap.{Heap, signed, page_offset, is_sound, find_hole}
use exscape_os.OrderedArray.Index.{hit, count}

-- A free area has the space. For the alignment to a page: there is a place at the start of a page, so
-- that the header in front of it is in the area, and the space from that header on is too.
abbrev pub Fits : (size : ℕ) → (page_align : Bool) → Heap → ℕ → Type 0
Fits size false h a = size ≤ (h.headers a).size
Fits size true h a =
    (x : ℕ) × (a + 12 ≤ x) × (x % 4096 ≡ 0) × (x - 12 + size ≤ a + (h.headers a).size)

-- the first area of the index that fits, if there is one
abbrev pub FirstFit : (size : ℕ) → (page_align : Bool) → Heap → List ℕ → Option ℕ → Type 0
FirstFit size page_align h index none = All (λ a. ¬ (Fits size page_align h a)) index
FirstFit size page_align h index (some a) =
    (before after : List ℕ) × (index ≡ before ++ a ∷ after)
    × All (λ b. ¬ (Fits size page_align h b)) before
    × Fits size page_align h a

-- the test of the search
abbrev test : (size : ℕ) → (page_align : Bool) → Heap → ℕ → Bool
test size page_align h a =
    leb size (h.headers a).size
    && (not page_align || leb (signed size + page_offset a) (signed (h.headers a).size))

-- with alignment, the sizes are compared as signed numbers
abbrev pub IsSmall : (size : ℕ) → (page_align : Bool) → Heap → ℕ → Type 0
IsSmall size false h a = 0 ≤ a
IsSmall size true h a = (size < 2 ^ 31) × ((h.headers a).size < 2 ^ 31)

-- the place behind the alignment is the first at the start of a page
page_offset_lem :
    (a : ℕ)
    → ((a + 12 + page_offset a) % 4096 ≡ 0)
      × ((x : ℕ) → a + 12 ≤ x → x % 4096 ≡ 0 → a + 12 + page_offset a ≤ x)
page_offset_lem a = elim (Bool-cases ((a + 12) % 4096 == 0)) [
  | inl t ↦ rw t (ground (arith, t), λ x le z. omega arith)
  | inr f ↦
      let not_zero : (a + 12) % 4096 ≢ 0 = ground (arith, f) in
      rw f (omega arith, λ x le z. omega arith)
]

-- on small sizes the signed comparison is that of the numbers
small_sizes :
    (s n o : ℕ)
    → s < 2 ^ 31
    → n < 2 ^ 31
    → ((leb s n && leb (signed s + o) (signed n)) ≡ true) ↔ (s + o ≤ n)
small_sizes s n o s_small n_small =
    let e1 : (s + 2 ^ 31) % 2 ^ 32 ≡ s + 2 ^ 31 = omega arith in
    let e2 : (n + 2 ^ 31) % 2 ^ 32 ≡ n + 2 ^ 31 = omega arith in
    rw (e1, e2) ((λ t. ground (arith, t)), (λ le. ground (arith, le)))

test-Fits :
    (size : ℕ) (page_align : Bool) (h : Heap) (a : ℕ)
    → IsSmall size page_align h a
    → test size page_align h a ≡ true
    → Fits size page_align h a
test-Fits size false h a small t = ground (arith, t)
test-Fits size true h a (s1, s2) t =
    let (zero, _) = page_offset_lem a in
    let room : size + page_offset a ≤ (h.headers a).size =
      (small_sizes size (h.headers a).size (page_offset a) s1 s2).0 t in
    (a + 12 + page_offset a, omega arith, zero, omega arith)

test-no_Fits :
    (size : ℕ) (page_align : Bool) (h : Heap) (a : ℕ)
    → IsSmall size page_align h a
    → test size page_align h a ≡ false
    → ¬ (Fits size page_align h a)
test-no_Fits size false h a small f fit = ground (arith, f, fit)
test-no_Fits size true h a (s1, s2) f (x, le, z, inside) =
    let (_, first) = page_offset_lem a in
    let near = first x le z in
    let yes : test size true h a ≡ true =
      (small_sizes size (h.headers a).size (page_offset a) s1 s2).1 (omega arith) in
    cc

-- The search through areas that are free and sound does not fault, and finds the first that fits. For
-- an alignment to a page the size and those of the areas are below 2 ^ 31.
pub find_hole-FirstFit :
    (size : ℕ) (page_align : Bool) (h : Heap) (index : List ℕ)
    → ((a : ℕ) → 0 < count a index → ((h.headers a).free ≡ true) × (is_sound h a ≡ true))
    → ((a : ℕ) → 0 < count a index → IsSmall size page_align h a)
    → (found : Option ℕ) × (find_hole size page_align h index ≡ some found)
      × FirstFit size page_align h index found
unfolding find_hole count
find_hole-FirstFit size page_align h [] p small = (none, refl, tt)
find_hole-FirstFit size page_align h (a ∷ index) p small =
    let one : hit a a ≡ 1 = rw (==_refl a) refl in
    let (free, sound) = p a (omega arith) in
    let here = small a (omega arith) in
    let (found, eq, first) =
      find_hole-FirstFit size page_align h index (λ b c. p b (omega arith))
        (λ b c. small b (omega arith)) in
    elim (Bool-cases (test size page_align h a)) [
      | inl t ↦ (
        some a,
        rw (free, sound, t) refl,
        ([], index, refl, tt, test-Fits size page_align h a here t),
      )
      | inr f ↦ (
        found,
        rw (free, sound, f) eq,
        later found (test-no_Fits size page_align h a here f) first,
      )
    ]
  where
    later :
        (found : Option ℕ)
        → ¬ (Fits size page_align h a)
        → FirstFit size page_align h index found
        → FirstFit size page_align h (a ∷ index) found
    later none f first = (f, first)
    later (some b) f (before, after, e, all, t) =
        (a ∷ before, after, ap (λ l. a ∷ l) e, (f, all), t)
