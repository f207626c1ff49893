-- ===== src/Heap/Alloc/Asserts.antt =====
-- The assertions of `create_area` of kernel/heap.c: they hold when every area of the two indexes has
-- its header and its footer and lies in front of the new area or behind it.
use exscape_os.Prelude.{
  ℕ, ◌+◌, ◌-◌, ◌<◌, ◌≤◌, ◌≡◌, inl, inr, ◌⊎◌, refl, Bool, true, false, List, [], ◌∷◌, some, arith,
  ==_refl, Bool-cases, if◌then◌else◌, ltb, leb, ◌&&◌, update,
}
use exscape_os.Heap.{
  AreaHeader, AreaFooter, Heap, is_sound, is_apart, do_asserts_for_index, create_area,
}
use exscape_os.Heap.Tiles.{
  Area, sound_header, sound_footer, IsTile, Tiles, total, tally, same, Tiles-total,
}
use exscape_os.OrderedArray.Index.{entries, hit, count}

-- an area at `x` that is all outside of the `size` bytes at `a`
abbrev pub Beside : (ℕ → AreaHeader) → (ℕ → AreaFooter) → (a size x : ℕ) → Type 0
Beside hs fs a size x = (k : ℕ) × (f : Bool) × IsTile hs fs x k f × ((x + k ≤ a) ⊎ (a + size ≤ x))

pub is_sound_tile :
    (h : Heap) (x k : ℕ) (f : Bool) → IsTile h.headers h.footers x k f → is_sound h x ≡ true
unfolding is_sound
is_sound_tile h x k f (big, hh, ff) = rw (hh, ff) (==_refl x)

is_apart_tile :
    (h : Heap) (a size x : ℕ)
    → 20 < size
    → Beside h.headers h.footers a size x
    → is_apart h a (a + size - 8) size x ≡ true
unfolding is_apart
is_apart_tile h a size x big (k, f, (bk, hh, ff), p) = rw hh (ground arith)

pub asserts-Beside :
    (h : Heap) (a size : ℕ) (xs : List ℕ)
    → 20 < size
    → ((x : ℕ) → 0 < count x xs → Beside h.headers h.footers a size x)
    → do_asserts_for_index h a (a + size - 8) size xs ≡ true
unfolding do_asserts_for_index count
asserts-Beside h a size [] big p = refl
asserts-Beside h a size (x ∷ xs) big p =
    let one : hit x x ≡ 1 = rw (==_refl x) refl in
    let b = p x (omega arith) in
    let rest = asserts-Beside h a size xs big (λ y c. p y (omega arith)) in
    rw (is_apart_tile h a size x big b, is_sound_tile h x b.0 b.1 b.2, rest) refl

pub hit_or :
    (b f : Bool) (x at others : ℕ)
    → 0 < (if same b f then hit x at else 0) + others
    → ((b ≡ f) × (x ≡ at)) ⊎ (0 < others)
hit_or true true x at others pos = ground arith
hit_or false false x at others pos = ground arith
hit_or true false x at others pos = inr (omega arith)
hit_or false true x at others pos = inr (omega arith)

-- An address that the tally has is the one of a tile.
pub tally-IsTile :
    (hs : ℕ → AreaHeader) (fs : ℕ → AreaFooter) (b : Bool) (x at : ℕ) (areas : List Area) (e : ℕ)
    → Tiles hs fs at areas e
    → 0 < tally b x at areas
    → (k : ℕ) × IsTile hs fs x k b × (at ≤ x) × (x + k ≤ e)
unfolding Tiles tally total
tally-IsTile hs fs b x at [] e t pos = absurd (omega arith)
tally-IsTile hs fs b x at ((n, f) ∷ rest) e (tile, t) pos =
    let le = Tiles-total hs fs (at + n) rest e t in
    elim (hit_or b f x at (tally b x (at + n) rest) pos) [
      | inl (same, eq) ↦ (n, rw (same, eq) tile, omega arith, omega arith)
      | inr later ↦
          let (k, there, ge, lt) = tally-IsTile hs fs b x (at + n) rest e t later in
          (k, there, omega arith, lt)
    ]

-- What `create_area` does to the headers and the footers.
abbrev pub created : (address size : ℕ) → (free : Bool) → Heap → Heap
created address size free h = record h {
  rightmost_area = if ltb h.rightmost_area address then address else h.rightmost_area;
  headers = update h.headers address (sound_header size free);
  footers = update h.footers (address + size - 8) (sound_footer address);
}

pub create_area-Beside :
    (address size : ℕ) (free : Bool) (h : Heap)
    → 20 < size
    → h.start_address ≤ address
    → address + size ≤ h.end_address
    → ((x : ℕ) → 0 < count x (entries h.free_index) → Beside h.headers h.footers address size x)
    → ((x : ℕ) → 0 < count x (entries h.used_index) → Beside h.headers h.footers address size x)
    → create_area address size free h ≡ some (created address size free h)
unfolding create_area
create_area-Beside address size free h big from to p q =
    let b1 : ltb 20 size ≡ true = ground arith in
    let b2 : (leb h.start_address address && leb (address + size) h.end_address) ≡ true =
      ground arith in
    rw
      (
        b1,
        b2,
        asserts-Beside h address size (entries h.free_index) big p,
        asserts-Beside h address size (entries h.used_index) big q,
      )
      (elim (Bool-cases (ltb h.rightmost_area address)) [ inl t ↦ rw t refl | inr f ↦ rw f refl ])
