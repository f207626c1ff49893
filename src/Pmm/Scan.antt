-- ===== src/Pmm/Scan.antt =====
-- `_pmm_first_free_frame` of kernel/pmm.c: what its loop over the dwords finds.
use exscape_os.Prelude.{
  ℕ, zero, suc, ◌+◌, ◌-◌, ◌*◌, ◌≤◌, ◌<◌, ◌≡◌, ◌⊎◌, inl, inr, refl, ap, ◌∙◌, sym, Bool, true, false,
  List, [], ◌∷◌, Option, none, some, arith, Bool-cases, ltb, length, get_elem?, take, drop,
  length-take, length-drop,
}
use exscape_os.Pmm.{all_set, first_clear, scan_dwords, dword, page_size, no_frame}

-- The bits from `from` up to `to` are set.
abbrev pub SetFrom : (from to : ℕ) → List Bool → Type 0
SetFrom from to used = (j : ℕ) → from ≤ j → j < to → get_elem? used j ≡ some true

module _ {A : Type 0} where
  pub get_elem?-take :
      (n : ℕ) (xs : List A) (j : ℕ) → j < n → get_elem? (take n xs) j ≡ get_elem? xs j
  get_elem?-take zero xs j h = absurd (omega arith)
  get_elem?-take (suc n) [] j h = refl
  get_elem?-take (suc n) (x ∷ xs) zero h = refl
  get_elem?-take (suc n) (x ∷ xs) (suc j) h = get_elem?-take n xs j (omega arith)

  pub get_elem?-drop :
      (n : ℕ) (xs : List A) (j : ℕ) → get_elem? (drop n xs) j ≡ get_elem? xs (n + j)
  get_elem?-drop zero xs j = let e : 0 + j ≡ j = omega arith in rw e
  get_elem?-drop (suc n) [] j = refl
  get_elem?-drop (suc n) (x ∷ xs) j =
      let e : suc n + j ≡ suc (n + j) = omega arith in rw e (get_elem?-drop n xs j)

pub get_elem?-dword :
    (i : ℕ) (used : List Bool) (j : ℕ)
    → j < 32
    → get_elem? (dword i used) j ≡ get_elem? used (32 * i + j)
get_elem?-dword i used j h =
    get_elem?-take 32 (drop (32 * i) used) j h ∙ get_elem?-drop (32 * i) used j

pub length-dword :
    (i : ℕ) (used : List Bool) → 32 * (i + 1) ≤ length used → length (dword i used) ≡ 32
length-dword i used h =
    length-take 32 (drop (32 * i) used) ∙ omega (arith, length-drop (32 * i) used)

all_set_lem :
    (bits : List Bool)
    → all_set bits ≡ true
    → (j : ℕ) → j < length bits
    → get_elem? bits j ≡ some true
unfolding all_set
all_set_lem [] h j lt = absurd (omega arith)
all_set_lem (true ∷ bits) h zero lt = refl
all_set_lem (true ∷ bits) h (suc j) lt = all_set_lem bits h j (omega arith)
all_set_lem (false ∷ bits) h j lt = cc

-- The loop over the offsets finds the first clear bit.
abbrev FirstClear : (found : Option ℕ) (k : ℕ) (bits : List Bool) → Type 0
FirstClear found k bits =
    ((found ≡ none) × ((j : ℕ) → j < length bits → get_elem? bits j ≡ some true))
    ⊎ ((i : ℕ) × (found ≡ some (k + i))
        × (get_elem? bits i ≡ some false)
        × (i < length bits)
        × ((j : ℕ) → j < i → get_elem? bits j ≡ some true))

after_true :
    (bits : List Bool) (n : ℕ)
    → ((j : ℕ) → j < n → get_elem? bits j ≡ some true)
    → (j : ℕ) → j < suc n
    → get_elem? (true ∷ bits) j ≡ some true
after_true bits n f zero h = refl
after_true bits n f (suc j) h = f j (omega arith)

first_clear_lem : (k : ℕ) (bits : List Bool) → FirstClear (first_clear k bits) k bits
unfolding first_clear
first_clear_lem k [] = inl (refl, λ j h. absurd (omega arith))
first_clear_lem k (false ∷ bits) =
    inr (0, ap some (omega arith), refl, omega arith, λ j h. absurd (omega arith))
first_clear_lem k (true ∷ bits) = elim (first_clear_lem (k + 1) bits) [
  | inl (e, f) ↦ inl (e, after_true bits (length bits) f)
  | inr (i, e, c, lt, f) ↦
      inr (suc i, e ∙ ap some (omega arith), c, omega arith, after_true bits i f)
]

-- What a search from bit `from` up to bit `to` gives: the address of the first clear bit, or that
-- there is none.
abbrev pub Search : (phys_addr from to : ℕ) → List Bool → Type 0
Search phys_addr from to used =
    ((phys_addr ≡ no_frame) × SetFrom from to used)
    ⊎ ((k : ℕ) × (phys_addr ≡ k * page_size)
        × (get_elem? used k ≡ some false)
        × (from ≤ k)
        × (k < to)
        × SetFrom from k used)

set_dword :
    (i n : ℕ) (used : List Bool)
    → n ≤ 32
    → ((j : ℕ) → j < n → get_elem? (dword i used) j ≡ some true)
    → SetFrom (32 * i) (32 * i + n) used
set_dword i n used le f j from to =
    let e : 32 * i + (j - 32 * i) ≡ j = omega arith in
    rw e at (sym (get_elem?-dword i used (j - 32 * i) (omega arith)) ∙ f (j - 32 * i) (omega arith))

SetFrom-trans :
    (a b c : ℕ) (used : List Bool) → SetFrom a b used → SetFrom b c used → SetFrom a c used
SetFrom-trans a b c used f g j from to = elim (Bool-cases (ltb j b)) [
  | inl lt ↦ f j from (ground (arith, lt))
  | inr ge ↦ g j (ground (arith, ge)) to
]

-- a search that goes on behind a dword that is set
Search-step :
    (a from b to : ℕ) (used : List Bool)
    → from ≤ b
    → SetFrom from b used
    → Search a b to used
    → Search a from to used
Search-step a from b to used le f s = elim s [
  | inl (e, g) ↦ inl (e, SetFrom-trans from b to used f g)
  | inr (k, e, c, ge, lt, g) ↦ inr (k, e, c, omega arith, lt, SetFrom-trans from b k used f g)
]

pub scan_dwords_lem :
    (rounds index : ℕ) (used : List Bool)
    → 32 * (index + rounds) ≤ length used
    → Search (scan_dwords rounds index used) (32 * index) (32 * (index + rounds)) used
unfolding scan_dwords
scan_dwords_lem zero index used h = inl (refl, λ j from to. absurd (omega arith))
scan_dwords_lem (suc rounds) index used h =
    let len = length-dword index used (omega arith) in
    let rest : Search (scan_dwords rounds (index + 1) used) (32 * index + 32)
        (32 * (index + suc rounds)) used =
      let e : 32 * (index + 1) ≡ 32 * index + 32 = omega arith in
      let e' : index + 1 + rounds ≡ index + suc rounds = omega arith in
      rw (e, e') at (scan_dwords_lem rounds (index + 1) used (omega arith)) in
    elim (Bool-cases (all_set (dword index used))) [
      | inl full ↦
          let bits =
            set_dword index 32 used (omega arith)
              (λ j lt. all_set_lem (dword index used) full j (omega arith)) in
          rw full (
            Search-step (scan_dwords rounds (index + 1) used) (32 * index) (32 * index + 32)
              (32 * (index + suc rounds)) used (omega arith) bits rest)
      | inr not_full ↦ elim (first_clear_lem 0 (dword index used)) [
        | inl (e, f) ↦
            let bits = set_dword index 32 used (omega arith) (λ j lt. f j (omega arith)) in
            rw (not_full, e)
              (Search-step (scan_dwords rounds (index + 1) used) (32 * index) (32 * index + 32)
                (32 * (index + suc rounds)) used (omega arith) bits rest)
        | inr (i, e, c, lt, f) ↦
            rw (not_full, e)
              (inr (
                32 * index + i,
                omega arith,
                sym (get_elem?-dword index used i (omega arith)) ∙ c,
                omega arith,
                omega arith,
                set_dword index i used (omega arith) f,
              ))
      ]
    ]

-- The search from dword `start` on, with the dwords in front of it set.
pub scan_from :
    (n start : ℕ) (used : List Bool)
    → 32 * n ≤ length used
    → start ≤ n
    → SetFrom 0 (32 * start) used
    → Search (scan_dwords (n - start) start used) 0 (32 * n) used
scan_from n start used h le front =
    let e : start + (n - start) ≡ n = omega arith in
    Search-step (scan_dwords (n - start) start used) 0 (32 * start) (32 * n) used (omega arith)
      front (rw e at (scan_dwords_lem (n - start) start used (omega arith)))
