-- ===== src/DList/Chain.antt =====
-- The shape of a list of kernel/list.c in the store, and that `list_validate` accepts it.
use exscape_os.Prelude.{
  ℕ, zero, suc, ◌≤◌, ◌<◌, ◌≡◌, ◌≢◌, ◌⊎◌, inl, inr, refl, ap, ◌∙◌, sym, true, ◌||◌, not, List, [],
  ◌∷◌, Option, none, some, arith, ltb, ◌==◌, ==_refl, All, length,
}
use exscape_os.DList.{Node, Head, Store, linked, walk, ends_ok, list_validate}

-- an address and the data of the node there
abbrev pub Cell : Type 0
Cell = ℕ × ℕ

-- The nodes from `first` to `last`, each linked to the one before it, `prev` for the first.
abbrev pub Chain :
    (l : ℕ) (nodes : ℕ → Option Node) (prev first : Option ℕ)
    → List Cell
    → (last : Option ℕ) → Type 0
Chain l nodes p f [] t = (f ≡ none) × (t ≡ p)
Chain l nodes p f (c ∷ cells) t =
    (f ≡ some c.0)
    × (n : Option ℕ) × (nodes c.0 ≡ some (record { data_of = c.1; prev = p; next = n; list = l }))
    × Chain l nodes (some c.0) n cells t

abbrev pub Apart : ℕ → List Cell → Type 0
Apart a cells = All (λ c. c.0 ≢ a) cells

abbrev pub Distinct : List Cell → Type 0
Distinct [] = Unit
Distinct (c ∷ cells) = Apart c.0 cells × Distinct cells

-- The list `l` of a store holds the cells in their order.
pub record IsList (l : ℕ) (s : Store) (v : Head) (cells : List Cell) : Type 0 where
  pub found : s.lists l ≡ some v
  pub count_is : v.count ≡ length cells
  pub chain : Chain l s.nodes none v.head cells v.tail
  pub distinct : Distinct cells
  pub below : All (λ c. c.0 < s.fresh) cells
  pub room : length cells ≤ s.fresh

linked_lem :
    (l a : ℕ) (nodes : ℕ → Option Node) (n t : Option ℕ) (cells : List Cell)
    → Chain l nodes (some a) n cells t
    → linked nodes a n ≡ true
unfolding linked
linked_lem l a nodes n t [] (e, last) = rw e refl
linked_lem l a nodes n t (c ∷ cells) (e, n', at, rest) =
    ap (linked nodes a) e ∙ rw (linked, at) (==_refl a)

walk_lem :
    (fuel l : ℕ) (nodes : ℕ → Option Node) (p f t : Option ℕ) (cells : List Cell)
    → Chain l nodes p f cells t
    → length cells ≤ fuel
    → walk fuel l nodes f ≡ some (length cells)
unfolding walk
walk_lem zero l nodes p f t [] (e, last) h = rw e refl
walk_lem (suc fuel) l nodes p f t [] (e, last) h = rw e refl
walk_lem zero l nodes p f t (c ∷ cells) ch h = absurd (omega arith)
walk_lem (suc fuel) l nodes p f t (c ∷ cells) (e, n, at, rest) h =
    rw
      (
        e,
        at,
        ==_refl l,
        linked_lem l c.0 nodes n t cells rest,
        walk_lem fuel l nodes (some c.0) n t cells rest (omega arith),
      )
      (ap some (omega arith))

-- the last node of a chain that is not empty: the first one, or one behind it
pub last_lem :
    (l : ℕ) (nodes : ℕ → Option Node) (p f t : Option ℕ) (c : Cell) (cells : List Cell)
    → Chain l nodes p f (c ∷ cells) t
    → (b : ℕ) × (o : Node) × (t ≡ some b)
      × (nodes b ≡ some o)
      × (o.next ≡ none)
      × (((cells ≡ []) × (b ≡ c.0)) ⊎ ((0 < length cells) × ((a : ℕ) → Apart a cells → b ≢ a)))
last_lem l nodes p f t c [] (e, n, at, (en, et)) =
    (c.0, record { data_of = c.1; prev = p; next = n; list = l }, et, at, en, inl (refl, refl))
last_lem l nodes p f t c (c' ∷ cells) (e, n, at, rest) =
    let (b, o, et, ato, en, place) = last_lem l nodes (some c.0) n t c' cells rest in
    (
      b,
      o,
      et,
      ato,
      en,
      inr (
        omega arith,
        elim place [
          | inl (nil, eb) ↦ λ a ap e'. ap.0 (sym eb ∙ e')
          | inr (pos, f) ↦ λ a ap. f a ap.1
        ],
      ),
    )

ends_lem :
    (l : ℕ) (nodes : ℕ → Option Node) (v : Head) (c : Cell) (cells : List Cell)
    → v.count ≡ suc (length cells)
    → Chain l nodes none v.head (c ∷ cells) v.tail
    → Apart c.0 cells
    → ends_ok nodes v ≡ true
unfolding ends_ok
ends_lem l nodes v c cells cnt ch apart =
    let (b, o, et, ato, en, place) = last_lem l nodes none v.head v.tail c cells ch in
    let (e, n, at, rest) = ch in
    let several : (not (ltb 1 v.count) || not (c.0 == b)) ≡ true = elim place [
      | inl (nil, eb) ↦ let one : v.count ≡ 1 = cnt ∙ rw nil refl in rw one refl
      | inr (pos, f) ↦ ground (arith, f c.0 apart)
    ] in
    rw (e, et, at, ato, en, several) refl

-- `list_validate` finds nothing wrong with a list.
pub list_validate_lem :
    (l : ℕ) (s : Store) (v : Head) (cells : List Cell)
    → IsList l s v cells
    → list_validate l s ≡ some s
unfolding list_validate
list_validate_lem l s v [] i = let (e, e') = i.chain in rw (i.found, i.count_is, e, e') refl
list_validate_lem l s v (c ∷ cells) i =
    let walked = walk_lem s.fresh l s.nodes none v.head v.tail (c ∷ cells) i.chain i.room in
    let ends = ends_lem l s.nodes v c cells i.count_is i.chain i.distinct.0 in
    rw (i.found, ends, walked, i.count_is) (ground arith)
