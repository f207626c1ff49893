-- ===== src/DList/Segment.antt =====
-- Parts of a list of kernel/list.c in the store, and what a write to one of its nodes leaves of them.
use exscape_os.Prelude.{
  ℕ, ◌≡◌, ◌≢◌, refl, ◌∙◌, sym, false, List, [], ◌∷◌, ◌++◌, Option, some, arith, All, subst, update,
  update_ne, update_self,
}
use exscape_os.DList.{Node, same}
use exscape_os.DList.Chain.{Cell, Chain, Apart, Distinct}

-- The nodes from `first` on, up to `last`, whose successor is `next`.
abbrev pub Segment :
    (l : ℕ) (nodes : ℕ → Option Node) (prev first : Option ℕ)
    → List Cell
    → (last next : Option ℕ) → Type 0
Segment l nodes p f [] q g = (f ≡ g) × (q ≡ p)
Segment l nodes p f (c ∷ cells) q g =
    (f ≡ some c.0)
    × (n : Option ℕ) × (nodes c.0 ≡ some (record { data_of = c.1; prev = p; next = n; list = l }))
    × Segment l nodes (some c.0) n cells q g

pub Chain-split :
    (l : ℕ) (nodes : ℕ → Option Node) (p f t : Option ℕ) (xs : List Cell) (c : Cell)
    (ys : List Cell)
    → Chain l nodes p f (xs ++ c ∷ ys) t
    → (q : Option ℕ) × Segment l nodes p f xs q (some c.0) × Chain l nodes q (some c.0) (c ∷ ys) t
Chain-split l nodes p f t [] c ys (e, n, at, rest) = (p, (e, refl), (refl, n, at, rest))
Chain-split l nodes p f t (x ∷ xs) c ys (e, n, at, rest) =
    let (q, seg, ch) = Chain-split l nodes (some x.0) n t xs c ys rest in (q, (e, n, at, seg), ch)

pub Segment-Chain :
    (l : ℕ) (nodes : ℕ → Option Node) (p f q g t : Option ℕ) (xs ys : List Cell)
    → Segment l nodes p f xs q g
    → Chain l nodes q g ys t
    → Chain l nodes p f (xs ++ ys) t
Segment-Chain l nodes p f q g t [] ys (e, e') ch =
    subst (λ r. Chain l nodes r f ys t) e' (subst (λ r. Chain l nodes q r ys t) (sym e) ch)
Segment-Chain l nodes p f q g t (x ∷ xs) ys (e, n, at, seg) ch =
    (e, n, at, Segment-Chain l nodes (some x.0) n q g t xs ys seg ch)

-- Two stores that agree on the cells hold the same of them.
abbrev pub Agree : (nodes nodes' : ℕ → Option Node) → List Cell → Type 0
Agree nodes nodes' cells = All (λ c. nodes' c.0 ≡ nodes c.0) cells

pub Segment-Agree :
    (l : ℕ) (nodes nodes' : ℕ → Option Node) (p f q g : Option ℕ) (xs : List Cell)
    → Agree nodes nodes' xs
    → Segment l nodes p f xs q g
    → Segment l nodes' p f xs q g
Segment-Agree l nodes nodes' p f q g [] h seg = seg
Segment-Agree l nodes nodes' p f q g (x ∷ xs) (k, h) (e, n, at, seg) =
    (e, n, k ∙ at, Segment-Agree l nodes nodes' (some x.0) n q g xs h seg)

pub Chain-Agree :
    (l : ℕ) (nodes nodes' : ℕ → Option Node) (p f t : Option ℕ) (xs : List Cell)
    → Agree nodes nodes' xs
    → Chain l nodes p f xs t
    → Chain l nodes' p f xs t
Chain-Agree l nodes nodes' p f t [] h ch = ch
Chain-Agree l nodes nodes' p f t (x ∷ xs) (k, h) (e, n, at, ch) =
    (e, n, k ∙ at, Chain-Agree l nodes nodes' (some x.0) n t xs h ch)

Apart-parts :
    (a : ℕ) (xs : List Cell) (c : Cell) (ys : List Cell)
    → Apart a (xs ++ c ∷ ys)
    → Apart a xs × (c.0 ≢ a) × Apart a ys
Apart-parts a [] c ys (ne, h) = (ground arith, ne, h)
Apart-parts a (x ∷ xs) c ys (k, h) = let (ax, ne, ay) = Apart-parts a xs c ys h in ((k, ax), ne, ay)

pub Apart-append : (a : ℕ) (xs ys : List Cell) → Apart a xs → Apart a ys → Apart a (xs ++ ys)
Apart-append a [] ys h k = k
Apart-append a (x ∷ xs) ys (ne, h) k = (ne, Apart-append a xs ys h k)

Apart-nil : (ys : List Cell) → All (λ y. Apart y.0 []) ys
Apart-nil [] = ground arith
Apart-nil (y ∷ ys) = (ground arith, Apart-nil ys)

Apart-cons :
    (x : Cell) (xs ys : List Cell)
    → Apart x.0 ys
    → All (λ y. Apart y.0 xs) ys
    → All (λ y. Apart y.0 (x ∷ xs)) ys
Apart-cons x xs [] h k = h
Apart-cons x xs (y ∷ ys) (ne, h) (m, k) = (((λ e. ne (sym e)), m), Apart-cons x xs ys h k)

-- What the distinct cells around one of them give.
pub record Parts (xs : List Cell) (a : ℕ) (ys : List Cell) : Type 0 where
  pub left : Distinct xs
  pub right : Distinct ys
  pub left_apart : Apart a xs
  pub right_apart : Apart a ys
  pub from_left : All (λ x. Apart x.0 ys) xs
  pub from_right : All (λ y. Apart y.0 xs) ys
  pub rest : Distinct (xs ++ ys)

pub Distinct-Parts :
    (xs : List Cell) (c : Cell) (ys : List Cell) → Distinct (xs ++ c ∷ ys) → Parts xs c.0 ys
Distinct-Parts [] c ys (apart, h) = record {
  left = ground arith;
  right = h;
  left_apart = ground arith;
  right_apart = apart;
  from_left = ground arith;
  from_right = Apart-nil ys;
  rest = h;
}
Distinct-Parts (x ∷ xs) c ys (apart, h) =
    let v = Distinct-Parts xs c ys h in
    let (ax, ne, ay) = Apart-parts x.0 xs c ys apart in
    record {
      left = (ax, v.left);
      right = v.right;
      left_apart = ((λ e. ne (sym e)), v.left_apart);
      right_apart = v.right_apart;
      from_left = (ay, v.from_left);
      from_right = Apart-cons x xs ys ay v.from_right;
      rest = (Apart-append x.0 xs ys ax ay, v.rest);
    }

-- a write at an address leaves the cells that are apart from it
update-Agree :
    (nodes : ℕ → Option Node) (b : ℕ) (o : Option Node) (xs : List Cell)
    → Apart b xs
    → Agree nodes (update nodes b o) xs
update-Agree nodes b o [] h = h
update-Agree nodes b o (x ∷ xs) (ne, h) = (update_ne nodes b x.0 o ne, update-Agree nodes b o xs h)

-- The segment whose last node leads to `n` from now on.
pub Segment-relink :
    (l : ℕ) (nodes : ℕ → Option Node) (p f q g n : Option ℕ) (c : Cell) (xs : List Cell)
    → Segment l nodes p f (c ∷ xs) q g
    → Distinct (c ∷ xs)
    → (b : ℕ) × (o : Node) × (q ≡ some b)
      × (nodes b ≡ some o)
      × ((x : ℕ) → Apart x (c ∷ xs) → b ≢ x)
      × Segment l (update nodes b (some (record o { next = n }))) p f (c ∷ xs) q n
Segment-relink l nodes p f q g n c [] (e, m, at, (em, eq)) distinct = (
  c.0,
  record { data_of = c.1; prev = p; next = m; list = l },
  eq,
  at,
  λ x ap. ap.0,
  (
    e,
    n,
    update_self nodes c.0 (some (record { data_of = c.1; prev = p; next = n; list = l })),
    (refl, eq),
  ),
)
Segment-relink l nodes p f q g n c (c' ∷ xs) (e, m, at, rest) (fr, distinct) =
    let (b, o, eq, ato, place, seg) =
      Segment-relink l nodes (some c.0) m q g n c' xs rest distinct in
    (
      b,
      o,
      eq,
      ato,
      λ x ap. place x ap.1,
      (
        e,
        m,
        update_ne nodes b c.0 (some (record o { next = n })) (λ e'. place c.0 fr (sym e')) ∙ at,
        seg,
      ),
    )

pub Agree-refl : (nodes : ℕ → Option Node) (xs : List Cell) → Agree nodes nodes xs
Agree-refl nodes [] = ground arith
Agree-refl nodes (x ∷ xs) = (refl, Agree-refl nodes xs)

pub far-Agree :
    (nodes : ℕ → Option Node) (b : ℕ) (o : Option Node) (xs ys : List Cell)
    → ((x : ℕ) → Apart x xs → b ≢ x)
    → All (λ y. Apart y.0 xs) ys
    → Agree nodes (update nodes b o) ys
far-Agree nodes b o xs [] place far = far
far-Agree nodes b o xs (y ∷ ys) place (k, far) =
    (update_ne nodes b y.0 o (λ e. place y.0 k (sym e)), far-Agree nodes b o xs ys place far)

pub near-Agree :
    (nodes : ℕ → Option Node) (c : Cell) (o : Option Node) (ys xs : List Cell)
    → All (λ x. Apart x.0 (c ∷ ys)) xs
    → Agree nodes (update nodes c.0 o) xs
near-Agree nodes c o ys [] far = ground arith
near-Agree nodes c o ys (x ∷ xs) ((ne, k), far) =
    (update_ne nodes c.0 x.0 o (λ e. ne (sym e)), near-Agree nodes c o ys xs far)

pub same_ne : (a b : ℕ) → b ≢ a → same (some a) (some b) ≡ false
same_ne a b ne = ground (arith, ne)
