-- ===== src/DList/Insert.antt =====
-- `list_prepend` and `list_append` of kernel/list.c on the sequence that the list holds.
use exscape_os.Prelude.{
  ℕ, ◌+◌, ◌<◌, ◌≡◌, ◌≢◌, refl, ◌∙◌, sym, List, [], ◌∷◌, ◌++◌, Option, none, some, arith, All,
  length-append, update, update_ne, update_self,
}
use exscape_os.DList.{Node, Head, Store, set_node, set_list, new_node, list_prepend, list_append}
use exscape_os.DList.Chain.{Cell, Chain, Apart, Distinct, IsList, list_validate_lem}

-- A write to another node leaves a chain as it is.
pub Chain-update :
    (l : ℕ) (nodes : ℕ → Option Node) (p f t : Option ℕ) (cells : List Cell) (a : ℕ)
    (x : Option Node)
    → Apart a cells
    → Chain l nodes p f cells t
    → Chain l (update nodes a x) p f cells t
Chain-update l nodes p f t [] a x apart ch = ch
Chain-update l nodes p f t (c ∷ cells) a x apart (e, n, at, rest) = (
  e,
  n,
  update_ne nodes a c.0 x apart.0 ∙ at,
  Chain-update l nodes (some c.0) n t cells a x apart.1 rest,
)

Apart-below : (a : ℕ) (cells : List Cell) → All (λ c. c.0 < a) cells → Apart a cells
Apart-below a [] h = h
Apart-below a (c ∷ cells) (lt, h) = (λ e. omega (arith, e), Apart-below a cells h)

below_suc : (a : ℕ) (cells : List Cell) → All (λ c. c.0 < a) cells → All (λ c. c.0 < a + 1) cells
below_suc a [] h = h
below_suc a (c ∷ cells) (lt, h) = (omega arith, below_suc a cells h)

-- `list_prepend` puts the data in front of what the list holds, in a new node, and returns it.
pub list_prepend-IsList :
    (l d : ℕ) (s : Store) (v : Head) (cells : List Cell)
    → IsList l s v cells
    → (s' : Store) × (v' : Head) × (list_prepend l d s ≡ some (s.fresh, s'))
      × IsList l s' v' ((s.fresh, d) ∷ cells)
unfolding list_prepend new_node set_node set_list
list_prepend-IsList l d s v [] i =
    let (e, e') = i.chain in
    let v' : Head = record { head = some s.fresh; tail = some s.fresh; count = v.count + 1 } in
    let s' : Store =
      set_list l v' (new_node (record { data_of = d; prev = none; next = none; list = l }) s) in
    let j : IsList l s' v' ((s.fresh, d) ∷ []) = record {
      found = update_self s.lists l (some v');
      count_is = omega (arith, i.count_is);
      chain = (refl, none, update_self s.nodes s.fresh _, (refl, refl));
      distinct = ground arith;
      below = ground arith;
      room = omega arith;
    } in
    (
      s',
      v',
      rw (i.found, e, e', i.count_is, rw i.count_is at (list_validate_lem l s' v' _ j)) refl,
      j,
    )
list_prepend-IsList l d s v ((h, x) ∷ cells) i =
    let (e, n, at, rest) = i.chain in
    let (apart, distinct) = i.distinct in
    let (lt, below) = i.below in
    let count_is = i.count_is in
    let fresh_ne : s.fresh ≢ h = λ e'. omega (arith, e') in
    let new : Node = record { data_of = d; prev = none; next = some h; list = l } in
    let old : Node = record { data_of = x; prev = some s.fresh; next = n; list = l } in
    let nodes1 : ℕ → Option Node = update s.nodes s.fresh (some new) in
    let v' : Head = record v { head = some s.fresh; count = v.count + 1 } in
    let s' : Store = set_list l v' (set_node h old (new_node new s)) in
    let apart_fresh = Apart-below s.fresh cells below in
    let tail_chain : Chain l (update nodes1 h (some old)) (some h) n cells v.tail =
      Chain-update l nodes1 (some h) n v.tail cells h (some old) apart
        (Chain-update l s.nodes (some h) n v.tail cells s.fresh (some new) apart_fresh rest) in
    let new_at : update nodes1 h (some old) s.fresh ≡ some new =
      update_ne nodes1 h s.fresh (some old) fresh_ne ∙ update_self s.nodes s.fresh (some new) in
    let old_at : nodes1 h ≡ some (record { data_of = x; prev = none; next = n; list = l }) =
      update_ne s.nodes s.fresh h (some new) (λ e'. fresh_ne (sym e')) ∙ at in
    let j : IsList l s' v' ((s.fresh, d) ∷ (h, x) ∷ cells) = record {
      found = update_self s.lists l (some v');
      count_is = omega (arith, count_is);
      chain = (refl, some h, new_at, (refl, n, update_self nodes1 h (some old), tail_chain));
      distinct = (((λ e'. fresh_ne (sym e')), apart_fresh), (apart, distinct));
      below = (omega arith, (omega arith, below_suc s.fresh cells below));
      room = omega (arith, i.room);
    } in
    (s', v', rw (i.found, e, old_at, list_validate_lem l s' v' _ j) refl, j)

-- the nodes with a new one at `a`, behind `b`
abbrev with_last : (l a d b : ℕ) → (ℕ → Option Node) → ℕ → Option Node
with_last l a d b nodes =
    update nodes a (some (record { data_of = d; prev = some b; next = none; list = l }))

-- The chain with a new node linked behind its last one, which is `b`.
Chain-snoc :
    (l : ℕ) (nodes : ℕ → Option Node) (p f t : Option ℕ) (c : Cell) (cells : List Cell) (a d : ℕ)
    → Chain l nodes p f (c ∷ cells) t
    → Distinct (c ∷ cells)
    → Apart a (c ∷ cells)
    → (b : ℕ) × (o : Node) × (t ≡ some b)
      × (nodes b ≡ some o)
      × (o.next ≡ none)
      × ((x : ℕ) → Apart x (c ∷ cells) → b ≢ x)
      × Chain l
          (update (with_last l a d b nodes) b (some (record o { next = some a })))
          p
          f
          (c ∷ cells ++ (a, d) ∷ [])
          (some a)
Chain-snoc l nodes p f t c [] a d (e, n, at, (en, et)) distinct apart = (
  c.0,
  record { data_of = c.1; prev = p; next = n; list = l },
  et,
  at,
  en,
  λ x ap. ap.0,
  (
    e,
    some a,
    update_self (with_last l a d c.0 nodes) c.0 _,
    (
      refl,
      none,
      update_ne (with_last l a d c.0 nodes) c.0 a _ (λ e'. apart.0 (sym e'))
          ∙ update_self nodes a _,
      (refl, refl),
    ),
  ),
)
Chain-snoc l nodes p f t c (c' ∷ cells) a d (e, n, at, rest) (fr, distinct) apart =
    let (b, o, et, ato, en, place, ch) =
      Chain-snoc l nodes (some c.0) n t c' cells a d rest distinct apart.1 in
    (
      b,
      o,
      et,
      ato,
      en,
      λ x ap. place x ap.1,
      (
        e,
        n,
        update_ne (with_last l a d b nodes) b c.0 (some (record o { next = some a }))
              (λ e'. place c.0 fr (sym e'))
            ∙ (update_ne nodes a c.0
                  (some (record { data_of = d; prev = some b; next = none; list = l })) apart.0
                ∙ at),
        ch,
      ),
    )

Distinct-snoc :
    (cells : List Cell) (a d : ℕ) → Distinct cells → Apart a cells → Distinct (cells ++ (a, d) ∷ [])
Distinct-snoc [] a d h apart = ground arith
Distinct-snoc (c ∷ cells) a d (fr, h) (ne, apart) =
    (Apart-snoc cells fr, Distinct-snoc cells a d h apart)
  where
    Apart-snoc : (cs : List Cell) → Apart c.0 cs → Apart c.0 (cs ++ (a, d) ∷ [])
    Apart-snoc [] h = ((λ e. ne (sym e)), h)
    Apart-snoc (x ∷ cs) (k, h) = (k, Apart-snoc cs h)

below-snoc :
    (a d : ℕ) (cells : List Cell)
    → All (λ c. c.0 < a) cells
    → All (λ c. c.0 < a + 1) (cells ++ (a, d) ∷ [])
below-snoc a d [] h = (omega arith, h)
below-snoc a d (c ∷ cells) (lt, h) = (omega arith, below-snoc a d cells h)

-- `list_append` puts the data behind what the list holds, in a new node, and returns it.
pub list_append-IsList :
    (l d : ℕ) (s : Store) (v : Head) (cells : List Cell)
    → IsList l s v cells
    → (s' : Store) × (v' : Head) × (list_append l d s ≡ some (s.fresh, s'))
      × IsList l s' v' (cells ++ (s.fresh, d) ∷ [])
unfolding list_append new_node set_node set_list
list_append-IsList l d s v [] i =
    let (e, e') = i.chain in
    let v' : Head = record { head = some s.fresh; tail = some s.fresh; count = v.count + 1 } in
    let s' : Store =
      set_list l v' (new_node (record { data_of = d; prev = none; next = none; list = l }) s) in
    let j : IsList l s' v' ((s.fresh, d) ∷ []) = record {
      found = update_self s.lists l (some v');
      count_is = omega (arith, i.count_is);
      chain = (refl, none, update_self s.nodes s.fresh _, (refl, refl));
      distinct = ground arith;
      below = ground arith;
      room = omega arith;
    } in
    (
      s',
      v',
      rw (i.found, e', e, i.count_is, rw i.count_is at (list_validate_lem l s' v' _ j)) refl,
      j,
    )
list_append-IsList l d s v (c ∷ cells) i =
    let apart = Apart-below s.fresh (c ∷ cells) i.below in
    let (b, o, et, ato, en, place, ch) =
      Chain-snoc l s.nodes none v.head v.tail c cells s.fresh d i.chain i.distinct apart in
    let new : Node = record { data_of = d; prev = some b; next = none; list = l } in
    let v' : Head = record v { tail = some s.fresh; count = v.count + 1 } in
    let s' : Store =
      set_list l v' (set_node b (record o { next = some s.fresh }) (new_node new s)) in
    let j : IsList l s' v' (c ∷ cells ++ (s.fresh, d) ∷ []) = record {
      found = update_self s.lists l (some v');
      count_is = omega (arith, i.count_is, length-append cells ((s.fresh, d) ∷ []));
      chain = ch;
      distinct = Distinct-snoc (c ∷ cells) s.fresh d i.distinct apart;
      below = below-snoc s.fresh d (c ∷ cells) i.below;
      room = omega (arith, i.room, length-append cells ((s.fresh, d) ∷ []));
    } in
    let old_at : update s.nodes s.fresh (some new) b ≡ some o =
      update_ne s.nodes s.fresh b (some new) (place s.fresh apart) ∙ ato in
    (s', v', rw (i.found, et, old_at, en, list_validate_lem l s' v' _ j) refl, j)
