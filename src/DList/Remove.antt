-- ===== src/DList/Remove.antt =====
-- `list_remove_node` of kernel/list.c on the sequence that the list holds.
use exscape_os.Prelude.{
  ℕ, ◌+◌, ◌-◌, ◌<◌, ◌≡◌, ◌≢◌, inl, inr, refl, ◌∙◌, sym, false, List, [], ◌∷◌, ◌++◌, Option, none,
  some, arith, ==_refl, if◌then◌else◌, All, length, length-append, update, update_ne, update_self,
}
use exscape_os.DList.{
  Node, Head, Store, same, set_node, set_list, list_validate, relink_next, relink_prev, kfree_node,
  list_remove_node,
}
use exscape_os.DList.Chain.{Cell, Chain, Apart, Distinct, IsList, list_validate_lem, last_lem}
use exscape_os.DList.Insert.{Chain-update}
use exscape_os.DList.Segment.{
  Segment, Chain-split, Segment-Chain, Agree, Segment-Agree, Chain-Agree, Distinct-Parts,
  Apart-append, Segment-relink, Agree-refl, far-Agree, near-Agree, same_ne,
}

-- The effect of relinking the node in front of the one at `a`.
relink_next_lem :
    (l a : ℕ) (s : Store) (f q n : Option ℕ) (xs ys : List Cell)
    → Segment l s.nodes none f xs q (some a)
    → Distinct xs
    → Apart a xs
    → All (λ y. Apart y.0 xs) ys
    → (nodes : ℕ → Option Node) × (relink_next q n s ≡ some (record s { nodes = nodes }))
      × Segment l nodes none (if same (some a) f then n else f) xs q n
      × Agree s.nodes nodes ys
      × (nodes a ≡ s.nodes a)
unfolding relink_next set_node
relink_next_lem l a s f q n [] ys (e, eq) distinct apart far =
    (s.nodes, rw eq refl, (rw (e, ==_refl a) refl, eq), Agree-refl s.nodes ys, refl)
relink_next_lem l a s f q n (c ∷ xs) ys seg distinct apart far =
    let (b, o, eq, ato, place, seg') =
      Segment-relink l s.nodes none f q (some a) n c xs seg distinct in
    let (e, m, at, seg2) = seg' in
    let other : same (some a) f ≡ false = rw e (same_ne a c.0 apart.0) in
    (
      update s.nodes b (some (record o { next = n })),
      rw (eq, ato) refl,
      (rw other e, m, at, seg2),
      far-Agree s.nodes b (some (record o { next = n })) (c ∷ xs) ys place far,
      update_ne s.nodes b a (some (record o { next = n })) (λ e'. place a apart (sym e')),
    )

-- The effect of relinking the node behind the one at `a`.
relink_prev_lem :
    (l a : ℕ) (s : Store) (q n t : Option ℕ) (xs ys : List Cell)
    → Chain l s.nodes (some a) n ys t
    → Distinct ys
    → Apart a ys
    → All (λ x. Apart x.0 ys) xs
    → (nodes : ℕ → Option Node) × (relink_prev n q s ≡ some (record s { nodes = nodes }))
      × Chain l nodes q n ys (if same (some a) t then q else t)
      × Agree s.nodes nodes xs
      × (nodes a ≡ s.nodes a)
unfolding relink_prev set_node
relink_prev_lem l a s q n t xs [] (e, et) distinct apart far =
    (s.nodes, rw e refl, (e, rw (et, ==_refl a) refl), Agree-refl s.nodes xs, refl)
relink_prev_lem l a s q n t xs (c ∷ ys) ch distinct apart far =
    let (e, m, at, rest) = ch in
    let (b, o, et, ato, en, place) = last_lem l s.nodes (some a) n t c ys ch in
    let b_ne : b ≢ a = elim place [
      | inl (nil, eb) ↦ λ e'. apart.0 (sym eb ∙ e')
      | inr (pos, f) ↦ f a apart.1
    ] in
    let other : same (some a) t ≡ false = rw et (same_ne a b b_ne) in
    let old : Node = record { data_of = c.1; prev = q; next = m; list = l } in
    (
      update s.nodes c.0 (some old),
      rw (e, at) refl,
      rw other (
        e,
        m,
        update_self s.nodes c.0 (some old),
        Chain-update l s.nodes (some c.0) m t ys c.0 (some old) distinct.0 rest,
      ),
      near-Agree s.nodes c (some old) ys xs far,
      update_ne s.nodes c.0 a (some old) (λ e'. apart.0 (sym e')),
    )

length-split :
    (xs : List Cell) (c : Cell) (ys : List Cell) → length (xs ++ c ∷ ys) ≡ length (xs ++ ys) + 1
length-split xs c ys = omega (arith, length-append xs (c ∷ ys), length-append xs ys)

below-parts :
    (n : ℕ) (xs : List Cell) (c : Cell) (ys : List Cell)
    → All (λ x. x.0 < n) (xs ++ c ∷ ys)
    → All (λ x. x.0 < n) (xs ++ ys)
below-parts n [] c ys h = h.1
below-parts n (x ∷ xs) c ys h = (h.0, below-parts n xs c ys h.1)

-- the list's record behind the removal of a node
abbrev removed_head : (a : ℕ) (q n : Option ℕ) → Head → Head
removed_head a q n v = record {
  head = if same (some a) v.head then n else v.head;
  tail = if same (some a) v.tail then q else v.tail;
  count = v.count - 1;
}

-- the steps of `list_remove_node`, one after the other
remove_steps :
    (l a d : ℕ) (s : Store) (v : Head) (q n : Option ℕ) (nodes1 nodes2 : ℕ → Option Node)
    (s3 : Store)
    → s.nodes a ≡ some (record { data_of = d; prev = q; next = n; list = l })
    → relink_next q n s ≡ some (record s { nodes = nodes1 })
    → nodes1 a ≡ s.nodes a
    → relink_prev n q (record s { nodes = nodes1 }) ≡ some (record s { nodes = nodes2 })
    → nodes2 a ≡ nodes1 a
    → s.lists l ≡ some v
    → list_validate l (set_list l (removed_head a q n v) (record s { nodes = nodes2 })) ≡ some s3
    → list_remove_node l a s ≡ some (kfree_node a s3)
unfolding list_remove_node
remove_steps l a d s v q n nodes1 nodes2 s3 at relinked1 at1 relinked2 at2 found valid =
    rw (at, ==_refl l, relinked1, at1, at, relinked2, at2, at1, at, found, valid) refl

-- `list_remove_node` on a node of a list takes it out of what the list holds, keeps the others in
-- their order, and frees the node.
pub list_remove_node-IsList :
    (l a d : ℕ) (s : Store) (v : Head) (xs ys : List Cell)
    → IsList l s v (xs ++ (a, d) ∷ ys)
    → (s' : Store) × (v' : Head) × (list_remove_node l a s ≡ some s')
      × IsList l s' v' (xs ++ ys)
      × (s'.nodes a ≡ none)
unfolding kfree_node set_list
list_remove_node-IsList l a d s v xs ys i =
    let parts = Distinct-Parts xs (a, d) ys i.distinct in
    let (q, seg, (refl_a, n, at, rest)) =
      Chain-split l s.nodes none v.head v.tail xs (a, d) ys i.chain in
    let (nodes1, relinked1, seg1, agree1, at1) =
      relink_next_lem l a s v.head q n xs ys seg parts.left parts.left_apart parts.from_right in
    let s1 : Store = record s { nodes = nodes1 } in
    let rest1 = Chain-Agree l s.nodes nodes1 (some a) n v.tail ys agree1 rest in
    let (nodes2, relinked2, chain2, agree2, at2) =
      relink_prev_lem l a s1 q n v.tail xs ys rest1 parts.right parts.right_apart parts.from_left in
    let seg2 =
      Segment-Agree l nodes1 nodes2 none (if same (some a) v.head then n else v.head) q n xs agree2
        seg1 in
    let v' : Head = removed_head a q n v in
    let s2 : Store = set_list l v' (record s { nodes = nodes2 }) in
    let j : IsList l s2 v' (xs ++ ys) = record {
      found = update_self s.lists l (some v');
      count_is = omega (arith, i.count_is, length-split xs (a, d) ys);
      chain = Segment-Chain l nodes2 none v'.head q n v'.tail xs ys seg2 chain2;
      distinct = parts.rest;
      below = below-parts s.fresh xs (a, d) ys i.below;
      room = omega (arith, i.room, length-split xs (a, d) ys);
    } in
    let apart = Apart-append a xs ys parts.left_apart parts.right_apart in
    let k : IsList l (kfree_node a s2) v' (xs ++ ys) = record {
      found = j.found;
      count_is = j.count_is;
      chain = Chain-update l nodes2 none v'.head v'.tail (xs ++ ys) a none apart j.chain;
      distinct = j.distinct;
      below = j.below;
      room = j.room;
    } in
    (
      kfree_node a s2,
      v',
      remove_steps l a d s v q n nodes1 nodes2 s2 at relinked1 at1 relinked2 at2 i.found
          (list_validate_lem l s2 v' (xs ++ ys) j),
      k,
      update_self nodes2 a none,
    )
