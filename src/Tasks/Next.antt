-- ===== src/Tasks/Next.antt =====
-- The search for the next task in the ready queue of kernel/task.c, as a walk around the queue.
use exscape_os.Prelude.{
  ℕ, ◌+◌, ◌<◌, ◌≤◌, ◌≡◌, ◌⊎◌, inl, inr, refl, ap, sym, ◌∙◌, Bool, true, false, List, [], ◌∷◌, ◌++◌,
  append_assoc, some, arith, ◌==◌, ==_refl, Bool-cases, length, length-append,
}
use exscape_os.OrderedArray.Index.{hit, count}
use exscape_os.Tasks.{first_of, split_at}

pub count-append : (x : ℕ) (xs ys : List ℕ) → count x (xs ++ ys) ≡ count x xs + count x ys
unfolding count
count-append x [] ys = omega arith
count-append x (y ∷ xs) ys = omega (arith, count-append x xs ys)

-- no task stands in the queue twice
abbrev pub IsQueue : List ℕ → Type 0
IsQueue queue = (x : ℕ) → count x queue ≤ 1

split_at_front :
    (t : ℕ) (front back : List ℕ)
    → count t front ≡ 0
    → split_at t (front ++ t ∷ back) ≡ some (front, back)
unfolding split_at count
split_at_front t [] back none_here = rw (==_refl t) refl
split_at_front t (u ∷ front) back none_here =
    let other : (u == t) ≡ false = ground arith in
    rw (other, split_at_front t front back (omega arith)) refl

-- The queue splits at a task that is in it.
pub split_at_lem :
    (t : ℕ) (front back : List ℕ)
    → IsQueue (front ++ t ∷ back)
    → split_at t (front ++ t ∷ back) ≡ some (front, back)
unfolding count
split_at_lem t front back once =
    let one : hit t t ≡ 1 = rw (==_refl t) refl in
    split_at_front t front back (omega (arith, once t, count-append t front (t ∷ back)))

-- A task that satisfies the predicate is found, or one in front of it.
pub first_of_lem :
    (p : ℕ → Bool) (before : List ℕ) (t : ℕ) (after : List ℕ)
    → p t ≡ true
    → (first_of p (before ++ t ∷ after) ≡ some t)
      ⊎ ((skipped : List ℕ) × (u : ℕ) × (later : List ℕ) × (before ≡ skipped ++ u ∷ later)
          × (first_of p (before ++ t ∷ after) ≡ some u)
          × (p u ≡ true))
unfolding first_of
first_of_lem p [] t after pt = inl (rw pt refl)
first_of_lem p (b ∷ before) t after pt = elim (Bool-cases (p b)) [
  | inl pb ↦ inr ([], b, before, refl, rw pb refl, pb)
  | inr nb ↦ elim (first_of_lem p before t after pt) [
    | inl e ↦ inl (rw nb e)
    | inr (skipped, u, later, e, f, pu) ↦
        inr (b ∷ skipped, u, later, ap (λ l. b ∷ l) e, rw nb f, pu)
  ]
]

-- Where an element of two lists in a row stands.
pub append_split :
    (xs ys skipped : List ℕ) (u : ℕ) (rest : List ℕ)
    → xs ++ ys ≡ skipped ++ u ∷ rest
    → ((xs' : List ℕ) × (xs ≡ skipped ++ u ∷ xs') × (xs' ++ ys ≡ rest))
      ⊎ ((more : List ℕ) × (skipped ≡ xs ++ more) × (ys ≡ more ++ u ∷ rest))
append_split [] ys skipped u rest e = inr (skipped, refl, e)
append_split (x ∷ xs) ys [] u rest e = inl (xs, cc, cc)
append_split (x ∷ xs) ys (s ∷ skipped) u rest e =
    let head : x ≡ s = cc in
    elim (append_split xs ys skipped u rest cc) [
      | inl (xs', e1, e2) ↦ inl (xs', cc, e2)
      | inr (more, e1, e2) ↦ inr (more, cc, e2)
    ]

-- A queue with a task that runs, and one that stands behind it on the way around.
pub record Ahead (queue : List ℕ) (current t : ℕ) (distance : ℕ) : Type 0 where
  pub front : List ℕ
  pub back : List ℕ
  pub before : List ℕ
  pub after : List ℕ
  pub queue_is : queue ≡ front ++ current ∷ back
  pub around : back ++ front ≡ before ++ t ∷ after
  pub distance_is : length before ≡ distance

-- Going on to a task that is on the way comes nearer.
pub nearer :
    (queue : List ℕ) (current t d : ℕ) (a : Ahead queue current t d) (skipped : List ℕ) (u : ℕ)
    (later : List ℕ)
    → a.before ≡ skipped ++ u ∷ later
    → (e : ℕ) × (e < d) × Ahead queue u t e
nearer queue current t d a skipped u later eb =
    let whole : a.back ++ a.front ≡ skipped ++ u ∷ (later ++ t ∷ a.after) =
      a.around ∙ ap (λ l. l ++ t ∷ a.after) eb ∙ append_assoc skipped (u ∷ later) (t ∷ a.after) in
    let less : length later < d =
      omega (arith, a.distance_is, ap length eb, length-append skipped (u ∷ later)) in
    elim (append_split a.back a.front skipped u (later ++ t ∷ a.after) whole) [
      | inl (back2, e1, e2) ↦ (
        length later,
        less,
        record {
          front = a.front ++ current ∷ skipped;
          back = back2;
          before = later;
          after = a.after ++ current ∷ skipped;
          queue_is =
              a.queue_is
              ∙ ap (λ l. a.front ++ current ∷ l) e1
              ∙ sym (append_assoc a.front (current ∷ skipped) (u ∷ back2));
          around =
              sym (append_assoc back2 a.front (current ∷ skipped))
              ∙ ap (λ l. l ++ current ∷ skipped) e2
              ∙ append_assoc later (t ∷ a.after) (current ∷ skipped);
          distance_is = refl;
        },
      )
      | inr (more, e1, e2) ↦ (
        length later,
        less,
        record {
          front = more;
          back = (later ++ t ∷ a.after) ++ current ∷ a.back;
          before = later;
          after = (a.after ++ current ∷ a.back) ++ more;
          queue_is =
              a.queue_is
              ∙ ap (λ l. l ++ current ∷ a.back) e2
              ∙ append_assoc more (u ∷ (later ++ t ∷ a.after)) (current ∷ a.back);
          around =
              ap (λ l. l ++ more) (append_assoc later (t ∷ a.after) (current ∷ a.back))
              ∙ append_assoc later (t ∷ (a.after ++ current ∷ a.back)) more;
          distance_is = refl;
        },
      )
    ]
