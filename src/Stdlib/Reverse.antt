-- ===== src/Stdlib/Reverse.antt =====
-- `reverse` of lib/stdlib.c.
use exscape_os.Prelude.{
  ℕ, zero, suc, ◌+◌, ◌-◌, ◌≤◌, ◌≡◌, refl, ap, sym, ◌∙◌, true, false, List, [], ◌∷◌, ◌++◌,
  append_assoc, append-nil, some, arith, ltb, ◌==◌, get_elem?, set, length, length-append,
}
use exscape_os.Stdlib.{reverse_loop, reverse}

-- the bytes in the opposite order
abbrev pub reversed : List ℕ → List ℕ
reversed [] = []
reversed (c ∷ s) = reversed s ++ c ∷ []

get_elem?-middle :
    (xs : List ℕ) (c : ℕ) (ys : List ℕ) → get_elem? (xs ++ c ∷ ys) (length xs) ≡ some c
get_elem?-middle [] c ys = refl
get_elem?-middle (x ∷ xs) c ys = get_elem?-middle xs c ys

set-middle : (xs : List ℕ) (c d : ℕ) (ys : List ℕ) → set (xs ++ c ∷ ys) (length xs) d ≡ xs ++ d ∷ ys
set-middle [] c d ys = refl
set-middle (x ∷ xs) c d ys = ap (λ l. x ∷ l) (set-middle xs c d ys)

-- a list that is not empty has a last element
last_of : (c : ℕ) (s : List ℕ) → (m : List ℕ) × (b : ℕ) × (c ∷ s ≡ m ++ b ∷ [])
last_of c [] = ([], c, refl)
last_of c (d ∷ s) = let (m, b, e) = last_of d s in (c ∷ m, b, ap (λ l. c ∷ l) e)

pub reversed-append : (xs ys : List ℕ) → reversed (xs ++ ys) ≡ reversed ys ++ reversed xs
reversed-append [] ys = sym (append-nil (reversed ys))
reversed-append (x ∷ xs) ys =
    ap (λ l. l ++ x ∷ []) (reversed-append xs ys)
    ∙ append_assoc (reversed ys) (reversed xs) (x ∷ [])

-- The bytes at two places change.
swapped :
    (pre : List ℕ) (a : ℕ) (m : List ℕ) (b : ℕ) (post : List ℕ) (j : ℕ)
    → j ≡ length pre + length m + 1
    → (get_elem? (pre ++ a ∷ (m ++ b ∷ post)) j ≡ some b)
      × (set (set (pre ++ a ∷ (m ++ b ∷ post)) j a) (length pre) b ≡ pre ++ b ∷ (m ++ a ∷ post))
swapped pre a m b post j e =
    let l = length-append pre (a ∷ m) in
    let at_j : j ≡ length (pre ++ a ∷ m) = omega arith in
    let parts : (x : ℕ) → pre ++ a ∷ (m ++ x ∷ post) ≡ (pre ++ a ∷ m) ++ x ∷ post =
      λ x. sym (append_assoc pre (a ∷ m) (x ∷ post)) in
    (
      rw (at_j, parts b) (get_elem?-middle (pre ++ a ∷ m) b post),
      ap (λ t. set t (length pre) b)
            (rw (at_j, parts b) (set-middle (pre ++ a ∷ m) b a post) ∙ sym (parts a))
          ∙ set-middle pre a b (m ++ a ∷ post),
    )

reverse_loop_lem :
    (r i j : ℕ) (pre mid post : List ℕ)
    → i ≡ length pre
    → j ≡ length pre + length mid - 1
    → length mid ≤ r
    → reverse_loop r i j (pre ++ (mid ++ post)) ≡ some (pre ++ (reversed mid ++ post))
unfolding reverse_loop
reverse_loop_lem zero i j pre [] post ei ej le = refl
reverse_loop_lem zero i j pre (a ∷ mid) post ei ej le = absurd (omega arith)
reverse_loop_lem (suc r) i j pre [] post ei ej le =
    let stop : ltb i j ≡ false = ground arith in rw stop refl
reverse_loop_lem (suc r) i j pre (a ∷ []) post ei ej le =
    let stop : ltb i j ≡ false = ground arith in rw stop refl
reverse_loop_lem (suc r) i j pre (a ∷ c ∷ rest) post ei ej le =
    let (m, b, e) = last_of c rest in
    let len : suc (length rest) ≡ length (m ++ b ∷ []) = ap length e in
    let l = length-append m (b ∷ []) in
    let go : ltb i j ≡ true = ground arith in
    let whole : pre ++ a ∷ c ∷ (rest ++ post) ≡ pre ++ a ∷ (m ++ b ∷ post) =
      ap (λ t. pre ++ a ∷ (t ++ post)) e ∙ ap (λ t. pre ++ a ∷ t) (append_assoc m (b ∷ []) post) in
    let (at_j, both) = swapped pre a m b post j (omega arith) in
    let at_i : get_elem? (pre ++ a ∷ (m ++ b ∷ post)) i ≡ some a =
      ap (get_elem? (pre ++ a ∷ (m ++ b ∷ post))) ei ∙ get_elem?-middle pre a (m ++ b ∷ post) in
    let both_i : set (set (pre ++ a ∷ (m ++ b ∷ post)) j a) i b ≡ pre ++ b ∷ (m ++ a ∷ post) =
      ap (λ t. set (set (pre ++ a ∷ (m ++ b ∷ post)) j a) t b) ei ∙ both in
    let l1 = length-append pre (b ∷ []) in
    let next =
      reverse_loop_lem r (i + 1) (j - 1) (pre ++ b ∷ []) m (a ∷ post) (omega arith) (omega arith)
        (omega arith) in
    let step : reverse_loop (suc r) i j (pre ++ a ∷ (m ++ b ∷ post))
        ≡ reverse_loop r (i + 1) (j - 1) (pre ++ b ∷ (m ++ a ∷ post)) =
      rw (go, at_j, at_i, both_i) refl in
    let turned : reversed (c ∷ rest) ≡ b ∷ reversed m =
      ap reversed e ∙ reversed-append m (b ∷ []) in
    let tail : reversed (a ∷ c ∷ rest) ++ post ≡ b ∷ (reversed m ++ a ∷ post) =
      append_assoc (reversed (c ∷ rest)) (a ∷ []) post ∙ ap (λ t. t ++ a ∷ post) turned in
    ap (reverse_loop (suc r) i j) whole
    ∙ step
    ∙ ap (reverse_loop r (i + 1) (j - 1)) (sym (append_assoc pre (b ∷ []) (m ++ a ∷ post)))
    ∙ next
    ∙ ap some (append_assoc pre (b ∷ []) (reversed m ++ a ∷ post) ∙ ap (λ t. pre ++ t) (sym tail))

-- On a string that is not empty, `reverse` turns the bytes around.
pub reverse-reversed : (s : List ℕ) → 1 ≤ length s → reverse s ≡ some (reversed s)
unfolding reverse
reverse-reversed [] some_byte = absurd (omega arith)
reverse-reversed (c ∷ s) some_byte =
    let more : (length (c ∷ s) == 0) ≡ false = ground arith in
    rw more (
      ap (reverse_loop (length (c ∷ s) + 1) 0 (length (c ∷ s) - 1)) (sym (append-nil (c ∷ s)))
      ∙ reverse_loop_lem (length (c ∷ s) + 1) 0 (length (c ∷ s) - 1) [] (c ∷ s) [] refl
          (omega arith) (omega arith)
      ∙ ap some (append-nil (reversed (c ∷ s))))
