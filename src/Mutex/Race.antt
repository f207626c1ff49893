-- ===== src/Mutex/Race.antt =====
-- The gap in `mutex_unlock` of kernel/mutex.c between the two writes: what goes wrong in it, and that
-- nothing goes wrong without a switch of tasks there.
use exscape_os.Prelude.{
  ℕ, ◌≡◌, ◌≢◌, refl, ◌∙◌, ap, Bool, true, false, ◌&&◌, [], ◌∷◌, Option, none, some, arith, ◌==◌,
  ==_refl, update,
}
use exscape_os.Mutex.{
  Point, outside, set_owner, inside, clear_owner, failed, System, is_owner, lock_round, own, unlock,
  disown, advance, run,
}

-- what one move of a task does, by where it stands
module _ (t : ℕ) (s : System) where
  pub take :
      s.points t ≡ outside
      → s.lock.mutex ≡ false
      → advance t s
        ≡ record { lock = record (s.lock) { mutex = true }; points = update s.points t set_owner }
  unfolding advance lock_round
  take e free = rw (advance, e, free) refl

  pub hold :
      s.points t ≡ set_owner
      → advance t s
        ≡ record { lock = record (s.lock) { owner = some t }; points = update s.points t inside }
  unfolding advance own
  hold e = rw (advance, e) refl

  pub leave :
      s.points t ≡ inside
      → (s.lock.mutex && is_owner t s.lock.owner) ≡ true
      → advance t s ≡ record {
        lock = record (s.lock) { mutex = false };
        points = update s.points t clear_owner;
      }
  unfolding advance unlock
  leave e ours = rw (advance, e, ours) refl

  pub fail :
      s.points t ≡ inside
      → (s.lock.mutex && is_owner t s.lock.owner) ≡ false
      → advance t s ≡ record s { points = update s.points t failed }
  unfolding advance unlock
  fail e not_ours = rw (advance, e, not_ours) refl

  pub forget :
      s.points t ≡ clear_owner
      → advance t s
        ≡ record { lock = record (s.lock) { owner = none }; points = update s.points t outside }
  unfolding advance disown
  forget e = rw (advance, e) refl

abbrev locked_by : Option ℕ → Bool → (ℕ → Point) → System
locked_by o b points = record { lock = record { owner = o; mutex = b }; points = points }

-- The task that has the mutex unlocks it, and is interrupted between the two writes; another that
-- was outside locks it; the first goes on and clears the owner: the other then fails an assertion
-- when it unlocks.
pub run-race :
    (a b : ℕ) (points : ℕ → Point)
    → a ≢ b
    → points a ≡ inside
    → points b ≡ outside
    → (run (a ∷ b ∷ b ∷ a ∷ b ∷ []) (locked_by (some a) true points)).points b ≡ failed
unfolding run
run-race a b points ne at_a at_b =
    let ab : (a == b) ≡ false = ground (arith, ne) in
    let ba : (b == a) ≡ false = ground (arith, ne) in
    let p1 = update points a clear_owner in
    let p2 = update p1 b set_owner in
    let p3 = update p2 b inside in
    let p4 = update p3 a outside in
    let e1 = leave a (locked_by (some a) true points) at_a (rw (==_refl a) refl) in
    let e2 = take b (locked_by (some a) false p1) (rw ab at_b) refl in
    let e3 = hold b (locked_by (some a) true p2) (rw (==_refl b) refl) in
    let e4 = forget a (locked_by (some b) true p3) (rw (ba, ==_refl a) refl) in
    let e5 = fail b (locked_by none true p4) (rw (ab, ==_refl b) refl) refl in
    ap (λ (s : System). (run (b ∷ b ∷ a ∷ b ∷ []) s).points b) e1
    ∙ ap (λ (s : System). (run (b ∷ a ∷ b ∷ []) s).points b) e2
    ∙ ap (λ (s : System). (run (a ∷ b ∷ []) s).points b) e3
    ∙ ap (λ (s : System). (run (b ∷ []) s).points b) e4
    ∙ ap (λ (s : System). (run [] s).points b) e5
    ∙ rw (==_refl b) refl
