-- ===== src/Mutex/Exclusion.antt =====
-- Mutual exclusion of the mutex of kernel/mutex.c.
use exscape_os.Prelude.{
  ℕ, ◌≡◌, ◌⊎◌, inl, inr, refl, subst, sym, ◌∙◌, Bool, true, false, ◌&&◌, List, [], ◌∷◌, none, some,
  arith, ◌==◌, Bool-cases, ==_refl, update,
}
use exscape_os.Mutex.{
  Point, outside, set_owner, inside, clear_owner, failed, System, Mutex, is_owner, lock_round, own,
  unlock, disown, advance, run, initial,
}

-- behind the test of the bit, up to the point where it is cleared
abbrev pub is_critical : Point → Bool
is_critical outside = false
is_critical set_owner = true
is_critical inside = true
is_critical clear_owner = false
is_critical failed = true

-- The bit is set while exactly one task is behind it.
abbrev pub Excludes : System → Type 0
Excludes s =
    ((s.lock.mutex ≡ false) × ((t : ℕ) → is_critical (s.points t) ≡ false))
    ⊎ ((s.lock.mutex ≡ true)
        × (h : ℕ) × ((t : ℕ) → is_critical (s.points t) ≡ true → t ≡ h)
        × (is_critical (s.points h) ≡ true))

true-false : (b : Bool) → b ≡ true → b ≡ false → ⊥
true-false true e f = cc
true-false false e f = cc

-- a task behind the bit, after one task has moved
critical_moved :
    (points : ℕ → Point) (t u : ℕ) (p : Point)
    → is_critical (update points t p u) ≡ true
    → ((u ≡ t) × (is_critical p ≡ true)) ⊎ (is_critical (points u) ≡ true)
critical_moved points t u p c = elim (Bool-cases (t == u)) [
  | inl e ↦ inl (ground (arith, e), rw e at c)
  | inr ne ↦ inr (rw ne at c)
]

-- The bit is taken: only the task that took it is behind it.
enter-Excludes :
    (t : ℕ) (p : Point) (lock : Mutex) (s : System)
    → s.lock.mutex ≡ false
    → is_critical p ≡ true
    → lock.mutex ≡ true
    → Excludes s
    → Excludes (record { lock = lock; points = update s.points t p })
enter-Excludes t p lock s free cp e (inr (taken, _, _, _)) =
    absurd (true-false s.lock.mutex taken free)
enter-Excludes t p lock s free cp e (inl (_, calm)) = inr (e, t, only, rw (==_refl t) cp)
  where
    only : (u : ℕ) → is_critical (update s.points t p u) ≡ true → u ≡ t
    only u c = elim (critical_moved s.points t u p c) [
      | inl (same, _) ↦ same
      | inr old ↦ absurd (true-false (is_critical (s.points u)) old (calm u))
    ]

-- A task that is behind the bit moves, and stays behind it.
stay-Excludes :
    (t : ℕ) (p : Point) (lock : Mutex) (s : System)
    → is_critical (s.points t) ≡ true
    → is_critical p ≡ true
    → lock.mutex ≡ s.lock.mutex
    → Excludes s
    → Excludes (record { lock = lock; points = update s.points t p })
stay-Excludes t p lock s c cp e (inl (_, calm)) =
    absurd (true-false (is_critical (s.points t)) c (calm t))
stay-Excludes t p lock s c cp e (inr (taken, h, only, _)) =
    inr (e ∙ taken, t, now, rw (==_refl t) cp)
  where
    now : (u : ℕ) → is_critical (update s.points t p u) ≡ true → u ≡ t
    now u k = elim (critical_moved s.points t u p k) [
      | inl (same, _) ↦ same
      | inr old ↦ only u old ∙ sym (only t c)
    ]

-- The task behind the bit clears it.
leave-Excludes :
    (t : ℕ) (p : Point) (lock : Mutex) (s : System)
    → is_critical (s.points t) ≡ true
    → is_critical p ≡ false
    → lock.mutex ≡ false
    → Excludes s
    → Excludes (record { lock = lock; points = update s.points t p })
leave-Excludes t p lock s c cp e (inl (_, calm)) =
    absurd (true-false (is_critical (s.points t)) c (calm t))
leave-Excludes t p lock s c cp e (inr (_, h, only, _)) = inl (e, gone)
  where
    gone : (u : ℕ) → is_critical (update s.points t p u) ≡ false
    gone u = elim (Bool-cases (t == u)) [
      | inl same ↦ rw same cp
      | inr ne ↦ rw ne (elim (Bool-cases (is_critical (s.points u))) [
        | inl k ↦ let eq : u ≡ t = only u k ∙ sym (only t c) in absurd (ground (arith, ne, eq))
        | inr not_there ↦ not_there
      ])
    ]

-- A task that is not behind the bit moves, and stays so.
aside-Excludes :
    (t : ℕ) (p : Point) (lock : Mutex) (s : System)
    → is_critical (s.points t) ≡ false
    → is_critical p ≡ false
    → lock.mutex ≡ s.lock.mutex
    → Excludes s
    → Excludes (record { lock = lock; points = update s.points t p })
aside-Excludes t p lock s c cp e (inl (free, calm)) = inl (e ∙ free, still)
  where
    still : (u : ℕ) → is_critical (update s.points t p u) ≡ false
    still u = elim (Bool-cases (t == u)) [ inl same ↦ rw same cp | inr ne ↦ rw ne (calm u) ]
aside-Excludes t p lock s c cp e (inr (taken, h, only, at)) = inr (e ∙ taken, h, now, held)
  where
    now : (u : ℕ) → is_critical (update s.points t p u) ≡ true → u ≡ h
    now u k = elim (critical_moved s.points t u p k) [
      | inl (_, there) ↦ absurd (true-false (is_critical p) there cp)
      | inr old ↦ only u old
    ]

    held : is_critical (update s.points t p h) ≡ true
    held = elim (Bool-cases (t == h)) [
      | inl same ↦
          let eq : h ≡ t = ground (arith, same) in
          absurd (true-false (is_critical (s.points t)) (rw eq at at) c)
      | inr ne ↦ rw ne at
    ]

advance-Excludes : (t : ℕ) (s : System) → Excludes s → Excludes (advance t s)
unfolding advance lock_round own unlock disown
advance-Excludes t s v = by_point (s.points t) refl
  where
    by_point : (p : Point) → s.points t ≡ p → Excludes (advance t s)
    by_point outside e = elim (Bool-cases s.lock.mutex) [
      | inl taken ↦
          let same : advance t s ≡ s = rw (advance, e, taken) refl in subst Excludes (sym same) v
      | inr free ↦
          rw (advance, e, free)
            (enter-Excludes t set_owner (record (s.lock) { mutex = true }) s free refl refl v)
    ]
    by_point set_owner e =
        rw (advance, e)
          (stay-Excludes t inside (record (s.lock) { owner = some t }) s (rw e refl) refl refl v)
    by_point inside e =
        rw (advance, e)
          (elim (Bool-cases (s.lock.mutex && is_owner t s.lock.owner)) [
            | inl ours ↦ rw ours (
                leave-Excludes t clear_owner (record (s.lock) { mutex = false }) s (rw e refl) refl
                  refl v)
            | inr not_ours ↦ rw not_ours (stay-Excludes t failed s.lock s (rw e refl) refl refl v)
          ])
    by_point clear_owner e =
        rw (advance, e)
          (aside-Excludes t outside (record (s.lock) { owner = none }) s (rw e refl) refl refl v)
    by_point failed e = rw (advance, e) v

run-Excludes : (schedule : List ℕ) (s : System) → Excludes s → Excludes (run schedule s)
unfolding run
run-Excludes [] s v = v
run-Excludes (t ∷ schedule) s v = run-Excludes schedule (advance t s) (advance-Excludes t s v)

-- Two tasks that are behind the bit of the mutex at the same time are the same task, in whatever
-- order the tasks have advanced.
pub run-exclusion :
    (schedule : List ℕ) (a b : ℕ)
    → is_critical ((run schedule initial).points a) ≡ true
    → is_critical ((run schedule initial).points b) ≡ true
    → a ≡ b
run-exclusion schedule a b ca cb = by_state (run-Excludes schedule initial (inl (refl, λ t. refl)))
  where
    by_state : Excludes (run schedule initial) → a ≡ b
    by_state (inl (_, calm)) =
        absurd (true-false (is_critical ((run schedule initial).points a)) ca (calm a))
    by_state (inr (_, h, only, _)) = only a ca ∙ sym (only b cb)
