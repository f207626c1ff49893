-- ===== src/Tasks/Wake.antt =====
-- The loop of the scheduler of kernel/task.c that wakes the tasks whose time has come, and `sleep`.
use exscape_os.Prelude.{
  ℕ, ◌≡◌, inl, inr, ◌⊎◌, refl, ◌∙◌, Bool, true, false, ◌&&◌, ◌||◌, List, [], ◌∷◌, arith, ◌==◌,
  ==_refl, leb, Bool-cases, if◌then◌else◌, update,
}
use exscape_os.Tasks.{Task, wake, task_sleeping, task_waking_up}

-- what the loop makes of one task
abbrev pub woken : (ticks : ℕ) → Task → Task
woken ticks x =
    if (x.state == task_sleeping) && leb x.wakeup_time ticks
    then record x { wakeup_time = 0; state = task_waking_up }
    else x

abbrev pub elem : ℕ → List ℕ → Bool
elem t [] = false
elem t (u ∷ queue) = (t == u) || elem t queue

-- a task that is woken does not sleep any more
woken_twice : (ticks : ℕ) (x : Task) → woken ticks (woken ticks x) ≡ woken ticks x
woken_twice ticks x = elim (Bool-cases ((x.state == task_sleeping) && leb x.wakeup_time ticks)) [
  | inl t ↦ rw t refl
  | inr f ↦ rw f (rw f refl)
]

abbrev wake_one : (ticks t : ℕ) → (ℕ → Task) → ℕ → Task
wake_one ticks t tasks =
    let x = tasks t in
    if (x.state == task_sleeping) && leb x.wakeup_time ticks
    then update tasks t (record x { wakeup_time = 0; state = task_waking_up })
    else tasks

wake_one_lem :
    (ticks t u : ℕ) (tasks : ℕ → Task)
    → wake_one ticks t tasks u ≡ (if u == t then woken ticks (tasks u) else tasks u)
wake_one_lem ticks t u tasks = elim (Bool-cases (u == t)) [
  | inl e ↦
      let same : u ≡ t = ground (arith, e) in
      rw (same, ==_refl t) (elim (due t) [ inl c ↦ rw c (rw (==_refl t) refl) | inr c ↦ rw c refl ])
  | inr ne ↦
      let other : (t == u) ≡ false = ground (arith, ne) in
      rw ne (elim (due t) [ inl c ↦ rw c (rw other refl) | inr c ↦ rw c refl ])
]
  where
    due :
        (v : ℕ)
        → ((((tasks v).state == task_sleeping) && leb (tasks v).wakeup_time ticks) ≡ true)
          ⊎ ((((tasks v).state == task_sleeping) && leb (tasks v).wakeup_time ticks) ≡ false)
    due v = Bool-cases (((tasks v).state == task_sleeping) && leb (tasks v).wakeup_time ticks)

-- The loop wakes exactly the tasks of the queue that sleep and whose time has come, and changes no
-- other task.
pub wake-woken :
    (ticks : ℕ) (queue : List ℕ) (tasks : ℕ → Task) (u : ℕ)
    → wake ticks queue tasks u ≡ (if elem u queue then woken ticks (tasks u) else tasks u)
unfolding wake
wake-woken ticks [] tasks u = refl
wake-woken ticks (t ∷ queue) tasks u =
    wake-woken ticks queue (wake_one ticks t tasks) u ∙ elim (Bool-cases (u == t)) [
      | inl e ↦
          rw (wake_one_lem ticks t u tasks, e, woken_twice ticks (tasks u)) (both (elem u queue))
      | inr ne ↦ rw (wake_one_lem ticks t u tasks, ne) refl
    ]
  where
    both :
        (b : Bool)
        → (if b then woken ticks (tasks u) else woken ticks (tasks u)) ≡ woken ticks (tasks u)
    both true = refl
    both false = refl

-- The passes of the loop, at the tick counts given.
unfoldable pub passes : List ℕ → (queue : List ℕ) → (ℕ → Task) → ℕ → Task
passes [] queue tasks = tasks
passes (ticks ∷ later) queue tasks = passes later queue (wake ticks queue tasks)

-- whether one of the tick counts has come to `due`
abbrev pub reached : (due : ℕ) → List ℕ → Bool
reached due [] = false
reached due (ticks ∷ later) = leb due ticks || reached due later
