-- ===== src/Tasks/Turns.antt =====
-- The scheduler of kernel/task.c over several switches: a task that can run gets its turn.
use exscape_os.Prelude.{
  ℕ, suc, ◌+◌, ◌<◌, ◌≤◌, ◌≡◌, ◌≢◌, inl, inr, refl, ap, ◌∙◌, true, false, not, ◌&&◌, ◌||◌, ◌==◌,
  List, [], ◌∷◌, Option, some, arith, All, take, length, length-append, ◌>>=◌, Bool-cases, leb,
}
use exscape_os.Tasks.{Task, Scheduler, is_running, pick, wake, scheduler_task_switch, task_sleeping}
use exscape_os.Tasks.Next.{Ahead}
use exscape_os.Tasks.Switch.{IsReady, pick-nearer}
use exscape_os.Tasks.Wake.{woken, wake-woken, elem}

-- The interrupts of the timer one after the other, each with the stack pointer of the task that it
-- interrupts and the tick count.
unfoldable pub interrupts : List (ℕ × ℕ) → Scheduler → Option Scheduler
interrupts [] s = some s
interrupts ((esp, ticks) ∷ rest) s =
    scheduler_task_switch esp ticks s >>= λ (_, g). interrupts rest g

abbrev awoken : (ticks : ℕ) → Scheduler → Scheduler
awoken ticks s = record s { tasks = wake ticks s.ready_queue s.tasks }

-- Waking tasks keeps the stacks, and a task that could run still can.
woken_keeps :
    (ticks : ℕ) (x : Task)
    → ((woken ticks x).esp ≡ x.esp)
      × ((woken ticks x).did_execve ≡ x.did_execve)
      × (is_running x ≡ true → is_running (woken ticks x) ≡ true)
woken_keeps ticks x = elim (Bool-cases ((x.state == task_sleeping) && leb x.wakeup_time ticks)) [
  | inl t ↦ rw t (refl, refl, λ up. refl)
  | inr f ↦ rw f (refl, refl, λ up. up)
]

wake_keeps :
    (ticks : ℕ) (queue : List ℕ) (tasks : ℕ → Task) (u : ℕ)
    → ((wake ticks queue tasks u).esp ≡ (tasks u).esp)
      × ((wake ticks queue tasks u).did_execve ≡ (tasks u).did_execve)
      × (is_running (tasks u) ≡ true → is_running (wake ticks queue tasks u) ≡ true)
wake_keeps ticks queue tasks u = elim (Bool-cases (elem u queue)) [
  | inl t ↦ rw (wake-woken ticks queue tasks u, t) (woken_keeps ticks (tasks u))
  | inr f ↦ rw (wake-woken ticks queue tasks u, f) (refl, refl, λ up. up)
]

awoken-IsReady : (ticks : ℕ) (s : Scheduler) → IsReady s → IsReady (awoken ticks s)
awoken-IsReady ticks s r = record {
  switching = r.switching;
  stacks = λ t e. r.stacks t (omega (arith, e, (wake_keeps ticks s.ready_queue s.tasks t).0));
  queue = r.queue;
  no_next = r.no_next;
  no_execve = λ t. (wake_keeps ticks s.ready_queue s.tasks t).1 ∙ r.no_execve t;
}

-- With another task in the queue, the scheduler wakes tasks and goes on to the choice of the next.
scheduler_steps :
    (esp ticks t d : ℕ) (s : Scheduler)
    → IsReady s
    → Ahead s.ready_queue s.current_task t d
    → scheduler_task_switch esp ticks s ≡ pick esp (awoken ticks s)
unfolding scheduler_task_switch
scheduler_steps esp ticks t d s r a =
    let two : 2 ≤ length s.ready_queue = omega (
      arith,
      ap length a.queue_is,
      length-append a.front (s.current_task ∷ a.back),
      ap length a.around,
      length-append a.back a.front,
      length-append a.before (t ∷ a.after),
    ) in
    let many : (length s.ready_queue == 1) ≡ false = ground (arith, two) in
    let goes_on : (not s.task_switching
          || ((s.current_task == s.kernel_task) && (length s.ready_queue == 1)))
        ≡ false =
      ground (arith, many, r.switching) in
    rw (goes_on, r.no_next, r.no_execve s.current_task)
      (ap (λ o. pick esp (record (awoken ticks s) { next_task = o })) r.no_next)

-- With no task set as the next one and none that has done an execve, and if nothing but the scheduler
-- changes the tasks and the queue: a task that can run, and is behind the running one by so many
-- places on the way around the queue, has its turn after at most one interrupt of the timer more,
-- whatever the tasks between them are and whichever wake up on the way.
pub interrupts-turn :
    (d t : ℕ) (s : Scheduler) (events : List (ℕ × ℕ))
    → IsReady s
    → is_running (s.tasks t) ≡ true
    → Ahead s.ready_queue s.current_task t d
    → d < length events
    → All (λ e. e.0 ≢ 0) events
    → (n : ℕ) × (g : Scheduler) × (interrupts (take n events) s ≡ some g)
      × (n ≤ d + 1)
      × (g.current_task ≡ t)
unfolding interrupts
interrupts-turn d t s [] r up a lt nz = absurd (omega arith)
interrupts-turn d t s ((esp, ticks) ∷ events) r up a lt (nz, rest) =
    let up' = (wake_keeps ticks s.ready_queue s.tasks t).2 up in
    let (e, g, w, _, alike, ready, _, near) =
      pick-nearer esp t d (awoken ticks s) nz (awoken-IsReady ticks s r) up' a in
    let runs : scheduler_task_switch esp ticks s ≡ some (e, g) =
      scheduler_steps esp ticks t d s r a ∙ w in
    elim near [
      | inl now ↦ (1, g, rw runs refl, omega arith, now)
      | inr (k, less, ahead) ↦
          let (n, k', turns, le, now) =
            interrupts-turn k t g events ready (alike.1 t ∙ up') ahead (omega arith) rest in
          (suc n, k', rw runs turns, omega arith, now)
    ]
