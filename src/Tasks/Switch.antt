-- ===== src/Tasks/Switch.antt =====
-- `switch_task` of kernel/task.c, and the choice of the task that it switches to.
use exscape_os.Prelude.{
  ℕ, ◌<◌, ◌≡◌, ◌≢◌, ◌⊎◌, inl, inr, refl, ap, sym, ◌∙◌, true, false, List, ◌∷◌, ◌++◌, none, some,
  arith, ◌==◌, ==_refl, Bool-cases, if◌then◌else◌, update, subst, append_assoc,
}
use exscape_os.Tasks.{
  Task, Scheduler, is_running, task_waking_up, task_running, set_task, first_of, split_at,
  find_next, switched, switch_task, pick,
}
use exscape_os.OrderedArray.Index.{hit, count}
use exscape_os.Tasks.Next.{count-append, IsQueue, Ahead, split_at_lem, first_of_lem, nearer}

-- A scheduler that switches, with a stack for each task, when no task is set as the next one and
-- none has done an execve.
pub record IsReady (s : Scheduler) : Type 0 where
  pub switching : s.task_switching ≡ true
  pub stacks : (t : ℕ) → (s.tasks t).esp ≢ 0
  pub queue : IsQueue s.ready_queue
  pub no_next : s.next_task ≡ none
  pub no_execve : (t : ℕ) → (s.tasks t).did_execve ≡ false

-- What a switch does not change: the queue, whether a task can run, and the idle task.
abbrev pub Alike : Scheduler → Scheduler → Type 0
Alike s g =
    (g.ready_queue ≡ s.ready_queue)
    × ((t : ℕ) → is_running (g.tasks t) ≡ is_running (s.tasks t))
    × (g.idle_task ≡ s.idle_task)

Alike-trans : (a b c : Scheduler) → Alike a b → Alike b c → Alike a c
Alike-trans a b c (e, f, i) (e', f', i') = (e' ∙ e, λ t. f' t ∙ f t, i' ∙ i)

-- another content of a task, with a stack and as able to run as before
set_task-Alike :
    (t : ℕ) (x : Task) (s : Scheduler)
    → is_running x ≡ is_running (s.tasks t)
    → Alike s (set_task t x s)
set_task-Alike t x s e = (refl, same, refl)
  where
    same : (u : ℕ) → is_running (update s.tasks t x u) ≡ is_running (s.tasks u)
    same u = elim (Bool-cases (t == u)) [
      | inl eq ↦
          let there : t ≡ u = ground (arith, eq) in
          rw eq (e ∙ ap (λ (v : ℕ). is_running (s.tasks v)) there)
      | inr ne ↦ rw ne refl
    ]

set_task-IsReady :
    (t : ℕ) (x : Task) (s : Scheduler)
    → x.esp ≢ 0
    → x.did_execve ≡ false
    → IsReady s
    → IsReady (set_task t x s)
set_task-IsReady t x s nz calm r = record {
  switching = r.switching;
  stacks = still;
  queue = r.queue;
  no_next = r.no_next;
  no_execve = none_does;
}
  where
    none_does : (u : ℕ) → (update s.tasks t x u).did_execve ≡ false
    none_does u = elim (Bool-cases (t == u)) [
      | inl eq ↦ rw eq calm
      | inr ne ↦ rw ne (r.no_execve u)
    ]

    still : (u : ℕ) → (update s.tasks t x u).esp ≢ 0
    still u = elim (Bool-cases (t == u)) [ inl eq ↦ rw eq nz | inr ne ↦ rw ne (r.stacks u) ]

-- the task that is switched to, when it was waking up
abbrev awake : ℕ → Scheduler → Scheduler
awake t s =
    let x = s.tasks t in
    if x.state == task_waking_up then set_task t (record x { state = task_running }) s else s

awake_lem : (t : ℕ) (s : Scheduler) → IsReady s → Alike s (awake t s) × IsReady (awake t s)
awake_lem t s r = elim (Bool-cases ((s.tasks t).state == task_waking_up)) [
  | inl w ↦
      let odd : is_running (s.tasks t) ≡ true = ground (arith, w) in
      rw w (
        set_task-Alike t (record (s.tasks t) { state = task_running }) s (sym odd),
        set_task-IsReady t (record (s.tasks t) { state = task_running }) s (r.stacks t)
            (r.no_execve t) r,
      )
  | inr f ↦ rw f ((refl, λ u. refl, refl), r)
]

awake_current : (t : ℕ) (s : Scheduler) → (awake t s).current_task ≡ s.current_task
awake_current t s = elim (Bool-cases ((s.tasks t).state == task_waking_up)) [
  | inl w ↦ rw w refl
  | inr f ↦ rw f refl
]

switched_lem :
    (t esp : ℕ) (s : Scheduler)
    → esp ≢ 0
    → IsReady s
    → Alike s (switched t esp s)
      × IsReady (switched t esp s)
      × ((switched t esp s).current_task ≡ t)
unfolding switched
switched_lem t esp s nz r =
    let (a, r1) = awake_lem t s r in
    let s1 = awake t s in
    let x = record (s1.tasks s.current_task) { esp = esp } in
    let b = set_task-Alike s.current_task x s1 refl in
    let r2 = set_task-IsReady s.current_task x s1 nz (r1.no_execve s.current_task) r1 in
    (
      Alike-trans s s1 (set_task s.current_task x s1) a b,
      record {
        switching = r2.switching;
        stacks = r2.stacks;
        queue = r2.queue;
        no_next = r2.no_next;
        no_execve = r2.no_execve;
      },
      refl,
    )

-- A switch to another task that does not sleep does not fault, and that task runs then.
pub switch_task_lem :
    (t esp : ℕ) (s : Scheduler)
    → esp ≢ 0
    → IsReady s
    → (s.tasks t).state ≢ 2
    → t ≢ s.current_task
    → (e : ℕ) × (g : Scheduler) × (switch_task t esp s ≡ some (e, g))
      × (e ≢ 0)
      × (g.current_task ≡ t)
      × Alike s g
      × IsReady g
unfolding switch_task
switch_task_lem t esp s nz r up ne =
    let (a, r1, now) = switched_lem t esp s nz r in
    let b1 : ((s.tasks t).state == 2) ≡ false = ground (arith, up) in
    let b2 : (t == s.current_task) ≡ false = ground (arith, ne) in
    let entry = ((switched t esp s).tasks t).esp in
    let b3 : (entry == 0) ≡ false = ground (arith, r1.stacks t) in
    (entry, switched t esp s, simp (r.switching, b1, b2, b3), r1.stacks t, now, a, r1)

-- a task that can run does not sleep
awake_of_running : (x : Task) → is_running x ≡ true → x.state ≢ 2
awake_of_running x e = ground (arith, e)

-- a task on the way around is not the one that runs
on_the_way :
    (s : Scheduler) (t d : ℕ) (a : Ahead s.ready_queue s.current_task t d) (xs : List ℕ) (u : ℕ)
    (ys : List ℕ)
    → IsQueue s.ready_queue
    → a.back ++ a.front ≡ xs ++ u ∷ ys
    → u ≢ s.current_task
unfolding count
on_the_way s t d a xs u ys once e same =
    let c = s.current_task in
    let one : hit c c ≡ 1 = rw (==_refl c) refl in
    omega (
      arith,
      once c,
      ap (count c) a.queue_is,
      ap (count c) (e ∙ ap (λ (v : ℕ). xs ++ v ∷ ys) same),
      count-append c a.front (c ∷ a.back),
      count-append c a.back a.front,
      count-append c xs (c ∷ ys),
      one,
    )

pick_steps :
    (esp : ℕ) (s : Scheduler) (front back : List ℕ) (u : ℕ) (r : ℕ × Scheduler)
    → split_at s.current_task s.ready_queue ≡ some (front, back)
    → first_of (λ t. is_running (s.tasks t)) (back ++ front) ≡ some u
    → u ≢ s.current_task
    → is_running (s.tasks u) ≡ true
    → switch_task u esp s ≡ some r
    → pick esp s ≡ some r
unfolding pick find_next
pick_steps esp s front back u r e f ne up w =
    let other : (s.current_task == u) ≡ false = ground (arith, ne) in
    rw (pick, e, find_next, f, other, up) w

-- What a switch to a task on the way does.
Switches : (esp : ℕ) (u : ℕ) (s : Scheduler) → Type 0
Switches esp u s =
    (e : ℕ) × (g : Scheduler) × (pick esp s ≡ some (e, g))
    × (e ≢ 0)
    × (g.current_task ≡ u)
    × Alike s g
    × IsReady g

pick_on_the_way :
    (esp t d : ℕ) (s : Scheduler) (a : Ahead s.ready_queue s.current_task t d) (xs : List ℕ) (u : ℕ)
    (ys : List ℕ)
    → esp ≢ 0
    → IsReady s
    → a.back ++ a.front ≡ xs ++ u ∷ ys
    → first_of (λ v. is_running (s.tasks v)) (a.back ++ a.front) ≡ some u
    → is_running (s.tasks u) ≡ true
    → Switches esp u s
unfolding Switches
pick_on_the_way esp t d s a xs u ys nz r e f up =
    let ne = on_the_way s t d a xs u ys r.queue e in
    let split : split_at s.current_task s.ready_queue ≡ some (a.front, a.back) =
      rw a.queue_is
        (split_at_lem s.current_task a.front a.back (subst IsQueue a.queue_is r.queue)) in
    let (entry, g, w, nz', now, alike, ready) =
      switch_task_lem u esp s nz r (awake_of_running (s.tasks u) up) ne in
    (entry, g, pick_steps esp s a.front a.back u (entry, g) split f ne up w, nz', now, alike, ready)

-- While a task in the queue can run, a switch is to a task that can run, and that task is reached or
-- comes nearer on the way around the queue.
pub pick-nearer :
    (esp t d : ℕ) (s : Scheduler)
    → esp ≢ 0
    → IsReady s
    → is_running (s.tasks t) ≡ true
    → Ahead s.ready_queue s.current_task t d
    → (e : ℕ) × (g : Scheduler) × (pick esp s ≡ some (e, g))
      × (e ≢ 0)
      × Alike s g
      × IsReady g
      × (is_running (g.tasks g.current_task) ≡ true)
      × ((g.current_task ≡ t) ⊎ ((k : ℕ) × (k < d) × Ahead g.ready_queue g.current_task t k))
unfolding Switches
pick-nearer esp t d s nz r up a =
    let p = λ (v : ℕ). is_running (s.tasks v) in
    elim (first_of_lem p a.before t a.after up) [
      | inl f ↦
          let (e, g, w, nz', now, alike, ready) =
            pick_on_the_way esp t d s a a.before t a.after nz r a.around
              (ap (first_of p) a.around ∙ f) up in
          (e, g, w, nz', alike, ready, rw now (alike.1 t ∙ up), inl now)
      | inr (skipped, u, later, eb, f, pu) ↦
          let whole : a.back ++ a.front ≡ skipped ++ u ∷ (later ++ t ∷ a.after) =
            a.around
            ∙ ap (λ l. l ++ t ∷ a.after) eb
            ∙ append_assoc skipped (u ∷ later) (t ∷ a.after) in
          let (e, g, w, nz', now, alike, ready) =
            pick_on_the_way esp t d s a skipped u (later ++ t ∷ a.after) nz r whole
              (ap (first_of p) a.around ∙ f) pu in
          let (k, less, ahead) = nearer s.ready_queue s.current_task t d a skipped u later eb in
          (
            e,
            g,
            w,
            nz',
            alike,
            ready,
            rw now (alike.1 u ∙ pu),
            inr (k, less, rw (alike.0, now) ahead),
          )
    ]
