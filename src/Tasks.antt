-- ===== src/Tasks.antt =====
-- The scheduler of kernel/task.c: the states of the tasks, sleeping, waiting for input and output,
-- and the choice of the next task. A task is known by its address, and `tasks` is the memory behind
-- it; the ready queue is its sequence of tasks (`list_find_first` and `list_node_find_next_predicate`
-- of kernel/list.c on it). Page directories, the FPU and the TSS are left out.
-- A fault (`none`) is a failed assertion or a panic.
pub mod Next
pub mod Switch
pub mod Wake
pub mod Turns
mod Tests
use exscape_os.Prelude.{
  ℕ, zero, suc, ◌+◌, ◌-◌, ◌*◌, ◌/◌, ◌%◌, ◌^◌, Bool, true, false, ◌&&◌, ◌||◌, not, List, [], ◌∷◌,
  ◌++◌, Option, none, some, ltb, leb, ◌==◌, if◌then◌else◌, update, length, ◌>>=◌, ◌>>◌, assert,
}

-- `stack` and `ss` are those that `switch_task` only checks
pub record Task : Type 0 where
  pub state : ℕ
  pub wakeup_time : ℕ
  pub esp : ℕ
  pub did_execve : Bool
  pub exit_code : ℕ

pub record Scheduler : Type 0 where
  pub tasks : ℕ → Task
  pub ready_queue : List ℕ
  pub current_task : ℕ
  pub next_task : Option ℕ
  pub kernel_task : ℕ
  pub idle_task : ℕ
  pub task_switching : Bool

-- the bits of `state`
abbrev pub task_running : ℕ
task_running = 1

abbrev pub task_sleeping : ℕ
task_sleeping = 2

abbrev pub task_waking_up : ℕ
task_waking_up = 3

abbrev pub task_iowait : ℕ
task_iowait = 4

abbrev pub task_exiting : ℕ
task_exiting = 8

-- `state & TASK_RUNNING` and `state & TASK_SLEEPING`
abbrev pub is_running : Task → Bool
is_running t = t.state % 2 == 1

abbrev pub is_sleeping : Task → Bool
is_sleeping t = t.state / 2 % 2 == 1

abbrev pub is_iowait : Task → Bool
is_iowait t = t.state == task_iowait

abbrev pub set_task : ℕ → Task → Scheduler → Scheduler
set_task t x s = record s { tasks = update s.tasks t x }

-- The first task behind the one given that satisfies a predicate, from the end of the queue on to
-- its beginning, without the task itself. `seen` are those in front.
unfoldable pub first_of : (ℕ → Bool) → List ℕ → Option ℕ
first_of p [] = none
first_of p (t ∷ queue) = if p t then some t else first_of p queue

unfoldable pub split_at : ℕ → List ℕ → Option (List ℕ × List ℕ)
split_at t [] = none
split_at t (u ∷ queue) =
    let rest = split_at t queue in
    if u == t then some ([], queue) else rest >>= λ (front, back). some (u ∷ front, back)

unfoldable pub find_next : (ℕ → Bool) → (front back : List ℕ) → Option ℕ
find_next p front back = first_of p (back ++ front)

-- What `switch_task` writes: the state of a task that was waking up, the stack pointer of the task
-- that ran, and `current_task`.
unfoldable pub switched : (new_task esp : ℕ) → Scheduler → Scheduler
switched new_task esp s =
    let x = s.tasks new_task in
    let s1 =
      if x.state == task_waking_up
      then set_task new_task (record x { state = task_running }) s
      else s in
    let old = s1.tasks s.current_task in
    record (set_task s.current_task (record old { esp = esp }) s1) { current_task = new_task }

-- `switch_task`: the stack pointer that it returns, and the new state.
unfoldable pub switch_task : (new_task esp : ℕ) → Scheduler → Option (ℕ × Scheduler)
switch_task new_task esp s = do
  assert (s.task_switching)
  assert (not ((s.tasks new_task).state == task_sleeping))
  if new_task == s.current_task then some (esp, s) else (do
    let s2 = switched new_task esp s
    let entry = (s2.tasks new_task).esp
    assert (not (entry == 0))
    some (entry, s2))

unfoldable pub set_next_task : ℕ → Scheduler → Scheduler
set_next_task t s =
    record (set_task t (record (s.tasks t) { state = task_running; wakeup_time = 0 }) s) {
      next_task = some t;
    }

-- The loop that wakes the tasks whose time has come.
unfoldable pub wake : (ticks : ℕ) → List ℕ → (ℕ → Task) → ℕ → Task
wake ticks [] tasks = tasks
wake ticks (t ∷ queue) tasks =
    let x = tasks t in
    wake ticks queue (
      if (x.state == task_sleeping) && leb x.wakeup_time ticks
      then update tasks t (record x { wakeup_time = 0; state = task_waking_up })
      else tasks)

-- What `scheduler_taskSwitch` does behind the loop.
unfoldable pub pick : (esp : ℕ) → Scheduler → Option (ℕ × Scheduler)
pick esp s =
    let old = s.current_task in
    elim (split_at old s.ready_queue) [
      | none ↦ (do
        new_task ← first_of (λ t. true) s.ready_queue
        if old == new_task
            then some (esp, s)
            else (do assert (is_running (s.tasks new_task)); switch_task new_task esp s))
      | some (front, back) ↦ elim (find_next (λ t. is_running (s.tasks t)) front back) [
        | none ↦ if is_running (s.tasks old) then some (esp, s) else switch_task s.idle_task esp s
        | some new_task ↦
            if old == new_task
            then some (esp, s)
            else (do assert (is_running (s.tasks new_task)); switch_task new_task esp s)
      ]
    ]

unfoldable pub scheduler_task_switch : (esp ticks : ℕ) → Scheduler → Option (ℕ × Scheduler)
unfolding wake
scheduler_task_switch esp ticks s =
    if not s.task_switching || ((s.current_task == s.kernel_task) && (length s.ready_queue == 1))
    then some (esp, s)
    else elim s.next_task [
      | some t ↦
          (let s1 = record s { next_task = none } in
            let x = s1.tasks t in
            switch_task t esp (
              if is_sleeping x
              then set_task t (record x { state = task_running; wakeup_time = 0 }) s1
              else s1))
      | none ↦
          let x = s.tasks s.current_task in
          if x.did_execve
          then some (x.esp, set_task s.current_task (record x { did_execve = false }) s)
          else pick esp (record s { tasks = wake ticks s.ready_queue s.tasks })
    ]

abbrev pub timer_hz : ℕ
timer_hz = 100

-- `sleep` up to the switch of tasks
unfoldable pub sleep : (start_ticks milliseconds : ℕ) → Scheduler → Option Scheduler
sleep start_ticks milliseconds s = if milliseconds == 0 then some s else (do
  let wait = milliseconds / (1000 / timer_hz)
  let ticks = if wait == 0 then 1 else wait
  let x = s.tasks s.current_task
  assert (not (x.state == task_sleeping))
  assert (not (x.state == task_iowait))
  assert (x.wakeup_time == 0)
  some (
      set_task s.current_task
        (record x { state = task_sleeping; wakeup_time = (start_ticks + ticks) % 2 ^ 32 }) s))

unfoldable pub scheduler_set_iowait : Scheduler → Scheduler
scheduler_set_iowait s =
    set_task s.current_task (record (s.tasks s.current_task) { state = task_iowait }) s

-- `kill`, but for the console: the exit code goes to the task that runs
unfoldable pub kill : ℕ → Scheduler → Scheduler
kill t s =
    let s1 = set_task t (record (s.tasks t) { state = task_exiting }) s in
    set_task s.current_task (record (s1.tasks s.current_task) { exit_code = 256 }) s1

-- `_exit` up to the switch of tasks
unfoldable pub exit : (status : ℕ) → Scheduler → Scheduler
unfolding kill
exit status s =
    let s1 = kill s.current_task s in
    set_task s.current_task (record (s1.tasks s.current_task) { exit_code = status % 256 * 256 }) s1
