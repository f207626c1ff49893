-- ===== src/Tasks/Tests.antt =====
-- The theorems on the scheduler of kernel/task.c with three tasks.
use exscape_os.Prelude.{ℕ, ◌+◌, ◌≡◌, ◌≤◌, refl, true, false, [], ◌∷◌, some, none, arith, take}
use exscape_os.OrderedArray.Index.{count}
use exscape_os.Tasks.{Task, Scheduler}
use exscape_os.Tasks.Next.{Ahead}
use exscape_os.Tasks.Switch.{IsReady}
use exscape_os.Tasks.Turns.{interrupts, interrupts-turn}

abbrev running : ℕ → Task
running t = record { state = 1; wakeup_time = 0; esp = 100 + t; did_execve = false; exit_code = 0 }

abbrev three : Scheduler
three = record {
  tasks = running;
  ready_queue = 1 ∷ 2 ∷ 3 ∷ [];
  current_task = 1;
  next_task = none;
  kernel_task = 1;
  idle_task = 9;
  task_switching = true;
}

three-IsReady : IsReady three
unfolding count
three-IsReady = record {
  switching = refl;
  stacks = λ t e. omega arith;
  queue = λ x. ground arith;
  no_next = refl;
  no_execve = λ t. refl;
}

third : Ahead three.ready_queue 1 3 1
third = record {
  front = [];
  back = 2 ∷ 3 ∷ [];
  before = 2 ∷ [];
  after = [];
  queue_is = refl;
  around = refl;
  distance_is = refl;
}

interrupts-turn_example :
    (n : ℕ) × (g : Scheduler) × (interrupts (take n ((50, 7) ∷ (60, 8) ∷ [])) three ≡ some g)
    × (n ≤ 1 + 1)
    × (g.current_task ≡ 3)
interrupts-turn_example =
    interrupts-turn 1 3 three ((50, 7) ∷ (60, 8) ∷ []) three-IsReady refl third (omega arith)
      ((λ e. omega arith), ((λ e. omega arith), tt))
