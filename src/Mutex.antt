-- ===== src/Mutex.antt =====
-- kernel/mutex.c: tasks that lock and unlock one mutex, with a switch of tasks possible between the
-- steps below. The two assertions of `mutex_unlock`, which read the mutex, and its first write are one
-- step. Each task goes around: outside, with the lock bit taken, inside, and with the
-- lock bit cleared but the owner not yet. It is not in an interrupt, and switching is on.
pub mod Exclusion
pub mod Race
mod Tests
use exscape_os.Prelude.{
  ℕ, zero, suc, Bool, true, false, ◌&&◌, List, [], ◌∷◌, Option, none, some, ◌==◌, if◌then◌else◌,
  update,
}

-- `mutex` is the bit that `LOCK BTSL` tests and sets
pub record Mutex : Type 0 where
  pub owner : Option ℕ
  pub mutex : Bool

-- where a task stands in `mutex_lock` and `mutex_unlock`
pub data Point : Type 0 where
  outside : Point
  set_owner : Point
  inside : Point
  clear_owner : Point
  failed : Point

pub record System : Type 0 where
  pub lock : Mutex
  pub points : ℕ → Point

abbrev pub is_owner : ℕ → Option ℕ → Bool
is_owner t none = false
is_owner t (some o) = o == t

-- One round of the loop of `mutex_lock`: the bit is tested and set at once.
unfoldable pub lock_round : ℕ → System → System
lock_round t s =
    if s.lock.mutex
    then s
    else record { lock = record (s.lock) { mutex = true }; points = update s.points t set_owner }

-- `mutex->owner = current_task`
unfoldable pub own : ℕ → System → System
own t s = record { lock = record (s.lock) { owner = some t }; points = update s.points t inside }

-- `mutex_unlock` up to `mutex->mutex = 0`, with its assertions
unfoldable pub unlock : ℕ → System → System
unlock t s =
    if s.lock.mutex && is_owner t s.lock.owner
    then record { lock = record (s.lock) { mutex = false }; points = update s.points t clear_owner }
    else record s { points = update s.points t failed }

-- `mutex->owner = NULL`
unfoldable pub disown : ℕ → System → System
disown t s = record { lock = record (s.lock) { owner = none }; points = update s.points t outside }

unfoldable pub advance : ℕ → System → System
unfolding lock_round own unlock disown
advance t s = elim (s.points t) [
  | outside ↦ lock_round t s
  | set_owner ↦ own t s
  | inside ↦ unlock t s
  | clear_owner ↦ disown t s
  | failed ↦ s
]

-- The tasks advance in the order of the schedule.
unfoldable pub run : List ℕ → System → System
run [] s = s
run (t ∷ schedule) s = run schedule (advance t s)

-- `mutex_create`, with no task near it
abbrev pub initial : System
initial = record { lock = record { owner = none; mutex = false }; points = λ t. outside }
