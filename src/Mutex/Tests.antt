-- ===== src/Mutex/Tests.antt =====
-- The theorems on the mutex of kernel/mutex.c with two tasks.
use exscape_os.Prelude.{ℕ, ◌≡◌, refl, true, [], ◌∷◌, some, arith, ◌==◌, if◌then◌else◌}
use exscape_os.Mutex.{Point, inside, outside, failed, run, advance, lock_round, own}
use exscape_os.Mutex.Exclusion.{run-exclusion}
use exscape_os.Mutex.Race.{run-race}

run-exclusion_example : ◌≡◌ {A = ℕ} 1 1
unfolding run advance lock_round own
run-exclusion_example = run-exclusion (1 ∷ 2 ∷ 1 ∷ 2 ∷ []) 1 1 refl refl

abbrev one_inside : ℕ → Point
one_inside t = if t == 1 then inside else outside

run-race_example :
    (run
        (1 ∷ 2 ∷ 2 ∷ 1 ∷ 2 ∷ [])
        (record { lock = record { owner = some 1; mutex = true }; points = one_inside })).points
      2
    ≡ failed
run-race_example = run-race 1 2 one_inside (λ e. ground (arith, e)) refl refl
