-- ===== src/Tests/Lock.antt =====
-- Runs of nodejs/core/lock.js.
use bzd.Prelude.{ℕ, ◌<◌, ◌≡◌, refl, some, none, arith}
use bzd.Lock.{
  done, failed, running, waiting, called_back, Lock, new_lock, acquire, reaction, set_status,
  settle, acquires, reacts, returns, settles, Reachable, start, step,
}
use bzd.Lock.Chain.{IsFirst, IsFailedBy}
use bzd.Lock.Turns.{reachable-takes_turns, reachable-fails_next}

-- Two calls of `acquire`; the first callback runs.
abbrev two : Lock ℕ
two = acquire (acquire new_lock)

abbrev first_runs : Lock ℕ
first_runs = set_status two 0 (reaction done)

-- It fails with the error 7, and the other promise takes over the error.
abbrev first_failed : Lock ℕ
first_failed = set_status first_runs 0 (called_back (failed 7))

abbrev first_settled : Lock ℕ
first_settled = settle first_failed 0 (failed 7)

abbrev both_failed : Lock ℕ
both_failed = set_status first_settled 1 (reaction (failed 7))

two-Reachable : Reachable two
two-Reachable =
    step (acquire new_lock) two (step new_lock (acquire new_lock) start (acquires new_lock))
      (acquires (acquire new_lock))

first_runs-Reachable : Reachable first_runs
unfolding acquire
first_runs-Reachable = step two first_runs two-Reachable (reacts two 0 done (omega arith) refl refl)

both_failed-Reachable : Reachable both_failed
unfolding acquire settle
both_failed-Reachable =
    let failing =
      step first_runs first_failed first_runs-Reachable
        (returns first_runs 0 (failed 7) (omega arith) refl) in
    let at_end =
      step first_failed first_settled failing
        (settles first_failed 0 (failed 7) (omega arith) refl) in
    step first_settled both_failed at_end
      (reacts first_settled 1 (failed 7) (omega arith) refl refl)

runs :
    (first_runs.last_task ≡ some 1)
    × (both_failed.last_task ≡ some 1)
    × ((settle both_failed 1 (failed 7)).last_task ≡ none)
unfolding acquire settle
runs = (refl, refl, refl)

reachable-takes_turns_example :
    ((i j : ℕ)
      → i < first_runs.count
      → j < first_runs.count
      → first_runs.status i ≡ running
      → first_runs.status j ≡ running
      → i ≡ j)
    × ((i : ℕ)
        → i < first_runs.count
        → ¬ (first_runs.status i ≡ waiting)
        → IsFirst first_runs.status i)
reachable-takes_turns_example = reachable-takes_turns first_runs first_runs-Reachable

reachable-fails_next_example : IsFailedBy 7 (both_failed.status 1)
unfolding acquire settle
reachable-fails_next_example =
    reachable-fails_next both_failed 0 7 both_failed-Reachable (omega arith) refl refl
