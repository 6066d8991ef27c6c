-- ===== src/Tests/Mutex.antt =====
-- Runs of nodejs/core/mutex.js.
use bzd.Prelude.{◌≡◌, refl, [], ◌∷◌}
use bzd.Mutex.{Mutex, new_mutex, lock, release, run_timer, locks, releases, Reachable, start, step}
use bzd.Mutex.Steps.{IsWell, reachable-IsWell}
use bzd.Mutex.Drain.{Drained, reachable-Drained}

-- Two processes lock, and the first one releases.
abbrev two : Mutex
two = lock (lock new_mutex 1) 2

abbrev handed_over : Mutex
handed_over = release (record two { holders = [] })

runs :
    (two.queue ≡ 2 ∷ [])
    × (two.holders ≡ 1 ∷ [])
    × (handed_over.timers ≡ 2 ∷ [])
    × ((run_timer handed_over).entered ≡ 1 ∷ 2 ∷ [])
unfolding new_mutex lock release run_timer
runs = (refl, refl, refl, refl)

handed_over-Reachable : Reachable handed_over
unfolding new_mutex lock
handed_over-Reachable =
    step two handed_over
      (step (lock new_mutex 1) two (step new_mutex (lock new_mutex 1) start (locks new_mutex 1))
        (locks (lock new_mutex 1) 2))
      (releases two 1 [] refl)

reachable-IsWell_example : IsWell handed_over
reachable-IsWell_example = reachable-IsWell handed_over handed_over-Reachable

reachable-Drained_example : Drained handed_over
reachable-Drained_example = reachable-Drained handed_over handed_over-Reachable
