-- ===== src/Mutex.antt =====
-- nodejs/core/mutex.js: the class `Mutex`. A callback is a process, named by a number; while it has
-- the release function that it was given, it is within the critical section.
pub mod Steps
pub mod Drain
use bzd.Prelude.{ℕ, ◌≡◌, Bool, true, false, List, [], ◌∷◌, ◌++◌, if◌then◌else◌}

-- `queue` and `is_lock` are the fields of the object. `timers` are the callbacks that the event loop
-- still has to call, first the oldest; `holders` those that were called and have not yet called
-- `release`. `asked` and `entered` are the histories of the calls of `lock` and of the callbacks.
pub record Mutex : Type 0 where
  pub queue : List ℕ
  pub is_lock : Bool
  pub timers : List ℕ
  pub holders : List ℕ
  pub asked : List ℕ
  pub entered : List ℕ

unfoldable pub new_mutex : Mutex
new_mutex = record {
  queue = [];
  is_lock = false;
  timers = [];
  holders = [];
  asked = [];
  entered = [];
}

-- callback(() => { this.release(); })
abbrev pub enter : Mutex → ℕ → Mutex
enter m callback = record m {
  holders = m.holders ++ callback ∷ [];
  entered = m.entered ++ callback ∷ [];
}

-- `lock` of a callback. Without one it is `lock(resolve)` of a new promise.
unfoldable pub lock : Mutex → ℕ → Mutex
lock m callback =
    let asked : Mutex = record m { asked = m.asked ++ callback ∷ [] } in
    if m.is_lock
    then record asked { queue = m.queue ++ callback ∷ [] }
    else enter (record asked { is_lock = true }) callback

-- `release` gives the next callback to a timer, or unlocks.
unfoldable pub release : Mutex → Mutex
release m = elim m.queue [
  | [] ↦ record m { is_lock = false }
  | callback ∷ queue ↦ record m { queue = queue; timers = m.timers ++ callback ∷ [] }
]

-- The event loop runs the oldest timer.
unfoldable pub run_timer : Mutex → Mutex
run_timer m = elim m.timers [
  | [] ↦ m
  | callback ∷ timers ↦ enter (record m { timers = timers }) callback
]

-- What can happen: a call of `lock` at any time, the release by the oldest holder, a timer.
pub data Step : Mutex → Mutex → Type 0 where
  locks : (m : Mutex) (callback : ℕ) → Step m (lock m callback)
  releases :
      (m : Mutex) (callback : ℕ) (rest : List ℕ)
      → m.holders ≡ callback ∷ rest
      → Step m (release (record m { holders = rest }))
  fires :
      (m : Mutex) (callback : ℕ) (rest : List ℕ) → m.timers ≡ callback ∷ rest → Step m (run_timer m)

pub data Reachable : Mutex → Type 0 where
  start : Reachable new_mutex
  step : (m m' : Mutex) → Reachable m → Step m m' → Reachable m'
