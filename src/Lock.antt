-- ===== src/Lock.antt =====
-- nodejs/core/lock.js: the class `Lock`, a chain of promises. The promises that `acquire` makes are
-- numbered in the order of the calls.
pub mod Chain
pub mod Turns
use bzd.Prelude.{ℕ, ◌+◌, ◌<◌, ◌≡◌, Bool, false, Option, none, some, ◌==◌, if◌then◌else◌}

-- How a promise settles: E is what is thrown.
pub data Outcome (E : Type 0) : Type 0 where
  done : Outcome E
  failed : E → Outcome E

-- A promise of `acquire`: it waits for the one before, its callback runs, the callback of `finally` is
-- due, and that has run.
pub data Status (E : Type 0) : Type 0 where
  waiting running : Status E
  called_back settled : Outcome E → Status E

-- `last_task` is the field of the object, with `none` for `Promise.resolve()`. `previous` is the promise
-- whose `then` a call used.
pub record Lock (E : Type 0) : Type 0 where
  pub last_task : Option ℕ
  pub count : ℕ
  pub previous : ℕ → Option ℕ
  pub status : ℕ → Status E

abbrev pub update : {A : Type 0} → (ℕ → A) → ℕ → A → ℕ → A
update f i a j = if j == i then a else f j

-- this.lastTask === nextTask
abbrev pub is_task : Option ℕ → ℕ → Bool
is_task none i = false
is_task (some j) i = j == i

module _ {E : Type 0} where
  abbrev pub new_lock : Lock E
  new_lock = record { last_task = none; count = 0; previous = λ i. none; status = λ i. waiting }

  -- The part of `acquire` that runs at once.
  unfoldable pub acquire : Lock E → Lock E
  acquire lock = record lock {
    last_task = some lock.count;
    count = lock.count + 1;
    previous = update lock.previous lock.count lock.last_task;
    status = update lock.status lock.count waiting;
  }

  abbrev pub settled_outcome : Status E → Option (Outcome E)
  settled_outcome waiting = none
  settled_outcome running = none
  settled_outcome (called_back r) = none
  settled_outcome (settled r) = some r

  abbrev pub outcome_of : Lock E → Option ℕ → Option (Outcome E)
  outcome_of lock none = some done
  outcome_of lock (some i) = settled_outcome (lock.status i)

  -- `then(callback)` calls the callback, or passes a rejection on.
  abbrev pub reaction : Outcome E → Status E
  reaction done = running
  reaction (failed e) = called_back (failed e)

  abbrev pub set_status : Lock E → ℕ → Status E → Lock E
  set_status lock i status = record lock { status = update lock.status i status }

  -- The callback of `finally`, behind which the promise settles.
  unfoldable pub settle : Lock E → ℕ → Outcome E → Lock E
  settle lock i r = record (set_status lock i (settled r)) {
    last_task = if is_task lock.last_task i then none else lock.last_task;
  }

  -- What can happen: a call of `acquire` at any time, a reaction to the promise before, the end of a
  -- callback, well or with an error, and the callback of `finally`.
  pub data Step : Lock E → Lock E → Type 0 where
    acquires : (lock : Lock E) → Step lock (acquire lock)
    reacts :
        (lock : Lock E) (i : ℕ) (r : Outcome E)
        → i < lock.count
        → lock.status i ≡ waiting
        → outcome_of lock (lock.previous i) ≡ some r
        → Step lock (set_status lock i (reaction r))
    returns :
        (lock : Lock E) (i : ℕ) (r : Outcome E)
        → i < lock.count
        → lock.status i ≡ running
        → Step lock (set_status lock i (called_back r))
    settles :
        (lock : Lock E) (i : ℕ) (r : Outcome E)
        → i < lock.count
        → lock.status i ≡ called_back r
        → Step lock (settle lock i r)

  pub data Reachable : Lock E → Type 0 where
    start : Reachable new_lock
    step : (a b : Lock E) → Reachable a → Step a b → Reachable b
