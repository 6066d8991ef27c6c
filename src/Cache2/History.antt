-- ===== src/Cache2/History.antt =====
-- Sequences of calls of the cache, from the constructor on.
use mathlib.Core.List.{foldl}
use bzd.Prelude.{ℕ, refl, Option, none, List, [], ◌∷◌, All}
use bzd.Cache2.{Payload, value, error, register, set, get_instant, set_dirty}
use bzd.Cache2.Garbage.{collect_garbage, register_collector}
use bzd.Cache2.Size.{IsAccounted, total_collections}
use bzd.Cache2.Invariant.{
  IsSettable, register-IsAccounted, set-IsAccounted, get_instant-IsAccounted, set_dirty-IsAccounted,
  register_collector-IsAccounted,
}
use bzd.Cache2.Fetch.Size.{attempt-IsAccounted}
use bzd.Cache2.Collector.{collect_garbage-is_bounded}
use bzd.Cache2.Fetch.{Shared, attempt, settle}

-- The calls, each with the time at which it is made where that matters.
pub data Call {ℓ} (K V E W : Type ℓ) : Type ℓ where
  add : K → Option ℕ → Option (V → ℕ) → Call K V E W
  store : K → K → Payload V E → ℕ → Call K V E W
  read : K → K → ℕ → Call K V E W
  read_or_fetch : K → K → W → ℕ → Call K V E W
  fetched : K → K → ℕ → V → ℕ → Call K V E W
  not_fetched : K → K → ℕ → E → ℕ → Call K V E W
  dirty : K → K → Call K V E W
  collect : ℕ → Call K V E W
  arm : Call K V E W

module _ {ℓ} {K V E W : Type ℓ} where
  -- A call that gives `set` a type that it takes: the type of a value or of an error.
  abbrev pub IsCallAccepted : Call K V E W → Type 0
  IsCallAccepted (add name t f) = Unit
  IsCallAccepted (store c k payload now) = IsSettable payload
  IsCallAccepted (read c k now) = Unit
  IsCallAccepted (read_or_fetch c k w now) = Unit
  IsCallAccepted (fetched c k id v now) = Unit
  IsCallAccepted (not_fetched c k id e now) = Unit
  IsCallAccepted (dirty c k) = Unit
  IsCallAccepted (collect now) = Unit
  IsCallAccepted arm = Unit

  -- `new Cache2(name, options)`
  unfoldable pub new_cache : ℕ → (V → ℕ) → ℕ → Shared K V E W
  new_cache timeout_ms get_size max_size = record {
    cache = record {
      timeout_ms = timeout_ms;
      get_size = get_size;
      max_size = max_size;
      collections = [];
      size = 0;
      trigger = none;
    };
    lists = [];
  }

module _ {ℓ} {K V E W : Type ℓ} (dec : Discrete K) where
  unfoldable pub apply : Shared K V E W → Call K V E W → Shared K V E W
  apply s (add name t f) = record s { cache = (register dec s.cache name t f).0 }
  apply s (store c k payload now) = record s { cache = (set dec s.cache c k payload now).0 }
  apply s (read c k now) = record s { cache = (get_instant dec s.cache c k now).0 }
  apply s (read_or_fetch c k w now) = (attempt dec s c k w now).0
  apply s (fetched c k id v now) = (settle dec s c k id (value v) now).0
  apply s (not_fetched c k id e now) = (settle dec s c k id (error e) now).0
  apply s (dirty c k) = record s { cache = (set_dirty dec s.cache c k).0 }
  apply s (collect now) = record s { cache = (collect_garbage s.cache now).0 }
  apply s arm = record s { cache = (register_collector s.cache).0 }

  abbrev pub run_calls : Shared K V E W → List (Call K V E W) → Shared K V E W
  run_calls = foldl apply

  apply-IsAccounted :
      (s : Shared K V E W) (call : Call K V E W)
      → IsCallAccepted call
      → IsAccounted dec s.cache
      → IsAccounted dec (apply s call).cache
  unfolding apply settle
  apply-IsAccounted s (add name t f) ok a = register-IsAccounted dec s.cache name t f a
  apply-IsAccounted s (store c k payload now) ok a =
      set-IsAccounted dec s.cache c k payload now ok a
  apply-IsAccounted s (read c k now) ok a = get_instant-IsAccounted dec s.cache c k now a
  apply-IsAccounted s (read_or_fetch c k w now) ok a = attempt-IsAccounted dec s c k w now a
  apply-IsAccounted s (fetched c k id v now) ok a =
      set-IsAccounted dec s.cache c k (value v) now tt a
  apply-IsAccounted s (not_fetched c k id e now) ok a =
      set-IsAccounted dec s.cache c k (error e) now tt a
  apply-IsAccounted s (dirty c k) ok a = set_dirty-IsAccounted dec s.cache c k a
  apply-IsAccounted s (collect now) ok a = (collect_garbage-is_bounded dec s.cache now a).1
  apply-IsAccounted s arm ok a = register_collector-IsAccounted dec s.cache a

  run_calls-IsAccounted :
      (s : Shared K V E W) (calls : List (Call K V E W))
      → All IsCallAccepted calls
      → IsAccounted dec s.cache
      → IsAccounted dec (run_calls s calls).cache
  run_calls-IsAccounted s [] ok a = a
  run_calls-IsAccounted s (call ∷ calls) ok a =
      run_calls-IsAccounted (apply s call) calls ok.1 (apply-IsAccounted s call ok.0 a)

  -- After any calls on a new cache, but for a `set` with a type that it refuses, reads that fetch and
  -- fetches that end included, in any order and at any times, the size of each collection is the sum of
  -- the sizes of its entries, that of the cache is the sum over the collections, and no collection and
  -- no key is there twice.
  pub new_cache-IsAccounted :
      (timeout_ms : ℕ) (get_size : V → ℕ) (max_size : ℕ) (calls : List (Call K V E W))
      → All IsCallAccepted calls
      → IsAccounted dec (run_calls (new_cache timeout_ms get_size max_size) calls).cache
  unfolding new_cache total_collections
  new_cache-IsAccounted timeout_ms get_size max_size calls ok =
      run_calls-IsAccounted _ calls ok (record { sum = refl; each = tt; distinct = tt })
