-- ===== src/Tests/Cache2.antt =====
-- Runs of nodejs/core/cache2.js on a cache of numbers, whose size is the number itself.
use bzd.Prelude.Map
use bzd.Prelude.{ℕ, ◌+◌, ◌≤◌, ◌≡◌, refl, none, some, List, [], ◌∷◌, ℕ_discrete as dec}
use bzd.Cache2.{
  Entry, Collection, Cache, value, error, fetching, until, invalid, returned, thrown, assertion,
  register, set, get_instant, set_dirty, get_size,
}
use bzd.Cache2.Garbage.{collect_garbage, register_collector}
use bzd.Cache2.Size.{IsAccounted, total, total_collections}
use bzd.Cache2.Collector.{AllKept, collect_garbage-is_bounded, collect_garbage-AllKept}
use bzd.Cache2.Fetch.{Shared, Attempt, started, attempt, settle}
use bzd.Cache2.History.{
  Call, add, store, read, collect, arm, read_or_fetch, fetched, apply, run_calls, new_cache,
  new_cache-IsAccounted,
}

program : Unit {0}
unfolding register set get_instant set_dirty get_size collect_garbage register_collector attempt
    settle apply new_cache Map.get Map.set Map.delete dec
program = tt

abbrev number_entry : ℕ → ℕ → Entry ℕ ℕ
number_entry n t = record { payload = value n; timeout = until t; size = n }

abbrev numbers : Collection ℕ ℕ ℕ
numbers = record {
  timeout_ms = 10;
  get_size = λ n. n;
  values = (1, number_entry 4 20) ∷ (2, number_entry 5 30) ∷ (3, number_entry 6 30) ∷ [];
  size = 15;
}

abbrev cache : Cache ℕ ℕ ℕ
cache = record {
  timeout_ms = 10;
  get_size = λ n. n;
  max_size = 8;
  collections = (7, numbers) ∷ [];
  size = 15;
  trigger = none;
}

cache-IsAccounted : IsAccounted dec cache
unfolding program total total_collections
cache-IsAccounted = record {
  sum = refl;
  each = (record { counted = refl; distinct = (refl, (refl, (refl, tt))) }, tt);
  distinct = (refl, tt);
}

reads :
    ((get_instant dec cache 7 2 25).1 ≡ returned (some (value 5)))
    × ((get_instant dec cache 7 1 25).1 ≡ returned none)
    × ((get_instant dec cache 8 1 25).1 ≡ thrown assertion)
    × ((set dec cache 7 1 (value 9) 40).0.size ≡ 20)
unfolding program
reads = (refl, refl, refl, refl)

collects :
    ((collect_garbage cache 25).0.collections
      ≡ (7, record numbers { values = (3, number_entry 6 30) ∷ []; size = 6 }) ∷ [])
    × ((collect_garbage cache 25).0.size ≡ 6)
unfolding program
collects = (refl, refl)

collect_garbage-is_bounded_example :
    ((collect_garbage cache 25).0.size ≤ 8)
    × IsAccounted dec (collect_garbage cache 25).0
    × ((collect_garbage cache 25).1.size + (collect_garbage cache 25).0.size ≡ 15)
collect_garbage-is_bounded_example = collect_garbage-is_bounded dec cache 25 cache-IsAccounted

collect_garbage-AllKept_example :
    AllKept dec (15 ≤ 8) 25 cache.collections (collect_garbage cache 25).0.collections
collect_garbage-AllKept_example = collect_garbage-AllKept dec cache 25 cache-IsAccounted

-- A shared state before and after the start of a fetch of the key 1, which is out of date.
abbrev idle : Shared ℕ ℕ ℕ ℕ
idle = record { cache = cache; lists = [] }

abbrev busy : Shared ℕ ℕ ℕ ℕ
busy = (attempt dec idle 7 1 100 25).0

abbrev marked : Collection ℕ ℕ ℕ
marked = record numbers {
  values =
      (1, record { payload = fetching 0; timeout = invalid; size = 4 })
      ∷ (2, number_entry 5 30)
      ∷ (3, number_entry 6 30)
      ∷ [];
}

-- A second call for the key, a write of another key, and a third call.
abbrev asked : Shared ℕ ℕ ℕ ℕ
asked = (attempt dec busy 7 1 101 26).0

abbrev written : Shared ℕ ℕ ℕ ℕ
written = record asked { cache = (set dec asked.cache 7 2 (value 9) 27).0 }

abbrev asked_again : Shared ℕ ℕ ℕ ℕ
asked_again = (attempt dec written 7 1 102 28).0

abbrev answers : List (Attempt ℕ ℕ)
answers = (attempt dec written 7 1 102 28).1 ∷ (attempt dec busy 7 1 101 26).1 ∷ []

-- A pass of the garbage collector on a cache that is too large takes the entry that marks the fetch, so
-- that the next call starts another one.
fetches_twice :
    (attempt dec (record busy { cache = (collect_garbage busy.cache 26).0 }) 7 1 101 27).1
    ≡ started 1
unfolding program
fetches_twice = refl

abbrev session : List (Call ℕ ℕ ℕ ℕ)
session =
    add 7 none none
    ∷ store 7 1 (value 6) 0
    ∷ store 7 2 (error 9) 1
    ∷ read 7 1 2
    ∷ read_or_fetch 7 3 50 3
    ∷ arm
    ∷ fetched 7 3 0 5 4
    ∷ collect 20
    ∷ []

session_ends : (run_calls dec (new_cache 10 (λ n. n) 8) session).cache.size ≡ 0
unfolding program
session_ends = refl

new_cache-IsAccounted_example :
    IsAccounted dec (run_calls dec (new_cache 10 (λ n. n) 8) session).cache
new_cache-IsAccounted_example =
    new_cache-IsAccounted dec 10 (λ n. n) 8 session
      (tt, (tt, (tt, (tt, (tt, (tt, (tt, (tt, tt))))))))

-- A `set` with a type that it refuses deletes the entry, of size 6, and the size of the cache stays.
refused_set :
    (run_calls {E = ℕ} {W = ℕ} dec
      (new_cache 10 (λ n. n) 8)
      (add 7 none none ∷ store 7 1 (value 6) 0 ∷ store 7 1 (fetching 0) 1 ∷ [])).cache.size
    ≡ 6
unfolding program
refused_set = refl
