-- ===== src/Cache2/Fetch.antt =====
-- `get` of the class `Cache2`: concurrent readers of one key share one fetch. The method is cut at its
-- `await`s: `attempt` runs up to the next one, and `settle` runs when the fetch has ended. The fetch
-- itself is the caller's; its value or error is an argument.
pub mod Sharing
pub mod Interleaved
pub mod Size
use bzd.Prelude.Map
use bzd.Prelude.{ℕ, zero, suc, Option, none, some, List, [], ◌∷◌, ◌++◌, length, get_elem?}
use bzd.Cache2.{
  Entry, Collection, Cache, Payload, value, error, fetching, invalid, Thrown, Outcome, returned,
  thrown, size_or_zero, set, get_instant,
}

-- The cache, and the arrays `resolveList`, each under the number that a fetching entry holds: the
-- callers that wait.
pub record Shared {ℓ} (K V E W : Type ℓ) : Type ℓ where
  pub cache : Cache K V E
  pub lists : List (List W)

-- Where a call of `get` stands: it has the value, or threw, or waits for another call's fetch, or
-- has to fetch.
pub data Attempt {ℓ} (V E : Type ℓ) : Type ℓ where
  hit : Payload V E → Attempt V E
  failed : Thrown E → Attempt V E
  waiting : ℕ → Attempt V E
  started : ℕ → Attempt V E

module _ {ℓ} {W : Type ℓ} where
  -- resolveList.push(resolve)
  pub push_at : List (List W) → ℕ → W → List (List W)
  push_at [] id w = []
  push_at (l ∷ lists) zero w = (l ++ w ∷ []) ∷ lists
  push_at (l ∷ lists) (suc id) w = l ∷ push_at lists id w

  pub list_at : List (List W) → ℕ → List W
  list_at lists id = elim (get_elem? lists id) [ none ↦ [] | some l ↦ l ]

module _ {ℓ} {K V E : Type ℓ} (dec : Discrete K) where
  -- The entry that marks the key as being fetched. It keeps the size, so that no size changes.
  pub mark : Cache K V E → K → Collection K V E → K → ℕ → Cache K V E
  mark c collection d key id =
      let entry : Entry V E = record {
        payload = fetching id;
        timeout = invalid;
        size = size_or_zero (Map.get dec key d.values);
      } in
      record c {
        collections =
            Map.set dec collection (record d { values = Map.set dec key entry d.values })
              c.collections;
      }

module _ {ℓ} {K V E W : Type ℓ} (dec : Discrete K) where
  -- The first fetch of the key, or that of an entry that is out of date.
  abbrev pub start :
      Shared K V E W → Cache K V E → K → Collection K V E → K → Shared K V E W × Attempt V E
  start s c collection d key =
      let id = length s.lists in
      (record { cache = mark dec c collection d key id; lists = s.lists ++ [] ∷ [] }, started id)

  -- After `getInstant` gave no value: wait if the key is being fetched, else fetch.
  pub miss : Shared K V E W → Cache K V E → K → K → W → Shared K V E W × Attempt V E
  unfolding mark push_at
  miss s c collection key w = elim (Map.get dec collection c.collections) [
    | none ↦ (record s { cache = c }, failed Thrown.assertion)
    | some d ↦ elim (Map.get dec key d.values) [
      | none ↦ start s c collection d key
      | some entry ↦ elim entry.payload [
        | fetching id ↦ (record { cache = c; lists = push_at s.lists id w }, waiting id)
        | value v ↦ start s c collection d key
        | error e ↦ start s c collection d key
      ]
    ]
  ]

  -- What `get` does with the outcome of `getInstant`.
  pub resume :
      Shared K V E W
      → K
      → K
      → W
      → Cache K V E × Outcome E (Option (Payload V E))
      → Shared K V E W × Attempt V E
  unfolding miss
  resume s collection key w (c, thrown t) = (record s { cache = c }, failed t)
  resume s collection key w (c, returned (some p)) = (record s { cache = c }, hit p)
  resume s collection key w (c, returned none) = miss s c collection key w

  unfoldable pub attempt : Shared K V E W → K → K → W → ℕ → Shared K V E W × Attempt V E
  unfolding resume
  attempt s collection key w now =
      resume s collection key w (get_instant dec s.cache collection key now)

  -- The fetch that has the number `id` ended with a value or an error, which is stored; those that
  -- waited are resolved, whatever became of the entry.
  unfoldable pub settle : Shared K V E W → K → K → ℕ → Payload V E → ℕ → Shared K V E W × List W
  unfolding list_at
  settle s collection key id payload now =
      (record s { cache = (set dec s.cache collection key payload now).0 }, list_at s.lists id)
