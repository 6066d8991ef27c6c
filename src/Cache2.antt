-- ===== src/Cache2.antt =====
-- nodejs/core/cache2.js: the class `Cache2` without `get`, which is in Cache2/Fetch.antt, and the
-- collector, in Cache2/Garbage.antt. A method returns the new cache beside its outcome, and the current
-- time is an argument. The names of the collections and the keys are of one type `K` of strings, with a
-- decision of equality.
pub mod Size
pub mod Invariant
pub mod Collector
pub mod Reads
pub mod Kept
pub mod Fetch
pub mod History
pub mod Garbage
use bzd.Prelude.Map
use bzd.Prelude.Map.{Map}
use bzd.Prelude.{
  ℕ, ◌+◌, ◌-◌, Bool, true, false, ◌&&◌, Option, none, some, [], ◌∷◌, ◌++◌, ltb, if◌then◌else◌,
}

-- The exceptions: a failed assertion, or the error that was stored by the fetch of a value.
pub data Thrown {ℓ} (E : Type ℓ) : Type ℓ where
  assertion : Thrown E
  stored : E → Thrown E

pub data Outcome {ℓ} (E A : Type ℓ) : Type ℓ where
  returned : A → Outcome E A
  thrown : Thrown E → Outcome E A

-- The timestamp in milliseconds after which an entry is out of date; `invalid` is -1.
pub data Timeout : Type 0 where
  invalid : Timeout
  until : ℕ → Timeout

-- The fields `status` and `data` of an entry. What a fetch has is the identity of its `resolveList`.
pub data Payload {ℓ} (V E : Type ℓ) : Type ℓ where
  value : V → Payload V E
  error : E → Payload V E
  fetching : ℕ → Payload V E

pub record Entry {ℓ} (V E : Type ℓ) : Type ℓ where
  pub payload : Payload V E
  pub timeout : Timeout
  pub size : ℕ

module _ {ℓ} (K V E : Type ℓ) where
  pub record Collection : Type ℓ where
    pub timeout_ms : ℕ
    pub get_size : V → ℕ
    pub values : Map K (Entry V E)
    pub size : ℕ

  -- `collections` is the field `data`; `trigger` counts the calls of the registered trigger.
  pub record Cache : Type ℓ where
    pub timeout_ms : ℕ
    pub get_size : V → ℕ
    pub max_size : ℕ
    pub collections : Map K Collection
    pub size : ℕ
    pub trigger : Option ℕ

-- entry.timeout < now
abbrev pub is_expired : Timeout → ℕ → Bool
is_expired invalid now = true
is_expired (until t) now = ltb t now

-- entry.timeout > 0 && entry.timeout < now
abbrev pub is_collectable : Timeout → ℕ → Bool
is_collectable invalid now = false
is_collectable (until t) now = ltb 0 t && ltb t now

module _ {ℓ} {V E : Type ℓ} where
  -- (entry ?? { size: 0 }).size
  abbrev pub size_or_zero : Option (Entry V E) → ℕ
  size_or_zero none = 0
  size_or_zero (some e) = e.size

  -- The `switch` of `set`: what is no value and no error is refused.
  abbrev pub payload_size : (V → ℕ) → Payload V E → Option ℕ
  payload_size get_size (value v) = some (get_size v)
  payload_size get_size (error e) = some 8
  payload_size get_size (fetching id) = none

module _ {ℓ} {K V E : Type ℓ} where
  -- this.trigger && this.size > this.options.maxSize
  abbrev pub trigger_if_full : Cache K V E → Cache K V E
  trigger_if_full c = record c {
    trigger = elim c.trigger [
      | none ↦ none
      | some n ↦ some (if ltb c.max_size c.size then n + 1 else n)
    ];
  }

module _ {ℓ} {K V E : Type ℓ} (dec : Discrete K) where
  -- An option that is left out is the cache's.
  unfoldable pub register :
      Cache K V E → K → Option ℕ → Option (V → ℕ) → Cache K V E × Outcome E (Unit {ℓ})
  register c collection timeout_ms? get_size? = elim (Map.get dec collection c.collections) [
    | some d ↦ (c, thrown assertion)
    | none ↦
        let d : Collection K V E = record {
          timeout_ms = elim timeout_ms? [ none ↦ c.timeout_ms | some t ↦ t ];
          get_size = elim get_size? [ none ↦ c.get_size | some f ↦ f ];
          values = [];
          size = 0;
        } in
        (record c { collections = Map.set dec collection d c.collections }, returned tt)
  ]

  -- What `set` does once the size is known. `sizeDiff` is added as a whole, so the old size is taken
  -- off last.
  pub write_entry : Cache K V E → K → Collection K V E → K → Payload V E → ℕ → ℕ → Cache K V E
  write_entry c collection d key payload now size =
      let old = size_or_zero (Map.get dec key d.values) in
      let entry : Entry V E = record {
        payload = payload;
        timeout = until (now + d.timeout_ms);
        size = size;
      } in
      let d' : Collection K V E = record d {
        values = Map.set dec key entry (Map.delete dec key d.values);
        size = d.size + size - old;
      } in
      trigger_if_full (record c {
        collections = Map.set dec collection d' c.collections;
        size = c.size + size - old;
      })

  -- Where the size is refused, the entry is already deleted.
  pub set_in :
      Cache K V E → K → Collection K V E → K → Payload V E → ℕ → Cache K V E × Outcome E (Unit {ℓ})
  unfolding write_entry
  set_in c collection d key payload now = elim (payload_size d.get_size payload) [
    | some size ↦ (write_entry c collection d key payload now size, returned tt)
    | none ↦ (
      record c {
        collections =
            Map.set dec collection (record d { values = Map.delete dec key d.values })
              c.collections;
      },
      thrown assertion,
    )
  ]

  unfoldable pub set : Cache K V E → K → K → Payload V E → ℕ → Cache K V E × Outcome E (Unit {ℓ})
  unfolding set_in
  set c collection key payload now = elim (Map.get dec collection c.collections) [
    | none ↦ (c, thrown assertion)
    | some d ↦ set_in c collection d key payload now
  ]

  -- An entry that is read goes to the end of its map.
  abbrev pub touch : Cache K V E → K → Collection K V E → K → Entry V E → Cache K V E
  touch c collection d key entry = record c {
    collections =
        Map.set dec collection
          (record d { values = Map.set dec key entry (Map.delete dec key d.values) }) c.collections;
  }

  pub read_entry :
      Cache K V E
      → K
      → Collection K V E
      → K
      → Entry V E
      → ℕ
      → Cache K V E × Outcome E (Option (Payload V E))
  read_entry c collection d key entry now =
      if is_expired entry.timeout now then (c, returned none) else elim entry.payload [
        | error e ↦ (c, thrown (stored e))
        | value v ↦ (touch c collection d key entry, returned (some (value v)))
        | fetching id ↦ (touch c collection d key entry, returned (some (fetching id)))
      ]

  -- `getInstant`; `none` is the default value.
  unfoldable pub get_instant :
      Cache K V E → K → K → ℕ → Cache K V E × Outcome E (Option (Payload V E))
  unfolding read_entry
  get_instant c collection key now = elim (Map.get dec collection c.collections) [
    | none ↦ (c, thrown assertion)
    | some d ↦ elim (Map.get dec key d.values) [
      | none ↦ (c, returned none)
      | some entry ↦ read_entry c collection d key entry now
    ]
  ]

  unfoldable pub set_dirty : Cache K V E → K → K → Cache K V E × Outcome E (Unit {ℓ})
  set_dirty c collection key = elim (Map.get dec collection c.collections) [
    | none ↦ (c, thrown assertion)
    | some d ↦ elim (Map.get dec key d.values) [
      | none ↦ (c, returned tt)
      | some entry ↦
          let d' = record d {
            values = Map.set dec key (record entry { timeout = invalid }) d.values;
          } in
          (record c { collections = Map.set dec collection d' c.collections }, returned tt)
    ]
  ]

  -- `getSize`; without a collection it is the size of the whole cache. `none` is a failed assertion.
  unfoldable pub get_size : Cache K V E → Option K → Option ℕ
  get_size c none = some c.size
  get_size c (some collection) = elim (Map.get dec collection c.collections) [
    | none ↦ none
    | some d ↦ some d.size
  ]
