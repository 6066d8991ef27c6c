-- ===== src/Cache2/Garbage.antt =====
-- The garbage collector of nodejs/core/cache2.js.
use bzd.Prelude.Map.{Map}
use bzd.Prelude.{ℕ, ◌+◌, ◌-◌, none, some, [], ◌∷◌, ◌++◌, ltb, if◌then◌else◌}
use bzd.Cache2.{assertion, Outcome, returned, thrown, Entry, Collection, Cache, is_collectable}

-- What the garbage collector counts: `evictedCount` and `evictedSize`.
pub record Evicted : Type 0 where
  pub count : ℕ
  pub size : ℕ

abbrev pub evict_one : Evicted → ℕ → Evicted
evict_one v size = record { count = v.count + 1; size = v.size + size }

-- One collection within a pass: `all` is the size of the cache.
pub record Sweep {ℓ} (K V E : Type ℓ) : Type ℓ where
  pub values : Map K (Entry V E)
  pub size : ℕ
  pub all : ℕ
  pub evicted : Evicted

module _ {ℓ} {K V E : Type ℓ} where
  -- `data.size -= entry.size; this.size -= entry.size; ...`, beside the values that are left
  abbrev pub drop_entry : Entry V E → Sweep K V E → Sweep K V E
  drop_entry e s = record s {
    size = s.size - e.size;
    all = s.all - e.size;
    evicted = evict_one s.evicted e.size;
  }

  -- The loop over the entries that drops what is out of date; `s.values` are those kept so far.
  unfoldable pub sweep_expired : ℕ → Map K (Entry V E) → Sweep K V E → Sweep K V E
  sweep_expired now [] s = s
  sweep_expired now ((k, e) ∷ rest) s = sweep_expired now rest (
      if is_collectable e.timeout now
      then drop_entry e s
      else record s { values = s.values ++ (k, e) ∷ [] })

  -- The loop that drops the first entry while the cache is too large, over the values that are left.
  unfoldable pub sweep_oldest : ℕ → Map K (Entry V E) → Sweep K V E → Sweep K V E
  sweep_oldest max_size [] s = record s { values = [] }
  sweep_oldest max_size ((k, e) ∷ rest) s =
      let next = sweep_oldest max_size rest (drop_entry e s) in
      if ltb max_size s.all then next else record s { values = (k, e) ∷ rest }

  unfoldable pub sweep : ℕ → ℕ → Collection K V E → ℕ → Evicted → Sweep K V E
  unfolding sweep_expired sweep_oldest
  sweep max_size now d all evicted =
      let s =
        sweep_expired now d.values
          (record { values = []; size = d.size; all = all; evicted = evicted }) in
      sweep_oldest max_size s.values s

  -- The loop over the collections: their maps, the size of the cache and what was evicted.
  unfoldable pub sweep_all :
      ℕ → ℕ → Map K (Collection K V E) → ℕ → Evicted → Map K (Collection K V E) × ℕ × Evicted
  unfolding sweep
  sweep_all max_size now [] all evicted = ([], all, evicted)
  sweep_all max_size now ((name, d) ∷ rest) all evicted =
      let s = sweep max_size now d all evicted in
      let r = sweep_all max_size now rest s.all s.evicted in
      ((name, record d { values = s.values; size = s.size }) ∷ r.0, r.1, r.2)

  -- The process of `serviceGarbageCollector`.
  unfoldable pub collect_garbage : Cache K V E → ℕ → Cache K V E × Evicted
  unfolding sweep_all
  collect_garbage c now =
      let r = sweep_all c.max_size now c.collections c.size (record { count = 0; size = 0 }) in
      (record c { collections = r.0; size = r.1 }, r.2)

  -- `serviceGarbageCollector` registers the trigger, once.
  unfoldable pub register_collector : Cache K V E → Cache K V E × Outcome E (Unit {ℓ})
  register_collector c = elim c.trigger [
    | none ↦ (record c { trigger = some 0 }, returned tt)
    | some n ↦ (c, thrown assertion)
  ]
