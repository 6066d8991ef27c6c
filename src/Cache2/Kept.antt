-- ===== src/Cache2/Kept.antt =====
-- What a read of the cache leaves as it was.
use bzd.Prelude.Map
use bzd.Prelude.{ℕ, Bool, true, false, Option, none, some, ◌≡◌, refl, if◌then◌else◌}
use bzd.Cache2.{
  Entry, Collection, Cache, Payload, value, error, fetching, Outcome, returned, thrown, stored,
  is_expired, get_instant, read_entry, touch, set, set_in,
}

module _ {ℓ} {K V E : Type ℓ} (dec : Discrete K) (bucket : K) where
  -- A read leaves the collection with its timeout.
  abbrev pub Keeps : Cache K V E → ℕ → Type ℓ
  Keeps cache timeout_ms =
      (d : Collection K V E) × (Map.get dec bucket cache.collections ≡ some d)
      × (d.timeout_ms ≡ timeout_ms)

  pub get_instant-Keeps :
      (cache : Cache K V E) (d : Collection K V E)
      → Map.get dec bucket cache.collections ≡ some d
      → (key : K) (now : ℕ) → Keeps (get_instant dec cache bucket key now).0 d.timeout_ms
  unfolding get_instant read_entry
  get_instant-Keeps cache d found key now =
      rw (found, get_instant) (by_entry (Map.get dec key d.values))
    where
      by_payload :
          (e : Entry V E) (b : Bool) (p : Payload V E)
          → Keeps
              (let r : Cache K V E × Outcome E (Option (Payload V E)) =
                  if b then (cache, returned none) else elim p [
                    | error x ↦ (cache, thrown (stored x))
                    | value v ↦ (touch dec cache bucket d key e, returned (some (value v)))
                    | fetching id ↦ (touch dec cache bucket d key e, returned (some (fetching id)))
                  ] in
                r.0)
              d.timeout_ms
      by_payload e true p = (d, found, refl)
      by_payload e false (error x) = (d, found, refl)
      by_payload e false (value v) = (_, Map.get-set_self dec bucket _ cache.collections, refl)
      by_payload e false (fetching id) = (_, Map.get-set_self dec bucket _ cache.collections, refl)

      by_entry :
          (o : Option (Entry V E))
          → Keeps
              (let r : Cache K V E × Outcome E (Option (Payload V E)) = elim o [
                | none ↦ (cache, returned none)
                | some entry ↦ read_entry dec cache bucket d key entry now
              ] in
                r.0)
              d.timeout_ms
      by_entry none = (d, found, refl)
      by_entry (some e) = by_payload e (is_expired e.timeout now) e.payload

  pub set-returned :
      (cache : Cache K V E) (d : Collection K V E) (key : K) (v : V) (now : ℕ)
      → Map.get dec bucket cache.collections ≡ some d
      → (set dec cache bucket key (value v) now).1 ≡ returned tt
  unfolding set set_in
  set-returned cache d key v now found = rw (found, set) refl
