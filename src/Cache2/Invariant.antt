-- ===== src/Cache2/Invariant.antt =====
-- The accounting of sizes, under the operations of the cache that run at once; under `set`, where it
-- accepts the type.
use bzd.Prelude.Map
use bzd.Prelude.{ℕ, ◌≡◌, refl, inl, inr, Option, some, Bool-cases, Option-cases}
use bzd.Cache2.{
  Entry, Collection, Cache, Payload, value, error, fetching, is_expired, Outcome, returned, thrown,
  stored, touch, register, set_in, set, read_entry, get_instant, set_dirty, invalid,
}
use bzd.Cache2.Garbage.{register_collector}
use bzd.Cache2.Size.{
  add-IsAccounted, IsAccounted, write_entry-IsAccounted, touch-IsAccounted, swap_entry-IsAccounted,
}

-- What `set` accepts: a value or an error.
abbrev pub IsSettable {ℓ} : {V E : Type ℓ} → Payload V E → Type 0
IsSettable (value v) = Unit
IsSettable (error e) = Unit
IsSettable (fetching id) = ⊥

module _ {ℓ} {K V E : Type ℓ} (dec : Discrete K) where
  pub register-IsAccounted :
      (c : Cache K V E) (name : K) (timeout_ms? : Option ℕ) (get_size? : Option (V → ℕ))
      → IsAccounted dec c
      → IsAccounted dec (register dec c name timeout_ms? get_size?).0
  unfolding register
  register-IsAccounted c name timeout_ms? get_size? a =
      elim (Option-cases (Map.get dec name c.collections)) [
        | inr (d, found) ↦ rw (found, register) a
        | inl new ↦ rw (new, register) (add-IsAccounted dec c name _ new refl refl a)
      ]

  pub set-IsAccounted :
      (c : Cache K V E) (collection key : K) (payload : Payload V E) (now : ℕ)
      → IsSettable payload
      → IsAccounted dec c
      → IsAccounted dec (set dec c collection key payload now).0
  unfolding set set_in
  set-IsAccounted c collection key (fetching id) now settable a = absurd settable
  set-IsAccounted c collection key payload now settable a =
      elim (Option-cases (Map.get dec collection c.collections)) [
        | inl missing ↦ rw (missing, set) a
        | inr (d, found) ↦
            rw (found, set) (write_entry-IsAccounted dec a collection d found key payload now _)
      ]

  read_entry-IsAccounted :
      (c : Cache K V E) (collection : K) (d : Collection K V E) (key : K) (entry : Entry V E)
      (now : ℕ)
      → Map.get dec collection c.collections ≡ some d
      → Map.get dec key d.values ≡ some entry
      → IsAccounted dec c
      → IsAccounted dec (read_entry dec c collection d key entry now).0
  unfolding read_entry
  read_entry-IsAccounted c collection d key entry now found there a =
      elim (Bool-cases (is_expired entry.timeout now)) [
        | inl old ↦ rw (old, read_entry) a
        | inr fresh ↦
            rw (fresh, read_entry)
              (by_payload entry.payload
                (touch-IsAccounted dec a collection d found key entry there))
      ]
    where
      by_payload :
          (p : Payload V E)
          → IsAccounted dec (touch dec c collection d key entry)
          → IsAccounted dec (
              let r : Cache K V E × Outcome E (Option (Payload V E)) = elim p [
                | error e ↦ (c, thrown (stored e))
                | value v ↦ (touch dec c collection d key entry, returned (some (value v)))
                | fetching id ↦ (touch dec c collection d key entry, returned (some (fetching id)))
              ] in
              r.0)
      by_payload (error e) t = a
      by_payload (value v) t = t
      by_payload (fetching id) t = t

  pub get_instant-IsAccounted :
      (c : Cache K V E) (collection key : K) (now : ℕ)
      → IsAccounted dec c
      → IsAccounted dec (get_instant dec c collection key now).0
  unfolding get_instant
  get_instant-IsAccounted c collection key now a =
      elim (Option-cases (Map.get dec collection c.collections)) [
        | inl missing ↦ rw (missing, get_instant) a
        | inr (d, found) ↦ elim (Option-cases (Map.get dec key d.values)) [
          | inl absent ↦ rw (found, get_instant) (rw absent a)
          | inr (entry, there) ↦
              rw (found, get_instant)
                (rw there (read_entry-IsAccounted c collection d key entry now found there a))
        ]
      ]

  pub set_dirty-IsAccounted :
      (c : Cache K V E) (collection key : K)
      → IsAccounted dec c
      → IsAccounted dec (set_dirty dec c collection key).0
  unfolding set_dirty
  set_dirty-IsAccounted c collection key a =
      elim (Option-cases (Map.get dec collection c.collections)) [
        | inl missing ↦ rw (missing, set_dirty) a
        | inr (d, found) ↦ elim (Option-cases (Map.get dec key d.values)) [
          | inl absent ↦ rw (found, set_dirty) (rw absent a)
          | inr (entry, there) ↦
              rw (found, set_dirty)
                (rw there (
                  swap_entry-IsAccounted dec a collection d found key
                    (record entry { timeout = invalid }) (rw there)))
        ]
      ]

  pub register_collector-IsAccounted :
      (c : Cache K V E) → IsAccounted dec c → IsAccounted dec (register_collector c).0
  unfolding register_collector
  register_collector-IsAccounted c a = elim (Option-cases c.trigger) [
    | inl idle ↦
        rw (idle, register_collector) (record { sum = a.sum; each = a.each; distinct = a.distinct })
    | inr (n, armed) ↦ rw (armed, register_collector) a
  ]
