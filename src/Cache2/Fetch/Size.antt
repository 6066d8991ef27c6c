-- ===== src/Cache2/Fetch/Size.antt =====
-- The calls of `get` keep the accounting of sizes.
use bzd.Prelude.Map
use bzd.Prelude.{ℕ, ◌≡◌, refl, inl, inr, Option, none, some, Option-cases}
use bzd.Cache2.{Collection, Cache, Payload, value, error, fetching, Outcome, returned, thrown}
use bzd.Cache2.Size.{IsAccounted, swap_entry-IsAccounted}
use bzd.Cache2.Invariant.{get_instant-IsAccounted}
use bzd.Cache2.Fetch.{Shared, Attempt, mark, start, miss, resume, attempt, push_at, waiting}

module _ {ℓ} {K V E : Type ℓ} (dec : Discrete K) where
  mark-IsAccounted :
      (c : Cache K V E) (collection : K) (d : Collection K V E) (key : K) (id : ℕ)
      → Map.get dec collection c.collections ≡ some d
      → IsAccounted dec c
      → IsAccounted dec (mark dec c collection d key id)
  unfolding mark
  mark-IsAccounted c collection d key id found a =
      swap_entry-IsAccounted dec a collection d found key _ refl

module _ {ℓ} {K V E W : Type ℓ} (dec : Discrete K) where
  miss-IsAccounted :
      (s : Shared K V E W) (c : Cache K V E) (collection key : K) (w : W)
      → IsAccounted dec c
      → IsAccounted dec (miss dec s c collection key w).0.cache
  unfolding miss
  miss-IsAccounted s c collection key w a =
      elim (Option-cases (Map.get dec collection c.collections)) [
        | inl missing ↦ rw (missing, miss) a
        | inr (d, found) ↦
            let m = mark-IsAccounted dec c collection d key _ found a in
            elim (Option-cases (Map.get dec key d.values)) [
              | inl absent ↦ rw (found, miss) (rw absent m)
              | inr (entry, there) ↦ rw (found, miss) (rw there (by_payload d entry.payload m))
            ]
      ]
    where
      by_payload :
          (d : Collection K V E) (p : Payload V E)
          → IsAccounted dec (start dec s c collection d key).0.cache
          → IsAccounted dec (
              let r : Shared K V E W × Attempt V E = elim p [
                | fetching id ↦ (record { cache = c; lists = push_at s.lists id w }, waiting id)
                | value v ↦ start dec s c collection d key
                | error e ↦ start dec s c collection d key
              ] in
              r.0.cache)
      by_payload d (fetching id) m = a
      by_payload d (value v) m = m
      by_payload d (error e) m = m

  resume-IsAccounted :
      (s : Shared K V E W) (collection key : K) (w : W)
      (r : Cache K V E × Outcome E (Option (Payload V E)))
      → IsAccounted dec r.0
      → IsAccounted dec (resume dec s collection key w r).0.cache
  unfolding resume
  resume-IsAccounted s collection key w (c, thrown t) a = a
  resume-IsAccounted s collection key w (c, returned (some p)) a = a
  resume-IsAccounted s collection key w (c, returned none) a =
      miss-IsAccounted s c collection key w a

  pub attempt-IsAccounted :
      (s : Shared K V E W) (collection key : K) (w : W) (now : ℕ)
      → IsAccounted dec s.cache
      → IsAccounted dec (attempt dec s collection key w now).0.cache
  unfolding attempt
  attempt-IsAccounted s collection key w now a =
      resume-IsAccounted s collection key w _
        (get_instant-IsAccounted dec s.cache collection key now a)
