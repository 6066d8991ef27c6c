-- ===== src/Cache2/Fetch/Interleaved.antt =====
-- One fetch serves all readers that come while it runs, among other operations of the cache.
use bzd.Prelude.Map
use bzd.Prelude.{
  ℕ, ◌≤◌, ◌≡◌, ◌≢◌, refl, sym, ap, ◌∙◌, inl, inr, Option, none, some, List, [], ◌∷◌, ◌++◌, length,
  Option-cases, arith, All, ◌>>=◌, ◌⊎◌,
}
use bzd.Cache2.{Entry, Collection, Cache, Payload, write_entry, set, set_in, payload_size}
use bzd.Cache2.Fetch.{Shared, Attempt, waiting, list_at, attempt}
use bzd.Cache2.Fetch.Sharing.{IsFetching}

module _ {ℓ} {K V E : Type ℓ} (dec : Discrete K) (collection : K) where
  abbrev pub entry_of : Cache K V E → K → Option (Entry V E)
  entry_of c key = Map.get dec collection c.collections >>= λ d. Map.get dec key d.values

  abbrev pub timeout_of : Cache K V E → Option ℕ
  timeout_of c = Map.get dec collection c.collections >>= λ d. some d.timeout_ms

  -- A change of a collection that keeps its timeout, and the entry of the key if it is that collection.
  set_collection-same :
      (key : K) (c c' : Cache K V E) (name : K) (d d' : Collection K V E)
      → c'.collections ≡ Map.set dec name d' c.collections
      → Map.get dec name c.collections ≡ some d
      → d'.timeout_ms ≡ d.timeout_ms
      → (name ≢ collection) ⊎ (Map.get dec key d'.values ≡ Map.get dec key d.values)
      → (entry_of c' key ≡ entry_of c key) × (timeout_of c' ≡ timeout_of c)
  set_collection-same key c c' name d d' changed found same_time kept = elim (dec collection name) [
    | no other ↦
        let get_same : Map.get dec collection c'.collections
            ≡ Map.get dec collection c.collections =
          ap (Map.get dec collection) changed
          ∙ Map.get-set_ne dec name collection d' c.collections other in
        (
          ap (λ o. o >>= λ (e : Collection K V E). Map.get dec key e.values) get_same,
          ap (λ o. o >>= λ (e : Collection K V E). some e.timeout_ms) get_same,
        )
    | yes same ↦
        let now_there : Map.get dec collection c'.collections ≡ some d' =
          ap (Map.get dec collection) changed
          ∙ ap (λ k. Map.get dec k (Map.set dec name d' c.collections)) same
          ∙ Map.get-set_self dec name d' c.collections in
        let was_there : Map.get dec collection c.collections ≡ some d =
          ap (λ k. Map.get dec k c.collections) same ∙ found in
        let values_same : Map.get dec key d'.values ≡ Map.get dec key d.values = elim kept [
          | inl other ↦ absurd (other (sym same))
          | inr kept ↦ kept
        ] in
        (
          ap (λ o. o >>= λ (e : Collection K V E). Map.get dec key e.values) now_there
              ∙ values_same
              ∙ sym (ap (λ o. o >>= λ (e : Collection K V E). Map.get dec key e.values) was_there),
          ap (λ o. o >>= λ (e : Collection K V E). some e.timeout_ms) now_there
              ∙ ap some same_time
              ∙ sym (ap (λ o. o >>= λ (e : Collection K V E). some e.timeout_ms) was_there),
        )
  ]

module _ {ℓ} {K V E W : Type ℓ} (dec : Discrete K) (collection key : K) where
  -- Another operation, or several, that leave the entry of the key, the timeout of its collection and
  -- the array of those that wait for the fetch.
  pub record IsApart (id : ℕ) (s s' : Shared K V E W) : Type ℓ where
    pub entry : entry_of dec collection s'.cache key ≡ entry_of dec collection s.cache key
    pub timeout : timeout_of dec collection s'.cache ≡ timeout_of dec collection s.cache
    pub list : list_at s'.lists id ≡ list_at s.lists id
    pub grows : length s.lists ≤ length s'.lists

  -- `set` of another key is such an operation.
  pub set-IsApart :
      (id : ℕ) (s : Shared K V E W) (name other : K) (payload : Payload V E) (now : ℕ)
      → (name ≢ collection) ⊎ (key ≢ other)
      → IsApart id s (record s { cache = (set dec s.cache name other payload now).0 })
  unfolding set set_in write_entry
  set-IsApart id s name other payload now apart =
      elim (Option-cases (Map.get dec name s.cache.collections)) [
        | inl e ↦ record {
          entry = ap (λ c. entry_of dec collection c key) (nothing e);
          timeout = ap (timeout_of dec collection) (nothing e);
          list = refl;
          grows = omega arith;
        }
        | inr (d, found) ↦ elim (Option-cases (payload_size d.get_size payload)) [
          | inl refused ↦
              let (entry, timeout) =
                set_collection-same dec collection key s.cache
                  (set dec s.cache name other payload now).0 name d
                  (record d { values = Map.delete dec other d.values })
                  (ap (λ (c : Cache K V E). c.collections) (deleted d found refused)) found refl
                  (kept (λ h. Map.get-delete_ne dec other key d.values h)) in
              record { entry = entry; timeout = timeout; list = refl; grows = omega arith }
          | inr (size, fits) ↦
              let (entry, timeout) =
                set_collection-same dec collection key s.cache
                  (set dec s.cache name other payload now).0 name d _
                  (ap (λ (c : Cache K V E). c.collections) (stored_in d size found fits)) found refl
                  (kept (λ h.
                    Map.get-set_ne dec other key _ (Map.delete dec other d.values) h
                    ∙ Map.get-delete_ne dec other key d.values h)) in
              record { entry = entry; timeout = timeout; list = refl; grows = omega arith }
        ]
      ]
    where
      kept : {P : Type ℓ} → (key ≢ other → P) → (name ≢ collection) ⊎ P
      kept f = elim apart [ inl h ↦ inl h | inr h ↦ inr (f h) ]

      nothing :
          Map.get dec name s.cache.collections ≡ none
          → (set dec s.cache name other payload now).0 ≡ s.cache
      nothing e = rw (e, set) refl

      deleted :
          (d : Collection K V E)
          → Map.get dec name s.cache.collections ≡ some d
          → payload_size d.get_size payload ≡ none
          → (set dec s.cache name other payload now).0 ≡ record s.cache {
            collections =
                Map.set dec name
                  (record d { values = Map.delete dec other d.values })
                  s.cache.collections;
          }
      deleted d found refused = rw (found, set) (rw (refused, set_in) refl)

      stored_in :
          (d : Collection K V E) (size : ℕ)
          → Map.get dec name s.cache.collections ≡ some d
          → payload_size d.get_size payload ≡ some size
          → (set dec s.cache name other payload now).0
            ≡ write_entry dec s.cache name d other payload now size
      stored_in d size found fits = rw (found, set) (rw (fits, set_in) refl)

  -- What happens from the start of a fetch on: calls of `get` for its key, each by a caller and at a time
  -- of its own, with what they end with; and between them, other operations. Last come the newest.
  pub data During (id : ℕ) (s : Shared K V E W)
      : List W → List (Attempt V E) → Shared K V E W → Type ℓ where
    begin : During id s [] [] s
    asks :
        (callers : List W) (answers : List (Attempt V E)) (s' : Shared K V E W) (w : W) (now : ℕ)
        → During id s callers answers s'
        → During id s
            (callers ++ w ∷ [])
            ((attempt dec s' collection key w now).1 ∷ answers)
            (attempt dec s' collection key w now).0
    between :
        (callers : List W) (answers : List (Attempt V E)) (s' s'' : Shared K V E W)
        → During id s callers answers s'
        → IsApart id s' s''
        → During id s callers answers s''

  -- The fetch is still that of the key, and those that called wait for it.
  record IsServing (id timeout_ms : ℕ) (callers : List W) (answers : List (Attempt V E))
      (s : Shared K V E W) : Type ℓ where
    is_fetching : IsFetching dec s collection key id
    timeout : timeout_of dec collection s.cache ≡ some timeout_ms
    waiters : list_at s.lists id ≡ callers
    all_wait : All (λ a. a ≡ waiting id) answers
