-- ===== src/Cache2/Reads.antt =====
-- What reads of the cache give after writes.
use bzd.Prelude.Map
use bzd.Prelude.Map.{Map, IsDistinct}
use bzd.Prelude.{
  ℕ, ◌≡◌, ◌≢◌, refl, sym, ap, ◌∙◌, inl, inr, Option, none, some, if◌then◌else◌, Option-cases, arith,
}
use bzd.Cache2.{
  Entry, Collection, Cache, Payload, value, error, fetching, is_expired, Outcome, returned, thrown,
  stored, write_entry, set_in, set, read_entry, get_instant, set_dirty,
}
use bzd.Cache2.Invariant.{IsSettable}

module _ {ℓ} {V E : Type ℓ} where
  -- What a read gives of a fresh entry: its value, or its error as an exception.
  abbrev pub answer : Payload V E → Outcome E (Option (Payload V E))
  answer (error x) = thrown (stored x)
  answer (value v) = returned (some (value v))
  answer (fetching id) = returned (some (fetching id))

module _ {ℓ} {K V E : Type ℓ} (dec : Discrete K) where
  -- The entry of a key, if its collection is there and has it.
  pub entry_in : Map K (Collection K V E) → K → K → Option (Entry V E)
  entry_in m collection key = elim (Map.get dec collection m) [
    | none ↦ none
    | some d ↦ Map.get dec key d.values
  ]

  abbrev pub entry_of : Cache K V E → K → K → Option (Entry V E)
  entry_of c collection key = entry_in c.collections collection key

  -- What `getInstant` returns or throws, as far as it depends on the entry.
  pub outcome_of : Option (Entry V E) → ℕ → Outcome E (Option (Payload V E))
  outcome_of none now = returned none
  outcome_of (some e) now = if is_expired e.timeout now then returned none else elim e.payload [
    | error x ↦ thrown (stored x)
    | value v ↦ returned (some (value v))
    | fetching id ↦ returned (some (fetching id))
  ]

  module _ (m : Map K (Collection K V E)) (collection : K) (d : Collection K V E) where
    entry_in-found :
        (k : K)
        → Map.get dec collection m ≡ some d
        → entry_in m collection k ≡ Map.get dec k d.values
    unfolding entry_in
    entry_in-found k found = rw (found, entry_in)

    entry_in-set_self :
        (k : K) → entry_in (Map.set dec collection d m) collection k ≡ Map.get dec k d.values
    unfolding entry_in
    entry_in-set_self k = rw (Map.get-set_self dec collection d m, entry_in)

    entry_in-set_ne :
        (x k : K) → x ≢ collection → entry_in (Map.set dec collection d m) x k ≡ entry_in m x k
    unfolding entry_in
    entry_in-set_ne x k ne = rw (Map.get-set_ne dec collection x d m ne, entry_in)

  -- A change of one collection that leaves all keys but one leaves all entries but one.
  entry_in-other :
      (m : Map K (Collection K V E)) (collection key x k : K) (d d' : Collection K V E)
      → Map.get dec collection m ≡ some d
      → ((q : K) → q ≢ key → Map.get dec q d'.values ≡ Map.get dec q d.values)
      → ¬ ((x ≡ collection) × (k ≡ key))
      → entry_in (Map.set dec collection d' m) x k ≡ entry_in m x k
  entry_in-other m collection key x k d d' found keeps other = elim (dec x collection) [
    | yes p ↦ rw p (
        entry_in-set_self m collection d' k
        ∙ keeps k (λ q. other (p, q))
        ∙ sym (entry_in-found m collection d k found))
    | no p ↦ entry_in-set_ne m collection d' x k p
  ]

  get-move_ne :
      (key q : K) (e : Entry V E) (m : Map K (Entry V E))
      → q ≢ key
      → Map.get dec q (Map.set dec key e (Map.delete dec key m)) ≡ Map.get dec q m
  get-move_ne key q e m ne =
      Map.get-set_ne dec key q e (Map.delete dec key m) ne ∙ Map.get-delete_ne dec key q m ne

  -- `getInstant` of a registered collection depends on the entry of the key alone.
  get_instant-eq-outcome :
      (c : Cache K V E) (collection key : K) (d : Collection K V E) (now : ℕ)
      → Map.get dec collection c.collections ≡ some d
      → (get_instant dec c collection key now).1 ≡ outcome_of (entry_of c collection key) now
  unfolding get_instant read_entry outcome_of
  get_instant-eq-outcome c collection key d now found =
      rw (found, get_instant, entry_in-found c.collections collection d key found)
        (elim (Option-cases (Map.get dec key d.values)) [
          | inl absent ↦ rw absent
          | inr (e, there) ↦ rw there (by_entry e)
        ])
    where
      by_entry :
          (e : Entry V E) → (read_entry dec c collection d key e now).1 ≡ outcome_of (some e) now
      by_entry e = ground arith

  registered :
      (m : Map K (Collection K V E)) (collection x : K) (dx d' : Collection K V E)
      → Map.get dec x m ≡ some dx
      → (d'' : Collection K V E) × (Map.get dec x (Map.set dec collection d' m) ≡ some d'')
  registered m collection x dx d' found = elim (dec x collection) [
    | yes p ↦ (d', rw p (Map.get-set_self dec collection d' m))
    | no p ↦ (dx, Map.get-set_ne dec collection x d' m p ∙ found)
  ]

  -- A change of one key's entry changes the outcome of no other read.
  get_instant-other :
      (c c' : Cache K V E) (collection key x k : K) (d d' dx : Collection K V E) (later : ℕ)
      → Map.get dec collection c.collections ≡ some d
      → Map.get dec x c.collections ≡ some dx
      → c'.collections ≡ Map.set dec collection d' c.collections
      → ((q : K) → q ≢ key → Map.get dec q d'.values ≡ Map.get dec q d.values)
      → ¬ ((x ≡ collection) × (k ≡ key))
      → (get_instant dec c' x k later).1 ≡ (get_instant dec c x k later).1
  get_instant-other c c' collection key x k d d' dx later found there same keeps other =
      let (d'', there') = registered c.collections collection x dx d' there in
      get_instant-eq-outcome c' x k d'' later (ap (Map.get dec x) same ∙ there')
      ∙ ap (λ e. outcome_of e later)
          (ap (λ m. entry_in m x k) same
            ∙ entry_in-other c.collections collection key x k d d' found keeps other)
      ∙ sym (get_instant-eq-outcome c x k dx later there)

  module _ (c : Cache K V E) (collection : K) (d : Collection K V E)
      (found : Map.get dec collection c.collections ≡ some d) where
    -- `set` of a value or an error changes the outcome of no `getInstant` of another key, in this
    -- or another registered collection.
    pub get_instant-set_other :
        (key : K) (payload : Payload V E) (now later : ℕ) (x k : K) (dx : Collection K V E)
        → IsSettable payload
        → Map.get dec x c.collections ≡ some dx
        → ¬ ((x ≡ collection) × (k ≡ key))
        → (get_instant dec (set dec c collection key payload now).0 x k later).1
          ≡ (get_instant dec c x k later).1
    unfolding set set_in write_entry
    get_instant-set_other key (fetching id) now later x k dx settable there other = absurd settable
    get_instant-set_other key payload now later x k dx settable there other =
        rw (found, set)
          (get_instant-other c _ collection key x k d _ dx later found there refl
            (λ q ne. get-move_ne key q _ d.values ne) other)

    -- After `setDirty` a read of the key gives the default value, whatever the entry and the time, and
    -- every other read what it gave before.
    pub get_instant-set_dirty :
        (key : K) (later : ℕ)
        → ((get_instant dec (set_dirty dec c collection key).0 collection key later).1
            ≡ returned none)
          × ((x k : K) (dx : Collection K V E)
              → Map.get dec x c.collections ≡ some dx
              → ¬ ((x ≡ collection) × (k ≡ key))
              → (get_instant dec (set_dirty dec c collection key).0 x k later).1
                ≡ (get_instant dec c x k later).1)
    unfolding set_dirty outcome_of
    get_instant-set_dirty key later = elim (Option-cases (Map.get dec key d.values)) [
      | inl absent ↦ (
        rw (found, set_dirty)
            (rw absent (
              get_instant-eq-outcome c collection key d later found
              ∙ ap (λ e. outcome_of e later)
                  (entry_in-found c.collections collection d key found ∙ absent))),
        rw (found, set_dirty) (rw absent (λ x k dx there other. refl)),
      )
      | inr (entry, there) ↦ (
        rw (found, set_dirty)
            (rw there (
              get_instant-eq-outcome _ collection key _ later
                (Map.get-set_self dec collection _ c.collections)
              ∙ ap (λ e. outcome_of e later)
                  (entry_in-set_self c.collections collection _ key
                    ∙ Map.get-set_self dec key _ d.values))),
        rw (found, set_dirty)
            (rw there (λ x k dx there' other.
              get_instant-other c _ collection key x k d _ dx later found there' refl
                (λ q ne. Map.get-set_ne dec key q _ d.values ne) other)),
      )
    ]
