-- ===== src/Cache2/Fetch/Sharing.antt =====
-- The start of a fetch, and the reads of its key while it runs.
use bzd.Prelude.Map
use bzd.Prelude.{
  ℕ, zero, suc, ◌<◌, ◌≡◌, refl, ap, ◌∙◌, inl, inr, Option, none, some, List, [], ◌∷◌, ◌++◌, length,
  Option-cases, arith,
}
use bzd.Cache2.{
  Collection, Cache, Payload, value, error, fetching, invalid, Outcome, returned, thrown,
  read_entry, get_instant,
}
use bzd.Cache2.Fetch.{
  Shared, Attempt, hit, failed, waiting, started, push_at, list_at, mark, start, miss, resume,
  attempt,
}

module _ {ℓ} {W : Type ℓ} where
  list_at-new : (lists : List (List W)) → list_at (lists ++ [] ∷ []) (length lists) ≡ []
  unfolding list_at
  list_at-new [] = refl
  list_at-new (l ∷ lists) = list_at-new lists

  length-lt-snoc : (lists : List (List W)) → length lists < length (lists ++ [] ∷ [])
  length-lt-snoc [] = omega arith
  length-lt-snoc (l ∷ lists) = omega (arith, length-lt-snoc lists)

  pub list_at-push_at :
      (lists : List (List W)) (id : ℕ) (w : W)
      → id < length lists
      → list_at (push_at lists id w) id ≡ list_at lists id ++ w ∷ []
  unfolding list_at push_at
  list_at-push_at [] id w h = absurd (omega arith)
  list_at-push_at (l ∷ lists) zero w h = refl
  list_at-push_at (l ∷ lists) (suc id) w h = list_at-push_at lists id w (omega arith)

  pub length-push_at :
      (lists : List (List W)) (id : ℕ) (w : W) → length (push_at lists id w) ≡ length lists
  unfolding push_at
  length-push_at [] id w = refl
  length-push_at (l ∷ lists) zero w = refl
  length-push_at (l ∷ lists) (suc id) w = ap suc (length-push_at lists id w)

module _ {ℓ} {K V E W : Type ℓ} (dec : Discrete K) where
  -- The key is being fetched, by the call with the number `id`.
  pub record IsFetching (s : Shared K V E W) (collection key : K) (id : ℕ) : Type ℓ where
    pub in_collection : Collection K V E
    pub size : ℕ
    pub collection_found : Map.get dec collection s.cache.collections ≡ some in_collection
    pub entry_found :
        Map.get dec key in_collection.values
        ≡ some (record { payload = fetching id; timeout = invalid; size = size })
    pub is_list : id < length s.lists

  pub get_instant-fetching :
      (s : Shared K V E W) (collection key : K) (id now : ℕ)
      → IsFetching s collection key id
      → get_instant dec s.cache collection key now ≡ (s.cache, returned none)
  unfolding get_instant read_entry
  get_instant-fetching s collection key id now f =
      rw (f.collection_found, get_instant) (rw f.entry_found)

  pub attempt-waiting :
      (s : Shared K V E W) (collection key : K) (id : ℕ) (w : W) (now : ℕ)
      → IsFetching s collection key id
      → attempt dec s collection key w now ≡ (record s { lists = push_at s.lists id w }, waiting id)
  unfolding attempt miss resume
  attempt-waiting s collection key id w now f =
      ap (resume dec s collection key w) (get_instant-fetching s collection key id now f)
      ∙ rw (f.collection_found, miss) (rw f.entry_found)

  pub push_at-IsFetching :
      (s : Shared K V E W) (collection key : K) (id : ℕ) (w : W)
      → IsFetching s collection key id
      → IsFetching (record s { lists = push_at s.lists id w }) collection key id
  push_at-IsFetching s collection key id w f = record {
    in_collection = f.in_collection;
    size = f.size;
    collection_found = f.collection_found;
    entry_found = f.entry_found;
    is_list = omega (arith, f.is_list, length-push_at s.lists id w);
  }

  -- A fetch has started, and nobody waits for it yet.
  abbrev pub Started : K → K → Shared K V E W × Attempt V E → Type ℓ
  Started collection key (s, started id) =
      IsFetching s collection key id × (list_at s.lists id ≡ [])
  Started collection key (s, hit p) = Unit
  Started collection key (s, failed t) = Unit
  Started collection key (s, waiting id) = Unit

  start-Started :
      (s : Shared K V E W) (c : Cache K V E) (collection : K) (d : Collection K V E) (key : K)
      → Started collection key (start dec s c collection d key)
  unfolding mark
  start-Started s c collection d key = (
    record {
      in_collection = _;
      size = _;
      collection_found = Map.get-set_self dec collection _ c.collections;
      entry_found = Map.get-set_self dec key _ d.values;
      is_list = length-lt-snoc s.lists;
    },
    list_at-new s.lists,
  )

  miss-Started :
      (s : Shared K V E W) (c : Cache K V E) (collection key : K) (w : W)
      → Started collection key (miss dec s c collection key w)
  unfolding miss
  miss-Started s c collection key w = elim (Option-cases (Map.get dec collection c.collections)) [
    | inl missing ↦ rw (missing, miss) tt
    | inr (d, found) ↦ elim (Option-cases (Map.get dec key d.values)) [
      | inl absent ↦ rw (found, miss) (rw absent (start-Started s c collection d key))
      | inr (entry, there) ↦ rw (found, miss) (rw there (by_payload d entry.payload))
    ]
  ]
    where
      by_payload :
          (d : Collection K V E) (p : Payload V E)
          → Started collection key (elim p [
            | fetching id ↦ (record { cache = c; lists = push_at s.lists id w }, waiting id)
            | value v ↦ start dec s c collection d key
            | error e ↦ start dec s c collection d key
          ])
      by_payload d (fetching id) = tt
      by_payload d (value v) = start-Started s c collection d key
      by_payload d (error e) = start-Started s c collection d key

  pub attempt-Started :
      (s : Shared K V E W) (collection key : K) (w : W) (now : ℕ)
      → Started collection key (attempt dec s collection key w now)
  unfolding attempt resume
  attempt-Started s collection key w now = by_outcome (get_instant dec s.cache collection key now)
    where
      by_outcome :
          (r : Cache K V E × Outcome E (Option (Payload V E)))
          → Started collection key (resume dec s collection key w r)
      by_outcome (c, thrown t) = tt
      by_outcome (c, returned (some p)) = tt
      by_outcome (c, returned none) = miss-Started s c collection key w

  resume-hit :
      (s : Shared K V E W) (collection key : K) (w : W)
      (r : Cache K V E × Outcome E (Option (Payload V E))) (p : Payload V E)
      → r.1 ≡ returned (some p)
      → (resume dec s collection key w r).1 ≡ hit p
  unfolding resume
  resume-hit s collection key w (c, thrown t) p h = cc
  resume-hit s collection key w (c, returned none) p h = cc
  resume-hit s collection key w (c, returned (some q)) p h = cc

  pub attempt-hit :
      (s : Shared K V E W) (collection key : K) (w : W) (now : ℕ) (p : Payload V E)
      → (get_instant dec s.cache collection key now).1 ≡ returned (some p)
      → (attempt dec s collection key w now).1 ≡ hit p
  unfolding attempt
  attempt-hit s collection key w now p h = resume-hit s collection key w _ p h
