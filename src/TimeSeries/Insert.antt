-- ===== src/TimeSeries/Insert.antt =====
-- `insert`: it keeps the order, adds one entry, and on unique timestamps is an ordered map's write.
use bzd.Prelude.{
  ℕ, zero, suc, ◌<◌, ◌≡◌, refl, sym, subst, inl, inr, true, Option, none, some, List, [], ◌∷◌,
  arith, ltb, ◌==◌, if◌then◌else◌, get_elem?, insert_idx, All, Bool-cases, Option-cases,
}
use bzd.TimeSeries.{Entry, TimeSeries, is_at, merge_at, insert}
use bzd.TimeSeries.Order.{IsOrdered, IsConsistent, All-get_elem?}
use bzd.TimeSeries.Search.{IsPlace, find_-IsFound}

module _ {ℓ} {V : Type ℓ} where
  -- The reference: a walk from the oldest entry that merges at the timestamp, or inserts before the
  -- first later one.
  pub put : (V → V → ℕ → V) → ℕ → V → List (Entry V) → List (Entry V)
  put merge t v [] = (t, v) ∷ []
  put merge t v (e ∷ rest) =
      if e.0 == t
      then (e.0, merge e.1 v t) ∷ rest
      else if ltb t e.0
      then (t, v) ∷ e ∷ rest
      else e ∷ put merge t v rest

  IsPlace-tail :
      (x : Entry V) (l : List (Entry V)) (t i : ℕ) → IsPlace (x ∷ l) t (suc i) → IsPlace l t i
  IsPlace-tail x l t i p = record {
    bound = omega (arith, p.bound);
    before = λ j e g lt. p.before (suc j) e g (omega arith);
    after = λ j e g le. p.after (suc j) e g (omega arith);
  }

  module _ (merge : V → V → ℕ → V) (t : ℕ) (v : V) where
    insert_idx-eq-put :
        (l : List (Entry V)) (i : ℕ) → IsPlace l t i → insert_idx l i (t, v) ≡ put merge t v l
    unfolding put
    insert_idx-eq-put [] zero p = refl
    insert_idx-eq-put [] (suc i) p = absurd (omega (arith, p.bound))
    insert_idx-eq-put (x ∷ l) zero p = ground (arith, p.after 0 x refl)
    insert_idx-eq-put (x ∷ l) (suc i) p =
        ground (arith, p.before 0 x refl, insert_idx-eq-put l i (IsPlace-tail x l t i p))

    at_time :
        (l : List (Entry V)) (i : ℕ) → is_at l i t ≡ true → (w : V) × (get_elem? l i ≡ some (t, w))
    at_time l i h = elim (Option-cases (get_elem? l i)) [
      | inl gone ↦ absurd (ground arith)
      | inr (e, found) ↦ (e.1, ground arith)
    ]

    merge_at-eq-put :
        (l : List (Entry V)) (i : ℕ)
        → IsOrdered true l
        → is_at l i t ≡ true
        → merge_at merge l i t v ≡ put merge t v l
    unfolding put
    merge_at-eq-put [] i o h = absurd (ground arith)
    merge_at-eq-put (x ∷ l) zero o h = ground arith
    merge_at-eq-put (x ∷ l) (suc i) o h =
        let (w, found) = at_time l i h in
        let less : x.0 < t = All-get_elem? (λ f. x.0 < f.0) l i o.0 found in
        ground (arith, merge_at-eq-put l i o.1 h)

  -- On a consistent series of unique timestamps `insert` is `put`: the binary search and the
  -- splice do what the walk does.
  pub insert-eq-put :
      (ts : TimeSeries V) (t : ℕ) (v : V)
      → ts.unique ≡ true
      → IsConsistent ts
      → insert ts t v ≡ some (record ts { entries = put ts.unique_merge t v ts.entries })
  unfolding insert
  insert-eq-put ts t v u c =
      let (i, found, b, placed) = find_-IsFound ts t c in
      let ordered : IsOrdered true ts.entries = subst (λ b. IsOrdered b ts.entries) u c in
      rw found (elim (Bool-cases (is_at ts.entries i t)) [
        | inl hit ↦ ground (arith, merge_at-eq-put ts.unique_merge t v ts.entries i ordered hit)
        | inr miss ↦ elim placed [
          | inl hit ↦ absurd (ground arith)
          | inr p ↦ ground (arith, insert_idx-eq-put ts.unique_merge t v ts.entries i p)
        ]
      ])

  -- Reading by timestamp.
  unfoldable pub value_at : ℕ → List (Entry V) → Option V
  value_at t [] = none
  value_at t (e ∷ rest) = if e.0 == t then some e.1 else value_at t rest

  value_at-later :
      (t : ℕ) (l : List (Entry V)) → All (λ (f : Entry V). t < f.0) l → value_at t l ≡ none
  unfolding value_at
  value_at-later t [] h = refl
  value_at-later t (x ∷ l) h = ground (arith, value_at-later t l h.1)

  All-mono :
      (s t : ℕ) (l : List (Entry V))
      → s < t
      → All (λ (f : Entry V). t < f.0) l
      → All (λ (f : Entry V). s < f.0) l
  All-mono s t [] lt h = tt
  All-mono s t (x ∷ l) lt h = (omega arith, All-mono s t l lt h.1)

  module _ (merge : V → V → ℕ → V) (t : ℕ) (v : V) where
    All-put :
        (s : ℕ) (l : List (Entry V))
        → s < t
        → All (λ (f : Entry V). s < f.0) l
        → All (λ (f : Entry V). s < f.0) (put merge t v l)
    unfolding put
    All-put s [] lt h = (lt, tt)
    All-put s (x ∷ l) lt h = ground (arith, All-put s l lt h.1)

    -- The write keeps the strict order.
    pub put-IsOrdered : (l : List (Entry V)) → IsOrdered true l → IsOrdered true (put merge t v l)
    unfolding put
    put-IsOrdered [] o = (tt, tt)
    put-IsOrdered (x ∷ l) o = elim (Bool-cases (x.0 == t)) [
      | inl same ↦ rw same o
      | inr other ↦ elim (Bool-cases (ltb t x.0)) [
        | inl later ↦ rw (other, later) ((ground arith, All-mono t x.0 l (ground arith) o.0), o)
        | inr earlier ↦ rw (other, earlier) (All-put x.0 l (ground arith) o.0, put-IsOrdered l o.1)
      ]
    ]

    abbrev pub merged : Option V → V
    merged old = elim old [ none ↦ v | some w ↦ merge w v t ]

    -- What a read at any time gives after the write.
    pub value_at-put :
        (j : ℕ) (l : List (Entry V))
        → IsOrdered true l
        → value_at j (put merge t v l)
          ≡ (if j == t then some (merged (value_at t l)) else value_at j l)
    unfolding put value_at
    value_at-put j [] o = ground arith
    value_at-put j (x ∷ l) o = elim (Bool-cases (ltb t x.0)) [
      | inl later ↦ ground (arith, value_at-later t l (All-mono t x.0 l (ground arith) o.0))
      | inr earlier ↦ ground (arith, value_at-put j l o.1)
    ]

  -- `insert` into a consistent series of unique timestamps throws nothing, keeps the series
  -- consistent, and is the write of an ordered map: the timestamp reads as the new value, or as what
  -- `uniqueMerge` makes of the old and the new one, and every other timestamp reads as before.
  pub insert-is_map_write :
      (ts : TimeSeries V) (t : ℕ) (v : V)
      → ts.unique ≡ true
      → IsConsistent ts
      → (ts' : TimeSeries V) × (insert ts t v ≡ some ts')
        × IsConsistent ts'
        × ((j : ℕ)
            → value_at j ts'.entries ≡ (
                if j == t
                then some (merged ts.unique_merge t v (value_at t ts.entries))
                else value_at j ts.entries))
  insert-is_map_write ts t v u c =
      let ordered : IsOrdered true ts.entries = subst (λ b. IsOrdered b ts.entries) u c in
      (
        record ts { entries = put ts.unique_merge t v ts.entries },
        insert-eq-put ts t v u c,
        subst (λ b. IsOrdered b (put ts.unique_merge t v ts.entries)) (sym u)
            (put-IsOrdered ts.unique_merge t v ts.entries ordered),
        λ j. value_at-put ts.unique_merge t v j ts.entries ordered,
      )
