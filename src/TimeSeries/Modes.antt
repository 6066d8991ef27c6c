-- ===== src/TimeSeries/Modes.antt =====
-- `find` in its modes, and `getTimestamp`.
use bzd.Prelude.Int.{pos, negsuc, sub_ℕ}
use bzd.Prelude.{
  ℕ, suc, ◌+◌, ◌-◌, ◌≤◌, ◌<◌, ◌≡◌, refl, subst, ◌⊎◌, inl, inr, true, some, none, List, [], ◌∷◌,
  arith, length, get_elem?, get_elem?-some, lt-length_of_get_elem?, Bool-cases, Option-cases,
  dec_lt, leb,
}
use bzd.TimeSeries.{Entry, TimeSeries, exact, before, after, is_at, find, get_timestamp}
use bzd.TimeSeries.Order.{IsOrdered, IsConsistent, le_by_index, IsOrdered-get_elem?}
use bzd.TimeSeries.Search.{find_-IsFound}

module _ {ℓ} {V : Type ℓ} where
  -- The entries before the index `k` are at most at the time `t`, and those from it on are later.
  pub record IsUpTo (entries : List (Entry V)) (t k : ℕ) : Type ℓ where
    pub earlier : (j : ℕ) (e : Entry V) → get_elem? entries j ≡ some e → j < k → e.0 ≤ t
    pub later : (j : ℕ) (e : Entry V) → get_elem? entries j ≡ some e → k ≤ j → t < e.0

  -- The entries before the index `k` are earlier than `t`, and those from it on are not.
  pub record IsFrom (entries : List (Entry V)) (t k : ℕ) : Type ℓ where
    pub earlier : (j : ℕ) (e : Entry V) → get_elem? entries j ≡ some e → j < k → e.0 < t
    pub later : (j : ℕ) (e : Entry V) → get_elem? entries j ≡ some e → k ≤ j → t ≤ e.0

  module _ (l : List (Entry V)) (o : IsOrdered true l) (t i : ℕ) (e : Entry V)
      (found : get_elem? l i ≡ some e) (same : e.0 ≡ t) where
    hit-IsUpTo : IsUpTo l t (i + 1)
    hit-IsUpTo = record {
      earlier = λ j f g lt. omega (arith, le_by_index true l j i o (omega arith) g found);
      later = λ j f g le. omega (arith, IsOrdered-get_elem? true l i j o (omega arith) found g);
    }

    hit-IsFrom : IsFrom l t i
    hit-IsFrom = record {
      earlier = λ j f g lt. omega (arith, IsOrdered-get_elem? true l j i o lt g found);
      later = λ j f g le. omega (arith, le_by_index true l i j o le found g);
    }

  -- In a consistent series of unique timestamps the mode BEFORE returns the index of the last entry
  -- that is not later than the timestamp, -1 if there is none, and the mode AFTER that of the
  -- first entry that is not earlier, the length if there is none.
  pub find-before_after :
      (ts : TimeSeries V) (t : ℕ)
      → ts.unique ≡ true
      → IsConsistent ts
      → ((k : ℕ) × (find ts t before ≡ some (some (sub_ℕ k 1)))
          × (k ≤ length ts.entries)
          × IsUpTo ts.entries t k)
        × ((k : ℕ) × (find ts t after ≡ some (some (pos k)))
            × (k ≤ length ts.entries)
            × IsFrom ts.entries t k)
  unfolding find
  find-before_after ts t u c =
      let (i, at, b, placed) = find_-IsFound ts t c in
      let o : IsOrdered true ts.entries = subst (λ b. IsOrdered b ts.entries) u c in
      elim (Bool-cases (is_at ts.entries i t)) [
        | inl hit ↦ elim (Option-cases (get_elem? ts.entries i)) [
          | inl gone ↦ absurd (ground arith)
          | inr (e, found) ↦
              let same : e.0 ≡ t = ground arith in
              (
                (
                  i + 1,
                  rw (at, hit) (ground arith),
                  omega (arith, lt-length_of_get_elem? ts.entries i found),
                  hit-IsUpTo ts.entries o t i e found same,
                ),
                (i, rw (at, hit), b, hit-IsFrom ts.entries o t i e found same),
              )
        ]
        | inr miss ↦ elim placed [
          | inl hit ↦ absurd (ground arith)
          | inr p ↦ (
            (
              i,
              rw (at, miss),
              b,
              record { earlier = λ j e g lt. omega (arith, p.before j e g lt); later = p.after },
            ),
            (
              i,
              rw (at, miss),
              b,
              record { earlier = p.before; later = λ j e g le. omega (arith, p.after j e g le) },
            ),
          )
        ]
      ]

  -- In a consistent series an exact search returns the index of an entry with the timestamp, and
  -- `null` exactly if no entry has it.
  pub find-exact :
      (ts : TimeSeries V) (t : ℕ)
      → IsConsistent ts
      → ((i : ℕ) × (v : V) × (find ts t exact ≡ some (some (pos i)))
          × (get_elem? ts.entries i ≡ some (t, v)))
        ⊎ ((find ts t exact ≡ some none)
            × ((j : ℕ) (e : Entry V) → get_elem? ts.entries j ≡ some e → e.0 ≡ t → ⊥))
  unfolding find
  find-exact ts t c =
      let (i, at, b, placed) = find_-IsFound ts t c in
      elim (Bool-cases (is_at ts.entries i t)) [
        | inl hit ↦ elim (Option-cases (get_elem? ts.entries i)) [
          | inl gone ↦ absurd (ground arith)
          | inr (e, found) ↦ inl (i, e.1, rw (at, hit), ground arith)
        ]
        | inr miss ↦ elim placed [
          | inl hit ↦ absurd (ground arith)
          | inr p ↦ inr (
            rw (at, miss),
            λ j e g same. elim (dec_lt j i) [
              | yes lt ↦ absurd (omega (arith, p.before j e g lt))
              | no ge ↦ absurd (omega (arith, p.after j e g (omega arith)))
            ],
          )
        ]
      ]

  -- `getTimestamp(0)` is the oldest timestamp of a consistent series, and `getTimestamp(-1)` the
  -- newest; both are `null` exactly if the series is empty.
  pub get_timestamp_ends :
      (ts : TimeSeries V)
      → IsConsistent ts
      → ((ts.entries ≡ [])
          × (get_timestamp ts (pos 0) ≡ none)
          × (get_timestamp ts (negsuc 0) ≡ none))
        ⊎ ((a b : ℕ) × (get_timestamp ts (pos 0) ≡ some a)
            × (get_timestamp ts (negsuc 0) ≡ some b)
            × ((j : ℕ) (e : Entry V) → get_elem? ts.entries j ≡ some e → (a ≤ e.0) × (e.0 ≤ b)))
  unfolding get_timestamp
  get_timestamp_ends ts c = ends ts.entries c
    where
      ends :
          (l : List (Entry V))
          → IsOrdered ts.unique l
          → ((l ≡ [])
              × (get_timestamp (record ts { entries = l }) (pos 0) ≡ none)
              × (get_timestamp (record ts { entries = l }) (negsuc 0) ≡ none))
            ⊎ ((a b : ℕ) × (get_timestamp (record ts { entries = l }) (pos 0) ≡ some a)
                × (get_timestamp (record ts { entries = l }) (negsuc 0) ≡ some b)
                × ((j : ℕ) (e : Entry V) → get_elem? l j ≡ some e → (a ≤ e.0) × (e.0 ≤ b)))
      ends [] o = inl (refl, refl, refl)
      ends (x ∷ l) o =
          let n = length l in
          let (z, found) = get_elem?-some (x ∷ l) n (omega arith) in
          let idx : suc n - 1 ≡ n = omega arith in
          let test : leb 1 (suc n) ≡ true = ground arith in
          inr (
            x.0,
            z.0,
            refl,
            rw (test, idx, found),
            λ j e g. (
              le_by_index ts.unique (x ∷ l) 0 j o (omega arith) refl g,
              le_by_index ts.unique (x ∷ l) j n o
                  (omega (arith, lt-length_of_get_elem? (x ∷ l) j g)) g found,
            ),
          )
