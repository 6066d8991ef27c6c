-- ===== src/TimeSeries/Search.antt =====
-- `find_`: the binary search ends, throws nothing, and finds the place of a timestamp.
use bzd.Prelude.{
  ℕ, zero, suc, ◌+◌, ◌-◌, ◌/◌, ◌≤◌, ◌<◌, ◌≡◌, ◌⊎◌, inl, inr, Bool, true, Option, some, List, arith,
  ltb, ◌==◌, Bool-cases, length, get_elem?, get_elem?-some, lt-length_of_get_elem?, sym, ap, ◌∙◌,
  dec_lt,
}
use bzd.TimeSeries.{Entry, TimeSeries, find_loop, find_, is_at}
use bzd.TimeSeries.Order.{IsOrdered, IsConsistent, le_of_Rises, IsOrdered-get_elem?}

module _ {ℓ} {V : Type ℓ} where
  -- `i` splits the entries into those before the time `t` and those after it.
  pub record IsPlace (entries : List (Entry V)) (t i : ℕ) : Type ℓ where
    pub bound : i ≤ length entries
    pub before : (j : ℕ) (e : Entry V) → get_elem? entries j ≡ some e → j < i → e.0 < t
    pub after : (j : ℕ) (e : Entry V) → get_elem? entries j ≡ some e → i ≤ j → t < e.0

  -- An index where the time `t` is, or else the place where it would go.
  abbrev pub IsFound : List (Entry V) → ℕ → ℕ → Type ℓ
  IsFound entries t i = (is_at entries i t ≡ true) ⊎ IsPlace entries t i

  -- The range `lo .. hi` of the loop: what lies outside is on the right side of `t`.
  record InRange (entries : List (Entry V)) (t lo hi : ℕ) : Type ℓ where
    before : (j : ℕ) (e : Entry V) → get_elem? entries j ≡ some e → j < lo → e.0 < t
    after : (j : ℕ) (e : Entry V) → get_elem? entries j ≡ some e → hi ≤ j → t < e.0

  module _ (u : Bool) (entries : List (Entry V)) (ordered : IsOrdered u entries) (t : ℕ) where
    InRange-right :
        (lo hi mid : ℕ) (e : Entry V)
        → get_elem? entries mid ≡ some e
        → e.0 < t
        → InRange entries t lo hi
        → InRange entries t (mid + 1) hi
    InRange-right lo hi mid e read less r = record {
      before = λ j f g lt. elim (dec_lt j mid) [
        | yes p ↦
            omega
              (arith, le_of_Rises u f.0 e.0 (IsOrdered-get_elem? u entries j mid ordered p g read))
        | no p ↦
            let same : j ≡ mid = omega arith in
            let e' : some f ≡ some e = sym g ∙ ap (get_elem? entries) same ∙ read in ground arith
      ];
      after = r.after;
    }

    InRange-left :
        (lo hi mid : ℕ) (e : Entry V)
        → get_elem? entries mid ≡ some e
        → t < e.0
        → InRange entries t lo hi
        → InRange entries t lo mid
    InRange-left lo hi mid e read more r = record {
      before = r.before;
      after = λ j f g le. elim (dec_lt mid j) [
        | yes p ↦
            omega
              (arith, le_of_Rises u e.0 f.0 (IsOrdered-get_elem? u entries mid j ordered p read g))
        | no p ↦
            let same : j ≡ mid = omega arith in
            let e' : some f ≡ some e = sym g ∙ ap (get_elem? entries) same ∙ read in ground arith
      ];
    }

  -- What the loop returns, for any entries, and for those in order.
  abbrev Answer : Bool → List (Entry V) → ℕ → ℕ → ℕ → Option ℕ → Type ℓ
  Answer u entries t lo hi result =
      (i : ℕ) × (result ≡ some i)
      × (i ≤ length entries)
      × (IsOrdered u entries → InRange entries t lo hi → IsFound entries t i)

  find_loop-Answer :
      (u : Bool) (fuel : ℕ) (entries : List (Entry V)) (t lo hi : ℕ)
      → hi ≤ length entries
      → lo ≤ hi
      → hi - lo < fuel
      → Answer u entries t lo hi (find_loop fuel entries t lo hi)
  unfolding find_loop
  find_loop-Answer u zero entries t lo hi bound le f = absurd (omega arith)
  find_loop-Answer u (suc fuel) entries t lo hi bound le f = elim (Bool-cases (ltb lo hi)) [
    | inl more ↦
        let mid = (lo + hi - 1) / 2 in
        let (e, read) = get_elem?-some entries mid (ground arith) in
        let below : mid < hi = ground arith in
        let lo_le : lo ≤ mid = ground arith in
        rw (more, read)
          (elim (Bool-cases (e.0 == t)) [
            | inl hit ↦ (mid, rw hit, omega arith, λ o r. inl (rw (read, is_at) hit))
            | inr miss ↦ rw miss (elim (Bool-cases (ltb e.0 t)) [
              | inl less ↦
                  let (i, found, b, placed) =
                    find_loop-Answer u fuel entries t (mid + 1) hi bound (omega arith)
                      (omega arith) in
                  (
                    i,
                    rw less found,
                    b,
                    λ o r. placed o (InRange-right u entries o t lo hi mid e read (ground arith) r),
                  )
              | inr more_or_same ↦
                  let (i, found, b, placed) =
                    find_loop-Answer u fuel entries t lo mid (omega arith) lo_le (omega arith) in
                  (
                    i,
                    rw more_or_same found,
                    b,
                    λ o r. placed o (InRange-left u entries o t lo hi mid e read (ground arith) r),
                  )
            ])
          ])
    | inr done ↦ (
      lo,
      rw done,
      omega arith,
      λ o r. inr (record {
        bound = omega arith;
        before = r.before;
        after = λ j e g le. r.after j e g (ground arith);
      }),
    )
  ]

  -- `find_` returns an index within the entries or just past them, whatever the entries are.
  pub find_-total :
      (ts : TimeSeries V) (t : ℕ) → (i : ℕ) × (find_ ts t ≡ some i) × (i ≤ length ts.entries)
  unfolding find_
  find_-total ts t =
      let (i, found, b, placed) =
        find_loop-Answer true (suc (length ts.entries)) ts.entries t 0 (length ts.entries)
          (omega arith) (omega arith) (omega arith) in
      (i, found, b)

  -- In a consistent series `find_` returns an index that holds the timestamp or, if it is in none,
  -- the index with all earlier entries before it and all later ones from it on.
  pub find_-IsFound :
      (ts : TimeSeries V) (t : ℕ)
      → IsConsistent ts
      → (i : ℕ) × (find_ ts t ≡ some i) × (i ≤ length ts.entries) × IsFound ts.entries t i
  unfolding find_
  find_-IsFound ts t ordered =
      let (i, found, b, placed) =
        find_loop-Answer ts.unique (suc (length ts.entries)) ts.entries t 0 (length ts.entries)
          (omega arith) (omega arith) (omega arith) in
      (
        i,
        found,
        b,
        placed ordered (record {
          before = λ j e g lt. absurd (omega arith);
          after = λ j e g le. absurd (omega (arith, lt-length_of_get_elem? ts.entries j g));
        }),
      )
