-- ===== src/TimeSeries/Repeats.antt =====
-- `insert` where timestamps may repeat: one more entry, in order.
use mathlib.Core.List.{Perm}
use mathlib.Core.List.Perm
use bzd.Prelude.{
  ℕ, zero, suc, ◌≤◌, ◌<◌, ◌≡◌, refl, subst, sym, inl, inr, false, some, List, [], ◌∷◌, arith,
  get_elem?, insert_idx, All, Option-cases,
}
use bzd.TimeSeries.{Entry, TimeSeries, insert}
use bzd.TimeSeries.Order.{IsOrdered, IsConsistent, le_by_index}
use bzd.TimeSeries.Search.{IsFound, find_-IsFound}

module _ {ℓ} {V : Type ℓ} where
  -- `i` is where the time `t` may be inserted among entries that may have the same time.
  record IsFit (l : List (Entry V)) (t i : ℕ) : Type ℓ where
    before : (j : ℕ) (e : Entry V) → get_elem? l j ≡ some e → j < i → e.0 ≤ t
    after : (j : ℕ) (e : Entry V) → get_elem? l j ≡ some e → i ≤ j → t ≤ e.0

  IsFound-IsFit : (l : List (Entry V)) (t i : ℕ) → IsOrdered false l → IsFound l t i → IsFit l t i
  IsFound-IsFit l t i o (inr p) = record {
    before = λ j e g lt. omega (arith, p.before j e g lt);
    after = λ j e g le. omega (arith, p.after j e g le);
  }
  IsFound-IsFit l t i o (inl hit) = elim (Option-cases (get_elem? l i)) [
    | inl gone ↦ absurd (ground arith)
    | inr (x, found) ↦
        let same : x.0 ≡ t = ground arith in
        record {
          before = λ j e g lt. omega (arith, le_by_index false l j i o (omega arith) g found);
          after = λ j e g le. omega (arith, le_by_index false l i j o le found g);
        }
  ]

  All-insert_idx :
      (s : ℕ) (l : List (Entry V)) (i : ℕ) (e : Entry V)
      → s ≤ e.0
      → All (λ (f : Entry V). s ≤ f.0) l
      → All (λ (f : Entry V). s ≤ f.0) (insert_idx l i e)
  All-insert_idx s l zero e le h = (le, h)
  All-insert_idx s [] (suc i) e le h = (le, tt)
  All-insert_idx s (x ∷ l) (suc i) e le h = (h.0, All-insert_idx s l i e le h.1)

  All-le_trans :
      (s t : ℕ) (l : List (Entry V))
      → s ≤ t
      → All (λ (f : Entry V). t ≤ f.0) l
      → All (λ (f : Entry V). s ≤ f.0) l
  All-le_trans s t [] le h = tt
  All-le_trans s t (x ∷ l) le h = (omega arith, All-le_trans s t l le h.1)

  insert_idx-IsOrdered :
      (l : List (Entry V)) (i : ℕ) (e : Entry V)
      → IsOrdered false l
      → IsFit l e.0 i
      → IsOrdered false (insert_idx l i e)
  insert_idx-IsOrdered [] zero e o f = (tt, tt)
  insert_idx-IsOrdered [] (suc i) e o f = (tt, tt)
  insert_idx-IsOrdered (x ∷ l) zero e o f = (
    (f.after 0 x refl (omega arith), All-le_trans e.0 x.0 l (f.after 0 x refl (omega arith)) o.0),
    o,
  )
  insert_idx-IsOrdered (x ∷ l) (suc i) e o f = (
    All-insert_idx x.0 l i e (f.before 0 x refl (omega arith)) o.0,
    insert_idx-IsOrdered l i e o.1 (record {
      before = λ j g h lt. f.before (suc j) g h (omega arith);
      after = λ j g h le. f.after (suc j) g h (omega arith);
    }),
  )

  insert_idx-perm : (l : List (Entry V)) (i : ℕ) (e : Entry V) → Perm (insert_idx l i e) (e ∷ l)
  insert_idx-perm l zero e = Perm.refl (e ∷ l)
  insert_idx-perm [] (suc i) e = Perm.refl (e ∷ [])
  insert_idx-perm (x ∷ l) (suc i) e =
      Perm.trans (Perm.cons x (insert_idx-perm l i e)) (Perm.swap e x l)

  -- `insert` into a consistent series whose timestamps may repeat throws nothing, keeps the series
  -- consistent, and its entries are the old ones and the new one, each as often as before.
  pub insert-adds_one :
      (ts : TimeSeries V) (t : ℕ) (v : V)
      → ts.unique ≡ false
      → IsConsistent ts
      → (ts' : TimeSeries V) × (insert ts t v ≡ some ts')
        × IsConsistent ts'
        × Perm ts'.entries ((t, v) ∷ ts.entries)
  unfolding insert
  insert-adds_one ts t v u c =
      let (i, found, b, placed) = find_-IsFound ts t c in
      let ordered : IsOrdered false ts.entries = subst (λ b. IsOrdered b ts.entries) u c in
      let fit = IsFound-IsFit ts.entries t i ordered placed in
      (
        record ts { entries = insert_idx ts.entries i (t, v) },
        rw found (ground arith),
        subst (λ b. IsOrdered b (insert_idx ts.entries i (t, v))) (sym u)
            (insert_idx-IsOrdered ts.entries i (t, v) ordered fit),
        insert_idx-perm ts.entries i (t, v),
      )
