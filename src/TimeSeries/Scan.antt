-- ===== src/TimeSeries/Scan.antt =====
-- `forEach` on unique timestamps visits a window of the series, until the callback stops it.
use mathlib.Core.Bool.{and-false}
use bzd.Prelude.Int.{negsuc}
use bzd.Prelude.{
  ℕ, zero, suc, ◌≤◌, ◌<◌, ◌≡◌, refl, sym, subst, ap, ◌∙◌, inl, inr, Bool, true, false, Option, some,
  none, List, [], ◌∷◌, arith, get_elem?, filter_b, drop, All, ltb, leb, ◌&&◌, Bool-cases,
  if◌then◌else◌,
}
use bzd.TimeSeries.{Entry, TimeSeries, get_timestamp, visit, for_each}
use bzd.TimeSeries.Order.{IsOrdered, IsConsistent}
use bzd.TimeSeries.Modes.{IsFrom, find-before_after, get_timestamp_ends}

module _ {ℓ} {V : Type ℓ} where
  All-IsFrom :
      (l : List (Entry V)) (t : ℕ)
      → ((j : ℕ) (e : Entry V) → get_elem? l j ≡ some e → t ≤ e.0)
      → filter_b (λ e. leb t e.0) l ≡ l
  All-IsFrom [] t h = refl
  All-IsFrom (x ∷ l) t h =
      let here : leb t x.0 ≡ true = ground (arith, h 0 x refl) in
      rw (here, All-IsFrom l t (λ j. h (suc j)))

  drop-eq-filter :
      (l : List (Entry V)) (t k : ℕ) → IsFrom l t k → drop k l ≡ filter_b (λ e. leb t e.0) l
  drop-eq-filter l t zero f = sym (All-IsFrom l t (λ j e g. f.later j e g (omega arith)))
  drop-eq-filter [] t (suc k) f = refl
  drop-eq-filter (x ∷ l) t (suc k) f =
      let here : leb t x.0 ≡ false = ground (arith, f.earlier 0 x refl) in
      rw here (
        drop-eq-filter l t k (record {
          earlier = λ j e g lt. f.earlier (suc j) e g (omega arith);
          later = λ j e g le. f.later (suc j) e g (omega arith);
        }))

  All-filter {μ} :
      (P : Entry V → Type μ) (p : Entry V → Bool) (l : List (Entry V))
      → All P l
      → All P (filter_b p l)
  All-filter P p [] h = tt
  All-filter P p (x ∷ l) h = elim (Bool-cases (p x)) [
    | inl kept ↦ rw kept (h.0, All-filter P p l h.1)
    | inr out ↦ rw out (All-filter P p l h.1)
  ]

  filter-IsOrdered :
      (p : Entry V → Bool) (l : List (Entry V)) → IsOrdered true l → IsOrdered true (filter_b p l)
  filter-IsOrdered p [] o = tt
  filter-IsOrdered p (x ∷ l) o = elim (Bool-cases (p x)) [
    | inl kept ↦ rw kept (All-filter (λ (f : Entry V). x.0 < f.0) p l o.0, filter-IsOrdered p l o.1)
    | inr out ↦ rw out (filter-IsOrdered p l o.1)
  ]

  filter-filter :
      (p q : Entry V → Bool) (l : List (Entry V))
      → filter_b q (filter_b p l) ≡ filter_b (λ e. p e && q e) l
  filter-filter p q [] = refl
  filter-filter p q (x ∷ l) = ground (arith, filter-filter p q l)

  filter-later :
      (end c : ℕ) (l : List (Entry V))
      → end < c
      → All (λ (f : Entry V). c < f.0) l
      → filter_b (λ e. leb e.0 end) l ≡ []
  filter-later end c [] lt h = refl
  filter-later end c (x ∷ l) lt h = ground (arith, filter-later end c l lt h.1)

module _ {ℓ κ} {V : Type ℓ} {S : Type κ} (callback : S → ℕ → V → S × Bool) where
  -- The callback on each entry in turn, up to the first that it answers `false` on.
  pub run : List (Entry V) → S → S
  run [] s = s
  run (e ∷ rest) s =
      let next = run rest (callback s e.0 e.1).0 in
      if (callback s e.0 e.1).1 then next else (callback s e.0 e.1).0

  visit-eq-run :
      (start end : ℕ) (previous : Option ℕ) (l : List (Entry V)) (s : S)
      → IsOrdered true l
      → visit callback start end false previous l s ≡ run (filter_b (λ e. leb e.0 end) l) s
  unfolding visit run
  visit-eq-run start end previous [] s o = refl
  visit-eq-run start end previous (e ∷ rest) s o = elim (Bool-cases (ltb end e.0)) [
    | inl past ↦
        let out : leb e.0 end ≡ false = ground arith in
        rw (past, out, filter-later end e.0 rest (ground arith) o.0) (rw and-false)
    | inr within ↦
        let inside : leb e.0 end ≡ true = ground arith in
        rw (within, inside, visit-eq-run start end (some e.0) rest (callback s e.0 e.1).0 o.1)
  ]

  module _ (u : Bool) (merge : V → V → ℕ → V) (e : Entry V) (rest : List (Entry V)) where
    abbrev filled : TimeSeries V
    filled = record { unique = u; unique_merge = merge; entries = e ∷ rest }

    newest : IsConsistent filled → (b : ℕ) × (get_timestamp filled (negsuc 0) ≡ some b)
    newest c = elim (get_timestamp_ends filled c) [
      | inl (no_entry, _, _) ↦ absurd (cc)
      | inr (_, b, _, last, _) ↦ (b, last)
    ]

    for_each-filled :
        (start end : ℕ) (s : S)
        → u ≡ true
        → IsConsistent filled
        → for_each callback filled (some start) (some end) false s
          ≡ some (run (filter_b (λ f. leb start f.0 && leb f.0 end) (e ∷ rest)) s)
    unfolding for_each
    for_each-filled start end s unique c =
        let (b, last) = newest c in
        let o : IsOrdered true (e ∷ rest) = subst (λ b. IsOrdered b (e ∷ rest)) unique c in
        let (k, at, _, from) = (find-before_after filled start unique c).1 in
        rw (last, at, drop-eq-filter (e ∷ rest) start k from)
          (ap some (
            visit-eq-run start end none (filter_b (λ f. leb start f.0) (e ∷ rest)) s
              (filter-IsOrdered (λ f. leb start f.0) (e ∷ rest) o)
            ∙ ap (λ l. run l s) (filter-filter (λ f. leb start f.0) (λ f. leb f.0 end) (e ∷ rest))))

  -- `forEach` between two timestamps, not inclusive, on a consistent series of unique timestamps:
  -- it throws nothing, and calls the callback on exactly the entries within both bounds, in order,
  -- up to the first one that it answers `false` on.
  pub for_each-eq-run :
      (ts : TimeSeries V) (start end : ℕ) (s : S)
      → ts.unique ≡ true
      → IsConsistent ts
      → for_each callback ts (some start) (some end) false s
        ≡ some (run (filter_b (λ e. leb start e.0 && leb e.0 end) ts.entries) s)
  unfolding for_each run
  for_each-eq-run ts start end s u c = by_entries ts.entries c
    where
      by_entries :
          (l : List (Entry V))
          → IsOrdered ts.unique l
          → for_each callback (record ts { entries = l }) (some start) (some end) false s
            ≡ some (run (filter_b (λ e. leb start e.0 && leb e.0 end) l) s)
      by_entries [] o = refl
      by_entries (e ∷ rest) o = for_each-filled ts.unique ts.unique_merge e rest start end s u o
