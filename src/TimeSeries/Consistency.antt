-- ===== src/TimeSeries/Consistency.antt =====
-- `consistencyCheck` decides the order, and `consistencyFix` restores it.
use mathlib.Core.List.{Perm}
use mathlib.Core.List.Perm
use bzd.Prelude.{
  ℕ, ◌≤◌, ◌<◌, ◌≡◌, refl, ◌↔◌, inl, inr, Bool, true, false, Option, none, some, List, [], ◌∷◌,
  arith, leb, All, Bool-cases,
}
use bzd.TimeSeries.{Entry, TimeSeries, check_from, consistency_check, sort_insert, sort}
use bzd.TimeSeries.Order.{Rises, Rises-trans, IsOrdered, IsConsistent}

module _ {ℓ} {V : Type ℓ} where
  abbrev pub After : Bool → Option ℕ → List (Entry V) → Type 0
  After u none l = Unit
  After u (some c) l = All (λ (f : Entry V). Rises u c f.0) l

  pub After-trans :
      (u : Bool) (c d : ℕ) (l : List (Entry V))
      → Rises u c d
      → After u (some d) l
      → After u (some c) l
  After-trans u c d [] r h = tt
  After-trans u c d (x ∷ l) r h = (Rises-trans u c d x.0 r h.0, After-trans u c d l r h.1)

  check_from→ :
      (u : Bool) (c : Option ℕ) (l : List (Entry V))
      → check_from u c l ≡ true
      → After u c l × IsOrdered u l
  unfolding check_from
  check_from→ u none [] h = (tt, tt)
  check_from→ u (some c) [] h = (tt, tt)
  check_from→ u none (e ∷ rest) h = let r = check_from→ u (some e.0) rest h in (tt, r)
  check_from→ true (some c) (e ∷ rest) h =
      let r = check_from→ true (some e.0) rest (ground arith) in
      let rise : c < e.0 = ground arith in ((rise, After-trans true c e.0 rest rise r.0), r)
  check_from→ false (some c) (e ∷ rest) h =
      let r = check_from→ false (some e.0) rest (ground arith) in
      let rise : c ≤ e.0 = ground arith in ((rise, After-trans false c e.0 rest rise r.0), r)

  check_from← :
      (u : Bool) (c : Option ℕ) (l : List (Entry V))
      → After u c l
      → IsOrdered u l
      → check_from u c l ≡ true
  unfolding check_from
  check_from← u none [] a o = refl
  check_from← u (some c) [] a o = refl
  check_from← u none (e ∷ rest) a o = check_from← u (some e.0) rest o.0 o.1
  check_from← true (some c) (e ∷ rest) a o =
      ground (arith, check_from← true (some e.0) rest o.0 o.1)
  check_from← false (some c) (e ∷ rest) a o =
      ground (arith, check_from← false (some e.0) rest o.0 o.1)

  -- `consistencyCheck` returns true exactly for the consistent series: each timestamp rises above
  -- all earlier ones, strictly if they are unique.
  pub consistency_check_iff : (ts : TimeSeries V) → (consistency_check ts ≡ true) ↔ IsConsistent ts
  unfolding consistency_check
  consistency_check_iff ts = (
    λ h. (check_from→ ts.unique none ts.entries h).1,
    λ o. check_from← ts.unique none ts.entries tt o,
  )

  sort_insert-perm : (e : Entry V) (l : List (Entry V)) → Perm (sort_insert e l) (e ∷ l)
  unfolding sort_insert
  sort_insert-perm e [] = Perm.refl (e ∷ [])
  sort_insert-perm e (x ∷ l) = elim (Bool-cases (leb e.0 x.0)) [
    | inl le ↦ rw le (Perm.refl (e ∷ x ∷ l))
    | inr gt ↦ rw gt (Perm.trans (Perm.cons x (sort_insert-perm e l)) (Perm.swap e x l))
  ]

  pub sort-perm : (l : List (Entry V)) → Perm (sort l) l
  unfolding sort
  sort-perm [] = Perm.refl []
  sort-perm (e ∷ l) = Perm.trans (sort_insert-perm e (sort l)) (Perm.cons e (sort-perm l))

  All-sort_insert :
      (c : ℕ) (e : Entry V) (l : List (Entry V))
      → c ≤ e.0
      → After false (some c) l
      → After false (some c) (sort_insert e l)
  unfolding sort_insert
  All-sort_insert c e [] le h = (le, tt)
  All-sort_insert c e (x ∷ l) le h = elim (Bool-cases (leb e.0 x.0)) [
    | inl p ↦ rw p (le, h)
    | inr p ↦ rw p (h.0, All-sort_insert c e l le h.1)
  ]

  sort_insert-IsOrdered :
      (e : Entry V) (l : List (Entry V)) → IsOrdered false l → IsOrdered false (sort_insert e l)
  unfolding sort_insert
  sort_insert-IsOrdered e [] o = (tt, tt)
  sort_insert-IsOrdered e (x ∷ l) o = elim (Bool-cases (leb e.0 x.0)) [
    | inl p ↦
        let le : e.0 ≤ x.0 = ground arith in rw p ((le, After-trans false e.0 x.0 l le o.0), o)
    | inr p ↦ rw p (All-sort_insert x.0 e l (ground arith) o.0, sort_insert-IsOrdered e l o.1)
  ]

  pub sort-IsOrdered : (l : List (Entry V)) → IsOrdered false (sort l)
  unfolding sort
  sort-IsOrdered [] = tt
  sort-IsOrdered (e ∷ l) = sort_insert-IsOrdered e (sort l) (sort-IsOrdered l)

  sort_insert-eq-cons :
      (e : Entry V) (l : List (Entry V)) → After false (some e.0) l → sort_insert e l ≡ e ∷ l
  unfolding sort_insert
  sort_insert-eq-cons e [] h = refl
  sort_insert-eq-cons e (x ∷ l) h = ground arith

  pub sort-eq_self : (l : List (Entry V)) → IsOrdered false l → sort l ≡ l
  unfolding sort
  sort-eq_self [] o = refl
  sort-eq_self (e ∷ l) o = rw (sort-eq_self l o.1) (sort_insert-eq-cons e l o.0)
