-- ===== src/TimeSeries/Fix.antt =====
-- `consistencyFix`: what it makes of entries in any order.
use mathlib.Core.List.{Perm, append_assoc}
use bzd.Prelude.{
  ℕ, zero, suc, ◌+◌, ◌<◌, ◌≡◌, refl, sym, ap, ◌∙◌, inl, inr, Bool, true, false, Option, none, some,
  List, [], ◌∷◌, ◌++◌, arith, ◌==◌, if◌then◌else◌, length, length-append, erase_idx, Bool-cases,
  ==_iff,
}
use bzd.TimeSeries.{
  Entry, TimeSeries, sort, merge_from, delete_all, merge_same, consistency_check, consistency_fix,
}
use bzd.TimeSeries.Order.{IsOrdered, IsConsistent}
use bzd.TimeSeries.Insert.{value_at}
use bzd.TimeSeries.Consistency.{
  After, sort-perm, sort-IsOrdered, sort-eq_self, consistency_check_iff,
}

module _ {ℓ} {V : Type ℓ} where
  erase_idx-middle :
      (pre : List (Entry V)) (e : Entry V) (l : List (Entry V)) (k : ℕ)
      → length pre ≡ k
      → erase_idx ((pre ++ e ∷ []) ++ l) k ≡ pre ++ l
  erase_idx-middle [] e l zero h = refl
  erase_idx-middle [] e l (suc k) h = absurd (omega arith)
  erase_idx-middle (x ∷ pre) e l zero h = absurd (omega arith)
  erase_idx-middle (x ∷ pre) e l (suc k) h = ap (◌∷◌ x) (erase_idx-middle pre e l k (omega arith))

  All_lt_of_le :
      (c d : ℕ) (l : List (Entry V)) → c < d → After false (some d) l → After true (some c) l
  All_lt_of_le c d [] lt h = tt
  All_lt_of_le c d (x ∷ l) lt h = (omega arith, All_lt_of_le c d l lt h.1)

  module _ (merge : V → V → ℕ → V) where
    -- The merge in one pass, with nothing to delete.
    pub fuse : Entry V → List (Entry V) → List (Entry V)
    fuse e [] = e ∷ []
    fuse e (x ∷ rest) =
        let merged = fuse (x.0, merge x.1 e.1 x.0) rest in
        let kept = e ∷ fuse x rest in if e.0 == x.0 then merged else kept

    delete_all-eq-fuse :
        (pre : List (Entry V)) (k : ℕ) (e : Entry V) (rest : List (Entry V))
        → length pre ≡ k
        → delete_all (pre ++ (merge_from merge k e rest).0) (merge_from merge k e rest).1
          ≡ pre ++ fuse e rest
    unfolding merge_from fuse
    delete_all-eq-fuse pre k e [] h = refl
    delete_all-eq-fuse pre k e (x ∷ rest) h =
        let h' : length (pre ++ e ∷ []) ≡ k + 1 = omega (arith, length-append pre (e ∷ [])) in
        elim (Bool-cases (e.0 == x.0)) [
          | inl same ↦
              let m : Entry V = (x.0, merge x.1 e.1 x.0) in
              let r = merge_from merge (k + 1) m rest in
              rw same (
                ap (λ d. erase_idx (delete_all d r.1) k) (sym (append_assoc pre (e ∷ []) r.0))
                ∙ ap (λ d. erase_idx d k) (delete_all-eq-fuse (pre ++ e ∷ []) (k + 1) m rest h')
                ∙ erase_idx-middle pre e (fuse m rest) k h)
          | inr other ↦
              let r = merge_from merge (k + 1) x rest in
              rw other (
                ap (λ d. delete_all d r.1) (sym (append_assoc pre (e ∷ []) r.0))
                ∙ delete_all-eq-fuse (pre ++ e ∷ []) (k + 1) x rest h'
                ∙ append_assoc pre (e ∷ []) (fuse x rest))
        ]

    After-fuse :
        (c : ℕ) (e : Entry V) (rest : List (Entry V))
        → c < e.0
        → After true (some c) rest
        → After true (some c) (fuse e rest)
    unfolding fuse
    After-fuse c e [] lt h = (lt, tt)
    After-fuse c e (x ∷ rest) lt h = elim (Bool-cases (e.0 == x.0)) [
      | inl same ↦ rw same (After-fuse c (x.0, merge x.1 e.1 x.0) rest h.0 h.1)
      | inr other ↦ rw other (lt, After-fuse c x rest h.0 h.1)
    ]

    fuse-IsOrdered :
        (e : Entry V) (rest : List (Entry V))
        → IsOrdered false (e ∷ rest)
        → IsOrdered true (fuse e rest)
    unfolding fuse
    fuse-IsOrdered e [] o = (tt, tt)
    fuse-IsOrdered e (x ∷ rest) o = elim (Bool-cases (e.0 == x.0)) [
      | inl same ↦ rw same (fuse-IsOrdered (x.0, merge x.1 e.1 x.0) rest o.1)
      | inr other ↦
          let less : e.0 < x.0 = ground arith in
          rw other (
            (
              After-fuse e.0 x rest less (All_lt_of_le e.0 x.0 rest less o.1.0),
              fuse-IsOrdered x rest o.1,
            ))
    ]

    fuse-eq-cons :
        (e : Entry V) (rest : List (Entry V)) → IsOrdered true (e ∷ rest) → fuse e rest ≡ e ∷ rest
    unfolding fuse
    fuse-eq-cons e [] o = refl
    fuse-eq-cons e (x ∷ rest) o = ground (arith, fuse-eq-cons x rest o.1)

    -- All that the entries hold for the time `t`, from the oldest on, merged into what came before.
    pub gather : ℕ → Option V → List (Entry V) → Option V
    gather t old [] = old
    gather t old (e ∷ rest) =
        gather t (if e.0 == t then some (elim old [ none ↦ e.1 | some w ↦ merge e.1 w t ]) else old)
          rest

    gather-later :
        (t : ℕ) (old : Option V) (l : List (Entry V)) → After true (some t) l → gather t old l ≡ old
    unfolding gather
    gather-later t old [] h = refl
    gather-later t old (x ∷ l) h = ground (arith, gather-later t old l h.1)

    value_at-fuse :
        (t : ℕ) (e : Entry V) (rest : List (Entry V))
        → IsOrdered false (e ∷ rest)
        → value_at t (fuse e rest) ≡ gather t none (e ∷ rest)
    unfolding value_at gather fuse
    value_at-fuse t e [] o = ground arith
    value_at-fuse t e (x ∷ rest) o = elim (Bool-cases (e.0 == x.0)) [
      | inl same ↦
          let first : (e.0 == t) ≡ (x.0 == t) = ap (λ n. n == t) ((==_iff e.0 x.0).0 same) in
          let step = value_at-fuse t (x.0, merge x.1 e.1 x.0) rest o.1 in
          rw same (
            step ∙ elim (Bool-cases (x.0 == t)) [
              | inl here ↦
                  rw (first, here)
                    (ap (λ n. gather t (some (merge x.1 e.1 n)) rest) ((==_iff x.0 t).0 here))
              | inr there ↦ rw (first, there)
            ])
      | inr other ↦ elim (Bool-cases (e.0 == t)) [
        | inl here ↦
            let less : t < x.0 = ground arith in
            rw (other, here)
              (sym
                (gather-later t (some e.1) (x ∷ rest) (less, All_lt_of_le t x.0 rest less o.1.0)))
        | inr there ↦ rw (other, there) (value_at-fuse t x rest o.1)
      ]
    ]

  weaken : (l : List (Entry V)) → IsOrdered true l → IsOrdered false l
  weaken [] o = tt
  weaken (x ∷ l) o = (weaken_after x.0 l o.0, weaken l o.1)
    where
      weaken_after : (c : ℕ) (l : List (Entry V)) → After true (some c) l → After false (some c) l
      weaken_after c [] h = tt
      weaken_after c (y ∷ l) h = (omega arith, weaken_after c l h.1)

  merge_same-eq-fuse :
      (merge : V → V → ℕ → V) (e : Entry V) (rest : List (Entry V))
      → merge_same merge (e ∷ rest) ≡ fuse merge e rest
  unfolding merge_same
  merge_same-eq-fuse merge e rest = delete_all-eq-fuse merge [] 0 e rest refl

  merge_same-IsOrdered :
      (merge : V → V → ℕ → V) (l : List (Entry V))
      → IsOrdered false l
      → IsOrdered true (merge_same merge l)
  merge_same-IsOrdered merge [] o = unfold merge_same in tt
  merge_same-IsOrdered merge (e ∷ rest) o = rw merge_same-eq-fuse (fuse-IsOrdered merge e rest o)

  value_at-merge_same :
      (merge : V → V → ℕ → V) (t : ℕ) (l : List (Entry V))
      → IsOrdered false l
      → value_at t (merge_same merge l) ≡ gather merge t none l
  value_at-merge_same merge t [] o = unfold merge_same value_at gather in refl
  value_at-merge_same merge t (e ∷ rest) o = rw merge_same-eq-fuse (value_at-fuse merge t e rest o)

  merge_same-eq_self :
      (merge : V → V → ℕ → V) (l : List (Entry V)) → IsOrdered true l → merge_same merge l ≡ l
  merge_same-eq_self merge [] o = unfold merge_same in refl
  merge_same-eq_self merge (e ∷ rest) o = rw merge_same-eq-fuse (fuse-eq-cons merge e rest o)

  consistency_fix-IsConsistent : (ts : TimeSeries V) → IsConsistent (consistency_fix ts)
  unfolding consistency_fix
  consistency_fix-IsConsistent ts = by_unique ts.unique
    where
      by_unique :
          (u : Bool)
          → IsOrdered u
              (if u then merge_same ts.unique_merge (sort ts.entries) else sort ts.entries)
      by_unique true =
          merge_same-IsOrdered ts.unique_merge (sort ts.entries) (sort-IsOrdered ts.entries)
      by_unique false = sort-IsOrdered ts.entries

  -- After `consistencyFix`, whatever the entries were, `consistencyCheck` returns true.
  pub consistency_check-consistency_fix :
      (ts : TimeSeries V) → consistency_check (consistency_fix ts) ≡ true
  consistency_check-consistency_fix ts =
      (consistency_check_iff (consistency_fix ts)).1 (consistency_fix-IsConsistent ts)

  -- `consistencyFix` loses nothing: where timestamps may repeat the entries are the same ones, each
  -- as often as before; where they are unique each timestamp reads as all its values, merged one
  -- after the other in the stable order of their timestamps.
  pub consistency_fix-keeps :
      (ts : TimeSeries V)
      → (ts.unique ≡ false → Perm (consistency_fix ts).entries ts.entries)
        × (ts.unique ≡ true
            → (t : ℕ)
            → value_at t (consistency_fix ts).entries
              ≡ gather ts.unique_merge t none (sort ts.entries))
  unfolding consistency_fix
  consistency_fix-keeps ts = (
    λ u. rw u (sort-perm ts.entries),
    λ u t.
        rw u (value_at-merge_same ts.unique_merge t (sort ts.entries) (sort-IsOrdered ts.entries)),
  )

  -- `consistencyFix` leaves the entries of a consistent series as they are.
  pub consistency_fix-eq_self :
      (ts : TimeSeries V) → IsConsistent ts → (consistency_fix ts).entries ≡ ts.entries
  unfolding consistency_fix
  consistency_fix-eq_self ts c = by_unique ts.unique c
    where
      by_unique :
          (u : Bool)
          → IsOrdered u ts.entries
          → (if u then merge_same ts.unique_merge (sort ts.entries) else sort ts.entries)
            ≡ ts.entries
      by_unique true o =
          rw (sort-eq_self ts.entries (weaken ts.entries o))
            (merge_same-eq_self ts.unique_merge ts.entries o)
      by_unique false o = sort-eq_self ts.entries o
