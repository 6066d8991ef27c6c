-- ===== src/Cache2/Collector.antt =====
-- A pass of the garbage collector of nodejs/core/cache2.js over all collections: the sizes that it
-- leaves, and the entries that it keeps.
pub mod Sweeps
use mathlib.Core.Logic.{if_neg}
use bzd.Prelude.Map
use bzd.Prelude.Map.{Map, IsDistinct}
use bzd.Prelude.{
  ℕ, zero, suc, ◌+◌, ◌≤◌, ◌≡◌, refl, sym, subst, ap, ◌∙◌, ◌⊎◌, inl, inr, Option, none, some, List,
  [], ◌∷◌, drop, arith,
}
use bzd.Cache2.{Entry, Collection, Cache}
use bzd.Cache2.Garbage.{Evicted, Sweep, sweep, sweep_all, collect_garbage}
use bzd.Cache2.Size.{IsCounted, IsAccounted, AllCounted, total, total_collections}

-- The collections after a pass over some collections: the same names in the same order, each with
-- its live entries but for some at the front, and with all of them if `small` holds.
pub data AllKept {ℓ} {K V E : Type ℓ} (dec : Discrete K) (small : Type 0) (now : ℕ)
    : Map K (Collection K V E) → Map K (Collection K V E) → Type ℓ where
  nil : AllKept dec small now [] []
  cons :
      (k : K) (d d' : Collection K V E) {m m' : Map K (Collection K V E)} (n : ℕ)
      → d'.values ≡ drop n (Sweeps.live dec now d.values)
      → (small → n ≡ 0)
      → AllKept dec small now m m'
      → AllKept dec small now ((k, d) ∷ m) ((k, d') ∷ m')

module _ {ℓ} {K V E : Type ℓ} (dec : Discrete K) where
  get-AllKept :
      (small : Type 0) (now : ℕ) (k : K) {m m' : Map K (Collection K V E)}
      → AllKept dec small now m m'
      → Map.get dec k m ≡ none
      → Map.get dec k m' ≡ none
  unfolding Map.get
  get-AllKept small now k nil h = refl
  get-AllKept small now k (cons j d d' n same fits rest) h = elim (dec j k) [
    | yes p ↦ absurd (ground arith)
    | no p ↦ if_neg (dec j k) p _ _ ∙ get-AllKept small now k rest (ground arith)
  ]

  pub AllKept-IsDistinct :
      (small : Type 0) (now : ℕ) {m m' : Map K (Collection K V E)}
      → AllKept dec small now m m'
      → IsDistinct dec m
      → IsDistinct dec m'
  AllKept-IsDistinct small now nil d = tt
  AllKept-IsDistinct small now (cons k d d' n same fits rest) x =
      (get-AllKept small now k rest x.0, AllKept-IsDistinct small now rest x.1)

  -- A pass over the collections `m`, with `all` the size of the cache before it.
  record IsPassed (max_size now : ℕ) (m : Map K (Collection K V E)) (all : ℕ) (evicted : Evicted)
      (r : Map K (Collection K V E) × ℕ × Evicted) : Type ℓ where
    each : AllCounted dec r.0
    within : total_collections dec r.0 ≤ r.1
    shrinks : total_collections dec r.0 ≤ total_collections dec m
    balance : r.1 + total_collections dec m ≡ all + total_collections dec r.0
    evicted_size : r.2.size + total_collections dec r.0 ≡ evicted.size + total_collections dec m
    stops : (r.1 ≤ max_size) ⊎ (total_collections dec r.0 ≡ 0)

  sweep_all-IsPassed :
      (max_size now : ℕ) (m : Map K (Collection K V E)) (all : ℕ) (evicted : Evicted)
      → AllCounted dec m
      → total_collections dec m ≤ all
      → IsPassed max_size now m all evicted (sweep_all max_size now m all evicted)
  unfolding sweep_all total_collections total
  sweep_all-IsPassed max_size now [] all evicted a le = record {
    each = tt;
    within = omega arith;
    shrinks = omega arith;
    balance = refl;
    evicted_size = refl;
    stops = inr refl;
  }
  sweep_all-IsPassed max_size now ((k, d) ∷ m) all evicted a le =
      let s = sweep max_size now d all evicted in
      let w = Sweeps.sweep-IsSwept dec max_size now d all evicted a.0.counted (omega arith) in
      let r =
        sweep_all-IsPassed max_size now m s.all s.evicted a.1
          (omega (arith, w.balance, w.within)) in
      let (n, left, _) = w.kept in
      record {
        each = (
          record {
            counted = w.counted;
            distinct =
                subst (IsDistinct dec) (sym left)
                  (Sweeps.drop-live-IsDistinct dec n now d.values a.0.distinct);
          },
          r.each,
        );
        within = omega (arith, w.balance, w.within, r.within, r.balance);
        shrinks = omega (arith, w.shrinks, r.shrinks);
        balance = omega (arith, w.balance, r.balance);
        evicted_size = omega (arith, w.evicted_size, r.evicted_size);
        stops = elim w.stops [
          | inl fits ↦ inl (omega (arith, r.balance, r.shrinks))
          | inr empty ↦ elim r.stops [
            | inl fits ↦ inl fits
            | inr zero_size ↦ inr (omega (arith, w.counted, ap (total dec) empty))
          ]
        ];
      }

  sweep_all-AllKept :
      (small : Type 0) (max_size now : ℕ) (m : Map K (Collection K V E)) (all : ℕ)
      (evicted : Evicted)
      → (small → all ≤ max_size)
      → AllCounted dec m
      → total_collections dec m ≤ all
      → AllKept dec small now m (sweep_all max_size now m all evicted).0
  unfolding sweep_all total_collections
  sweep_all-AllKept small max_size now [] all evicted h a le = nil
  sweep_all-AllKept small max_size now ((k, d) ∷ m) all evicted h a le =
      let s = sweep max_size now d all evicted in
      let w = Sweeps.sweep-IsSwept dec max_size now d all evicted a.0.counted (omega arith) in
      let (n, left, fits) = w.kept in
      cons k d (record d { values = s.values; size = s.size }) n left (λ x. fits (h x))
        (sweep_all-AllKept small max_size now m s.all s.evicted
          (λ x. omega (arith, h x, w.balance, w.shrinks)) a.1 (omega (arith, w.balance, w.within)))

  -- After a pass of the garbage collector over a cache whose sizes are accounted for, the size is
  -- within the maximal size, the sizes are accounted for, and the size that was evicted is the
  -- difference of the two sizes.
  pub collect_garbage-is_bounded :
      (c : Cache K V E) (now : ℕ)
      → IsAccounted dec c
      → ((collect_garbage c now).0.size ≤ c.max_size)
        × IsAccounted dec (collect_garbage c now).0
        × ((collect_garbage c now).1.size + (collect_garbage c now).0.size ≡ c.size)
  unfolding collect_garbage
  collect_garbage-is_bounded c now a =
      let r =
        sweep_all-IsPassed c.max_size now c.collections c.size (record { count = 0; size = 0 })
          a.each (omega (arith, a.sum)) in
      let sum : (collect_garbage c now).0.size
          ≡ total_collections dec (collect_garbage c now).0.collections =
        omega (arith, r.balance, a.sum) in
      (
        elim r.stops [ inl fits ↦ fits | inr zero_size ↦ omega arith ],
        record {
          sum = sum;
          each = r.each;
          distinct =
              AllKept-IsDistinct ⊥ now
                (sweep_all-AllKept ⊥ c.max_size now c.collections c.size
                  (record { count = 0; size = 0 }) (λ x. absurd x) a.each (omega (arith, a.sum)))
                a.distinct;
        },
        omega (arith, r.evicted_size, a.sum),
      )

  -- A pass of the garbage collector over a cache whose sizes are accounted for keeps the collections,
  -- and in each the entries that are not out of date, in their order, but for some at the front; it
  -- keeps all of these if the cache was within its maximal size.
  pub collect_garbage-AllKept :
      (c : Cache K V E) (now : ℕ)
      → IsAccounted dec c
      → AllKept dec (c.size ≤ c.max_size) now c.collections (collect_garbage c now).0.collections
  unfolding collect_garbage
  collect_garbage-AllKept c now a =
      sweep_all-AllKept (c.size ≤ c.max_size) c.max_size now c.collections c.size
        (record { count = 0; size = 0 }) (λ x. x) a.each (omega (arith, a.sum))
