-- ===== src/Cache2/Collector/Sweeps.antt =====
-- The two loops of the garbage collector over one collection.
use mathlib.Core.List.{append_assoc, append-nil}
use mathlib.Core.Logic.{if_neg}
use bzd.Prelude.Map
use bzd.Prelude.Map.{Map, IsDistinct}
use bzd.Prelude.{
  ℕ, zero, suc, ◌+◌, ◌≤◌, ◌≡◌, refl, sym, ap, ◌∙◌, ◌⊎◌, inl, inr, not, none, [], ◌∷◌, ◌++◌, ltb,
  Bool-cases, filter_b, drop, arith,
}
use bzd.Cache2.{Entry, Collection, is_collectable}
use bzd.Cache2.Garbage.{drop_entry, Evicted, Sweep, sweep_expired, sweep_oldest, sweep}
use bzd.Cache2.Size.{total}

module _ {ℓ} {K V E : Type ℓ} (dec : Discrete K) where
  -- The entries that are not out of date, in their order.
  abbrev pub live : ℕ → Map K (Entry V E) → Map K (Entry V E)
  live now m = filter_b (λ p. not (is_collectable p.1.timeout now)) m

  total-append : (m n : Map K (Entry V E)) → total dec (m ++ n) ≡ total dec m + total dec n
  unfolding total
  total-append [] n = omega arith
  total-append ((k, e) ∷ m) n = omega (arith, total-append m n)

  -- From the sweep `s` to the sweep `r` nothing is lost: what leaves the collection leaves the
  -- cache, and is counted as evicted.
  pub record IsBalanced (s r : Sweep K V E) : Type ℓ where
    pub counted : r.size ≡ total dec r.values
    pub within : r.size ≤ r.all
    pub shrinks : r.size ≤ s.size
    pub all : r.all + s.size ≡ s.all + r.size
    pub evicted : r.evicted.size + r.size ≡ s.evicted.size + s.size

  sweep_expired-IsBalanced :
      (now : ℕ) (l : Map K (Entry V E)) (s : Sweep K V E)
      → s.size ≡ total dec s.values + total dec l
      → s.size ≤ s.all
      → IsBalanced s (sweep_expired now l s)
  unfolding sweep_expired total
  sweep_expired-IsBalanced now [] s h le = omega arith
  sweep_expired-IsBalanced now ((k, e) ∷ l) s h le =
      elim (Bool-cases (is_collectable e.timeout now)) [
        | inl old ↦
            let r = sweep_expired-IsBalanced now l (drop_entry e s) (omega arith) (omega arith) in
            rw (old, sweep_expired)
              (omega (arith, r.counted, r.within, r.shrinks, r.all, r.evicted))
        | inr fresh ↦
            let r =
              sweep_expired-IsBalanced now l (record s { values = s.values ++ (k, e) ∷ [] })
                (omega (arith, total-append s.values ((k, e) ∷ []))) le in
            rw (fresh, sweep_expired)
              (omega (arith, r.counted, r.within, r.shrinks, r.all, r.evicted))
      ]

  values-sweep_expired :
      (now : ℕ) (l : Map K (Entry V E)) (s : Sweep K V E)
      → (sweep_expired now l s).values ≡ s.values ++ live now l
  unfolding sweep_expired
  values-sweep_expired now [] s = sym (append-nil s.values)
  values-sweep_expired now ((k, e) ∷ l) s = elim (Bool-cases (is_collectable e.timeout now)) [
    | inl old ↦ rw (old, sweep_expired) (values-sweep_expired now l (drop_entry e s))
    | inr fresh ↦
        rw (fresh, sweep_expired)
          (values-sweep_expired now l (record s { values = s.values ++ (k, e) ∷ [] })
            ∙ append_assoc s.values ((k, e) ∷ []) (live now l))
  ]

  sweep_oldest-IsBalanced :
      (max_size : ℕ) (l : Map K (Entry V E)) (s : Sweep K V E)
      → s.size ≡ total dec l
      → s.size ≤ s.all
      → IsBalanced s (sweep_oldest max_size l s)
  unfolding sweep_oldest total
  sweep_oldest-IsBalanced max_size [] s h le = omega arith
  sweep_oldest-IsBalanced max_size ((k, e) ∷ l) s h le = elim (Bool-cases (ltb max_size s.all)) [
    | inl over ↦
        let r = sweep_oldest-IsBalanced max_size l (drop_entry e s) (omega arith) (omega arith) in
        rw (over, sweep_oldest) (omega (arith, r.counted, r.within, r.shrinks, r.all, r.evicted))
    | inr fits ↦ rw (fits, sweep_oldest) (omega arith)
  ]

  -- The loop stops within the maximal size, or with no entry left.
  sweep_oldest-stops :
      (max_size : ℕ) (l : Map K (Entry V E)) (s : Sweep K V E)
      → ((sweep_oldest max_size l s).all ≤ max_size) ⊎ ((sweep_oldest max_size l s).values ≡ [])
  unfolding sweep_oldest
  sweep_oldest-stops max_size [] s = inr refl
  sweep_oldest-stops max_size ((k, e) ∷ l) s = elim (Bool-cases (ltb max_size s.all)) [
    | inl over ↦ rw (over, sweep_oldest) (sweep_oldest-stops max_size l (drop_entry e s))
    | inr fits ↦ rw (fits, sweep_oldest) (inl (ground arith))
  ]

  -- It drops entries from the front only, and none if the cache is within the maximal size.
  values-sweep_oldest :
      (max_size : ℕ) (l : Map K (Entry V E)) (s : Sweep K V E)
      → (n : ℕ) × ((sweep_oldest max_size l s).values ≡ drop n l) × (s.all ≤ max_size → n ≡ 0)
  unfolding sweep_oldest
  values-sweep_oldest max_size [] s = (0, refl, λ _. refl)
  values-sweep_oldest max_size ((k, e) ∷ l) s = elim (Bool-cases (ltb max_size s.all)) [
    | inl over ↦
        let (n, left, _) = values-sweep_oldest max_size l (drop_entry e s) in
        (suc n, rw (over, sweep_oldest) left, λ fits. absurd (ground arith))
    | inr fits ↦ (0, rw (fits, sweep_oldest), λ _. refl)
  ]

  total-live-le : (now : ℕ) (m : Map K (Entry V E)) → total dec (live now m) ≤ total dec m
  unfolding total
  total-live-le now [] = omega arith
  total-live-le now ((k, e) ∷ m) = elim (Bool-cases (is_collectable e.timeout now)) [
    | inl old ↦ rw old (omega (arith, total-live-le now m))
    | inr fresh ↦ rw fresh (omega (arith, total-live-le now m))
  ]

  -- One collection: nothing is lost, only the front of the live entries is dropped, and of these none
  -- if the cache was within the maximal size.
  pub record IsSwept (max_size now : ℕ) (d : Collection K V E) (all : ℕ) (evicted : Evicted)
      (r : Sweep K V E) : Type ℓ where
    pub counted : r.size ≡ total dec r.values
    pub within : r.size ≤ r.all
    pub shrinks : r.size ≤ d.size
    pub balance : r.all + d.size ≡ all + r.size
    pub evicted_size : r.evicted.size + r.size ≡ evicted.size + d.size
    pub stops : (r.all ≤ max_size) ⊎ (r.values ≡ [])
    pub kept : (n : ℕ) × (r.values ≡ drop n (live now d.values)) × (all ≤ max_size → n ≡ 0)

  pub sweep-IsSwept :
      (max_size now : ℕ) (d : Collection K V E) (all : ℕ) (evicted : Evicted)
      → d.size ≡ total dec d.values
      → d.size ≤ all
      → IsSwept max_size now d all evicted (sweep max_size now d all evicted)
  unfolding sweep
  sweep-IsSwept max_size now d all evicted counted le =
      let start : Sweep K V E = record {
        values = [];
        size = d.size;
        all = all;
        evicted = evicted;
      } in
      let s = sweep_expired now d.values start in
      let b = sweep_expired-IsBalanced now d.values start (unfold total in omega arith) le in
      let r = sweep_oldest-IsBalanced max_size s.values s b.counted b.within in
      let left = values-sweep_expired now d.values start in
      let (n, dropped, fits) = values-sweep_oldest max_size s.values s in
      record {
        counted = r.counted;
        within = r.within;
        shrinks = omega (arith, r.shrinks, b.shrinks);
        balance = omega (arith, b.all, r.all);
        evicted_size = omega (arith, b.evicted, r.evicted);
        stops = sweep_oldest-stops max_size s.values s;
        kept = (
          n,
          dropped ∙ ap (drop n) left,
          λ small.
              fits
                (omega (arith, b.all, b.counted, ap (total dec) left, total-live-le now d.values)),
        );
      }

  get-live :
      (k : K) (now : ℕ) (m : Map K (Entry V E))
      → Map.get dec k m ≡ none
      → Map.get dec k (live now m) ≡ none
  unfolding Map.get
  get-live k now [] h = refl
  get-live k now ((j, e) ∷ m) h = elim (dec j k) [
    | yes p ↦ absurd (ground arith)
    | no p ↦ elim (Bool-cases (is_collectable e.timeout now)) [
      | inl old ↦ rw old (get-live k now m (ground arith))
      | inr fresh ↦ rw fresh (if_neg (dec j k) p _ _ ∙ get-live k now m (ground arith))
    ]
  ]

  live-IsDistinct :
      (now : ℕ) (m : Map K (Entry V E)) → IsDistinct dec m → IsDistinct dec (live now m)
  live-IsDistinct now [] d = tt
  live-IsDistinct now ((k, e) ∷ m) d = elim (Bool-cases (is_collectable e.timeout now)) [
    | inl old ↦ rw old (live-IsDistinct now m d.1)
    | inr fresh ↦ rw fresh (get-live k now m d.0, live-IsDistinct now m d.1)
  ]

  drop-IsDistinct : (n : ℕ) (m : Map K (Entry V E)) → IsDistinct dec m → IsDistinct dec (drop n m)
  drop-IsDistinct zero m d = d
  drop-IsDistinct (suc n) [] d = tt
  drop-IsDistinct (suc n) ((k, e) ∷ m) d = drop-IsDistinct n m d.1

  pub drop-live-IsDistinct :
      (n now : ℕ) (m : Map K (Entry V E)) → IsDistinct dec m → IsDistinct dec (drop n (live now m))
  drop-live-IsDistinct n now m d = drop-IsDistinct n (live now m) (live-IsDistinct now m d)
