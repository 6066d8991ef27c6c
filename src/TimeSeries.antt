-- ===== src/TimeSeries.antt =====
-- nodejs/core/timeseries.js: the class `TimeSeries`. Timestamps are natural numbers (milliseconds),
-- and -Number.MAX_VALUE, which lies before all of them, is `none`. A method that can throw returns
-- an `Option`, where `none` is the exception.
pub mod Order
pub mod Search
pub mod Modes
pub mod Insert
pub mod Repeats
pub mod Consistency
pub mod Fix
pub mod Scan
use mathlib.Core.List.{foldr}
use bzd.Prelude.Int.{ℤ, pos, negsuc, sub_ℕ, pos_part}
use bzd.Prelude.{
  ℕ, zero, suc, ◌+◌, ◌-◌, ◌/◌, Bool, true, false, not, ◌&&◌, Option, none, some, List, [], ◌∷◌, ltb,
  leb, ◌==◌, if◌then◌else◌, ◌>>=◌, length, get_elem?, set, insert_idx, erase_idx, drop,
}

abbrev pub Entry {ℓ} : Type ℓ → Type ℓ
Entry V = ℕ × V

-- `entries` is the field `data`.
pub record TimeSeries {ℓ} (V : Type ℓ) : Type ℓ where
  pub unique : Bool
  pub unique_merge : V → V → ℕ → V
  pub entries : List (Entry V)

-- FIND_EXACT_MACTH, FIND_IMMEDIATELY_BEFORE, FIND_IMMEDIATELY_AFTER
pub data Mode : Type 0 where
  exact before after : Mode

-- The `switch` of `find`, with `null` as `none`.
abbrev pub by_mode : Mode → ℕ → Option ℤ
by_mode exact index = none
by_mode before index = some (sub_ℕ index 1)
by_mode after index = some (pos index)

module _ {ℓ} {V : Type ℓ} where
  -- The loop of `find_`. `hi` is `indexEnd + 1`, which is never negative. A read out of range throws.
  pub find_loop : ℕ → List (Entry V) → ℕ → ℕ → ℕ → Option ℕ
  find_loop zero entries t lo hi = none
  find_loop (suc fuel) entries t lo hi =
      let mid = (lo + hi - 1) / 2 in
      let right = find_loop fuel entries t (mid + 1) hi in
      let left = find_loop fuel entries t lo mid in
      if ltb lo hi
      then (elim (get_elem? entries mid) [
        | none ↦ none
        | some e ↦ if e.0 == t then some mid else if ltb e.0 t then right else left
      ])
      else some lo

  -- `find_`: each round halves the range, so that its length is enough fuel.
  unfoldable pub find_ : TimeSeries V → ℕ → Option ℕ
  unfolding find_loop
  find_ ts t = find_loop (suc (length ts.entries)) ts.entries t 0 (length ts.entries)

  -- this.data[index][0] == timestamp, for an index that may be past the end
  abbrev pub is_at : List (Entry V) → ℕ → ℕ → Bool
  is_at entries index t = elim (get_elem? entries index) [ none ↦ false | some e ↦ e.0 == t ]

  -- The inner option is the `null` that the method returns.
  unfoldable pub find : TimeSeries V → ℕ → Mode → Option (Option ℤ)
  find ts t mode = do
    index ← find_ ts t
    some (if is_at ts.entries index t then some (pos index) else by_mode mode index)

  abbrev pub merge_at : (V → V → ℕ → V) → List (Entry V) → ℕ → ℕ → V → List (Entry V)
  merge_at merge entries index t v = elim (get_elem? entries index) [
    | none ↦ entries
    | some e ↦ set entries index (e.0, merge e.1 v t)
  ]

  unfoldable pub insert : TimeSeries V → ℕ → V → Option (TimeSeries V)
  insert ts t v = do
    index ← find_ ts t
    some (
        if ts.unique && is_at ts.entries index t
        then record ts { entries = merge_at ts.unique_merge ts.entries index t v }
        else record ts { entries = insert_idx ts.entries index (t, v) })

  -- `getTimestamp`
  unfoldable pub get_timestamp : TimeSeries V → ℤ → Option ℕ
  get_timestamp ts (pos i) = do e ← get_elem? ts.entries i; some e.0
  get_timestamp ts (negsuc n) =
      if leb (suc n) (length ts.entries)
      then (do e ← get_elem? ts.entries (length ts.entries - suc n); some e.0)
      else none

  -- `wrap`: the callback works on another array, and may throw, which its `Option` says. The array is
  -- changed in place, so it comes back beside the series, whose own data is restored in either case.
  unfoldable pub wrap {κ} :
      {R : Type κ}
      → TimeSeries V
      → List (Entry V)
      → (TimeSeries V → TimeSeries V × Option R)
      → TimeSeries V × List (Entry V) × Option R
  wrap ts entries callback =
      let (inner, result) = callback (record ts { entries = entries }) in
      (record inner { entries = ts.entries }, inner.entries, result)

  -- `consistencyCheck`, from the timestamp before
  pub check_from : Bool → Option ℕ → List (Entry V) → Bool
  check_from unique previous [] = true
  check_from unique none (e ∷ rest) = check_from unique (some e.0) rest
  check_from unique (some current) (e ∷ rest) =
      let next = check_from unique (some e.0) rest in
      if not unique && ltb e.0 current
      then false
      else if unique && leb e.0 current
      then false
      else next

  unfoldable pub consistency_check : TimeSeries V → Bool
  unfolding check_from
  consistency_check ts = check_from ts.unique none ts.entries

  -- `sort` of JavaScript is stable.
  pub sort_insert : Entry V → List (Entry V) → List (Entry V)
  sort_insert e [] = e ∷ []
  sort_insert e (x ∷ rest) = if leb e.0 x.0 then e ∷ x ∷ rest else x ∷ sort_insert e rest

  pub sort : List (Entry V) → List (Entry V)
  unfolding sort_insert
  sort [] = []
  sort (e ∷ rest) = sort_insert e (sort rest)

  -- The loop of `consistencyFix` from the entry `previous`, which has the index `k`: the entries
  -- with what was merged, and the list of the indices to delete.
  pub merge_from : (V → V → ℕ → V) → ℕ → Entry V → List (Entry V) → List (Entry V) × List ℕ
  merge_from merge k previous [] = (previous ∷ [], [])
  merge_from merge k previous (e ∷ rest) =
      let merged = merge_from merge (k + 1) (e.0, merge e.1 previous.1 e.0) rest in
      let kept = merge_from merge (k + 1) e rest in
      if previous.0 == e.0 then (previous ∷ merged.0, k ∷ merged.1) else (previous ∷ kept.0, kept.1)

  -- indexToDeleteList.reverse().forEach(splice): the last index first
  abbrev pub delete_all : List (Entry V) → List ℕ → List (Entry V)
  delete_all entries indices = foldr (λ i es. erase_idx es i) entries indices

  pub merge_same : (V → V → ℕ → V) → List (Entry V) → List (Entry V)
  unfolding merge_from
  merge_same merge [] = []
  merge_same merge (e ∷ rest) =
      let (entries, indices) = merge_from merge 0 e rest in delete_all entries indices

  unfoldable pub consistency_fix : TimeSeries V → TimeSeries V
  unfolding sort merge_same
  consistency_fix ts =
      let sorted = sort ts.entries in
      record ts { entries = if ts.unique then merge_same ts.unique_merge sorted else sorted }

-- The callback of `forEach` acts on a state, and answers `false` to stop.
module _ {ℓ κ} {V : Type ℓ} {S : Type κ} (callback : S → ℕ → V → S × Bool) where
  -- The loop of `forEach`; `previous` is `prevTimestamp`.
  pub visit : ℕ → ℕ → Bool → Option ℕ → List (Entry V) → S → S
  visit start end inclusive previous [] s = s
  visit start end inclusive previous (e ∷ rest) s =
      let at_start : Bool = elim previous [ none ↦ false | some p ↦ p == start ] in
      let next = visit start end inclusive (some e.0) rest (callback s e.0 e.1).0 in
      if ltb end e.0
      then (if not at_start && inclusive then (callback s e.0 e.1).0 else s)
      else if (callback s e.0 e.1).1
      then next
      else (callback s e.0 e.1).0

  unfoldable pub for_each : TimeSeries V → Option ℕ → Option ℕ → Bool → S → Option S
  unfolding visit
  for_each ts start? end? inclusive s = elim ts.entries [
    | [] ↦ some s
    | first ∷ rest ↦ do
      last ← get_timestamp ts (negsuc 0)
      let start : ℕ = elim start? [ none ↦ first.0 | some t ↦ t ]
      let end : ℕ = elim end? [ none ↦ last | some t ↦ t ]
      found ← find ts start (if inclusive then before else after)
      let index : ℕ = elim found [ none ↦ 0 | some i ↦ pos_part i ]
      some (visit start end inclusive none (drop index ts.entries) s)
  ]
