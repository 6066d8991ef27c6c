-- ===== src/Tests/TimeSeries.antt =====
-- Runs of nodejs/core/timeseries.js, with the data of its tests where it fits.
use mathlib.Core.List.{Perm}
use bzd.Prelude.Int.{pos, negsuc}
use bzd.Prelude.{
  ℕ, ◌+◌, ◌≤◌, ◌≡◌, refl, ◌↔◌, Bool, true, false, none, some, List, [], ◌∷◌, ◌&&◌, arith, ◌==◌, leb,
  if◌then◌else◌, length, filter_b,
}
use bzd.TimeSeries.{
  TimeSeries, find_, find, insert, get_timestamp, consistency_check, consistency_fix, sort,
  for_each,
}
use bzd.TimeSeries.Order.{IsConsistent}
use bzd.TimeSeries.Search.{IsFound, find_-IsFound}
use bzd.TimeSeries.Insert.{value_at, merged, insert-is_map_write}
use bzd.TimeSeries.Fix.{gather, consistency_check-consistency_fix, consistency_fix-keeps}
use bzd.TimeSeries.Consistency.{consistency_check_iff}
use bzd.TimeSeries.Scan.{run, for_each-eq-run}

abbrev add : ℕ → ℕ → ℕ → ℕ
add a b t = a + b

abbrev odds : TimeSeries ℕ
odds = record { unique = true; unique_merge = add; entries = (1, 10) ∷ (3, 30) ∷ (5, 50) ∷ [] }

abbrev repeats : TimeSeries ℕ
repeats = record { unique = false; unique_merge = add; entries = (1, 10) ∷ (1, 11) ∷ (5, 50) ∷ [] }

abbrev mixed : TimeSeries ℕ
mixed = record {
  unique = true;
  unique_merge = add;
  entries = (5, 1) ∷ (3, 1) ∷ (5, 2) ∷ (3, 4) ∷ [];
}

odds-IsConsistent : IsConsistent odds
odds-IsConsistent = omega arith

repeats-IsConsistent : IsConsistent repeats
repeats-IsConsistent = omega arith

find_-odds : (find_ odds 3 ≡ some 1) × (find_ odds 4 ≡ some 2) × (find_ odds 9 ≡ some 3)
unfolding find_
find_-odds = (refl, refl, refl)

insert-odds :
    (insert odds 4 40 ≡ some (record odds { entries = (1, 10) ∷ (3, 30) ∷ (4, 40) ∷ (5, 50) ∷ [] }))
    × (insert odds 3 5 ≡ some (record odds { entries = (1, 10) ∷ (3, 35) ∷ (5, 50) ∷ [] }))
unfolding insert find_
insert-odds = (refl, refl)

consistency_fix-mixed : (consistency_fix mixed).entries ≡ (3, 5) ∷ (5, 3) ∷ []
unfolding consistency_fix
consistency_fix-mixed = refl

get_timestamp-odds :
    (get_timestamp odds (pos 0) ≡ some 1)
    × (get_timestamp odds (negsuc 0) ≡ some 5)
    × (get_timestamp odds (pos 3) ≡ none)
unfolding get_timestamp
get_timestamp-odds = (refl, refl, refl)

-- The callback of the tests: it collects the timestamps.
abbrev collect : List ℕ → ℕ → ℕ → List ℕ × Bool
collect seen t v = (t ∷ seen, true)

for_each-odds :
    (for_each collect odds (some 2) none false [] ≡ some (5 ∷ 3 ∷ []))
    × (for_each collect odds (some 2) (some 4) true [] ≡ some (5 ∷ 3 ∷ 1 ∷ []))
unfolding for_each find get_timestamp find_
for_each-odds = (refl, refl)

-- Inclusive, with an end that is there: the entry after it is visited too.
for_each-past_end : for_each collect odds none (some 3) true [] ≡ some (5 ∷ 3 ∷ 1 ∷ [])
unfolding for_each find get_timestamp find_
for_each-past_end = refl

-- Where timestamps repeat, the search may start behind the first entry of the start time.
for_each-repeats :
    for_each (λ (seen : List ℕ) t v. (v ∷ seen, true)) repeats none none false []
    ≡ some (50 ∷ 11 ∷ [])
unfolding for_each find get_timestamp find_
for_each-repeats = refl

find_-IsFound_example :
    (i : ℕ) × (find_ odds 4 ≡ some i) × (i ≤ length odds.entries) × IsFound odds.entries 4 i
find_-IsFound_example = find_-IsFound odds 4 odds-IsConsistent

insert-is_map_write_example :
    (ts' : TimeSeries ℕ) × (insert odds 3 5 ≡ some ts')
    × IsConsistent ts'
    × ((j : ℕ)
        → value_at j ts'.entries ≡ (
            if j == 3
            then some (merged add 3 5 (value_at 3 odds.entries))
            else value_at j odds.entries))
insert-is_map_write_example = insert-is_map_write odds 3 5 refl odds-IsConsistent

for_each-eq-run_example :
    for_each collect odds (some 2) (some 4) false []
    ≡ some (run collect (filter_b (λ e. leb 2 e.0 && leb e.0 4) odds.entries) [])
for_each-eq-run_example = for_each-eq-run collect odds 2 4 [] refl odds-IsConsistent

consistency_check_iff_example : (consistency_check mixed ≡ true) ↔ IsConsistent mixed
consistency_check_iff_example = consistency_check_iff mixed

consistency_check-consistency_fix_example : consistency_check (consistency_fix mixed) ≡ true
consistency_check-consistency_fix_example = consistency_check-consistency_fix mixed

consistency_fix-keeps_example :
    (true ≡ false → Perm (consistency_fix mixed).entries mixed.entries)
    × (◌≡◌ {A = Bool} true true
        → (t : ℕ)
        → value_at t (consistency_fix mixed).entries ≡ gather add t none (sort mixed.entries))
consistency_fix-keeps_example = consistency_fix-keeps mixed
