-- ===== src/Tests/Store.antt =====
-- Runs of the store in memory, its pages, and the pending actions over it.
use bzd.Prelude.Map
use bzd.Prelude.Map.{Map}
use bzd.Prelude.Text.{Text, codes, text_discrete}
use bzd.Prelude.{ℕ, suc, ◌≡◌, refl, Bool, true, none, some, List, [], ◌∷◌, length, arith}
use bzd.KeyValueStore.{
  Buckets, bucket_of, get_value, set_value, delete_value, list_values, update, dump, make_from_list,
  iterate, make_from_object,
}
use bzd.KeyValueStore.Pages.{iterate-make_from_list}
use bzd.Accounts.PendingActions.{
  Action, PendingActions, invalid, activated, Pending, create, run_pending, run, delete,
}
use bzd.Accounts.PendingActions.Attempts.{after_runs, run-is_limited}

program : Unit {0}
unfolding get_value set_value delete_value list_values update dump make_from_list make_from_object
    create run_pending run delete Map.get Map.set Map.delete text_discrete
program = tt

abbrev store : Buckets ℕ
store = (codes "b", (codes "y", 1) ∷ (codes "x", 2) ∷ []) ∷ []

runs :
    (get_value store (codes "b") (codes "x") ≡ some 2)
    × (get_value store (codes "c") (codes "x") ≡ none)
    × ((list_values store (codes "b") (record { page = 0; max = 1 })).items ≡ (codes "x", 2) ∷ [])
    × (dump store (codes "b") ≡ some ((codes "x", 2) ∷ (codes "y", 1) ∷ []))
    × (get_value (set_value store (codes "b") none (codes "u") 7).0 (codes "b") (codes "u") ≡ none)
    × (get_value (set_value store (codes "b") none (codes "u") 7).0 (codes "b") (codes "null")
        ≡ some 7)
unfolding program
runs = (refl, refl, refl, refl, refl, refl)

abbrev three : List ℕ
three = 1 ∷ 2 ∷ 3 ∷ []

iterate-make_from_list_example :
    iterate (suc (length three)) (make_from_list three) (record { page = 0; max = 2 }) ≡ some three
iterate-make_from_list_example = iterate-make_from_list three 2 (omega arith)

abbrev reset : Action
reset = record { timeout_s = 60; max_attempts = 2 }

abbrev actions : PendingActions ℕ
actions = record { actions = (codes "reset", reset) ∷ []; store = [] }

abbrev waiting : PendingActions ℕ
waiting = elim (create actions (codes "reset") (codes "ann") 5 (codes "123") 10) [
  | none ↦ actions
  | some pa ↦ pa
]

waits : create actions (codes "reset") (codes "ann") 5 (codes "123") 10 ≡ some waiting
unfolding program
waits = refl

known : Map.get text_discrete (codes "reset") actions.actions ≡ some reset
unfolding program
known = refl

none_stored : Map.IsDistinct text_discrete (bucket_of actions.store (codes "reset"))
unfolding program
none_stored = tt

abbrev guesses : List (Text × ℕ)
guesses = (codes "1", 11) ∷ (codes "0123", 12) ∷ []

abbrev always : Text → ℕ → Bool
always uid payload = true

activates :
    (elim (run waiting always (codes "reset") (codes "ann") (codes "123") 70) [
      | none ↦ none
      | some r ↦ some r.1
    ])
    ≡ some activated
unfolding program
activates = refl

abbrev first_read : Pending ℕ
first_read = record { code = codes "123"; timeout = 70; attempt = 0; payload = 5 }

-- Two calls that have both read the action before either of them writes count as one attempt.
overlapping :
    (get_value waiting.store (codes "reset") (codes "ann") ≡ some first_read)
    × (let one =
          (run_pending waiting always reset
            (codes "reset")
            (codes "ann")
            first_read
            (codes "1")
            11).0 in
        let two =
          (run_pending one always reset
            (codes "reset")
            (codes "ann")
            first_read
            (codes "2")
            12).0 in
        get_value two.store (codes "reset") (codes "ann")
        ≡ some (record first_read { attempt = 1 }))
unfolding program
overlapping = (refl, refl)

run-is_limited_example :
    run
      (after_runs always (codes "reset") (codes "ann") waiting guesses)
      always
      (codes "reset")
      (codes "ann")
      (codes "123")
      13
    ≡ some (after_runs always (codes "reset") (codes "ann") waiting guesses, invalid)
run-is_limited_example =
    run-is_limited always reset (codes "reset") (codes "ann") (codes "123") actions waiting 5 10
      guesses (codes "123") 13 known none_stored waits (refl, (refl, tt)) (omega arith)
      (omega arith)
