-- ===== src/Accounts/PendingActions/Attempts.antt =====
-- Calls of `run` with wrong codes, each after the end of the one before.
use mathlib.Core.List.{foldl}
use bzd.Prelude.Map
use bzd.Prelude.Map.{Map}
use bzd.Prelude.Text.{Text, text_discrete, same}
use bzd.Prelude.{
  ℕ, ◌+◌, ◌≤◌, ◌<◌, ◌≡◌, refl, sym, ap, subst, ◌∙◌, ◌⊎◌, inl, inr, Bool, false, none, some, List,
  [], ◌∷◌, ltb, leb, length, All, arith, Bool-cases,
}
use bzd.KeyValueStore.{bucket_of, get_value, set_value}
use bzd.KeyValueStore.Laws.{
  get_value-set_value, get_value-delete_value, set_value-IsDistinct, delete_value-IsDistinct,
}
use bzd.Accounts.PendingActions.{
  Action, Pending, invalid, PendingActions, create, delete, run_pending, run,
}

module _ {D : Type 0} (run_action : Text → D → Bool) (action_type uid : Text) where
  -- The state that a call of `run` leaves.
  abbrev pub after_run : PendingActions D → Text × ℕ → PendingActions D
  after_run pa (guess, now) = elim (run pa run_action action_type uid guess now) [
    | none ↦ pa
    | some r ↦ r.0
  ]

  -- The states that calls of `run` with wrong codes leave, each begun after the end of the one before.
  abbrev pub after_runs : PendingActions D → List (Text × ℕ) → PendingActions D
  after_runs pa guesses = foldl after_run pa guesses

module _ {D : Type 0} (run_action : Text → D → Bool) (action : Action)
    (action_type uid code : Text) where
  -- The state after `n` wrong attempts: the action is deleted, or waits with that many attempts.
  pub record IsAfter (n : ℕ) (pa : PendingActions D) : Type 0 where
    pub known : Map.get text_discrete action_type pa.actions ≡ some action
    pub distinct : Map.IsDistinct text_discrete (bucket_of pa.store action_type)
    pub left :
        (get_value pa.store action_type uid ≡ none)
        ⊎ ((pending : Pending D) × (get_value pa.store action_type uid ≡ some pending)
            × (pending.code ≡ code)
            × (pending.attempt ≡ n)
            × ((n ≡ 0) ⊎ (n < action.max_attempts)))

  delete-IsAfter :
      (n m : ℕ) (pa : PendingActions D) → IsAfter n pa → IsAfter m (delete pa action_type uid)
  unfolding delete
  delete-IsAfter n m pa a = record {
    known = a.known;
    distinct = delete_value-IsDistinct pa.store action_type uid a.distinct;
    left = inl (get_value-delete_value pa.store action_type uid a.distinct).0;
  }

  set-IsAfter :
      (m : ℕ) (pa : PendingActions D) (pending : Pending D)
      → Map.get text_discrete action_type pa.actions ≡ some action
      → Map.IsDistinct text_discrete (bucket_of pa.store action_type)
      → pending.code ≡ code
      → pending.attempt ≡ m
      → (m ≡ 0) ⊎ (m < action.max_attempts)
      → IsAfter m (record pa { store = (set_value pa.store action_type (some uid) uid pending).0 })
  set-IsAfter m pa pending known distinct c k small = record {
    known = known;
    distinct = set_value-IsDistinct pa.store action_type uid uid pending distinct;
    left = inr (pending, (get_value-set_value pa.store action_type uid uid pending).0, c, k, small);
  }

  run_pending-IsAfter :
      (n : ℕ) (pa : PendingActions D) (pending : Pending D) (guess : Text) (now : ℕ)
      → IsAfter n pa
      → pending.code ≡ code
      → pending.attempt ≡ n
      → same code guess ≡ false
      → IsAfter (n + 1) (run_pending pa run_action action action_type uid pending guess now).0
  unfolding run_pending
  run_pending-IsAfter n pa pending guess now a c k wrong =
      let off : same pending.code guess ≡ false = ap (λ x. same x guess) c ∙ wrong in
      elim (Bool-cases (ltb pending.timeout now)) [
        | inl late ↦ rw (late, run_pending) (delete-IsAfter n (n + 1) pa a)
        | inr timely ↦ elim (Bool-cases (leb action.max_attempts (pending.attempt + 1))) [
          | inl over ↦ rw (timely, run_pending, off, over) (delete-IsAfter n (n + 1) pa a)
          | inr under ↦
              rw (timely, run_pending, off, under)
                (set-IsAfter (n + 1) pa (record pending { attempt = pending.attempt + 1 }) a.known
                  a.distinct c (ap (λ x. x + 1) k) (inr (ground arith)))
        ]
      ]

  after_run-IsAfter :
      (n : ℕ) (pa : PendingActions D) (guess : Text) (now : ℕ)
      → IsAfter n pa
      → same code guess ≡ false
      → IsAfter (n + 1) (after_run run_action action_type uid pa (guess, now))
  unfolding run
  after_run-IsAfter n pa guess now a wrong = elim a.left [
    | inl gone ↦
        rw (a.known, after_run, run, gone)
          (record { known = a.known; distinct = a.distinct; left = inl gone })
    | inr (pending, there, c, k, small) ↦
        rw (a.known, after_run, run, there) (run_pending-IsAfter n pa pending guess now a c k wrong)
  ]

  after_runs-IsAfter :
      (guesses : List (Text × ℕ)) (n : ℕ) (pa : PendingActions D)
      → IsAfter n pa
      → All (λ (g : Text × ℕ). same code g.0 ≡ false) guesses
      → IsAfter (n + length guesses) (after_runs run_action action_type uid pa guesses)
  after_runs-IsAfter [] n pa a wrong = subst (λ k. IsAfter k pa) {x = n} (omega arith) a
  after_runs-IsAfter ((guess, now) ∷ guesses) n pa a wrong =
      subst
        (λ k. IsAfter k (
          after_runs run_action action_type uid
            (after_run run_action action_type uid pa (guess, now)) guesses))
        {x = n + 1 + length guesses} (omega arith)
        (after_runs-IsAfter guesses (n + 1) (after_run run_action action_type uid pa (guess, now))
          (after_run-IsAfter n pa guess now a wrong.0) wrong.1)

create-IsAfter :
    {D : Type 0} (run_action : Text → D → Bool) (action : Action) (action_type uid code : Text)
    (pa pa' : PendingActions D) (payload : D) (now : ℕ)
    → Map.get text_discrete action_type pa.actions ≡ some action
    → Map.IsDistinct text_discrete (bucket_of pa.store action_type)
    → create pa action_type uid payload code now ≡ some pa'
    → IsAfter run_action action action_type uid code 0 pa'
unfolding create
create-IsAfter {D} run_action action action_type uid code pa pa' payload now known distinct made =
    let entry : Pending D = record {
      code = code;
      timeout = now + action.timeout_s;
      attempt = 0;
      payload = payload;
    } in
    let stored : PendingActions D = record pa {
      store = (set_value pa.store action_type (some uid) uid entry).0;
    } in
    let created : create pa action_type uid payload code now ≡ some stored =
      rw (known, create) refl in
    let same_state : some stored ≡ some pa' = sym created ∙ made in
    subst (IsAfter run_action action action_type uid code 0) {x = stored} {y = pa'} (ground arith) (
      set-IsAfter run_action action action_type uid code 0 pa entry known distinct refl refl
        (inl refl))

-- A code can be guessed only so often, where no two calls of `run` overlap: after `create`, and then as
-- many calls of `run` with wrong codes as the action allows, one at least, each at any time after the
-- end of the one before, a call of `run` with any code, also the right one, finds nothing and runs
-- nothing.
pub run-is_limited :
    {D : Type 0} (run_action : Text → D → Bool) (action : Action) (action_type uid code : Text)
    (pa pa' : PendingActions D) (payload : D) (now : ℕ) (guesses : List (Text × ℕ)) (last : Text)
    (later : ℕ)
    → Map.get text_discrete action_type pa.actions ≡ some action
    → Map.IsDistinct text_discrete (bucket_of pa.store action_type)
    → create pa action_type uid payload code now ≡ some pa'
    → All (λ (g : Text × ℕ). same code g.0 ≡ false) guesses
    → action.max_attempts ≤ length guesses
    → 0 < length guesses
    → run (after_runs run_action action_type uid pa' guesses) run_action action_type uid last later
      ≡ some (after_runs run_action action_type uid pa' guesses, invalid)
unfolding run
run-is_limited {D} run_action action action_type uid code pa pa' payload now guesses last later
      known distinct made wrong enough some_guess =
    let end = after_runs run_action action_type uid pa' guesses in
    let first =
      create-IsAfter run_action action action_type uid code pa pa' payload now known distinct
        made in
    let after =
      after_runs-IsAfter run_action action action_type uid code guesses 0 pa' first wrong in
    elim after.left [
      | inl gone ↦ rw (after.known, run, gone) refl
      | inr (pending, there, c, k, small) ↦ elim small [
        | inl none_made ↦ absurd (omega (arith, none_made, some_guess))
        | inr under ↦ absurd (omega (arith, under, enough))
      ]
    ]
