-- ===== src/Accounts/PendingActions.antt =====
-- apps/accounts/backend/pending_actions/pending_actions.js: the class `PendingActions`, over the store
-- in memory. Times are in seconds. The code that is drawn, and the function that an action runs, are
-- arguments; a code is kept as the text of its number, as it is compared. `run` awaits the store between
-- its read and its write: `run_pending` is what follows the read, and `run` a call that no other call
-- comes between.
pub mod Attempts
use bzd.Prelude.Map
use bzd.Prelude.Map.{Map}
use bzd.Prelude.Text.{Text, text_discrete, same, same_refl}
use bzd.Prelude.{
  ℕ, zero, suc, ◌+◌, ◌≤◌, ◌<◌, ◌≡◌, ◌≢◌, refl, sym, ap, subst, ◌∙◌, ◌⊎◌, inl, inr, Bool, true,
  false, not, Option, none, some, List, [], ◌∷◌, ltb, leb, if◌then◌else◌, length, All, arith,
  Bool-cases, Option-cases,
}
use bzd.KeyValueStore.{Buckets, bucket_of, get_value, set_value, delete_value}
use bzd.KeyValueStore.Laws.{
  get_value-set_value, get_value-delete_value, set_value-IsDistinct, delete_value-IsDistinct,
}

pub record Action : Type 0 where
  pub timeout_s : ℕ
  pub max_attempts : ℕ

module _ (D : Type 0) where
  -- What the store has of an action; `payload` is its `data`.
  pub record Pending : Type 0 where
    pub code : Text
    pub timeout : ℕ
    pub attempt : ℕ
    pub payload : D

  -- What `run` returns; `failed` stands for the exception that the function of the action threw.
  pub data RunResult : Type 0 where
    invalid deleted activated failed : RunResult

  pub record PendingActions : Type 0 where
    pub actions : Map Text Action
    pub store : Buckets Pending

module _ {D : Type 0} where
  -- `create`; `none` is the failed assertion.
  unfoldable pub create : PendingActions D → Text → Text → D → Text → ℕ → Option (PendingActions D)
  create pa action_type uid payload code now = elim (Map.get text_discrete action_type pa.actions) [
    | none ↦ none
    | some action ↦
        let pending : Pending D = record {
          code = code;
          timeout = now + action.timeout_s;
          attempt = 0;
          payload = payload;
        } in
        some (record pa { store = (set_value pa.store action_type (some uid) uid pending).0 })
  ]

  -- `delete`, of a type that is there.
  unfoldable pub delete : PendingActions D → Text → Text → PendingActions D
  delete pa action_type uid = record pa { store = delete_value pa.store action_type uid }

  -- What `run` does with the action that it has read.
  unfoldable pub run_pending :
      PendingActions D
      → (Text → D → Bool)
      → Action
      → Text
      → Text
      → Pending D
      → Text
      → ℕ
      → PendingActions D × RunResult D
  unfolding delete
  run_pending pa run_action action action_type uid pending code now =
      let again : Pending D = record pending { attempt = pending.attempt + 1 } in
      if ltb pending.timeout now
      then (delete pa action_type uid, invalid)
      else if not (same pending.code code)
      then (if leb action.max_attempts (pending.attempt + 1)
          then (delete pa action_type uid, deleted)
          else (
            record pa { store = (set_value pa.store action_type (some uid) uid again).0 },
            invalid,
          ))
      else if run_action uid pending.payload
      then (delete pa action_type uid, activated)
      else (pa, failed)

  unfoldable pub run :
      PendingActions D
      → (Text → D → Bool)
      → Text
      → Text
      → Text
      → ℕ
      → Option (PendingActions D × RunResult D)
  unfolding run_pending
  run pa run_action action_type uid code now = elim (Map.get text_discrete action_type pa.actions) [
    | none ↦ none
    | some action ↦ some (elim (get_value pa.store action_type uid) [
      | none ↦ (pa, invalid)
      | some pending ↦ run_pending pa run_action action action_type uid pending code now
    ])
  ]

  -- The callback of `registerGarbageCollector` for one entry, and whether it deleted it.
  unfoldable pub collect_expired :
      PendingActions D → Text → Text → Pending D → ℕ → PendingActions D × Bool
  unfolding delete
  collect_expired pa action_type uid pending now =
      if ltb pending.timeout now then (delete pa action_type uid, true) else (pa, false)
