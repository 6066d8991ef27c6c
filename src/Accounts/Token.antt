-- ===== src/Accounts/Token.antt =====
-- apps/accounts/backend/users/token.js: the class `TokenInfo`. Times are in milliseconds, and so is
-- `duration`, which the code divides by 1000.
use bzd.Prelude.Text.{Text, codes}
use bzd.Prelude.{
  ℕ, ◌+◌, ◌*◌, ◌-◌, ◌≤◌, ◌<◌, ◌≡◌, refl, inl, inr, Bool-cases, Bool, false, Option, none, some,
  List, [], ◌∷◌, ltb, if◌then◌else◌, arith,
}
use bzd.Scopes.{Scopes, new_scopes}

pub record TokenInfo : Type 0 where
  pub name : Option Text
  pub scopes : Option (List Text)
  pub creation : Option ℕ
  pub expiration : ℕ
  pub rolling : Option Bool

-- `make`
unfoldable pub make : Text → List Text → ℕ → Bool → ℕ → TokenInfo
make identifier scopes timeout_s rolling now = record {
  name = some identifier;
  scopes = some scopes;
  creation = some now;
  expiration = now + timeout_s * 1000;
  rolling = some rolling;
}

-- An empty identifier counts as none.
unfoldable pub identifier : TokenInfo → Text
identifier token = elim token.name [
  | none ↦ codes "<no-id>"
  | some [] ↦ codes "<no-id>"
  | some (c ∷ s) ↦ c ∷ s
]

unfoldable pub is_rolling : TokenInfo → Bool
is_rolling token = elim token.rolling [ none ↦ false | some b ↦ b ]

unfoldable pub duration : TokenInfo → ℕ → ℕ
duration token now = token.expiration - now

unfoldable pub update_min_duration : TokenInfo → ℕ → ℕ → TokenInfo
unfolding duration
update_min_duration token min_duration now =
    if ltb (duration token now) (min_duration * 1000)
    then record token { expiration = now + min_duration * 1000 }
    else token

unfoldable pub is_expired : TokenInfo → ℕ → Bool
is_expired token now = ltb token.expiration now

unfoldable pub get_scopes : TokenInfo → Scopes
get_scopes token = new_scopes (elim token.scopes [ none ↦ [] | some l ↦ l ])

expiration_lem :
    (token : TokenInfo) (min_duration now : ℕ)
    → (update_min_duration token min_duration now).expiration ≡ (
        if ltb (token.expiration - now) (min_duration * 1000)
        then now + min_duration * 1000
        else token.expiration)
unfolding update_min_duration duration
expiration_lem token min_duration now =
    elim (Bool-cases (ltb (token.expiration - now) (min_duration * 1000))) [
      | inl e ↦ rw (e, update_min_duration) refl
      | inr e ↦ rw (e, update_min_duration) refl
    ]

-- `updateMinDuration` never takes time from a token: at no time is it expired at which it was not
-- before. For a positive minimal duration it is not expired up to that duration from now on. A token
-- that had that much left is not changed.
pub update_min_duration-is_expired :
    (token : TokenInfo) (min_duration now : ℕ)
    → ((t : ℕ)
        → is_expired token t ≡ false
        → is_expired (update_min_duration token min_duration now) t ≡ false)
      × ((t : ℕ)
          → 0 < min_duration
          → t ≤ now + min_duration * 1000
          → is_expired (update_min_duration token min_duration now) t ≡ false)
      × (min_duration * 1000 ≤ duration token now
          → update_min_duration token min_duration now ≡ token)
unfolding is_expired update_min_duration duration
update_min_duration-is_expired token min_duration now =
    let at = expiration_lem token min_duration now in
    (λ t h. rw at (ground arith), λ t h k. rw at (ground arith), λ h. ground arith)
