-- ===== src/Accounts/User/Tokens.antt =====
-- The tokens of the class `User`.
pub mod Laws
pub mod Rolling
use mathlib.Core.List.{foldl}
use bzd.Prelude.Map
use bzd.Prelude.Map.{Map}
use bzd.Prelude.Text.{Text, text_discrete}
use bzd.Prelude.{
  ℕ, Bool, true, false, not, Option, none, some, List, [], ◌∷◌, ◌++◌, take, if◌then◌else◌, ◌>>=◌,
}
use bzd.Scopes.{Scopes, check_valid, Check, passed}
use bzd.Accounts.Token
use bzd.Accounts.Token.{TokenInfo, identifier, is_expired}
use bzd.Accounts.User.{
  User, UserData, Change, tokens, token_added, token_removed, token_rolled, create_dummy, modify,
  get_or_empty, get_roles, get_scopes,
}

abbrev pub get_tokens : User → Map Text TokenInfo
get_tokens u = get_or_empty u.value.tokens

abbrev pub with_tokens : User → Map Text TokenInfo → User
with_tokens u map = record u { value = record (u.value) { tokens = some map } }

-- A hash as the log shows it.
abbrev pub start_of : Text → Text
start_of hash = take 16 hash

-- Exception.assertResult
abbrev pub assert_passed : Check → Option (Unit {0})
assert_passed check = elim check [ passed ↦ some tt | other ↦ none ]

unfoldable pub add_token : User → Text → TokenInfo → Option User
add_token u hash token = elim (Map.get text_discrete hash (get_tokens u)) [
  | some old ↦ none
  | none ↦ do
    scopes ← get_scopes u
    valid ← assert_passed (check_valid scopes (Token.get_scopes token).list)
    some (
        modify (with_tokens u (Map.set text_discrete hash token (get_tokens u)))
          (token_added (identifier token) (start_of hash)))
]

-- The loop of `setTokens`.
pub add_tokens : User → Map Text TokenInfo → Option User
unfolding add_token
add_tokens u [] = some u
add_tokens u ((hash, token) ∷ rest) = do v ← add_token u hash token; add_tokens v rest

-- The dummy has the roles of the user.
abbrev pub dummy_with_roles : User → ℕ → User
dummy_with_roles u now =
    let dummy = create_dummy now in
    record dummy { value = record (dummy.value) { roles = some (get_roles u) } }

unfoldable pub set_tokens : User → Map Text TokenInfo → ℕ → Option User
unfolding add_tokens
set_tokens u all now = do
  dummy ← add_tokens (dummy_with_roles u now) all
  some (record (with_tokens u (get_tokens dummy)) {
    modified = u.modified ++ tokens ∷ dummy.modified;
  })

unfoldable pub get_token : User → Text → Option TokenInfo
get_token u hash = Map.get text_discrete hash (get_tokens u)

unfoldable pub remove_token : User → Text → User
unfolding get_token
remove_token u hash = elim (get_token u hash) [
  | none ↦ u
  | some token ↦
      modify (with_tokens u (Map.delete text_discrete hash (get_tokens u)))
        (token_removed (identifier token) (start_of hash))
]

-- `sanitizedTokens`
unfoldable pub sanitized_tokens : User → ℕ → User
sanitized_tokens u now = with_tokens u (
    Map.collect text_discrete (λ hash token. if is_expired token now then none else some token) []
      (get_tokens u))

-- `rollToken` gives the token a new hash.
unfoldable pub roll_token : User → Text → Text → Option (User × TokenInfo)
unfolding get_token
roll_token u hash new_hash = elim (get_token u hash) [
  | none ↦ none
  | some token ↦ elim (get_token u new_hash) [
    | some other ↦ none
    | none ↦ some (
      modify
          (with_tokens u
            (Map.set text_discrete new_hash token (Map.delete text_discrete hash (get_tokens u))))
          (token_rolled (identifier token) (start_of hash) (start_of new_hash)),
      token,
    )
  ]
]
