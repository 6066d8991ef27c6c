-- ===== src/Accounts/User.antt =====
-- apps/accounts/backend/users/user.js: the class `User`. The current time is an argument. A method
-- that can throw returns an `Option`; what it changed before it threw is lost, as in `Users.update`,
-- which stores a user only if its callback returned.
pub mod Tokens
pub mod Subscriptions
pub mod Reset
pub mod Rights
use bzd.Prelude.Map
use bzd.Prelude.Map.{Map}
use bzd.Prelude.Text.{codes, Text, text_discrete, same, includes}
use bzd.Prelude.{
  ℕ, zero, suc, ◌+◌, Bool, true, false, not, Option, none, some, List, [], ◌∷◌, ◌++◌, ltb,
  if◌then◌else◌, ◌>>=◌,
}
use bzd.Scopes.{Scopes, contains, check_valid, Check, passed}
use bzd.Accounts.Subscription as Subscription
use bzd.Accounts.Subscription.{Subscription}
use bzd.Accounts.Token.{TokenInfo, identifier, is_expired}
use bzd.Accounts.Token as Token
use bzd.Accounts.Roles as Roles

-- The entries of `modified`, which the code writes as texts.
pub data Change : Type 0 where
  last_login last_failed_login last_password_reset password password_reset : Change
  role_added : Text → Change
  roles subscriptions tokens : Change
  subscription_added recurring_stopped : Text → Change
  token_added token_removed : Text → Text → Change
  token_rolled : Text → Text → Text → Change

pub record PasswordReset : Type 0 where
  pub hash : Text
  pub expiration : ℕ

-- `value`; an attribute that may be missing is an `Option`.
pub record UserData : Type 0 where
  pub creation : ℕ
  pub email : Text
  pub password : Option Text
  pub last_login : Option ℕ
  pub last_failed_login : Option ℕ
  pub last_password_reset : Option ℕ
  pub password_reset : Option PasswordReset
  pub roles : Option (List Text)
  pub payments : Option (List Text)
  pub subscriptions : Option (Map Text Subscription)
  pub tokens : Option (Map Text TokenInfo)

pub record User : Type 0 where
  pub uid : Text
  pub value : UserData
  pub modified : List Change

-- The functions of third-party packages: the hash of a text (sha256, in hexadecimal), the hash of a
-- password with a salt, and the comparison of a hash with a password (bcrypt).
pub record Crypto : Type 0 where
  pub sha256 : Text → Text
  pub bcrypt_hash : Text → Text → Text
  pub bcrypt_compare : Text → Text → Bool

abbrev pub get_or_empty {ℓ} : {A : Type ℓ} → Option (List A) → List A
get_or_empty none = []
get_or_empty (some l) = l

abbrev pub modify : User → Change → User
modify u change = record u { modified = u.modified ++ change ∷ [] }

-- A text that is not there or empty counts as false.
abbrev pub is_empty : Text → Bool
is_empty [] = true
is_empty (c ∷ s) = false

unfoldable pub create : Text → Text → ℕ → User
create uid email now = record {
  uid = uid;
  value = record {
    creation = now;
    email = email;
    password = none;
    last_login = none;
    last_failed_login = none;
    last_password_reset = none;
    password_reset = none;
    roles = none;
    payments = none;
    subscriptions = none;
    tokens = none;
  };
  modified = [];
}

-- `createDummy`
unfoldable pub create_dummy : ℕ → User
unfolding create
create_dummy now = create (codes "1234") (codes "dummy@dummy.com") now

unfoldable pub clear_modified : User → User
clear_modified u = record u { modified = [] }

unfoldable pub set_last_login : User → ℕ → User
set_last_login u now =
    modify (record u { value = record (u.value) { last_login = some now } }) last_login

unfoldable pub set_last_failed_login : User → ℕ → User
set_last_failed_login u now =
    modify (record u { value = record (u.value) { last_failed_login = some now } })
      last_failed_login

unfoldable pub set_last_password_reset : User → ℕ → User
set_last_password_reset u now =
    modify (record u { value = record (u.value) { last_password_reset = some now } })
      last_password_reset

module _ (crypto : Crypto) where
  -- `setPassword`, with the salt that bcrypt chooses.
  unfoldable pub set_password : User → Text → Text → User
  set_password u new salt = record (modify u password) {
    value = record (u.value) { password = some (crypto.bcrypt_hash new salt) };
  }

  unfoldable pub is_password_equal : User → Text → Bool
  is_password_equal u given = elim u.value.password [
    | none ↦ false
    | some hash ↦
        if is_empty hash
        then false
        else if is_empty given
        then false
        else crypto.bcrypt_compare hash given
  ]

  unfoldable pub set_password_reset_token : User → Text → ℕ → ℕ → User
  unfolding set_last_password_reset
  set_password_reset_token u token duration_ms now =
      set_last_password_reset
        (record (modify u password_reset) {
          value = record (u.value) {
            password_reset =
                some (record { hash = crypto.sha256 token; expiration = now + duration_ms });
          };
        })
        now

  -- `setRandomPasswordResetToken`, with the text that is drawn, which is returned too.
  unfoldable pub set_random_password_reset_token : User → Text → ℕ → ℕ → User × Text
  unfolding set_password_reset_token
  set_random_password_reset_token u token duration_ms now =
      (set_password_reset_token u token duration_ms now, token)

  unfoldable pub check_password_reset_token : User → Text → ℕ → Bool
  check_password_reset_token u token now =
      if is_empty token then false else elim u.value.password_reset [
        | none ↦ false
        | some reset ↦
            if ltb reset.expiration now then false else same reset.hash (crypto.sha256 token)
      ]

unfoldable pub clear_password_reset_token : User → User
clear_password_reset_token u = elim u.value.password_reset [
  | none ↦ u
  | some reset ↦ record (modify u password_reset) {
    value = record (u.value) { password_reset = none };
  }
]

abbrev pub get_roles : User → List Text
get_roles u = get_or_empty u.value.roles

-- `getScopes` throws for a role that is not known.
unfoldable pub get_scopes : User → Option Scopes
get_scopes u = Roles.get_scopes (get_roles u)

unfoldable pub has_role : User → Text → Bool
has_role u role = includes (get_roles u) role

unfoldable pub has_scope : User → Text → Option Bool
unfolding get_scopes
has_scope u scope = do scopes ← get_scopes u; some (contains scopes scope)

unfoldable pub add_role : User → Text → Option User
add_role u role =
    if Roles.is_valid role
    then some (
        if includes (get_roles u) role
        then modify u (role_added role)
        else record (modify u (role_added role)) {
          value = record (u.value) { roles = some (get_roles u ++ role ∷ []) };
        })
    else none

-- The loop of `setRoles`.
pub add_roles : User → List Text → Option User
unfolding add_role
add_roles u [] = some u
add_roles u (role ∷ rest) = do v ← add_role u role; add_roles v rest

unfoldable pub set_roles : User → List Text → Option User
unfolding add_roles
set_roles u all =
    add_roles (record (modify u roles) { value = record (u.value) { roles = some [] } }) all

unfoldable pub has_payment : User → Text → Bool
has_payment u uid = includes (get_or_empty u.value.payments) uid

unfoldable pub register_payment : User → Text → Option User
unfolding has_payment
register_payment u uid =
    if has_payment u uid
    then none
    else some (record u {
      value = record (u.value) { payments = some (get_or_empty u.value.payments ++ uid ∷ []) };
    })
