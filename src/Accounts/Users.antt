-- ===== src/Accounts/Users.antt =====
-- apps/accounts/backend/users/users.js: the class `Users` over the store in memory, with the requests
-- that change it. `none` is an exception. The function that makes a uid of an e-mail address is an
-- argument, like the salt of a new password.
pub mod Updates
pub mod Requests
use bzd.Prelude.Map
use bzd.Prelude.Map.{Map}
use bzd.Prelude.Text.{Text, text_discrete}
use bzd.Prelude.{ℕ, Bool, true, false, Option, none, some, List, [], ◌∷◌, if◌then◌else◌, ◌>>=◌}
use bzd.KeyValueStore.{Buckets, get_value, set_value, delete_value}
use bzd.KeyValueStore as KeyValueStore
use bzd.Accounts.Subscription.{Subscription}
use bzd.Accounts.Token.{TokenInfo}
use bzd.Accounts.Roles.{user_role}
use bzd.Accounts.User as User
use bzd.Accounts.User.{User, UserData, Crypto, set_roles, add_role, set_password, is_password_equal}
use bzd.Accounts.User.Tokens.{set_tokens}
use bzd.Accounts.User.Subscriptions.{set_subscriptions}

pub record Users : Type 0 where
  pub store : Buckets UserData
  pub bucket : Text

-- new User(uid, data)
abbrev pub load : Text → UserData → User
load uid values = record { uid = uid; value = values; modified = [] }

-- `get`, which throws for a missing user unless that is allowed; `none` stands for both.
unfoldable pub get : Users → Text → Option User
get users uid = do values ← get_value users.store users.bucket uid; some (load uid values)

unfoldable pub create : (Text → Text) → Users → Text → ℕ → Option (Users × User)
unfolding get
create email_to_uid users email now =
    let uid = email_to_uid email in
    elim (get users uid) [
      | some user ↦ none
      | none ↦
          let user = User.create uid email now in
          some (
            record users {
              store = (set_value users.store users.bucket (some uid) uid user.value).0;
            },
            user,
          )
    ]

-- The callback that `update` gives to the store.
abbrev pub modified_values : (User → Option User) → Text → Option UserData → Option UserData
modified_values modifier uid values? = do
  values ← values?
  user ← modifier (load uid values)
  some user.value

unfoldable pub update : Users → Text → (User → Option User) → Option Users
update users uid modifier = do
  store ← KeyValueStore.update users.store users.bucket uid (modified_values modifier uid)
  some (record users { store = store })

unfoldable pub delete : Users → Text → Users
delete users uid = record users { store = delete_value users.store users.bucket uid }

unfoldable pub delete_with_password : Crypto → Users → Text → Text → Option Users
unfolding get delete
delete_with_password crypto users uid password = do
  user ← get users uid
  if is_password_equal crypto user password then some (delete users uid) else none

-- The inputs of a request by an administrator and of one by a user; `other_keys` are what else it has.
pub record AdminValues : Type 0 where
  pub roles : Option (List Text)
  pub subscriptions : Option (Map Text Subscription)
  pub other_keys : List Text

pub record PublicValues : Type 0 where
  pub password : Option Text
  pub oldpassword : Option Text
  pub tokens : Option (Map Text TokenInfo)
  pub other_keys : List Text

-- `_preprocessAndMergeAdmin`
unfoldable pub merge_admin : AdminValues → ℕ → User → Option User
merge_admin values now user = elim values.other_keys [
  | key ∷ keys ↦ none
  | [] ↦ do
    with_roles ← elim values.roles [ none ↦ some user | some roles ↦ set_roles user roles ]
    some (elim values.subscriptions [
      | none ↦ with_roles
      | some subscriptions ↦ set_subscriptions with_roles subscriptions now
    ])
]

-- The part of `_preprocessAndMergePublic` for a password, and that for tokens.
pub merge_password : Crypto → Text → PublicValues → User → Option User
merge_password crypto salt values user = elim values.password [
  | none ↦ some user
  | some password ↦ elim values.oldpassword [
    | none ↦ none
    | some old ↦
        if is_password_equal crypto user old
        then some (set_password crypto user password salt)
        else none
  ]
]

pub merge_tokens : PublicValues → ℕ → User → Option User
merge_tokens values now user = elim values.tokens [
  | none ↦ some user
  | some tokens ↦ set_tokens user tokens now
]

-- `_preprocessAndMergePublic`
unfoldable pub merge_public : Crypto → Text → PublicValues → ℕ → User → Option User
unfolding merge_password merge_tokens
merge_public crypto salt values now user = elim values.other_keys [
  | key ∷ keys ↦ none
  | [] ↦ do
    with_password ← merge_password crypto salt values user
    merge_tokens values now with_password
]

-- inputs.uid ? inputs.uid : user.getUid()
abbrev pub uid_or : Option Text → Text → Text
uid_or none session_uid = session_uid
uid_or (some []) session_uid = session_uid
uid_or (some (c ∷ uid)) session_uid = c ∷ uid

-- put /user; the user is that of the session unless the inputs name another one.
unfoldable pub put_user :
    Crypto → Text → Users → Option Text → Text → PublicValues → ℕ → Option Users
unfolding update merge_public
put_user crypto salt users input_uid session_uid values now =
    update users (uid_or input_uid session_uid) (merge_public crypto salt values now)

-- post /admin/user
unfoldable pub post_admin_user : (Text → Text) → Users → Text → ℕ → Option Users
unfolding create update
post_admin_user email_to_uid users email now = do
  created ← create email_to_uid users email now
  update created.0 created.1.uid (λ u. add_role u user_role)

-- put /admin/user
unfoldable pub put_admin_user : Users → Text → AdminValues → ℕ → Option Users
unfolding update merge_admin
put_admin_user users uid values now = update users uid (merge_admin values now)
