-- ===== src/Accounts/Users/Updates.antt =====
-- `update`, and the creation and the deletion of users.
use bzd.Prelude.Map
use bzd.Prelude.Map.{Map}
use bzd.Prelude.Text.{Text, text_discrete}
use bzd.Prelude.{
  ℕ, ◌≡◌, ◌≢◌, refl, sym, ap, subst, ◌∙◌, ◌⊎◌, inl, inr, Bool, true, false, Option, none, some, [],
  if◌then◌else◌, ◌>>=◌, arith, Option-cases,
}
use bzd.KeyValueStore.{Buckets, get_value, set_value, delete_value, bucket_of}
use bzd.KeyValueStore as KeyValueStore
use bzd.KeyValueStore.Laws.{get_value-set_value, get_value-delete_value}
use bzd.Accounts.User
use bzd.Accounts.User.{User, UserData, Change, Crypto, set_password, is_password_equal, get_roles}
use bzd.Accounts.Users.{
  Users, load, get, create, delete, delete_with_password, update, modified_values,
}

module _ {V : Type 0} (buckets : Buckets V) (bucket key : Text)
    (modifier : Option V → Option V) where
  store_update→ :
      (buckets' : Buckets V)
      → KeyValueStore.update buckets bucket key modifier ≡ some buckets'
      → (v : V) × (modifier (get_value buckets bucket key) ≡ some v)
        × ((set_value buckets bucket (some key) key v).0 ≡ buckets')
  unfolding KeyValueStore.update
  store_update→ buckets' h = by_value (modifier (get_value buckets bucket key)) h
    where
      by_value :
          (o : Option V)
          → (do v ← o; some (set_value buckets bucket (some key) key v).0) ≡ some buckets'
          → (v : V) × (o ≡ some v) × ((set_value buckets bucket (some key) key v).0 ≡ buckets')
      by_value none h = absurd (cc)
      by_value (some v) h = (v, refl, ground arith)

-- What a change of the user `uid` is: the user was there, the modifier gave what is stored now, and
-- no other user changed.
abbrev pub IsUpdate : Users → Text → (User → Option User) → Users → Type 0
IsUpdate users uid modifier users' =
    (old : User) × (new : User) × (get users uid ≡ some old)
    × (modifier old ≡ some new)
    × (get users' uid ≡ some (load uid new.value))
    × ((other : Text) → other ≢ uid → get users' other ≡ get users other)

abbrev loaded : Text → Option UserData → Option User
loaded uid o = do values ← o; some (load uid values)

modified_values→ :
    (modifier : User → Option User) (uid : Text) (o : Option UserData) (v : UserData)
    → modified_values modifier uid o ≡ some v
    → (old : UserData) × (new : User) × (o ≡ some old)
      × (modifier (load uid old) ≡ some new)
      × (new.value ≡ v)
modified_values→ modifier uid none v h = absurd (cc)
modified_values→ modifier uid (some old) v h = by_user (modifier (load uid old)) refl h
  where
    by_user :
        (o : Option User)
        → modifier (load uid old) ≡ o
        → (do user ← o; some user.value) ≡ some v
        → (old' : UserData) × (new : User) × (some old ≡ some old')
          × (modifier (load uid old') ≡ some new)
          × (new.value ≡ v)
    by_user none e h = absurd (cc)
    by_user (some new) e h = (old, new, refl, e, ground arith)

-- `update` changes the given user by the modifier, and no other; it throws if there is none, or if
-- the modifier throws, and then nothing is stored.
pub update→ :
    (users : Users) (uid : Text) (modifier : User → Option User) (users' : Users)
    → update users uid modifier ≡ some users'
    → IsUpdate users uid modifier users'
unfolding update get
update→ users uid modifier users' h =
    by_store (KeyValueStore.update users.store users.bucket uid (modified_values modifier uid)) refl
      h
  where
    by_store :
        (o : Option (Buckets UserData))
        → KeyValueStore.update users.store users.bucket uid (modified_values modifier uid) ≡ o
        → (do store ← o; some (record users { store = store })) ≡ some users'
        → IsUpdate users uid modifier users'
    by_store none e h = absurd (cc)
    by_store (some store) e h =
        let (v, modified, stored) =
          store_update→ users.store users.bucket uid (modified_values modifier uid) store e in
        let (old, new, there, by, gives) =
          modified_values→ modifier uid (get_value users.store users.bucket uid) v modified in
        let reads = get_value-set_value users.store users.bucket uid uid v in
        let result : Users = record users { store = store } in
        subst (IsUpdate users uid modifier) {x = result} {y = users'} (ground arith) (
          load uid old,
          new,
          ap (loaded uid) there,
          by,
          ap (loaded uid)
              (ap (λ s. get_value s users.bucket uid) (sym stored) ∙ reads.0 ∙ ap some (sym gives)),
          λ other ne. ap (loaded other) (
              ap (λ s. get_value s users.bucket other) (sym stored)
              ∙ reads.1 users.bucket other (λ (p, q). ne q)),
        )

-- `create` throws for an e-mail address that has a user; else it stores a new user, without a role,
-- and changes no other; and a second `create` for the address throws.
pub create-once :
    (email_to_uid : Text → Text) (users : Users) (email : Text) (now : ℕ)
    → ((old : User) × (get users (email_to_uid email) ≡ some old)
        × (create email_to_uid users email now ≡ none))
      ⊎ ((users' : Users) × (new : User) × (get users (email_to_uid email) ≡ none)
          × (create email_to_uid users email now ≡ some (users', new))
          × (get users' (email_to_uid email) ≡ some new)
          × (get_roles new ≡ [])
          × ((other : Text) → other ≢ email_to_uid email → get users' other ≡ get users other)
          × ((later : ℕ) → create email_to_uid users' email later ≡ none))
unfolding create get User.create
create-once email_to_uid users email now = elim (Option-cases (get users uid)) [
  | inr (old, there) ↦ inl (old, there, rw (there, create) refl)
  | inl free ↦ inr (
    after,
    new,
    free,
    rw (free, create) refl,
    stored,
    refl,
    (λ other ne. ap (loaded other) (reads.1 users.bucket other (λ (p, q). ne q))),
    λ later. rw (stored, create) refl,
  )
]
  where
    uid : Text
    uid = email_to_uid email

    new : User
    new = User.create uid email now

    reads :
        (get_value (set_value users.store users.bucket (some uid) uid new.value).0 users.bucket uid
          ≡ some new.value)
        × ((b k : Text)
            → ¬ ((b ≡ users.bucket) × (k ≡ uid))
            → get_value (set_value users.store users.bucket (some uid) uid new.value).0 b k
              ≡ get_value users.store b k)
    reads = get_value-set_value users.store users.bucket uid uid new.value

    after : Users
    after = record users { store = (set_value users.store users.bucket (some uid) uid new.value).0 }

    stored : get after uid ≡ some new
    stored = ap (loaded uid) reads.0

-- `deleteWithPassword` throws for a missing user and for a wrong password; else the user is gone, and
-- no other changed.
pub delete_with_password-is_guarded :
    (crypto : Crypto) (users : Users) (uid password : Text) (users' : Users)
    → Map.IsDistinct text_discrete (bucket_of users.store users.bucket)
    → delete_with_password crypto users uid password ≡ some users'
    → ((user : User) × (get users uid ≡ some user)
        × (is_password_equal crypto user password ≡ true))
      × (get users' uid ≡ none)
      × ((other : Text) → other ≢ uid → get users' other ≡ get users other)
unfolding delete_with_password delete get
delete_with_password-is_guarded crypto users uid password users' d h =
    by_user (get users uid) refl h
  where
    Goal : Type 0
    Goal =
        ((user : User) × (get users uid ≡ some user)
          × (is_password_equal crypto user password ≡ true))
        × (get users' uid ≡ none)
        × ((other : Text) → other ≢ uid → get users' other ≡ get users other)

    by_test :
        (user : User) (b : Bool)
        → get users uid ≡ some user
        → is_password_equal crypto user password ≡ b
        → (if b then some (delete users uid) else none) ≡ some users'
        → Goal
    by_test user false there e h = absurd (cc)
    by_test user true there e h =
        let reads = get_value-delete_value users.store users.bucket uid d in
        let (gone, others) =
          subst
            (λ v.
              (get v uid ≡ none) × ((other : Text) → other ≢ uid → get v other ≡ get users other))
            {x = delete users uid} {y = users'} (ground arith)
            (
              ap (loaded uid) reads.0,
              λ other ne. ap (loaded other) (reads.1 users.bucket other (λ (p, q). ne q)),
            ) in
        ((user, there, e), gone, others)

    by_user :
        (o : Option User)
        → get users uid ≡ o
        → (do
          user ← o
          if is_password_equal crypto user password then some (delete users uid) else none)
          ≡ some users'
        → Goal
    by_user none e h = absurd (cc)
    by_user (some user) e h = by_test user (is_password_equal crypto user password) e refl h
