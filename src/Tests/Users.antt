-- ===== src/Tests/Users.antt =====
-- Runs of the stored users and of the requests that change them.
use bzd.Prelude.Map
use bzd.Prelude.Map.{Map}
use bzd.Prelude.Text.{Text, codes, text_discrete, same}
use bzd.Prelude.{◌≡◌, ◌≢◌, refl, true, Option, none, some, [], ◌∷◌}
use bzd.KeyValueStore.{bucket_of, get_value, set_value, delete_value}
use bzd.KeyValueStore
use bzd.Accounts.User
use bzd.Accounts.User.{User, Crypto, is_password_equal, set_password, get_roles}
use bzd.Accounts.Users.{
  Users, load, get, create, update, delete_with_password, delete, merge_public, PublicValues,
  put_user,
}
use bzd.Accounts.Users.Updates.{delete_with_password-is_guarded}
use bzd.Accounts.Users.Requests.{IsPublicChange, put_user-IsPublicChange}

program : Unit {0}
unfolding get create update delete_with_password delete merge_public put_user get_value set_value
    delete_value KeyValueStore.update User.create is_password_equal set_password Map.get Map.set
    Map.delete text_discrete
program = tt

abbrev no_users : Users
no_users = record { store = []; bucket = codes "users" }

abbrev to_uid : Text → Text
to_uid email = 3 ∷ email

abbrev letters : Crypto
letters = record {
  sha256 = λ s. 1 ∷ s;
  bcrypt_hash = λ p salt. 2 ∷ p;
  bcrypt_compare = λ hash p. same hash (2 ∷ p);
}

-- A user with the password "old".
abbrev users : Users
users = record no_users {
  store =
      (
        codes "users",
        (
          codes "7",
          (set_password letters (User.create (codes "7") (codes "a") 5) (codes "old") []).value,
        )
            ∷ [],
      )
      ∷ [];
}

abbrev or_users : Option Users → Users
or_users o = elim o [ none ↦ no_users | some u ↦ u ]

abbrev request : PublicValues
request = record {
  password = some (codes "new");
  oldpassword = some (codes "old");
  tokens = none;
  other_keys = [];
}

abbrev changed : Users
changed = or_users (put_user letters [] users none (codes "7") request 9)

refuses :
    put_user letters [] users none (codes "7") (record request { oldpassword = some (codes "x") }) 9
    ≡ none
unfolding program
refuses = refl

changes : put_user letters [] users none (codes "7") request 9 ≡ some changed
unfolding program
changes = refl

put_user-IsPublicChange_example :
    (request.other_keys ≡ [])
    × ((old : User) × (new : User) × (get users (codes "7") ≡ some old)
        × (get changed (codes "7") ≡ some (load (codes "7") new.value))
        × IsPublicChange letters request old new
        × ((other : Text) → other ≢ codes "7" → get changed other ≡ get users other))
put_user-IsPublicChange_example =
    put_user-IsPublicChange letters [] users none (codes "7") request 9 changed changes

abbrev emptied : Users
emptied = or_users (delete_with_password letters users (codes "7") (codes "old"))

deletes : delete_with_password letters users (codes "7") (codes "old") ≡ some emptied
unfolding program
deletes = refl

users-IsDistinct : Map.IsDistinct text_discrete (bucket_of users.store users.bucket)
unfolding program
users-IsDistinct = (refl, tt)

delete_with_password-is_guarded_example :
    ((user : User) × (get users (codes "7") ≡ some user)
      × (is_password_equal letters user (codes "old") ≡ true))
    × (get emptied (codes "7") ≡ none)
    × ((other : Text) → other ≢ codes "7" → get emptied other ≡ get users other)
delete_with_password-is_guarded_example =
    delete_with_password-is_guarded letters users (codes "7") (codes "old") emptied users-IsDistinct
      deletes
