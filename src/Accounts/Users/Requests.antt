-- ===== src/Accounts/Users/Requests.antt =====
-- What the requests change of the stored users.
use bzd.Prelude.Map.{Map}
use bzd.Prelude.Text.{Text}
use bzd.Prelude.{
  ℕ, ◌≡◌, ◌≢◌, refl, sym, ap, subst, ◌∙◌, ◌⊎◌, inl, inr, Bool, true, false, Option, none, some,
  List, [], ◌∷◌, ◌++◌, if◌then◌else◌, ◌>>=◌, arith,
}
use bzd.Accounts.Token.{TokenInfo}
use bzd.Accounts.User.{User, UserData, Change, Crypto, set_password, is_password_equal}
use bzd.Accounts.User.Tokens.{add_tokens, dummy_with_roles, set_tokens, get_tokens, with_tokens}
use bzd.Accounts.User.Tokens.Laws.{AllWithin, set_tokens-AllWithin}
use bzd.Accounts.Users.Updates.{update→}
use bzd.Accounts.Users.{
  uid_or, Users, load, get, PublicValues, merge_password, merge_tokens, merge_public, put_user,
}

-- A user that differs in nothing but the password and the tokens.
abbrev pub IsOwnChange : User → User → Type 0
IsOwnChange old new =
    new.value ≡ record (old.value) { password = new.value.password; tokens = new.value.tokens }

-- Such a change that leaves the tokens, and the password too unless the old one was given.
abbrev IsPasswordChange : Crypto → PublicValues → User → User → Type 0
IsPasswordChange crypto values user new =
    IsOwnChange user new
    × (new.value.tokens ≡ user.value.tokens)
    × ((new.value.password ≡ user.value.password)
        ⊎ ((old : Text) × (values.oldpassword ≡ some old)
            × (is_password_equal crypto user old ≡ true)))

merge_password→ :
    (crypto : Crypto) (salt : Text) (values : PublicValues) (user new : User)
    → merge_password crypto salt values user ≡ some new
    → IsPasswordChange crypto values user new
unfolding merge_password set_password
merge_password→ crypto salt values user new h = by_inputs values.password values.oldpassword refl h
  where
    changed : Text → User
    changed password = set_password crypto user password salt

    kept :
        (v : User)
        → v ≡ new
        → IsPasswordChange crypto values user v
        → IsPasswordChange crypto values user new
    kept v p c = subst (IsPasswordChange crypto values user) p c

    by_test :
        (b : Bool) (password old : Text)
        → values.oldpassword ≡ some old
        → is_password_equal crypto user old ≡ b
        → (if b then some (changed password) else none) ≡ some new
        → IsPasswordChange crypto values user new
    by_test false password old o e h = absurd (cc)
    by_test true password old o e h =
        kept (changed password) (ground arith) (refl, refl, inr (old, o, e))

    by_inputs :
        (p o : Option Text)
        → values.oldpassword ≡ o
        → (elim p [
          | none ↦ some user
          | some password ↦ elim o [
            | none ↦ none
            | some old ↦ if is_password_equal crypto user old then some (changed password) else none
          ]
        ])
          ≡ some new
        → IsPasswordChange crypto values user new
    by_inputs none o e h = kept user (ground arith) (refl, refl, inl refl)
    by_inputs (some password) none e h = absurd (cc)
    by_inputs (some password) (some old) e h =
        by_test (is_password_equal crypto user old) password old e refl h

-- A change of the tokens alone, to none that contain more scopes than the user has.
abbrev IsTokenChange : User → User → Type 0
IsTokenChange user new =
    IsOwnChange user new
    × (new.value.password ≡ user.value.password)
    × ((new.value.tokens ≡ user.value.tokens) ⊎ AllWithin new)

merge_tokens→ :
    (values : PublicValues) (now : ℕ) (user new : User)
    → merge_tokens values now user ≡ some new
    → IsTokenChange user new
unfolding merge_tokens set_tokens
merge_tokens→ values now user new h = by_inputs values.tokens h
  where
    by_dummy :
        (all : Map Text TokenInfo) (o : Option User)
        → set_tokens user all now ≡ some new
        → (do
          dummy ← o
          some (record (with_tokens user (get_tokens dummy)) {
            modified = user.modified ++ Change.tokens ∷ dummy.modified;
          }))
          ≡ some new
        → IsTokenChange user new
    by_dummy all none set h = absurd (cc)
    by_dummy all (some dummy) set h =
        let v : User = record (with_tokens user (get_tokens dummy)) {
          modified = user.modified ++ Change.tokens ∷ dummy.modified;
        } in
        let same : v ≡ new = ground arith in
        (
          subst (IsOwnChange user) same refl,
          sym (ap (λ (u : User). u.value.password) same),
          inr (set_tokens-AllWithin user all now new set),
        )

    by_inputs :
        (o : Option (Map Text TokenInfo))
        → (elim o [ none ↦ some user | some all ↦ set_tokens user all now ]) ≡ some new
        → IsTokenChange user new
    by_inputs none h =
        let same : user ≡ new = ground arith in
        (
          subst (IsOwnChange user) same refl,
          sym (ap (λ (u : User). u.value.password) same),
          inl (sym (ap (λ (u : User). u.value.tokens) same)),
        )
    by_inputs (some all) h = by_dummy all (add_tokens (dummy_with_roles user now) all) h h

-- What a request of a user can change of a user: nothing but the password and the tokens; the
-- password only if the old one was given; and no token then contains more than the user has, or
-- the tokens are what they were.
abbrev pub IsPublicChange : Crypto → PublicValues → User → User → Type 0
IsPublicChange crypto values old new =
    IsOwnChange old new
    × ((new.value.password ≡ old.value.password)
        ⊎ ((given : Text) × (values.oldpassword ≡ some given)
            × (is_password_equal crypto old given ≡ true)))
    × ((new.value.tokens ≡ old.value.tokens) ⊎ AllWithin new)

merge_public→ :
    (crypto : Crypto) (salt : Text) (values : PublicValues) (now : ℕ) (user new : User)
    → merge_public crypto salt values now user ≡ some new
    → (values.other_keys ≡ []) × IsPublicChange crypto values user new
unfolding merge_public
merge_public→ crypto salt values now user new h = by_keys values.other_keys h
  where
    by_middle :
        (o : Option User)
        → merge_password crypto salt values user ≡ o
        → (do u ← o; merge_tokens values now u) ≡ some new
        → IsPublicChange crypto values user new
    by_middle none e h = absurd (cc)
    by_middle (some middle) e h =
        let (own, tokens, password) = merge_password→ crypto salt values user middle e in
        let (own', password', tokens') = merge_tokens→ values now middle new h in
        (
          own'
              ∙ ap
                  (λ (d : UserData). record d {
                    password = new.value.password;
                    tokens = new.value.tokens;
                  })
                  own,
          elim password [ inl p ↦ inl (password' ∙ p) | inr r ↦ inr r ],
          elim tokens' [ inl p ↦ inl (p ∙ tokens) | inr r ↦ inr r ],
        )

    by_keys :
        (keys : List Text)
        → (elim keys [
          | key ∷ rest ↦ none
          | [] ↦ do
            with_password ← merge_password crypto salt values user
            merge_tokens values now with_password
        ])
          ≡ some new
        → (keys ≡ []) × IsPublicChange crypto values user new
    by_keys [] h = (refl, by_middle (merge_password crypto salt values user) refl h)
    by_keys (key ∷ keys) h = absurd (cc)

-- A put request of a user changes only the user that it is for, and of that user nothing but the
-- password and the tokens: roles, subscriptions and payments stay. It changes the password only if
-- the old one was given, and the tokens only to such as contain no scope that the user does not have.
-- One with another key is refused.
pub put_user-IsPublicChange :
    (crypto : Crypto) (salt : Text) (users : Users) (input_uid : Option Text) (session_uid : Text)
    (values : PublicValues) (now : ℕ) (users' : Users)
    → put_user crypto salt users input_uid session_uid values now ≡ some users'
    → (values.other_keys ≡ [])
      × ((old : User) × (new : User) × (get users (uid_or input_uid session_uid) ≡ some old)
          × (get users' (uid_or input_uid session_uid)
              ≡ some (load (uid_or input_uid session_uid) new.value))
          × IsPublicChange crypto values old new
          × ((other : Text)
              → other ≢ (uid_or input_uid session_uid)
              → get users' other ≡ get users other))
unfolding put_user
put_user-IsPublicChange crypto salt users input_uid session_uid values now users' h =
    let (old, new, there, by, stored, others) =
      update→ users (uid_or input_uid session_uid) (merge_public crypto salt values now) users' h in
    let (keys, change) = merge_public→ crypto salt values now old new by in
    (keys, (old, new, there, stored, change, others))
