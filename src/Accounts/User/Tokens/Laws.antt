-- ===== src/Accounts/User/Tokens/Laws.antt =====
-- No token gives more than its user has, and what the methods do to the tokens.
use bzd.Prelude.Map
use bzd.Prelude.Map.{Map}
use bzd.Prelude.Text.{Text, text_discrete}
use bzd.Prelude.{
  ℕ, ◌≡◌, ◌≢◌, refl, sym, ap, subst, ◌∙◌, true, Option, none, some, [], ◌∷◌, ◌++◌, ◌>>=◌, arith,
}
use bzd.Scopes.{
  Scopes, check_valid, Check, passed, not_valid_key, not_guarded_key, not_valid_scope, contains,
}
use bzd.Scopes.Containment.{check_valid-within}
use bzd.Accounts.Roles
use bzd.Accounts.Token
use bzd.Accounts.Token.{TokenInfo, identifier, is_expired}
use bzd.Accounts.User.{
  User, Change, token_added, create_dummy, modify, get_roles, get_scopes, has_scope,
}
use bzd.Accounts.User.Tokens.{
  get_tokens, with_tokens, start_of, assert_passed, add_token, add_tokens, dummy_with_roles,
  set_tokens, get_token,
}

-- Every scope that the token contains, the user has.
abbrev pub IsWithinUser : User → TokenInfo → Type 0
IsWithinUser u token =
    (scope : Text) → contains (Token.get_scopes token) scope ≡ true → has_scope u scope ≡ some true

abbrev MapWithin : User → Map Text TokenInfo → Type 0
MapWithin u m =
    (hash : Text) (token : TokenInfo)
    → Map.get text_discrete hash m ≡ some token
    → IsWithinUser u token

-- All tokens of the user are within what the user has.
abbrev pub AllWithin : User → Type 0
AllWithin u = MapWithin u (get_tokens u)

set-MapWithin :
    (u : User) (hash : Text) (token : TokenInfo) (m : Map Text TokenInfo)
    → MapWithin u m
    → IsWithinUser u token
    → MapWithin u (Map.set text_discrete hash token m)
set-MapWithin u hash token m all one k t there = elim (text_discrete k hash) [
  | yes p ↦
      let same : some token ≡ some t =
        sym (Map.get-set_self text_discrete hash token m)
        ∙ ap (λ x. Map.get text_discrete x (Map.set text_discrete hash token m)) (sym p)
        ∙ there in
      subst (IsWithinUser u) {x = token} {y = t} (ground arith) one
  | no p ↦ all k t (sym (Map.get-set_ne text_discrete hash k token m p) ∙ there)
]

-- The user that `addToken` leaves.
abbrev added : User → Text → TokenInfo → User
added u hash token =
    modify (with_tokens u (Map.set text_discrete hash token (get_tokens u)))
      (token_added (identifier token) (start_of hash))

add_token→ :
    (u : User) (hash : Text) (token : TokenInfo) (u' : User)
    → add_token u hash token ≡ some u'
    → (Map.get text_discrete hash (get_tokens u) ≡ none)
      × (added u hash token ≡ u')
      × ((scopes : Scopes) × (get_scopes u ≡ some scopes)
          × (check_valid scopes (Token.get_scopes token).list ≡ passed))
unfolding add_token
add_token→ u hash token u' h = by_cases (Map.get text_discrete hash (get_tokens u)) h
  where
    by_check :
        (c : Check)
        → (do valid ← assert_passed c; some (added u hash token)) ≡ some u'
        → (c ≡ passed) × (added u hash token ≡ u')
    by_check passed h = (refl, ground arith)
    by_check (not_valid_key k) h = absurd (cc)
    by_check (not_guarded_key k) h = absurd (cc)
    by_check (not_valid_scope s) h = absurd (cc)

    by_scopes :
        (o : Option Scopes)
        → (do
          scopes ← o
          valid ← assert_passed (check_valid scopes (Token.get_scopes token).list)
          some (added u hash token))
          ≡ some u'
        → (added u hash token ≡ u')
          × ((scopes : Scopes) × (o ≡ some scopes)
              × (check_valid scopes (Token.get_scopes token).list ≡ passed))
    by_scopes none h = absurd (cc)
    by_scopes (some scopes) h =
        let (valid, same) = by_check (check_valid scopes (Token.get_scopes token).list) h in
        (same, (scopes, refl, valid))

    by_cases :
        (o : Option TokenInfo)
        → (elim o [
          | some old ↦ none
          | none ↦ do
            scopes ← get_scopes u
            valid ← assert_passed (check_valid scopes (Token.get_scopes token).list)
            some (added u hash token)
        ])
          ≡ some u'
        → (o ≡ none)
          × (added u hash token ≡ u')
          × ((scopes : Scopes) × (get_scopes u ≡ some scopes)
              × (check_valid scopes (Token.get_scopes token).list ≡ passed))
    by_cases none h = let (same, found) = by_scopes (get_scopes u) h in (refl, same, found)
    by_cases (some old) h = absurd (cc)

-- Scopes that pass the check are within the user's.
within_of_check :
    (u : User) (scopes : Scopes) (token : TokenInfo)
    → get_scopes u ≡ some scopes
    → check_valid scopes (Token.get_scopes token).list ≡ passed
    → IsWithinUser u token
unfolding has_scope
within_of_check u scopes token e valid scope has =
    ap (λ o. o >>= (λ scopes. some (contains scopes scope))) e
    ∙ ap some (check_valid-within scopes (Token.get_scopes token) scope valid has)

-- `addToken` gives the user a token under a new hash, and leaves the others. It adds no token that
-- contains a scope which the user does not have.
pub add_token-is_guarded :
    (u : User) (hash : Text) (token : TokenInfo) (u' : User)
    → add_token u hash token ≡ some u'
    → (get_token u hash ≡ none)
      × (get_token u' hash ≡ some token)
      × ((other : Text) → other ≢ hash → get_token u' other ≡ get_token u other)
      × IsWithinUser u' token
      × (AllWithin u → AllWithin u')
unfolding get_token has_scope get_scopes
add_token-is_guarded u hash token u' h =
    let (new, same, (scopes, e, valid)) = add_token→ u hash token u' h in
    subst
      (λ v.
        (get_token u hash ≡ none)
        × (get_token v hash ≡ some token)
        × ((other : Text) → other ≢ hash → get_token v other ≡ get_token u other)
        × IsWithinUser v token
        × (AllWithin u → AllWithin v))
      same
      (
        new,
        Map.get-set_self text_discrete hash token (get_tokens u),
        (λ other ne. Map.get-set_ne text_discrete hash other token (get_tokens u) ne),
        within_of_check (added u hash token) scopes token e valid,
        λ all.
            set-MapWithin u hash token (get_tokens u) all (within_of_check u scopes token e valid),
      )

add_tokens-AllWithin :
    (u u' : User) (all : Map Text TokenInfo)
    → add_tokens u all ≡ some u'
    → AllWithin u
    → AllWithin u' × (get_roles u' ≡ get_roles u)
unfolding add_tokens
add_tokens-AllWithin u u' [] h w = by_user (ground arith)
  where
    by_user : u ≡ u' → AllWithin u' × (get_roles u' ≡ get_roles u)
    by_user p = (subst AllWithin p w, sym (ap get_roles p))
add_tokens-AllWithin u u' ((hash, token) ∷ rest) h w =
    by_first (λ v. add_tokens-AllWithin v u' rest) (add_token u hash token) refl h
  where
    by_first :
        ((v : User)
          → add_tokens v rest ≡ some u'
          → AllWithin v
          → AllWithin u' × (get_roles u' ≡ get_roles v))
        → (o : Option User) → add_token u hash token ≡ o
        → (do v ← o; add_tokens v rest) ≡ some u'
        → AllWithin u' × (get_roles u' ≡ get_roles u)
    by_first below none e h = absurd (cc)
    by_first below (some v) e h =
        let guarded = add_token-is_guarded u hash token v e in
        let (within, same) = below v h (guarded.4 w) in
        (within, same ∙ sym (ap get_roles (add_token→ u hash token v e).1))

-- Whatever tokens `setTokens` is given and whatever the user had before, if it does not throw, then no
-- token of the user contains a scope that the user does not have.
pub set_tokens-AllWithin :
    (u : User) (all : Map Text TokenInfo) (now : ℕ) (u' : User)
    → set_tokens u all now ≡ some u'
    → AllWithin u'
unfolding set_tokens has_scope get_scopes create_dummy Map.get
set_tokens-AllWithin u all now u' h = by_dummy (add_tokens (dummy_with_roles u now) all) refl h
  where
    by_dummy :
        (o : Option User)
        → add_tokens (dummy_with_roles u now) all ≡ o
        → (do
          dummy ← o
          some (record (with_tokens u (get_tokens dummy)) {
            modified = u.modified ++ Change.tokens ∷ dummy.modified;
          }))
          ≡ some u'
        → AllWithin u'
    by_dummy none e h = absurd (cc)
    by_dummy (some dummy) e h =
        let (within, same) =
          add_tokens-AllWithin (dummy_with_roles u now) dummy all e (λ k t there. absurd (cc)) in
        let v : User = record (with_tokens u (get_tokens dummy)) {
          modified = u.modified ++ Change.tokens ∷ dummy.modified;
        } in
        subst AllWithin {x = v} {y = u'} (ground arith) (λ k t there scope has.
          ap (λ r. do scopes ← Roles.get_scopes r; some (contains scopes scope)) (sym same)
          ∙ within k t there scope has)
