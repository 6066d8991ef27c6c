-- ===== src/Accounts/User/Tokens/Rolling.antt =====
-- The change of a token's hash, and the removal of those that are expired.
use bzd.Prelude.Map
use bzd.Prelude.Map.{Map}
use bzd.Prelude.Text.{Text, text_discrete}
use bzd.Prelude.{
  ℕ, ◌≡◌, ◌≢◌, refl, ap, subst, ◌∙◌, Bool, true, false, Option, none, some, [], if◌then◌else◌,
  arith,
}
use bzd.Accounts.Token.{TokenInfo, identifier, is_expired}
use bzd.Accounts.User.{User, token_rolled, modify}
use bzd.Accounts.User.Tokens.{
  get_tokens, with_tokens, start_of, get_token, sanitized_tokens, roll_token,
}

-- What `rollToken` makes of the tokens.
abbrev pub Moved : User → Text → Text → User → TokenInfo → Type 0
Moved u hash new_hash u' token =
    (get_token u hash ≡ some token)
    × (get_token u new_hash ≡ none)
    × (get_token u' new_hash ≡ some token)
    × (get_token u' hash ≡ none)
    × ((other : Text) → other ≢ hash → other ≢ new_hash → get_token u' other ≡ get_token u other)

module _ (u : User) (hash new_hash : Text) (d : Map.IsDistinct text_discrete (get_tokens u)) where
  abbrev rolled : TokenInfo → User
  rolled token =
      modify
        (with_tokens u
          (Map.set text_discrete new_hash token (Map.delete text_discrete hash (get_tokens u))))
        (token_rolled (identifier token) (start_of hash) (start_of new_hash))

  abbrev outcome : Option TokenInfo → Option TokenInfo → Option (User × TokenInfo)
  outcome o p = elim o [
    | none ↦ none
    | some t ↦ elim p [ some other ↦ none | none ↦ some (rolled t, t) ]
  ]

  rolled-Moved :
      (token : TokenInfo)
      → get_token u hash ≡ some token
      → get_token u new_hash ≡ none
      → Moved u hash new_hash (rolled token) token
  unfolding get_token
  rolled-Moved token there free =
      let rest = Map.delete text_discrete hash (get_tokens u) in
      let ne : hash ≢ new_hash =
        λ p. let e = ap (λ x. Map.get text_discrete x (get_tokens u)) p in absurd (cc) in
      (
        there,
        free,
        Map.get-set_self text_discrete new_hash token rest,
        Map.get-set_ne text_discrete new_hash hash token rest ne
            ∙ Map.get-delete_self text_discrete hash (get_tokens u) d,
        λ other n m.
            Map.get-set_ne text_discrete new_hash other token rest m
            ∙ Map.get-delete_ne text_discrete hash other (get_tokens u) n,
      )

  roll_token→ :
      (u' : User) (token : TokenInfo)
      → roll_token u hash new_hash ≡ some (u', token)
      → Moved u hash new_hash u' token
  unfolding roll_token
  roll_token→ u' token h = by_tokens (get_token u hash) (get_token u new_hash) refl refl h
    where
      by_tokens :
          (o p : Option TokenInfo)
          → get_token u hash ≡ o
          → get_token u new_hash ≡ p
          → outcome o p ≡ some (u', token)
          → Moved u hash new_hash u' token
      by_tokens none p e f h = absurd (cc)
      by_tokens (some t) (some other) e f h = absurd (cc)
      by_tokens (some t) none e f h =
          let same_user : rolled t ≡ u' = ground arith in
          let same_token : t ≡ token = ground arith in
          subst (Moved u hash new_hash u') same_token
            (subst (λ v. Moved u hash new_hash v t) same_user (rolled-Moved t e f))

-- `rollToken` moves the token to the new hash, which was not in use, and changes no other; it gives
-- that token back, and what it holds was under the old hash. It throws if the old hash is not there.
pub roll_token-moves :
    (u : User) (hash new_hash : Text)
    → Map.IsDistinct text_discrete (get_tokens u)
    → ((u' : User) (token : TokenInfo)
        → roll_token u hash new_hash ≡ some (u', token)
        → Moved u hash new_hash u' token)
      × (get_token u hash ≡ none → roll_token u hash new_hash ≡ none)
unfolding roll_token get_token
roll_token-moves u hash new_hash d = (roll_token→ u hash new_hash d, λ e. rw (e, roll_token) refl)

-- `sanitizedTokens` leaves exactly the tokens that are not expired, as they were.
pub get_token-sanitized_tokens :
    (u : User) (now : ℕ) (hash : Text)
    → Map.IsDistinct text_discrete (get_tokens u)
    → get_token (sanitized_tokens u now) hash ≡ (elim (get_token u hash) [
      | none ↦ none
      | some token ↦ if is_expired token now then none else some token
    ])
unfolding sanitized_tokens get_token Map.get
get_token-sanitized_tokens u now hash d =
    Map.get-collect text_discrete (λ hash token. if is_expired token now then none else some token)
      hash [] (get_tokens u) d
    ∙ by_token (Map.get text_discrete hash (get_tokens u))
  where
    by_test :
        (token : TokenInfo) (b : Bool)
        → (elim (if b then none else some token) [ none ↦ none | some w ↦ some w ])
          ≡ (if b then none else some token)
    by_test token true = refl
    by_test token false = refl

    by_token :
        (o : Option TokenInfo)
        → Map.collected text_discrete
            (λ hash token. if is_expired token now then none else some token)
            hash
            o
            none
          ≡ (elim o [
            | none ↦ none
            | some token ↦ if is_expired token now then none else some token
          ])
    by_token none = refl
    by_token (some token) = by_test token (is_expired token now)
