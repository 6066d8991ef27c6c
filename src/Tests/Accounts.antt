-- ===== src/Tests/Accounts.antt =====
-- Runs of the users, their subscriptions, tokens and roles (apps/accounts/backend/users).
use bzd.Prelude.Map
use bzd.Prelude.Map.{Map}
use bzd.Prelude.Text.{Text, codes, text_discrete, same, same_refl, eq_of_same}
use bzd.Prelude.{
  ℕ, ◌+◌, ◌≤◌, ◌≡◌, ◌≢◌, refl, ◌⊎◌, ◌↔◌, true, false, not, ◌&&◌, Option, none, some, [], ◌∷◌, leb,
  arith, In,
}
use bzd.Scopes.{Scopes, check_valid, new_scopes, contains, slash}
use bzd.Accounts.Subscription.{Subscription, duration, ends, get_recurring_subscriptions}
use bzd.Accounts.Token.{
  TokenInfo, make, is_expired, update_min_duration, update_min_duration-is_expired,
}
use bzd.Accounts.Token
use bzd.Accounts.Roles
use bzd.Accounts.Roles.{
  admin_role, user_role, scope_admin, scope_admin_users, scope_admin_applications,
  scope_self_roles_write, get_scopes-admin,
}
use bzd.Accounts.User
use bzd.Accounts.User.{
  User, UserData, Crypto, create, add_role, set_roles, get_roles, has_payment, register_payment,
  set_password, is_password_equal, is_empty, set_password_reset_token, check_password_reset_token,
  clear_password_reset_token,
}
use bzd.Accounts.User.Tokens.{add_token, set_tokens, get_token, get_tokens, roll_token}
use bzd.Accounts.User.Tokens.Laws.{
  AllWithin, IsWithinUser, add_token-is_guarded, set_tokens-AllWithin,
}
use bzd.Accounts.User.Tokens.Rolling.{Moved, roll_token-moves}
use bzd.Accounts.User.Reset.{IsShort, check-set_password_reset_token}

program : Unit {0}
unfolding User.create_dummy add_token set_tokens roll_token get_token set_roles register_payment
    create make Map.get Map.set Map.delete text_discrete User.get_scopes Roles.get_scopes
    Roles.roles_scopes_map check_valid Token.get_scopes new_scopes contains
program = tt

abbrev running : Subscription
running = record { time = ends 100; recurring = some ((codes "a", 50) ∷ (codes "b", 120) ∷ []) }

abbrev bought : Subscription
bought = record { time = duration 30; recurring = some ((codes "a", 90) ∷ []) }

running-IsDistinct : Map.IsDistinct text_discrete (get_recurring_subscriptions running)
unfolding Map.get text_discrete
running-IsDistinct = (refl, (refl, tt))

bought-IsDistinct : Map.IsDistinct text_discrete (get_recurring_subscriptions bought)
unfolding Map.get
bought-IsDistinct = (refl, tt)

still_running : (t : ℕ) → running.time ≡ ends t → 60 ≤ t
still_running t h = ground arith

abbrev token : TokenInfo
token = make (codes "phone") (codes "/self/basic/r" ∷ []) 60 true 1000

abbrev admin_scopes : Scopes
admin_scopes = new_scopes (scope_admin ∷ [])

admin_has : Roles.get_scopes (admin_role ∷ []) ≡ some admin_scopes
unfolding Roles.get_scopes Roles.roles_scopes_map
admin_has = refl

get_scopes-admin_example :
    ((contains admin_scopes scope_admin_users ≡ true)
        ⊎ ((contains admin_scopes scope_admin_applications ≡ true)
            ⊎ (contains admin_scopes scope_self_roles_write ≡ true))
      → In admin_role (admin_role ∷ []))
    × (In admin_role (admin_role ∷ [])
        → (path : Text) → contains admin_scopes (slash ∷ path) ≡ true)
get_scopes-admin_example = get_scopes-admin (admin_role ∷ []) admin_scopes admin_has

abbrev ann : User
ann =
    let new = create (codes "7") (codes "ann@x.org") 5 in
    record new { value = record (new.value) { roles = some (user_role ∷ []) } }

abbrev with_token : Option User
with_token = add_token ann (codes "h1") token

abbrev refused : Option User
refused = add_token ann (codes "h1") (record token { scopes = some (codes "/users" ∷ []) })

guards : refused ≡ none
unfolding program
guards = refl

abbrev or_ann : Option User → User
or_ann o = elim o [ none ↦ ann | some u ↦ u ]

abbrev tokened : User
tokened = or_ann with_token

adds : add_token ann (codes "h1") token ≡ some tokened
unfolding program
adds = refl

add_token-is_guarded_example :
    (get_token ann (codes "h1") ≡ none)
    × (get_token tokened (codes "h1") ≡ some token)
    × ((other : Text) → other ≢ codes "h1" → get_token tokened other ≡ get_token ann other)
    × IsWithinUser tokened token
    × (AllWithin ann → AllWithin tokened)
add_token-is_guarded_example = add_token-is_guarded ann (codes "h1") token tokened adds

abbrev two_tokens : Map Text TokenInfo
two_tokens =
    (codes "h1", token)
    ∷ (codes "h2", record token { scopes = some (codes "/self/basic/w" ∷ []) })
    ∷ []

abbrev retokened : User
retokened = or_ann (set_tokens ann two_tokens 9)

sets : set_tokens ann two_tokens 9 ≡ some retokened
unfolding program
sets = refl

set_tokens-AllWithin_example : AllWithin retokened
set_tokens-AllWithin_example = set_tokens-AllWithin ann two_tokens 9 retokened sets

retokened-IsDistinct : Map.IsDistinct text_discrete (get_tokens retokened)
unfolding program
retokened-IsDistinct = (refl, (refl, tt))

roll_token-moves_example :
    ((u' : User) (token : TokenInfo)
      → roll_token retokened (codes "h1") (codes "h3") ≡ some (u', token)
      → Moved retokened (codes "h1") (codes "h3") u' token)
    × (get_token retokened (codes "h1") ≡ none
        → roll_token retokened (codes "h1") (codes "h3") ≡ none)
roll_token-moves_example = roll_token-moves retokened (codes "h1") (codes "h3") retokened-IsDistinct

-- A hash that adds a letter in front, and its comparison.
abbrev letters : Crypto
letters = record {
  sha256 = λ s. 1 ∷ s;
  bcrypt_hash = λ p salt. 2 ∷ p;
  bcrypt_compare = λ hash p. same hash (2 ∷ p);
}

check-set_password_reset_token_example :
    (check_password_reset_token letters
        (set_password_reset_token letters ann (codes "t") 10 5)
        (codes "t")
        9
      ≡ (not (is_empty (codes "t"))
          && (leb 9 (5 + 10) && same (letters.sha256 (codes "t")) (letters.sha256 (codes "t")))))
    × (check_password_reset_token letters
          (clear_password_reset_token (set_password_reset_token letters ann (codes "t") 10 5))
          (codes "t")
          9
        ≡ false)
check-set_password_reset_token_example =
    check-set_password_reset_token letters ann (codes "t") (codes "t") 10 5 9

letters-compare :
    (p s q : Text)
    → IsShort p
    → IsShort q
    → (letters.bcrypt_compare (letters.bcrypt_hash p s) q ≡ true) ↔ (p ≡ q)
letters-compare p s q short_p short_q =
    (λ h. eq_of_same p q (ground arith), λ e. let r = same_refl p in ground arith)
