-- ===== src/Accounts/Roles.antt =====
-- apps/accounts/backend/users/roles.js and scopes.js: the roles of a user and the scopes they give.
use bzd.Prelude.Text.{Text, codes, same, includes, eq_of_same}
use bzd.Prelude.{
  ◌≡◌, refl, any, any←, sym, ap, subst, ◌∙◌, ◌⊎◌, inl, inr, Bool, true, false, Option, none, some,
  List, [], ◌∷◌, ◌++◌, if◌then◌else◌, ◌>>=◌, arith, Bool-cases, In, In-append→, In-append_left,
  In-append_right, In-filter→, In-filter←, not, all,
}
use mathlib.Core.List.{foldl}
use bzd.Scopes.{Scopes, new_scopes, contains, covers, slash, is_space, add_to_set}
use bzd.Scopes.Dictionary.{In-set←}
use bzd.Scopes.Containment.{In-set→, contains_iff, covers←}

-- The paths of scopes.js that the roles have.
abbrev pub scope_admin : Text
scope_admin = codes "/"

abbrev pub scope_admin_users : Text
scope_admin_users = codes "/users"

abbrev pub scope_admin_applications : Text
scope_admin_applications = codes "/applications"

abbrev pub scope_self_basic_read : Text
scope_self_basic_read = codes "/self/basic/r"

abbrev pub scope_self_basic_write : Text
scope_self_basic_write = codes "/self/basic/w"

abbrev pub scope_self_roles_write : Text
scope_self_roles_write = codes "/self/roles/w"

abbrev pub scope_self_subscriptions_read : Text
scope_self_subscriptions_read = codes "/self/subscriptions/r"

abbrev pub scope_self_subscriptions_cancel : Text
scope_self_subscriptions_cancel = codes "/self/subscriptions/cancel"

abbrev pub admin_role : Text
admin_role = codes "admin"

abbrev pub user_role : Text
user_role = codes "user"

abbrev pub user_scopes : List Text
user_scopes =
    scope_self_basic_read ∷ scope_self_basic_write ∷ scope_self_subscriptions_read
    ∷ scope_self_subscriptions_cancel ∷ []

-- `rolesScopesMap`, an entry of which is asked for by a role's name.
unfoldable pub roles_scopes_map : Text → Option (List Text)
roles_scopes_map role =
    if same admin_role role
    then some (scope_admin ∷ [])
    else if same user_role role
    then some user_scopes
    else none

unfoldable pub is_valid : Text → Bool
is_valid role = includes (admin_role ∷ user_role ∷ []) role

-- The loop of `getScopes`; `none` is the failed assertion.
pub collect_scopes : List Text → List Text → Option (List Text)
collect_scopes [] scopes = some scopes
collect_scopes (role ∷ roles) scopes = do
  added ← roles_scopes_map role
  collect_scopes roles (scopes ++ added)

unfoldable pub get_scopes : List Text → Option Scopes
unfolding collect_scopes
get_scopes roles = do scopes ← collect_scopes roles []; some (new_scopes scopes)

module _ (role : Text) where
  IsAdmin : Type 0
  IsAdmin = (role ≡ admin_role) × (roles_scopes_map role ≡ some (scope_admin ∷ []))

  roles_scopes_map-cases :
      IsAdmin ⊎ ((roles_scopes_map role ≡ some user_scopes) ⊎ (roles_scopes_map role ≡ none))
  unfolding roles_scopes_map IsAdmin
  roles_scopes_map-cases = elim (Bool-cases (same admin_role role)) [
    | inl e ↦ inl (sym (eq_of_same admin_role role e), rw e refl)
    | inr e ↦ elim (Bool-cases (same user_role role)) [
      | inl f ↦ inr (inl (rw (e, f) refl))
      | inr f ↦ inr (inr (rw (e, f) refl))
    ]
  ]

-- Where a scope of the result comes from.
abbrev Comes : List Text → List Text → Text → Type 0
Comes roles scopes s = In s scopes ⊎ (In s user_scopes ⊎ (In admin_role roles × (s ≡ scope_admin)))

collect_scopes→ :
    (roles scopes result : List Text) (s : Text)
    → collect_scopes roles scopes ≡ some result
    → In s result
    → Comes roles scopes s
unfolding collect_scopes IsAdmin
collect_scopes→ [] scopes result s h i = inl (subst (In s) (ground arith) i)
collect_scopes→ (role ∷ roles) scopes result s h i =
    let after : Option (List Text) → Option (List Text) =
      λ o. o >>= (λ added. collect_scopes roles (scopes ++ added)) in
    elim (roles_scopes_map-cases role) [
      | inl (is, e) ↦
          elim (collect_scopes→ roles (scopes ++ scope_admin ∷ []) result s (sym (ap after e) ∙ h)
            i) [
              | inl j ↦ elim (In-append→ s scopes (scope_admin ∷ []) j) [
                | inl k ↦ inl k
                | inr (inl k) ↦ inr (inr (inl (sym is), k))
                | inr (inr k) ↦ absurd k
              ]
              | inr (inl j) ↦ inr (inl j)
              | inr (inr (j, k)) ↦ inr (inr (inr j, k))
            ]
      | inr (inl e) ↦
          elim (collect_scopes→ roles (scopes ++ user_scopes) result s (sym (ap after e) ∙ h) i) [
            | inl j ↦ elim (In-append→ s scopes user_scopes j) [
              | inl k ↦ inl k
              | inr k ↦ inr (inl k)
            ]
            | inr (inl j) ↦ inr (inl j)
            | inr (inr (j, k)) ↦ inr (inr (inr j, k))
          ]
      | inr (inr e) ↦ let none_left = sym (ap after e) ∙ h in absurd (cc)
    ]

collect_scopes← :
    (roles scopes result : List Text)
    → collect_scopes roles scopes ≡ some result
    → ((s : Text) → In s scopes → In s result) × (In admin_role roles → In scope_admin result)
unfolding collect_scopes roles_scopes_map
collect_scopes← [] scopes result h = ((λ s i. subst (In s) (ground arith) i), λ i. absurd i)
collect_scopes← (role ∷ roles) scopes result h =
    by_role (λ added. collect_scopes← roles (scopes ++ added) result) (roles_scopes_map role) refl h
  where
    by_role :
        ((added : List Text)
          → collect_scopes roles (scopes ++ added) ≡ some result
          → ((s : Text) → In s (scopes ++ added) → In s result)
            × (In admin_role roles → In scope_admin result))
        → (o : Option (List Text)) → roles_scopes_map role ≡ o
        → (o >>= (λ added. collect_scopes roles (scopes ++ added))) ≡ some result
        → ((s : Text) → In s scopes → In s result)
          × (In admin_role (role ∷ roles) → In scope_admin result)
    by_role below none e h = absurd (cc)
    by_role below (some added) e h =
        let (keeps, admin) = below added h in
        (
          λ s i. keeps s (In-append_left s scopes added i),
          λ i. elim i [
            | inl p ↦
                let same_list : some (scope_admin ∷ []) ≡ some added = ap roles_scopes_map p ∙ e in
                let one : In scope_admin added =
                  subst (In scope_admin) {x = scope_admin ∷ []} (ground arith) (inl refl) in
                keeps scope_admin (In-append_right scope_admin scopes added one)
            | inr j ↦ admin j
          ],
        )

get_scopes→ :
    (roles : List Text) (scopes : Scopes)
    → get_scopes roles ≡ some scopes
    → (list : List Text) × (collect_scopes roles [] ≡ some list) × (new_scopes list ≡ scopes)
unfolding get_scopes
get_scopes→ roles scopes h = by_list (collect_scopes roles []) h
  where
    by_list :
        (o : Option (List Text))
        → (do list ← o; some (new_scopes list)) ≡ some scopes
        → (list : List Text) × (o ≡ some list) × (new_scopes list ≡ scopes)
    by_list none h = absurd (cc)
    by_list (some list) h = (list, refl, ground arith)

-- A path that no scope of the user role reaches.
admin_only :
    (roles : List Text) (scopes : Scopes) (path : Text)
    → get_scopes roles ≡ some scopes
    → any (covers path) user_scopes ≡ false
    → contains scopes path ≡ true
    → In admin_role roles
unfolding new_scopes
admin_only roles scopes path h off has =
    let (list, from, e) = get_scopes→ roles scopes h in
    let (base, i, w) = (contains_iff scopes path).0 has in
    let (j, full) =
      In-filter→ (λ s. not (all is_space s)) base (foldl add_to_set [] list)
        (subst (λ x. In base x.list) (sym e) i) in
    elim (In-set→ base list [] j) [
      | inl k ↦ absurd k
      | inr k ↦ elim (collect_scopes→ roles [] list base from k) [
        | inl l ↦ absurd l
        | inr (inl l) ↦
            let on = any← (covers path) user_scopes base l (covers← path base w) in
            absurd (ground arith)
        | inr (inr (l, same)) ↦ l
      ]
    ]

-- Whatever roles a user has, only the role of an administrator gives access to the users, to the
-- applications and to changes of roles; and it gives access to every path.
pub get_scopes-admin :
    (roles : List Text) (scopes : Scopes)
    → get_scopes roles ≡ some scopes
    → ((contains scopes scope_admin_users ≡ true)
          ⊎ ((contains scopes scope_admin_applications ≡ true)
              ⊎ (contains scopes scope_self_roles_write ≡ true))
        → In admin_role roles)
      × (In admin_role roles → (path : Text) → contains scopes (slash ∷ path) ≡ true)
unfolding covers new_scopes
get_scopes-admin roles scopes h = (
  λ way. elim way [
    | inl has ↦ admin_only roles scopes scope_admin_users h refl has
    | inr (inl has) ↦ admin_only roles scopes scope_admin_applications h refl has
    | inr (inr has) ↦ admin_only roles scopes scope_self_roles_write h refl has
  ],
  λ is path.
      let (list, from, e) = get_scopes→ roles scopes h in
      let i =
        In-filter← (λ s. not (all is_space s)) scope_admin (foldl add_to_set [] list)
          (In-set← scope_admin list [] ((collect_scopes← roles [] list from).1 is)) refl in
      (contains_iff scopes (slash ∷ path)).1
        (scope_admin, subst (λ x. In scope_admin x.list) e i, (path, refl, inr (inr refl))),
)
