-- ===== src/Accounts/User/Rights.antt =====
-- The roles and the payments of a user.
use bzd.Prelude.Text.{Text, includes, same_refl, eq_of_same, same}
use bzd.Prelude.{
  ◌≡◌, ◌≢◌, ◌||◌, refl, sym, ap, subst, ◌∙◌, ◌⊎◌, inl, inr, ◌↔◌, Bool, true, false, Option, none,
  some, List, [], ◌∷◌, ◌++◌, if◌then◌else◌, ◌>>=◌, arith, Bool-cases, In, any→, In-append→,
  In-append_left, In-append_right,
}
use bzd.Accounts.Roles as Roles
use bzd.Accounts.User.{
  User, Change, role_added, get_or_empty, get_roles, modify, add_role, add_roles, set_roles,
  has_payment, register_payment,
}

module _ (s : Text) where
  includes-append_self : (l : List Text) → includes (l ++ s ∷ []) s ≡ true
  includes-append_self [] = let e = same_refl s in ground arith
  includes-append_self (t ∷ l) = let e = includes-append_self l in ground arith

  includes-append_ne :
      (l : List Text) (other : Text) → other ≢ s → includes (l ++ s ∷ []) other ≡ includes l other
  includes-append_ne [] other ne = elim (Bool-cases (same s other)) [
    | inl e ↦ absurd (ne (sym (eq_of_same s other e)))
    | inr e ↦ ground arith
  ]
  includes-append_ne (t ∷ l) other ne =
      let e = includes-append_ne l other ne in ap (λ b. same t other || b) e

-- `registerPayment` throws for a payment that was registered; else it registers that one and no
-- other, so that it throws for it from then on.
pub register_payment-once :
    (u : User) (uid : Text)
    → ((has_payment u uid ≡ true) × (register_payment u uid ≡ none))
      ⊎ ((u' : User) × (has_payment u uid ≡ false)
          × (register_payment u uid ≡ some u')
          × (register_payment u' uid ≡ none)
          × ((other : Text) → other ≢ uid → has_payment u' other ≡ has_payment u other))
unfolding register_payment has_payment
register_payment-once u uid = by_test (includes paid uid) refl
  where
    paid : List Text
    paid = get_or_empty u.value.payments

    with_payment : User
    with_payment = record u { value = record (u.value) { payments = some (paid ++ uid ∷ []) } }

    by_test :
        (b : Bool)
        → includes paid uid ≡ b
        → ((b ≡ true) × ((if b then none else some with_payment) ≡ none))
          ⊎ ((u' : User) × (b ≡ false)
              × ((if b then none else some with_payment) ≡ some u')
              × (register_payment u' uid ≡ none)
              × ((other : Text) → other ≢ uid → has_payment u' other ≡ has_payment u other))
    by_test true e = inl (refl, refl)
    by_test false e = inr (
      with_payment,
      refl,
      refl,
      ap
          (λ b.
            if b
            then none
            else some (record with_payment {
              value = record (with_payment.value) {
                payments = some ((paid ++ uid ∷ []) ++ uid ∷ []);
              };
            }))
          (includes-append_self uid paid),
      λ other ne. includes-append_ne uid paid other ne,
    )

-- Both users have the same roles but for those that the second one has from `more`.
abbrev Gains : User → User → (Text → Type 0) → Type 0
Gains u u' more = (r : Text) → In r (get_roles u') ↔ (In r (get_roles u) ⊎ more r)

add_role→ :
    (u : User) (role : Text) (u' : User)
    → add_role u role ≡ some u'
    → (Roles.is_valid role ≡ true) × Gains u u' (λ r. r ≡ role)
unfolding add_role
add_role→ u role u' h = by_tests (Roles.is_valid role) (includes (get_roles u) role) refl refl h
  where
    with_role : User
    with_role = record (modify u (role_added role)) {
      value = record (u.value) { roles = some (get_roles u ++ role ∷ []) };
    }

    by_tests :
        (b c : Bool)
        → Roles.is_valid role ≡ b
        → includes (get_roles u) role ≡ c
        → (if b then some (if c then modify u (role_added role) else with_role) else none) ≡ some u'
        → (Roles.is_valid role ≡ true) × Gains u u' (λ r. r ≡ role)
    by_tests false c e f h = absurd (cc)
    by_tests true true e f h =
        let (t, i, s) = any→ (λ t. same t role) (get_roles u) f in
        (
          e,
          subst (λ v. Gains u v (λ r. r ≡ role)) {x = modify u (role_added role)} {y = u'}
              (ground arith)
              (λ r. (
                inl,
                λ way. elim way [
                  | inl j ↦ j
                  | inr p ↦ subst (λ x. In x (get_roles u)) (eq_of_same t role s ∙ sym p) i
                ],
              )),
        )
    by_tests true false e f h = (
      e,
      subst (λ v. Gains u v (λ r. r ≡ role)) {x = with_role} {y = u'} (ground arith)
          (λ r. (
            λ i. elim (In-append→ r (get_roles u) (role ∷ []) i) [
              | inl j ↦ inl j
              | inr (inl p) ↦ inr p
              | inr (inr j) ↦ absurd j
            ],
            λ way. elim way [
              | inl j ↦ In-append_left r (get_roles u) (role ∷ []) j
              | inr p ↦ In-append_right r (get_roles u) (role ∷ []) (inl p)
            ],
          )),
    )

add_roles→ :
    (roles : List Text) (u u' : User)
    → add_roles u roles ≡ some u'
    → ((r : Text) → In r roles → Roles.is_valid r ≡ true) × Gains u u' (λ r. In r roles)
unfolding add_roles
add_roles→ [] u u' h = (
  (λ r i. absurd i),
  subst (λ v. Gains u v (λ r. ⊥)) {x = u} {y = u'} (ground arith)
      (λ r. (inl, λ way. elim way [ inl i ↦ i | inr i ↦ absurd i ])),
)
add_roles→ (role ∷ roles) u u' h = by_first (λ v. add_roles→ roles v u') (add_role u role) refl h
  where
    by_first :
        ((v : User)
          → add_roles v roles ≡ some u'
          → ((r : Text) → In r roles → Roles.is_valid r ≡ true) × Gains v u' (λ r. In r roles))
        → (o : Option User) → add_role u role ≡ o
        → (do v ← o; add_roles v roles) ≡ some u'
        → ((r : Text) → In r (role ∷ roles) → Roles.is_valid r ≡ true)
          × Gains u u' (λ r. In r (role ∷ roles))
    by_first below none e h = absurd (cc)
    by_first below (some v) e h =
        let (valid, first) = add_role→ u role v e in
        let (all_valid, rest) = below v h in
        (
          (λ r i. elim i [ inl p ↦ ap Roles.is_valid p ∙ valid | inr j ↦ all_valid r j ]),
          λ r. (
            λ i. elim ((rest r).0 i) [
              | inl j ↦ elim ((first r).0 j) [ inl k ↦ inl k | inr p ↦ inr (inl p) ]
              | inr j ↦ inr (inr j)
            ],
            λ way. (rest r).1 (elim way [
              | inl k ↦ inl ((first r).1 (inl k))
              | inr (inl p) ↦ inl ((first r).1 (inr p))
              | inr (inr j) ↦ inr j
            ]),
          ),
        )

add_roles-valid :
    (roles : List Text) (u : User)
    → ((r : Text) → In r roles → Roles.is_valid r ≡ true)
    → (u' : User) × (add_roles u roles ≡ some u')
unfolding add_roles add_role
add_roles-valid [] u valid = (u, refl)
add_roles-valid (role ∷ roles) u valid =
    rw (valid role (inl refl)) (add_roles-valid roles _ (λ r i. valid r (inr i)))

-- `setRoles` throws exactly if a role is not valid; else the user has the given roles, and no other
-- that the user may have had before.
pub set_roles-gives :
    (u : User) (given : List Text)
    → (((r : Text) → In r given → Roles.is_valid r ≡ true)
        ↔ ((u' : User) × (set_roles u given ≡ some u')))
      × ((u' : User) → set_roles u given ≡ some u' → (r : Text) → In r (get_roles u') ↔ In r given)
unfolding set_roles
set_roles-gives u given =
    let cleared : User = record (modify u Change.roles) {
      value = record (u.value) { roles = some [] };
    } in
    (
      (add_roles-valid given cleared, λ (u', h). (add_roles→ given cleared u' h).0),
      λ u' h r.
          let gains = (add_roles→ given cleared u' h).1 r in
          (
            λ i. elim (gains.0 i) [ inl none_before ↦ absurd none_before | inr j ↦ j ],
            λ j. gains.1 (inr j),
          ),
    )
