-- ===== src/Router/First.antt =====
-- What `match` of nodejs/core/router.js finds with one expression for all routes: the first route that
-- matches by itself, with its own captures.
use native.Mathlib.Nat.{mul-add-div_right, div-eq_of_lt}
use bzd.Prelude.Map
use bzd.Prelude.Map.{Map}
use bzd.Prelude.Text.{Text, text_discrete}
use bzd.Prelude.{
  ℕ, suc, ◌+◌, ◌-◌, ◌*◌, ◌/◌, ◌≤◌, ◌<◌, ◌≡◌, refl, sym, ap, subst, ◌∙◌, ◌⊎◌, inl, inr, Option, none,
  some, List, [], ◌∷◌, length, get_elem?, Option-cases, arith, true, false, Bool-cases,
  if◌then◌else◌,
}
use bzd.Router.{Variable, Value}
use bzd.Router.Counted.{compile_routes-Fits}
use bzd.Router.Groups.{count_down-repeat-none}
use bzd.Router.Hit.{Hit, first_route, match_alternatives-Hit}
use bzd.Router.Match.{
  Route, Router, Compiled, MatchResult, no_match, thrown, repeat, count_down, cast_group,
  build_vars, as_match, add, compile_routes, match_route, by_counter, identify, match_compiled,
  match_with, match,
}

-- The variables depend on no other groups than their own.
pub build_vars-same :
    (decode : Text → Option Text) (f g : ℕ → Option Text) (index : ℕ) (var_list : List Variable)
    (vars : Map Text Value)
    → ((j : ℕ) → index ≤ j → j < index + length var_list → f j ≡ g j)
    → build_vars decode f index var_list vars ≡ build_vars decode g index var_list vars
unfolding build_vars
build_vars-same decode f g index [] vars h = refl
build_vars-same decode f g index (v ∷ var_list) vars h =
    let here = h index (omega arith) (omega arith) in
    elim (Option-cases (cast_group decode v.cast (g index))) [
      | inl e ↦ rw (here, e, build_vars) refl
      | inr (value, e) ↦
          rw (here, e, build_vars)
            (build_vars-same decode f g (index + 1) var_list
              (Map.set text_discrete v.name value vars) (λ j a b. h j (omega arith) (omega arith)))
    ]

module _ {H : Type 0} (fold : ℕ → ℕ) (decode : Text → Option Text) where
  -- The variables are built from the captures of the route.
  abbrev pub by_first : Option (Route H × List Text) → MatchResult H
  by_first none = no_match
  by_first (some (route, captures)) =
      as_match route.handler
        (build_vars decode (λ index. get_elem? captures index) 0 route.compiled.vars [])

  pub identify-Hit :
      (compiled : Compiled H) (path : Text) (groups : List (Option Text))
      → Hit fold compiled.max_vars compiled.routes path groups
      → identify decode compiled (some groups) ≡ by_first (first_route fold compiled.routes path)
  identify-Hit compiled path groups hit =
      let m = compiled.max_vars in
      let c = hit.index * m + (m - 1) in
      let last : count_down groups (length groups) ≡ suc c =
        hit.counted ∙ omega (arith, hit.fits) in
      let small : (m - 1) / m ≡ 0 = div-eq_of_lt (omega (arith, hit.fits)) in
      let quotient : c / m ≡ hit.index =
        mul-add-div_right {m = m} (omega (arith, hit.fits)) hit.index (m - 1)
        ∙ (ap (λ q. hit.index + q) small ∙ omega arith) in
      let at_index =
        ap (by_counter decode compiled groups) last
        ∙ ap (λ i. match_route decode (i * m) groups (get_elem? compiled.routes i)) quotient
        ∙ ap (match_route decode (hit.index * m) groups) hit.is_at in
      at_index
      ∙ ap (as_match hit.route.handler) (
          build_vars-same decode _ _ 0 hit.route.compiled.vars []
            (λ j a b. hit.own j (omega arith)))
      ∙ ap by_first (sym hit.is_first)

  pub match_compiled-is_first :
      (routes : Map Text H) (compiled : Compiled H) (c : ℕ) (path : Text)
      → compile_routes routes ≡ some compiled
      → match_compiled fold decode compiled (c ∷ path)
        ≡ by_first (first_route fold compiled.routes (c ∷ path))
  unfolding match_compiled
  match_compiled-is_first routes compiled c path e =
      elim (match_alternatives-Hit fold compiled.max_vars compiled.routes (c ∷ path)
        (compile_routes-Fits routes compiled e)) [
          | inl (f, g) ↦ ap (identify decode compiled) f ∙ ap by_first (sym g)
          | inr (groups, f, hit) ↦
              ap (identify decode compiled) f ∙ identify-Hit compiled (c ∷ path) groups hit
        ]

-- The states of a router after some calls of `add` and `match`.
pub data Reachable {H : Type 0} (fold : ℕ → ℕ) (decode : Text → Option Text)
    : Router H → Type 0 where
  created : Reachable fold decode (record { routes = []; dirty = true; compiled = none })
  added :
      (router : Router H) (path : Text) (handler : H)
      → Reachable fold decode router
      → Reachable fold decode (add router path handler)
  matched :
      (router : Router H) (path : Text)
      → Reachable fold decode router
      → Reachable fold decode (match fold decode router path).0

-- The data is that of the routes, unless the routes are to be compiled.
abbrev pub IsFresh : {H : Type 0} → Router H → Type 0
IsFresh router = router.dirty ≡ false → router.compiled ≡ compile_routes router.routes

module _ {H : Type 0} (fold : ℕ → ℕ) (decode : Text → Option Text) where
  -- `match` works with the data of the routes.
  pub match-compile_routes :
      (router : Router H) (path : Text)
      → IsFresh router
      → match fold decode router path
        ≡ match_with fold decode router path (compile_routes router.routes)
  unfolding match
  match-compile_routes router path h = elim (Bool-cases router.dirty) [
    | inl e ↦
        ap
          (λ b.
            match_with fold decode router path
              (if b then compile_routes router.routes else router.compiled))
          e
    | inr e ↦
        ap
          (λ b.
            match_with fold decode router path
              (if b then compile_routes router.routes else router.compiled))
          e
        ∙ ap (match_with fold decode router path) (h e)
  ]

  pub match-cases :
      (router : Router H) (path : Text)
      → IsFresh router
      → ((compile_routes router.routes ≡ none) × (match fold decode router path ≡ (router, thrown)))
        ⊎ ((compiled : Compiled H) × (compile_routes router.routes ≡ some compiled)
            × (match fold decode router path ≡ (
              record router { dirty = false; compiled = some compiled },
              match_compiled fold decode compiled path,
            )))
  match-cases router path h =
      let whole = match-compile_routes router path h in
      elim (Option-cases (compile_routes router.routes)) [
        | inl e ↦ inl (e, whole ∙ ap (match_with fold decode router path) e)
        | inr (compiled, e) ↦ inr (compiled, e, whole ∙ ap (match_with fold decode router path) e)
      ]

  pub Reachable-IsFresh : {router : Router H} → Reachable fold decode router → IsFresh router
  unfolding add
  Reachable-IsFresh created h = absurd (cc)
  Reachable-IsFresh (added router path handler r) h = absurd (cc)
  Reachable-IsFresh (matched router path r) not_dirty =
      elim (match-cases router path (Reachable-IsFresh r)) [
        | inl (e, f) ↦ subst IsFresh (ap (λ m. m.0) (sym f)) (Reachable-IsFresh r) not_dirty
        | inr (compiled, e, f) ↦ subst IsFresh (ap (λ m. m.0) (sym f)) (λ h. sym e) not_dirty
      ]

  -- What `match` is to give at a path.
  abbrev pub found_in : Option (Compiled H) → Text → MatchResult H
  found_in none path = thrown
  found_in (some compiled) path = by_first fold decode (first_route fold compiled.routes path)

  -- At a path that is not empty, `match` of a router that any calls of `add` and `match` lead to gives
  -- what the first route gives, in the order of insertion, whose own expression matches the path: that
  -- route's handler, with its variables cast from its own captures, or the exception of a cast. It gives
  -- no match if there is no such route, and an exception if a route cannot be compiled.
  pub match-is_first :
      (router : Router H) (c : ℕ) (path : Text)
      → Reachable fold decode router
      → (match fold decode router (c ∷ path)).1 ≡ found_in (compile_routes router.routes) (c ∷ path)
  match-is_first router c path r = elim (match-cases router (c ∷ path) (Reachable-IsFresh r)) [
    | inl (e, f) ↦ ap (λ m. m.1) f ∙ ap (λ o. found_in o (c ∷ path)) (sym e)
    | inr (compiled, e, f) ↦
        ap (λ m. m.1) f
        ∙ match_compiled-is_first fold decode router.routes compiled c path e
        ∙ ap (λ o. found_in o (c ∷ path)) (sym e)
  ]

  -- At the empty path `match` of a router that any calls of `add` and `match` lead to ends with an
  -- exception, whatever the routes.
  pub match-empty_path :
      (router : Router H) → Reachable fold decode router → (match fold decode router []).1 ≡ thrown
  unfolding match_compiled
  match-empty_path router r = elim (match-cases router [] (Reachable-IsFresh r)) [
    | inl (e, f) ↦ ap (λ m. m.1) f
    | inr (compiled, e, f) ↦
        let n = compiled.max_vars * length compiled.routes in
        ap (λ m. m.1) f
        ∙ ap (by_counter decode compiled (repeat none n))
            (count_down-repeat-none n (length (repeat {A = Option Text} none n)))
  ]
