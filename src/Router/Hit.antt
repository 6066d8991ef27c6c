-- ===== src/Router/Hit.antt =====
-- The groups of a match in nodejs/core/router.js, and the first route whose own expression matches.
use mathlib.Core.List
use bzd.Prelude.Text.{Text}
use bzd.Prelude.{
  ℕ, suc, ◌+◌, ◌-◌, ◌*◌, ◌<◌, ◌≡◌, refl, sym, ap, ◌∙◌, ◌⊎◌, inl, inr, Option, none, some, List, [],
  ◌∷◌, ◌++◌, map, length, length-append, get_elem?, All, Option-cases, arith,
}
use bzd.Router.Expression.{match_elements}
use bzd.Router.Captures.{match_elements-length}
use bzd.Router.Counted.{Fits}
use bzd.Router.Groups.{
  length-repeat, group-append_right, count_down-append_front, own_groups, count_down-own_groups,
  group-own_groups,
}
use bzd.Router.Match.{Route, repeat, group, count_down, match_alternatives}

module _ {H : Type 0} (fold : ℕ → ℕ) where
  -- The first route, in the order of insertion, whose own expression matches.
  unfoldable pub first_route : List (Route H) → Text → Option (Route H × List Text)
  first_route [] path = none
  first_route (route ∷ routes) path = elim (match_elements fold route.compiled.elements path) [
    | some captures ↦ some (route, captures)
    | none ↦ first_route routes path
  ]

-- What a match says of the routes: the last defined group ends the groups of a route, and that route is
-- the first one that matches, with its captures.
pub record Hit {H : Type 0} (fold : ℕ → ℕ) (max_vars : ℕ) (routes : List (Route H)) (path : Text)
    (groups : List (Option Text)) : Type 0 where
  pub index : ℕ
  pub route : Route H
  pub captures : List Text
  pub is_at : get_elem? routes index ≡ some route
  pub is_first : first_route fold routes path ≡ some (route, captures)
  pub counted : count_down groups (length groups) ≡ index * max_vars + max_vars
  pub fits : length route.compiled.vars < max_vars
  pub own :
      (j : ℕ)
      → j < length route.compiled.vars
      → group groups (j + index * max_vars) ≡ get_elem? captures j

module _ {H : Type 0} (fold : ℕ → ℕ) where
  pub match_alternatives-some :
      (m : ℕ) (route : Route H) (routes : List (Route H)) (path : Text) {captures : List Text}
      → match_elements fold route.compiled.elements path ≡ some captures
      → match_alternatives fold m (route ∷ routes) path
        ≡ some (
            map some captures
            ++ (repeat (some []) (m - length route.compiled.vars)
                ++ repeat none (m * length routes)))
  unfolding match_alternatives
  match_alternatives-some m route routes path e = rw (e, match_alternatives) refl

  pub match_alternatives-none :
      (m : ℕ) (route : Route H) (routes : List (Route H)) (path : Text)
      → match_elements fold route.compiled.elements path ≡ none
      → match_alternatives fold m routes path ≡ none
      → match_alternatives fold m (route ∷ routes) path ≡ none
  unfolding match_alternatives
  match_alternatives-none m route routes path e f = rw (e, f, match_alternatives) refl

  pub match_alternatives-later :
      (m : ℕ) (route : Route H) (routes : List (Route H)) (path : Text)
      {groups : List (Option Text)}
      → match_elements fold route.compiled.elements path ≡ none
      → match_alternatives fold m routes path ≡ some groups
      → match_alternatives fold m (route ∷ routes) path ≡ some (repeat none m ++ groups)
  unfolding match_alternatives
  match_alternatives-later m route routes path e f = rw (e, f, match_alternatives) refl

  pub first_route-some :
      (route : Route H) (routes : List (Route H)) (path : Text) {captures : List Text}
      → match_elements fold route.compiled.elements path ≡ some captures
      → first_route fold (route ∷ routes) path ≡ some (route, captures)
  unfolding first_route
  first_route-some route routes path e = rw (e, first_route) refl

  pub first_route-later :
      (route : Route H) (routes : List (Route H)) (path : Text)
      → match_elements fold route.compiled.elements path ≡ none
      → first_route fold (route ∷ routes) path ≡ first_route fold routes path
  unfolding first_route
  first_route-later route routes path e = rw (e, first_route) refl

  -- The first route matches.
  pub Hit-here :
      (m : ℕ) (route : Route H) (routes : List (Route H)) (path : Text) (captures : List Text)
      → match_elements fold route.compiled.elements path ≡ some captures
      → Fits m route
      → Hit fold m
          (route ∷ routes)
          path
          (own_groups captures (m - suc (length captures)) ++ repeat none (m * length routes))
  Hit-here m route routes path captures e (counts, fits) =
      let d = m - suc (length captures) in
      let same_length : length captures ≡ length route.compiled.vars =
        match_elements-length fold route.compiled.elements path e ∙ counts in
      record {
        index = 0;
        route = route;
        captures = captures;
        is_at = refl;
        is_first = first_route-some route routes path e;
        counted = count_down-own_groups captures d (m * length routes) ∙ omega arith;
        fits = fits;
        own = λ j b.
            ap (group (own_groups captures d ++ repeat none (m * length routes))) {x = j + 0 * m}
              {y = j} (omega arith)
            ∙ group-own_groups captures d (m * length routes) j (omega arith);
      }

  -- Routes in front that do not match.
  pub Hit-later :
      (m : ℕ) (route : Route H) (routes : List (Route H)) (path : Text)
      (groups : List (Option Text))
      → match_elements fold route.compiled.elements path ≡ none
      → Hit fold m routes path groups
      → Hit fold m (route ∷ routes) path (repeat none m ++ groups)
  Hit-later m route routes path groups e hit = record {
    index = suc hit.index;
    route = hit.route;
    captures = hit.captures;
    is_at = hit.is_at;
    is_first = first_route-later route routes path e ∙ hit.is_first;
    counted =
        ap (count_down (repeat none m ++ groups)) (length-append (repeat none m) groups)
        ∙ count_down-append_front (repeat none m) groups (length groups) (hit.index * m + m - 1)
            (omega (arith, hit.counted, hit.fits))
        ∙ omega (arith, length-repeat {A = Option Text} none m, hit.counted, hit.fits);
    fits = hit.fits;
    own = λ j b.
        ap (group (repeat none m ++ groups)) {x = j + suc hit.index * m}
          {y = length (repeat {A = Option Text} none m) + (j + hit.index * m)}
          (omega (arith, length-repeat {A = Option Text} none m))
        ∙ group-append_right (repeat none m) groups (j + hit.index * m)
        ∙ hit.own j b;
  }

  pub match_alternatives-Hit :
      (m : ℕ) (routes : List (Route H)) (path : Text)
      → All (Fits m) routes
      → (match_alternatives fold m routes path ≡ none) × (first_route fold routes path ≡ none)
        ⊎ ((groups : List (Option Text)) × (match_alternatives fold m routes path ≡ some groups)
            × Hit fold m routes path groups)
  unfolding match_alternatives first_route
  match_alternatives-Hit m [] path h = inl (refl, refl)
  match_alternatives-Hit m (route ∷ routes) path ((counts, fits), h) =
      elim (Option-cases (match_elements fold route.compiled.elements path)) [
        | inr (captures, e) ↦
            let same_length : length captures ≡ length route.compiled.vars =
              match_elements-length fold route.compiled.elements path e ∙ counts in
            let found =
              match_alternatives-some m route routes path e
              ∙ ap
                  (λ n.
                    some (
                      map some captures ++ (repeat (some []) n ++ repeat none (m * length routes))))
                  {x = m - length route.compiled.vars} {y = suc (m - suc (length captures))}
                  (omega arith)
              ∙ ap some (sym (List.append_assoc (map some captures) _ _)) in
            inr (_, found, Hit-here m route routes path captures e (counts, fits))
        | inl e ↦ elim (match_alternatives-Hit m routes path h) [
          | inl (f, g) ↦ inl (
            match_alternatives-none m route routes path e f,
            first_route-later route routes path e ∙ g,
          )
          | inr (groups, f, hit) ↦ inr (
            repeat none m ++ groups,
            match_alternatives-later m route routes path e f,
            Hit-later m route routes path groups e hit,
          )
        ]
      ]
