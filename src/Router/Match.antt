-- ===== src/Router/Match.antt =====
-- The class `Router` of nodejs/core/router.js: `add` and `match`, with the one expression that
-- `compileRoutes` makes of all routes.
use bzd.Prelude.Map
use bzd.Prelude.Map.{Map}
use bzd.Prelude.Text.{Text, text_discrete}
use bzd.Prelude.{
  ℕ, zero, suc, ◌+◌, ◌-◌, ◌*◌, ◌/◌, Bool, true, false, Option, none, some, List, [], ◌∷◌, ◌++◌,
  if◌then◌else◌, ◌>>=◌, map, length, get_elem?, drop, max,
}
use bzd.Router.{
  Variable, Cast, decoded, without_first, as_text, as_integer, CompiledRoute, Value, text, integer,
}
use bzd.Router.Expression.{match_elements}
use bzd.Router.Compile.{to_compiled_route}

-- A route of `routes`; the arguments `args` go with the handler.
pub record Route (H : Type 0) : Type 0 where
  pub handler : H
  pub compiled : CompiledRoute

-- `this.data`: the routes, and the number of groups of each, one more than the most variables.
pub record Compiled (H : Type 0) : Type 0 where
  pub routes : List (Route H)
  pub max_vars : ℕ

pub record Router (H : Type 0) : Type 0 where
  pub routes : Map Text H
  pub dirty : Bool
  pub compiled : Option (Compiled H)

-- What `match` ends with: false, the handler and the variables, or an exception.
pub data MatchResult (H : Type 0) : Type 0 where
  no_match : MatchResult H
  matching : H → Map Text Value → MatchResult H
  thrown : MatchResult H

-- "()".repeat(count) and the groups that take no part in the match.
abbrev pub repeat : {A : Type 0} → A → ℕ → List A
repeat a zero = []
repeat a (suc n) = a ∷ repeat a n

-- matches[index + 1], with `undefined` as `none`
abbrev pub group : List (Option Text) → ℕ → Option Text
group [] i = none
group (g ∷ groups) zero = g
group (g ∷ groups) (suc i) = group groups i

-- while (--counter && matches[counter] === undefined) {}
unfoldable pub count_down : List (Option Text) → ℕ → ℕ
count_down groups zero = zero
count_down groups (suc c) = elim (group groups c) [ none ↦ count_down groups c | some s ↦ suc c ]

-- parseInt of digits
abbrev pub parse_int : ℕ → Text → ℕ
parse_int n [] = n
parse_int n (c ∷ s) = parse_int (n * 10 + (c - b'0')) s

module _ (decode : Text → Option Text) where
  -- varSchema.cast(varStr), where decodeURIComponent may throw.
  abbrev pub cast_value : Cast → Text → Option Value
  cast_value decoded s = do d ← decode s; some (text d)
  cast_value without_first s = some (text (drop 1 s))
  cast_value as_text s = some (text s)
  cast_value as_integer s = some (integer (parse_int 0 s))

  abbrev pub cast_group : Cast → Option Text → Option Value
  cast_group cast none = none
  cast_group cast (some s) = cast_value cast s

  -- The loop over `varList`: the groups from an index on.
  unfoldable pub build_vars :
      (ℕ → Option Text) → ℕ → List Variable → Map Text Value → Option (Map Text Value)
  build_vars groups index [] vars = some vars
  build_vars groups index (v ∷ var_list) vars = elim (cast_group v.cast (groups index)) [
    | none ↦ none
    | some value ↦ build_vars groups (index + 1) var_list (Map.set text_discrete v.name value vars)
  ]

module _ {H : Type 0} where
  unfoldable pub add : Router H → Text → H → Router H
  add router path handler = record router {
    routes = Map.set text_discrete path handler router.routes;
    dirty = true;
  }

  -- The loop of `compileRoutes` over the routes.
  unfoldable pub route_data : Map Text H → Option (List (Route H))
  route_data [] = some []
  route_data ((path, handler) ∷ routes) = elim (to_compiled_route path) [
    | none ↦ none
    | some compiled ↦ elim (route_data routes) [
      | none ↦ none
      | some more ↦ some (record { handler = handler; compiled = compiled } ∷ more)
    ]
  ]

  abbrev pub most_vars : List (Route H) → ℕ
  most_vars [] = 0
  most_vars (route ∷ routes) = max (length route.compiled.vars) (most_vars routes)

  unfoldable pub compile_routes : Map Text H → Option (Compiled H)
  compile_routes routes = do
    found ← route_data routes
    some (record { routes = found; max_vars = most_vars found + 1 })

  abbrev pub as_match : H → Option (Map Text Value) → MatchResult H
  as_match handler none = thrown
  as_match handler (some vars) = matching handler vars

  module _ (decode : Text → Option Text) where
    abbrev pub match_route : ℕ → List (Option Text) → Option (Route H) → MatchResult H
    match_route index_var groups none = thrown
    match_route index_var groups (some route) =
        as_match route.handler
          (build_vars decode (λ index. group groups (index + index_var)) 0 route.compiled.vars [])

    -- The index of the route comes from the last group that is defined. Without one it is -1, where no
    -- route is, and the access to its variables throws.
    abbrev pub by_counter : Compiled H → List (Option Text) → ℕ → MatchResult H
    by_counter compiled groups zero = thrown
    by_counter compiled groups (suc c) =
        let index_route = c / compiled.max_vars in
        match_route (index_route * compiled.max_vars) groups (get_elem? compiled.routes index_route)

    abbrev pub identify : Compiled H → Option (List (Option Text)) → MatchResult H
    identify compiled none = no_match
    identify compiled (some groups) = by_counter compiled groups (count_down groups (length groups))

  module _ (fold : ℕ → ℕ) where
    -- The groups of the expression of all routes: those of the first alternative that matches, each with
    -- empty groups up to the number, and the others undefined.
    unfoldable pub match_alternatives : ℕ → List (Route H) → Text → Option (List (Option Text))
    match_alternatives max_vars [] path = none
    match_alternatives max_vars (route ∷ routes) path =
        elim (match_elements fold route.compiled.elements path) [
          | some captures ↦ some (
              map some captures
              ++ (repeat (some []) (max_vars - length route.compiled.vars)
                  ++ repeat none (max_vars * length routes)))
          | none ↦ elim (match_alternatives max_vars routes path) [
            | none ↦ none
            | some groups ↦ some (repeat none max_vars ++ groups)
          ]
        ]

    -- "^(?:|...)$": the first alternative is the empty one.
    abbrev pub match_all : Compiled H → Text → Option (List (Option Text))
    match_all compiled [] = some (repeat none (compiled.max_vars * length compiled.routes))
    match_all compiled (c ∷ path) = match_alternatives compiled.max_vars compiled.routes (c ∷ path)

    module _ (decode : Text → Option Text) where
      unfoldable pub match_compiled : Compiled H → Text → MatchResult H
      match_compiled compiled path = identify decode compiled (match_all compiled path)

      -- `match`, which compiles the routes if one was added.
      abbrev pub match_with : Router H → Text → Option (Compiled H) → Router H × MatchResult H
      match_with router path none = (router, thrown)
      match_with router path (some compiled) =
          (record router { dirty = false; compiled = some compiled }, match_compiled compiled path)

      unfoldable pub match : Router H → Text → Router H × MatchResult H
      match router path =
          match_with router path
            (if router.dirty then compile_routes router.routes else router.compiled)
