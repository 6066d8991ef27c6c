-- ===== src/Router/Counted.antt =====
-- `compileRoutes` of nodejs/core/router.js gives each expression as many groups as the route has
-- variables, and reserves more groups than that.
use bzd.Prelude.Text.{Text, codes, same}
use bzd.Prelude.Map.{Map}
use bzd.Prelude.{
  ℕ, zero, suc, ◌+◌, ◌<◌, ◌≡◌, refl, subst, ap, inl, inr, true, Option, none, some, List, [], ◌∷◌,
  ◌++◌, length, length-append, Bool-cases, Option-cases, All, arith, ◌||◌,
}
use bzd.Router.{
  Part, Element, lit, segment, slash_rest, rest, some_rest, digits, CompiledRoute, Cast, Variable,
}
use bzd.Router.Captures.{groups_of}
use bzd.Router.Compile.{
  ends_in_slash, without_last, is_empty, add_format, literal_elements, compile_parts,
  to_compiled_route, split_route,
}
use bzd.Router.Match.{Route, Compiled, route_data, most_vars, compile_routes}

pub groups_of-append : (a b : List Element) → groups_of (a ++ b) ≡ groups_of a + groups_of b
groups_of-append [] b = omega arith
groups_of-append (lit c ∷ a) b = groups_of-append a b
groups_of-append (segment ∷ a) b = omega (arith, groups_of-append a b)
groups_of-append (slash_rest ∷ a) b = omega (arith, groups_of-append a b)
groups_of-append (rest ∷ a) b = omega (arith, groups_of-append a b)
groups_of-append (some_rest ∷ a) b = omega (arith, groups_of-append a b)
groups_of-append (digits ∷ a) b = omega (arith, groups_of-append a b)

pub groups_of-literal : (text : Text) → groups_of (literal_elements text) ≡ 0
groups_of-literal [] = refl
groups_of-literal (c ∷ text) = groups_of-literal text

-- The slash that is cut off is no group.
pub groups_of-without_last :
    (a : List Element) → ends_in_slash a ≡ true → groups_of (without_last a) ≡ groups_of a
groups_of-without_last [] h = refl
groups_of-without_last (lit c ∷ []) h = refl
groups_of-without_last (segment ∷ []) h = absurd (cc)
groups_of-without_last (slash_rest ∷ []) h = absurd (cc)
groups_of-without_last (rest ∷ []) h = absurd (cc)
groups_of-without_last (some_rest ∷ []) h = absurd (cc)
groups_of-without_last (digits ∷ []) h = absurd (cc)
groups_of-without_last (lit c ∷ f ∷ a) h = groups_of-without_last (f ∷ a) h
groups_of-without_last (segment ∷ f ∷ a) h = ap suc (groups_of-without_last (f ∷ a) h)
groups_of-without_last (slash_rest ∷ f ∷ a) h = ap suc (groups_of-without_last (f ∷ a) h)
groups_of-without_last (rest ∷ f ∷ a) h = ap suc (groups_of-without_last (f ∷ a) h)
groups_of-without_last (some_rest ∷ f ∷ a) h = ap suc (groups_of-without_last (f ∷ a) h)
groups_of-without_last (digits ∷ f ∷ a) h = ap suc (groups_of-without_last (f ∷ a) h)

-- An extension by one group.
abbrev pub Adds : List Element → Option (List Element × Cast) → Type 0
Adds elements none = Unit
Adds elements (some found) = groups_of found.0 ≡ suc (groups_of elements)

pub add_format-Adds :
    (elements : List Element) (format : Text) → Adds elements (add_format elements format)
unfolding add_format
add_format-Adds elements format =
    let base = groups_of-append elements in
    elim (Bool-cases (same format [])) [
      | inl a ↦ rw a (omega (arith, base (segment ∷ [])))
      | inr a ↦ elim (Bool-cases (same format (codes "*"))) [
        | inl b ↦ elim (Bool-cases (ends_in_slash elements)) [
          | inl c ↦
              rw (a, b, c)
                (omega (
                  arith,
                  groups_of-append (without_last elements) (slash_rest ∷ []),
                  groups_of-without_last elements c,
                ))
          | inr c ↦ elim (Bool-cases (is_empty elements)) [
            | inl d ↦ rw (a, b, c, d) (only_rest elements d)
            | inr d ↦ rw (a, b, c, d) tt
          ]
        ]
        | inr b ↦ elim (Bool-cases (same format (codes "+"))) [
          | inl c ↦ elim (Bool-cases (is_empty elements || ends_in_slash elements)) [
            | inl d ↦ rw (a, b, c, d) (omega (arith, base (some_rest ∷ [])))
            | inr d ↦ rw (a, b, c, d) tt
          ]
          | inr c ↦ elim (Bool-cases (same format (codes "i"))) [
            | inl d ↦ rw (a, b, c, d) (omega (arith, base (digits ∷ [])))
            | inr d ↦ rw (a, b, c, d) tt
          ]
        ]
      ]
    ]
  where
    only_rest :
        (elements : List Element)
        → is_empty elements ≡ true
        → groups_of (rest ∷ []) ≡ suc (groups_of elements)
    only_rest [] h = refl
    only_rest (e ∷ elements) h = absurd (cc)

-- As many groups as variables.
abbrev pub IsCounted : CompiledRoute → Type 0
IsCounted c = groups_of c.elements ≡ length c.vars

pub compile_parts-IsCounted :
    (elements : List Element) (vars : List Variable) (parts : List Part) {c : CompiledRoute}
    → groups_of elements ≡ length vars
    → compile_parts elements vars parts ≡ some c
    → IsCounted c
unfolding compile_parts
compile_parts-IsCounted elements vars [] {c} h e =
    let same_route : record { elements = elements; vars = vars } ≡ c = cc in
    subst IsCounted same_route h
compile_parts-IsCounted elements vars (part ∷ parts) {c} h e =
    elim (Option-cases (add_format elements part.format)) [
      | inl f ↦ let no_way : none ≡ some c = rw (f, compile_parts) at e in absurd (cc)
      | inr ((next, cast), f) ↦
          let next_vars = vars ++ (record { name = part.name; cast = cast }) ∷ [] in
          let counted : groups_of (next ++ literal_elements part.literal) ≡ length next_vars =
            let added : groups_of next ≡ suc (groups_of elements) =
              rw f at (add_format-Adds elements part.format) in
            omega (
              arith,
              added,
              groups_of-append next (literal_elements part.literal),
              groups_of-literal part.literal,
              length-append vars ((record { name = part.name; cast = cast }) ∷ []),
            ) in
          compile_parts-IsCounted (next ++ literal_elements part.literal) next_vars parts counted
            (rw (f, compile_parts) at e)
    ]

pub to_compiled_route-IsCounted :
    (path : Text) {c : CompiledRoute} → to_compiled_route path ≡ some c → IsCounted c
unfolding to_compiled_route
to_compiled_route-IsCounted path e =
    compile_parts-IsCounted (literal_elements (split_route zero path).0) []
      (split_route zero path).1 (groups_of-literal (split_route zero path).0) e

module _ {H : Type 0} where
  -- As many groups as variables, and fewer than are reserved.
  abbrev pub Fits : ℕ → Route H → Type 0
  Fits max_vars route = IsCounted route.compiled × (length route.compiled.vars < max_vars)

  pub route_data-IsCounted :
      (routes : Map Text H) {found : List (Route H)}
      → route_data routes ≡ some found
      → All (λ route. IsCounted route.compiled) found
  unfolding route_data
  route_data-IsCounted [] {found} e =
      let no_routes : [] ≡ found = cc in
      subst (All (λ route. IsCounted route.compiled)) no_routes tt
  route_data-IsCounted ((path, handler) ∷ routes) {found} e =
      elim (Option-cases (to_compiled_route path)) [
        | inl f ↦ let no_way : none ≡ some found = rw (f, route_data) at e in absurd (cc)
        | inr (c, f) ↦ elim (Option-cases (route_data routes)) [
          | inl g ↦ let no_way : none ≡ some found = rw (f, g, route_data) at e in absurd (cc)
          | inr (more, g) ↦
              let first : Route H = record { handler = handler; compiled = c } in
              let found_first : some (first ∷ more) ≡ some found = rw (f, g, route_data) at e in
              let same_routes : first ∷ more ≡ found = cc in
              subst (All (λ route. IsCounted route.compiled)) same_routes
                (to_compiled_route-IsCounted path f, route_data-IsCounted routes g)
        ]
      ]

  pub most_vars-Fits :
      (found : List (Route H)) (max_vars : ℕ)
      → All (λ route. IsCounted route.compiled) found
      → most_vars found < max_vars
      → All (Fits max_vars) found
  most_vars-Fits [] max_vars h b = tt
  most_vars-Fits (route ∷ found) max_vars (h, hs) b =
      ((h, omega arith), most_vars-Fits found max_vars hs (omega arith))

  pub compile_routes-Fits :
      (routes : Map Text H) (compiled : Compiled H)
      → compile_routes routes ≡ some compiled
      → All (Fits compiled.max_vars) compiled.routes
  unfolding compile_routes
  compile_routes-Fits routes compiled e = elim (Option-cases (route_data routes)) [
    | inl f ↦ let no_way : none ≡ some compiled = rw f at e in absurd (cc)
    | inr (found, f) ↦
        let made : Compiled H = record { routes = found; max_vars = most_vars found + 1 } in
        let found_made : some made ≡ some compiled = rw f at e in
        let same_data : made ≡ compiled = cc in
        subst (λ (c : Compiled H). All (Fits c.max_vars) c.routes) same_data
          (most_vars-Fits found (most_vars found + 1) (route_data-IsCounted routes f) (omega arith))
  ]
