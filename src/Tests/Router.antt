-- ===== src/Tests/Router.antt =====
-- Runs of nodejs/core/router.js, with the routes of its tests.
use bzd.Prelude.Map
use bzd.Prelude.Text.{Text, codes, text_discrete}
use bzd.Prelude.{ℕ, ◌+◌, ◌≡◌, refl, true, none, some, Option, List, [], ◌∷◌}
use bzd.Router.{text, integer}
use bzd.Router.Expression.{greedy, match_elements}
use bzd.Router.Compile.{split_route, add_format, compile_parts, to_compiled_route}
use bzd.Router.Match.{
  Router, MatchResult, no_match, matching, thrown, count_down, build_vars, add, route_data,
  compile_routes, match_alternatives, match_compiled, match,
}
use bzd.Router.Hit.{first_route}
use bzd.Router.First.{Reachable, created, added, match-is_first, found_in, match-empty_path}

program : Unit {0}
unfolding Map.set text_discrete greedy match_elements split_route add_format compile_parts
    to_compiled_route count_down build_vars add route_data compile_routes match_alternatives
    match_compiled match first_route
program = tt

-- Paths are compared by their characters, and nothing is decoded.
abbrev fold : ℕ → ℕ
fold c = c

abbrev decode : Text → Option Text
decode s = some s

abbrev new_router : Router ℕ
new_router = record { routes = []; dirty = true; compiled = none }

abbrev with_all : List Text → ℕ → Router ℕ → Router ℕ
with_all [] n router = router
with_all (path ∷ paths) n router = with_all paths (n + 1) (add router path n)

abbrev paths : List Text
paths =
    codes "/hello"
    ∷ codes "/string/{word}"
    ∷ codes "/int/{a:i}"
    ∷ codes "/star/{args:*}"
    ∷ codes "/plus/{args:+}"
    ∷ []

abbrev router : Router ℕ
router = with_all paths 0 new_router

abbrev at : Text → MatchResult ℕ
at path = (match fold decode router path).1

runs :
    (at (codes "/hello") ≡ matching 0 [])
    × (at (codes "/hello/") ≡ no_match)
    × (at (codes "/string/one") ≡ matching 1 ((codes "word", text (codes "one")) ∷ []))
    × (at (codes "/string/one/two") ≡ no_match)
    × (at (codes "/string/") ≡ no_match)
    × (at (codes "/int/42") ≡ matching 2 ((codes "a", integer 42) ∷ []))
    × (at (codes "/int/no") ≡ no_match)
    × (at (codes "/star/one/two") ≡ matching 3 ((codes "args", text (codes "one/two")) ∷ []))
    × (at (codes "/star/") ≡ matching 3 ((codes "args", text []) ∷ []))
    × (at (codes "/star") ≡ matching 3 ((codes "args", text []) ∷ []))
    × (at (codes "/plus/one/two") ≡ matching 4 ((codes "args", text (codes "one/two")) ∷ []))
    × (at (codes "/plus/") ≡ no_match)
    × (at [] ≡ thrown)
unfolding program
runs = (refl, refl, refl, refl, refl, refl, refl, refl, refl, refl, refl, refl, refl)

abbrev two_routes : Router ℕ
two_routes = add (add new_router (codes "/a/{x}") 5) (codes "/a/{n:i}") 6

two_routes-Reachable : Reachable fold decode two_routes
two_routes-Reachable =
    added (add new_router (codes "/a/{x}") 5) (codes "/a/{n:i}") 6
      (added new_router (codes "/a/{x}") 5 created)

match-is_first_example :
    (match fold decode two_routes (codes "/a/1")).1
    ≡ found_in fold decode (compile_routes two_routes.routes) (codes "/a/1")
match-is_first_example =
    match-is_first fold decode two_routes b'/' (codes "a/1") two_routes-Reachable

match-empty_path_example : (match fold decode two_routes []).1 ≡ thrown
match-empty_path_example = match-empty_path fold decode two_routes two_routes-Reachable
