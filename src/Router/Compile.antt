-- ===== src/Router/Compile.antt =====
-- `toCompiledRoute` of nodejs/core/router.js, without `toRoute`.
use bzd.Prelude.Text.{Text, codes, same}
use bzd.Prelude.{
  ℕ, zero, suc, ◌-◌, Bool, true, false, not, ◌||◌, Option, none, some, List, [], ◌∷◌, ◌++◌, ◌==◌,
  if◌then◌else◌, map, length,
}
use bzd.Router.{
  Part, Element, lit, segment, slash_rest, rest, some_rest, digits, Cast, decoded, without_first,
  as_text, as_integer, Variable, CompiledRoute,
}
use bzd.Router.Expression.{slash}

-- The longest start of characters that pass, and the rest.
abbrev pub span : (ℕ → Bool) → Text → Text × Text
span p [] = ([], [])
span p (c ∷ s) = let below = span p s in if p c then (c ∷ below.0, below.1) else ([], c ∷ s)

abbrev pub closed : Text → Text → Text → Option (Text × Text × Text)
closed name format [] = none
closed name format (c ∷ s) = some (name, format, s)

-- :?([^}]*)}, behind a name
abbrev pub format_at : Text → Text → Option (Text × Text × Text)
format_at name [] = none
format_at name (c ∷ s) =
    if c == b':'
    then closed name (span (λ d. not (d == b'}')) s).0 (span (λ d. not (d == b'}')) s).1
    else some (name, [], s)

abbrev pub name_at : Text → Text → Option (Text × Text × Text)
name_at [] s = none
name_at (c ∷ name) s = format_at (c ∷ name) s

-- {([^}:]+):?([^}]*)} behind the opening brace: the name, the format, and the rest.
abbrev pub variable_at : Text → Option (Text × Text × Text)
variable_at s = let run = span (λ c. not (c == b'}' || c == b':')) s in name_at run.0 run.1

-- `path.split(regexp_)`: the literal text up to the first variable, and the parts. The number is that
-- of the characters that still belong to the last variable.
unfoldable pub split_route : ℕ → Text → Text × List Part
split_route skip [] = ([], [])
split_route (suc skip) (c ∷ s) = split_route skip s
split_route zero (c ∷ s) = elim (if c == b'{' then variable_at s else none) [
  | none ↦ let more = split_route zero s in (c ∷ more.0, more.1)
  | some (name, format, behind) ↦
      let more = split_route (length s - length behind) s in
      ([], record { name = name; format = format; literal = more.0 } ∷ more.1)
]

-- pathRegexpr.at(-1) == "/"
abbrev pub ends_in_slash : List Element → Bool
ends_in_slash [] = false
ends_in_slash (lit c ∷ []) = c == slash
ends_in_slash (segment ∷ []) = false
ends_in_slash (slash_rest ∷ []) = false
ends_in_slash (rest ∷ []) = false
ends_in_slash (some_rest ∷ []) = false
ends_in_slash (digits ∷ []) = false
ends_in_slash (e ∷ f ∷ elements) = ends_in_slash (f ∷ elements)

-- pathRegexpr.slice(0, -1)
abbrev pub without_last : List Element → List Element
without_last [] = []
without_last (e ∷ []) = []
without_last (e ∷ f ∷ elements) = e ∷ without_last (f ∷ elements)

-- !pathRegexpr
abbrev pub is_empty : List Element → Bool
is_empty [] = true
is_empty (e ∷ elements) = false

-- The `switch` on the format; `none` is an exception.
unfoldable pub add_format : List Element → Text → Option (List Element × Cast)
add_format elements format =
    if same format []
    then some (elements ++ segment ∷ [], decoded)
    else if same format (codes "*")
    then (if ends_in_slash elements
        then some (without_last elements ++ slash_rest ∷ [], without_first)
        else if is_empty elements
        then some (rest ∷ [], without_first)
        else none)
    else if same format (codes "+")
    then (if is_empty elements || ends_in_slash elements
        then some (elements ++ some_rest ∷ [], as_text)
        else none)
    else if same format (codes "i")
    then some (elements ++ digits ∷ [], as_integer)
    else none

-- The escaped characters of a literal text.
abbrev pub literal_elements : Text → List Element
literal_elements text = map lit text

unfoldable pub compile_parts : List Element → List Variable → List Part → Option CompiledRoute
compile_parts elements vars [] = some (record { elements = elements; vars = vars })
compile_parts elements vars (part ∷ parts) = elim (add_format elements part.format) [
  | none ↦ none
  | some (next, cast) ↦
      compile_parts (next ++ literal_elements part.literal)
        (vars ++ (record { name = part.name; cast = cast }) ∷ []) parts
]

-- `toCompiledRoute`
unfoldable pub to_compiled_route : Text → Option CompiledRoute
to_compiled_route path =
    let split = split_route zero path in compile_parts (literal_elements split.0) [] split.1
