-- ===== src/Router/Expression.antt =====
-- The expressions of nodejs/core/router.js as JavaScript matches them: from the left, with the longest
-- run of a group tried first. `fold` is what two characters must have in common, the character itself
-- or, without `caseSensitive`, its upper case.
use bzd.Prelude.Text.{Text}
use bzd.Prelude.{
  ℕ, Bool, true, false, not, ◌&&◌, ◌||◌, Option, none, some, List, [], ◌∷◌, ◌++◌, leb, ◌==◌,
  if◌then◌else◌,
}
use bzd.Router.{Element, lit, segment, slash_rest, rest, some_rest, digits}

abbrev pub slash : ℕ
slash = b'/'

abbrev pub is_digit : ℕ → Bool
is_digit c = leb b'0' c && leb c b'9'

-- What `.` matches.
abbrev pub is_dot : ℕ → Bool
is_dot c = not (c == b'\n' || c == b'\r' || c == 8232 || c == 8233)

-- The captures of an expression, with that of the group before.
abbrev pub capture : Text → Option (List Text) → Option (List Text)
capture taken none = none
capture taken (some captures) = some (taken ∷ captures)

abbrev pub or_else : Option (List Text) → Option (List Text) → Option (List Text)
or_else none other = other
or_else (some captures) other = some captures

-- A run of characters that pass, after those that are taken; then what follows the group.
unfoldable pub greedy : (Text → Option (List Text)) → (ℕ → Bool) → Text → Text → Option (List Text)
greedy next p taken [] = capture taken (next [])
greedy next p taken (c ∷ s) = elim (p c) [
  | true ↦ or_else (greedy next p (taken ++ c ∷ []) s) (capture taken (next (c ∷ s)))
  | false ↦ capture taken (next (c ∷ s))
]

-- At least one character.
abbrev pub greedy_some : (Text → Option (List Text)) → (ℕ → Bool) → Text → Option (List Text)
greedy_some next p [] = none
greedy_some next p (c ∷ s) = if p c then greedy next p (c ∷ []) s else none

-- ($|/.*)
abbrev pub greedy_slash : (Text → Option (List Text)) → Text → Option (List Text)
greedy_slash next [] = capture [] (next [])
greedy_slash next (c ∷ s) = if c == slash then greedy next is_dot (c ∷ []) s else none

abbrev pub at_end : Text → Option (List Text)
at_end [] = some []
at_end (c ∷ s) = none

module _ (fold : ℕ → ℕ) where
  abbrev pub match_lit : (Text → Option (List Text)) → ℕ → Text → Option (List Text)
  match_lit next c [] = none
  match_lit next c (d ∷ s) = if fold c == fold d then next s else none

  -- The captures of a whole text.
  unfoldable pub match_elements : List Element → Text → Option (List Text)
  match_elements [] s = at_end s
  match_elements (lit c ∷ elements) s = match_lit (match_elements elements) c s
  match_elements (segment ∷ elements) s =
      greedy_some (match_elements elements) (λ c. not (c == slash)) s
  match_elements (slash_rest ∷ elements) s = greedy_slash (match_elements elements) s
  match_elements (rest ∷ elements) s = greedy (match_elements elements) is_dot [] s
  match_elements (some_rest ∷ elements) s = greedy_some (match_elements elements) is_dot s
  match_elements (digits ∷ elements) s = greedy_some (match_elements elements) is_digit s
