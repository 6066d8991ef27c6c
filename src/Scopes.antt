-- ===== src/Scopes.antt =====
-- nodejs/core/authentication/scopes.js: the class `Scopes`. A scope is a path, and stands for
-- itself and all that is below it.
pub mod Containment
pub mod Dictionary
pub mod Equality
use mathlib.Core.List.{foldl}
use bzd.Prelude.Map
use bzd.Prelude.Map.{Map}
use bzd.Prelude.Text.{Text, includes, starts_with, last?, text_discrete}
use bzd.Prelude.{
  ℕ, Bool, true, false, not, ◌&&◌, ◌||◌, Option, none, some, List, [], ◌∷◌, ◌++◌, leb, ◌==◌,
  if◌then◌else◌, map, length, get_elem?, filter_b, any, all,
}

-- "/"
abbrev pub slash : ℕ
slash = b'/'

-- What `trim` removes: white space and line terminators.
abbrev pub is_space : ℕ → Bool
is_space c =
    (leb 9 c && leb c 13)
    || c == 32
    || c == 160
    || c == 5760
    || (leb 8192 c && leb c 8202)
    || c == 8232
    || c == 8233
    || c == 8239
    || c == 8287
    || c == 12288
    || c == 65279

pub record Scopes : Type 0 where
  pub list : List Text

-- new Set(scopes), in the order of insertion
abbrev pub add_to_set : List Text → Text → List Text
add_to_set set s = if includes set s then set else set ++ s ∷ []

unfoldable pub new_scopes : List Text → Scopes
new_scopes scopes = record {
  list = filter_b (λ s. not (all is_space s)) (foldl add_to_set [] scopes);
}

-- The callback of `contains`.
unfoldable pub covers : Text → Text → Bool
covers scope object_scope =
    starts_with scope object_scope
    && ((elim (last? object_scope) [ none ↦ false | some c ↦ c == slash ])
        || (elim (get_elem? scope (length object_scope)) [ none ↦ true | some c ↦ c == slash ]))

unfoldable pub contains : Scopes → Text → Bool
unfolding covers
contains scopes scope = any (covers scope) scopes.list

-- `scopeOrScopes`
pub data OneOrMany : Type 0 where
  one : Text → OneOrMany
  many : List Text → OneOrMany

abbrev pub to_list : OneOrMany → List Text
to_list (one scope) = scope ∷ []
to_list (many scopes) = scopes

unfoldable pub match_any : Scopes → OneOrMany → Bool
unfolding contains
match_any scopes scope_or_scopes = any (contains scopes) (to_list scope_or_scopes)

unfoldable pub same_as : Scopes → List Text → Bool
unfolding new_scopes
same_as this scopes =
    let object = new_scopes scopes in
    if length object.list == length this.list then all (includes this.list) object.list else false

-- The results of the checks: nothing, or what the message of the error says.
pub data Check : Type 0 where
  passed : Check
  not_valid_key : Text → Check
  not_guarded_key : Text → Check
  not_valid_scope : Text → Check

abbrev pub first_failure : Check → Check → Check
first_failure passed rest = rest
first_failure (not_valid_key k) rest = not_valid_key k
first_failure (not_guarded_key k) rest = not_guarded_key k
first_failure (not_valid_scope s) rest = not_valid_scope s

-- A dictionary has a key for every entry of the map that matches; the value is `undefined` if the
-- values has none.
module _ {V : Type 0} where
  abbrev pub filter_entry :
      Scopes → Map Text V → Map Text (Option V) → Text × OneOrMany → Map Text (Option V)
  filter_entry scopes values obj (key, required) =
      if match_any scopes required
      then Map.set text_discrete key (Map.get text_discrete key values) obj
      else obj

  unfoldable pub filter_dictionary : Scopes → Map Text V → Map Text OneOrMany → Map Text (Option V)
  filter_dictionary scopes values key_scopes_map =
      foldl (filter_entry scopes values) [] key_scopes_map

  -- The body of the loop.
  pub check_key : Scopes → Map Text V → Map Text OneOrMany → Text → Check
  check_key scopes values key_scopes_map key = elim (Map.get text_discrete key key_scopes_map) [
    | some required ↦ elim (Map.get text_discrete key values) [
      | some v ↦ if match_any scopes required then passed else not_valid_key key
      | none ↦ passed
    ]
    | none ↦ not_guarded_key key
  ]

  -- The loop ends with the first error.
  pub check_keys : Scopes → Map Text V → Map Text OneOrMany → List Text → Check
  unfolding check_key
  check_keys scopes values key_scopes_map [] = passed
  check_keys scopes values key_scopes_map (key ∷ keys) =
      first_failure (check_key scopes values key_scopes_map key)
        (check_keys scopes values key_scopes_map keys)

  unfoldable pub check_dictionary : Scopes → Map Text V → Map Text OneOrMany → Check
  unfolding check_keys
  check_dictionary scopes values key_scopes_map =
      check_keys scopes values key_scopes_map
        (foldl add_to_set [] (map (λ e. e.0) values ++ map (λ e. e.0) key_scopes_map))

unfoldable pub check_valid : Scopes → List Text → Check
check_valid this [] = passed
check_valid this (scope ∷ scopes) =
    let rest = check_valid this scopes in
    if contains this scope then rest else not_valid_scope scope
