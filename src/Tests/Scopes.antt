-- ===== src/Tests/Scopes.antt =====
-- Runs of nodejs/core/authentication/scopes.js.
use bzd.Prelude.Map
use bzd.Prelude.Map.{Map}
use bzd.Prelude.Text.{Text, codes, text_discrete}
use bzd.Prelude.{ℕ, ◌≡◌, refl, ◌↔◌, true, false, Option, none, some, List, [], ◌∷◌, In}
use bzd.Scopes.{
  new_scopes, contains, match_any, same_as, OneOrMany, one, many, filter_dictionary,
  check_dictionary, check_valid, passed, not_guarded_key, not_valid_scope,
}
use bzd.Scopes.Containment.{IsWithin, contains_iff, check_valid-no_escalation}
use bzd.Scopes.Dictionary.{check_dictionary_iff, filter_dictionary-is_guarded}

abbrev owned : List Text
owned = codes "/a" ∷ codes "/b/" ∷ codes "/a" ∷ codes " " ∷ []

abbrev guards : Map Text OneOrMany
guards = (codes "x", one (codes "/a/c")) ∷ (codes "y", many (codes "/q" ∷ codes "/b/z" ∷ [])) ∷ []

abbrev fields : Map Text ℕ
fields = (codes "y", 4) ∷ (codes "x", 5) ∷ []

runs :
    ((new_scopes owned).list ≡ codes "/a" ∷ codes "/b/" ∷ [])
    × (contains (new_scopes owned) (codes "/a/d") ≡ true)
    × (contains (new_scopes owned) (codes "/ab") ≡ false)
    × (contains (new_scopes owned) (codes "/b") ≡ false)
    × (contains (new_scopes owned) (codes "/b/c") ≡ true)
    × (same_as (new_scopes owned) (codes "/b/" ∷ codes "/a" ∷ []) ≡ true)
    × (check_valid (new_scopes owned) (codes "/a/x" ∷ codes "/c" ∷ [])
        ≡ not_valid_scope (codes "/c"))
    × (check_dictionary (new_scopes owned) fields guards ≡ passed)
    × (check_dictionary {V = ℕ} (new_scopes owned) ((codes "z", 1) ∷ []) guards
        ≡ not_guarded_key (codes "z"))
    × (filter_dictionary {V = ℕ} (new_scopes owned) ((codes "y", 4) ∷ []) guards
        ≡ (codes "x", none) ∷ (codes "y", some 4) ∷ [])
unfolding new_scopes contains same_as check_valid check_dictionary filter_dictionary match_any
    Map.get Map.set text_discrete
runs = (refl, refl, refl, refl, refl, refl, refl, refl, refl, refl)

contains_iff_example :
    (contains (new_scopes owned) (codes "/a/d") ≡ true)
    ↔ ((base : Text) × In base (new_scopes owned).list × IsWithin base (codes "/a/d"))
contains_iff_example = contains_iff (new_scopes owned) (codes "/a/d")

valid : check_valid (new_scopes owned) (codes "/a/x" ∷ []) ≡ passed
unfolding check_valid new_scopes contains
valid = refl

below : contains (new_scopes (codes "/a/x" ∷ [])) (codes "/a/x/y") ≡ true
unfolding new_scopes contains
below = refl

check_valid-no_escalation_example : contains (new_scopes owned) (codes "/a/x/y") ≡ true
check_valid-no_escalation_example =
    check_valid-no_escalation (new_scopes owned) (codes "/a/x" ∷ []) (codes "/a/x/y") valid below

check_dictionary_iff_example : (check_dictionary (new_scopes owned) fields guards ≡ passed) ↔ (
    (k : Text) (v : ℕ)
    → Map.get text_discrete k fields ≡ some v
    → (required : OneOrMany) × (Map.get text_discrete k guards ≡ some required)
      × (match_any (new_scopes owned) required ≡ true))
check_dictionary_iff_example = check_dictionary_iff (new_scopes owned) fields guards

guards-IsDistinct : Map.IsDistinct text_discrete guards
unfolding Map.get text_discrete
guards-IsDistinct = (refl, (refl, tt))

filter_dictionary-is_guarded_example :
    (check_dictionary (new_scopes owned) fields guards ≡ passed
      → (k : Text) (v : ℕ) → Map.get text_discrete k fields ≡ some v
      → Map.get text_discrete k (filter_dictionary (new_scopes owned) fields guards)
        ≡ some (some v))
    × ((k : Text) (o : Option ℕ)
        → Map.get text_discrete k (filter_dictionary (new_scopes owned) fields guards) ≡ some o
        → (required : OneOrMany) × (Map.get text_discrete k guards ≡ some required)
          × (match_any (new_scopes owned) required ≡ true)
          × (o ≡ Map.get text_discrete k fields))
filter_dictionary-is_guarded_example =
    filter_dictionary-is_guarded (new_scopes owned) fields guards guards-IsDistinct
