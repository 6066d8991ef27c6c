-- ===== src/Prelude/Text.antt =====
-- Texts as lists of their code units, with the tests of JavaScript's strings that the code uses.
use Prim.Native.Nat.{ℕ}
use Prim.Native.Char.{code}
use Prim.Native.String.{String}
use mathlib.Core.Path.{◌≡◌, refl}
use mathlib.Core.Bool.{Bool, true, false, ◌&&◌}
use mathlib.Core.Option.{Option, none, some}
use mathlib.Core.List.{List, [], ◌∷◌}
use native.Mathlib.Omega.{arith}
use bzd.Prelude.Logic.{◌==◌}
use bzd.Prelude.Lists.{any}

abbrev pub Text : Type 0
Text = List ℕ

abbrev pub codes : String → Text
codes String.[] = []
codes (String.◌∷◌ c s) = code c ∷ codes s

abbrev pub same : Text → Text → Bool
same [] [] = true
same [] (d ∷ t) = false
same (c ∷ s) [] = false
same (c ∷ s) (d ∷ t) = (c == d) && same s t

-- s.startsWith(prefix)
abbrev pub starts_with : Text → Text → Bool
starts_with s [] = true
starts_with [] (p ∷ ps) = false
starts_with (c ∷ s) (p ∷ ps) = (c == p) && starts_with s ps

-- s.at(-1)
abbrev pub last? : Text → Option ℕ
last? [] = none
last? (c ∷ []) = some c
last? (c ∷ d ∷ s) = last? (d ∷ s)

-- list.includes(s)
abbrev pub includes : List Text → Text → Bool
includes texts s = any (λ t. same t s) texts

pub same_refl : (s : Text) → same s s ≡ true
same_refl [] = refl
same_refl (c ∷ s) = ground (arith, same_refl s)

pub eq_of_same : (s t : Text) → same s t ≡ true → s ≡ t
eq_of_same [] [] h = refl
eq_of_same [] (d ∷ t) h = absurd (cc)
eq_of_same (c ∷ s) [] h = absurd (cc)
eq_of_same (c ∷ s) (d ∷ t) h = ground (arith, eq_of_same s t)

pub ne_of_same : (s t : Text) → same s t ≡ false → ¬ (s ≡ t)
ne_of_same s t h p = let r = same_refl s in absurd (ground arith)

unfoldable pub text_discrete : Discrete Text
text_discrete s t = by_test (same s t) refl
  where
    by_test : (b : Bool) → same s t ≡ b → Dec (s ≡ t)
    by_test true h = yes (eq_of_same s t h)
    by_test false h = no (ne_of_same s t h)
