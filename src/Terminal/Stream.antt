-- ===== src/Terminal/Stream.antt =====
-- The commands in a stream of vt100.vue: the regular expressions that find one, as functions on texts.
use bzd.Prelude.Text.{Text}
use bzd.Prelude.{
  ℕ, Bool, true, false, ◌&&◌, ◌||◌, Option, none, some, [], ◌∷◌, leb, ◌==◌, if◌then◌else◌, any,
}

-- The keys of `categoryMapping`: "\x1b[?", "\x1b[", "\x9b" and "\x1b]".
pub data Category : Type 0 where
  csi_private csi csi8 osc : Category

abbrev pub escape : ℕ
escape = 27

abbrev pub bell : ℕ
bell = 7

abbrev pub prefix : Category → Text
prefix csi_private = escape ∷ b'[' ∷ b'?' ∷ []
prefix csi = escape ∷ b'[' ∷ []
prefix csi8 = 155 ∷ []
prefix osc = escape ∷ b']' ∷ []

-- What follows "\x1b[": the longest key is tried first.
abbrev pub after_bracket : Text → Category × Text
after_bracket [] = (csi, [])
after_bracket (c ∷ s) = if c == b'?' then (csi_private, s) else (csi, c ∷ s)

abbrev pub after_escape : Text → Option (Category × Text)
after_escape [] = none
after_escape (c ∷ s) =
    if c == b'[' then some (after_bracket s) else if c == b']' then some (osc, s) else none

-- `regexprCategory` at the start of a text.
unfoldable pub category_at : ℕ → Text → Option (Category × Text)
category_at c s = if c == escape then after_escape s else if c == 155 then some (csi8, s) else none

-- `regexprCategory.exec`: the text before the match, the match, and the text behind it.
unfoldable pub find_category : Text → Option (Text × Category × Text)
find_category [] = none
find_category (c ∷ s) = elim (category_at c s) [
  | some (category, rest) ↦ some ([], category, rest)
  | none ↦ elim (find_category s) [
    | none ↦ none
    | some (before, category, rest) ↦ some (c ∷ before, category, rest)
  ]
]

abbrev pub is_digit : ℕ → Bool
is_digit c = leb b'0' c && leb c b'9'

-- [0-9;]
abbrev pub is_param : ℕ → Bool
is_param c = is_digit c || c == b';'

-- The longest start of characters that pass, and the rest.
unfoldable pub span : (ℕ → Bool) → Text → Text × Text
span p [] = ([], [])
span p (c ∷ s) = elim (p c) [ true ↦ (c ∷ (span p s).0, (span p s).1) | false ↦ ([], c ∷ s) ]

pub data Command : Type 0 where
  control : Text → ℕ → Command
  private_control : Text → Bool → Command
  system : Text → Text → Command

-- What the expression of a category finds behind the prefix: nothing, a match further on, or one that
-- starts there.
pub data Found : Type 0 where
  unfinished malformed : Found
  matched : Command → Text → Found

-- ([0-9;]*)([^0-9;]), at the longest start of parameters.
abbrev pub found_csi : Text × Text → Found
found_csi (params, []) = unfinished
found_csi (params, name ∷ rest) = matched (control params name) rest

unfoldable pub match_csi : Text → Found
match_csi s = found_csi (span is_param s)

abbrev pub is_ending : ℕ → Bool
is_ending c = c == b'h' || c == b'l'

-- ([0-9;]*)([hl]), at the longest start of parameters.
abbrev pub found_private : Text × Text → Found
found_private (params, []) = unfinished
found_private (params, c ∷ rest) =
    if is_ending c
    then matched (private_control params (c == b'h')) rest
    else if any is_ending rest
    then malformed
    else unfinished

unfoldable pub match_private : Text → Found
match_private s = found_private (span is_param s)

-- The characters that `.` does not match.
abbrev pub is_terminator : ℕ → Bool
is_terminator c = c == b'\n' || c == b'\r' || c == 8232 || c == 8233

-- (.*?)\x07
unfoldable pub until_bell : Text → Option (Text × Text)
until_bell [] = none
until_bell (c ∷ s) =
    if c == bell
    then some ([], s)
    else if is_terminator c
    then none
    else elim (until_bell s) [ none ↦ none | some (params, rest) ↦ some (c ∷ params, rest) ]

-- ;(.*?)\x07
abbrev pub after_name : Text → Option (Text × Text)
after_name [] = none
after_name (c ∷ s) = if c == b';' then until_bell s else none

abbrev pub named : Text → Option (Text × Text) → Option (Text × Text × Text)
named name none = none
named name (some (params, rest)) = some (name, params, rest)

-- ([0-9]+);(.*?)\x07, at the longest start of digits: the name, the parameters and the rest.
abbrev pub found_osc : Text × Text → Option (Text × Text × Text)
found_osc ([], rest) = none
found_osc (d ∷ name, rest) = named (d ∷ name) (after_name rest)

unfoldable pub osc_at : Text → Option (Text × Text × Text)
osc_at s = found_osc (span is_digit s)

unfoldable pub osc_within : Text → Bool
osc_within [] = false
osc_within (c ∷ s) = elim (osc_at (c ∷ s)) [ some found ↦ true | none ↦ osc_within s ]

unfoldable pub match_osc : Text → Found
match_osc s = elim (osc_at s) [
  | some (name, params, rest) ↦ matched (system name params) rest
  | none ↦ if osc_within s then malformed else unfinished
]

unfoldable pub match_command : Category → Text → Found
match_command csi_private s = match_private s
match_command csi s = match_csi s
match_command csi8 s = match_csi s
match_command osc s = match_osc s
