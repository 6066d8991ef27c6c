-- ===== src/Storage/Permissions.antt =====
-- nodejs/db/storage/permissions.js: permissions as flags and as a text of letters.
use bzd.Prelude.Text.{Text}
use bzd.Prelude.{ℕ, ◌≡◌, Bool, [], ◌∷◌, ◌++◌, ◌==◌, any, if◌then◌else◌, arith}

-- A flag that is missing is false.
pub record Permissions : Type 0 where
  pub read : Bool
  pub write : Bool
  pub delete : Bool
  pub list : Bool
  pub executable : Bool

-- permissions.includes(letter)
abbrev pub has_letter : Text → ℕ → Bool
has_letter permissions letter = any (λ c. c == letter) permissions

unfoldable pub make_from_string : Text → Permissions
make_from_string permissions = record {
  read = has_letter permissions b'r';
  write = has_letter permissions b'w';
  delete = has_letter permissions b'd';
  list = has_letter permissions b'l';
  executable = has_letter permissions b'x';
}

abbrev pub letter_if : Bool → ℕ → Text
letter_if flag letter = if flag then letter ∷ [] else []

unfoldable pub encode : Permissions → Text
encode permissions =
    letter_if permissions.read b'r'
    ++ (letter_if permissions.write b'w'
        ++ (letter_if permissions.delete b'd'
            ++ (letter_if permissions.list b'l' ++ letter_if permissions.executable b'x')))

-- Permissions that are written as a text are read back as they were.
pub make_from_string-encode :
    (permissions : Permissions) → make_from_string (encode permissions) ≡ permissions
unfolding make_from_string encode
make_from_string-encode permissions = ground arith
