-- ===== src/Router.antt =====
-- nodejs/core/router.js: the parts of a route, its expression, and the variables that a match gives.
pub mod Expression
pub mod Compile
pub mod Match
pub mod Captures
pub mod Counted
pub mod Groups
pub mod Hit
pub mod First
use bzd.Prelude.Text.{Text}
use bzd.Prelude.{ℕ, List}

-- A variable of the path with the literal text behind it, from `path.split(regexp_)`.
pub record Part : Type 0 where
  pub name : Text
  pub format : Text
  pub literal : Text

-- What the expression of a path is put together from: an escaped character, and the groups ([^/]+),
-- ($|/.*), (.*), (.+) and ([0-9]+).
pub data Element : Type 0 where
  lit : ℕ → Element
  segment slash_rest rest some_rest digits : Element

-- decodeURIComponent, (str) => str.substring(1), String and parseInt
pub data Cast : Type 0 where
  decoded without_first as_text as_integer : Cast

pub record Variable : Type 0 where
  pub name : Text
  pub cast : Cast

-- `regexprAsString` and `vars`
pub record CompiledRoute : Type 0 where
  pub elements : List Element
  pub vars : List Variable

-- The value of a variable.
pub data Value : Type 0 where
  text : Text → Value
  integer : ℕ → Value
