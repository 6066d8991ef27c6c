-- ===== src/Terminal.antt =====
-- nodejs/vue/components/terminal/frontend/vt100.vue: the state of the terminal. Characters are code
-- units, and a text is a list of them.
pub mod Style
pub mod Screen
pub mod Commands
pub mod Stream
pub mod Process
pub mod Ready
pub mod Matching
pub mod Found
pub mod Osc
pub mod Matched
pub mod Rounds
pub mod Chunks
pub mod Handlers
pub mod Cells
pub mod Drawn
pub mod Shown
pub mod Ending
pub mod Groups
pub mod Session
pub mod Plain
use bzd.Prelude.Map.{Map}
use bzd.Prelude.Text.{Text}
use bzd.Prelude.{ℕ, Bool, Option, List}

-- `terminalStyle`
pub record TerminalStyle : Type 0 where
  pub font_weight : Text
  pub font_style : Text
  pub text_decoration : Text
  pub color_text : Text
  pub color_background : Text
  pub display : Text
  pub filter : Text

-- What stands in a row: a pair of a character and the index of its style, the string " " that
-- `insertChar` puts there, or nothing, where a write beyond the end of the row leaves a gap.
pub data Cell : Type 0 where
  cell : ℕ → ℕ → Cell
  bare : Cell
  hole : Cell

-- The fields of `data`, and `terminalStyle`. Of `terminalDimension` only the width is used; `columns`
-- is one more than it, the number of characters in the width of the element.
pub record Terminal : Type 0 where
  pub content : List (List Cell)
  pub styles : List Text
  pub styles_map : Map Text ℕ
  pub style_id : ℕ
  pub x : ℕ
  pub y : ℕ
  pub remainder : Text
  pub insert_mode : Bool
  pub columns : Option ℕ
  pub terminal_style : TerminalStyle

-- What a handler of a command ends with: true, false, a failed assertion, the TypeError of an access to
-- a row that is not there, or the RangeError of an array that is too long.
pub data Reply : Type 0 where
  accepted refused assertion type_error range_error : Reply
