-- ===== src/Tests/Terminal.antt =====
-- Runs of the terminal (nodejs/vue/components/terminal/frontend/vt100.vue).
use bzd.Prelude.Map
use bzd.Prelude.Text.{Text, codes, text_discrete}
use bzd.Prelude.{
  ℕ, ◌+◌, ◌≡◌, refl, ◌⊎◌, Bool, Option, none, some, List, [], ◌∷◌, ◌++◌, get_elem?, All, arith,
}
use bzd.Terminal.{cell, Terminal, accepted, refused}
use bzd.Terminal.Style.{create_style, sgr, apply_sgr, style_text, new_terminal}
use bzd.Terminal.Screen.{Row, Key, write_char, write_chars, write, group_by_style_id, group_from}
use bzd.Terminal.Commands
use bzd.Terminal.Stream
use bzd.Terminal.Process
use bzd.Terminal.Process.{Progress, finished, process, receive}
use bzd.Terminal.Ready.{IsReady}
use bzd.Terminal.Chunks.{continue, process-append}
use bzd.Terminal.Handlers.{Ends}
use bzd.Terminal.Drawn.{IsDrawn, new_terminal-IsDrawn, sgr-shows}
use bzd.Terminal.Ending.{process-Ends}
use bzd.Terminal.Groups.{texts, chars}
use bzd.Terminal.Session.{Reachable, Received, HasStyle, created, received, reachable-shows}
use bzd.Terminal.Plain.{cells, with_cells, with_row, write_plain}

program : Unit {0}
unfolding create_style sgr apply_sgr style_text new_terminal write_char write_chars write
    group_by_style_id group_from Commands.set_mode Commands.move_cursor_up Commands.move_cursor_down
    Commands.move_cursor_right Commands.move_cursor_left Commands.move_cursor_down_begining
    Commands.move_cursor_up_begining Commands.move_cursor_column Commands.move_cursor_line_column
    Commands.delete_char Commands.erase_char Commands.insert_char Commands.erase_line
    Commands.erase_screen Stream.category_at Stream.find_category Stream.span Stream.match_csi
    Stream.match_private Stream.until_bell Stream.osc_at Stream.osc_within Stream.match_osc
    Stream.match_command Process.parse_args Process.handle_csi Process.handle Process.process_from
    process receive Map.get Map.set text_discrete
program = tt

-- "ab", then a bold "c" in the second line.
abbrev stream : Text
stream = codes "ab\n" ++ (27 ∷ codes "[1mc")

abbrev rows_of : Option (Terminal × Progress) → List Row
rows_of none = []
rows_of (some (t, progress)) = t.content

shows_stream :
    rows_of (receive new_terminal (stream ∷ []))
    ≡ (cell b'a' 0 ∷ cell b'b' 0 ∷ []) ∷ (cell b'c' 2 ∷ cell b' ' 2 ∷ []) ∷ []
unfolding program
shows_stream = refl

-- A chunk that ends behind the escape character is written as it is.
cut_behind_escape :
    rows_of (continue (codes "[1mc") (process new_terminal (27 ∷ [])))
    ≡ (cell 27 0 ∷ cell b'[' 0 ∷ cell b'1' 0 ∷ cell b'm' 0 ∷ cell b'c' 0 ∷ []) ∷ []
unfolding program
cut_behind_escape = refl

-- The text before the cursor is erased as well.
erases_whole_line :
    rows_of (process new_terminal (codes "ab" ++ (27 ∷ codes "[J")))
    ≡ (cell b' ' 0 ∷ cell b' ' 0 ∷ []) ∷ []
unfolding program
erases_whole_line = refl

process-append_example :
    process new_terminal ((codes "ab" ++ (27 ∷ codes "[1")) ++ codes "mc")
    ≡ continue (codes "mc") (process new_terminal (codes "ab" ++ (27 ∷ codes "[1")))
process-append_example =
    process-append new_terminal (codes "ab" ++ (27 ∷ codes "[1")) (codes "mc") refl

process-Ends_example : Ends IsDrawn (process new_terminal stream)
process-Ends_example = process-Ends new_terminal stream new_terminal-IsDrawn

abbrev state_of : Option (Terminal × Progress) → Terminal
state_of none = new_terminal
state_of (some (t, progress)) = t

abbrev shown : Terminal
shown = state_of (receive new_terminal (stream ∷ []))

shown-Reachable : Reachable shown
unfolding program
shown-Reachable = received (stream ∷ []) (finished []) (created refl) refl

reachable-shows_example :
    ((s : List Text) → Received (receive shown s))
    × ((readonly : Bool) (y : ℕ) (row : Row)
        → get_elem? shown.content y ≡ some row
        → (groups : List (Text × Key)) × (group_by_style_id shown row y ≡ some groups)
          × (texts groups ≡ chars row)
          × All (HasStyle readonly shown) groups)
reachable-shows_example = reachable-shows shown shown-Reachable

sgr-shows_example :
    (((sgr new_terminal (1 ∷ 31 ∷ [])).1 ≡ accepted)
      × (get_elem?
            (sgr new_terminal (1 ∷ 31 ∷ [])).0.styles
            (sgr new_terminal (1 ∷ 31 ∷ [])).0.style_id
          ≡ some (style_text (sgr new_terminal (1 ∷ 31 ∷ [])).0.terminal_style)))
    ⊎ (((sgr new_terminal (1 ∷ 31 ∷ [])).1 ≡ refused)
        × ((sgr new_terminal (1 ∷ 31 ∷ [])).0.style_id ≡ new_terminal.style_id))
sgr-shows_example = sgr-shows new_terminal (1 ∷ 31 ∷ []) (IsDrawn.known new_terminal-IsDrawn)

abbrev screen : Terminal
screen = record new_terminal {
  content = (cell b'x' 0 ∷ cell b'y' 0 ∷ cell b'z' 0 ∷ []) ∷ [];
  x = 1;
}

screen-IsReady : IsReady screen
unfolding program IsReady
screen-IsReady = (cell b'x' 0 ∷ cell b'y' 0 ∷ cell b'z' 0 ∷ [], refl, omega arith)

write_plain_example :
    write screen (codes "hi")
    ≡ with_row screen (with_cells screen.insert_mode 1 (cells screen.style_id (codes "hi"))) (1 + 2)
write_plain_example = write_plain screen (codes "hi") screen-IsReady refl
