-- ===== src/Terminal/Process.antt =====
-- What nodejs/vue/components/terminal/frontend/vt100.vue does with a command that it found, `process`
-- of a stream, the watcher and `handleResize`.
use bzd.Prelude.Text.{Text, codes, includes}
use bzd.Prelude.{
  ℕ, zero, suc, ◌+◌, ◌-◌, ◌*◌, Bool, true, false, ◌||◌, Option, none, some, List, [], ◌∷◌, ◌++◌,
  ◌==◌, if◌then◌else◌, length, get_elem?,
}
use bzd.Terminal.{
  Cell, cell, bare, hole, Terminal, Reply, accepted, refused, assertion, type_error, range_error,
}
use bzd.Terminal.Style.{sgr}
use bzd.Terminal.Screen.{Row, write, put, modify_row}
use bzd.Terminal.Commands.{
  first_or, set_mode, move_cursor_up, move_cursor_down, move_cursor_right, move_cursor_left,
  move_cursor_down_begining, move_cursor_up_begining, move_cursor_column, move_cursor_line_column,
  delete_char, erase_char, insert_char, erase_line, erase_screen,
}
use bzd.Terminal.Stream.{
  prefix, find_category, is_digit, span, Command, control, private_control, system, matched,
  match_command, unfinished, malformed,
}

-- The number that was read so far, if there is a digit, at the front of others.
abbrev pub flush : Option ℕ → List ℕ → List ℕ
flush none args = args
flush (some n) args = n ∷ args

-- params.split(";").filter(Boolean).map((i) => parseInt(i)), for digits and ";" and exact numbers.
unfoldable pub parse_args : Option ℕ → Text → List ℕ
parse_args current [] = flush current []
parse_args current (c ∷ s) = elim (c == b';') [
  | true ↦ flush current (parse_args none s)
  | false ↦ parse_args (some ((elim current [ none ↦ 0 | some n ↦ n ]) * 10 + (c - b'0'))) s
]

-- parseInt(featureStr), where `none` is NaN.
abbrev pub parse_feature : Text → Option ℕ
parse_feature params = get_elem? (parse_args none (span is_digit params).0) 0

-- `csiFctMapping`
unfoldable pub handle_csi : Terminal → ℕ → List ℕ → Terminal × Reply
handle_csi t name args =
    if name == b'm'
    then sgr t args
    else if name == b'h'
    then set_mode true t args
    else if name == b'l'
    then set_mode false t args
    else if name == b'A'
    then move_cursor_up t args
    else if name == b'B'
    then move_cursor_down t args
    else if name == b'C'
    then move_cursor_right t args
    else if name == b'D'
    then move_cursor_left t args
    else if name == b'E'
    then move_cursor_down_begining t args
    else if name == b'F'
    then move_cursor_up_begining t args
    else if name == b'f'
    then move_cursor_line_column t args
    else if name == b'G'
    then move_cursor_column t args
    else if name == b'H'
    then move_cursor_line_column t args
    else if name == b'J'
    then erase_screen t (first_or 0 args)
    else if name == b'K'
    then erase_line t (first_or 0 args)
    else if name == b'P'
    then delete_char t args
    else if name == b'X'
    then erase_char t args
    else if name == b'@'
    then insert_char t args
    else (t, refused)

-- `csiPrivateFctMapping` and `oscFctMapping`, whose commands are ignored.
abbrev pub is_private_feature : Text → Bool
is_private_feature params = elim (parse_feature params) [
  | none ↦ false
  | some feature ↦ feature == 25 || feature == 2004
]

abbrev pub osc_names : List Text
osc_names =
    codes "0"
    ∷ codes "2"
    ∷ codes "4"
    ∷ codes "9"
    ∷ codes "10"
    ∷ codes "11"
    ∷ codes "50"
    ∷ codes "52"
    ∷ codes "777"
    ∷ []

-- The handlers in `categoryMapping`.
unfoldable pub handle : Terminal → Command → Terminal × Reply
handle t (control params name) = handle_csi t name (parse_args none params)
handle t (private_control params on) = (t, if is_private_feature params then accepted else refused)
handle t (system name params) = (t, if includes osc_names name then accepted else refused)

-- How `process` ends: with what is left of the stream, or with an exception.
pub data Progress : Type 0 where
  finished : Text → Progress
  thrown_assertion thrown_type_error thrown_range_error : Progress

-- `process` goes on after a handler that returns, whatever it returns.
abbrev pub go_on :
    (Terminal → Option (Terminal × Progress)) → Terminal × Reply → Option (Terminal × Progress)
go_on next (t, accepted) = next t
go_on next (t, refused) = next t
go_on next (t, assertion) = some (t, thrown_assertion)
go_on next (t, type_error) = some (t, thrown_type_error)
go_on next (t, range_error) = some (t, thrown_range_error)

-- The loop of `process` on what is left of the stream. `none` is the end of the fuel.
unfoldable pub process_from : ℕ → Terminal → Text → Option (Terminal × Progress)
process_from zero t stream = none
process_from (suc fuel) t stream = elim (find_category stream) [
  | none ↦ some (write t stream, finished [])
  | some (before, category, rest) ↦
      let written = write t before in
      elim (match_command category rest) [
        | unfinished ↦ some (written, finished (prefix category ++ rest))
        | malformed ↦ process_from fuel written rest
        | matched command behind ↦
            go_on (λ next. process_from fuel next behind) (handle written command)
      ]
]

-- Each round takes a prefix from the stream, so that its length is enough fuel.
unfoldable pub process : Terminal → Text → Option (Terminal × Progress)
process t stream = process_from (suc (length stream)) t stream

-- this.content[this.y][this.x] ??= [" ", this.styleId], with what stands there.
abbrev pub show_at : Terminal → Option Cell → Terminal
show_at t none = record t { content = modify_row t.y (put t.x (cell b' ' t.style_id)) t.content }
show_at t (some hole) = record t {
  content = modify_row t.y (put t.x (cell b' ' t.style_id)) t.content;
}
show_at t (some (cell c id)) = t
show_at t (some bare) = t

abbrev pub show_in : Terminal → Option Row → Terminal × Progress
show_in t none = (t, thrown_type_error)
show_in t (some row) = (show_at t (get_elem? row t.x), finished [])

abbrev pub show_cursor : Terminal → Terminal × Progress
show_cursor t = show_in t (get_elem? t.content t.y)

abbrev pub concat : List Text → Text
concat [] = []
concat (s ∷ texts) = s ++ concat texts

-- The handler of the watcher. The remainder is kept if `process` throws.
abbrev pub keep_remainder : Option (Terminal × Progress) → Option (Terminal × Progress)
keep_remainder none = none
keep_remainder (some (t, finished rest)) = some (show_cursor (record t { remainder = rest }))
keep_remainder (some (t, thrown_assertion)) = some (t, thrown_assertion)
keep_remainder (some (t, thrown_type_error)) = some (t, thrown_type_error)
keep_remainder (some (t, thrown_range_error)) = some (t, thrown_range_error)

unfoldable pub receive : Terminal → List Text → Option (Terminal × Progress)
receive t stream = elim (t.remainder ++ concat stream) [
  | [] ↦ some (t, finished [])
  | c ∷ update ↦ keep_remainder (process t (c ∷ update))
]

-- `handleResize`, with the width of the element in characters, rounded down.
unfoldable pub handle_resize : Terminal → ℕ → Terminal
handle_resize t columns = record t { columns = some columns }
