-- ===== src/Terminal/Commands.antt =====
-- The handlers of the commands of vt100.vue. `args` are the numbers of the command. A handler that
-- takes a row apart ends with a TypeError where the row is not there.
use bzd.Prelude.{
  ℕ, zero, suc, ◌+◌, ◌-◌, Bool, true, false, Option, none, some, List, [], ◌∷◌, ◌++◌, ◌==◌,
  get_elem?, drop, take, ltb, if◌then◌else◌,
}
use bzd.Terminal.{
  Cell, cell, bare, Terminal, Reply, accepted, refused, assertion, type_error, range_error,
}
use bzd.Terminal.Screen.{Row, ensure_rows, modify_row, put}

-- An argument with a default.
abbrev pub first_or : ℕ → List ℕ → ℕ
first_or default [] = default
first_or default (arg ∷ args) = arg

abbrev pub second_or : ℕ → List ℕ → ℕ
second_or default [] = default
second_or default (arg ∷ args) = first_or default args

-- `set` and `unset`
unfoldable pub set_mode : Bool → Terminal → List ℕ → Terminal × Reply
set_mode on t [] = (t, accepted)
set_mode on t (arg ∷ args) = elim (arg == 4) [
  | true ↦ set_mode on (record t { insert_mode = on }) args
  | false ↦ (t, refused)
]

unfoldable pub move_cursor_up : Terminal → List ℕ → Terminal × Reply
move_cursor_up t args = (record t { y = t.y - first_or 1 args }, accepted)

unfoldable pub move_cursor_down : Terminal → List ℕ → Terminal × Reply
move_cursor_down t args = (record t { y = t.y + first_or 1 args }, accepted)

unfoldable pub move_cursor_right : Terminal → List ℕ → Terminal × Reply
move_cursor_right t args = (record t { x = t.x + first_or 1 args }, accepted)

unfoldable pub move_cursor_left : Terminal → List ℕ → Terminal × Reply
move_cursor_left t args = (record t { x = t.x - first_or 1 args }, accepted)

-- `moveCursorDownBegining` and `moveCursorUpBegining`
unfoldable pub move_cursor_down_begining : Terminal → List ℕ → Terminal × Reply
unfolding move_cursor_down
move_cursor_down_begining t args = (record (move_cursor_down t args).0 { x = 0 }, accepted)

unfoldable pub move_cursor_up_begining : Terminal → List ℕ → Terminal × Reply
unfolding move_cursor_up
move_cursor_up_begining t args = (record (move_cursor_up t args).0 { x = 0 }, accepted)

unfoldable pub move_cursor_column : Terminal → List ℕ → Terminal × Reply
move_cursor_column t [] = (t, assertion)
move_cursor_column t (column ∷ args) = (record t { x = column }, accepted)

unfoldable pub move_cursor_line_column : Terminal → List ℕ → Terminal × Reply
move_cursor_line_column t args = (record t { x = second_or 0 args; y = first_or 0 args }, accepted)

-- A change of the row of the cursor, which is found or not.
abbrev pub change_found : (Row → Row) → Terminal → Option Row → Terminal × Reply
change_found f t none = (t, type_error)
change_found f t (some row) = (record t { content = modify_row t.y f t.content }, accepted)

abbrev pub change_row : (Row → Row) → Terminal → Terminal × Reply
change_row f t = change_found f t (get_elem? t.content t.y)

-- splice(x, number)
unfoldable pub delete_char : Terminal → List ℕ → Terminal × Reply
delete_char t args = change_row (λ row. take t.x row ++ drop (t.x + first_or 1 args) row) t

-- A loop that writes a number of equal cells from a column on.
abbrev pub put_cells : ℕ → ℕ → Cell → Row → Row
put_cells zero x c row = row
put_cells (suc n) x c row = put_cells n (x + 1) c (put x c row)

-- The loop touches the row only if it has a round.
abbrev pub write_cells : ℕ → ℕ → Cell → Terminal → Terminal × Reply
write_cells zero x c t = (t, accepted)
write_cells (suc n) x c t = change_row (put_cells (suc n) x c) t

unfoldable pub erase_char : Terminal → List ℕ → Terminal × Reply
erase_char t args = write_cells (first_or 1 args) t.x (cell b' ' t.style_id) t

abbrev pub bare_cells : ℕ → Row
bare_cells zero = []
bare_cells (suc n) = bare ∷ bare_cells n

-- The longest array of JavaScript has 2 ^ 32 - 1 elements.
abbrev pub max_length : ℕ
max_length = 4294967295

-- splice(x, 0, ...Array(number).fill(" ")), where `Array` throws a RangeError beyond that length. The
-- row is looked up before.
abbrev pub insert_found : ℕ → Terminal → Option Row → Terminal × Reply
insert_found number t none = (t, type_error)
insert_found number t (some row) =
    if ltb max_length number
    then (t, range_error)
    else change_found (λ r. take t.x r ++ (bare_cells number ++ drop t.x r)) t (some row)

unfoldable pub insert_char : Terminal → List ℕ → Terminal × Reply
insert_char t args = insert_found (first_or 1 args) t (get_elem? t.content t.y)

-- An argument that is missing is like 0. In `process` the row is there, since `write` comes before;
-- elsewhere the assignment of a whole row would leave holes above it, for which rows are made here.
unfoldable pub erase_line : Terminal → ℕ → Terminal × Reply
erase_line t zero = change_row (take t.x) t
erase_line t (suc zero) = write_cells t.x 0 (cell b' ' 0) t
erase_line t (suc (suc zero)) =
    (record t { content = modify_row t.y (λ row. []) (ensure_rows t.y t.content) }, accepted)
erase_line t (suc (suc (suc arg))) = (t, refused)

-- What follows `eraseLine`, unless it throws.
abbrev pub then_content : (List Row → List Row) → Terminal × Reply → Terminal × Reply
then_content f (t, type_error) = (t, type_error)
then_content f (t, range_error) = (t, range_error)
then_content f (t, assertion) = (t, assertion)
then_content f (t, accepted) = (record t { content = f t.content }, accepted)
then_content f (t, refused) = (record t { content = f t.content }, accepted)

unfoldable pub erase_screen : Terminal → ℕ → Terminal × Reply
unfolding erase_line
erase_screen t zero = then_content (take t.y) (erase_line t 0)
erase_screen t (suc zero) = then_content (drop t.y) (erase_line t 1)
erase_screen t (suc (suc zero)) = (record t { content = [] }, accepted)
erase_screen t (suc (suc (suc zero))) = (t, accepted)
erase_screen t (suc (suc (suc (suc arg)))) = (t, refused)
