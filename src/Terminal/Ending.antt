-- ===== src/Terminal/Ending.antt =====
-- How `process` of nodejs/vue/components/terminal/frontend/vt100.vue ends.
use bzd.Prelude.Text.{Text}
use bzd.Prelude.{
  ℕ, zero, suc, ◌+◌, ◌-◌, ◌≤◌, ◌≡◌, ◌≢◌, refl, sym, subst, ◌⊎◌, inl, inr, Bool, some, List, [], ◌∷◌,
  ◌++◌, ◌==◌, length, get_elem?, drop, take, arith, Bool-cases, ltb,
}
use bzd.Terminal.{
  Cell, cell, Terminal, Reply, accepted, refused, assertion, type_error, range_error,
}
use bzd.Terminal.Style.{sgr}
use bzd.Terminal.Screen.{Row, ensure_rows}
use bzd.Terminal.Commands.{
  first_or, set_mode, move_cursor_up, move_cursor_down, move_cursor_right, move_cursor_left,
  move_cursor_down_begining, move_cursor_up_begining, move_cursor_column, move_cursor_line_column,
  change_found, change_row, put_cells, write_cells, delete_char, erase_char, bare_cells, max_length,
  insert_found, insert_char, erase_line, then_content, erase_screen,
}
use bzd.Terminal.Stream.{Command}
use bzd.Terminal.Process.{handle, process}
use bzd.Terminal.Ready.{IsReady, get_elem?-ensure_rows}
use bzd.Terminal.Handlers.{Handlers, handle-keeps, Handled, Ends, process_rule}
use bzd.Terminal.Cells.{
  AllDrawn, IsDrawnRow, IsDrawnCell, All-append, All-take, All-drop, AllDrawn-ensure_rows,
  AllDrawn-modify_row, IsDrawnRow-put_cells, IsDrawnRow-bare_cells,
}
use bzd.Terminal.Drawn.{IsDrawn, sgr-IsDrawn, sgr-shows}
use bzd.Terminal.Shown.{IsDrawn-content, write-IsDrawn}

sgr-Handled : (t : Terminal) (args : List ℕ) → IsDrawn t → Handled IsDrawn (sgr t args)
sgr-Handled t args h =
    by_reply (sgr t args) (sgr-IsDrawn t args h) (replies (sgr-shows t args h.known))
  where
    by_reply : (r : Terminal × Reply) → IsDrawn r.0 → r.1 ≢ type_error → Handled IsDrawn r
    by_reply (u, accepted) h other = h
    by_reply (u, refused) h other = h
    by_reply (u, assertion) h other = h
    by_reply (u, type_error) h other = other refl
    by_reply (u, range_error) h other = h

    replies :
        {A B : Type 0}
        → (((sgr t args).1 ≡ accepted) × A) ⊎ (((sgr t args).1 ≡ refused) × B)
        → (sgr t args).1 ≢ type_error
    replies (inl (e, a)) u = cc
    replies (inr (e, b)) u = cc

set_mode-IsDrawn :
    (on : Bool) (t : Terminal) (args : List ℕ) → IsDrawn t → Handled IsDrawn (set_mode on t args)
unfolding set_mode
set_mode-IsDrawn on t [] h = h
set_mode-IsDrawn on t (arg ∷ args) h = elim (Bool-cases (arg == 4)) [
  | inr e ↦ rw (e, set_mode) h
  | inl e ↦
      rw (e, set_mode)
        (set_mode-IsDrawn on (record t { insert_mode = on }) args
          (record { drawn = h.drawn; known = h.known; current = h.current }))
]

then_content-IsDrawn :
    (f : List Row → List Row) (r : Terminal × Reply)
    → ((n : ℕ) (content : List Row) → AllDrawn n content → AllDrawn n (f content))
    → Handled IsDrawn r
    → Handled IsDrawn (then_content f r)
then_content-IsDrawn f (t, accepted) keep h =
    IsDrawn-content t _ t.x t.y h (keep (length t.styles) t.content h.drawn)
then_content-IsDrawn f (t, refused) keep h =
    IsDrawn-content t _ t.x t.y h (keep (length t.styles) t.content h.drawn)
then_content-IsDrawn f (t, assertion) keep h = h
then_content-IsDrawn f (t, type_error) keep h = absurd h
then_content-IsDrawn f (t, range_error) keep h = h

column-IsDrawn :
    (t : Terminal) (args : List ℕ) → IsDrawn t → Handled IsDrawn (move_cursor_column t args)
unfolding move_cursor_column
column-IsDrawn t [] h = h
column-IsDrawn t (column ∷ args) h = IsDrawn-content t t.content column t.y h h.drawn

same-IsDrawn :
    (t : Terminal) (reply : Reply) → reply ≢ type_error → IsDrawn t → Handled IsDrawn (t, reply)
same-IsDrawn t accepted other h = h
same-IsDrawn t refused other h = h
same-IsDrawn t assertion other h = h
same-IsDrawn t type_error other h = other refl
same-IsDrawn t range_error other h = h

-- The handlers, at a terminal whose row is there.
module _ (t : Terminal) (h : IsDrawn t) (row : Row) (found : get_elem? t.content t.y ≡ some row)
    (reaches : t.x ≤ length row) where
  cursor-IsDrawn : (x y : ℕ) → IsDrawn (record t { x = x; y = y })
  cursor-IsDrawn x y = IsDrawn-content t t.content x y h h.drawn

  change_row-IsDrawn :
      (f : Row → Row)
      → (IsDrawnRow (length t.styles) row → IsDrawnRow (length t.styles) (f row))
      → Handled IsDrawn (change_row f t)
  change_row-IsDrawn f keep =
      subst (λ o. Handled IsDrawn (change_found f t o)) (sym found)
        (IsDrawn-content t _ t.x t.y h
          (AllDrawn-modify_row (length t.styles) f t.y t.content found keep h.drawn))

  write_cells-IsDrawn :
      (n x : ℕ) (c : Cell)
      → x ≤ length row
      → IsDrawnCell (length t.styles) c
      → Handled IsDrawn (write_cells n x c t)
  write_cells-IsDrawn zero x c le p = h
  write_cells-IsDrawn (suc n) x c le p =
      change_row-IsDrawn (put_cells (suc n) x c)
        (IsDrawnRow-put_cells (length t.styles) (suc n) x c row le p)

  delete_char-IsDrawn : (args : List ℕ) → Handled IsDrawn (delete_char t args)
  unfolding delete_char
  delete_char-IsDrawn args =
      let P = IsDrawnCell (length t.styles) in
      change_row-IsDrawn (λ row. take t.x row ++ drop (t.x + first_or 1 args) row)
        (λ k.
          All-append P (take t.x row) (drop (t.x + first_or 1 args) row) (All-take P t.x row k)
            (All-drop P (t.x + first_or 1 args) row k))

  insert_char-IsDrawn : (args : List ℕ) → Handled IsDrawn (insert_char t args)
  unfolding insert_char
  insert_char-IsDrawn args =
      let P = IsDrawnCell (length t.styles) in
      let number = first_or 1 args in
      let new = bare_cells number in
      let inserted =
        change_row-IsDrawn (λ row. take t.x row ++ (new ++ drop t.x row))
          (λ k. All-append P (take t.x row) (new ++ drop t.x row) (All-take P t.x row k) (
            All-append P new (drop t.x row) (IsDrawnRow-bare_cells (length t.styles) number)
              (All-drop P t.x row k))) in
      subst (λ o. Handled IsDrawn (insert_found number t o)) (sym found)
        (elim (Bool-cases (ltb max_length number)) [
          | inl long ↦ rw long h
          | inr short ↦ rw short (
              subst
                (λ o. Handled IsDrawn (change_found (λ r. take t.x r ++ (new ++ drop t.x r)) t o))
                found inserted)
        ])

  erase_line-IsDrawn : (arg : ℕ) → Handled IsDrawn (erase_line t arg)
  unfolding erase_line
  erase_line-IsDrawn zero =
      change_row-IsDrawn (take t.x) (All-take (IsDrawnCell (length t.styles)) t.x row)
  erase_line-IsDrawn (suc zero) =
      write_cells-IsDrawn t.x 0 (cell b' ' 0) (omega arith) (omega (arith, h.current))
  erase_line-IsDrawn (suc (suc zero)) =
      let (there, at) = get_elem?-ensure_rows t.y t.content in
      IsDrawn-content t _ t.x t.y h (
        AllDrawn-modify_row (length t.styles) (λ row. []) t.y (ensure_rows t.y t.content) at
          (λ k. tt) (AllDrawn-ensure_rows (length t.styles) t.y t.content h.drawn))
  erase_line-IsDrawn (suc (suc (suc arg))) = h

  erase_screen-IsDrawn : (arg : ℕ) → Handled IsDrawn (erase_screen t arg)
  unfolding erase_screen
  erase_screen-IsDrawn zero =
      then_content-IsDrawn (take t.y) (erase_line t 0)
        (λ n content. All-take (IsDrawnRow n) t.y content) (erase_line-IsDrawn 0)
  erase_screen-IsDrawn (suc zero) =
      then_content-IsDrawn (drop t.y) (erase_line t 1)
        (λ n content. All-drop (IsDrawnRow n) t.y content) (erase_line-IsDrawn 1)
  erase_screen-IsDrawn (suc (suc zero)) = IsDrawn-content t [] t.x t.y h tt
  erase_screen-IsDrawn (suc (suc (suc zero))) = h
  erase_screen-IsDrawn (suc (suc (suc (suc arg)))) = h

  every_one : (args : List ℕ) → Handlers (Handled IsDrawn) t args
  unfolding move_cursor_up move_cursor_down move_cursor_right move_cursor_left
      move_cursor_down_begining move_cursor_up_begining move_cursor_line_column erase_char
  every_one args = record {
    sgr_ok = sgr-Handled t args h;
    mode_ok = λ on. set_mode-IsDrawn on t args h;
    up_ok = cursor-IsDrawn t.x (t.y - first_or 1 args);
    down_ok = cursor-IsDrawn t.x (t.y + first_or 1 args);
    right_ok = cursor-IsDrawn (t.x + first_or 1 args) t.y;
    left_ok = cursor-IsDrawn (t.x - first_or 1 args) t.y;
    down_begining_ok = cursor-IsDrawn 0 (t.y + first_or 1 args);
    up_begining_ok = cursor-IsDrawn 0 (t.y - first_or 1 args);
    line_column_ok = cursor-IsDrawn _ _;
    column_ok = column-IsDrawn t args h;
    erase_screen_ok = erase_screen-IsDrawn;
    erase_line_ok = erase_line-IsDrawn;
    delete_ok = delete_char-IsDrawn args;
    erase_ok = write_cells-IsDrawn (first_or 1 args) t.x (cell b' ' t.style_id) reaches h.current;
    insert_ok = insert_char-IsDrawn args;
    same_ok = λ reply other. same-IsDrawn t reply other h;
  }

pub handle-IsDrawn :
    (t : Terminal) (command : Command) → IsReady t → IsDrawn t → Handled IsDrawn (handle t command)
unfolding IsReady
handle-IsDrawn t command (row, found, reaches) h =
    handle-keeps (Handled IsDrawn) t command (every_one t h row found reaches)

-- At a terminal whose content is drawn, on every stream `process` ends: with the rest of the stream,
-- or with the exception that `moveCursorColumn` throws without an argument, or with the RangeError of
-- `insertChar`, and never with the TypeError of a missing row. No row has a gap then, and every
-- character has a style of the list; after the rest of the stream, the row of the cursor is there.
pub process-Ends : (t : Terminal) (stream : Text) → IsDrawn t → Ends IsDrawn (process t stream)
process-Ends = process_rule IsDrawn write-IsDrawn handle-IsDrawn
