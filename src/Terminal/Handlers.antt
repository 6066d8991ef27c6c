-- ===== src/Terminal/Handlers.antt =====
-- What holds after each handler of vt100.vue holds after a command, and what `write` and the commands
-- keep holds after `process`.
use bzd.Prelude.Text.{Text}
use bzd.Prelude.{
  ℕ, zero, suc, ◌<◌, ◌≢◌, inl, inr, Bool, true, false, none, some, List, [], length, arith,
  Option-cases, if◌then◌else◌, ◌==◌,
}
use bzd.Terminal.{Terminal, Reply, accepted, refused, assertion, type_error, range_error}
use bzd.Terminal.Style.{sgr}
use bzd.Terminal.Screen.{write}
use bzd.Terminal.Commands.{
  first_or, set_mode, move_cursor_up, move_cursor_down, move_cursor_right, move_cursor_left,
  move_cursor_down_begining, move_cursor_up_begining, move_cursor_column, move_cursor_line_column,
  delete_char, erase_char, insert_char, erase_line, erase_screen,
}
use bzd.Terminal.Stream.{find_category, Command, control, private_control, system, match_command}
use bzd.Terminal.Process.{
  parse_args, handle_csi, handle, finished, thrown_assertion, thrown_type_error, thrown_range_error,
  go_on, process,
}
use bzd.Terminal.Ready.{IsReady, write-IsReady}
use bzd.Terminal.Matching.{IsEnd-length, find_category-length}
use bzd.Terminal.Rounds.{
  Result, Found-cases, behind-IsEnd, process-none, process-unfinished, process-malformed,
  process-matched,
}

-- A predicate on the ends of all handlers.
pub record Handlers (P : Terminal × Reply → Type 0) (t : Terminal) (args : List ℕ) : Type 0 where
  pub sgr_ok : P (sgr t args)
  pub mode_ok : (on : Bool) → P (set_mode on t args)
  pub up_ok : P (move_cursor_up t args)
  pub down_ok : P (move_cursor_down t args)
  pub right_ok : P (move_cursor_right t args)
  pub left_ok : P (move_cursor_left t args)
  pub down_begining_ok : P (move_cursor_down_begining t args)
  pub up_begining_ok : P (move_cursor_up_begining t args)
  pub line_column_ok : P (move_cursor_line_column t args)
  pub column_ok : P (move_cursor_column t args)
  pub erase_screen_ok : (arg : ℕ) → P (erase_screen t arg)
  pub erase_line_ok : (arg : ℕ) → P (erase_line t arg)
  pub delete_ok : P (delete_char t args)
  pub erase_ok : P (erase_char t args)
  pub insert_ok : P (insert_char t args)
  pub same_ok : (reply : Reply) → reply ≢ type_error → P (t, reply)

keeps :
    (P : Terminal × Reply → Type 0) (b : Bool) (u v : Terminal × Reply)
    → P u
    → P v
    → P (if b then u else v)
keeps P true u v p q = p
keeps P false u v p q = q

handle_csi-keeps :
    (P : Terminal × Reply → Type 0) (t : Terminal) (name : ℕ) (args : List ℕ)
    → Handlers P t args
    → P (handle_csi t name args)
unfolding handle_csi
handle_csi-keeps P t name args h = at b'm' h.sgr_ok (
    at b'h' (h.mode_ok true) (
      at b'l' (h.mode_ok false) (
        at b'A' h.up_ok (
          at b'B' h.down_ok (
            at b'C' h.right_ok (
              at b'D' h.left_ok (
                at b'E' h.down_begining_ok (
                  at b'F' h.up_begining_ok (
                    at b'f' h.line_column_ok (
                      at b'G' h.column_ok (
                        at b'H' h.line_column_ok (
                          at b'J' (h.erase_screen_ok (first_or 0 args)) (
                            at b'K' (h.erase_line_ok (first_or 0 args)) (
                              at b'P' h.delete_ok (
                                at b'X' h.erase_ok
                                  (at b'@' h.insert_ok (h.same_ok refused (λ e. cc))))))))))))))))))
  where
    at : (letter : ℕ) {u v : Terminal × Reply} → P u → P v → P (if name == letter then u else v)
    at letter p q = keeps P (name == letter) _ _ p q

pub handle-keeps :
    (P : Terminal × Reply → Type 0) (t : Terminal) (command : Command)
    → ((args : List ℕ) → Handlers P t args)
    → P (handle t command)
unfolding handle
handle-keeps P t (control params name) h =
    handle_csi-keeps P t name (parse_args none params) (h (parse_args none params))
handle-keeps P t (private_control params on) h = (h []).same_ok _ (ground arith)
handle-keeps P t (system name params) h = (h []).same_ok _ (ground arith)

-- `process` ends, with the predicate and with no TypeError; the row of the cursor is then there.
abbrev pub Ends : (Terminal → Type 0) → Result → Type 0
Ends Inv none = ⊥
Ends Inv (some (t, finished rest)) = Inv t × IsReady t
Ends Inv (some (t, thrown_assertion)) = Inv t
Ends Inv (some (t, thrown_type_error)) = ⊥
Ends Inv (some (t, thrown_range_error)) = Inv t

abbrev pub Handled : (Terminal → Type 0) → Terminal × Reply → Type 0
Handled Inv (t, accepted) = Inv t
Handled Inv (t, refused) = Inv t
Handled Inv (t, assertion) = Inv t
Handled Inv (t, type_error) = ⊥
Handled Inv (t, range_error) = Inv t

module _ (Inv : Terminal → Type 0)
    (kept_by_write : (t : Terminal) (text : Text) → Inv t → Inv (write t text))
    (kept_by_handle : (t : Terminal) (command : Command)
      → IsReady t
      → Inv t
      → Handled Inv (handle t command)) where
  go_on-Ends :
      (f : Terminal → Result) (reply : Terminal × Reply)
      → Handled Inv reply
      → ((t : Terminal) → Inv t → Ends Inv (f t))
      → Ends Inv (go_on f reply)
  go_on-Ends f (t, accepted) h next = next t h
  go_on-Ends f (t, refused) h next = next t h
  go_on-Ends f (t, assertion) h next = h
  go_on-Ends f (t, type_error) h next = absurd h
  go_on-Ends f (t, range_error) h next = h

  finishes_within :
      (n : ℕ) (t : Terminal) (s : Text) → length s < n → Inv t → Ends Inv (process t s)
  finishes_within zero t s less inv = absurd (omega arith)
  finishes_within (suc n) t s less inv = elim (Option-cases (find_category s)) [
    | inl e ↦ rw (process-none t s e) (kept_by_write t s inv, write-IsReady t s)
    | inr ((before, k, rest), e) ↦
        let shorter = find_category-length s before k rest e in
        let written = kept_by_write t before inv in
        elim (Found-cases (match_command k rest)) [
          | inl u ↦ rw (process-unfinished t s before k rest e u) (written, write-IsReady t before)
          | inr (inl m) ↦
              rw (process-malformed t s before k rest e m)
                (finishes_within n (write t before) rest (omega (arith, shorter)) written)
          | inr (inr (command, behind, m)) ↦
              let least = IsEnd-length behind rest (behind-IsEnd k rest command behind m) in
              rw (process-matched t s before k rest command behind e m) (
                go_on-Ends _ (handle (write t before) command)
                  (kept_by_handle (write t before) command (write-IsReady t before) written)
                  (λ next. finishes_within n next behind (omega (arith, shorter, least))))
        ]
  ]

  pub process_rule : (t : Terminal) (s : Text) → Inv t → Ends Inv (process t s)
  process_rule t s inv = finishes_within (suc (length s)) t s (omega arith) inv
