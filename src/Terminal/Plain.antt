-- ===== src/Terminal/Plain.antt =====
-- Characters that `write` of vt100.vue only puts into the row.
use bzd.Prelude.Text.{Text}
use bzd.Prelude.{
  ℕ, zero, suc, ◌+◌, ◌≤◌, ◌≡◌, refl, sym, ap, ◌∙◌, Bool, true, false, not, ◌||◌, some, List, [],
  ◌∷◌, ◌++◌, ◌==◌, length, get_elem?, drop, all, arith, if◌then◌else◌,
}
use bzd.Terminal.{Cell, cell, Terminal}
use bzd.Terminal.Screen.{Row, modify_row, write_cell, write_char, write_chars, write}
use bzd.Terminal.Ready.{
  IsReady, modify_row-eq_self, get_elem?-modify_row, prepare-eq_self, lt-length-write_cell,
}

abbrev pub is_plain : ℕ → Bool
is_plain c = not (c == b'\n' || c == b'\r' || c == 8 || c == 7)

abbrev pub cells : ℕ → Text → Row
cells id [] = []
cells id (c ∷ text) = cell c id ∷ cells id text

-- A row with new cells from a column on: before what stood there, or over it.
abbrev pub with_cells : Bool → ℕ → Row → Row → Row
with_cells insert_mode zero new row = new ++ drop (if insert_mode then 0 else length new) row
with_cells insert_mode (suc x) new [] = new
with_cells insert_mode (suc x) new (c ∷ row) = c ∷ with_cells insert_mode x new row

with_cells-nil : (on : Bool) (x : ℕ) (row : Row) → with_cells on x [] row ≡ row
with_cells-nil true zero row = refl
with_cells-nil false zero row = refl
with_cells-nil on (suc x) [] = refl
with_cells-nil on (suc x) (c ∷ row) = ap (λ (r : Row). c ∷ r) (with_cells-nil on x row)

drop-nil : (n : ℕ) → ◌≡◌ {A = Row} (drop n []) []
drop-nil zero = refl
drop-nil (suc n) = refl

with_cells-write_cell :
    (on : Bool) (x : ℕ) (c : Cell) (new row : Row)
    → x ≤ length row
    → with_cells on (suc x) new (write_cell on x c row) ≡ with_cells on x (c ∷ new) row
with_cells-write_cell true zero c new row le = refl
with_cells-write_cell false zero c new [] le =
    ap (λ (r : Row). c ∷ (new ++ r)) (drop-nil (length new))
with_cells-write_cell false zero c new (d ∷ row) le = refl
with_cells-write_cell on (suc x) c new [] le = absurd (omega (arith, le))
with_cells-write_cell true (suc x) c new (d ∷ row) le =
    ap (λ (r : Row). d ∷ r) (with_cells-write_cell true x c new row (omega (arith, le)))
with_cells-write_cell false (suc x) c new (d ∷ row) le =
    ap (λ (r : Row). d ∷ r) (with_cells-write_cell false x c new row (omega (arith, le)))

modify_row-modify_row :
    (f g h : Row → Row) (y : ℕ) (rows : List Row) {row : Row}
    → get_elem? rows y ≡ some row
    → f (g row) ≡ h row
    → modify_row y f (modify_row y g rows) ≡ modify_row y h rows
modify_row-modify_row f g h y [] found e = absurd (cc)
modify_row-modify_row f g h zero (r ∷ rows) {row} found e =
    let same : r ≡ row = cc in
    ap (λ (q : Row). q ∷ rows) (ap (λ q. f (g q)) same ∙ e ∙ sym (ap h same))
modify_row-modify_row f g h (suc y) (r ∷ rows) found e =
    ap (λ (l : List Row). r ∷ l) (modify_row-modify_row f g h y rows found e)

-- A terminal with a row changed and the cursor moved along it.
abbrev pub with_row : Terminal → (Row → Row) → ℕ → Terminal
with_row t f x = record t { content = modify_row t.y f t.content; x = x }

write_char_plain :
    (t : Terminal) (c : ℕ)
    → is_plain c ≡ true
    → write_char t c ≡ with_row t (write_cell t.insert_mode t.x (cell c t.style_id)) (t.x + 1)
unfolding write_char
write_char_plain t c plain =
    let a : (c == b'\n') ≡ false = ground arith in
    let b : (c == b'\r') ≡ false = ground arith in
    let d : (c == 8) ≡ false = ground arith in
    let e : (c == 7) ≡ false = ground arith in rw a (rw b (rw d (rw e refl)))

write_chars_plain :
    (t : Terminal) (text : Text) (row : Row)
    → get_elem? t.content t.y ≡ some row
    → t.x ≤ length row
    → all is_plain text ≡ true
    → write_chars t text
      ≡ with_row t (with_cells t.insert_mode t.x (cells t.style_id text)) (t.x + length text)
unfolding write_chars
write_chars_plain t [] row found reaches plain =
    ap (λ (content : List Row). record t { content = content; x = t.x })
      (sym (
        modify_row-eq_self (with_cells t.insert_mode t.x []) t.y t.content found
          (with_cells-nil t.insert_mode t.x row)))
    ∙ ap (with_row t (with_cells t.insert_mode t.x [])) (omega arith)
write_chars_plain t (c ∷ text) row found reaches plain =
    let new = cell c t.style_id in
    let f = write_cell t.insert_mode t.x new in
    let next = with_row t f (t.x + 1) in
    let one : t.x + 1 ≡ suc t.x = omega arith in
    ap (λ u. write_chars u text) (write_char_plain t c (ground arith))
    ∙ write_chars_plain next text (f row) (get_elem?-modify_row f t.y t.content found)
        (omega (arith, lt-length-write_cell t.insert_mode t.x new row reaches)) (ground arith)
    ∙ ap (λ (content : List Row). record t { content = content; x = t.x + 1 + length text })
        (modify_row-modify_row (with_cells t.insert_mode (t.x + 1) (cells t.style_id text)) f
          (with_cells t.insert_mode t.x (new ∷ cells t.style_id text)) t.y t.content found
          (ap (λ n. with_cells t.insert_mode n (cells t.style_id text) (f row)) one
            ∙ with_cells-write_cell t.insert_mode t.x new (cells t.style_id text) row reaches))
    ∙ ap (with_row t (with_cells t.insert_mode t.x (new ∷ cells t.style_id text))) (omega arith)

-- A text without newlines, carriage returns, backspaces and bells is put into the row of the cursor,
-- from its column on, in the current style: in the insert mode before the rest of the row, otherwise
-- over as many cells. The cursor moves behind it, and nothing else changes. This is so where the row is
-- there and reaches the cursor.
pub write_plain :
    (t : Terminal) (text : Text)
    → IsReady t
    → all is_plain text ≡ true
    → write t text
      ≡ with_row t (with_cells t.insert_mode t.x (cells t.style_id text)) (t.x + length text)
unfolding write IsReady
write_plain t text (row, found, reaches) plain =
    ap (λ u. write_chars u text) (prepare-eq_self t (row, found, reaches))
    ∙ write_chars_plain t text row found reaches plain
