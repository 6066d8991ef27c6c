-- ===== src/Terminal/Ready.antt =====
-- The row of the cursor is there, and reaches the cursor, from the first `write` on.
use bzd.Prelude.Text.{Text}
use bzd.Prelude.{
  ℕ, zero, suc, ◌+◌, ◌-◌, ◌≤◌, ◌<◌, ◌≡◌, refl, ap, inl, inr, Bool, true, false, some, List, [], ◌∷◌,
  ◌++◌, ◌==◌, length, get_elem?, insert_idx, arith, Bool-cases, sym, ◌∙◌,
}
use bzd.Terminal.{Cell, cell, Terminal}
use bzd.Terminal.Screen.{
  Row, ensure_rows, pad_row, put, modify_row, prepare, new_line, is_at_edge, write_cell, write_char,
  write_chars, write,
}

unfoldable pub IsReady : Terminal → Type 0
IsReady t = (row : Row) × (get_elem? t.content t.y ≡ some row) × (t.x ≤ length row)

pub get_elem?-ensure_rows :
    (y : ℕ) (rows : List Row) → (row : Row) × (get_elem? (ensure_rows y rows) y ≡ some row)
get_elem?-ensure_rows zero [] = ([], refl)
get_elem?-ensure_rows zero (row ∷ rows) = (row, refl)
get_elem?-ensure_rows (suc y) [] = get_elem?-ensure_rows y []
get_elem?-ensure_rows (suc y) (row ∷ rows) = get_elem?-ensure_rows y rows

pub ensure_rows-eq_self :
    (y : ℕ) (rows : List Row) {row : Row} → get_elem? rows y ≡ some row → ensure_rows y rows ≡ rows
ensure_rows-eq_self zero [] h = absurd (cc)
ensure_rows-eq_self (suc y) [] h = absurd (cc)
ensure_rows-eq_self zero (r ∷ rows) h = refl
ensure_rows-eq_self (suc y) (r ∷ rows) h = ap (λ l. r ∷ l) (ensure_rows-eq_self y rows h)

pub get_elem?-modify_row :
    (f : Row → Row) (y : ℕ) (rows : List Row) {row : Row}
    → get_elem? rows y ≡ some row
    → get_elem? (modify_row y f rows) y ≡ some (f row)
get_elem?-modify_row f zero [] h = absurd (cc)
get_elem?-modify_row f (suc y) [] h = absurd (cc)
get_elem?-modify_row f zero (r ∷ rows) h = cc
get_elem?-modify_row f (suc y) (r ∷ rows) h = get_elem?-modify_row f y rows h

pub modify_row-eq_self :
    (f : Row → Row) (y : ℕ) (rows : List Row) {row : Row}
    → get_elem? rows y ≡ some row
    → f row ≡ row
    → modify_row y f rows ≡ rows
modify_row-eq_self f zero [] h e = absurd (cc)
modify_row-eq_self f (suc y) [] h e = absurd (cc)
modify_row-eq_self f zero (r ∷ rows) h e = cc
modify_row-eq_self f (suc y) (r ∷ rows) h e = ap (λ l. r ∷ l) (modify_row-eq_self f y rows h e)

pub le-length-pad_row : (x : ℕ) (row : Row) → x ≤ length (pad_row x row)
le-length-pad_row zero row = omega arith
le-length-pad_row (suc x) [] = omega (arith, le-length-pad_row x [])
le-length-pad_row (suc x) (c ∷ row) = omega (arith, le-length-pad_row x row)

pub pad_row-eq_self : (x : ℕ) (row : Row) → x ≤ length row → pad_row x row ≡ row
pad_row-eq_self zero row h = refl
pad_row-eq_self (suc x) [] h = absurd (omega arith)
pad_row-eq_self (suc x) (c ∷ row) h = ap (λ l. c ∷ l) (pad_row-eq_self x row (omega arith))

pub lt-length-put : (x : ℕ) (c : Cell) (row : Row) → x < length (put x c row)
lt-length-put zero c [] = omega arith
lt-length-put zero c (d ∷ row) = omega arith
lt-length-put (suc x) c [] = omega (arith, lt-length-put x c [])
lt-length-put (suc x) c (d ∷ row) = omega (arith, lt-length-put x c row)

lt-length-insert_idx :
    (x : ℕ) (c : Cell) (row : Row) → x ≤ length row → x < length (insert_idx row x c)
lt-length-insert_idx zero c row h = omega arith
lt-length-insert_idx (suc x) c [] h = absurd (omega arith)
lt-length-insert_idx (suc x) c (d ∷ row) h =
    omega (arith, lt-length-insert_idx x c row (omega arith))

pub lt-length-write_cell :
    (on : Bool) (x : ℕ) (c : Cell) (row : Row) → x ≤ length row → x < length (write_cell on x c row)
lt-length-write_cell true x c row h = lt-length-insert_idx x c row h
lt-length-write_cell false x c row h = lt-length-put x c row

pub prepare-IsReady : (t : Terminal) → IsReady (prepare t)
unfolding IsReady
prepare-IsReady t =
    let (row, found) = get_elem?-ensure_rows t.y t.content in
    (
      pad_row t.x row,
      get_elem?-modify_row (pad_row t.x) t.y (ensure_rows t.y t.content) found,
      le-length-pad_row t.x row,
    )

pub prepare-eq_self : (t : Terminal) → IsReady t → prepare t ≡ t
unfolding IsReady
prepare-eq_self t (row, found, reaches) =
    ap (λ content. record t { content = content })
      (ap (modify_row t.y (pad_row t.x)) (ensure_rows-eq_self t.y t.content found)
        ∙ modify_row-eq_self (pad_row t.x) t.y t.content found (pad_row-eq_self t.x row reaches))

new_line-IsReady : (t : Terminal) → IsReady (record (new_line t) { x = 0 })
unfolding IsReady
new_line-IsReady t =
    let (row, found) = get_elem?-ensure_rows (t.y + 1) t.content in (row, found, omega arith)

-- A column further to the left.
left-IsReady : (t : Terminal) (x : ℕ) → x ≤ t.x → IsReady t → IsReady (record t { x = x })
unfolding IsReady
left-IsReady t x le (row, found, reaches) = (row, found, omega (arith, le, reaches))

printed_lem :
    (t : Terminal) (c : ℕ)
    → IsReady t
    → IsReady (record t {
      content = modify_row t.y (write_cell t.insert_mode t.x (cell c t.style_id)) t.content;
      x = t.x + 1;
    })
unfolding IsReady
printed_lem t c (row, found, reaches) =
    let f = write_cell t.insert_mode t.x (cell c t.style_id) in
    (
      f row,
      get_elem?-modify_row f t.y t.content found,
      omega (arith, lt-length-write_cell t.insert_mode t.x (cell c t.style_id) row reaches),
    )

pub write_char-IsReady : (t : Terminal) (c : ℕ) → IsReady t → IsReady (write_char t c)
unfolding write_char
write_char-IsReady t c ready = elim (Bool-cases (c == b'\n')) [
  | inl e ↦ rw e (new_line-IsReady t)
  | inr e ↦ rw e (elim (Bool-cases (c == b'\r')) [
    | inl e ↦ rw e (elim (Bool-cases (is_at_edge t)) [
      | inl edge ↦ rw edge (new_line-IsReady t)
      | inr edge ↦ rw edge (left-IsReady t 0 (omega arith) ready)
    ])
    | inr e ↦ rw e (elim (Bool-cases (c == 8)) [
      | inl e ↦ rw e (left-IsReady t (t.x - 1) (omega arith) ready)
      | inr e ↦
          rw e (elim (Bool-cases (c == 7)) [
            | inl e ↦ rw e ready
            | inr e ↦ rw e (printed_lem t c ready)
          ])
    ])
  ])
]

pub write_chars-IsReady : (t : Terminal) (text : Text) → IsReady t → IsReady (write_chars t text)
unfolding write_chars
write_chars-IsReady t [] ready = ready
write_chars-IsReady t (c ∷ text) ready =
    write_chars-IsReady (write_char t c) text (write_char-IsReady t c ready)

pub write-IsReady : (t : Terminal) (text : Text) → IsReady (write t text)
unfolding write
write-IsReady t text = write_chars-IsReady (prepare t) text (prepare-IsReady t)

write_chars-append :
    (t : Terminal) (a b : Text) → write_chars t (a ++ b) ≡ write_chars (write_chars t a) b
unfolding write_chars
write_chars-append t [] b = refl
write_chars-append t (c ∷ a) b = write_chars-append (write_char t c) a b

-- A text can be written in parts.
pub write-append : (t : Terminal) (a b : Text) → write t (a ++ b) ≡ write (write t a) b
unfolding write
write-append t a b =
    write_chars-append (prepare t) a b
    ∙ ap (λ s. write_chars s b)
        (sym (
          prepare-eq_self (write_chars (prepare t) a)
            (write_chars-IsReady (prepare t) a (prepare-IsReady t))))

pub write-nil : (t : Terminal) → IsReady t → write t [] ≡ t
unfolding write write_chars
write-nil t ready = prepare-eq_self t ready
