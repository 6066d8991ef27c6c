-- ===== src/Terminal/Shown.antt =====
-- `write` of vt100.vue keeps the content drawn.
use bzd.Prelude.Text.{Text}
use bzd.Prelude.{ℕ, ◌+◌, ◌-◌, inl, inr, List, [], ◌∷◌, ◌==◌, length, arith, Bool-cases}
use bzd.Terminal.{cell, Terminal}
use bzd.Terminal.Screen.{
  Row, ensure_rows, pad_row, modify_row, prepare, new_line, is_at_edge, write_cell, write_char,
  write_chars, write,
}
use bzd.Terminal.Ready.{IsReady, get_elem?-ensure_rows, prepare-IsReady, write_char-IsReady}
use bzd.Terminal.Cells.{
  AllDrawn, AllDrawn-ensure_rows, AllDrawn-modify_row, IsDrawnRow-pad_row, IsDrawnRow-write_cell,
}
use bzd.Terminal.Drawn.{IsDrawn}

-- A change of nothing but the content and the cursor.
pub IsDrawn-content :
    (t : Terminal) (content : List Row) (x y : ℕ)
    → IsDrawn t
    → AllDrawn (length t.styles) content
    → IsDrawn (record t { content = content; x = x; y = y })
IsDrawn-content t content x y h drawn = record {
  drawn = drawn;
  known = h.known;
  current = h.current;
}

prepare-IsDrawn : (t : Terminal) → IsDrawn t → IsDrawn (prepare t)
prepare-IsDrawn t h =
    let n = length t.styles in
    let (row, found) = get_elem?-ensure_rows t.y t.content in
    IsDrawn-content t _ t.x t.y h (
      AllDrawn-modify_row n (pad_row t.x) t.y (ensure_rows t.y t.content) found
        (IsDrawnRow-pad_row n t.x row (omega (arith, h.current)))
        (AllDrawn-ensure_rows n t.y t.content h.drawn))

new_line-IsDrawn : (t : Terminal) → IsDrawn t → IsDrawn (record (new_line t) { x = 0 })
new_line-IsDrawn t h =
    IsDrawn-content t _ 0 (t.y + 1) h
      (AllDrawn-ensure_rows (length t.styles) (t.y + 1) t.content h.drawn)

print-IsDrawn :
    (t : Terminal) (c : ℕ)
    → IsReady t
    → IsDrawn t
    → IsDrawn (record t {
      content = modify_row t.y (write_cell t.insert_mode t.x (cell c t.style_id)) t.content;
      x = t.x + 1;
    })
unfolding IsReady
print-IsDrawn t c (row, found, reaches) h =
    let n = length t.styles in
    IsDrawn-content t _ (t.x + 1) t.y h (
      AllDrawn-modify_row n (write_cell t.insert_mode t.x (cell c t.style_id)) t.y t.content found
        (IsDrawnRow-write_cell n t.insert_mode t.x (cell c t.style_id) row reaches h.current)
        h.drawn)

write_char-IsDrawn : (t : Terminal) (c : ℕ) → IsReady t → IsDrawn t → IsDrawn (write_char t c)
unfolding write_char
write_char-IsDrawn t c ready h = elim (Bool-cases (c == b'\n')) [
  | inl e ↦ rw e (new_line-IsDrawn t h)
  | inr e ↦ rw e (elim (Bool-cases (c == b'\r')) [
    | inl e ↦ rw e (elim (Bool-cases (is_at_edge t)) [
      | inl edge ↦ rw edge (new_line-IsDrawn t h)
      | inr edge ↦ rw edge (IsDrawn-content t t.content 0 t.y h h.drawn)
    ])
    | inr e ↦ rw e (elim (Bool-cases (c == 8)) [
      | inl e ↦ rw e (IsDrawn-content t t.content (t.x - 1) t.y h h.drawn)
      | inr e ↦
          rw e (elim (Bool-cases (c == 7)) [
            | inl e ↦ rw e h
            | inr e ↦ rw e (print-IsDrawn t c ready h)
          ])
    ])
  ])
]

write_chars-IsDrawn :
    (t : Terminal) (text : Text) → IsReady t → IsDrawn t → IsDrawn (write_chars t text)
unfolding write_chars
write_chars-IsDrawn t [] ready h = h
write_chars-IsDrawn t (c ∷ text) ready h =
    write_chars-IsDrawn (write_char t c) text (write_char-IsReady t c ready)
      (write_char-IsDrawn t c ready h)

pub write-IsDrawn : (t : Terminal) (text : Text) → IsDrawn t → IsDrawn (write t text)
unfolding write
write-IsDrawn t text h =
    write_chars-IsDrawn (prepare t) text (prepare-IsReady t) (prepare-IsDrawn t h)
