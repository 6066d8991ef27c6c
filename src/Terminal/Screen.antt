-- ===== src/Terminal/Screen.antt =====
-- The rows of vt100.vue: `write`, which creates the row and the columns up to the cursor before it
-- writes, and `groupByStyleId`, which reads a row for the page.
use bzd.Prelude.Text.{Text}
use bzd.Prelude.{
  ℕ, zero, suc, ◌+◌, ◌-◌, Bool, true, false, ◌&&◌, Option, none, some, List, [], ◌∷◌, ◌++◌, ◌==◌,
  if◌then◌else◌, insert_idx, get_elem?,
}
use bzd.Terminal.{Cell, cell, bare, hole, Terminal}

abbrev pub Row : Type 0
Row = List Cell

-- Rows are created up to this index.
abbrev pub ensure_rows : ℕ → List Row → List Row
ensure_rows zero [] = [] ∷ []
ensure_rows zero (row ∷ rows) = row ∷ rows
ensure_rows (suc y) [] = [] ∷ ensure_rows y []
ensure_rows (suc y) (row ∷ rows) = row ∷ ensure_rows y rows

-- Spaces are pushed up to this length.
abbrev pub pad_row : ℕ → Row → Row
pad_row zero row = row
pad_row (suc x) [] = cell b' ' 0 ∷ pad_row x []
pad_row (suc x) (c ∷ row) = c ∷ pad_row x row

-- row[x] = c
abbrev pub put : ℕ → Cell → Row → Row
put zero c [] = c ∷ []
put zero c (d ∷ row) = c ∷ row
put (suc x) c [] = hole ∷ put x c []
put (suc x) c (d ∷ row) = d ∷ put x c row

-- A change of the row at an index, which is there wherever this is used.
abbrev pub modify_row : ℕ → (Row → Row) → List Row → List Row
modify_row y f [] = []
modify_row zero f (row ∷ rows) = f row ∷ rows
modify_row (suc y) f (row ∷ rows) = row ∷ modify_row y f rows

-- The first two loops of `write`.
abbrev pub prepare : Terminal → Terminal
prepare t = record t { content = modify_row t.y (pad_row t.x) (ensure_rows t.y t.content) }

-- `newLine`, which finds the row above in place.
abbrev pub new_line : Terminal → Terminal
new_line t = record t { y = t.y + 1; content = ensure_rows (t.y + 1) t.content }

-- this.terminalDimension && this.x == this.terminalDimension.width + 1
abbrev pub is_at_edge : Terminal → Bool
is_at_edge t = elim t.columns [ none ↦ false | some columns ↦ t.x == columns ]

abbrev pub write_cell : Bool → ℕ → Cell → Row → Row
write_cell insert_mode x c row = if insert_mode then insert_idx row x c else put x c row

-- One round of the last loop of `write`.
unfoldable pub write_char : Terminal → ℕ → Terminal
write_char t c =
    if c == b'\n'
    then record (new_line t) { x = 0 }
    else if c == b'\r'
    then record (if is_at_edge t then new_line t else t) { x = 0 }
    else if c == 8
    then record t { x = t.x - 1 }
    else if c == 7
    then t
    else record t {
      content = modify_row t.y (write_cell t.insert_mode t.x (cell c t.style_id)) t.content;
      x = t.x + 1;
    }

unfoldable pub write_chars : Terminal → Text → Terminal
write_chars t [] = t
write_chars t (c ∷ content) = write_chars (write_char t c) content

unfoldable pub write : Terminal → Text → Terminal
write t content = write_chars (prepare t) content

-- The keys of the groups: the -1 at the start, the cursor, a style, or `undefined`.
pub data Key : Type 0 where
  initial cursor undefined : Key
  style : ℕ → Key

abbrev pub same_key : Key → Key → Bool
same_key initial initial = true
same_key cursor cursor = true
same_key undefined undefined = true
same_key (style a) (style b) = a == b
same_key _ _ = false

-- output.at(-1)[0] += char
abbrev pub add_char : ℕ → List (Text × Key) → Option (List (Text × Key))
add_char c [] = none
add_char c ((text, key) ∷ []) = some ((text ++ c ∷ [], key) ∷ [])
add_char c (group ∷ next ∷ groups) = elim (add_char c (next ∷ groups)) [
  | none ↦ none
  | some more ↦ some (group ∷ more)
]

-- [char, charStyleId]: a gap cannot be taken apart.
abbrev pub parts : Cell → Option (ℕ × Key)
parts (cell c id) = some (c, style id)
parts bare = some (b' ', undefined)
parts hole = none

-- The groups in which a character with a key is written: a group for the cursor is opened at its
-- column, and one for the key unless it is the current one.
abbrev pub opened : Bool → Key → Key → List (Text × Key) → List (Text × Key)
opened is_cursor key current output =
    let before = if is_cursor then cursor else current in
    let marked = if is_cursor then output ++ ([], cursor) ∷ [] else output in
    if same_key key before then marked else marked ++ ([], key) ∷ []

-- `styleId` after the character.
abbrev pub next_key : Bool → Key → Key → Key
next_key is_cursor key current =
    let before = if is_cursor then cursor else current in
    if same_key key before then before else key

-- The loop of `groupByStyleId` from a column on. A cell that is a gap throws.
unfoldable pub group_from :
    Bool → ℕ → ℕ → Key → List (Text × Key) → Row → Option (List (Text × Key))
group_from here at x current output [] = some output
group_from here at x current output (c ∷ row) = elim (parts c) [
  | none ↦ none
  | some (char, key) ↦ elim (add_char char (opened (here && at == x) key current output)) [
    | none ↦ none
    | some written ↦ group_from here at (x + 1) (next_key (here && at == x) key current) written row
  ]
]

unfoldable pub group_by_style_id : Terminal → Row → ℕ → Option (List (Text × Key))
group_by_style_id t line y = group_from (t.y == y) t.x 0 initial [] line

-- What `:style` is set to: a text of the list, or what `predefinedStyle` returns for the cursor.
pub data PageStyle : Type 0 where
  listed : Text → PageStyle
  cursor_block no_style : PageStyle

-- `predefinedStyle`, with the property `readonly`; it throws on any other key.
abbrev pub predefined_style : Bool → Key → Option PageStyle
predefined_style readonly cursor = some (if readonly then no_style else cursor_block)
predefined_style readonly initial = none
predefined_style readonly undefined = none
predefined_style readonly (style id) = none

abbrev pub listed_or : Option PageStyle → Option Text → Option PageStyle
listed_or other none = other
listed_or other (some text) = some (listed text)

-- styles[charStyleId] ?? predefinedStyle(charStyleId)
abbrev pub page_style : Bool → Terminal → Key → Option PageStyle
page_style readonly t initial = predefined_style readonly initial
page_style readonly t cursor = predefined_style readonly cursor
page_style readonly t undefined = predefined_style readonly undefined
page_style readonly t (style id) =
    listed_or (predefined_style readonly (style id)) (get_elem? t.styles id)
