-- ===== src/Terminal/Style.antt =====
-- The styles of vt100.vue: `sgr`, `resetTerminalStyle` and `createStyle`.
use bzd.Prelude.Map
use bzd.Prelude.Text.{Text, codes, text_discrete}
use bzd.Prelude.{
  ℕ, ◌-◌, Bool, false, ◌&&◌, Option, none, some, List, [], ◌∷◌, ◌++◌, ◌≡◌, refl, leb, ◌==◌,
  if◌then◌else◌, length, get_elem?,
}
use bzd.Terminal.{TerminalStyle, Terminal, Reply, accepted, refused}

abbrev pub colors8 : List Text
colors8 =
    codes "#000000"
    ∷ codes "#cc0000"
    ∷ codes "#4e9a06"
    ∷ codes "#c4a000"
    ∷ codes "#729fcf"
    ∷ codes "#75507b"
    ∷ codes "#06989a"
    ∷ codes "#d3d7cf"
    ∷ []

abbrev pub colors_bright8 : List Text
colors_bright8 =
    codes "#555753"
    ∷ codes "#ef2929"
    ∷ codes "#8ae234"
    ∷ codes "#fce94f"
    ∷ codes "#32afff"
    ∷ codes "#ad7fa8"
    ∷ codes "#34e2e2"
    ∷ codes "#ffffff"
    ∷ []

-- colors[index]
abbrev pub color_at : List Text → ℕ → Text
color_at colors index = elim (get_elem? colors index) [
  | none ↦ codes "undefined"
  | some color ↦ color
]

abbrev pub reset_style : TerminalStyle
reset_style = record {
  font_weight = codes "normal";
  font_style = codes "normal";
  text_decoration = codes "none";
  color_text = codes "var(--text-color)";
  color_background = codes "var(--background-color)";
  display = codes "inline";
  filter = codes "none";
}

-- from <= arg && arg <= to
abbrev pub is_within : ℕ → ℕ → ℕ → Bool
is_within from to arg = leb from arg && leb arg to

-- The body of the loop of `sgr`, where `none` is the `return false`.
unfoldable pub apply_sgr : TerminalStyle → ℕ → Option TerminalStyle
apply_sgr style arg =
    if arg == 0
    then some reset_style
    else if arg == 1
    then some (record style { font_weight = codes "bold" })
    else if arg == 3
    then some (record style { font_style = codes "italic" })
    else if arg == 4
    then some (record style { text_decoration = codes "underline" })
    else if arg == 7
    then some (record style { filter = codes "invert(100%)" })
    else if arg == 8
    then some (record style { display = codes "none" })
    else if arg == 9
    then some (record style { text_decoration = codes "line-through" })
    else if arg == 21
    then some (record style { font_style = codes "normal" })
    else if arg == 22
    then some (record style { font_weight = codes "normal" })
    else if arg == 23
    then some (record style { font_style = codes "normal" })
    else if arg == 24
    then some (record style { text_decoration = codes "none" })
    else if arg == 27
    then some (record style { filter = codes "none" })
    else if arg == 28
    then some (record style { display = codes "inline" })
    else if arg == 29
    then some (record style { text_decoration = codes "none" })
    else if is_within 30 37 arg
    then some (record style { color_text = color_at colors8 (arg - 30) })
    else if arg == 39
    then some (record style { color_text = codes "var(--text-color)" })
    else if is_within 40 47 arg
    then some (record style { color_background = color_at colors8 (arg - 40) })
    else if arg == 49
    then some (record style { color_text = codes "var(--background-color)" })
    else if is_within 90 97 arg
    then some (record style { color_text = color_at colors_bright8 (arg - 90) })
    else if is_within 100 107 arg
    then some (record style { color_background = color_at colors_bright8 (arg - 100) })
    else none

unfoldable pub style_text : TerminalStyle → Text
style_text style =
    codes "color: "
    ++ (style.color_text
        ++ (codes "; background-color: "
            ++ (style.color_background
                ++ (codes "; font-weight: "
                    ++ (style.font_weight
                        ++ (codes "; font-style: "
                            ++ (style.font_style
                                ++ (codes "; text-decoration: "
                                    ++ (style.text_decoration
                                        ++ (codes "; filter: "
                                            ++ (style.filter ++ codes ";")))))))))))

-- `createStyle` with the text of the style and its index in `stylesMap`, if it is there.
abbrev pub add_style : Terminal → Text → Option ℕ → Terminal
add_style t style (some id) = record t { style_id = id; styles = t.styles ++ style ∷ [] }
add_style t style none = record t {
  style_id = length t.styles;
  styles_map = Map.set text_discrete style (length t.styles) t.styles_map;
  styles = t.styles ++ style ∷ style ∷ [];
}

abbrev pub register_style : Terminal → Text → Terminal
register_style t style = add_style t style (Map.get text_discrete style t.styles_map)

unfoldable pub create_style : Terminal → Terminal
create_style t = register_style t (style_text t.terminal_style)

unfoldable pub sgr : Terminal → List ℕ → Terminal × Reply
sgr t [] = (create_style t, accepted)
sgr t (arg ∷ args) = elim (apply_sgr t.terminal_style arg) [
  | none ↦ (t, refused)
  | some style ↦ sgr (record t { terminal_style = style }) args
]

-- `data`, and what `created` does before `createStyle`, of a component whose stream is empty, so that
-- the immediate watcher, which comes before, finds nothing to do. The index that `data` has is -1, no
-- number; it is the argument here, and `createStyle` replaces it.
abbrev pub initial : ℕ → Terminal
initial style_id = record {
  content = [];
  styles = [];
  styles_map = [];
  style_id = style_id;
  x = 0;
  y = 0;
  remainder = [];
  insert_mode = false;
  columns = none;
  terminal_style = reset_style;
}

-- What `created` leaves: `createStyle` has put the style in the list, twice, and the index is 0.
unfoldable pub new_terminal : Terminal
new_terminal =
    let style = style_text reset_style in
    record {
      content = [];
      styles = style ∷ style ∷ [];
      styles_map = (style, 0) ∷ [];
      style_id = 0;
      x = 0;
      y = 0;
      remainder = [];
      insert_mode = false;
      columns = none;
      terminal_style = reset_style;
    }

-- It does not depend on the index in `data`.
pub create_style-initial : (style_id : ℕ) → create_style (initial style_id) ≡ new_terminal
unfolding create_style new_terminal Map.get Map.set
create_style-initial style_id = refl
