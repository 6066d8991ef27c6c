-- ===== src/Terminal/Groups.antt =====
-- `groupByStyleId` of vt100.vue on a row without gaps.
use mathlib.Core.List
use bzd.Prelude.Text.{Text}
use bzd.Prelude.{
  ℕ, ◌+◌, ◌<◌, ◌≡◌, refl, sym, ap, ◌∙◌, inl, inr, Bool, true, false, ◌&&◌, some, List, [], ◌∷◌,
  ◌++◌, ◌==◌, Bool-cases, All,
}
use bzd.Terminal.{Cell, cell, bare, hole}
use bzd.Terminal.Screen.{
  Row, Key, cursor, undefined, style, same_key, add_char, parts, opened, next_key, group_from,
  group_by_style_id,
}
use bzd.Terminal.Screen
use bzd.Terminal.Cells.{IsDrawnCell, IsDrawnRow, All-append}

abbrev pub Groups : Type 0
Groups = List (Text × Key)

-- The text of the groups, and of a row.
abbrev pub texts : Groups → Text
texts [] = []
texts (group ∷ groups) = group.0 ++ texts groups

abbrev pub chars : Row → Text
chars [] = []
chars (cell c id ∷ row) = c ∷ chars row
chars (bare ∷ row) = b' ' ∷ chars row
chars (hole ∷ row) = chars row

-- A key of the page: the cursor, a style of the list, or that of a cell without a style.
abbrev pub IsKey : ℕ → Key → Type 0
IsKey n Screen.initial = ⊥
IsKey n cursor = Unit
IsKey n undefined = Unit
IsKey n (style id) = id < n

abbrev pub AllKeys : ℕ → Groups → Type 0
AllKeys n groups = All (λ group. IsKey n group.1) groups

abbrev pub NonEmpty : Groups → Type 0
NonEmpty [] = ⊥
NonEmpty (group ∷ groups) = Unit

-- Only at the start there is no group yet.
abbrev pub Started : Key → Groups → Type 0
Started Screen.initial groups = Unit
Started cursor groups = NonEmpty groups
Started undefined groups = NonEmpty groups
Started (style id) groups = NonEmpty groups

started : (k : Key) (groups : Groups) → NonEmpty groups → Started k groups
started Screen.initial groups h = tt
started cursor groups h = h
started undefined groups h = h
started (style id) groups h = h

NonEmpty-append : (groups : Groups) (group : Text × Key) → NonEmpty (groups ++ group ∷ [])
NonEmpty-append [] group = tt
NonEmpty-append (g ∷ groups) group = tt

texts-append : (groups : Groups) (k : Key) → texts (groups ++ ([], k) ∷ []) ≡ texts groups
texts-append [] k = refl
texts-append (g ∷ groups) k = ap (λ (s : Text). g.0 ++ s) (texts-append groups k)

record Written (n : ℕ) (c : ℕ) (groups : Groups) : Type 0 where
  after : Groups
  is_after : add_char c groups ≡ some after
  more : NonEmpty after
  text : texts after ≡ texts groups ++ c ∷ []
  keys : AllKeys n after

add_char-Written :
    (n c : ℕ) (groups : Groups) → NonEmpty groups → AllKeys n groups → Written n c groups
add_char-Written n c [] h k = absurd h
add_char-Written n c ((s, key) ∷ []) h k = record {
  after = (s ++ c ∷ [], key) ∷ [];
  is_after = refl;
  more = tt;
  text = List.append-nil (s ++ c ∷ []) ∙ ap (λ (r : Text). r ++ c ∷ []) (sym (List.append-nil s));
  keys = k;
}
add_char-Written n c ((s, key) ∷ next ∷ groups) h k =
    let rest = add_char-Written n c (next ∷ groups) tt k.1 in
    record {
      after = (s, key) ∷ rest.after;
      is_after = rw rest.is_after refl;
      more = tt;
      text =
          ap (λ (r : Text). s ++ r) rest.text
          ∙ sym (List.append_assoc s (texts (next ∷ groups)) (c ∷ []));
      keys = (k.0, rest.keys);
    }

-- The key of a cell is no other than a style or `undefined`.
abbrev IsCellKey : Key → Type 0
IsCellKey Screen.initial = ⊥
IsCellKey cursor = ⊥
IsCellKey undefined = Unit
IsCellKey (style id) = Unit

record Opened (n : ℕ) (groups before : Groups) : Type 0 where
  more : NonEmpty groups
  text : texts groups ≡ texts before
  keys : AllKeys n groups

new_group :
    (n : ℕ) (key : Key) (output : Groups)
    → IsKey n key
    → AllKeys n output
    → Opened n (output ++ ([], key) ∷ []) output
new_group n key output k h = record {
  more = NonEmpty-append output ([], key);
  text = texts-append output key;
  keys = All-append (λ group. IsKey n group.1) output (([], key) ∷ []) h (k, tt);
}

same_group : (n : ℕ) (output : Groups) → NonEmpty output → AllKeys n output → Opened n output output
same_group n output more h = record { more = more; text = refl; keys = h }

two_groups :
    (n : ℕ) (key : Key) (output : Groups)
    → IsKey n key
    → AllKeys n output
    → Opened n ((output ++ ([], cursor) ∷ []) ++ ([], key) ∷ []) output
two_groups n key output k h =
    let first = new_group n cursor output tt h in
    let second = new_group n key (output ++ ([], cursor) ∷ []) k first.keys in
    record { more = second.more; text = second.text ∙ first.text; keys = second.keys }

opened-Opened :
    (n : ℕ) (is_cursor : Bool) (key current : Key) (output : Groups)
    → IsCellKey key
    → IsKey n key
    → Started current output
    → AllKeys n output
    → Opened n (opened is_cursor key current output) output
opened-Opened n is_cursor Screen.initial current output p k s h = absurd p
opened-Opened n is_cursor cursor current output p k s h = absurd p
opened-Opened n true undefined current output p k s h = two_groups n undefined output k h
opened-Opened n true (style id) current output p k s h = two_groups n (style id) output k h
opened-Opened n false undefined Screen.initial output p k s h = new_group n undefined output k h
opened-Opened n false undefined cursor output p k s h = new_group n undefined output k h
opened-Opened n false undefined undefined output p k s h = same_group n output s h
opened-Opened n false undefined (style id) output p k s h = new_group n undefined output k h
opened-Opened n false (style id) Screen.initial output p k s h = new_group n (style id) output k h
opened-Opened n false (style id) cursor output p k s h = new_group n (style id) output k h
opened-Opened n false (style id) undefined output p k s h = new_group n (style id) output k h
opened-Opened n false (style id) (style other) output p k s h = elim (Bool-cases (id == other)) [
  | inl e ↦ rw e (same_group n output s h)
  | inr e ↦ rw e (new_group n (style id) output k h)
]

-- A cell is taken apart into its character and its key.
record CellParts (n : ℕ) (c : Cell) (row : Row) : Type 0 where
  char : ℕ
  key : Key
  is_parts : parts c ≡ some (char, key)
  cell_key : IsCellKey key
  is_key : IsKey n key
  text : chars (c ∷ row) ≡ char ∷ chars row

parts-CellParts : (n : ℕ) (c : Cell) (row : Row) → IsDrawnCell n c → CellParts n c row
parts-CellParts n (cell c id) row h = record {
  char = c;
  key = style id;
  is_parts = refl;
  cell_key = tt;
  is_key = h;
  text = refl;
}
parts-CellParts n bare row h = record {
  char = b' ';
  key = undefined;
  is_parts = refl;
  cell_key = tt;
  is_key = tt;
  text = refl;
}
parts-CellParts n hole row h = absurd h

pub group_from-texts :
    (n : ℕ) (here : Bool) (at x : ℕ) (current : Key) (output : Groups) (row : Row)
    → Started current output
    → AllKeys n output
    → IsDrawnRow n row
    → (groups : Groups) × (group_from here at x current output row ≡ some groups)
      × (texts groups ≡ texts output ++ chars row)
      × AllKeys n groups
unfolding group_from
group_from-texts n here at x current output [] s k h =
    (output, refl, sym (List.append-nil (texts output)), k)
group_from-texts n here at x current output (c ∷ row) s k h =
    let p = parts-CellParts n c row h.0 in
    let is_cursor = here && at == x in
    let o = opened-Opened n is_cursor p.key current output p.cell_key p.is_key s k in
    let w = add_char-Written n p.char (opened is_cursor p.key current output) o.more o.keys in
    let (groups, found, text, keys) =
      group_from-texts n here at (x + 1) (next_key is_cursor p.key current) w.after row
        (started (next_key is_cursor p.key current) w.after w.more) w.keys h.1 in
    (
      groups,
      rw (p.is_parts, group_from) (rw w.is_after found),
      text
          ∙ ap (λ (t : Text). t ++ chars row) (w.text ∙ ap (λ (t : Text). t ++ p.char ∷ []) o.text)
          ∙ List.append_assoc (texts output) (p.char ∷ []) (chars row)
          ∙ ap (λ (t : Text). texts output ++ t) (sym p.text),
      keys,
    )
