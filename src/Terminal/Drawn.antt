-- ===== src/Terminal/Drawn.antt =====
-- The invariant of the content and of the styles of vt100.vue.
use bzd.Prelude.Map
use bzd.Prelude.Text.{Text, text_discrete}
use bzd.Prelude.{
  ℕ, zero, suc, ◌≤◌, ◌<◌, ◌≡◌, refl, sym, ap, subst, ◌∙◌, ◌⊎◌, inl, inr, Option, none, some, List,
  [], ◌∷◌, ◌++◌, length, length-append, get_elem?, arith, Option-cases, lt-length_of_get_elem?,
}
use bzd.Terminal.{Terminal, accepted, refused}
use bzd.Terminal.Style.{
  style_text, add_style, register_style, create_style, apply_sgr, sgr, initial, new_terminal,
  create_style-initial,
}
use bzd.Terminal.Cells.{AllDrawn, AllDrawn-weaken}

-- The index that is kept for a style is an index of that style.
abbrev pub IsKnown : Terminal → Type 0
IsKnown t =
    (style : Text) (id : ℕ)
    → Map.get text_discrete style t.styles_map ≡ some id
    → get_elem? t.styles id ≡ some style

-- No row has a gap, every character has a style of the list, and so has the next one.
pub record IsDrawn (t : Terminal) : Type 0 where
  pub drawn : AllDrawn (length t.styles) t.content
  pub known : IsKnown t
  pub current : t.style_id < length t.styles

get_elem?-append :
    (l m : List Text) (i : ℕ) {s : Text} → get_elem? l i ≡ some s → get_elem? (l ++ m) i ≡ some s
get_elem?-append [] m i h = absurd (cc)
get_elem?-append (x ∷ l) m zero h = h
get_elem?-append (x ∷ l) m (suc i) h = get_elem?-append l m i h

get_elem?-length : (l m : List Text) (s : Text) → get_elem? (l ++ s ∷ m) (length l) ≡ some s
get_elem?-length [] m s = refl
get_elem?-length (x ∷ l) m s = get_elem?-length l m s

-- After `createStyle` the current index is one of the style.
module _ (t : Terminal) (style : Text) (known : IsKnown t) where
  add_style-shows :
      (found : Option ℕ)
      → Map.get text_discrete style t.styles_map ≡ found
      → get_elem? (add_style t style found).styles (add_style t style found).style_id ≡ some style
  add_style-shows (some id) e = get_elem?-append t.styles (style ∷ []) id (known style id e)
  add_style-shows none e = get_elem?-length t.styles (style ∷ []) style

  known_after_set :
      (s : Text) (i : ℕ)
      → Map.get text_discrete s (Map.set text_discrete style (length t.styles) t.styles_map)
        ≡ some i
      → get_elem? (t.styles ++ style ∷ style ∷ []) i ≡ some s
  known_after_set s i found = elim (text_discrete s style) [
    | yes same ↦
        let set = Map.get-set_self text_discrete style (length t.styles) t.styles_map in
        let at : length t.styles ≡ i = cc in
        subst (λ j. get_elem? (t.styles ++ style ∷ style ∷ []) j ≡ some s) at
          (get_elem?-length t.styles (style ∷ []) style ∙ ap some (sym same))
    | no other ↦ get_elem?-append t.styles (style ∷ style ∷ []) i (
        known s i
          (sym (Map.get-set_ne text_discrete style s (length t.styles) t.styles_map other) ∙ found))
  ]

  add_style-IsKnown : (found : Option ℕ) → IsKnown (add_style t style found)
  add_style-IsKnown (some id) s i found = get_elem?-append t.styles (style ∷ []) i (known s i found)
  add_style-IsKnown none s i found = known_after_set s i found

length-add_style :
    (t : Terminal) (style : Text) (found : Option ℕ)
    → length t.styles ≤ length (add_style t style found).styles
length-add_style t style (some id) = omega (arith, length-append t.styles (style ∷ []))
length-add_style t style none = omega (arith, length-append t.styles (style ∷ style ∷ []))

AllDrawn-add_style :
    (t : Terminal) (style : Text) (found : Option ℕ)
    → AllDrawn (length t.styles) t.content
    → AllDrawn (length (add_style t style found).styles) (add_style t style found).content
AllDrawn-add_style t style (some id) h =
    AllDrawn-weaken (length t.styles) _ t.content (length-add_style t style (some id)) h
AllDrawn-add_style t style none h =
    AllDrawn-weaken (length t.styles) _ t.content (length-add_style t style none) h

register_style-IsDrawn :
    (t : Terminal) (style : Text)
    → AllDrawn (length t.styles) t.content
    → IsKnown t
    → IsDrawn (register_style t style)
register_style-IsDrawn t style drawn known =
    let found = Map.get text_discrete style t.styles_map in
    record {
      drawn = AllDrawn-add_style t style found drawn;
      known = add_style-IsKnown t style known found;
      current =
          lt-length_of_get_elem? (register_style t style).styles (register_style t style).style_id
            (add_style-shows t style known found refl);
    }

pub new_terminal-IsDrawn : IsDrawn new_terminal
unfolding create_style Map.get
new_terminal-IsDrawn = subst IsDrawn (create_style-initial 0) (
    register_style-IsDrawn (initial 0) (style_text (initial 0).terminal_style) tt
      (λ style id found. cc))

pub sgr-IsDrawn : (t : Terminal) (args : List ℕ) → IsDrawn t → IsDrawn (sgr t args).0
unfolding sgr create_style
sgr-IsDrawn t [] h = register_style-IsDrawn t (style_text t.terminal_style) h.drawn h.known
sgr-IsDrawn t (arg ∷ args) h = elim (Option-cases (apply_sgr t.terminal_style arg)) [
  | inl e ↦ rw (e, sgr) h
  | inr (style, e) ↦
      rw (e, sgr)
        (sgr-IsDrawn (record t { terminal_style = style }) args
          (record { drawn = h.drawn; known = h.known; current = h.current }))
]

-- Where `sgr` accepts its arguments, the index with which characters are written next is one of the
-- text of the style that it has put together; where it refuses one, the index is as it was.
pub sgr-shows :
    (t : Terminal) (args : List ℕ)
    → IsKnown t
    → (((sgr t args).1 ≡ accepted)
        × (get_elem? (sgr t args).0.styles (sgr t args).0.style_id
            ≡ some (style_text (sgr t args).0.terminal_style)))
      ⊎ (((sgr t args).1 ≡ refused) × ((sgr t args).0.style_id ≡ t.style_id))
unfolding sgr create_style
sgr-shows t [] known =
    inl (refl, created (Map.get text_discrete (style_text t.terminal_style) t.styles_map) refl)
  where
    created :
        (found : Option ℕ)
        → Map.get text_discrete (style_text t.terminal_style) t.styles_map ≡ found
        → get_elem?
            (add_style t (style_text t.terminal_style) found).styles
            (add_style t (style_text t.terminal_style) found).style_id
          ≡ some (style_text (add_style t (style_text t.terminal_style) found).terminal_style)
    created (some id) e = add_style-shows t (style_text t.terminal_style) known (some id) e
    created none e = add_style-shows t (style_text t.terminal_style) known none e
sgr-shows t (arg ∷ args) known = elim (Option-cases (apply_sgr t.terminal_style arg)) [
  | inl e ↦ rw (e, sgr) (inr (refl, refl))
  | inr (style, e) ↦ rw (e, sgr) (sgr-shows (record t { terminal_style = style }) args known)
]
