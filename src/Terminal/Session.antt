-- ===== src/Terminal/Session.antt =====
-- A terminal of vt100.vue from its creation on: what it receives, and what the page then shows.
use bzd.Prelude.Text.{Text}
use bzd.Prelude.{
  ℕ, zero, suc, ◌≤◌, ◌≡◌, refl, sym, ap, subst, ◌⊎◌, inl, inr, Bool, Option, none, some, List, [],
  ◌∷◌, ◌++◌, ◌==◌, length, get_elem?, All, get_elem?-some,
}
use bzd.Terminal.{Cell, cell, bare, hole, Terminal}
use bzd.Terminal.Style.{new_terminal}
use bzd.Terminal.Screen.{
  Row, Key, cursor, undefined, style, group_by_style_id, PageStyle, listed_or, page_style, put,
  modify_row,
}
use bzd.Terminal.Screen
use bzd.Terminal.Process.{
  Progress, finished, thrown_assertion, thrown_type_error, thrown_range_error, process, show_at,
  show_in, show_cursor, concat, keep_remainder, receive, handle_resize,
}
use bzd.Terminal.Ready.{IsReady}
use bzd.Terminal.Handlers.{Ends}
use bzd.Terminal.Cells.{IsDrawnRow, AllDrawn, AllDrawn-modify_row, IsDrawnRow-put}
use bzd.Terminal.Drawn.{IsDrawn, new_terminal-IsDrawn}
use bzd.Terminal.Shown.{IsDrawn-content}
use bzd.Terminal.Ending.{process-Ends}
use bzd.Terminal.Groups.{texts, chars, IsKey, group_from-texts}

-- The terminals that a page can have whose stream is empty when they are created. Vue goes on after an
-- exception in a watcher.
pub data Reachable : Terminal → Type 0 where
  created : {t : Terminal} → t ≡ new_terminal → Reachable t
  received :
      {t u : Terminal} (stream : List Text) (progress : Progress)
      → Reachable t
      → receive t stream ≡ some (u, progress)
      → Reachable u
  resized : {t u : Terminal} (columns : ℕ) → Reachable t → u ≡ handle_resize t columns → Reachable u

-- The watcher returns, or ends with the exception of `moveCursorColumn` or the RangeError of
-- `insertChar`.
abbrev pub Received : Option (Terminal × Progress) → Type 0
Received none = ⊥
Received (some (t, finished rest)) = IsDrawn t
Received (some (t, thrown_assertion)) = IsDrawn t
Received (some (t, thrown_type_error)) = ⊥
Received (some (t, thrown_range_error)) = IsDrawn t

put_cursor :
    (t : Terminal) (row : Row)
    → IsDrawn t
    → get_elem? t.content t.y ≡ some row
    → t.x ≤ length row
    → IsDrawn (record t { content = modify_row t.y (put t.x (cell b' ' t.style_id)) t.content })
put_cursor t row h found reaches = IsDrawn-content t _ t.x t.y h (
    AllDrawn-modify_row (length t.styles) (put t.x (cell b' ' t.style_id)) t.y t.content found
      (IsDrawnRow-put (length t.styles) t.x (cell b' ' t.style_id) row reaches h.current) h.drawn)

show_at-IsDrawn :
    (t : Terminal) (row : Row) (o : Option Cell)
    → IsDrawn t
    → get_elem? t.content t.y ≡ some row
    → t.x ≤ length row
    → IsDrawn (show_at t o)
show_at-IsDrawn t row (some (cell c id)) h found reaches = h
show_at-IsDrawn t row (some bare) h found reaches = h
show_at-IsDrawn t row (some hole) h found reaches = put_cursor t row h found reaches
show_at-IsDrawn t row none h found reaches = put_cursor t row h found reaches

show_cursor-Received : (t : Terminal) → IsDrawn t → IsReady t → Received (some (show_cursor t))
unfolding IsReady
show_cursor-Received t h (row, found, reaches) =
    subst (λ o. Received (some (show_in t o))) (sym found)
      (show_at-IsDrawn t row (get_elem? row t.x) h found reaches)

keep_remainder-Received :
    (r : Option (Terminal × Progress)) → Ends IsDrawn r → Received (keep_remainder r)
unfolding IsReady
keep_remainder-Received none e = absurd e
keep_remainder-Received (some (t, finished rest)) (h, ready) =
    show_cursor-Received (record t { remainder = rest })
      (record { drawn = h.drawn; known = h.known; current = h.current }) ready
keep_remainder-Received (some (t, thrown_assertion)) e = e
keep_remainder-Received (some (t, thrown_type_error)) e = absurd e
keep_remainder-Received (some (t, thrown_range_error)) e = e

receive-Received : (t : Terminal) (stream : List Text) → IsDrawn t → Received (receive t stream)
unfolding receive
receive-Received t stream h = by_update (t.remainder ++ concat stream)
  where
    by_update :
        (update : Text)
        → Received (elim update [
          | [] ↦ some (t, finished [])
          | c ∷ more ↦ keep_remainder (process t (c ∷ more))
        ])
    by_update [] = h
    by_update (c ∷ more) =
        keep_remainder-Received (process t (c ∷ more)) (process-Ends t (c ∷ more) h)

Received-IsDrawn :
    (r : Option (Terminal × Progress)) (u : Terminal) (p : Progress)
    → r ≡ some (u, p)
    → Received r
    → IsDrawn u
Received-IsDrawn none u p e h = absurd h
Received-IsDrawn (some (t, finished rest)) u p e h = let same : t ≡ u = cc in subst IsDrawn same h
Received-IsDrawn (some (t, thrown_assertion)) u p e h =
    let same : t ≡ u = cc in subst IsDrawn same h
Received-IsDrawn (some (t, thrown_type_error)) u p e h = absurd h
Received-IsDrawn (some (t, thrown_range_error)) u p e h =
    let same : t ≡ u = cc in subst IsDrawn same h

reachable-IsDrawn : (t : Terminal) → Reachable t → IsDrawn t
unfolding handle_resize
reachable-IsDrawn t (created e) = subst IsDrawn (sym e) new_terminal-IsDrawn
reachable-IsDrawn u (received {t} stream progress before e) =
    Received-IsDrawn (receive t stream) u progress e
      (receive-Received t stream (reachable-IsDrawn t before))
reachable-IsDrawn u (resized {t} columns before e) =
    let h = reachable-IsDrawn t before in
    subst IsDrawn (sym e) (record { drawn = h.drawn; known = h.known; current = h.current })

row-IsDrawnRow :
    (n : ℕ) (rows : List Row) (y : ℕ) (row : Row)
    → get_elem? rows y ≡ some row
    → AllDrawn n rows
    → IsDrawnRow n row
row-IsDrawnRow n [] y row found h = absurd (cc)
row-IsDrawnRow n (r ∷ rows) zero row found h =
    let same : r ≡ row = cc in subst (IsDrawnRow n) same h.0
row-IsDrawnRow n (r ∷ rows) (suc y) row found h = row-IsDrawnRow n rows y row found h.1

-- A group whose style the page finds.
abbrev pub HasStyle : Bool → Terminal → Text × Key → Type 0
HasStyle readonly t group =
    (group.1 ≡ undefined) ⊎ ((s : PageStyle) × (page_style readonly t group.1 ≡ some s))

HasStyle_lem :
    (readonly : Bool) (t : Terminal) (text : Text) (key : Key)
    → IsKey (length t.styles) key
    → HasStyle readonly t (text, key)
HasStyle_lem readonly t text Screen.initial h = absurd h
HasStyle_lem readonly t text cursor h = inr (_, refl)
HasStyle_lem readonly t text undefined h = inl refl
HasStyle_lem readonly t text (style id) h =
    let (s, found) = get_elem?-some t.styles id h in
    inr (Screen.listed s, ap (listed_or none) found)

All-HasStyle :
    (readonly : Bool) (t : Terminal) (groups : List (Text × Key))
    → All (λ group. IsKey (length t.styles) group.1) groups
    → All (HasStyle readonly t) groups
All-HasStyle readonly t [] h = tt
All-HasStyle readonly t ((text, key) ∷ groups) h =
    (HasStyle_lem readonly t text key h.0, All-HasStyle readonly t groups h.1)

-- Whatever a terminal, whose stream is empty when it is created, has received since then, on every
-- further stream the watcher ends, and not with the TypeError of a missing row; and `groupByStyleId`
-- does not throw on any row: the groups hold the characters of the row in their order, and the page
-- finds a style for each group, but for the cells that `insertChar` has put in.
pub reachable-shows :
    (t : Terminal)
    → Reachable t
    → ((stream : List Text) → Received (receive t stream))
      × ((readonly : Bool) (y : ℕ) (row : Row)
          → get_elem? t.content y ≡ some row
          → (groups : List (Text × Key)) × (group_by_style_id t row y ≡ some groups)
            × (texts groups ≡ chars row)
            × All (HasStyle readonly t) groups)
unfolding group_by_style_id
reachable-shows t reachable =
    let h = reachable-IsDrawn t reachable in
    (
      λ stream. receive-Received t stream h,
      λ readonly y row found.
          let (groups, grouped, text, keys) =
            group_from-texts (length t.styles) (t.y == y) t.x 0 Screen.initial [] row tt tt
              (row-IsDrawnRow (length t.styles) t.content y row found h.drawn) in
          (groups, grouped, text, All-HasStyle readonly t groups keys),
    )
