-- ===== src/Storage/Writes.antt =====
-- `_writeImpl` and `_mkdirImpl` of nodejs/db/storage/memory.js on the contents of paths.
use bzd.Prelude.Text.{Text, text_discrete}
use bzd.Prelude.{
  ℕ, ◌≡◌, ◌≢◌, refl, sym, ap, subst, ◌∙◌, ◌⊎◌, inl, inr, Option, none, some, [], ◌∷◌, ◌++◌,
}
use bzd.Storage.{StorageError, ok, failed, PathList, File, Node, Entries, file, directory}
use bzd.Storage.Memory.{
  get_entry, set_entry, replace_at, Parent, get_parent_name_pair, written, write_impl,
}
use bzd.Storage.Lookup.{get_entry-set_entry_self, get_entry-set_entry_ne}
use bzd.Storage.Paths.{
  node_at, content_in, content_at, node_at-none, node_at-some, node_at-same_entry, node_at-append,
  IsUnder-cases, replace_at-under, replace_at-apart, Result-cases,
}
use bzd.Storage.Parents.{IsParent, get_parent_name_pair-IsParent}

-- Nothing under a name, or a file: where `_writeImpl` writes.
abbrev IsWritable : Option Node → Type 0
IsWritable none = Unit
IsWritable (some (file f)) = Unit
IsWritable (some (directory entries)) = ⊥

below_file :
    (o : Option Node) (name part : Text) (entries : Entries) (path : PathList)
    → get_entry name entries ≡ o
    → IsWritable o
    → content_at (directory entries) (name ∷ part ∷ path) ≡ none
unfolding node_at
below_file none name part entries path e w =
    ap content_in (node_at-none name entries (part ∷ path) e)
below_file (some (file f)) name part entries path e w =
    ap content_in (node_at-some name entries (part ∷ path) (file f) e)
below_file (some (directory d)) name part entries path e w = absurd w

-- The entries of the parent after the write, on all paths but the name.
set_entry-content :
    (entries : Entries) (name : Text) (f : File) (rest : PathList)
    → IsWritable (get_entry name entries)
    → rest ≢ name ∷ []
    → content_at (directory (set_entry name (file f) entries)) rest
      ≡ content_at (directory entries) rest
unfolding node_at
set_entry-content entries name f [] w h = refl
set_entry-content entries name f (first ∷ more) w h = elim (text_discrete first name) [
  | no other ↦ ap content_in (
      node_at-same_entry first (set_entry name (file f) entries) entries more
        (get_entry-set_entry_ne name first (file f) entries other))
  | yes same ↦ named first same more h
]
  where
    named :
        (first : Text)
        → first ≡ name
        → (more : PathList) → first ∷ more ≢ name ∷ []
        → content_at (directory (set_entry name (file f) entries)) (first ∷ more)
          ≡ content_at (directory entries) (first ∷ more)
    named first same [] h = absurd (h (ap (λ n. n ∷ []) same))
    named first same (part ∷ path) h =
        subst
          (λ n.
            content_at (directory (set_entry name (file f) entries)) (n ∷ part ∷ path)
            ≡ content_at (directory entries) (n ∷ part ∷ path))
          (sym same)
          (ap content_in (
              node_at-some name (set_entry name (file f) entries) (part ∷ path) (file f)
                (get_entry-set_entry_self name (file f) entries))
            ∙ sym (below_file (get_entry name entries) name part entries path refl w))

written-ok :
    (o : Option Node) (c : Text) (date : ℕ) (f : File)
    → written o c date ≡ ok f
    → IsWritable o × (f.content ≡ c)
written-ok none c date f h = (
  tt,
  let same : record { content = c; created = date; modified = date } ≡ f = cc in
      sym (ap File.content same),
)
written-ok (some (file g)) c date f h = (
  tt,
  let same : record g { content = c; modified = date } ≡ f = cc in sym (ap File.content same),
)
written-ok (some (directory entries)) c date f h = absurd (cc)

-- The data with a file in a parent.
module _ (root : Node) (path : PathList) (parent : Parent) (p : IsParent root path parent)
    (f : File) (w : IsWritable (get_entry parent.name parent.entries)) where
  abbrev after : Node
  after = replace_at root parent.path (directory (set_entry parent.name (file f) parent.entries))

  after-path : content_at after path ≡ some f.content
  unfolding node_at
  after-path =
      ap (content_at after) p.splits
      ∙ ap content_in (
          replace_at-under root parent.path (parent.name ∷ []) (directory parent.entries) _ p.stands
          ∙ node_at-some parent.name (set_entry parent.name (file f) parent.entries) [] (file f)
              (get_entry-set_entry_self parent.name (file f) parent.entries))

  after-other : (q : PathList) → q ≢ path → content_at after q ≡ content_at root q
  after-other q other = elim (IsUnder-cases parent.path q) [
    | inr apart ↦ replace_at-apart root parent.path q (directory parent.entries) _ p.stands apart
    | inl (rest, split) ↦
        ap (content_at after) split
        ∙ ap content_in
            (replace_at-under root parent.path rest (directory parent.entries) _ p.stands)
        ∙ set_entry-content parent.entries parent.name f rest w
            (λ e. other (split ∙ ap (λ (r : PathList). parent.path ++ r) e ∙ sym p.splits))
        ∙ ap content_in
            (sym (node_at-append root parent.path rest (directory parent.entries) p.stands))
        ∙ sym (ap (content_at root) split)
  ]

-- `_writeImpl` is the write of a map from paths to contents: if it succeeds, the path has the content
-- and every other path has what it had, whether in the same directory or not; if it throws, nothing
-- has changed.
pub write_impl-is_map_write :
    (root : Node) (path : PathList) (c : Text) (date : ℕ)
    → (((write_impl root path c date).1 ≡ ok tt)
        × (content_at (write_impl root path c date).0 path ≡ some c)
        × ((q : PathList)
            → q ≢ path
            → content_at (write_impl root path c date).0 q ≡ content_at root q))
      ⊎ ((e : StorageError) × ((write_impl root path c date).1 ≡ failed e)
          × ((write_impl root path c date).0 ≡ root))
unfolding write_impl
write_impl-is_map_write root path c date = elim (Result-cases (get_parent_name_pair root path)) [
  | inr (e, pair) ↦ rw (pair, write_impl) (inr (e, refl, refl))
  | inl (parent, pair) ↦
      let o = get_entry parent.name parent.entries in
      rw (pair, write_impl)
        (elim (Result-cases (written o c date)) [
          | inr (e, refused) ↦ rw refused (inr (e, refl, refl))
          | inl (f, made) ↦
              let (w, same) = written-ok o c date f made in
              let p = get_parent_name_pair-IsParent root path parent pair in
              rw made (
                inl (
                  refl,
                  after-path root path parent p f w ∙ ap some same,
                  after-other root path parent p f w,
                ))
        ])
]
