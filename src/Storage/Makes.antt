-- ===== src/Storage/Makes.antt =====
-- What `_mkdirImpl` of nodejs/db/storage/memory.js makes.
use bzd.Prelude.Text.{Text, text_discrete}
use bzd.Prelude.{◌≡◌, refl, sym, ap, ◌∙◌, ◌⊎◌, inl, inr, Option, none, some, [], ◌∷◌, Option-cases}
use bzd.Storage.{
  StorageError, Result, ok, failed, PathList, File, Node, Entries, file, directory, empty,
}
use bzd.Storage.Memory.{get_entry, set_entry, entry_or_new, mkdir_from, mkdir_impl}
use bzd.Storage.Lookup.{get_entry-set_entry_self, get_entry-set_entry_ne}
use bzd.Storage.Paths.{
  node_at, content_in, content_at, node_at-none, node_at-some, node_at-same_entry, IsUnder,
}

-- The entries of a new directory, or of the one that is there.
Node-cases : (node : Node) → ((f : File) × (node ≡ file f)) ⊎ ((d : Entries) × (node ≡ directory d))
Node-cases (file f) = inl (f, refl)
Node-cases (directory d) = inr (d, refl)

-- A missing name has as little content under it as an empty directory.
content_under :
    (part : Text) (entries below : Entries) (q : PathList)
    → entry_or_new (get_entry part entries) ≡ directory below
    → content_at (directory below) q ≡ content_at (directory entries) (part ∷ q)
unfolding node_at get_entry
content_under part entries below q e = elim (Option-cases (get_entry part entries)) [
  | inl nothing ↦
      let same : directory empty ≡ directory below = sym (ap entry_or_new nothing) ∙ e in
      ap (λ n. content_at n q) (sym same)
      ∙ nothing_in q
      ∙ sym (ap content_in (node_at-none part entries q nothing))
  | inr (node, found) ↦
      let same : node ≡ directory below = sym (ap entry_or_new found) ∙ e in
      ap (λ n. content_at n q) (sym same)
      ∙ sym (ap content_in (node_at-some part entries q node found))
]
  where
    nothing_in : (q : PathList) → content_at (directory empty) q ≡ none
    nothing_in [] = refl
    nothing_in (first ∷ q) = refl

set_entry-content_at :
    (part : Text) (node : Node) (entries : Entries) (q : PathList)
    → ((r : PathList) → content_at node r ≡ content_at (directory entries) (part ∷ r))
    → content_at (directory (set_entry part node entries)) q ≡ content_at (directory entries) q
unfolding node_at
set_entry-content_at part node entries [] h = refl
set_entry-content_at part node entries (first ∷ q) h = elim (text_discrete first part) [
  | no other ↦ ap content_in (
      node_at-same_entry first (set_entry part node entries) entries q
        (get_entry-set_entry_ne part first node entries other))
  | yes same ↦
      ap (λ n. content_at (directory (set_entry part node entries)) (n ∷ q)) same
      ∙ ap content_in (
          node_at-some part (set_entry part node entries) q node
            (get_entry-set_entry_self part node entries))
      ∙ h q
      ∙ sym (ap (λ n. content_at (directory entries) (n ∷ q)) same)
]

mkdir_from-content :
    (entries : Entries) (path q : PathList)
    → content_at (directory (mkdir_from entries path).0) q ≡ content_at (directory entries) q
unfolding mkdir_from
mkdir_from-content entries [] q = refl
mkdir_from-content entries (part ∷ path) q =
    elim (Node-cases (entry_or_new (get_entry part entries))) [
      | inl (f, e) ↦ rw (e, mkdir_from) refl
      | inr (below, e) ↦
          rw (e, mkdir_from)
            (set_entry-content_at part (directory (mkdir_from below path).0) entries q
              (λ r. mkdir_from-content below path r ∙ content_under part entries below r e))
    ]

-- `_mkdirImpl` ends with a directory, or at a file that stands in the way.
abbrev Made : Entries → PathList → Result (Unit {0}) → Entries → Type 0
Made entries path (ok u) after =
    (d : Entries) × (node_at (directory after) path ≡ some (directory d))
Made entries path (failed e) after =
    (q : PathList) × (f : File) × IsUnder q path × (node_at (directory entries) q ≡ some (file f))

entry_or_new-file : (o : Option Node) (f : File) → entry_or_new o ≡ file f → o ≡ some (file f)
entry_or_new-file none f e = absurd (cc)
entry_or_new-file (some node) f e = ap some e

Made-below :
    (part : Text) (entries below after : Entries) (path : PathList) (r : Result (Unit {0}))
    → entry_or_new (get_entry part entries) ≡ directory below
    → Made below path r after
    → Made entries (part ∷ path) r (set_entry part (directory after) entries)
unfolding node_at get_entry
Made-below part entries below after path (ok u) e (d, at) = (
  d,
  node_at-some part (set_entry part (directory after) entries) path (directory after)
        (get_entry-set_entry_self part (directory after) entries)
      ∙ at,
)
Made-below part entries below after path (failed x) e (q, f, (rest, split), at) =
    elim (Option-cases (get_entry part entries)) [
      | inl nothing ↦
          let same : directory empty ≡ directory below = sym (ap entry_or_new nothing) ∙ e in
          absurd (no_file q (ap (λ n. node_at n q) same ∙ at))
      | inr (node, found) ↦
          let same : node ≡ directory below = sym (ap entry_or_new found) ∙ e in
          (
            part ∷ q,
            f,
            (rest, ap (λ (r : PathList). part ∷ r) split),
            node_at-some part entries q node found ∙ ap (λ n. node_at n q) same ∙ at,
          )
    ]
  where
    no_file : (q : PathList) → node_at (directory empty) q ≡ some (file f) → ⊥
    no_file [] h = cc
    no_file (first ∷ q) h = absurd (cc (h, node_at-none first empty q refl))

mkdir_from-Made :
    (entries : Entries) (path : PathList)
    → Made entries path (mkdir_from entries path).1 (mkdir_from entries path).0
unfolding mkdir_from node_at
mkdir_from-Made entries [] = (entries, refl)
mkdir_from-Made entries (part ∷ path) = elim (Node-cases (entry_or_new (get_entry part entries))) [
  | inl (f, e) ↦
      rw (e, mkdir_from)
        (
          part ∷ [],
          f,
          (path, refl),
          node_at-some part entries [] (file f) (entry_or_new-file (get_entry part entries) f e),
        )
  | inr (below, e) ↦
      rw (e, mkdir_from)
        (Made-below part entries below (mkdir_from below path).0 path (mkdir_from below path).1 e
          (mkdir_from-Made below path))
]

-- `_mkdirImpl` changes no content; after it a directory stands at the path, or it has thrown since a
-- file stands at the path or at one above it.
pub mkdir_impl-makes :
    (entries : Entries) (path : PathList)
    → ((q : PathList)
        → content_at (mkdir_impl (directory entries) path).0 q ≡ content_at (directory entries) q)
      × ((((mkdir_impl (directory entries) path).1 ≡ ok tt)
            × ((d : Entries) × (node_at (mkdir_impl (directory entries) path).0 path
                  ≡ some (directory d))))
          ⊎ ((e : StorageError) × ((mkdir_impl (directory entries) path).1 ≡ failed e)
              × ((q : PathList) × (f : File) × IsUnder q path
                  × (node_at (directory entries) q ≡ some (file f)))))
unfolding mkdir_impl
mkdir_impl-makes entries path = (
  mkdir_from-content entries path,
  by_result (mkdir_from entries path).1 (mkdir_from-Made entries path) refl,
)
  where
    by_result :
        (r : Result (Unit {0}))
        → Made entries path r (mkdir_from entries path).0
        → (mkdir_from entries path).1 ≡ r
        → (((mkdir_from entries path).1 ≡ ok tt)
            × ((d : Entries) × (node_at (directory (mkdir_from entries path).0) path
                  ≡ some (directory d))))
          ⊎ ((e : StorageError) × ((mkdir_from entries path).1 ≡ failed e)
              × ((q : PathList) × (f : File) × IsUnder q path
                  × (node_at (directory entries) q ≡ some (file f))))
    by_result (ok u) made e = inl (e, made)
    by_result (failed x) made e = inr (x, e, made)
