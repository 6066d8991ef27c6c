-- ===== src/Storage/Deletes.antt =====
-- `_deleteImpl` of nodejs/db/storage/memory.js on the contents of paths.
use bzd.Prelude.{◌≡◌, refl, sym, ap, ◌∙◌, ◌⊎◌, inl, inr, none, [], ◌∷◌, ◌++◌}
use bzd.Storage.{StorageError, ok, failed, PathList, Node, directory}
use bzd.Storage.Memory.{delete_entry, replace_at, Parent, get_parent_name_pair, delete_impl}
use bzd.Storage.Lookup.{get_entry-delete_entry_self, get_entry-delete_entry_ne}
use bzd.Storage.Paths.{
  node_at, content_in, content_at, node_at-none, node_at-same_entry, node_at-append, IsUnder,
  IsUnder-cases, replace_at-under, replace_at-apart, Result-cases,
}
use bzd.Storage.Parents.{
  IsParent, HasParent, get_parent_name_pair-IsParent, get_parent_name_pair-failed,
}

-- The data without a name in a parent.
module _ (root : Node) (path : PathList) (parent : Parent) (p : IsParent root path parent) where
  abbrev left : Node
  left = replace_at root parent.path (directory (delete_entry parent.name parent.entries))

  left-under : (q : PathList) → IsUnder path q → node_at left q ≡ none
  left-under q (rest, split) =
      ap (node_at left) (split ∙ ap (λ (r : PathList). r ++ rest) p.splits ∙ together parent.path)
      ∙ replace_at-under root parent.path (parent.name ∷ rest) (directory parent.entries) _ p.stands
      ∙ node_at-none parent.name (delete_entry parent.name parent.entries) rest
          (get_entry-delete_entry_self parent.name parent.entries)
    where
      together :
          (before : PathList) → (before ++ parent.name ∷ []) ++ rest ≡ before ++ parent.name ∷ rest
      together [] = refl
      together (part ∷ before) = ap (λ (r : PathList). part ∷ r) (together before)

  deleted :
      (rest : PathList)
      → ¬ (IsUnder (parent.name ∷ []) rest)
      → content_at (directory (delete_entry parent.name parent.entries)) rest
        ≡ content_at (directory parent.entries) rest
  unfolding node_at
  deleted [] apart = refl
  deleted (first ∷ more) apart = ap content_in (
      node_at-same_entry first (delete_entry parent.name parent.entries) parent.entries more (
        get_entry-delete_entry_ne parent.name first parent.entries
          (λ same. apart (more, ap (λ n. n ∷ more) same))))

  left-apart : (q : PathList) → ¬ (IsUnder path q) → content_at left q ≡ content_at root q
  left-apart q apart = elim (IsUnder-cases parent.path q) [
    | inr outside ↦
        replace_at-apart root parent.path q (directory parent.entries) _ p.stands outside
    | inl (rest, split) ↦
        ap (content_at left) split
        ∙ ap content_in
            (replace_at-under root parent.path rest (directory parent.entries) _ p.stands)
        ∙ deleted rest (λ (more, e). apart (
          more,
          split ∙ ap (λ (r : PathList). parent.path ++ r) e ∙ sym (shifted parent.path more),
        ))
        ∙ ap content_in
            (sym (node_at-append root parent.path rest (directory parent.entries) p.stands))
        ∙ sym (ap (content_at root) split)
  ]
    where
      apart_path :
          (before more : PathList)
          → (before ++ parent.name ∷ []) ++ more ≡ before ++ (parent.name ∷ more)
      apart_path [] more = refl
      apart_path (part ∷ before) more = ap (λ (r : PathList). part ∷ r) (apart_path before more)

      shifted : (before more : PathList) → path ++ more ≡ parent.path ++ (parent.name ∷ more)
      shifted before more = ap (λ (r : PathList). r ++ more) p.splits ∙ apart_path parent.path more

-- `_deleteImpl` succeeds exactly where a directory stands at the path without its last name, whether it
-- has an entry of that name or not: it takes the path and all paths under it from the map, and no
-- other. Elsewhere it throws, and nothing has changed.
pub delete_impl-is_map_delete :
    (root : Node) (path : PathList)
    → (HasParent root path
        × ((delete_impl root path).1 ≡ ok tt)
        × ((q : PathList) → IsUnder path q → content_at (delete_impl root path).0 q ≡ none)
        × ((q : PathList)
            → ¬ (IsUnder path q)
            → content_at (delete_impl root path).0 q ≡ content_at root q))
      ⊎ ((¬ HasParent root path)
          × ((e : StorageError) × ((delete_impl root path).1 ≡ failed e)
              × ((delete_impl root path).0 ≡ root)))
unfolding delete_impl
delete_impl-is_map_delete root path = elim (Result-cases (get_parent_name_pair root path)) [
  | inr (e, pair) ↦ inr (
    get_parent_name_pair-failed root path pair,
    (e, rw (pair, delete_impl) refl, rw (pair, delete_impl) refl),
  )
  | inl (parent, pair) ↦
      let p = get_parent_name_pair-IsParent root path parent pair in
      inl (
        rw (pair, delete_impl)
          (
            (parent, p),
            refl,
            λ q under. ap content_in (left-under root path parent p q under),
            left-apart root path parent p,
          ))
]
