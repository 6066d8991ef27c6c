-- ===== src/Storage/Parents.antt =====
-- The parent of a path in nodejs/db/storage/memory.js, and what `_readImpl` reads at a path.
use bzd.Prelude.Text.{Text}
use bzd.Prelude.{
  ◌≡◌, refl, sym, ap, subst, ◌∙◌, inl, inr, Option, none, some, [], ◌∷◌, ◌++◌, Option-cases,
}
use bzd.Storage.{StorageError, Result, ok, failed, PathList, Node, Entries, file, directory}
use bzd.Storage.Memory.{
  navigate_to, get_entry, parent_name_from, Parent, as_parent, get_parent_name_pair, content_of,
  read_impl,
}
use bzd.Storage.Paths.{
  node_at, content_in, content_at, node_at-none, node_at-some, Result-cases, navigate_to-node_at,
  node_at-navigate_to, node_at-append,
}

-- The path and the name of a path that is not empty.
pub parent_name_from-splits :
    (first : Text) (path : PathList)
    → first ∷ path ≡ (parent_name_from first path).0 ++ (parent_name_from first path).1 ∷ []
parent_name_from-splits first [] = refl
parent_name_from-splits first (next ∷ path) =
    ap (λ (p : PathList). first ∷ p) (parent_name_from-splits next path)

-- What `_getParentNamePair` returns: a directory that stands at the path without its last name.
pub record IsParent (root : Node) (path : PathList) (parent : Parent) : Type 0 where
  pub splits : path ≡ parent.path ++ parent.name ∷ []
  pub stands : node_at root parent.path ≡ some (directory parent.entries)

-- A directory stands at the path without its last name.
abbrev pub HasParent : Node → PathList → Type 0
HasParent root path = (parent : Parent) × IsParent root path parent

as_parent-ok :
    (path : PathList) (name : Text) (r : Result Node) (parent : Parent)
    → as_parent path name r ≡ ok parent
    → (r ≡ ok (directory parent.entries)) × (path ≡ parent.path) × (name ≡ parent.name)
as_parent-ok path name (failed e) parent h = absurd (cc)
as_parent-ok path name (ok (file f)) parent h = absurd (cc)
as_parent-ok path name (ok (directory entries)) parent h =
    let same : record { path = path; entries = entries; name = name } ≡ parent = cc in
    (ap (λ (p : Parent). ok (directory p.entries)) same, ap Parent.path same, ap Parent.name same)

pub get_parent_name_pair-IsParent :
    (root : Node) (path : PathList) (parent : Parent)
    → get_parent_name_pair root path ≡ ok parent
    → IsParent root path parent
unfolding get_parent_name_pair
get_parent_name_pair-IsParent root [] parent h = absurd (cc)
get_parent_name_pair-IsParent root (first ∷ path) parent h =
    let (found, same, name) = as_parent-ok _ _ _ parent h in
    record {
      splits =
          parent_name_from-splits first path
          ∙ ap (λ (p : PathList). p ++ (parent_name_from first path).1 ∷ []) same
          ∙ ap (λ n. parent.path ++ n ∷ []) name;
      stands =
          subst (λ p. node_at root p ≡ some (directory parent.entries)) same
            (navigate_to-node_at root _ _ found);
    }

parent_name_from-append :
    (first : Text) (path front : PathList) (name : Text)
    → first ∷ path ≡ front ++ name ∷ []
    → (parent_name_from first path).0 ≡ front
parent_name_from-append first path [] name e =
    ap (λ (p : PathList). (parent_name_from first p).0) (tails e)
  where
    tails : {x y : Text} {p q : PathList} → x ∷ p ≡ y ∷ q → p ≡ q
    tails h = cc
parent_name_from-append first [] (part ∷ front) name e = absurd (no_more front (tails e))
  where
    tails : {x y : Text} {p q : PathList} → x ∷ p ≡ y ∷ q → p ≡ q
    tails h = cc

    no_more : (front : PathList) → [] ≡ front ++ name ∷ [] → ⊥
    no_more [] h = cc
    no_more (x ∷ front) h = cc
parent_name_from-append first (next ∷ path) (part ∷ front) name e =
    let heads : first ≡ part = cc in
    let tails : next ∷ path ≡ front ++ name ∷ [] = cc in
    ap (λ (p : PathList). first ∷ p) (parent_name_from-append next path front name tails)
    ∙ ap (λ (c : Text). c ∷ front) heads

-- Where `_getParentNamePair` throws, no directory stands there.
pub get_parent_name_pair-failed :
    (root : Node) (path : PathList) {e : StorageError}
    → get_parent_name_pair root path ≡ failed e
    → ¬ HasParent root path
unfolding get_parent_name_pair
get_parent_name_pair-failed root [] h (parent, p) = no_path parent.path p.splits
  where
    no_path : (front : PathList) → [] ≡ front ++ parent.name ∷ [] → ⊥
    no_path [] h = cc
    no_path (x ∷ front) h = cc
get_parent_name_pair-failed root (first ∷ path) h (parent, p) =
    let front = parent_name_from-append first path parent.path parent.name p.splits in
    let there =
      ap (navigate_to root) front
      ∙ node_at-navigate_to root parent.path (directory parent.entries) p.stands in
    let no_way = sym h ∙ ap (as_parent _ (parent_name_from first path).1) there in cc

-- What stands at the path is what the parent has under the name.
pub node_at-parent :
    (root : Node) (path : PathList) (parent : Parent)
    → IsParent root path parent
    → node_at root path ≡ get_entry parent.name parent.entries
unfolding node_at
node_at-parent root path parent p =
    ap (node_at root) p.splits
    ∙ node_at-append root parent.path (parent.name ∷ []) (directory parent.entries) p.stands
    ∙ elim (Option-cases (get_entry parent.name parent.entries)) [
      | inl e ↦ node_at-none parent.name parent.entries [] e ∙ sym e
      | inr (node, e) ↦ node_at-some parent.name parent.entries [] node e ∙ sym e
    ]

content_of-content_in : (o : Option Node) (c : Text) → content_of o ≡ ok c → content_in o ≡ some c
content_of-content_in none c h = absurd (cc)
content_of-content_in (some (file f)) c h = cc
content_of-content_in (some (directory entries)) c h = absurd (cc)

-- What is read is the content of the path.
pub read_impl→ :
    (root : Node) (path : PathList) (c : Text)
    → read_impl root path ≡ ok c
    → content_at root path ≡ some c
unfolding read_impl
read_impl→ root path c h = elim (Result-cases (get_parent_name_pair root path)) [
  | inr (e, f) ↦
      let no_way : ◌≡◌ {A = Result Text} (failed e) (ok c) = rw (f, read_impl) at h in absurd (cc)
  | inl (parent, f) ↦
      ap content_in
        (node_at-parent root path parent (get_parent_name_pair-IsParent root path parent f))
      ∙ content_of-content_in _ c (rw (f, read_impl) at h)
]

-- What stands at a path stands in a directory under the last name.
node_at_last :
    (root : Node) (path : PathList) (name : Text) (node : Node)
    → node_at root (path ++ name ∷ []) ≡ some node
    → (entries : Entries) × (node_at root path ≡ some (directory entries))
      × (get_entry name entries ≡ some node)
unfolding node_at
node_at_last (file f) [] name node h = absurd (cc)
node_at_last (directory entries) [] name node h = elim (Option-cases (get_entry name entries)) [
  | inl e ↦ absurd (cc (h, node_at-none name entries [] e))
  | inr (n, e) ↦ (entries, refl, e ∙ sym (node_at-some name entries [] n e) ∙ h)
]
node_at_last (file f) (part ∷ path) name node h = absurd (cc)
node_at_last (directory entries) (part ∷ path) name node h =
    elim (Option-cases (get_entry part entries)) [
      | inl e ↦ absurd (cc (h, node_at-none part entries (path ++ name ∷ []) e))
      | inr (next, e) ↦
          let (below, at, found) =
            node_at_last next path name node
              (sym (node_at-some part entries (path ++ name ∷ []) next e) ∙ h) in
          (below, node_at-some part entries path next e ∙ at, found)
    ]

content_of← : (o : Option Node) (c : Text) → content_in o ≡ some c → content_of o ≡ ok c
content_of← none c h = absurd (cc)
content_of← (some (file f)) c h = cc
content_of← (some (directory entries)) c h = absurd (cc)

content_in-some :
    (o : Option Node) (c : Text) → content_in o ≡ some c → (node : Node) × (o ≡ some node)
content_in-some none c h = absurd (cc)
content_in-some (some node) c h = (node, refl)

-- A file that stands at a path in a directory is read.
pub read_impl← :
    (entries : Entries) (path : PathList) (c : Text)
    → content_at (directory entries) path ≡ some c
    → read_impl (directory entries) path ≡ ok c
unfolding read_impl get_parent_name_pair node_at
read_impl← entries [] c h = absurd (cc)
read_impl← entries (first ∷ path) c h =
    let p = parent_name_from first path in
    let root : Node = directory entries in
    let split = parent_name_from-splits first path in
    let (node, stands) = content_in-some (node_at root (first ∷ path)) c h in
    let (below, at, found) =
      node_at_last root p.0 p.1 node (sym (ap (node_at root) split) ∙ stands) in
    let pair : get_parent_name_pair root (first ∷ path)
        ≡ ok (record { path = p.0; entries = below; name = p.1 }) =
      ap (as_parent p.0 p.1) (node_at-navigate_to root p.0 (directory below) at) in
    rw (pair, read_impl)
      (content_of← (get_entry p.1 below) c (ap content_in (found ∙ sym stands) ∙ h))
