-- ===== src/Storage/Paths.antt =====
-- The abstract view of the storage in memory: which paths hold which content.
use bzd.Prelude.Text.{Text, text_discrete}
use bzd.Prelude.{
  ◌≡◌, refl, sym, ap, subst, ◌∙◌, ◌⊎◌, inl, inr, Option, none, some, [], ◌∷◌, ◌++◌, Option-cases,
}
use bzd.Storage.{
  file_not_found, Result, ok, failed, PathList, Node, Entries, file, directory, StorageError,
}
use bzd.Storage.Memory.{get_entry, set_entry, navigate_to, replace_at}
use bzd.Storage.Lookup.{get_entry-set_entry_self, get_entry-set_entry_ne}

-- What stands at a path.
unfoldable pub node_at : Node → PathList → Option Node
node_at node [] = some node
node_at (file f) (part ∷ path) = none
node_at (directory entries) (part ∷ path) = elim (get_entry part entries) [
  | none ↦ none
  | some node ↦ node_at node path
]

-- The content of the file at a path.
abbrev pub content_in : Option Node → Option Text
content_in none = none
content_in (some (file f)) = some f.content
content_in (some (directory entries)) = none

abbrev pub content_at : Node → PathList → Option Text
content_at root path = content_in (node_at root path)

pub node_at-none :
    (part : Text) (entries : Entries) (path : PathList)
    → get_entry part entries ≡ none
    → node_at (directory entries) (part ∷ path) ≡ none
unfolding node_at
node_at-none part entries path e = rw (e, node_at) refl

pub node_at-some :
    (part : Text) (entries : Entries) (path : PathList) (node : Node)
    → get_entry part entries ≡ some node
    → node_at (directory entries) (part ∷ path) ≡ node_at node path
unfolding node_at
node_at-some part entries path node e = rw (e, node_at) refl

pub node_at-same_entry :
    (part : Text) (a b : Entries) (path : PathList)
    → get_entry part a ≡ get_entry part b
    → node_at (directory a) (part ∷ path) ≡ node_at (directory b) (part ∷ path)
node_at-same_entry part a b path h = elim (Option-cases (get_entry part b)) [
  | inl e ↦ node_at-none part a path (h ∙ e) ∙ sym (node_at-none part b path e)
  | inr (node, e) ↦ node_at-some part a path node (h ∙ e) ∙ sym (node_at-some part b path node e)
]

pub Result-cases :
    {A : Type 0} (r : Result A) → ((a : A) × (r ≡ ok a)) ⊎ ((e : StorageError) × (r ≡ failed e))
Result-cases (ok a) = inl (a, refl)
Result-cases (failed e) = inr (e, refl)

-- `_navigateTo` finds what stands at the path.
pub navigate_to-node_at :
    (root : Node) (path : PathList) (node : Node)
    → navigate_to root path ≡ ok node
    → node_at root path ≡ some node
unfolding navigate_to node_at
navigate_to-node_at root [] node h = cc
navigate_to-node_at (file f) (part ∷ path) node h = absurd (cc)
navigate_to-node_at (directory entries) (part ∷ path) node h =
    elim (Option-cases (get_entry part entries)) [
      | inl e ↦
          let no_way : failed file_not_found ≡ ok node = rw (e, navigate_to) at h in absurd (cc)
      | inr (next, e) ↦
          node_at-some part entries path next e
          ∙ navigate_to-node_at next path node (rw (e, navigate_to) at h)
    ]

pub node_at-navigate_to :
    (root : Node) (path : PathList) (node : Node)
    → node_at root path ≡ some node
    → navigate_to root path ≡ ok node
unfolding navigate_to node_at
node_at-navigate_to root [] node h = cc
node_at-navigate_to (file f) (part ∷ path) node h = absurd (cc)
node_at-navigate_to (directory entries) (part ∷ path) node h =
    elim (Option-cases (get_entry part entries)) [
      | inl e ↦ absurd (cc (h, node_at-none part entries path e))
      | inr (next, e) ↦
          rw (e, navigate_to)
            (node_at-navigate_to next path node (sym (node_at-some part entries path next e) ∙ h))
    ]

-- A path taken after another.
pub node_at-append :
    (root : Node) (path rest : PathList) (node : Node)
    → node_at root path ≡ some node
    → node_at root (path ++ rest) ≡ node_at node rest
unfolding node_at
node_at-append root [] rest node h = ap (λ n. node_at n rest) (cc)
node_at-append (file f) (part ∷ path) rest node h = absurd (cc)
node_at-append (directory entries) (part ∷ path) rest node h =
    elim (Option-cases (get_entry part entries)) [
      | inl e ↦ absurd (cc (h, node_at-none part entries path e))
      | inr (next, e) ↦
          node_at-some part entries (path ++ rest) next e
          ∙ node_at-append next path rest node (sym (node_at-some part entries path next e) ∙ h)
    ]

-- Another path begins with this one, or it does not.
abbrev pub IsUnder : PathList → PathList → Type 0
IsUnder path q = (rest : PathList) × (q ≡ path ++ rest)

pub IsUnder-cases : (path q : PathList) → IsUnder path q ⊎ ¬ (IsUnder path q)
IsUnder-cases [] q = inl (q, refl)
IsUnder-cases (part ∷ path) [] = inr (λ (rest, e). cc)
IsUnder-cases (part ∷ path) (first ∷ q) = elim (text_discrete first part) [
  | no other ↦ inr (λ (rest, e). other (cc))
  | yes same ↦ elim (IsUnder-cases path q) [
    | inl (rest, e) ↦ inl (rest, cc)
    | inr apart ↦ inr (λ (rest, e). apart (rest, cc))
  ]
]

-- After a directory or file at a path is replaced, paths under it lead into the new one.
pub replace_at-under :
    (root : Node) (path rest : PathList) (old new : Node)
    → node_at root path ≡ some old
    → node_at (replace_at root path new) (path ++ rest) ≡ node_at new rest
unfolding replace_at node_at
replace_at-under root [] rest old new h = refl
replace_at-under (file f) (part ∷ path) rest old new h = absurd (cc)
replace_at-under (directory entries) (part ∷ path) rest old new h =
    elim (Option-cases (get_entry part entries)) [
      | inl e ↦ absurd (cc (h, node_at-none part entries path e))
      | inr (next, e) ↦
          let below = replace_at next path new in
          rw (e, replace_at)
            (node_at-some part (set_entry part below entries) (path ++ rest) below
                (get_entry-set_entry_self part below entries)
              ∙ replace_at-under next path rest old new
                  (sym (node_at-some part entries path next e) ∙ h))
    ]

-- Nothing else is other than it was, as far as files go.
pub replace_at-apart :
    (root : Node) (path q : PathList) (old new : Node)
    → node_at root path ≡ some old
    → ¬ (IsUnder path q)
    → content_at (replace_at root path new) q ≡ content_at root q
unfolding replace_at node_at
replace_at-apart root [] q old new h apart = absurd (apart (q, refl))
replace_at-apart (file f) (part ∷ path) q old new h apart = absurd (cc)
replace_at-apart (directory entries) (part ∷ path) [] old new h apart =
    elim (Option-cases (get_entry part entries)) [
      | inl e ↦ absurd (cc (h, node_at-none part entries path e))
      | inr (next, e) ↦ rw (e, replace_at) refl
    ]
replace_at-apart (directory entries) (part ∷ path) (first ∷ q) old new h apart =
    elim (Option-cases (get_entry part entries)) [
      | inl e ↦ absurd (cc (h, node_at-none part entries path e))
      | inr (next, e) ↦
          let below = replace_at next path new in
          rw (e, replace_at)
            (elim (text_discrete first part) [
              | no other ↦ ap content_in (
                  node_at-same_entry first (set_entry part below entries) entries q
                    (get_entry-set_entry_ne part first below entries other))
              | yes same ↦
                  subst
                    (λ f.
                      content_at (directory (set_entry part below entries)) (f ∷ q)
                      ≡ content_at (directory entries) (f ∷ q))
                    (sym same)
                    (ap content_in (
                        node_at-some part (set_entry part below entries) q below
                          (get_entry-set_entry_self part below entries))
                      ∙ replace_at-apart next path q old new
                          (sym (node_at-some part entries path next e) ∙ h)
                          (λ (rest, split). apart (rest, cc))
                      ∙ sym (ap content_in (node_at-some part entries q next e)))
            ])
    ]
