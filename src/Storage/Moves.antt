-- ===== src/Storage/Moves.antt =====
-- `copy` and `move` of nodejs/db/storage/storage.js over any storage that keeps the laws, and the
-- storage in memory as one.
use bzd.Prelude.Text.{Text}
use bzd.Prelude.{ℕ, ◌≡◌, ◌≢◌, refl, sym, ap, ◌∙◌, inl, inr, Bool, true, false, Option, none, some}
use bzd.Storage.{Result, ok, failed, PathList, Node, file, directory}
use bzd.Storage.Memory
use bzd.Storage.Memory.{mkdir_impl}
use bzd.Storage.Paths.{content_at, IsUnder}
use bzd.Storage.Parents.{read_impl→}
use bzd.Storage.Writes.{write_impl-is_map_write}
use bzd.Storage.Deletes.{delete_impl-is_map_delete}
use bzd.Storage.Makes.{mkdir_impl-makes}
use bzd.Storage.Interface.{
  StorageImpl, StorageLaws, parent_of, and_then, mkdir_with, write_with, delete_with, copy_read,
  copy, move,
}

-- `StorageMemory`, at a date.
abbrev pub memory : ℕ → StorageImpl Node
memory date = record {
  read_impl = λ root path. Memory.read_impl root path;
  write_impl = λ root path c. Memory.write_impl root path c date;
  mkdir_impl = λ root path. Memory.mkdir_impl root path;
  delete_impl = λ root path. Memory.delete_impl root path;
}

mkdir_impl-content :
    (root : Node) (path q : PathList) → content_at (mkdir_impl root path).0 q ≡ content_at root q
unfolding mkdir_impl
mkdir_impl-content (file f) path q = refl
mkdir_impl-content (directory entries) path q = (mkdir_impl-makes entries path).0 q

-- The storage in memory keeps the laws of a storage.
pub memory-StorageLaws : (date : ℕ) → StorageLaws Node (memory date) content_at
memory-StorageLaws date = record {
  read_ok = read_impl→;
  write_ok = λ root path c. write_impl-is_map_write root path c date;
  mkdir_ok = mkdir_impl-content;
  delete_ok = λ root path. elim (delete_impl-is_map_delete root path) [
    | inl (parent, success, under, apart) ↦ inl (success, under, apart)
    | inr (orphan, refused) ↦ inr refused
  ];
}

module _ {S : Type 0} (impl : StorageImpl S) (contents : S → PathList → Option Text)
    (laws : StorageLaws S impl contents) (write_access : Bool) where
  -- A write, with the directories or without, that succeeds.
  record Wrote (s : S) (path : PathList) (c : Text) (r : S × Result (Unit {0})) : Type 0 where
    there : contents r.0 path ≡ some c
    same : (q : PathList) → q ≢ path → contents r.0 q ≡ contents s q

  write_impl-Wrote :
      (s : S) (path : PathList) (c : Text)
      → (impl.write_impl s path c).1 ≡ ok tt
      → Wrote s path c (impl.write_impl s path c)
  write_impl-Wrote s path c e = elim (laws.write_ok s path c) [
    | inl (fine, at, other) ↦ record { there = at; same = other }
    | inr (x, thrown, unchanged) ↦ absurd (cc)
  ]

  write_made-Wrote :
      (s : S) (path : PathList) (c : Text) (r : S × Result (Unit {0}))
      → ((q : PathList) → contents r.0 q ≡ contents s q)
      → (and_then r (λ made. impl.write_impl made path c)).1 ≡ ok tt
      → Wrote s path c (and_then r (λ made. impl.write_impl made path c))
  write_made-Wrote s path c (made, failed x) h e = absurd (cc)
  write_made-Wrote s path c (made, ok u) h e =
      let w = write_impl-Wrote made path c e in
      record { there = w.there; same = λ q other. w.same q other ∙ h q }

  mkdir_with-content :
      (access : Bool) (s : S) (path q : PathList)
      → contents (mkdir_with impl write_access access s path).0 q ≡ contents s q
  mkdir_with-content false s path q = refl
  mkdir_with-content true s path q = laws.mkdir_ok s path q

  write_with-Wrote :
      (access make : Bool) (s : S) (path : PathList) (c : Text)
      → (write_with impl write_access access make s path c).1 ≡ ok tt
      → Wrote s path c (write_with impl write_access access make s path c)
  write_with-Wrote false make s path c e = absurd (cc)
  write_with-Wrote true false s path c e = write_impl-Wrote s path c e
  write_with-Wrote true true s path c e =
      write_made-Wrote s path c (mkdir_with impl write_access write_access s (parent_of path))
        (mkdir_with-content write_access s (parent_of path)) e

  copy_read-Wrote :
      (s : S) (destination : PathList) (make : Bool) (r : Result Text)
      → (copy_read impl write_access s destination make r).1 ≡ ok tt
      → (c : Text) × (r ≡ ok c)
        × Wrote s destination c (copy_read impl write_access s destination make r)
  copy_read-Wrote s destination make (failed x) e = absurd (cc)
  copy_read-Wrote s destination make (ok c) e =
      (c, refl, write_with-Wrote write_access make s destination c e)

  and_then-ok :
      (r : S × Result (Unit {0})) (next : S → S × Result (Unit {0}))
      → (and_then r next).1 ≡ ok tt
      → (r.1 ≡ ok tt) × (and_then r next ≡ next r.0)
  and_then-ok (s, failed x) next e = absurd (cc)
  and_then-ok (s, ok u) next e = (refl, refl)

  delete_with-gone :
      (access : Bool) (s : S) (path : PathList)
      → (delete_with impl write_access access s path).1 ≡ ok tt
      → ((q : PathList)
          → IsUnder path q
          → contents (delete_with impl write_access access s path).0 q ≡ none)
        × ((q : PathList)
            → ¬ (IsUnder path q)
            → contents (delete_with impl write_access access s path).0 q ≡ contents s q)
  delete_with-gone false s path e = absurd (cc)
  delete_with-gone true s path e = elim (laws.delete_ok s path) [
    | inl (fine, gone, kept) ↦ (gone, kept)
    | inr (x, thrown, unchanged) ↦ absurd (cc)
  ]

  -- A `move` that succeeds, over any storage that keeps the laws: the destination has the content that
  -- the source had, nothing is left at the source or under it, and every other path has what it had.
  -- If the destination is the source itself, or under it, the content is lost.
  pub move-moves :
      (s : S) (source destination : PathList) (make : Bool)
      → (move impl write_access s source destination make).1 ≡ ok tt
      → (¬ (IsUnder source destination)
          → (c : Text) × (contents s source ≡ some c)
            × (contents (move impl write_access s source destination make).0 destination ≡ some c))
        × ((q : PathList)
            → IsUnder source q
            → contents (move impl write_access s source destination make).0 q ≡ none)
        × ((q : PathList)
            → ¬ (IsUnder source q)
            → q ≢ destination
            → contents (move impl write_access s source destination make).0 q ≡ contents s q)
  unfolding move copy
  move-moves s source destination make e =
      let copied = copy_read impl write_access s destination make (impl.read_impl s source) in
      let (fine, at) =
        and_then-ok copied (λ t. delete_with impl write_access write_access t source) e in
      let (c, read, wrote) = copy_read-Wrote s destination make (impl.read_impl s source) fine in
      let (gone, kept) =
        delete_with-gone write_access copied.0 source
          (sym (ap (λ (r : S × Result (Unit {0})). r.1) at) ∙ e) in
      let last : (q : PathList)
          → contents (and_then copied (λ t. delete_with impl write_access write_access t source)).0
              q
            ≡ contents (delete_with impl write_access write_access copied.0 source).0 q =
        λ q. ap (λ (r : S × Result (Unit {0})). contents r.0 q) at in
      (
        λ apart. (
          c,
          laws.read_ok s source c read,
          last destination ∙ kept destination apart ∙ wrote.there,
        ),
        λ q under. last q ∙ gone q under,
        λ q apart other. last q ∙ kept q apart ∙ wrote.same q other,
      )
