-- ===== src/Storage/Interface.antt =====
-- nodejs/db/storage/storage.js: the class `Storage` over the methods that a storage implements. Streams
-- are texts, and the state of a storage is passed on. `list`, `walk` and the metadata, which only read,
-- are not in it.
use bzd.Prelude.Text.{Text}
use bzd.Prelude.{◌≡◌, ◌≢◌, ◌⊎◌, Bool, true, false, Option, none, some, [], ◌∷◌}
use bzd.Storage.{
  StorageError, assertion, precondition, file_not_found, Result, ok, failed, PathList,
}
use bzd.Storage.Paths.{IsUnder}

-- `_readImpl`, `_writeImpl`, `_mkdirImpl` and `_deleteImpl`
pub record StorageImpl (S : Type 0) : Type 0 where
  pub read_impl : S → PathList → Result Text
  pub write_impl : S → PathList → Text → S × Result (Unit {0})
  pub mkdir_impl : S → PathList → S × Result (Unit {0})
  pub delete_impl : S → PathList → S × Result (Unit {0})

-- What an implementation promises, on the contents of paths: it is a map, in which `delete` takes
-- whole subtrees. A method that throws changes nothing.
pub record StorageLaws (S : Type 0) (impl : StorageImpl S) (contents : S → PathList → Option Text)
    : Type 0 where
  pub read_ok :
      (s : S) (path : PathList) (c : Text) → impl.read_impl s path ≡ ok c → contents s path ≡ some c
  pub write_ok :
      (s : S) (path : PathList) (c : Text)
      → (((impl.write_impl s path c).1 ≡ ok tt)
          × (contents (impl.write_impl s path c).0 path ≡ some c)
          × ((q : PathList) → q ≢ path → contents (impl.write_impl s path c).0 q ≡ contents s q))
        ⊎ ((e : StorageError) × ((impl.write_impl s path c).1 ≡ failed e)
            × ((impl.write_impl s path c).0 ≡ s))
  pub mkdir_ok : (s : S) (path q : PathList) → contents (impl.mkdir_impl s path).0 q ≡ contents s q
  pub delete_ok :
      (s : S) (path : PathList)
      → (((impl.delete_impl s path).1 ≡ ok tt)
          × ((q : PathList) → IsUnder path q → contents (impl.delete_impl s path).0 q ≡ none)
          × ((q : PathList)
              → ¬ (IsUnder path q)
              → contents (impl.delete_impl s path).0 q ≡ contents s q))
        ⊎ ((e : StorageError) × ((impl.delete_impl s path).1 ≡ failed e)
            × ((impl.delete_impl s path).0 ≡ s))

-- path.slice(0, -1)
abbrev pub parent_of : PathList → PathList
parent_of [] = []
parent_of (part ∷ []) = []
parent_of (part ∷ next ∷ path) = part ∷ parent_of (next ∷ path)

-- await, which an exception leaves.
abbrev pub and_then :
    {S : Type 0} → S × Result (Unit {0}) → (S → S × Result (Unit {0})) → S × Result (Unit {0})
and_then (s, failed e) next = (s, failed e)
and_then (s, ok u) next = next s

-- `writeAccess` is an argument of the section.
module _ {S : Type 0} (impl : StorageImpl S) (write_access : Bool) where
  abbrev pub mkdir_with : Bool → S → PathList → S × Result (Unit {0})
  mkdir_with false s path = (s, failed assertion)
  mkdir_with true s path = impl.mkdir_impl s path

  -- `mkdir`
  unfoldable pub mkdir : S → PathList → S × Result (Unit {0})
  mkdir s path = mkdir_with write_access s path

  abbrev pub write_with : Bool → Bool → S → PathList → Text → S × Result (Unit {0})
  write_with false make s path c = (s, failed assertion)
  write_with true false s path c = impl.write_impl s path c
  write_with true true s path c =
      and_then (mkdir_with write_access s (parent_of path)) (λ made. impl.write_impl made path c)

  -- `write`, with its option `mkdir`
  unfoldable pub write : S → PathList → Text → Bool → S × Result (Unit {0})
  write s path c make = write_with write_access make s path c

  abbrev pub delete_with : Bool → S → PathList → S × Result (Unit {0})
  delete_with false s path = (s, failed assertion)
  delete_with true s path = impl.delete_impl s path

  -- `delete`
  unfoldable pub delete : S → PathList → S × Result (Unit {0})
  delete s path = delete_with write_access s path

  abbrev pub tried : S × Result (Unit {0}) → S × Result Bool
  tried (s, ok u) = (s, ok true)
  tried (s, failed file_not_found) = (s, ok false)
  tried (s, failed precondition) = (s, failed precondition)
  tried (s, failed assertion) = (s, failed assertion)

  -- `tryDelete`
  unfoldable pub try_delete : S → PathList → S × Result Bool
  unfolding delete
  try_delete s path = tried (delete s path)

  abbrev pub copy_read : S → PathList → Bool → Result Text → S × Result (Unit {0})
  copy_read s destination make (failed e) = (s, failed e)
  copy_read s destination make (ok c) = write_with write_access make s destination c

  -- `copy`
  unfoldable pub copy : S → PathList → PathList → Bool → S × Result (Unit {0})
  unfolding write
  copy s source destination make = copy_read s destination make (impl.read_impl s source)

  -- `move`
  unfoldable pub move : S → PathList → PathList → Bool → S × Result (Unit {0})
  unfolding copy delete
  move s source destination make =
      and_then (copy s source destination make) (λ copied. delete copied source)
