-- ===== src/Storage/Memory.antt =====
-- nodejs/db/storage/memory.js: the virtual file system in memory. A method takes the data and returns
-- what becomes of it beside its result; the date is an argument. Names that every object inherits, and
-- that `in` finds, are not modelled.
use bzd.Prelude.Text.{Text, codes, text_discrete}
use bzd.Prelude.{ℕ, Bool, true, false, Option, none, some, List, [], ◌∷◌, length}
use mathlib.Core.Logic.{ite}
use bzd.KeyValueStore.{Paging, CollectionPaging, make_from_list}
use bzd.Storage.{
  precondition, file_not_found, Result, ok, failed, PathList, File, Node, Entries, file, directory,
  empty, entry,
}
use bzd.Storage.Permissions.{encode}

-- parent[name], with `undefined` as `none`
unfoldable pub get_entry : Text → Entries → Option Node
get_entry name empty = none
get_entry name (entry key node entries) =
    ite (text_discrete key name) (some node) (get_entry name entries)

-- parent[name] = node
unfoldable pub set_entry : Text → Node → Entries → Entries
set_entry name node empty = entry name node empty
set_entry name node (entry key other entries) =
    ite (text_discrete key name) (entry key node entries)
      (entry key other (set_entry name node entries))

-- delete parent[name]: whatever has the name goes, which in an object is one entry at most.
unfoldable pub delete_entry : Text → Entries → Entries
delete_entry name empty = empty
delete_entry name (entry key other entries) =
    let rest = delete_entry name entries in ite (text_discrete key name) rest (entry key other rest)

-- Object.keys
abbrev pub names : Entries → List Text
names empty = []
names (entry key node entries) = key ∷ names entries

-- `_navigateTo`
unfoldable pub navigate_to : Node → PathList → Result Node
navigate_to parent [] = ok parent
navigate_to (file f) (part ∷ path_list) = failed precondition
navigate_to (directory entries) (part ∷ path_list) = elim (get_entry part entries) [
  | none ↦ failed file_not_found
  | some node ↦ navigate_to node path_list
]

-- The data after the object at a path has become another.
unfoldable pub replace_at : Node → PathList → Node → Node
replace_at node [] new = new
replace_at (file f) (part ∷ path_list) new = file f
replace_at (directory entries) (part ∷ path_list) new = elim (get_entry part entries) [
  | none ↦ directory entries
  | some node ↦ directory (set_entry part (replace_at node path_list new) entries)
]

-- pathList.slice(0, -1) and pathList[pathList.length - 1]
abbrev pub parent_name_from : Text → PathList → PathList × Text
parent_name_from first [] = ([], first)
parent_name_from first (next ∷ path_list) =
    let below = parent_name_from next path_list in (first ∷ below.0, below.1)

-- The parent that `_getParentNamePair` returns is its path and its entries.
pub record Parent : Type 0 where
  pub path : PathList
  pub entries : Entries
  pub name : Text

abbrev pub as_parent : PathList → Text → Result Node → Result Parent
as_parent path name (failed e) = failed e
as_parent path name (ok (file f)) = failed precondition
as_parent path name (ok (directory entries)) =
    ok (record { path = path; entries = entries; name = name })

-- `_getParentNamePair`
unfoldable pub get_parent_name_pair : Node → PathList → Result Parent
get_parent_name_pair root [] = failed precondition
get_parent_name_pair root (first ∷ path_list) =
    as_parent (parent_name_from first path_list).0 (parent_name_from first path_list).1
      (navigate_to root (parent_name_from first path_list).0)

abbrev pub is_some {ℓ} : {A : Type ℓ} → Option A → Bool
is_some none = false
is_some (some a) = true

abbrev pub is_in : Result Parent → Result Bool
is_in (ok parent) = ok (is_some (get_entry parent.name parent.entries))
is_in (failed file_not_found) = ok false
is_in (failed e) = failed e

-- `_isImpl`
unfoldable pub is_impl : Node → PathList → Result Bool
is_impl root [] = ok true
is_impl root (part ∷ path_list) = is_in (get_parent_name_pair root (part ∷ path_list))

abbrev pub file_keys : List Text
file_keys = codes "content" ∷ codes "created" ∷ codes "modified" ∷ []

-- Object.keys(parent), where a file has the names of its fields.
abbrev pub keys_of : Node → List Text
keys_of (directory entries) = names entries
keys_of (file f) = file_keys

-- `_listImpl` without metadata
unfoldable pub list_impl : Node → PathList → Paging → Result (CollectionPaging (List Text))
list_impl root path_list paging = elim (navigate_to root path_list) [
  | failed e ↦ failed e
  | ok node ↦ ok (make_from_list (keys_of node) paging)
]

pub record Metadata : Type 0 where
  pub is_directory : Bool
  pub size : Option ℕ
  pub created : Option ℕ
  pub modified : Option ℕ
  pub permissions : Text

-- `_dataToMetadata`, whose name and type by extension are left out. The size of a file is the length
-- of its content.
unfoldable pub data_to_metadata : Node → Metadata
data_to_metadata (file f) = record {
  is_directory = false;
  size = some (length f.content);
  created = some f.created;
  modified = some f.modified;
  permissions =
      encode
        (record { read = true; write = true; delete = true; list = false; executable = false });
}
data_to_metadata (directory entries) = record {
  is_directory = true;
  size = none;
  created = none;
  modified = none;
  permissions =
      encode (record { read = true; write = true; delete = true; list = true; executable = false });
}

-- `_metadataImpl`
unfoldable pub metadata_impl : Node → PathList → Result Metadata
metadata_impl root path_list = elim (navigate_to root path_list) [
  | failed e ↦ failed e
  | ok node ↦ ok (data_to_metadata node)
]

abbrev pub content_of : Option Node → Result Text
content_of none = failed file_not_found
content_of (some (directory entries)) = failed precondition
content_of (some (file f)) = ok f.content

-- `_readImpl`
unfoldable pub read_impl : Node → PathList → Result Text
read_impl root path_list = elim (get_parent_name_pair root path_list) [
  | failed e ↦ failed e
  | ok parent ↦ content_of (get_entry parent.name parent.entries)
]

-- The file that `_writeImpl` leaves under the name.
abbrev pub written : Option Node → Text → ℕ → Result File
written none content date = ok (record { content = content; created = date; modified = date })
written (some (directory entries)) content date = failed precondition
written (some (file f)) content date = ok (record f { content = content; modified = date })

abbrev pub write_in : Node → Parent → Result File → Node × Result (Unit {0})
write_in root parent (failed e) = (root, failed e)
write_in root parent (ok f) =
    (replace_at root parent.path (directory (set_entry parent.name (file f) parent.entries)), ok tt)

-- `_writeImpl`
unfoldable pub write_impl : Node → PathList → Text → ℕ → Node × Result (Unit {0})
write_impl root path_list content date = elim (get_parent_name_pair root path_list) [
  | failed e ↦ (root, failed e)
  | ok parent ↦ write_in root parent (written (get_entry parent.name parent.entries) content date)
]

abbrev pub entry_or_new : Option Node → Node
entry_or_new none = directory empty
entry_or_new (some node) = node

-- The loop of `_mkdirImpl` from a directory on.
unfoldable pub mkdir_from : Entries → PathList → Entries × Result (Unit {0})
mkdir_from entries [] = (entries, ok tt)
mkdir_from entries (part ∷ path_list) = elim (entry_or_new (get_entry part entries)) [
  | file f ↦ (entries, failed precondition)
  | directory below ↦
      let made = mkdir_from below path_list in (set_entry part (directory made.0) entries, made.1)
]

-- `_mkdirImpl`; the root is a directory.
unfoldable pub mkdir_impl : Node → PathList → Node × Result (Unit {0})
mkdir_impl (file f) path_list = (file f, failed precondition)
mkdir_impl (directory entries) path_list =
    (directory (mkdir_from entries path_list).0, (mkdir_from entries path_list).1)

-- `_deleteImpl`; a name that is not there is no error.
unfoldable pub delete_impl : Node → PathList → Node × Result (Unit {0})
delete_impl root path_list = elim (get_parent_name_pair root path_list) [
  | failed e ↦ (root, failed e)
  | ok parent ↦
      (replace_at root parent.path (directory (delete_entry parent.name parent.entries)), ok tt)
]
