-- ===== src/Storage.antt =====
-- nodejs/db/storage: what all storages share (storage.js), permissions.js, and the storage in memory
-- (memory.js). A path is a list of names, and the content of a file is a text.
pub mod Permissions
pub mod Memory
pub mod Lookup
pub mod Paths
pub mod Parents
pub mod Writes
pub mod Deletes
pub mod Makes
pub mod Interface
pub mod Moves
use bzd.Prelude.Text.{Text}
use bzd.Prelude.{ℕ, List}

-- The exceptions: a failed `assert`, a failed `assertPrecondition`, and `FileNotFoundError`.
pub data StorageError : Type 0 where
  assertion precondition file_not_found : StorageError

pub data Result {ℓ} (A : Type ℓ) : Type ℓ where
  ok : A → Result A
  failed : StorageError → Result A

abbrev pub PathList : Type 0
PathList = List Text

-- The class `File`
pub record File : Type 0 where
  pub content : Text
  pub created : ℕ
  pub modified : ℕ

-- What the object of the data holds under its names: files and directories.
mutual
  pub data Node : Type 0 where
    file : File → Node
    directory : Entries → Node

  pub data Entries : Type 0 where
    empty : Entries
    entry : Text → Node → Entries → Entries
