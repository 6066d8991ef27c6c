-- ===== src/Tests/Storage.antt =====
-- Runs of the storage in memory (nodejs/db/storage/memory.js) and of nodejs/db/storage/storage.js.
use bzd.Prelude.Text.{Text, codes, text_discrete}
use bzd.Prelude.{◌≡◌, ◌≢◌, refl, ◌⊎◌, true, false, none, some, [], ◌∷◌}
use bzd.KeyValueStore.{make_from_list}
use bzd.Storage.{
  StorageError, precondition, file_not_found, ok, failed, PathList, File, Node, Entries, file,
  directory, empty, entry,
}
use bzd.Storage.Permissions.{encode}
use bzd.Storage.Memory
use bzd.Storage.Memory.{
  read_impl, write_impl, mkdir_impl, delete_impl, list_impl, metadata_impl, is_impl,
}
use bzd.Storage.Paths.{node_at, content_at, IsUnder}
use bzd.Storage.Writes.{write_impl-is_map_write}
use bzd.Storage.Parents.{HasParent}
use bzd.Storage.Deletes.{delete_impl-is_map_delete}
use bzd.Storage.Makes.{mkdir_impl-makes}
use bzd.Storage.Interface.{mkdir, write, delete, try_delete, copy, move}
use bzd.Storage.Moves.{memory, memory-StorageLaws, move-moves}

program : Unit {0}
unfolding text_discrete make_from_list encode Memory.get_entry Memory.set_entry Memory.delete_entry
    Memory.navigate_to Memory.replace_at Memory.get_parent_name_pair Memory.mkdir_from
    Memory.data_to_metadata read_impl write_impl mkdir_impl delete_impl list_impl metadata_impl
    is_impl node_at mkdir write delete try_delete copy move
program = tt

abbrev text_file : File
text_file = record { content = codes "hello"; created = 1; modified = 2 }

abbrev path_a : PathList
path_a = codes "d" ∷ codes "a" ∷ []

abbrev path_b : PathList
path_b = codes "e" ∷ codes "b" ∷ []

-- A directory "d" with a file "a".
abbrev entries : Entries
entries = entry (codes "d") (directory (entry (codes "a") (file text_file) empty)) empty

abbrev root : Node
root = directory entries

runs :
    (read_impl root path_a ≡ ok (codes "hello"))
    × (read_impl root path_b ≡ failed file_not_found)
    × ((write_impl root (codes "d" ∷ []) (codes "x") 5).1 ≡ failed precondition)
    × (read_impl (write_impl root path_a (codes "x") 5).0 path_a ≡ ok (codes "x"))
    × ((mkdir_impl root (codes "d" ∷ codes "a" ∷ codes "c" ∷ [])).1 ≡ failed precondition)
    × (is_impl root path_a ≡ ok true)
    × ((try_delete (memory 5) true root (codes "x" ∷ [])).1 ≡ ok true)
unfolding program
runs = (refl, refl, refl, refl, refl, refl, refl)

-- A file that is moved to itself is gone.
moves_to_itself :
    ((move (memory 5) true root path_a path_a false).1 ≡ ok tt)
    × (read_impl (move (memory 5) true root path_a path_a false).0 path_a ≡ failed file_not_found)
unfolding program
moves_to_itself = (refl, refl)

moves : (move (memory 5) true root path_a path_b true).1 ≡ ok tt
unfolding program
moves = refl

write_impl-is_map_write_example :
    (((write_impl root path_a (codes "x") 5).1 ≡ ok tt)
      × (content_at (write_impl root path_a (codes "x") 5).0 path_a ≡ some (codes "x"))
      × ((q : PathList)
          → q ≢ path_a
          → content_at (write_impl root path_a (codes "x") 5).0 q ≡ content_at root q))
    ⊎ ((e : StorageError) × ((write_impl root path_a (codes "x") 5).1 ≡ failed e)
        × ((write_impl root path_a (codes "x") 5).0 ≡ root))
write_impl-is_map_write_example = write_impl-is_map_write root path_a (codes "x") 5

delete_impl-is_map_delete_example :
    (HasParent root path_a
      × ((delete_impl root path_a).1 ≡ ok tt)
      × ((q : PathList) → IsUnder path_a q → content_at (delete_impl root path_a).0 q ≡ none)
      × ((q : PathList)
          → ¬ (IsUnder path_a q)
          → content_at (delete_impl root path_a).0 q ≡ content_at root q))
    ⊎ ((¬ HasParent root path_a)
        × ((e : StorageError) × ((delete_impl root path_a).1 ≡ failed e)
            × ((delete_impl root path_a).0 ≡ root)))
delete_impl-is_map_delete_example = delete_impl-is_map_delete root path_a

mkdir_impl-makes_example :
    ((q : PathList) → content_at (mkdir_impl root path_b).0 q ≡ content_at root q)
    × ((((mkdir_impl root path_b).1 ≡ ok tt)
          × ((d : Entries) × (node_at (mkdir_impl root path_b).0 path_b ≡ some (directory d))))
        ⊎ ((e : StorageError) × ((mkdir_impl root path_b).1 ≡ failed e)
            × ((q : PathList) × (f : File) × IsUnder q path_b × (node_at root q ≡ some (file f)))))
mkdir_impl-makes_example = mkdir_impl-makes entries path_b

move-moves_example :
    (¬ (IsUnder path_a path_b)
      → (c : Text) × (content_at root path_a ≡ some c)
        × (content_at (move (memory 5) true root path_a path_b true).0 path_b ≡ some c))
    × ((q : PathList)
        → IsUnder path_a q
        → content_at (move (memory 5) true root path_a path_b true).0 q ≡ none)
    × ((q : PathList)
        → ¬ (IsUnder path_a q)
        → q ≢ path_b
        → content_at (move (memory 5) true root path_a path_b true).0 q ≡ content_at root q)
move-moves_example =
    move-moves (memory 5) content_at (memory-StorageLaws 5) true root path_a path_b true moves
