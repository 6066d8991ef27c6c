-- ===== src/Storage/Lookup.antt =====
-- The objects of nodejs/db/storage/memory.js as maps from names.
use mathlib.Core.Logic.{if_pos, if_neg}
use bzd.Prelude.Text.{Text, text_discrete}
use bzd.Prelude.{◌≡◌, ◌≢◌, refl, sym, none, some, arith}
use bzd.Storage.{Node, Entries, empty, entry}
use bzd.Storage.Memory.{get_entry, set_entry, delete_entry}

pub get_entry-set_entry_self :
    (name : Text) (node : Node) (entries : Entries)
    → get_entry name (set_entry name node entries) ≡ some node
unfolding get_entry set_entry
get_entry-set_entry_self name node empty = if_pos (text_discrete name name) refl _ _
get_entry-set_entry_self name node (entry key other rest) = elim (text_discrete key name) [
  | yes p ↦ rw (if_pos _ p) (if_pos (text_discrete key name) p _ _)
  | no p ↦
      rw (if_neg _ p, if_neg (text_discrete key name) p) (get_entry-set_entry_self name node rest)
]

pub get_entry-set_entry_ne :
    (name other : Text) (node : Node) (entries : Entries)
    → other ≢ name
    → get_entry other (set_entry name node entries) ≡ get_entry other entries
unfolding get_entry set_entry
get_entry-set_entry_ne name other node empty h =
    if_neg (text_discrete name other) (λ p. h (sym p)) _ _
get_entry-set_entry_ne name other node (entry key n rest) h =
    ground (arith, get_entry-set_entry_ne name other node rest h)

pub get_entry-delete_entry_self :
    (name : Text) (entries : Entries) → get_entry name (delete_entry name entries) ≡ none
unfolding get_entry delete_entry
get_entry-delete_entry_self name empty = refl
get_entry-delete_entry_self name (entry key n rest) =
    ground (arith, get_entry-delete_entry_self name rest)

pub get_entry-delete_entry_ne :
    (name other : Text) (entries : Entries)
    → other ≢ name
    → get_entry other (delete_entry name entries) ≡ get_entry other entries
unfolding get_entry delete_entry
get_entry-delete_entry_ne name other empty h = refl
get_entry-delete_entry_ne name other (entry key n rest) h =
    ground (arith, get_entry-delete_entry_ne name other rest h)
