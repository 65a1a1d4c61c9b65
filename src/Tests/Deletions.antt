-- ===== src/Tests/Deletions.antt =====
-- Witnesses for the deletion of a key that a map holds twice.
use cik.Prelude.{refl, [], ◌∷◌, arith}
use cik.World.{World, map_index, null_payload}
use cik.Entry.{free, used, EntryMap, get_key_hash}
use cik.Controller.Del.{delete_entry_by_key}
use cik.Controller.Ended.{Finishes, release_all-Finishes}
use cik.Controller.Deletion.{Deleted, delete_entry_by_key-Deleted}
use cik.Tests.Data.{key_a, entry_a, new_memory, world}
use cik.Tests.Buckets.{two_used, two_used-IsMemory}

abbrev map_twice : EntryMap
map_twice =
    used (get_key_hash key_a) (entry_a 100)
    ∷ used (get_key_hash key_a) (entry_a 200)
    ∷ free
    ∷ free
    ∷ []

abbrev before : World
before = record (world (map_twice ∷ []) [] [] null_payload) {
  memory = record new_memory { buckets = (100, 0) ∷ (200, 0) ∷ (300, 0) ∷ [] };
}

-- The entry at 0x10540 was taken out, and another with the key is left at 0x10420.
abbrev one_left : World
one_left =
    record (world ((used (get_key_hash key_a) (entry_a 0x10420) ∷ free ∷ []) ∷ []) [] []
      null_payload) { memory = two_used }

release_all-Finishes_example : Finishes 2 (entry_a 0x10540) key_a one_left []
unfolding map_index
release_all-Finishes_example =
    release_all-Finishes 2 (entry_a 0x10540) key_a one_left
      (used (get_key_hash key_a) (entry_a 0x10420) ∷ free ∷ []) [] refl (omega arith) (omega arith)
      two_used-IsMemory

delete_entry_by_key-Deleted_example : Deleted key_a before (delete_entry_by_key key_a before)
unfolding map_index
delete_entry_by_key-Deleted_example =
    delete_entry_by_key-Deleted key_a before map_twice refl (omega arith)
