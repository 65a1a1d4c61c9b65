-- ===== src/Tag/Edits.antt =====
-- The two operations of src/tag.c that change the index, as the steps of a run from its start.
use cik.Prelude.{◌≡◌, ◌≢◌, refl, some}
use cik.Tag.{TagNode, root, add_key_to_tag, remove_key_from_tag}
use cik.Tag.Listing.{is_listed, add_keeps_other, remove_keeps_other}
use cik.Tag.Shape.{AllTags, IsCounted, IsIndex}
use cik.Tag.Kept.{add-IsIndex, remove-IsIndex}
use cik.Tag.Keys.{IsUnique}
use cik.Bytes.{Bytes}
use cik.Memory.{Memory}

-- One call that returns: of which tag and key, from which index and memory to which.
pub data Edit (tag key : Bytes) : TagNode → Memory → TagNode → Memory → Type 0 where
  added :
      (tree : TagNode) (m : Memory) (tree' : TagNode) (m' : Memory)
      → add_key_to_tag tag key tree m ≡ some (tree', m')
      → Edit tag key tree m tree' m'
  removed :
      (tree : TagNode) (m : Memory) (tree' : TagNode) (m' : Memory)
      → remove_key_from_tag tag key tree m ≡ some (tree', m')
      → Edit tag key tree m tree' m'

-- What any number of calls makes of the index that the program starts with, in whatever memory each
-- of them finds.
pub data IsReached : TagNode → Type 0 where
  start : IsReached root
  edited :
      (tag key : Bytes) (tree : TagNode) (m : Memory) (tree' : TagNode) (m' : Memory)
      → IsReached tree
      → Edit tag key tree m tree' m'
      → IsReached tree'

-- An addition or removal changes nothing of what the index lists but for the key and the tag given.
pub other_pairs_kept :
    (tag key : Bytes) (tree : TagNode) (m : Memory) (tree' : TagNode) (m' : Memory)
    (tag' key' : Bytes)
    → (tag' ≡ tag → key' ≢ key)
    → Edit tag key tree m tree' m'
    → is_listed tree' tag' key' ≡ is_listed tree tag' key'
other_pairs_kept tag key _ _ _ _ tag' key' d (added tree m tree' m' h) =
    add_keeps_other tag key tree m tree' m' tag' key' d h
other_pairs_kept tag key _ _ _ _ tag' key' d (removed tree m tree' m' h) =
    remove_keeps_other tag key tree m tree' m' tag' key' d h

root-IsIndex : IsIndex root
unfolding IsIndex AllTags IsCounted IsUnique
root-IsIndex = (tt, tt, (tt, refl), tt, tt)

-- However keys are added to and removed from tags, the index stays ordered by tag, no tag's list
-- has a key twice, and each `num_keys` is the length of its list modulo 2 ^ 32.
pub reached-IsIndex : (tree : TagNode) → IsReached tree → IsIndex tree
reached-IsIndex _ start = root-IsIndex
reached-IsIndex _ (edited tag key _ _ _ _ before (added tree m tree' m' h)) =
    add-IsIndex tag key tree m tree' m' h (reached-IsIndex tree before)
reached-IsIndex _ (edited tag key _ _ _ _ before (removed tree m tree' m' h)) =
    remove-IsIndex tag key tree m tree' m' h (reached-IsIndex tree before)
