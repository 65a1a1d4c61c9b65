-- ===== src/Tests/Listings.antt =====
-- Witnesses for the listings and for the deletion by tags.
use cik.Prelude.{Bool, none, true, false, ℕ, zero, suc, ◌≡◌, refl, some, [], ◌∷◌, arith}
use cik.World.{World, null_payload, Outcome, ok, stop, crash}
use cik.Bytes.{Bytes}
use cik.Memory.{Memory, reserve_memory}
use cik.Tag.{release_key_list}
use cik.Entry.{EntryMap, CacheEntry, used, free, get_key_hash}
use cik.Controller.Clr.{clear_matching}
use cik.Controller.Lst.{list}
use cik.Controller.Spared.{HasRooms}
use cik.Controller.Matched.{Matched, clear_matching-Matched}
use cik.Controller.Answered.{Answers, list-all_keys, list-matching, keys_of}
use cik.Tests.Data.{key_a, entry_a, world}
use cik.Tests.Index.{tag_x, tag_y, second, matching_all, result}

-- An entry with two tags in a bucket of its own.
abbrev bucket : ℕ × Memory
bucket = let (found, m) = reserve_memory 108 second.1 in (elim found [ none ↦ 0 | some a ↦ a ], m)

abbrev two_tags : CacheEntry
two_tags = record (entry_a bucket.0) { tags = tag_x ∷ tag_y ∷ [] }

abbrev one_map : EntryMap
one_map = free ∷ used (get_key_hash key_a) two_tags ∷ free ∷ free ∷ []

abbrev tagged : World
tagged = record (world (one_map ∷ []) [] [] null_payload) { tags = second.0; memory = bucket.1 }

tagged-HasRooms : HasRooms tagged.maps
tagged-HasRooms zero map at = let same : one_map ≡ map = ground (arith, at) in ground (arith, same)
tagged-HasRooms (suc i) map at = cc

abbrev returned : Outcome Unit → Bool
returned (ok u w) = true
returned (stop s w) = false
returned crash = false

clear_returns : returned (clear_matching true (tag_x ∷ tag_y ∷ []) tagged) ≡ true
unfolding clear_matching cik.Tag.get_keys_matching_all_tags cik.Tag.get_tag_if_exists
    cik.Tag.add_key_to_tag cik.Tag.get_or_create_node cik.Bytes.Compare.compare_tags reserve_memory
    cik.Tag.write_node cik.Bytes.Compare.keys_are_equal cik.Memory.release_memory
    cik.Entry.lock_and_unset_cache_entry get_key_hash cik.Entry.holds_key
    cik.Tag.remove_key_from_tag
clear_returns = refl

clear_matching-Matched_example :
    Matched true (tag_x ∷ tag_y ∷ []) tagged (clear_matching true (tag_x ∷ tag_y ∷ []) tagged)
clear_matching-Matched_example =
    clear_matching-Matched true (tag_x ∷ tag_y ∷ []) tagged tagged-HasRooms

list-all_keys_example : Answers (key_a ∷ []) tagged (list 0x00 [] tagged)
list-all_keys_example = list-all_keys [] tagged (omega arith, omega arith, tt) refl

abbrev released : Unit {0} × Memory
released = result tt (release_key_list matching_all.0 matching_all.1)

list-matching_example :
    Answers
      (keys_of matching_all.0)
      (record tagged { memory = second.1 })
      (list 0x02 (tag_x ∷ tag_y ∷ []) (record tagged { memory = second.1 }))
unfolding cik.Tag.get_keys_matching_all_tags cik.Tag.get_tag_if_exists cik.Tag.add_key_to_tag
    cik.Tag.get_or_create_node cik.Bytes.Compare.compare_tags reserve_memory cik.Tag.write_node
    cik.Bytes.Compare.keys_are_equal cik.Memory.release_memory
list-matching_example =
    list-matching true (tag_x ∷ tag_y ∷ []) (record tagged { memory = second.1 }) matching_all.0
      matching_all.1 released.1 refl refl (omega arith, omega arith, tt) refl
