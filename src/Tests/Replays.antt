-- ===== src/Tests/Replays.antt =====
-- Witnesses for the dump of the entries and their replay.
use cik.Prelude.{
  subst, some, List, ℕ, zero, suc, ◌≡◌, ◌≢◌, length, get_elem?, replicate, refl, [], ◌∷◌, ◌++◌, ◌<◌,
  arith,
}
use mathlib.Core.Option
use cik.Bytes.{Bytes}
use cik.World.{World, Outcome, ok, stop, crash, null_payload}
use cik.Memory.{Memory, reserve_memory}
use cik.Memory.Buckets.{count}
use cik.Entry.{EntryMap, CacheEntry, used, free, get_key_hash}
use cik.Stream.{chunk}
use cik.Protocol.{Request}
use cik.Controller.{handle_request}
use cik.Controller.Stored.{lookup}
use cik.Server.{load_request_log}
use cik.Persist.{set_header, persist_entries}
use cik.Persist.Loading.{saved_bytes}
use cik.Persist.Restored.{AreLive, IsReplayable}
use cik.Persist.Replayed.{behind_header, replayed, saved_entry_replayed}
use cik.Persist.Dumped.{persist_entries-saved_maps}
use cik.Tests.Data.{key_a, entry_a, empty_map, world, new_memory}
use cik.Tests.Buckets.{new_memory-IsMemory, new_memory-HasRoom}
use cik.Tests.Saved.{saved}

abbrev two_maps : List EntryMap
two_maps =
    (used (get_key_hash key_a) saved ∷ free ∷ [])
    ∷ (free ∷ used (get_key_hash key_a) (entry_a 100) ∷ [])
    ∷ []

persist_entries-saved_maps_example :
    persist_entries 10 two_maps
    ≡ some (
      (free ∷ free ∷ []) ∷ (free ∷ used (get_key_hash key_a) (entry_a 100) ∷ []) ∷ [],
      saved_bytes saved 10,
    )
unfolding cik.Controller.Cleared.drop_slot set_header
persist_entries-saved_maps_example = persist_entries-saved_maps 10 two_maps (
  (
    (
      omega arith,
      omega arith,
      (4, (omega arith, omega arith, omega arith, (omega arith, omega arith, omega arith, tt))),
    ),
    tt,
  ),
  (((omega arith, omega arith, (0, tt)), tt), tt),
)

abbrev loading : World
loading = world (empty_map ∷ []) [] (chunk (saved_bytes saved 10 ++ (9 ∷ [])) ∷ []) null_payload

abbrev reserved : Memory
reserved = (reserve_memory 111 new_memory).1

no_entry : (p h : ℕ) (x : CacheEntry) → get_elem? empty_map p ≢ some (used h x)
no_entry zero h x e = cc
no_entry (suc zero) h x e = cc
no_entry (suc (suc zero)) h x e = cc
no_entry (suc (suc (suc zero))) h x e = cc
no_entry (suc (suc (suc (suc p)))) h x e = cc

empty_map-AreLive : AreLive (empty_map ∷ []) []
empty_map-AreLive zero map at =
    let same : empty_map ≡ map = ground (arith, at) in
    subst
      (λ (t : EntryMap).
        (0 < length t)
        × ((p h : ℕ) (x : CacheEntry) → get_elem? t p ≡ some (used h x) → 0 < count x.address []))
      same (omega arith, λ p h x here. absurd (no_entry p h x here))
empty_map-AreLive (suc i) map at = cc

loading-IsReplayable : IsReplayable saved loading [] 0x10420 reserved
unfolding reserve_memory cik.Controller.Set.total_size
loading-IsReplayable = record {
  key_pos = omega arith;
  key_short = omega arith;
  tags_few = omega arith;
  value_small = omega arith;
  tags_fit = (omega arith, omega arith, omega arith, (omega arith, omega arith, omega arith, tt));
  sizes = omega arith;
  memory = new_memory-IsMemory;
  room = new_memory-HasRoom;
  entries = empty_map-AreLive;
  bucket = refl;
}

abbrev zeros : Request
zeros = replicate 16 0

abbrev world_of : Outcome Unit → World
world_of (ok u w) = w
world_of (stop s w) = w
world_of crash = loading

abbrev loaded : World
loaded = world_of (handle_request (set_header saved 10) (behind_header saved (9 ∷ []) loading))

saved_entry_replayed_example :
    (load_request_log 2 zeros loading ≡ load_request_log 1 (set_header saved 10) loaded)
    × ((p : ℕ) × (lookup loaded saved.key ≡ some (p, replayed saved 10 loading 0x10420)))
    × ((q : Bytes) → q ≢ saved.key → lookup loaded q ≡ lookup loading q)
unfolding handle_request cik.Protocol.has_control_bytes set_header
    cik.Controller.Set.handle_set_request cik.Stream.read_request_payload cik.Bytes.reverse_block
    Option.bind reserve_memory cik.Entry.set_locked_cache_entry get_key_hash cik.Tag.add_key_to_tag
    cik.Tag.get_or_create_node cik.Tag.get_tag_if_exists cik.Bytes.Compare.compare_tags
    cik.Tag.write_node
saved_entry_replayed_example =
    saved_entry_replayed saved 10 1 (9 ∷ []) zeros loading loaded [] 0x10420 reserved
      loading-IsReplayable (omega arith, omega arith) refl refl refl
