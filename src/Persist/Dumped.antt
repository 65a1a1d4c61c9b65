-- ===== src/Persist/Dumped.antt =====
-- The dump of all entries at the end of src/main.c.
use cik.Prelude.{
  ℕ, ◌<◌, ◌≡◌, inl, inr, sym, ap, Bool, true, none, some, List, [], ◌∷◌, ◌++◌, append-nil,
  append_assoc, length, ltb, if◌then◌else◌, arith, Bool-cases, Option-cases,
}
use cik.Prelude.{map as each, not}
use cik.World.{walk_maps}
use cik.Bytes.{Bytes}
use cik.Entry.{EntryMap, CacheEntry, free, used, walk_slot, walk_entries}
use cik.Controller.Cleared.{drop_slot}
use cik.Persist.Reads.{Fit}
use cik.Persist.Loading.{saved_bytes, write_body-saved_bytes}
use cik.Persist.{write_entry_as_set_request_callback, persist_entries}

-- An entry that has not expired is written.
abbrev pub is_saved : ℕ → CacheEntry → Bool
is_saved now e = elim e.expires [ none ↦ true | some t ↦ not (ltb t now) ]

-- The key is from 1 to 255 bytes long, and so are the tags.
abbrev pub IsSavable : CacheEntry → Type 0
IsSavable e = (0 < length e.key) × (length e.key < 256) × ((room : ℕ) × Fit e.tags room)

abbrev pub AreSavable : EntryMap → Type 0
AreSavable [] = Unit
AreSavable (free ∷ map) = AreSavable map
AreSavable (used h e ∷ map) = IsSavable e × AreSavable map

abbrev pub AllSavable : List EntryMap → Type 0
AllSavable [] = Unit
AllSavable (map ∷ maps) = AreSavable map × AllSavable maps

-- The requests of the entries that are written, slot by slot and map by map.
abbrev pub saved_map : ℕ → EntryMap → Bytes
saved_map now [] = []
saved_map now (free ∷ map) = saved_map now map
saved_map now (used h e ∷ map) =
    if is_saved now e then saved_bytes e now ++ saved_map now map else saved_map now map

abbrev pub saved_maps : ℕ → List EntryMap → Bytes
saved_maps now [] = []
saved_maps now (map ∷ maps) = saved_map now map ++ saved_maps now maps

callback-saved_bytes :
    (now : ℕ) (e : CacheEntry) (file : Bytes)
    → IsSavable e
    → write_entry_as_set_request_callback now e file
      ≡ some (is_saved now e, if is_saved now e then file ++ saved_bytes e now else file)
unfolding write_entry_as_set_request_callback
callback-saved_bytes now e file (pos, short, (room, fit)) =
    let body = write_body-saved_bytes e now room pos short fit in
    elim (Option-cases e.expires) [
      | inl never ↦ ground (arith, never, body)
      | inr (t, at) ↦ elim (Bool-cases (ltb t now)) [
        | inl old ↦ ground (arith, at, old, body)
        | inr fresh ↦ ground (arith, at, fresh, body)
      ]
    ]

walk_slot-saved :
    (now n : ℕ) (e : CacheEntry) (file : Bytes)
    → IsSavable e
    → walk_slot (write_entry_as_set_request_callback now) (used n e) file
      ≡ some (
        drop_slot (is_saved now) (used n e),
        if is_saved now e then file ++ saved_bytes e now else file,
      )
unfolding walk_slot drop_slot
walk_slot-saved now n e file ok_sizes =
    let called = callback-saved_bytes now e file ok_sizes in
    elim (Bool-cases (is_saved now e)) [
      | inl live ↦ ground (arith, called, live)
      | inr dead ↦ ground (arith, called, dead)
    ]

walk_entries-saved_map :
    (now : ℕ) (map : EntryMap) (file : Bytes)
    → AreSavable map
    → walk_entries (write_entry_as_set_request_callback now) map file
      ≡ some (each (drop_slot (is_saved now)) map, file ++ saved_map now map)
unfolding walk_entries walk_slot drop_slot
walk_entries-saved_map now [] file ok_sizes = ap (λ t. some ([], t)) (sym (append-nil file))
walk_entries-saved_map now (free ∷ map) file ok_sizes =
    ground (arith, walk_entries-saved_map now map file ok_sizes)
walk_entries-saved_map now (used n e ∷ map) file (here, later) =
    let first = walk_slot-saved now n e file here in
    elim (Bool-cases (is_saved now e)) [
      | inl live ↦ ground (
        arith,
        first,
        live,
        walk_entries-saved_map now map (file ++ saved_bytes e now) later,
        append_assoc file (saved_bytes e now) (saved_map now map),
      )
      | inr dead ↦ ground (arith, first, dead, walk_entries-saved_map now map file later)
    ]

walk_maps-saved_maps :
    (now : ℕ) (maps : List EntryMap) (file : Bytes)
    → AllSavable maps
    → walk_maps (write_entry_as_set_request_callback now) maps file
      ≡ some (each (each (drop_slot (is_saved now))) maps, file ++ saved_maps now maps)
unfolding walk_maps
walk_maps-saved_maps now [] file ok_sizes = ap (λ t. some ([], t)) (sym (append-nil file))
walk_maps-saved_maps now (map ∷ maps) file (here, later) = ground (
  arith,
  walk_entries-saved_map now map file here,
  walk_maps-saved_maps now maps (file ++ saved_map now map) later,
  append_assoc file (saved_map now map) (saved_maps now maps),
)

-- If all keys and tags are from 1 to 255 bytes long, the dump at the end does not crash. The file
-- then holds the requests of the entries that have not expired, slot by slot and map by map, and
-- just those entries have left the maps.
pub persist_entries-saved_maps :
    (now : ℕ) (maps : List EntryMap)
    → AllSavable maps
    → persist_entries now maps
      ≡ some (each (each (drop_slot (is_saved now))) maps, saved_maps now maps)
unfolding persist_entries
persist_entries-saved_maps now maps sizes = walk_maps-saved_maps now maps [] sizes
