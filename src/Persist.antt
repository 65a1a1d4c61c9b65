-- ===== src/Persist.antt =====
-- The dump at the end of src/main.c: `write_entry_as_set_request_callback`.
pub mod Reads
pub mod Loading
pub mod Restored
pub mod Replayed
pub mod Dumped
use cik.Prelude.{
  ℕ, ◌^◌, ◌-◌, ◌%◌, Bool, true, false, List, [], ◌∷◌, ◌++◌, Option, none, some, length, ltb,
  if◌then◌else◌,
}
use cik.Bytes.{Bytes, reverse_block}
use cik.Entry.{CacheEntry, EntryMap}
use cik.World.{walk_maps}
use cik.Protocol.{be32}

-- `htonl (0xFFFFFFFF)`, or what is left of the entry's time.
unfoldable pub ttl_left : CacheEntry → ℕ → ℕ
ttl_left e now = elim e.expires [ none ↦ 2 ^ 32 - 1 | some t ↦ (t - now) % 2 ^ 32 ]

-- The 16 bytes of the request.
unfoldable pub set_header : CacheEntry → ℕ → Bytes
unfolding be32 ttl_left
set_header e now =
    0x43
    ∷ 0x69
    ∷ 0x4B
    ∷ 0x73
    ∷ (length e.key % 256)
    ∷ (length e.tags % 256)
    ∷ 0
    ∷ 0
    ∷ (be32 (length e.value) ++ be32 (ttl_left e now))

-- A length byte and the tag in its own byte order, for each tag.
unfoldable pub write_tags : List Bytes → Option Bytes
write_tags [] = some []
write_tags (tag ∷ tags) = elim (reverse_block tag) [
  | none ↦ none
  | some text ↦ elim (write_tags tags) [
    | none ↦ none
    | some rest ↦ some ((length tag % 256) ∷ (text ++ rest))
  ]
]

unfoldable pub write_body : CacheEntry → ℕ → Option Bytes
unfolding write_tags set_header
write_body e now = elim (reverse_block e.key) [
  | none ↦ none
  | some key ↦ elim (write_tags e.tags) [
    | none ↦ none
    | some tags ↦ some (set_header e now ++ (key ++ (tags ++ e.value)))
  ]
]

-- The file grows by the request; an entry that has expired is left out and kept in the map.
unfoldable pub write_entry_as_set_request_callback : ℕ → CacheEntry → Bytes → Option (Bool × Bytes)
unfolding write_body
write_entry_as_set_request_callback now e file =
    if (elim e.expires [ none ↦ false | some t ↦ ltb t now ])
    then some (false, file)
    else elim (write_body e now) [ none ↦ none | some bs ↦ some (true, file ++ bs) ]

-- The loop over the maps at the end of `main`, with the file truncated to nothing before.
unfoldable pub persist_entries : ℕ → List EntryMap → Option (List EntryMap × Bytes)
unfolding write_entry_as_set_request_callback walk_maps
persist_entries now maps = walk_maps (write_entry_as_set_request_callback now) maps []
