-- ===== src/Stats.antt =====
-- The tables of statistics: write_entry_stats of src/entry.c, write_tag_stats of src/tag.c,
-- write_memory_stats of src/memory.c, write_client_stats of src/server.c. A row is its values, a
-- text by its bytes; `none` is a crash of the code.
pub mod Unchanged
use cik.Prelude.{
  ℕ, ◌+◌, ◌-◌, ◌/◌, ◌%◌, ◌^◌, Bool, true, false, Option, none, some, List, [], ◌∷◌, ◌++◌, length,
  ltb, if◌then◌else◌,
}
use cik.Bytes.{Bytes}
use cik.Memory.{Memory, Partition, max_total_memory}
use cik.Entry.{CacheEntry, EntryMap, walk_entries}
use cik.Tag.{TagNode, null, node}
use cik.Log.Print.{key2str}
use cik.World.{ClientCounters}
use cik.Server.Connections.{Client}

-- A difference of two times, and whether it is below 0.
abbrev pub difference : ℕ → ℕ → Bool × ℕ
difference a b = if ltb a b then (true, b - a) else (false, a - b)

-- Hits, size, tags, age, time to live (`none` for CACHE_EXPIRES_INIT), map and key.
pub record EntryRow : Type 0 where
  pub hits : ℕ
  pub size : ℕ
  pub tags : ℕ
  pub age : Bool × ℕ
  pub ttl : Option (Bool × ℕ)
  pub map : ℕ
  pub key : Bytes

-- It never asks for the entry to be taken out.
unfoldable pub write_entry_stats_cb :
    ℕ → ℕ → CacheEntry → List EntryRow → Option (Bool × List EntryRow)
unfolding key2str
write_entry_stats_cb now map_index e rows = elim (key2str e.key 0 (length e.key)) [
  | none ↦ none
  | some text ↦ some (
    false,
    rows
        ++ (record {
          hits = e.nhits;
          size = length e.value;
          tags = length e.tags;
          age = difference now e.mtime;
          ttl = elim e.expires [ none ↦ none | some t ↦ some (difference t now) ];
          map = map_index;
          key = text;
        }
            ∷ []),
  )
]

-- `for (i = 0; i < nmaps; ++i)`, from a map on.
unfoldable pub write_entry_stats :
    ℕ → ℕ → List EntryMap → List EntryRow → Option (List EntryMap × List EntryRow)
unfolding write_entry_stats_cb
write_entry_stats now i [] rows = some ([], rows)
write_entry_stats now i (map ∷ maps) rows =
    elim (walk_entries (write_entry_stats_cb now i) map rows) [
      | none ↦ none
      | some (map', rows') ↦ elim (write_entry_stats now (i + 1) maps rows') [
        | none ↦ none
        | some (maps', rows'') ↦ some (map' ∷ maps', rows'')
      ]
    ]

-- `num_keys`, depth and tag; and the report of a tree that is too deep.
pub data TagRow : Type 0 where
  row : ℕ → ℕ → Bytes → TagRow
  too_deep : TagRow

-- Beyond `MAX_DEBUG_TAG_DEPTH` = 1024 a subtree is left out.
unfoldable pub write_tag_tree_stats : TagNode → ℕ → Option (List TagRow)
unfolding key2str
write_tag_tree_stats null depth = some []
write_tag_tree_stats (node a t keys n left right) depth =
    let lefts = write_tag_tree_stats left (depth + 1) in
    let rights = write_tag_tree_stats right (depth + 1) in
    if ltb 1024 depth then some (too_deep ∷ []) else elim (key2str t 0 (length t)) [
      | none ↦ none
      | some text ↦ elim lefts [
        | none ↦ none
        | some ls ↦ elim rights [ none ↦ none | some rs ↦ some (row n depth text ∷ (ls ++ rs)) ]
      ]
    ]

-- The root itself is left out.
unfoldable pub write_tag_stats : TagNode → Option (List TagRow)
unfolding write_tag_tree_stats
write_tag_stats null = none
write_tag_stats (node a t keys n left right) = elim (write_tag_tree_stats left 1) [
  | none ↦ none
  | some ls ↦ elim (write_tag_tree_stats right 1) [ none ↦ none | some rs ↦ some (ls ++ rs) ]
]

pub record MemoryRow : Type 0 where
  pub size : ℕ
  pub used : ℕ
  pub free : ℕ
  pub reused : ℕ
  pub available : ℕ

memory_rows : ℕ → List Partition → List MemoryRow
memory_rows left [] = []
memory_rows left (p ∷ ps) =
    record {
      size = p.size;
      used = p.num_used;
      free = p.num_free;
      reused = p.num_reused;
      available = left / p.size;
    }
    ∷ memory_rows left ps

-- `memory_used` is a u32, the cursor behind the start of the memory.
unfoldable pub write_memory_stats : Memory → List MemoryRow
unfolding memory_rows
write_memory_stats m =
    let memory_used = (m.memory_cursor + 2 ^ 64 - m.main_memory) % 2 ^ 32 in
    memory_rows (if ltb memory_used max_total_memory then max_total_memory - memory_used else 0)
      m.partitions

-- The counters of the clients that are open, with their fd; the times and the host are left out.
unfoldable pub write_client_stats : List Client → List (ClientCounters × ℕ)
write_client_stats [] = []
write_client_stats (client ∷ clients) =
    let rest = write_client_stats clients in
    elim client.fd [ none ↦ rest | some fd ↦ (client.counters, fd) ∷ rest ]
