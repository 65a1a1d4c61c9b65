-- ===== src/World.antt =====
-- What a request is served on: the program's globals (src/memory.c, src/tag.c), the client and its
-- worker (src/types.h), and the actions over them that src/controller.c is written in.
use cik.Prelude.{
  ◌*◌, ℕ, ◌+◌, ◌%◌, Bool, List, [], ◌∷◌, Option, none, some, length, get_elem?, set, take, leb,
  if◌then◌else◌,
}
use cik.Bytes.{Bytes, reverse_block}
use cik.Memory.{Memory, release_memory}
use cik.Entry.{CacheEntry, EntryMap, walk_entries}
use cik.Tag
use cik.Tag.{TagNode}
use cik.Log.{
  LogQueue, LogSource, LogEntryType, log_request_with_no_args, log_request_with_key,
  log_request_with_tags, splice,
}
use cik.Protocol.{StatusCode, status_ok}
use cik.Stream.{Incoming, Sending, Received, read_request_payload}

pub record Payload : Type 0 where
  pub base : Bytes
  pub nmemb : ℕ
  pub cap : ℕ

-- `counters` of Client, 32 bits wide.
pub record ClientCounters : Type 0 where
  pub get_hit : ℕ
  pub get_miss : ℕ
  pub set : ℕ
  pub del : ℕ
  pub clr : ℕ
  pub lst : ℕ
  pub nfo : ℕ

-- `counters` (32 bits) or `timers` (64 bits) of Worker.
pub record PerCommand : Type 0 where
  pub get : ℕ
  pub set : ℕ
  pub del : ℕ
  pub clr : ℕ
  pub lst : ℕ
  pub nfo : ℕ

-- What `*response_payload` points to: NULL, the worker's buffer, or a Payload on the stack of a
-- function that has returned.
pub data PayloadRef : Type 0 where
  null_payload worker_buffer stack_payload : PayloadRef

-- `maps` holds the NUM_CACHE_ENTRY_MAPS maps of CACHE_ENTRY_MAP_SIZE slots each. `now` is what
-- time (NULL) returns while the request is served, `ticks` the difference of the two readings of
-- the performance counter. `is_open` is `fd != -1`.
pub record World : Type 0 where
  pub maps : List EntryMap
  pub tags : TagNode
  pub memory : Memory
  pub source : LogSource
  pub counters : ClientCounters
  pub is_open : Bool
  pub buffer : Payload
  pub log_queue : LogQueue
  pub worker_counters : PerCommand
  pub worker_timers : PerCommand
  pub response : PayloadRef
  pub input : List Incoming
  pub sends : List Sending
  pub output : Bytes
  pub now : ℕ
  pub ticks : ℕ

-- A call returns, returns early with a status, or crashes: an access outside an object, a NULL or
-- dangling pointer.
pub data Outcome (A : Type 0) : Type 0 where
  ok : A → World → Outcome A
  stop : StatusCode → World → Outcome A
  crash : Outcome A

abbrev pub Exec : Type 0 → Type 0
Exec A = World → Outcome A

abbrev pub pure : {A : Type 0} → A → Exec A
pure a w = ok a w

-- `return status`.
abbrev pub fail : {A : Type 0} → StatusCode → Exec A
fail s w = stop s w

abbrev pub crashed : {A : Type 0} → Exec A
crashed w = crash

abbrev pub and_then : {A B : Type 0} → Outcome A → (A → Exec B) → Outcome B
and_then (ok a w) f = f a w
and_then (stop s w) f = stop s w
and_then crash f = crash

infixl 5 ◌>>=◌ ◌>>◌
abbrev pub ◌>>=◌ : {A B : Type 0} → Exec A → (A → Exec B) → Exec B
◌>>=◌ m f w = and_then (m w) f

abbrev pub ◌>>◌ : {B : Type 0} → Exec (Unit {0}) → Exec B → Exec B
m >> k = m >>= λ _. k

abbrev pub gets : {A : Type 0} → (World → A) → Exec A
gets f w = ok (f w) w

abbrev pub modify : (World → World) → Exec (Unit {0})
modify f w = ok tt (f w)

-- A call whose status nobody looks at.
unfoldable pub ignore : Exec (Unit {0}) → Exec (Unit {0})
ignore m w = elim (m w) [ ok a w' ↦ ok tt w' | stop s w' ↦ ok tt w' | crash ↦ crash ]

-- An action of the tag index on the tree and the memory.
unfoldable pub on_tags : (TagNode → Tag.M TagNode) → Exec (Unit {0})
on_tags f w = elim (f w.tags w.memory) [
  | none ↦ crash
  | some (tree, m) ↦ ok tt (record w { tags = tree; memory = m })
]

-- One that reads the tree and returns a result.
unfoldable pub from_tags : {A : Type 0} → (TagNode → Tag.M A) → Exec A
from_tags f w = elim (f w.tags w.memory) [
  | none ↦ crash
  | some (a, m) ↦ ok a (record w { memory = m })
]

unfoldable pub release : ℕ → Exec (Unit {0})
release address w = elim (release_memory address w.memory) [
  | none ↦ crash
  | some m ↦ ok tt (record w { memory = m })
]

unfoldable pub finish_read : Received → Exec Bytes
finish_read r w = elim r.status [
  | status_ok ↦ ok r.bytes (record w { input = r.rest })
  | s ↦ stop s (record w { input = r.rest })
]

-- `read_request_payload` into memory of the caller's own.
unfoldable pub read_bytes : ℕ → Exec Bytes
unfolding finish_read
read_bytes nmemb w = finish_read (read_request_payload w.input nmemb) w

abbrev pub store : ℕ → Bytes → World → World
store offset bs w = record w { buffer = record w.buffer { base = splice offset bs w.buffer.base } }

-- The same into the payload buffer, at an offset; what arrives before an error is stored too.
unfoldable pub read_into_buffer : ℕ → ℕ → Exec Bytes
unfolding finish_read
read_into_buffer offset nmemb w =
    let r = read_request_payload w.input nmemb in finish_read r (store offset r.bytes w)

-- `reverse_bytes` on exactly the bytes of a key or tag.
unfoldable pub reversed : Bytes → Exec Bytes
reversed bs w = elim (reverse_block bs) [ none ↦ crash | some bs' ↦ ok bs' w ]

unfoldable pub log_no_args : LogEntryType → Exec (Unit {0})
log_no_args type w =
    ok tt (record w { log_queue = log_request_with_no_args type w.source w.log_queue })

unfoldable pub log_key : LogEntryType → Bytes → Exec (Unit {0})
log_key type key w =
    ok tt (record w { log_queue = log_request_with_key type w.source key w.log_queue })

unfoldable pub log_tags : LogEntryType → List Bytes → Exec (Unit {0})
log_tags type tags w =
    ok tt (record w { log_queue = log_request_with_tags type w.source tags w.log_queue })

-- `*(uN *) base` on a little-endian machine.
abbrev pub le_word : Bytes → ℕ
le_word [] = 0
le_word (b ∷ bs) = b + 0x100 * le_word bs

-- The map index of `get_map_for_key`, of `n` maps.
unfoldable pub map_index : Bytes → ℕ → ℕ
map_index key n =
    if leb 8 (length key)
    then le_word (take 8 key) % n
    else if leb 4 (length key)
    then le_word (take 4 key) % n
    else if leb 2 (length key)
    then le_word (take 2 key) % n
    else if leb 1 (length key)
    then le_word (take 1 key) % n
    else 0

unfoldable pub get_map_for_key : Bytes → Exec EntryMap
unfolding map_index
get_map_for_key key w = elim (get_elem? w.maps (map_index key (length w.maps))) [
  | none ↦ crash
  | some map ↦ ok map w
]

-- What a call wrote to the map of a key.
unfoldable pub put_map_for_key : Bytes → EntryMap → Exec (Unit {0})
put_map_for_key key map w =
    ok tt (record w { maps = set w.maps (map_index key (length w.maps)) map })

unfoldable pub walk_maps :
    {S : Type 0}
    → (CacheEntry → S → Option (Bool × S))
    → List EntryMap
    → S
    → Option (List EntryMap × S)
walk_maps callback [] s = some ([], s)
walk_maps callback (map ∷ maps) s = elim (walk_entries callback map s) [
  | none ↦ none
  | some (map', s') ↦ elim (walk_maps callback maps s') [
    | none ↦ none
    | some (maps', s'') ↦ some (map' ∷ maps', s'')
  ]
]

-- `walk_all_entries` with a callback on some data and the world; no callback looks at the maps.
unfoldable pub walk_all_entries :
    {S : Type 0} → (CacheEntry → S × World → Option (Bool × (S × World))) → S → Exec S
unfolding walk_maps
walk_all_entries callback s w = elim (walk_maps callback w.maps (s, w)) [
  | none ↦ crash
  | some (maps', r) ↦ ok r.0 (record r.1 { maps = maps' })
]
