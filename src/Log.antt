-- ===== src/Log.antt =====
-- The request log of src/log.c: the single-producer ring of a worker and the entries put on it.
pub mod Mask
pub mod Ring
pub mod Print
pub mod Flush
pub mod Blocks
pub mod Packed
pub mod Fifo
use cik.Prelude.{
  ◌^◌, ◌-◌, ℕ, ◌+◌, ◌%◌, Bool, true, false, List, [], ◌∷◌, ◌++◌, Option, none, some, length,
  get_elem?, set, take, drop, replicate, ltb, bit_and, ◌==◌, if◌then◌else◌,
}
use cik.Bytes.{Bytes}

-- `LogEntryType` of src/types.h.
pub data LogEntryType : Type 0 where
  get_hit get_miss set_key del_key : LogEntryType
  clr_all clr_old clr_match_none clr_match_all clr_match_any : LogEntryType
  lst_all_keys lst_all_tags lst_match_none lst_match_all lst_match_any : LogEntryType
  nfo nfo_key string : LogEntryType

-- `data` is 0x100 bytes long.
pub record LogEntry : Type 0 where
  pub type : LogEntryType
  pub worker_id : ℕ
  pub client_ip : ℕ
  pub client_port : ℕ
  pub payload : Bytes

-- `none` in `elems` is an element that nobody has written.
pub record LogQueue : Type 0 where
  pub mask : ℕ
  pub read : ℕ
  pub write : ℕ
  pub elems : List (Option LogEntry)

-- `LOG_QUEUE_INIT` at `NUM_LOG_QUEUE_ELEMS` = n, a power of two (0x100 in src/config.h).
unfoldable pub log_queue_init : ℕ → LogQueue
log_queue_init n = record {
  mask = (n + 2 ^ 32 - 1) % 2 ^ 32;
  read = 0;
  write = 0;
  elems = replicate n none;
}

unfoldable pub enqueue_log_entry : LogQueue → LogEntry → Bool × LogQueue
enqueue_log_entry q e = if bit_and (q.write + 1) q.mask == q.read then (false, q) else (
  true,
  record q { elems = set q.elems q.write (some e); write = bit_and (q.write + 1) q.mask },
)

-- The entry that goes through the out parameter is `none` if there is none to take.
unfoldable pub dequeue_log_entry : LogQueue → Bool × Option LogEntry × LogQueue
dequeue_log_entry q = if q.read == q.write then (false, none, q) else (
  true,
  elim (get_elem? q.elems q.read) [ none ↦ none | some slot ↦ slot ],
  record q { read = bit_and (q.read + 1) q.mask },
)

-- Writing `bs` at an offset of a block.
abbrev pub splice : ℕ → Bytes → Bytes → Bytes
splice offset bs block = take offset block ++ (bs ++ drop (offset + length bs) block)

-- The tag loop of `log_request_with_tags`: `nmemb` is a u8, and wraps when the block is full.
unfoldable pub pack_tags : Bytes → ℕ → List Bytes → Bytes
pack_tags block nmemb [] = block
pack_tags block nmemb (tag ∷ tags) =
    let rest =
      pack_tags (splice ((nmemb + 1) % 256) tag (splice nmemb (length tag ∷ []) block))
        (((nmemb + 1) % 256 + length tag) % 256) tags in
    if ltb 0x100 (nmemb + 1 + length tag) then block else rest

-- The client's address and the worker's id, as each log function reads them.
pub record LogSource : Type 0 where
  pub worker_id : ℕ
  pub client_ip : ℕ
  pub client_port : ℕ

log_entry_from : LogEntryType → LogSource → Bytes → LogEntry
log_entry_from type s payload = record {
  type = type;
  worker_id = s.worker_id;
  client_ip = s.client_ip;
  client_port = s.client_port;
  payload = payload;
}

unfoldable pub log_request_with_no_args : LogEntryType → LogSource → LogQueue → LogQueue
unfolding log_entry_from enqueue_log_entry
log_request_with_no_args type s q =
    (enqueue_log_entry q (log_entry_from type s (replicate 0x100 0))).1

unfoldable pub log_request_with_key : LogEntryType → LogSource → Bytes → LogQueue → LogQueue
unfolding log_entry_from enqueue_log_entry
log_request_with_key type s key q =
    (enqueue_log_entry q
      (log_entry_from type s (splice 0 ((length key % 256) ∷ key) (replicate 0x100 0)))).1

unfoldable pub log_request_with_tags : LogEntryType → LogSource → List Bytes → LogQueue → LogQueue
unfolding log_entry_from enqueue_log_entry pack_tags
log_request_with_tags type s tags q =
    (enqueue_log_entry q (log_entry_from type s (pack_tags (replicate 0x100 0) 0 tags))).1
