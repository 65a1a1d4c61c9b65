-- ===== src/Controller/Get.antt =====
-- `handle_get_request` of src/controller.c.
use cik.Prelude.{◌&&◌, ℕ, Bool, false, none, some, length, ltb, bit_and, ◌==◌, if◌then◌else◌}
use cik.Bytes.{Bytes}
use cik.Memory.{add32}
use cik.Entry.{CacheEntry, EntryMap, lock_and_get_cache_entry, write_entry}
use cik.Log.{get_hit, get_miss}
use cik.Protocol.{Request, byte_at, status_not_found, status_expired, status_bug}
use cik.World.{
  World, Exec, worker_buffer, fail, gets, modify, store, log_key, get_map_for_key, put_map_for_key,
  ◌>>=◌, ◌>>◌,
}
use cik.Controller.Reading.{read_request_key}

abbrev pub get_flag_ignore_expires : ℕ
get_flag_ignore_expires = 0x01

-- `log_request_get_miss` and the counter.
unfoldable pub miss : Bytes → Exec (Unit {0})
unfolding log_key
miss key = do
  log_key get_miss key
  modify (λ w. record w { counters = record w.counters { get_miss = add32 w.counters.get_miss 1 } })

-- Whether the entry has an expiry time that has passed.
unfoldable pub is_expired : CacheEntry → ℕ → Bool
is_expired e now = elim e.expires [ none ↦ false | some t ↦ ltb t now ]

-- The entry's value goes to the payload buffer, and `*response_payload` to the buffer.
unfoldable pub answer : CacheEntry → World → World
answer e w =
    if length e.value == 0
    then w
    else let stored = store 0 e.value w in
      record stored {
        buffer = record stored.buffer { nmemb = length e.value };
        response = worker_buffer;
      }

-- What is done with the entry found at a position of the map.
unfoldable pub serve_entry : Bytes → ℕ → EntryMap → ℕ × CacheEntry → Exec (Unit {0})
unfolding miss is_expired answer log_key put_map_for_key write_entry
serve_entry key flags map (pos, e) = do
  now ← gets (λ w. w.now)
  let checked = bit_and flags get_flag_ignore_expires == 0
  if checked && is_expired e now then (do miss key; fail status_expired) else do
    log_key get_hit key
    put_map_for_key key (write_entry map pos (record e { nhits = add32 e.nhits 1 }))
    modify (λ w. record w { counters = record w.counters { get_hit = add32 w.counters.get_hit 1 } })
    cap ← gets (λ w. w.buffer.cap)
    if ltb cap (length e.value) then fail status_bug else modify (answer e)

unfoldable pub handle_get_request : Request → Exec (Unit {0})
unfolding read_request_key serve_entry get_map_for_key lock_and_get_cache_entry
handle_get_request request = do
  key ← read_request_key (byte_at 4 request)
  map ← get_map_for_key key
  elim (lock_and_get_cache_entry map key) [
    | none ↦ do miss key; fail status_not_found
    | some found ↦ serve_entry key (byte_at 5 request) map found
  ]
