-- ===== src/Controller/Set.antt =====
-- `handle_set_request` of src/controller.c, with `reserve_and_lock_entry` of src/memory.c.
use cik.Prelude.{
  ℕ, ◌+◌, ◌*◌, ◌-◌, ◌%◌, ◌^◌, List, [], ◌∷◌, Option, none, some, length, get_elem?, ltb, bit_and,
  ◌==◌, if◌then◌else◌, not,
}
use cik.Bytes.{Bytes}
use cik.Memory.{Memory, add32, reserve_memory, partition_of}
use cik.Tag.{add_key_to_tag, remove_key_from_tag}
use cik.Entry.{
  CacheEntry, cache_entry_init, lock_and_get_cache_entry, write_entry, set_locked_cache_entry,
}
use cik.Log.{set_key}
use cik.Protocol.{
  StatusCode, Request, byte_at, be32_at, status_ok, status_not_found, status_out_of_memory,
}
use cik.Stream.{read_request_payload}
use cik.World.{
  Exec, ok, crash, pure, fail, gets, modify, log_key, get_map_for_key, put_map_for_key, on_tags,
  release, ◌>>=◌, ◌>>◌,
}
use cik.Controller.Reading.{read_request_key, read_tags_using_payload_buffer}

abbrev set_flag_only_ttl : ℕ
set_flag_only_ttl = 0x01

-- sizeof (CacheEntry) and sizeof (CacheTag).
abbrev pub entry_size : ℕ
entry_size = 72

abbrev pub tag_size : ℕ
tag_size = 16

abbrev pub sum_lengths : List Bytes → ℕ
sum_lengths [] = 0
sum_lengths (tag ∷ tags) = length tag + sum_lengths tags

-- `tlen + key.nmemb + vlen`: a sum of 32-bit numbers, before it goes to a size_t.
unfoldable pub total_size : List Bytes → ℕ → ℕ → ℕ
total_size tags klen vlen = (length tags * tag_size + sum_lengths tags + klen + vlen) % 2 ^ 32

-- `reserve_and_lock_entry`.
unfoldable pub reserve_and_lock_entry : ℕ → Exec (Option CacheEntry)
reserve_and_lock_entry payload_size w =
    let (found, m) = reserve_memory (entry_size + payload_size) w.memory in
    ok (elim found [ none ↦ none | some address ↦ some (cache_entry_init address w.now) ])
      (record w { memory = m })

-- The size of the bucket at an address.
unfoldable pub bucket_capacity : Memory → ℕ → ℕ
unfolding partition_of
bucket_capacity m address = elim (partition_of address m.buckets) [
  | none ↦ 0
  | some i ↦ elim (get_elem? m.partitions i) [ none ↦ 0 | some p ↦ p.size ]
]

-- If the value did not arrive, the new entry is released.
unfoldable pub value_status : StatusCode → CacheEntry → Bytes → Exec Bytes
unfolding release
value_status s e bs = elim s [ status_ok ↦ pure bs | other ↦ do release e.address; fail other ]

-- `read_request_payload (client, entry->value.base, vlen)`. What is copied and read goes behind
-- the entry in its bucket: a crash if it does not fit.
unfoldable pub read_value : CacheEntry → List Bytes → Bytes → ℕ → Exec Bytes
unfolding bucket_capacity value_status
read_value e tags key vlen w =
    let r = read_request_payload w.input vlen in
    let written =
      entry_size + length tags * tag_size + sum_lengths tags + length key + length r.bytes in
    if ltb (bucket_capacity w.memory e.address) written
    then crash
    else value_status r.status e r.bytes (record w { input = r.rest })

-- `for (t = 0; t < tags.nmemb; ++t)` over the two operations of the tag index.
unfoldable pub add_key_to_tags : List Bytes → Bytes → Exec (Unit {0})
unfolding on_tags
add_key_to_tags [] key = pure tt
add_key_to_tags (tag ∷ tags) key = do on_tags (add_key_to_tag tag key); add_key_to_tags tags key

unfoldable pub remove_key_from_tags : List Bytes → Bytes → Exec (Unit {0})
unfolding on_tags
remove_key_from_tags [] key = pure tt
remove_key_from_tags (tag ∷ tags) key = do
  on_tags (remove_key_from_tag tag key)
  remove_key_from_tags tags key

-- `ttl == (u32) -1` means no expiry.
unfoldable pub expiry : ℕ → ℕ → Option ℕ
expiry now ttl = if ttl == 2 ^ 32 - 1 then none else some (now + ttl)

renew_ttl : Bytes → ℕ → Exec (Unit {0})
unfolding get_map_for_key put_map_for_key expiry write_entry
renew_ttl key ttl = do
  map ← get_map_for_key key
  elim (lock_and_get_cache_entry map key) [
    | none ↦ fail status_not_found
    | some (pos, e) ↦ do
      now ← gets (λ w. w.now)
      put_map_for_key key (write_entry map pos (record e { expires = expiry now ttl }))
  ]

-- The old entry leaves the tag index and is released.
unfoldable pub discard : Option CacheEntry → Exec (Unit {0})
unfolding remove_key_from_tags release
discard none = pure tt
discard (some old) = do remove_key_from_tags old.tags old.key; release old.address

-- From `set_locked_cache_entry` on.
unfoldable pub install : CacheEntry → Exec (Unit {0})
unfolding get_map_for_key put_map_for_key release discard add_key_to_tags
install e = do
  map ← get_map_for_key e.key
  elim (set_locked_cache_entry map e) [
    | none ↦ do release e.address; fail status_out_of_memory
    | some (map', old) ↦ do put_map_for_key e.key map'; discard old; add_key_to_tags e.tags e.key
  ]

unfoldable pub store_entry : Bytes → List Bytes → ℕ → ℕ → CacheEntry → Exec (Unit {0})
unfolding read_value expiry install
store_entry key tags vlen ttl e = do
  value ← read_value e tags key vlen
  now ← gets (λ w. w.now)
  install
      (record e { key = key; tags = tags; value = value; mtime = now; expires = expiry now ttl })

unfoldable pub handle_set_request : Request → Exec (Unit {0})
unfolding read_request_key read_tags_using_payload_buffer log_key renew_ttl store_entry total_size
    reserve_and_lock_entry
handle_set_request request =
    let vlen = be32_at 8 request in
    let ttl = be32_at 12 request in
    do
      key ← read_request_key (byte_at 4 request)
      modify (λ w. record w { counters = record w.counters { set = add32 w.counters.set 1 } })
      log_key set_key key
      if not (bit_and (byte_at 6 request) set_flag_only_ttl == 0) then renew_ttl key ttl else do
        tags ← read_tags_using_payload_buffer (byte_at 5 request)
        reserved ← reserve_and_lock_entry (total_size tags (length key) vlen)
        elim reserved [
          | none ↦ fail status_out_of_memory
          | some e ↦ store_entry key tags vlen ttl e
        ]
