-- ===== src/Controller/Del.antt =====
-- `delete_entry_by_key` and `handle_del_request` of src/controller.c.
use cik.Prelude.{ℕ, zero, suc, Option, none, some, length}
use cik.Bytes.{Bytes}
use cik.Memory.{add32}
use cik.Entry.{CacheEntry, lock_and_unset_cache_entry}
use cik.Log.{del_key}
use cik.Protocol.{Request, byte_at, status_not_found}
use cik.World.{
  Exec, pure, fail, crashed, modify, log_key, get_map_for_key, put_map_for_key, release, ◌>>=◌,
  ◌>>◌,
}
use cik.Controller.Reading.{read_request_key}
use cik.Controller.Set.{remove_key_from_tags}

-- `lock_and_unset_cache_entry (get_map_for_key (key), key)`.
unfoldable pub unset_entry : Bytes → Exec (Option CacheEntry)
unfolding get_map_for_key put_map_for_key
unset_entry key = do
  map ← get_map_for_key key
  put_map_for_key key (lock_and_unset_cache_entry map key).1
  pure (lock_and_unset_cache_entry map key).0

-- The do-while loop: the map may hold the key more than once. Each round frees a slot, so one
-- round more than the map has slots is fuel enough; out of fuel the loop would go on.
unfoldable pub release_all : ℕ → CacheEntry → Bytes → Exec (Unit {0})
unfolding unset_entry release
release_all zero e key = crashed
release_all (suc fuel) e key = do
  release e.address
  next ← unset_entry key
  elim next [ none ↦ pure tt | some e' ↦ release_all fuel e' key ]

unfoldable pub delete_entry_by_key : Bytes → Exec (Unit {0})
unfolding log_key unset_entry remove_key_from_tags release_all
delete_entry_by_key key = do
  log_key del_key key
  map ← get_map_for_key key
  found ← unset_entry key
  elim found [
    | none ↦ fail status_not_found
    | some e ↦ do remove_key_from_tags e.tags e.key; release_all (suc (length map)) e key
  ]

unfoldable pub handle_del_request : Request → Exec (Unit {0})
unfolding read_request_key delete_entry_by_key
handle_del_request request = do
  key ← read_request_key (byte_at 4 request)
  modify (λ w. record w { counters = record w.counters { del = add32 w.counters.del 1 } })
  delete_entry_by_key key
