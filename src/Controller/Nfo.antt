-- ===== src/Controller/Nfo.antt =====
-- `handle_nfo_request` of src/controller.c.
use cik.Prelude.{
  ℕ, ◌+◌, ◌-◌, ◌%◌, ◌^◌, List, [], ◌∷◌, ◌++◌, Option, none, some, length, ltb, ◌==◌, if◌then◌else◌,
}
use cik.Bytes.{Bytes}
use cik.Memory.{add32, populate_nfo_response}
use cik.Entry.{lock_and_get_cache_entry}
use cik.Log.{nfo, nfo_key}
use cik.Protocol.{Request, byte_at, be32, be64, status_not_found, status_bug}
use cik.World.{
  Exec, worker_buffer, pure, fail, gets, modify, store, reversed, log_no_args, log_key,
  get_map_for_key, ◌>>=◌, ◌>>◌,
}
use cik.Controller.Reading.{read_request_key}

-- A time_t as 64 bits: `CACHE_EXPIRES_INIT` is -1.
time_bits : Option ℕ → ℕ
time_bits none = 2 ^ 64 - 1
time_bits (some t) = t % 2 ^ 64

-- The loop over the entry's tags, behind the 16 bytes of the two times.
unfoldable pub write_tags : List Bytes → Exec (Unit {0})
unfolding reversed
write_tags [] = pure tt
write_tags (tag ∷ tags) = do
  buffer ← gets (λ w. w.buffer)
  if ltb buffer.cap (buffer.nmemb + 1 + length tag) then fail status_bug else do
    text ← reversed tag
    modify (store buffer.nmemb ((length tag % 256) ∷ text))
    modify (λ w. record w { buffer = record w.buffer { nmemb = buffer.nmemb + 1 + length tag } })
    write_tags tags

nfo_entry : ℕ → Exec (Unit {0})
unfolding read_request_key log_key get_map_for_key time_bits be64 write_tags
nfo_entry klen = do
  key ← read_request_key klen
  log_key nfo_key key
  map ← get_map_for_key key
  elim (lock_and_get_cache_entry map key) [
    | none ↦ fail status_not_found
    | some (pos, e) ↦ do
      modify (store 0 (be64 (time_bits e.expires) ++ be64 e.mtime))
      write_tags e.tags
  ]

nfo_server : Exec (Unit {0})
unfolding log_no_args populate_nfo_response be32
nfo_server = do
  log_no_args nfo
  info ← gets (λ w. populate_nfo_response w.memory)
  modify (
      store 0 (
        be32 info.bytes_reserved
        ++ (be32 info.bytes_used ++ (be32 info.bytes_free ++ be32 info.bytes_reused))))

-- The response payload is set before anything is read or looked up. sizeof (*nfo) = 16.
unfoldable pub handle_nfo_request : Request → Exec (Unit {0})
unfolding nfo_entry nfo_server
handle_nfo_request request = do
  modify (λ w. record w {
    buffer = record w.buffer { nmemb = 16 };
    response = worker_buffer;
    counters = record w.counters { nfo = add32 w.counters.nfo 1 };
  })
  let klen = byte_at 4 request
  if klen == 0 then nfo_server else nfo_entry klen
