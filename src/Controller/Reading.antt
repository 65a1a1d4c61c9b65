-- ===== src/Controller/Reading.antt =====
-- `read_request_key` and `read_tags_using_payload_buffer` of src/controller.c.
use cik.Prelude.{length, ℕ, zero, suc, ◌+◌, ◌-◌, List, [], ◌∷◌, ltb, if◌then◌else◌}
use cik.Bytes.{Bytes}
use cik.Protocol.{status_out_of_memory, byte_at}
use cik.World.{
  Exec, pure, fail, gets, modify, store, read_bytes, read_into_buffer, reversed, ◌>>=◌, ◌>>◌,
}

-- Keys are stored in reverse byte order.
unfoldable pub read_request_key : ℕ → Exec Bytes
unfolding read_bytes reversed
read_request_key klen = do bs ← read_bytes klen; reversed bs

-- One round: the length byte, the test of the room left, the tag, its reversal in the buffer.
unfoldable pub read_tag : ℕ → ℕ → Exec Bytes
unfolding read_bytes read_into_buffer reversed
read_tag offset buffer_cap = do
  header ← read_bytes 1
  if ltb buffer_cap (byte_at 0 header) then fail status_out_of_memory else do
    bs ← read_into_buffer offset (byte_at 0 header)
    tag ← reversed bs
    modify (store offset tag)
    pure tag

unfoldable pub read_tags : ℕ → ℕ → ℕ → Exec (List Bytes)
unfolding read_tag
read_tags zero offset buffer_cap = do
  modify (λ w. record w { buffer = record w.buffer { nmemb = w.buffer.cap - buffer_cap } })
  pure []
read_tags (suc ntags) offset buffer_cap = do
  tag ← read_tag offset buffer_cap
  tags ← read_tags ntags (offset + length tag) (buffer_cap - length tag)
  pure (tag ∷ tags)

-- The tags point into the payload buffer; what is done with them is done before it is written
-- again.
unfoldable pub read_tags_using_payload_buffer : ℕ → Exec (List Bytes)
unfolding read_tags
read_tags_using_payload_buffer ntags = do cap ← gets (λ w. w.buffer.cap); read_tags ntags 0 cap
