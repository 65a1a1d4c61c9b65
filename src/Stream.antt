-- ===== src/Stream.antt =====
-- The socket loops of src/server.c: `read_request_payload` and `write_response_payload` over what
-- read and send return.
pub mod Reading
pub mod Writing
use cik.Prelude.{
  ℕ, zero, suc, ◌-◌, true, false, List, [], ◌∷◌, ◌++◌, length, take, drop, ltb, ◌==◌, if◌then◌else◌,
}
use cik.Bytes.{Bytes}
use cik.Protocol.{StatusCode, status_ok, status_connection_closed, status_network_error}

-- What is at hand when read is called: some bytes (none of them: end of file), or an error. With
-- nothing left on the list the peer has closed.
pub data Incoming : Type 0 where
  chunk : Bytes → Incoming
  broken : Incoming

-- A read of at most `n` bytes: the bytes, or `none` for a result below 0, and what is left.
pub data ReadResult : Type 0 where
  got : Bytes → List Incoming → ReadResult
  failed : List Incoming → ReadResult

unfoldable pub left_over : Bytes → List Incoming → List Incoming
left_over [] rest = rest
left_over (b ∷ bs) rest = chunk (b ∷ bs) ∷ rest

unfoldable pub read : List Incoming → ℕ → ReadResult
unfolding left_over
read [] n = got [] []
read (broken ∷ rest) n = failed rest
read (chunk bs ∷ rest) n = got (take n bs) (left_over (drop n bs) rest)

-- The status, the bytes that were stored at `base`, and the rest of the stream.
pub record Received : Type 0 where
  pub status : StatusCode
  pub bytes : Bytes
  pub rest : List Incoming

abbrev pub prepend : Bytes → Received → Received
prepend bs r = record r { bytes = bs ++ r.bytes }

-- `do … while (remaining_size > 0)`. Every round but the last reads a byte, so the size is fuel
-- enough; out of fuel the loop would go on, which is written as a closed connection.
unfoldable pub read_loop : ℕ → List Incoming → ℕ → Received
unfolding read
read_loop zero input remaining = record {
  status = status_connection_closed;
  bytes = [];
  rest = input;
}
read_loop (suc fuel) input remaining = elim (read input remaining) [
  | failed rest ↦ record { status = status_network_error; bytes = []; rest = rest }
  | got [] rest ↦ record { status = status_connection_closed; bytes = []; rest = rest }
  | got (b ∷ bs) rest ↦
      let remaining' = remaining - length (b ∷ bs) in
      prepend (b ∷ bs) (elim (ltb 0 remaining') [
        | true ↦ read_loop fuel rest remaining'
        | false ↦ record { status = status_ok; bytes = []; rest = rest }
      ])
]

unfoldable pub read_request_payload : List Incoming → ℕ → Received
unfolding read_loop
read_request_payload input nmemb =
    if nmemb == 0
    then record { status = status_ok; bytes = []; rest = input }
    else read_loop nmemb input nmemb

-- What a call of send does: take up to so many bytes (0: closed), or fail.
pub data Sending : Type 0 where
  takes : ℕ → Sending
  refuses : Sending

-- The status, the bytes that went out, and the results left for later calls.
pub record Sent : Type 0 where
  pub status : StatusCode
  pub bytes : Bytes
  pub rest : List Sending

-- One call of send for each element; with none left the connection is closed.
unfoldable pub write_loop : List Sending → Bytes → Sent
write_loop [] out = record { status = status_connection_closed; bytes = []; rest = [] }
write_loop (refuses ∷ rest) out = record { status = status_network_error; bytes = []; rest = rest }
write_loop (takes zero ∷ rest) out = record {
  status = status_connection_closed;
  bytes = [];
  rest = rest;
}
write_loop (takes (suc n) ∷ rest) out =
    let more = write_loop rest (drop (suc n) out) in
    if ltb (suc n) (length out)
    then record more { bytes = take (suc n) out ++ more.bytes }
    else record { status = status_ok; bytes = out; rest = rest }

unfoldable pub write_response_payload : List Sending → Bytes → Sent
unfolding write_loop
write_response_payload sends out =
    if length out == 0
    then record { status = status_ok; bytes = []; rest = sends }
    else write_loop sends out
