-- ===== src/Server.antt =====
-- The worker's side of src/server.c: one readable client, closing, and the replay of the
-- persistence file.
pub mod Serving
pub mod Respond
pub mod Connections
pub mod Slots
pub mod Accepting
pub mod Starting
pub mod Buffers
pub mod Enough
pub mod Sizes
pub mod Startup
pub mod Stopping
pub mod Stopped
use cik.Prelude.{
  ℕ, zero, suc, false, [], ◌∷◌, ◌++◌, Option, none, some, length, take, drop, ◌==◌, if◌then◌else◌,
}
use cik.Bytes.{Bytes}
use cik.Protocol.{
  StatusCode, Request, status_ok, has_mask, make_success_response, make_failure_response,
}
use cik.Stream.{read, got, failed, write_response_payload}
use cik.World.{
  World, Exec, Outcome, ok, stop, crash, null_payload, worker_buffer, stack_payload, read_bytes,
  ignore, ◌>>=◌,
}
use cik.Controller.{handle_request}

abbrev pub mask_internal_error : ℕ
mask_internal_error = 0x10

-- `MASK_CLIENT_ERROR | MASK_CLIENT_MESSAGE`.
abbrev pub mask_client : ℕ
mask_client = 0x60

-- The file descriptor is given up; the client has no worker from here on.
unfoldable pub close_client : World → World
close_client w = if w.is_open then record w { is_open = false } else w

-- `write_response` and `write_response_payload`.
unfoldable pub send_bytes : Bytes → World → StatusCode × World
send_bytes bs w =
    let s = write_response_payload w.sends bs in
    (s.status, record w { sends = s.rest; output = w.output ++ s.bytes })

-- The payload that the pointer leads to; `none` if the object is gone.
unfoldable pub payload_bytes : World → Option Bytes
payload_bytes w = elim w.response [
  | null_payload ↦ some []
  | worker_buffer ↦ some (take w.buffer.nmemb w.buffer.base)
  | stack_payload ↦ none
]

-- The test of the status of a write: the client is closed if it failed.
unfoldable pub check_sent : StatusCode × World → World
unfolding close_client
check_sent (sent, w) = if has_mask sent mask_internal_error then close_client w else w

unfoldable pub send_body : Bytes → World → World
unfolding send_bytes check_sent
send_body body w = if length body == 0 then w else check_sent (send_bytes body w)

-- Behind the header, if that was sent, goes the payload if there is one, which is looked at only
-- then.
unfoldable pub send_payload : StatusCode × World → Option World
unfolding send_body close_client payload_bytes
send_payload (sent, w) =
    if has_mask sent mask_internal_error
    then some (close_client w)
    else elim (payload_bytes w) [ none ↦ none | some body ↦ some (send_body body w) ]

-- The header, of which a success has the payload's size, and then the payload, whatever the status.
-- `none` is a crash.
unfoldable pub respond : StatusCode → World → Option World
unfolding payload_bytes send_bytes send_payload make_failure_response make_success_response
respond status w =
    if has_mask status mask_client
    then send_payload (send_bytes (make_failure_response status) w)
    else elim (payload_bytes w) [
      | none ↦ none
      | some body ↦ send_payload (send_bytes (make_success_response (length body)) w)
    ]

-- After `handle_request`: its status decides.
unfoldable pub conclude : Outcome (Unit {0}) → Option World
unfolding respond close_client
conclude (ok a w) = respond status_ok w
conclude (stop s w) = if has_mask s mask_internal_error then some (close_client w) else respond s w
conclude crash = none

-- The EPOLLIN branch of `process_worker_events`. The local payload pointer starts as NULL.
unfoldable pub serve : World → Option World
unfolding conclude close_client
serve w = elim (read_bytes 16 (record w { response = null_payload })) [
  | ok request w₁ ↦ conclude (handle_request request w₁)
  | stop s w₁ ↦
      if has_mask s mask_internal_error
      then some (close_client w₁)
      else conclude (handle_request [] w₁)
  | crash ↦ none
]

-- `load_request_log`: one call of read for each header, and no look at the status.
unfoldable pub load_request_log : ℕ → Request → Exec (Unit {0})
load_request_log zero request w = crash
load_request_log (suc fuel) request w = elim (read w.input 16) [
  | got [] rest ↦ ok tt (record w { input = rest })
  | got (b ∷ bs) rest ↦
      let request' = (b ∷ bs) ++ drop (suc (length bs)) request in
      (ignore (handle_request request') >>= λ _. load_request_log fuel request')
        (record w { input = rest })
  | failed rest ↦
      (ignore (handle_request request) >>= λ _. load_request_log fuel request)
        (record w { input = rest })
]
