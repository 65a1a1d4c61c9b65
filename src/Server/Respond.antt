-- ===== src/Server/Respond.antt =====
-- What `respond` and `conclude` of src/server.c send.
use cik.Prelude.{
  ℕ, suc, ◌/◌, ◌%◌, ◌^◌, subst, none, [], Option, ◌≤◌, ◌<◌, ◌≡◌, refl, ◌∙◌, ap, false, some, List,
  ◌∷◌, ◌++◌, append_assoc, length, ltb, ◌==◌, arith,
}
use cik.World.{World}
use cik.Bytes.{Bytes}
use cik.Protocol.{
  status_value, StatusCode, status_ok, has_mask, make_success_response, make_failure_response, be32,
  mask_client_error, status_bug, status_connection_closed, status_network_error,
  mask_internal_error, status_protocol_error, mask_client_message, status_not_found, status_expired,
  status_out_of_memory,
}
use cik.Stream.{Sending, takes, write_response_payload, write_loop}
use cik.Server.{send_body, send_payload, check_sent, payload_bytes, respond, send_bytes}

-- The eight bytes of a failure: 'CiKf' and the status, the highest byte first.
abbrev pub failure_bytes : ℕ → Bytes
failure_bytes status = 0x43 ∷ 0x69 ∷ 0x4B ∷ 0x66 ∷ 0 ∷ 0 ∷ 0 ∷ status ∷ []

-- The header that each status calls for: behind an internal error there is none, behind ok 'CiKt'
-- and the size of the payload.
abbrev pub reply_header : StatusCode → ℕ → Option Bytes
reply_header status_ok size = some (
    0x43
    ∷ 0x69
    ∷ 0x4B
    ∷ 0x74
    ∷ (size / 2 ^ 24 % 256)
    ∷ (size / 2 ^ 16 % 256)
    ∷ (size / 2 ^ 8 % 256)
    ∷ (size % 256)
    ∷ [])
reply_header mask_internal_error size = none
reply_header status_bug size = none
reply_header status_connection_closed size = none
reply_header status_network_error size = none
reply_header mask_client_error size = some (failure_bytes 0x20)
reply_header status_protocol_error size = some (failure_bytes 0x21)
reply_header mask_client_message size = some (failure_bytes 0x40)
reply_header status_not_found size = some (failure_bytes 0x41)
reply_header status_expired size = some (failure_bytes 0x42)
reply_header status_out_of_memory size = some (failure_bytes 0x43)

-- A header that is sent.
abbrev Replies : Option World → World → Option Bytes → Type 0
Replies answer w none = Unit
Replies answer w (some header) = (answer ≡ send_payload (send_bytes header w)) × (length header ≡ 8)

respond-Replies :
    (code : StatusCode) (w : World) (body : Bytes)
    → payload_bytes w ≡ some body
    → Replies (respond code w) w (reply_header code (length body))
unfolding respond has_mask status_value make_failure_response make_success_response be32
respond-Replies status_ok w body here = (
  ap
      (λ (found : Option Bytes). elim found as (λ x. Option World) [
        | none ↦ none
        | some bytes ↦ send_payload (send_bytes (make_success_response (length bytes)) w)
      ])
      here,
  refl,
)
respond-Replies mask_internal_error w body here = tt
respond-Replies status_bug w body here = tt
respond-Replies status_connection_closed w body here = tt
respond-Replies status_network_error w body here = tt
respond-Replies mask_client_error w body here = (refl, refl)
respond-Replies status_protocol_error w body here = (refl, refl)
respond-Replies mask_client_message w body here = (refl, refl)
respond-Replies status_not_found w body here = (refl, refl)
respond-Replies status_expired w body here = (refl, refl)
respond-Replies status_out_of_memory w body here = (refl, refl)

write_whole :
    (bs : Bytes) (n : ℕ) (rest : List Sending)
    → length bs ≤ suc n
    → 0 < length bs
    → write_response_payload (takes (suc n) ∷ rest) bs
      ≡ record { status = status_ok; bytes = bs; rest = rest }
unfolding write_response_payload write_loop
write_whole bs n rest fits some_bytes =
    let some_size : (length bs == 0) ≡ false = ground arith in
    let all : ltb (suc n) (length bs) ≡ false = ground arith in
    rw (some_size, write_response_payload) (rw (all, write_loop) refl)

-- One call of send that takes all of it.
send_bytes_whole :
    (bs : Bytes) (w : World) (n : ℕ) (rest : List Sending)
    → length bs ≤ suc n
    → 0 < length bs
    → w.sends ≡ takes (suc n) ∷ rest
    → send_bytes bs w ≡ (status_ok, record w { sends = rest; output = w.output ++ bs })
unfolding send_bytes
send_bytes_whole bs w n rest fits some_bytes sends =
    rw (sends, send_bytes) (rw (write_whole bs n rest fits some_bytes) refl)

-- On a socket that takes the header and the payload whole, and for a status that is no internal error
-- and a payload that is not empty, what goes out is the header with the size of the payload or the
-- number of the failure, and then the payload that the handler left, also behind a failure; nothing
-- else changes.
pub respond-lem :
    (code : StatusCode) (w : World) (body header : Bytes) (m n : ℕ) (rest : List Sending)
    → reply_header code (length body) ≡ some header
    → payload_bytes w ≡ some body
    → 0 < length body
    → length body ≤ suc n
    → 8 ≤ suc m
    → w.sends ≡ takes (suc m) ∷ takes (suc n) ∷ rest
    → respond code w ≡ some (record w { sends = rest; output = w.output ++ (header ++ body) })
unfolding send_payload send_body check_sent has_mask status_value payload_bytes
respond-lem code w body header m n rest calls here some_bytes fits room sends =
    let (shown, eight) =
      subst (Replies (respond code w) w) calls (respond-Replies code w body here) in
    let first =
      send_bytes_whole header w m (takes (suc n) ∷ rest) (omega (arith, eight))
        (omega (arith, eight)) sends in
    let w₁ : World = record w { sends = takes (suc n) ∷ rest; output = w.output ++ header } in
    let second = send_bytes_whole body w₁ n rest fits some_bytes refl in
    let here₁ : payload_bytes w₁ ≡ some body = here in
    let some_size : (length body == 0) ≡ false = ground arith in
    let body_sent : send_payload (status_ok, w₁) ≡ some (check_sent (send_bytes body w₁)) =
      rw (here₁, send_payload) (rw (some_size, send_body) refl) in
    shown
    ∙ ap send_payload first
    ∙ body_sent
    ∙ ap (λ t. some (check_sent t)) second
    ∙ ap (λ t. some (record w { sends = rest; output = t })) (append_assoc w.output header body)
