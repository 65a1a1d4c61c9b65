-- ===== src/Protocol.antt =====
-- The wire protocol of src/types.h: status codes, request layout, response headers.
use cik.Prelude.{
  ℕ, ◌+◌, ◌*◌, ◌/◌, ◌%◌, ◌^◌, Bool, false, not, [], ◌∷◌, ◌++◌, none, some, get_elem?, bit_and, ◌==◌,
  if◌then◌else◌,
}
use cik.Bytes.{Bytes}

pub data StatusCode : Type 0 where
  status_ok mask_internal_error status_bug status_connection_closed : StatusCode
  status_network_error mask_client_error status_protocol_error : StatusCode
  mask_client_message status_not_found status_expired status_out_of_memory : StatusCode

unfoldable pub status_value : StatusCode → ℕ
status_value status_ok = 0x00
status_value mask_internal_error = 0x10
status_value status_bug = 0x11
status_value status_connection_closed = 0x12
status_value status_network_error = 0x13
status_value mask_client_error = 0x20
status_value status_protocol_error = 0x21
status_value mask_client_message = 0x40
status_value status_not_found = 0x41
status_value status_expired = 0x42
status_value status_out_of_memory = 0x43

-- `status & mask`.
unfoldable pub has_mask : StatusCode → ℕ → Bool
unfolding status_value
has_mask s mask = not (bit_and (status_value s) mask == 0)

-- A packed struct is its 16 bytes, read by offset; the union's structs overlap.
abbrev pub Request : Type 0
Request = Bytes

abbrev pub byte_at : ℕ → Request → ℕ
byte_at i r = elim (get_elem? r i) [ none ↦ 0 | some b ↦ b ]

-- `request->cik` is 'CiK'.
unfoldable pub has_control_bytes : Request → Bool
has_control_bytes r =
    if byte_at 0 r == 0x43
    then (if byte_at 1 r == 0x69 then byte_at 2 r == 0x4B else false)
    else false

-- `ntohl` of the four bytes at an offset.
abbrev pub be32_at : ℕ → Request → ℕ
be32_at i r =
    byte_at i r * 2 ^ 24
    + byte_at (i + 1) r * 2 ^ 16
    + byte_at (i + 2) r * 2 ^ 8
    + byte_at (i + 3) r

-- `htonl`: the bytes of a u32, the highest first.
unfoldable pub be32 : ℕ → Bytes
be32 x = (x / 2 ^ 24 % 256) ∷ (x / 2 ^ 16 % 256) ∷ (x / 2 ^ 8 % 256) ∷ (x % 256) ∷ []

-- `htonll` on a little-endian machine: each half by `htonl`, in the other order.
unfoldable pub be64 : ℕ → Bytes
unfolding be32
be64 x = be32 (x / 2 ^ 32 % 2 ^ 32) ++ be32 (x % 2 ^ 32)

unfoldable pub make_success_response : ℕ → Bytes
unfolding be32
make_success_response size = 0x43 ∷ 0x69 ∷ 0x4B ∷ 0x74 ∷ be32 size

unfoldable pub make_failure_response : StatusCode → Bytes
unfolding be32 status_value
make_failure_response s = 0x43 ∷ 0x69 ∷ 0x4B ∷ 0x66 ∷ be32 (status_value s)
