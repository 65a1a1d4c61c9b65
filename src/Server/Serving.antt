-- ===== src/Server/Serving.antt =====
-- What `serve_entry` of src/controller.c, the end of a GET, answers.
use cik.Prelude.{
  ◌&&◌, bit_and, ℕ, ◌≤◌, ◌<◌, ◌≡◌, ◌⊎◌, inl, inr, refl, ap, Bool, true, false, some, [], ◌∷◌,
  length, take-append, ltb, ◌==◌, arith, Bool-cases,
}
use cik.World.{World, Outcome, ok, stop, crash, log_key, put_map_for_key, null_payload}
use cik.Bytes.{Bytes}
use cik.Entry.{EntryMap, CacheEntry}
use cik.Protocol.{status_expired, status_bug}
use cik.Controller.Get.{is_expired, answer, serve_entry, get_flag_ignore_expires, miss}
use cik.Server.{payload_bytes}

nil : (bs : Bytes) → length bs ≡ 0 → [] ≡ bs
nil [] h = refl
nil (b ∷ bs) h = absurd (omega arith)

-- The payload that `answer` leaves for the response is the entry's value, and nothing of what the
-- buffer held before.
payload_bytes-answer :
    (e : CacheEntry) (w : World)
    → w.response ≡ null_payload
    → payload_bytes (answer e w) ≡ some e.value
unfolding payload_bytes answer
payload_bytes-answer e w none_yet = elim (Bool-cases (length e.value == 0)) [
  | inl empty ↦
      rw (empty, answer) (rw (none_yet, payload_bytes) (ap some (nil e.value (ground arith))))
  | inr some_bytes ↦ rw (some_bytes, answer) (ap some (take-append e.value _))
]

-- The three ways in which an entry is served.
abbrev pub Served : ℕ → CacheEntry → World → Outcome Unit → Type 0
Served flags e w (stop s w') =
    ((s ≡ status_expired)
      × (bit_and flags get_flag_ignore_expires ≡ 0)
      × (is_expired e w.now ≡ true))
    ⊎ ((s ≡ status_bug) × (w.buffer.cap < length e.value))
Served flags e w (ok a w') =
    (length e.value ≤ w.buffer.cap)
    × (payload_bytes w' ≡ some e.value)
    × ((0 < bit_and flags get_flag_ignore_expires) ⊎ (is_expired e w.now ≡ false))
Served flags e w crash = ⊥

-- If no payload is set yet, an entry is never served past its expiry time unless the request says
-- to ignore that: the reply is then "expired". If its value does not fit the buffer the status is
-- "bug". Else the call succeeds, and the payload of the response is the value.
pub serve_entry-Served :
    (key : Bytes) (flags : ℕ) (map : EntryMap) (pos : ℕ) (e : CacheEntry) (w : World)
    → w.response ≡ null_payload
    → Served flags e w (serve_entry key flags map (pos, e) w)
unfolding serve_entry log_key miss put_map_for_key
serve_entry-Served key flags map pos e w none_yet =
    elim (Bool-cases ((bit_and flags get_flag_ignore_expires == 0) && is_expired e w.now)) [
      | inl late ↦ rw (late, serve_entry) (inl (refl, (both late).0, (both late).1))
      | inr fresh ↦ elim (Bool-cases (ltb w.buffer.cap (length e.value))) [
        | inl large ↦ rw (fresh, serve_entry) (rw large (inr (refl, ground arith)))
        | inr fits ↦
            rw (fresh, serve_entry)
              (rw fits (ground arith, payload_bytes-answer e _ none_yet, checked fresh))
      ]
    ]
  where
    both :
        {b : Bool}
        → ((bit_and flags get_flag_ignore_expires == 0) && b) ≡ true
        → (bit_and flags get_flag_ignore_expires ≡ 0) × (b ≡ true)
    both h = ground arith

    checked :
        {b : Bool}
        → ((bit_and flags get_flag_ignore_expires == 0) && b) ≡ false
        → (0 < bit_and flags get_flag_ignore_expires) ⊎ (b ≡ false)
    checked h = ground arith
