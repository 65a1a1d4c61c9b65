-- ===== src/Persist/Replayed.antt =====
-- A saved entry of src/main.c that load_request_log of src/server.c replays.
use cik.Prelude.{
  ◌≤◌, ◌<◌, ◌-◌, ◌+◌, ◌%◌, ◌^◌, ◌==◌, Option, none, false, inl, inr, Option-cases, ℕ, zero, suc,
  ◌≡◌, ◌≢◌, refl, sym, ◌∙◌, ap, subst, some, List, [], ◌∷◌, ◌++◌, append-nil, append_assoc, length,
  drop, arith,
}
use cik.World.{null_payload, stop, Outcome, crash, World, ok}
use cik.Bytes.{Bytes}
use cik.Memory.{Memory}
use cik.Entry.{EntryMap, CacheEntry, cache_entry_init}
use cik.Controller.Set.{install, handle_set_request, expiry}
use mathlib.Core.List.{reverse}
use cik.Persist.Reads.{tag_bytes}
use cik.Stream.{chunk, left_over, read}
use cik.Stream.Reading.{left_over-content, left_over-IsSound}
use cik.Protocol.{Request, has_control_bytes}
use cik.World.{Exec, and_then, ◌>>=◌}
use cik.World.{ignore}
use cik.Stream.{got}
use cik.Server.{load_request_log}
use cik.Controller.{handle_request, decode_op}
use cik.Controller.Stored.{lookup-install, lookup-install_ne}
use cik.Controller.Spared.{found_in}
use cik.Persist.Loading.{saved_bytes}
use cik.Persist.{set_header, ttl_left}
use cik.Persist.Reads.{Holds}
use cik.Controller.{account, timed, handler}
use cik.Controller.{set as set_command}
use cik.Controller.Stored.{HasMapsFor, lookup}
use cik.Persist.Restored.{AreLive, restored, AreLive-new, IsReplayable, unused, set_installs}

abbrev maps_of : List EntryMap → Outcome Unit → List EntryMap
maps_of maps (ok a w) = w.maps
maps_of maps (stop s w) = maps
maps_of maps crash = maps

-- The maps behind `timed`, which counts the request for its worker.
timed-ok :
    (o : Outcome Unit) (w' : World)
    → (elim o as (λ x. Outcome Unit) [
      | ok a v ↦ ok a (account set_command v)
      | stop s v ↦ stop s (account set_command v)
      | crash ↦ crash
    ])
      ≡ ok tt w'
    → (v : World) × (o ≡ ok tt v) × (w'.maps ≡ v.maps)
unfolding account
timed-ok (ok tt v) w' h = (v, refl, ap (λ t. maps_of v.maps t) (sym h))
timed-ok (stop s v) w' h = cc
timed-ok crash w' h = cc

-- The state when the header is read from a file that holds the saved entry and other bytes.
abbrev pub behind_header : CacheEntry → Bytes → World → World
behind_header e rest w = record w {
  input = left_over (reverse e.key ++ (tag_bytes e.tags ++ (e.value ++ rest))) [];
}

drop_all : (n : ℕ) (xs : Bytes) → length xs ≡ n → drop n xs ≡ []
drop_all zero [] h = refl
drop_all zero (x ∷ xs) h = absurd (omega (arith, h))
drop_all (suc n) [] h = refl
drop_all (suc n) (x ∷ xs) h = drop_all n xs (omega (arith, h))

ignored_step :
    (f next : Exec Unit) (w w' : World) → f w ≡ ok tt w' → (ignore f >>= λ _. next) w ≡ next w'
unfolding ignore
ignored_step f next w w' h =
    let done : ignore f w ≡ ok tt w' = rw (h, ignore) refl in ap (λ o. and_then o (λ _. next)) done

replay_step :
    (e : CacheEntry) (now fuel : ℕ) (rest : Bytes) (request : Request) (w w' : World)
    → w.input ≡ chunk (saved_bytes e now ++ rest) ∷ []
    → length request ≡ 16
    → handle_request (set_header e now) (behind_header e rest w) ≡ ok tt w'
    → load_request_log (suc fuel) request w ≡ load_request_log fuel (set_header e now) w'
unfolding load_request_log read set_header ignore
replay_step e now fuel rest request w w' holds size handled =
    let header = set_header e now in
    let body = reverse e.key ++ (tag_bytes e.tags ++ (e.value ++ rest)) in
    let split : saved_bytes e now ++ rest ≡ header ++ body =
      ap (λ t. header ++ t)
        (append_assoc (reverse e.key) (tag_bytes e.tags ++ e.value) rest
          ∙ ap (λ t. reverse e.key ++ t) (append_assoc (tag_bytes e.tags) e.value rest)) in
    let first : read w.input 16 ≡ got header (left_over body []) =
      ap (λ i. read i 16) (holds ∙ ap (λ t. chunk t ∷ []) split) in
    let left : drop 16 request ≡ [] = drop_all 16 request size in
    let whole : header ++ drop 16 request ≡ header =
      ap (λ t. header ++ t) left ∙ append-nil header in
    rw (first, load_request_log)
      (ap
          (λ t.
            (ignore (handle_request t) >>= λ _. load_request_log fuel t) (behind_header e rest w))
          whole
        ∙ ignored_step (handle_request header) (load_request_log fuel header)
            (behind_header e rest w) w' handled)

-- The time that is left of an entry is not over, and below 2 ^ 32 - 1 seconds, which as a time to
-- live means none.
abbrev pub Lasts : Option ℕ → ℕ → Type 0
Lasts none now = Unit
Lasts (some t) now = (now ≤ t) × (t - now < 2 ^ 32 - 1)

-- When an entry is to expire that had some time left.
abbrev pub shifted : Option ℕ → ℕ → ℕ → Option ℕ
shifted none saved now = none
shifted (some t) saved now = some (now + (t - saved))

expiry-shifted :
    (e : CacheEntry) (saved now : ℕ)
    → Lasts e.expires saved
    → expiry now (ttl_left e saved) ≡ shifted e.expires saved now
unfolding expiry ttl_left
expiry-shifted e saved now lasts = elim (Option-cases e.expires) [
  | inl none_set ↦ rw none_set refl
  | inr (t, at) ↦
      let bound : (saved ≤ t) × (t - saved < 2 ^ 32 - 1) = subst (λ x. Lasts x saved) at lasts in
      let same : (t - saved) % 2 ^ 32 ≡ t - saved = omega (arith, bound) in
      let other : ((t - saved) == 2 ^ 32 - 1) ≡ false = ground (arith, bound) in
      rw at (rw same (rw other refl))
]

-- The entry as it was saved, in a bucket at an address, changed now and with the time that was left.
abbrev pub replayed : CacheEntry → ℕ → World → ℕ → CacheEntry
replayed e saved w a = record (cache_entry_init a w.now) {
  key = e.key;
  tags = e.tags;
  value = e.value;
  mtime = w.now;
  expires = shifted e.expires saved w.now;
}

-- When `load_request_log` comes to a saved entry in its file, in a state as described above, and
-- the SET of it succeeds, then it goes on behind that SET, and a lookup of the entry's key finds
-- the key, the tags and the value that were saved, changed now and to expire after the time that
-- was left (never if the entry did not), if that is not over and below 2 ^ 32 - 1 seconds. Lookups
-- of all other keys find what they found before. The request that the loop has at hand is 16 bytes
-- long.
pub saved_entry_replayed :
    (e : CacheEntry) (now fuel : ℕ) (rest : Bytes) (request : Request) (w w' : World)
    (live : List ℕ) (a : ℕ) (m : Memory)
    → IsReplayable e w live a m
    → Lasts e.expires now
    → w.input ≡ chunk (saved_bytes e now ++ rest) ∷ []
    → length request ≡ 16
    → handle_request (set_header e now) (behind_header e rest w) ≡ ok tt w'
    → (load_request_log (suc fuel) request w ≡ load_request_log fuel (set_header e now) w')
      × ((p : ℕ) × (lookup w' e.key ≡ some (p, replayed e now w a)))
      × ((q : Bytes) → q ≢ e.key → lookup w' q ≡ lookup w q)
unfolding handle_request has_control_bytes decode_op timed handler set_header
saved_entry_replayed e now fuel rest request w w' live a m r lasts holds size handled =
    let body = reverse e.key ++ (tag_bytes e.tags ++ (e.value ++ rest)) in
    let start : World = record (behind_header e rest w) { response = null_payload } in
    let ready : IsReplayable e start live a m = record {
      key_pos = r.key_pos;
      key_short = r.key_short;
      tags_few = r.tags_few;
      value_small = r.value_small;
      tags_fit = r.tags_fit;
      sizes = r.sizes;
      memory = r.memory;
      room = r.room;
      entries = r.entries;
      bucket = r.bucket;
    } in
    let here : Holds start body =
      (left_over-content body [] ∙ append-nil body, left_over-IsSound body [] tt) in
    let (w₅, installs, same) = set_installs e now rest start live a m ready here in
    let (v, done, kept) = timed-ok (handle_set_request (set_header e now) start) w' handled in
    let installed : install (restored e now w a) w₅ ≡ ok tt v = sym installs ∙ done in
    let fits : HasMapsFor (restored e now w a) w₅ =
      AreLive-new w₅ live (restored e now w a) (subst (λ t. AreLive t live) (sym same) r.entries)
        (unused e now rest w live a m r) in
    let (p, found) = lookup-install (restored e now w a) w₅ v fits installed in
    (
      replay_step e now fuel rest request w w' holds size handled,
      (
        p,
        ap (λ t. found_in t e.key) kept
            ∙ found
            ∙ ap (λ t. some (p, record (restored e now w a) { expires = t }))
                (expiry-shifted e now w.now lasts),
      ),
      λ q ne.
          ap (λ t. found_in t q) kept
          ∙ lookup-install_ne (restored e now w a) w₅ v q fits ne installed
          ∙ ap (λ t. found_in t q) same,
    )
