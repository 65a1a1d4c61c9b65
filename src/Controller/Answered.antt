-- ===== src/Controller/Answered.antt =====
-- What a LST request of src/controller.c answers with.
use cik.Prelude.{
  ℕ, ◌+◌, ◌<◌, ◌≡◌, inl, inr, refl, sym, ◌∙◌, ap, subst, Bool, true, false, some, List, [], ◌∷◌,
  ◌++◌, length, take, take-append, if◌then◌else◌, arith, Bool-cases, Option-cases,
}
use cik.World.{World, Payload, walk_maps}
use cik.Bytes.{Bytes}
use cik.Entry.{EntryMap, CacheEntry, free, used, walk_entries, walk_slot}
use cik.Tag.{KeyElem}
use cik.Protocol.{status_ok}
use cik.Controller.Lst.{
  ListData, put_name, is_full, list_name, keep, list_all_keys_callback, list_keys,
}
use mathlib.Core.Path.{ap₂}
use cik.Memory.{Memory}
use cik.World.{
  Outcome, ok, stop, crash, worker_buffer, log_no_args, log_tags, walk_all_entries, from_tags,
}
use cik.Tag.{get_keys_matching_all_tags, get_keys_matching_any_tag, release_key_list}
use cik.Log.{
  lst_all_keys, lst_match_all, lst_match_any, log_request_with_no_args, log_request_with_tags,
}
use cik.Protocol.{status_out_of_memory}
use cik.Controller.Lst.{return_status, finish, emptied, list_all_keys, list_matching, list}
use cik.Controller.Listed.{
  StartsWith, Lists, AreNames, encoded, list_names-Lists, list_names, list_names_stopped,
}

-- The keys of the used slots, slot by slot and map by map.
abbrev pub keys_in : EntryMap → List Bytes
keys_in [] = []
keys_in (free ∷ map) = keys_in map
keys_in (used h e ∷ map) = e.key ∷ keys_in map

abbrev pub keys_in_maps : List EntryMap → List Bytes
keys_in_maps [] = []
keys_in_maps (map ∷ maps) = keys_in map ++ keys_in_maps maps

-- The walk with the callback lists the keys, and keeps all slots.
walk_slot-list_name :
    (h : ℕ) (e : CacheEntry) (d d' : ListData) (w : World)
    → list_name e.key d ≡ some d'
    → walk_slot list_all_keys_callback (used h e) (d, w) ≡ some (used h e, (d', w))
unfolding walk_slot list_all_keys_callback keep
walk_slot-list_name h e d d' w here =
    let called : list_all_keys_callback e (d, w) ≡ some (false, (d', w)) = ap (keep w) here in
    rw (called, walk_slot) refl

walk_entries-list_names :
    (map : EntryMap) (d d' : ListData) (w : World)
    → list_names (keys_in map) d ≡ some d'
    → walk_entries list_all_keys_callback map (d, w) ≡ some (map, (d', w))
unfolding walk_entries list_names walk_slot
walk_entries-list_names [] d d' w h = ground (arith, h)
walk_entries-list_names (free ∷ map) d d' w h =
    let rest = walk_entries-list_names map d d' w h in ground (arith, rest)
walk_entries-list_names (used n e ∷ map) d d' w h = elim (Option-cases (list_name e.key d)) [
  | inl nothing ↦ ground (arith, nothing, h)
  | inr (d₁, found) ↦
      let here = walk_slot-list_name n e d d₁ w found in
      let later : list_names (keys_in map) d₁ ≡ some d' = ground (arith, found, h) in
      rw (here, walk_entries) (rw (walk_entries-list_names map d₁ d' w later) refl)
]

list_names-split :
    (names more : List Bytes) (d d' : ListData)
    → list_names (names ++ more) d ≡ some d'
    → (d₁ : ListData) × (list_names names d ≡ some d₁) × (list_names more d₁ ≡ some d')
unfolding list_names
list_names-split [] more d d' h = (d, refl, h)
list_names-split (name ∷ names) more d d' h = elim (Option-cases (list_name name d)) [
  | inl e ↦ ground (arith, e, h)
  | inr (d₁, e) ↦
      let rest : list_names (names ++ more) d₁ ≡ some d' = ground (arith, e, h) in
      let (d₂, here, there) = list_names-split names more d₁ d' rest in
      (d₂, rw (e, list_names) here, there)
]

walk_maps-list_names :
    (maps : List EntryMap) (d d' : ListData) (w : World)
    → list_names (keys_in_maps maps) d ≡ some d'
    → walk_maps list_all_keys_callback maps (d, w) ≡ some (maps, (d', w))
unfolding walk_maps list_names
walk_maps-list_names [] d d' w h = ground (arith, h)
walk_maps-list_names (map ∷ maps) d d' w h =
    let (d₁, here, there) = list_names-split (keys_in map) (keys_in_maps maps) d d' h in
    rw (walk_entries-list_names map d d₁ w here, walk_maps)
      (rw (walk_maps-list_names maps d₁ d' w there) refl)

abbrev pub keys_of : List KeyElem → List Bytes
keys_of [] = []
keys_of (elem ∷ rest) = elem.key ∷ keys_of rest

-- The loop over keys that matched is the same listing.
list_keys-list_names :
    (keys : List KeyElem) (p : Payload)
    → list_keys keys p ≡ list_names (keys_of keys) (record { status = status_ok; payload = p })
unfolding list_keys list_names list_name
list_keys-list_names [] p = refl
list_keys-list_names (elem ∷ rest) p = elim (Bool-cases (is_full elem.key p)) [
  | inl full ↦
      rw (full, list_keys)
        (rw (full, list_names, list_name) (sym (list_names_stopped (keys_of rest) p)))
  | inr room ↦ elim (Option-cases (put_name elem.key p)) [
    | inl nothing ↦ rw (room, list_keys) (rw (room, list_names, list_name) (rw nothing refl))
    | inr (p', put) ↦
        rw (room, list_keys)
          (rw (room, list_names, list_name) (rw put (list_keys-list_names rest p')))
  ]
]

-- What a listing of these names comes to. The payload is the worker's buffer, and it holds all names
-- if the call returns ok. Otherwise the status is that there is no room, the payload holds the names
-- that come first, and the next would go over the end of the buffer. It does not crash.
abbrev pub Answers : List Bytes → World → Outcome Unit → Type 0
Answers names w (ok u w') =
    (w'.maps ≡ w.maps)
    × (w'.response ≡ worker_buffer)
    × (take w'.buffer.nmemb w'.buffer.base ≡ encoded names)
Answers names w (stop s w') =
    (s ≡ status_out_of_memory)
    × (w'.maps ≡ w.maps)
    × (w'.response ≡ worker_buffer)
    × ((fitting : List Bytes) × (next : Bytes) × (rest : List Bytes) × (names
          ≡ fitting ++ (next ∷ rest))
        × (take w'.buffer.nmemb w'.buffer.base ≡ encoded fitting)
        × (w.buffer.cap < length (encoded fitting) + 1 + length next))
Answers names w crash = ⊥

StartsWith-take : (p : Payload) (bs : Bytes) → StartsWith p bs → take p.nmemb p.base ≡ bs
StartsWith-take p bs (blank, base, size, len) =
    ap₂ (λ n b. take n b) size base ∙ take-append bs blank

finish-Answers :
    (names : List Bytes) (w w' : World) (p : Payload) (d : ListData)
    → p.cap ≡ w.buffer.cap
    → Lists names p [] d
    → w'.maps ≡ w.maps
    → Answers names w (finish d w')
unfolding finish return_status
finish-Answers names w w' p d cap (inl (good, starts)) kept =
    rw (good, finish, return_status) (kept, refl, StartsWith-take d.payload (encoded names) starts)
finish-Answers names w w' p d cap (inr (fitting, next, rest, split, full, starts, over)) kept =
    rw (full, finish, return_status)
      (
        refl,
        kept,
        refl,
        (
          fitting,
          next,
          rest,
          split,
          StartsWith-take d.payload (encoded fitting) starts,
          omega (arith, over, cap),
        ),
      )

-- The listing of all keys, of entries with keys from 1 to 255 bytes long into a buffer that is as
-- long as its capacity, returns. If it returns ok, the payload holds the keys of all entries, slot by
-- slot and map by map, each with its length before it. If not, the status says that there is no
-- memory, the payload holds the keys that come first, and with the next it would be longer than the
-- buffer. The maps are as they were.
pub list-all_keys :
    (tags : List Bytes) (w : World)
    → AreNames (keys_in_maps w.maps)
    → length w.buffer.base ≡ w.buffer.cap
    → Answers (keys_in_maps w.maps) w (list 0x00 tags w)
unfolding list list_all_keys log_no_args emptied walk_all_entries
list-all_keys tags w names size =
    let p : Payload = record w.buffer { nmemb = 0 } in
    let w₁ : World = record w {
      log_queue = log_request_with_no_args lst_all_keys w.source w.log_queue;
    } in
    let (d, listed, lists) =
      list_names-Lists (keys_in_maps w.maps) p [] names (w.buffer.base, refl, refl, size) in
    let walked =
      walk_maps-list_names w.maps (record { status = status_ok; payload = p }) d w₁ listed in
    let now : list 0x00 tags w ≡ finish d w₁ = ground (arith, walked) in
    subst (Answers (keys_in_maps w.maps) w) (sym now)
      (finish-Answers (keys_in_maps w.maps) w w₁ p d refl lists refl)

-- The listing for all or any of some tags answers in the same way with the keys that the tag index
-- gives, if the index gives them and they can be released, they are from 1 to 255 bytes long and
-- the buffer is as long as its capacity.
pub list-matching :
    (all : Bool) (tags : List Bytes) (w : World) (keys : List KeyElem) (m m' : Memory)
    → (if all then get_keys_matching_all_tags tags else get_keys_matching_any_tag tags) w.tags
        w.memory
      ≡ some (keys, m)
    → release_key_list keys m ≡ some (tt, m')
    → AreNames (keys_of keys)
    → length w.buffer.base ≡ w.buffer.cap
    → Answers (keys_of keys) w (list (if all then 0x02 else 0x04) tags w)
unfolding list list_matching log_tags from_tags
list-matching all tags w keys m m' found released names size =
    let p : Payload = record w.buffer { nmemb = 0 } in
    let w₁ : World = record w {
      log_queue =
          log_request_with_tags (if all then lst_match_all else lst_match_any) w.source tags
            w.log_queue;
      memory = m';
    } in
    let (d, listed, lists) =
      list_names-Lists (keys_of keys) p [] names (w.buffer.base, refl, refl, size) in
    let loop = list_keys-list_names keys p ∙ listed in
    let now : list_matching all tags w ≡ finish d w₁ = ground (arith, found, released, loop) in
    let mode : list (if all then 0x02 else 0x04) tags w ≡ list_matching all tags w =
      elim all as (λ b. list (if b then 0x02 else 0x04) tags w ≡ list_matching b tags w) [
        | true ↦ refl
        | false ↦ refl
      ] in
    subst (Answers (keys_of keys) w) (sym (mode ∙ now))
      (finish-Answers (keys_of keys) w w₁ p d refl lists refl)
