-- ===== src/Controller/Clr.antt =====
-- The clear callbacks and `handle_clr_request` of src/controller.c.
use cik.Prelude.{ℕ, Bool, true, false, List, [], ◌∷◌, Option, none, some, ◌==◌, if◌then◌else◌}
use cik.Bytes.{Bytes}
use cik.Bytes.Compare.{keys_are_equal}
use cik.Memory.{add32}
use cik.Entry.{CacheEntry}
use cik.Tag.{KeyElem, get_keys_matching_all_tags, get_keys_matching_any_tag, release_key_list}
use cik.Log.{del_key, clr_all, clr_old, clr_match_none, clr_match_all, clr_match_any}
use cik.Protocol.{Request, byte_at, status_protocol_error}
use cik.World.{
  World, Exec, ok, stop, crash, pure, fail, gets, modify, log_key, log_no_args, log_tags, ignore,
  from_tags, release, walk_all_entries, ◌>>=◌, ◌>>◌,
}
use cik.Controller.Get.{is_expired}
use cik.Controller.Reading.{read_tags_using_payload_buffer}
use cik.Controller.Set.{remove_key_from_tags}
use cik.Controller.Del.{delete_entry_by_key}

-- What the callbacks do to an entry that goes.
pub drop_entry : CacheEntry → Exec (Unit {0})
unfolding log_key remove_key_from_tags release
drop_entry e = do log_key del_key e.key; remove_key_from_tags e.tags e.key; release e.address

-- Callbacks work on some data (here none) and the world; `true` unsets the slot. No action in
-- `drop_entry` returns early.
unfoldable pub clear_all_callback :
    {S : Type 0} → CacheEntry → S × World → Option (Bool × (S × World))
unfolding drop_entry
clear_all_callback e (s, w) = elim (drop_entry e w) [
  | ok a w' ↦ some (true, (s, w'))
  | stop _ w' ↦ none
  | crash ↦ none
]

-- `expires == CACHE_EXPIRES_INIT || expires >= *now` keeps the entry.
unfoldable pub clear_old_callback : CacheEntry → ℕ × World → Option (Bool × (ℕ × World))
unfolding is_expired clear_all_callback
clear_old_callback e (now, w) =
    if is_expired e now then clear_all_callback e (now, w) else some (false, (now, w))

-- Whether some wanted tag is some tag at hand, by length and memcmp.
unfoldable pub has_tag : Bytes → List Bytes → Bool
has_tag want [] = false
has_tag want (have ∷ rest) =
    let later = has_tag want rest in if keys_are_equal want have then true else later

unfoldable pub matches_any : List Bytes → List Bytes → Bool
unfolding has_tag
matches_any [] haves = false
matches_any (want ∷ wants) haves =
    let later = matches_any wants haves in if has_tag want haves then true else later

unfoldable pub clear_non_matching_callback :
    CacheEntry → List Bytes × World → Option (Bool × (List Bytes × World))
unfolding matches_any clear_all_callback
clear_non_matching_callback e (tags, w) =
    if matches_any tags e.tags then some (false, (tags, w)) else clear_all_callback e (tags, w)

-- The status of each deletion is ignored.
unfoldable pub delete_keys : List KeyElem → Exec (Unit {0})
unfolding delete_entry_by_key ignore
delete_keys [] = pure tt
delete_keys (elem ∷ rest) = do ignore (delete_entry_by_key elem.key); delete_keys rest

unfoldable pub release_keys : List KeyElem → Exec (Unit {0})
unfolding from_tags release_key_list
release_keys keys = from_tags (λ tree. release_key_list keys)

-- `ClearMode`.
abbrev pub clear_mode_all : ℕ
clear_mode_all = 0x00

abbrev pub clear_mode_old : ℕ
clear_mode_old = 0x01

abbrev pub clear_mode_match_all : ℕ
clear_mode_match_all = 0x02

abbrev pub clear_mode_match_none : ℕ
clear_mode_match_none = 0x03

abbrev pub clear_mode_match_any : ℕ
clear_mode_match_any = 0x04

unfoldable pub clear_matching : Bool → List Bytes → Exec (Unit {0})
unfolding log_tags from_tags delete_keys release_keys
clear_matching all tags = do
  log_tags (if all then clr_match_all else clr_match_any) tags
  keys ← from_tags (if all then get_keys_matching_all_tags tags else get_keys_matching_any_tag tags)
  delete_keys keys
  release_keys keys

-- The switch on the mode.
unfoldable pub clear : ℕ → List Bytes → Exec (Unit {0})
unfolding log_no_args log_tags walk_all_entries clear_all_callback clear_old_callback
    clear_non_matching_callback clear_matching
clear mode tags =
    if mode == clear_mode_all
    then (do log_no_args clr_all; _ ← walk_all_entries clear_all_callback tt; pure tt)
    else if mode == clear_mode_old
    then (do
      now ← gets (λ w. w.now)
      log_no_args clr_old
      _ ← walk_all_entries clear_old_callback now
      pure tt)
    else if mode == clear_mode_match_none
    then (do
      log_tags clr_match_none tags
      _ ← walk_all_entries clear_non_matching_callback tags
      pure tt)
    else if mode == clear_mode_match_all
    then clear_matching true tags
    else if mode == clear_mode_match_any
    then clear_matching false tags
    else fail status_protocol_error

unfoldable pub handle_clr_request : Request → Exec (Unit {0})
unfolding read_tags_using_payload_buffer clear
handle_clr_request request = do
  tags ← read_tags_using_payload_buffer (byte_at 5 request)
  modify (λ w. record w { counters = record w.counters { clr = add32 w.counters.clr 1 } })
  clear (byte_at 4 request) tags
