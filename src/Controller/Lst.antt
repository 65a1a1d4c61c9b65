-- ===== src/Controller/Lst.antt =====
-- The list callbacks and `handle_lst_request` of src/controller.c.
use cik.Prelude.{
  ℕ, suc, ◌+◌, ◌-◌, ◌%◌, Bool, true, false, List, [], ◌∷◌, ◌++◌, Option, none, some, length, take,
  drop, ltb, ◌==◌, if◌then◌else◌,
}
use cik.Bytes.{Bytes, reverse_block}
use cik.Memory.{add32}
use cik.Entry.{CacheEntry}
use cik.Tag.{
  KeyElem, TagNode, walk_all_tags, get_keys_matching_all_tags, get_keys_matching_any_tag,
  release_key_list,
}
use cik.Log.{splice, lst_all_keys, lst_all_tags, lst_match_none, lst_match_all, lst_match_any}
use cik.Protocol.{
  StatusCode, Request, byte_at, status_ok, status_out_of_memory, status_protocol_error,
}
use cik.World.{
  World, Payload, Exec, worker_buffer, stack_payload, pure, fail, crashed, gets, modify,
  log_no_args, log_tags, from_tags, walk_all_entries, ◌>>=◌, ◌>>◌,
}
use cik.Controller.Clr.{matches_any}
use cik.Controller.Reading.{read_tags_using_payload_buffer}

-- `struct _ListAllKeysCallbackData`, and that for tags.
pub record ListData : Type 0 where
  pub status : StatusCode
  pub payload : Payload

-- The length byte, and the name in its own byte order; `none` is a crash in the reversal.
unfoldable pub put_name : Bytes → Payload → Option Payload
put_name name p = elim (reverse_block name) [
  | none ↦ none
  | some text ↦ some (record p {
    base = splice p.nmemb ((length name % 256) ∷ text) p.base;
    nmemb = p.nmemb + 1 + length name;
  })
]

-- `payload->nmemb + 1 + nmemb > payload->cap`.
abbrev pub is_full : Bytes → Payload → Bool
is_full name p = ltb p.cap (p.nmemb + 1 + length name)

unfoldable pub list_name : Bytes → ListData → Option ListData
unfolding put_name
list_name name d = elim d.status [
  | status_ok ↦
      if is_full name d.payload
      then some (record d { status = status_out_of_memory })
      else elim (put_name name d.payload) [ none ↦ none | some p ↦ some (record d { payload = p }) ]
  | s ↦ some d
]

unfoldable pub keep : World → Option ListData → Option (Bool × (ListData × World))
keep w none = none
keep w (some d) = some (false, (d, w))

unfoldable pub list_all_keys_callback :
    CacheEntry → ListData × World → Option (Bool × (ListData × World))
unfolding list_name keep
list_all_keys_callback e (d, w) = keep w (list_name e.key d)

unfoldable pub list_non_matching_callback :
    List Bytes → CacheEntry → ListData × World → Option (Bool × (ListData × World))
unfolding list_all_keys_callback matches_any
list_non_matching_callback tags e (d, w) = elim d.status [
  | status_ok ↦
      if matches_any tags e.tags then some (false, (d, w)) else list_all_keys_callback e (d, w)
  | s ↦ some (false, (d, w))
]

unfoldable pub list_all_tags_callback : Bytes → ListData → Option ListData
unfolding list_name
list_all_tags_callback tag d = list_name tag d

-- The loop over the keys that matched stops at the first that does not fit.
unfoldable pub list_keys : List KeyElem → Payload → Option ListData
unfolding put_name
list_keys [] p = some (record { status = status_ok; payload = p })
list_keys (elem ∷ rest) p =
    if is_full elem.key p
    then some (record { status = status_out_of_memory; payload = p })
    else elim (put_name elem.key p) [ none ↦ none | some p' ↦ list_keys rest p' ]

-- `return data.status`.
unfoldable pub return_status : StatusCode → Exec (Unit {0})
return_status s = elim s [ status_ok ↦ pure tt | other ↦ fail other ]

unfoldable pub finish : ListData → Exec (Unit {0})
unfolding return_status
finish d = do
  modify (λ w. record w { buffer = d.payload; response = worker_buffer })
  return_status d.status

unfoldable pub emptied : Payload → ListData
emptied p = record { status = status_ok; payload = record p { nmemb = 0 } }

nodes : TagNode → ℕ
nodes TagNode.null = 0
nodes (TagNode.node a t keys n left right) = nodes left + nodes right + 1

unfoldable pub list_all_keys : Exec (Unit {0})
unfolding log_no_args walk_all_entries list_all_keys_callback finish emptied
list_all_keys = do
  buffer ← gets (λ w. w.buffer)
  log_no_args lst_all_keys
  d ← walk_all_entries list_all_keys_callback (emptied buffer)
  finish d

unfoldable pub list_all_tags : Exec (Unit {0})
unfolding log_no_args from_tags walk_all_tags list_all_tags_callback finish emptied nodes
list_all_tags = do
  buffer ← gets (λ w. w.buffer)
  log_no_args lst_all_tags
  d ←
      from_tags
        (λ tree. walk_all_tags list_all_tags_callback (suc (nodes tree)) tree (emptied buffer))
  finish d

-- The virtual payload is the part of the buffer behind the tags. `*response_payload` is its
-- address, and it stands on the stack of this call.
unfoldable pub list_match_none : List Bytes → Exec (Unit {0})
unfolding log_tags walk_all_entries list_non_matching_callback return_status
list_match_none tags = do
  buffer ← gets (λ w. w.buffer)
  let alt : Payload = record {
    base = drop buffer.nmemb buffer.base;
    nmemb = 0;
    cap = buffer.cap - buffer.nmemb;
  }
  log_tags lst_match_none tags
  d ←
      walk_all_entries (list_non_matching_callback tags)
        (record { status = status_ok; payload = alt })
  modify (λ w. record w {
    buffer = record buffer { base = take buffer.nmemb buffer.base ++ d.payload.base };
    response = stack_payload;
  })
  return_status d.status

unfoldable pub list_matching : Bool → List Bytes → Exec (Unit {0})
unfolding log_tags from_tags list_keys finish
list_matching all tags = do
  log_tags (if all then lst_match_all else lst_match_any) tags
  keys ← from_tags (if all then get_keys_matching_all_tags tags else get_keys_matching_any_tag tags)
  buffer ← gets (λ w. w.buffer)
  elim (list_keys keys (record buffer { nmemb = 0 })) [
    | none ↦ crashed
    | some d ↦ do from_tags (λ tree. release_key_list keys); finish d
  ]

-- The switch on `ListMode`.
unfoldable pub list : ℕ → List Bytes → Exec (Unit {0})
unfolding list_all_keys list_all_tags list_match_none list_matching
list mode tags =
    if mode == 0x00
    then list_all_keys
    else if mode == 0x01
    then list_all_tags
    else if mode == 0x03
    then list_match_none tags
    else if mode == 0x02
    then list_matching true tags
    else if mode == 0x04
    then list_matching false tags
    else fail status_protocol_error

unfoldable pub handle_lst_request : Request → Exec (Unit {0})
unfolding read_tags_using_payload_buffer list
handle_lst_request request = do
  tags ← read_tags_using_payload_buffer (byte_at 5 request)
  modify (λ w. record w { counters = record w.counters { lst = add32 w.counters.lst 1 } })
  list (byte_at 4 request) tags
