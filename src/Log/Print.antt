-- ===== src/Log/Print.antt =====
-- The printing of the request log in src/log.c, with the text functions of src/util.c.
use cik.Prelude.{
  ℕ, zero, suc, ◌+◌, ◌/◌, ◌%◌, ◌^◌, Option, none, some, List, [], ◌∷◌, ◌++◌, length, get_elem?,
  ◌==◌, if◌then◌else◌,
}
use cik.Log.{
  LogEntry, LogQueue, get_hit, get_miss, set_key, del_key, clr_all, clr_old, clr_match_none,
  clr_match_all, clr_match_any, lst_all_keys, lst_all_tags, lst_match_none, lst_match_all,
  lst_match_any, nfo, nfo_key, string, dequeue_log_entry,
}
use cik.Config.Text.{codes, c_string}
use mathlib.Core.Option
use cik.Bytes.{Bytes}

-- The loop of `key2str` and `tag2str`: `buffer[i] = base[nmemb - 1 - i]`. `none` is a read outside of
-- the block.
unfoldable pub key2str : Bytes → ℕ → ℕ → Option Bytes
key2str block base zero = some []
key2str block base (suc n) =
    Option.bind (get_elem? block (base + n))
      λ c. Option.bind (key2str block base n) λ text. some (c ∷ text)

-- `while (tag.nmemb > 0)`, from the tag of `nmemb` bytes at `base`. Every round but the last passes
-- by a byte of the block, so one more than it has is fuel enough. "%s" stops at a NUL.
unfoldable pub print_tags : ℕ → Bytes → ℕ → ℕ → Option (List Bytes)
unfolding key2str c_string
print_tags zero block base nmemb = none
print_tags (suc fuel) block base nmemb =
    let rest = Option.bind (key2str block base nmemb) λ text.
      Option.bind (get_elem? block (base + nmemb)) λ next.
        Option.bind (print_tags fuel block (base + nmemb + 1) next)
          λ texts. some (c_string text ∷ texts) in
    if nmemb == 0 then some [] else rest

-- `{ .base = &e->data[1], .nmemb = e->data[0] }` and the loop over the tags.
unfoldable pub print_entry_tags : Bytes → Option (List Bytes)
unfolding print_tags
print_entry_tags block =
    Option.bind (get_elem? block 0) λ nmemb. print_tags (suc (length block)) block 1 nmemb

-- The same for an entry with a key.
unfoldable pub print_entry_key : Bytes → Option Bytes
unfolding key2str c_string
print_entry_key block =
    Option.bind (get_elem? block 0) λ nmemb. Option.map c_string (key2str block 1 nmemb)

-- A line of the log: who sent the request (not for a message), the words in brackets, and what
-- stands in quotes behind them.
pub record Printed : Type 0 where
  pub sender : Option (ℕ × Bytes × ℕ)
  pub words : Bytes
  pub quoted : List Bytes

-- The four bytes of the address, the lowest first, and the port as it is stored.
sender_of : LogEntry → ℕ × Bytes × ℕ
sender_of e = (
  e.worker_id,
  (e.client_ip % 2 ^ 8)
      ∷ (e.client_ip / 2 ^ 8 % 2 ^ 8)
      ∷ (e.client_ip / 2 ^ 16 % 2 ^ 8)
      ∷ (e.client_ip / 2 ^ 24 % 2 ^ 8)
      ∷ [],
  e.client_port,
)

line : LogEntry → Bytes → List Bytes → Printed
unfolding sender_of
line e words quoted = record { sender = some (sender_of e); words = words; quoted = quoted }

with_key : LogEntry → Option Printed
unfolding print_entry_key line
with_key e = Option.map (λ key. line e [] (key ∷ [])) (print_entry_key e.payload)

with_tags : LogEntry → Bytes → Option Printed
unfolding print_entry_tags line
with_tags e words = Option.map (line e words) (print_entry_tags e.payload)

-- The `switch` on the type.
unfoldable pub print_log_entry : LogEntry → Option Printed
unfolding with_key with_tags c_string
print_log_entry e = elim e.type [
  | get_hit ↦ with_key e
  | get_miss ↦ with_key e
  | set_key ↦ with_key e
  | del_key ↦ with_key e
  | nfo_key ↦ with_key e
  | clr_all ↦ some (line e (codes "(ALL)") [])
  | clr_old ↦ some (line e (codes "(OLD)") [])
  | clr_match_none ↦ with_tags e (codes "(MATCH NONE)")
  | clr_match_all ↦ with_tags e (codes "(MATCH ALL)")
  | clr_match_any ↦ with_tags e (codes "(MATCH ANY)")
  | lst_match_none ↦ with_tags e (codes "(MATCH NONE)")
  | lst_match_all ↦ with_tags e (codes "(MATCH ALL)")
  | lst_match_any ↦ with_tags e (codes "(MATCH ANY)")
  | lst_all_keys ↦ some (line e (codes "(KEYS)") [])
  | lst_all_tags ↦ some (line e (codes "(TAGS)") [])
  | nfo ↦ some (line e [] [])
  | string ↦ some (record { sender = none; words = c_string e.payload; quoted = [] })
]

-- `while (dequeue_log_entry (…)) print_log_entry (…)`. An element that nobody has written, a line
-- that reads outside of its entry and the end of the fuel are `none`.
unfoldable pub drain : ℕ → LogQueue → Option (List Printed × LogQueue)
unfolding print_log_entry dequeue_log_entry
drain zero q = none
drain (suc fuel) q =
    let (found, entry, q') = dequeue_log_entry q in
    let printed = Option.bind entry print_log_entry in
    let rest = drain fuel q' in
    if found
    then (Option.bind printed λ p. Option.bind rest λ r. some (p ∷ r.0, r.1))
    else some ([], q')

-- `for (id = 0; id < NUM_WORKERS; ++id)`, with fuel for each queue.
unfoldable pub flush_worker_logs : ℕ → List LogQueue → Option (List Printed × List LogQueue)
unfolding drain
flush_worker_logs fuel [] = some ([], [])
flush_worker_logs fuel (q ∷ qs) =
    Option.bind (drain fuel q)
      λ d. Option.bind (flush_worker_logs fuel qs) λ rest. some (d.0 ++ rest.0, d.1 ∷ rest.1)
