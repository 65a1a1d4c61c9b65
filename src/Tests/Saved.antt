-- ===== src/Tests/Saved.antt =====
-- Witnesses for the persistence file, the configuration file and the printed log.
use cik.Prelude.{
  map, ℕ, ◌-◌, ◌^◌, ◌≡◌, refl, Option, none, some, List, [], ◌∷◌, ◌++◌, replicate, arith,
}
use mathlib.Core.List.{reverse}
use mathlib.Core.Option
use cik.Bytes.{Bytes}
use cik.Entry.{CacheEntry}
use cik.Config.Text.{trim_end, codes, c_string}
use cik.Config.Line.{parse_line, assignment}
use cik.Config.Written.{parse_line-written}
use cik.Config.Settings.{AddrInfo}
use cik.Config.{parse_args}
use cik.Config.Bounds.{IsBounded, IsGiven, parse_args-IsBounded}
use cik.Log.{pack_tags, log_queue_init, nfo, LogEntry, LogQueue}
use cik.Log.Ring.{Represents}
use cik.Log.Print.{print_log_entry, print_entry_tags, flush_worker_logs, Printed}
use cik.Log.Packed.{print_entry_tags-pack_tags}
use cik.Log.Flush.{no_queue, one_more, AllEmpty, print_all, flush_worker_logs-AllEmpty}
use cik.Log.Fifo.{enqueue, dequeue, run, run_list, run-log_queue_init}
use cik.Tests.Data.{key_a, key_b}

abbrev pub saved : CacheEntry
saved = record {
  address = 100;
  key = key_a;
  tags = key_b ∷ (1 ∷ 2 ∷ []) ∷ [];
  value = 1 ∷ 2 ∷ 3 ∷ [];
  mtime = 7;
  expires = some 15;
  nhits = 0;
}

parse_line-written_example :
    parse_line (codes " pid  = a b \n") ≡ assignment (codes "pid") (codes "a b")
unfolding trim_end
parse_line-written_example =
    parse_line-written (codes " ") b'p' (codes "id") 32 (codes " ") (codes " ") b'a' (codes " b")
      (codes " \n") (refl, tt) (refl, refl, refl, (refl, refl, refl, (refl, refl, refl, tt))) refl
      (refl, (refl, tt)) (refl, tt) (refl, (refl, (refl, tt))) refl refl (refl, (refl, tt))

abbrev no_lookup : Bytes → Option (List AddrInfo)
no_lookup name = none

abbrev config_file : Bytes → Option Bytes
config_file name = some (codes "listen_port = 80\n")

parse_args-IsBounded_example :
    IsBounded
      (IsGiven config_file (codes "cik" ∷ codes "cik.conf" ∷ []))
      (parse_args no_lookup config_file (codes "cik" ∷ codes "cik.conf" ∷ [])).config
parse_args-IsBounded_example =
    parse_args-IsBounded no_lookup config_file (codes "cik" ∷ codes "cik.conf" ∷ [])

print_entry_tags-pack_tags_example :
    print_entry_tags (pack_tags (replicate 0x100 0) 0 ((1 ∷ 2 ∷ []) ∷ (3 ∷ 0 ∷ []) ∷ []))
    ≡ some (map (λ tag. c_string (reverse tag)) ((1 ∷ 2 ∷ []) ∷ (3 ∷ 0 ∷ []) ∷ []))
print_entry_tags-pack_tags_example =
    print_entry_tags-pack_tags ((1 ∷ 2 ∷ []) ∷ (3 ∷ 0 ∷ []) ∷ []) (omega arith, (omega arith, tt))
      (omega arith)

abbrev entry : ℕ → LogEntry
entry id = record { type = nfo; worker_id = id; client_ip = 0; client_port = 0; payload = [] }

run-log_queue_init_example :
    ((run (enqueue (entry 1) ∷ dequeue ∷ dequeue ∷ []) (log_queue_init (2 ^ 8))).0
      ≡ (run_list (2 ^ 8 - 1) (enqueue (entry 1) ∷ dequeue ∷ dequeue ∷ []) []).0)
    × Represents 8
        (run (enqueue (entry 1) ∷ dequeue ∷ dequeue ∷ []) (log_queue_init (2 ^ 8))).1
        (run_list (2 ^ 8 - 1) (enqueue (entry 1) ∷ dequeue ∷ dequeue ∷ []) []).1
run-log_queue_init_example =
    run-log_queue_init 8 (enqueue (entry 1) ∷ dequeue ∷ dequeue ∷ []) (omega arith)

abbrev one_waits : LogQueue
one_waits = (run (enqueue (entry 1) ∷ []) (log_queue_init (2 ^ 8))).1

abbrev its_line : List Printed
its_line = record { sender = some (1, 0 ∷ 0 ∷ 0 ∷ 0 ∷ [], 0); words = []; quoted = [] } ∷ []

one_waits-Represents : Represents 8 one_waits (entry 1 ∷ [])
unfolding run_list
one_waits-Represents = (run-log_queue_init 8 (enqueue (entry 1) ∷ []) (omega arith)).1

flush_worker_logs-AllEmpty_example :
    (qs' : List LogQueue) × (flush_worker_logs 2 (one_waits ∷ []) ≡ some (its_line ++ [], qs'))
    × AllEmpty 8 qs'
unfolding print_all Option.bind print_log_entry
flush_worker_logs-AllEmpty_example =
    flush_worker_logs-AllEmpty 8 2 (one_waits ∷ []) (its_line ++ []) (
      one_more one_waits (entry 1 ∷ []) its_line [] [] 2 one_waits-Represents refl (omega arith)
        (no_queue 2))
