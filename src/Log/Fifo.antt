-- ===== src/Log/Fifo.antt =====
-- The queue of src/log.c against a list with a bound: both operations on every branch.
use cik.Prelude.{
  ℕ, ◌-◌, ◌^◌, ◌≤◌, ◌≡◌, inl, inr, refl, Bool, true, false, Option, none, some, List, [], ◌∷◌, ◌++◌,
  length, ltb, if◌then◌else◌, arith, Bool-cases,
}
use cik.Log.{log_queue_init, LogEntry, LogQueue, enqueue_log_entry, dequeue_log_entry}
use cik.Log.Ring.{
  log_queue_init-Represents, Represents, enqueue_log_entry-Represents, enqueue_log_entry_full,
  dequeue_log_entry-Represents, dequeue_log_entry_empty,
}

-- The list that holds at most `room` entries, and its first entry.
unfoldable pub put : ℕ → List LogEntry → LogEntry → Bool × List LogEntry
put room es e = if ltb (length es) room then (true, es ++ (e ∷ [])) else (false, es)

unfoldable pub take_first : List LogEntry → Bool × Option LogEntry × List LogEntry
take_first [] = (false, none, [])
take_first (e ∷ es) = (true, some e, es)

module _ (k : ℕ) (q : LogQueue) (es : List LogEntry) where
  -- On a queue of 2 ^ k elements, `enqueue_log_entry` is putting an entry at the end of a list that
  -- has room for 2 ^ k - 1: the same is returned, and the queue holds that list after it.
  pub enqueue_log_entry-put :
      (e : LogEntry)
      → Represents k q es
      → ((enqueue_log_entry q e).0 ≡ (put (2 ^ k - 1) es e).0)
        × Represents k (enqueue_log_entry q e).1 (put (2 ^ k - 1) es e).1
  unfolding put
  enqueue_log_entry-put e r = elim (Bool-cases (ltb (length es) (2 ^ k - 1))) [
    | inl room ↦ rw (room, put) (enqueue_log_entry-Represents k q es e r (ground (arith, room)))
    | inr full ↦
        let refused = enqueue_log_entry_full k q es e r (ground (arith, full)) in
        rw (full, put) (rw refused (refl, r))
  ]

-- `dequeue_log_entry` is taking the first entry of the list, if there is one: the same is returned,
-- the same entry is handed out, and the queue holds the rest after it.
pub dequeue_log_entry-take_first :
    (k : ℕ) (q : LogQueue) (es : List LogEntry)
    → Represents k q es
    → ((dequeue_log_entry q).0 ≡ (take_first es).0)
      × ((dequeue_log_entry q).1 ≡ (take_first es).1)
      × Represents k (dequeue_log_entry q).2 (take_first es).2
unfolding take_first
dequeue_log_entry-take_first k q [] r = rw (dequeue_log_entry_empty k q r) (refl, refl, r)
dequeue_log_entry-take_first k q (e ∷ es) r = dequeue_log_entry-Represents k q e es r

-- What a worker and the logging thread do to a queue, in the order in which it happens.
pub data Call : Type 0 where
  enqueue : LogEntry → Call
  dequeue : Call

-- What the calls return, with the entries handed out, and the queue after them.
unfoldable pub run : List Call → LogQueue → List (Bool × Option LogEntry) × LogQueue
run [] q = ([], q)
run (enqueue e ∷ calls) q =
    let (accepted, q') = enqueue_log_entry q e in
    let rest = run calls q' in ((accepted, none) ∷ rest.0, rest.1)
run (dequeue ∷ calls) q =
    let (found, entry, q') = dequeue_log_entry q in
    let rest = run calls q' in ((found, entry) ∷ rest.0, rest.1)

unfoldable pub run_list :
    ℕ → List Call → List LogEntry → List (Bool × Option LogEntry) × List LogEntry
unfolding put take_first
run_list room [] es = ([], es)
run_list room (enqueue e ∷ calls) es =
    let (accepted, es') = put room es e in
    let rest = run_list room calls es' in ((accepted, none) ∷ rest.0, rest.1)
run_list room (dequeue ∷ calls) es =
    let (found, entry, es') = take_first es in
    let rest = run_list room calls es' in ((found, entry) ∷ rest.0, rest.1)

run-run_list :
    (k : ℕ) (calls : List Call) (q : LogQueue) (es : List LogEntry)
    → Represents k q es
    → ((run calls q).0 ≡ (run_list (2 ^ k - 1) calls es).0)
      × Represents k (run calls q).1 (run_list (2 ^ k - 1) calls es).1
unfolding run run_list
run-run_list k [] q es r = (refl, r)
run-run_list k (enqueue e ∷ calls) q es r =
    let (same, r') = enqueue_log_entry-put k q es e r in
    let (results, r'') =
      run-run_list k calls (enqueue_log_entry q e).1 (put (2 ^ k - 1) es e).1 r' in
    (ground (arith, same, results), r'')
run-run_list k (dequeue ∷ calls) q es r =
    let (same, entry, r') = dequeue_log_entry-take_first k q es r in
    let (results, r'') = run-run_list k calls (dequeue_log_entry q).2 (take_first es).2 r' in
    (ground (arith, same, entry, results), r'')

-- From a new queue of 2 ^ k elements on, with k up to 32, any calls of `enqueue_log_entry` and
-- `dequeue_log_entry` return, and hand out, what they would on a list with room for 2 ^ k - 1
-- entries that takes in at the end and gives out at the front; the queue holds that list after them.
pub run-log_queue_init :
    (k : ℕ) (calls : List Call)
    → k ≤ 32
    → ((run calls (log_queue_init (2 ^ k))).0 ≡ (run_list (2 ^ k - 1) calls []).0)
      × Represents k (run calls (log_queue_init (2 ^ k))).1 (run_list (2 ^ k - 1) calls []).1
run-log_queue_init k calls h =
    run-run_list k calls (log_queue_init (2 ^ k)) [] (log_queue_init-Represents k h)
