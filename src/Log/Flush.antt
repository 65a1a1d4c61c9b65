-- ===== src/Log/Flush.antt =====
-- What `flush_worker_logs` of src/server.c prints of what waits in the queues.
use cik.Prelude.{
  ℕ, zero, suc, ◌<◌, ◌≡◌, inl, inr, refl, Option, some, List, [], ◌∷◌, ◌++◌, length, arith,
  Option-cases,
}
use mathlib.Core.Option
use cik.Log.{LogEntry, LogQueue, dequeue_log_entry}
use cik.Log.Ring.{Represents, dequeue_log_entry-Represents, dequeue_log_entry_empty}
use cik.Log.Print.{Printed, print_log_entry, drain, flush_worker_logs}

-- The lines of some entries, in their order.
unfoldable pub print_all : List LogEntry → Option (List Printed)
print_all [] = some []
print_all (e ∷ es) =
    Option.bind (print_log_entry e) λ p. Option.bind (print_all es) λ ps. some (p ∷ ps)

-- A queue with some entries is drained in one round for each and one more.
pub drain-print_all :
    (k fuel : ℕ) (q : LogQueue) (es : List LogEntry) (ps : List Printed)
    → Represents k q es
    → length es < fuel
    → print_all es ≡ some ps
    → (q' : LogQueue) × (drain fuel q ≡ some (ps, q')) × Represents k q' []
unfolding drain print_all Option.bind
drain-print_all k zero q es ps r enough h = absurd (omega (arith, enough))
drain-print_all k (suc fuel) q [] ps r enough h =
    (q, ground (arith, dequeue_log_entry_empty k q r, h), r)
drain-print_all k (suc fuel) q (e ∷ es) ps r enough h =
    let (found, entry, r') = dequeue_log_entry-Represents k q e es r in
    elim (Option-cases (print_log_entry e)) [
      | inl e₁ ↦ ground (arith, e₁, h)
      | inr (p, e₁) ↦ elim (Option-cases (print_all es)) [
        | inl e₂ ↦ ground (arith, e₁, e₂, h)
        | inr (qs, e₂) ↦
            let (q', drained, empty) =
              drain-print_all k fuel (dequeue_log_entry q).2 es qs r' (omega (arith, enough)) e₂ in
            (q', ground (arith, found, entry, e₁, e₂, h, drained), empty)
      ]
    ]

-- Each queue with what waits in it and the lines of that.
pub data AllWaiting (k : ℕ) : List LogQueue → List Printed → ℕ → Type 0 where
  no_queue : (fuel : ℕ) → AllWaiting k [] [] fuel
  one_more :
      (q : LogQueue) (es : List LogEntry) (ps : List Printed) (qs : List LogQueue)
      (later : List Printed) (fuel : ℕ)
      → Represents k q es
      → print_all es ≡ some ps
      → length es < fuel
      → AllWaiting k qs later fuel
      → AllWaiting k (q ∷ qs) (ps ++ later) fuel

unfoldable pub AllEmpty : ℕ → List LogQueue → Type 0
AllEmpty k [] = Unit
AllEmpty k (q ∷ qs) = Represents k q [] × AllEmpty k qs

-- `flush_worker_logs` ends, given a round of the inner loop for each waiting entry of a worker and
-- one more. It prints what waits, worker by worker and the longest waiting first, and leaves every
-- queue empty, if each entry can be printed and nothing is put on a queue meanwhile.
pub flush_worker_logs-AllEmpty :
    (k fuel : ℕ) (qs : List LogQueue) (ps : List Printed)
    → AllWaiting k qs ps fuel
    → (qs' : List LogQueue) × (flush_worker_logs fuel qs ≡ some (ps, qs')) × AllEmpty k qs'
unfolding flush_worker_logs Option.bind AllEmpty
flush_worker_logs-AllEmpty k _ _ _ (no_queue fuel) = ([], refl, tt)
flush_worker_logs-AllEmpty k _ _ _ (one_more q es ps qs later fuel r printed enough rest) =
    let (q', drained, empty) = drain-print_all k fuel q es ps r enough printed in
    let (qs', flushed, all_empty) = flush_worker_logs-AllEmpty k fuel qs later rest in
    (q' ∷ qs', ground (arith, drained, flushed), (empty, all_empty))
