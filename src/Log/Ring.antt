-- ===== src/Log/Ring.antt =====
-- The queue of src/log.c as a bounded FIFO: one slot of the ring stays empty.
use cik.Prelude.{
  bit_and, length-replicate, ℕ, zero, suc, ◌+◌, ◌-◌, ◌%◌, ◌^◌, ◌≤◌, ◌<◌, ◌≡◌, ◌⊎◌, inl, inr, refl,
  ◌∙◌, ap, true, false, none, some, List, [], ◌∷◌, ◌++◌, length, length-set, length-append,
  get_elem?, get_elem?-set_self, get_elem?-set_ne, lt_of_get_elem?, set, ltb, leb, ◌==◌,
  if◌then◌else◌, arith,
}
use native.Mathlib.Nat.{pow-le-pow_right, one-le-pow, mod-eq_of_lt, mod_self}
use cik.Log.Mask.{and_mask}
use cik.Log.{bit_and, LogEntry, LogQueue, log_queue_init, enqueue_log_entry, dequeue_log_entry}

-- A ring of 2 ^ k elements, with both positions inside it.
abbrev pub IsQueue : ℕ → LogQueue → Type 0
IsQueue k q = (q.mask ≡ 2 ^ k - 1) × (length q.elems ≡ 2 ^ k) × (q.read < 2 ^ k) × (q.write < 2 ^ k)

-- How many entries wait.
abbrev pub waiting : ℕ → LogQueue → ℕ
waiting k q = if leb q.read q.write then q.write - q.read else q.write + 2 ^ k - q.read

-- The index `i` places after a position.
abbrev pub place : ℕ → ℕ → ℕ → ℕ
place k pos i = if ltb (pos + i) (2 ^ k) then pos + i else pos + i - 2 ^ k

-- The queue holds exactly these entries, the next one to be taken first.
abbrev pub Represents : ℕ → LogQueue → List LogEntry → Type 0
Represents k q es =
    IsQueue k q
    × (waiting k q ≡ length es)
    × ((i : ℕ) (e : LogEntry)
        → get_elem? es i ≡ some e
        → get_elem? q.elems (place k q.read i) ≡ some (some e))

next :
    (k a : ℕ)
    → a < 2 ^ k
    → (a + 1 < 2 ^ k → bit_and (a + 1) (2 ^ k - 1) ≡ a + 1)
      × (a + 1 ≡ 2 ^ k → bit_and (a + 1) (2 ^ k - 1) ≡ 0)
next k a h = (
  λ lt. and_mask k (a + 1) ∙ mod-eq_of_lt lt,
  λ eq. and_mask k (a + 1) ∙ ap (λ t. t % 2 ^ k) eq ∙ mod_self (2 ^ k),
)

-- One entry more at the end.
get_elem?-append :
    (es : List LogEntry) (e x : LogEntry) (i : ℕ)
    → get_elem? (es ++ (e ∷ [])) i ≡ some x
    → ((i < length es) × (get_elem? es i ≡ some x)) ⊎ ((i ≡ length es) × (x ≡ e))
get_elem?-append [] e x zero h = inr (refl, ground arith)
get_elem?-append [] e x (suc i) h = cc
get_elem?-append (y ∷ es) e x zero h = inl (omega arith, h)
get_elem?-append (y ∷ es) e x (suc i) h = elim (get_elem?-append es e x i h) [
  | inl (lt, at) ↦ inl (omega arith, at)
  | inr (eq, same) ↦ inr (omega arith, same)
]

-- A queue of 2 ^ k elements, for k up to 32, is empty as `LOG_QUEUE_INIT` leaves it.
pub log_queue_init-Represents : (k : ℕ) → k ≤ 32 → Represents k (log_queue_init (2 ^ k)) []
unfolding log_queue_init
log_queue_init-Represents k h = (
  (
    ground (arith, one-le-pow k 2, pow-le-pow_right {n = 2} (omega arith) h),
    length-replicate (2 ^ k) none,
    omega (arith, one-le-pow k 2),
    omega (arith, one-le-pow k 2),
  ),
  refl,
  λ i e q. cc,
)

module _ (k : ℕ) (q : LogQueue) where
  enqueue-cases :
      (es : List LogEntry) (e : LogEntry)
      → Represents k q es
      → (length es < 2 ^ k - 1
          → ((enqueue_log_entry q e).0 ≡ true)
            × Represents k (enqueue_log_entry q e).1 (es ++ (e ∷ [])))
        × (2 ^ k - 1 ≤ length es → enqueue_log_entry q e ≡ (false, q))
  unfolding enqueue_log_entry
  enqueue-cases es e ((mask, len, r, w), wait, at) =
      let (inside, around) = next k q.write w in
      let step : bit_and (q.write + 1) q.mask ≡ bit_and (q.write + 1) (2 ^ k - 1) = rw mask refl in
      (
        λ room.
            let placed : (i : ℕ) (x : LogEntry)
                → get_elem? (es ++ (e ∷ [])) i ≡ some x
                → get_elem? (set q.elems q.write (some e)) (place k q.read i) ≡ some (some x) =
              λ i x h. elim (get_elem?-append es e x i h) [
                | inl (lt, here) ↦
                    get_elem?-set_ne q.elems q.write (place k q.read i) (some e)
                      (λ c. ground (arith, wait))
                    ∙ at i x here
                | inr (last, same) ↦
                    let here : place k q.read i ≡ q.write = ground (arith, wait) in
                    rw (here, same) (get_elem?-set_self q.elems q.write (some e) (omega arith))
              ] in
            let test : (bit_and (q.write + 1) q.mask == q.read) ≡ false =
              ground (arith, step, inside, around, wait) in
            rw (test, enqueue_log_entry)
              (
                refl,
                (
                  (
                    mask,
                    length-set q.elems q.write (some e) ∙ len,
                    r,
                    ground (arith, step, inside, around),
                  ),
                  ground (arith, step, inside, around, wait, length-append es (e ∷ [])),
                  placed,
                ),
              ),
        λ full.
            let test : (bit_and (q.write + 1) q.mask == q.read) ≡ true =
              ground (arith, step, inside, around, wait) in
            rw (test, enqueue_log_entry) refl,
      )

  -- If the queue holds fewer than 2 ^ k - 1 entries, a new one goes to its end.
  pub enqueue_log_entry-Represents :
      (es : List LogEntry) (e : LogEntry)
      → Represents k q es
      → length es < 2 ^ k - 1
      → ((enqueue_log_entry q e).0 ≡ true) × Represents k (enqueue_log_entry q e).1 (es ++ (e ∷ []))
  enqueue_log_entry-Represents es e r room = (enqueue-cases es e r).0 room

  -- If the queue holds 2 ^ k - 1 entries or more, a new one is refused and the queue is left as it
  -- was.
  pub enqueue_log_entry_full :
      (es : List LogEntry) (e : LogEntry)
      → Represents k q es
      → 2 ^ k - 1 ≤ length es
      → enqueue_log_entry q e ≡ (false, q)
  enqueue_log_entry_full es e r full = (enqueue-cases es e r).1 full

  dequeue-cases :
      (es : List LogEntry)
      → Represents k q es
      → (es ≡ [] → dequeue_log_entry q ≡ (false, none, q))
        × ((e : LogEntry) (rest : List LogEntry)
            → es ≡ e ∷ rest
            → ((dequeue_log_entry q).0 ≡ true)
              × ((dequeue_log_entry q).1 ≡ some e)
              × Represents k (dequeue_log_entry q).2 rest)
  unfolding dequeue_log_entry
  dequeue-cases es ((mask, len, r, w), wait, at) =
      let (inside, around) = next k q.read r in
      let step : bit_and (q.read + 1) q.mask ≡ bit_and (q.read + 1) (2 ^ k - 1) = rw mask refl in
      (
        λ empty.
            let test : (q.read == q.write) ≡ true = ground (arith, wait, ap length empty) in
            rw (test, dequeue_log_entry) refl,
        λ e rest several.
            let size = ap length several in
            let first : get_elem? q.elems q.read ≡ some (some e) =
              let here : q.read ≡ place k q.read 0 = ground arith in
              ap (λ t. get_elem? q.elems t) here ∙ at 0 e (ap (λ t. get_elem? t 0) several) in
            let moved : (i : ℕ) (x : LogEntry)
                → get_elem? rest i ≡ some x
                → get_elem? q.elems (place k (bit_and (q.read + 1) q.mask) i) ≡ some (some x) =
              λ i x h.
                let lt = lt_of_get_elem? rest i x h in
                let here : place k (bit_and (q.read + 1) q.mask) i ≡ place k q.read (suc i) =
                  ground (arith, step, inside, around, wait, size) in
                ap (λ t. get_elem? q.elems t) here
                ∙ at (suc i) x (ap (λ t. get_elem? t (suc i)) several ∙ h) in
            let test : (q.read == q.write) ≡ false = ground (arith, wait, size) in
            rw (test, dequeue_log_entry)
              (
                refl,
                rw first refl,
                (
                  (mask, len, ground (arith, step, inside, around), w),
                  ground (arith, step, inside, around, wait, size),
                  moved,
                ),
              ),
      )

  -- The entry that is taken is the one that has waited longest, and the rest stay in order.
  pub dequeue_log_entry-Represents :
      (e : LogEntry) (rest : List LogEntry)
      → Represents k q (e ∷ rest)
      → ((dequeue_log_entry q).0 ≡ true)
        × ((dequeue_log_entry q).1 ≡ some e)
        × Represents k (dequeue_log_entry q).2 rest
  dequeue_log_entry-Represents e rest r = (dequeue-cases (e ∷ rest) r).1 e rest refl

  -- An empty queue gives nothing and is left as it was.
  pub dequeue_log_entry_empty : Represents k q [] → dequeue_log_entry q ≡ (false, none, q)
  dequeue_log_entry_empty r = (dequeue-cases [] r).0 refl
