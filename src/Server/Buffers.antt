-- ===== src/Server/Buffers.antt =====
-- The payload buffers that `start_server` of src/server.c reserves for its workers, in the memory's
-- bookkeeping; and what it leaves open when it fails.
use cik.Prelude.{
  map, get_elem?-set_cases, ℕ, zero, suc, ◌+◌, ◌-◌, ◌*◌, ◌%◌, ◌^◌, ◌≤◌, ◌<◌, ◌≡◌, inl, inr, refl,
  ◌∙◌, ap, subst, Option, none, some, List, [], ◌∷◌, get_elem?, set, ltb, arith, Bool-cases,
  Option-cases,
}
use cik.Memory.{
  Memory, Partition, max_bucket_size, max_total_memory, bucket_header, padded, push_memory,
  push_bucket, count_used, find_partition, partition_of, reserve_in, reserve_memory,
}
use cik.Memory.Buckets.{IsMemory, HasRoom}
use cik.Memory.Fit.{find_partition-first}
use cik.Memory.Safety.{Reserved, reserve_memory-Reserved}
use cik.Server.Connections.{num_workers}
use cik.Server.Starting.{
  Worker, Calls, Started, failed, running, reserve_biggest_possible_payload, start_workers,
  start_server, with_epoll, close,
}

-- No partition has buckets above the maximum, and the cursor can move past `n` such buckets.
unfoldable pub Roomy : ℕ → Memory → Type 0
Roomy n m =
    (i : ℕ) (p : Partition)
    → get_elem? m.partitions i ≡ some p
    → (p.size ≤ max_bucket_size) × (m.memory_cursor + n * 0x800040 < 2 ^ 64)

pub Roomy-HasRoom : (n : ℕ) (m : Memory) → Roomy (suc n) m → HasRoom m
unfolding Roomy
Roomy-HasRoom n m h i p at = let (size, cursor) = h i p at in omega (arith, size, cursor)

-- One bucket less of room, after a step that moved the cursor by at most one and kept the sizes.
used_up :
    (n : ℕ) (m : Memory) (i : ℕ) (p p' : Partition) (cursor : ℕ) (buckets : List (ℕ × ℕ))
    → Roomy (suc n) m
    → get_elem? m.partitions i ≡ some p
    → p'.size ≡ p.size
    → cursor ≤ m.memory_cursor + 0x800040
    → Roomy n
        (record m { partitions = set m.partitions i p'; memory_cursor = cursor; buckets = buckets })
unfolding Roomy
used_up n m i p p' cursor buckets h at same le j q there =
    elim (get_elem?-set_cases m.partitions i j p' q there) [
      | inl new ↦
          let (size, room) = h i p at in
          let q_size : q.size ≡ p.size = ap (λ (r : Partition). r.size) new ∙ same in
          (omega (arith, size, q_size), omega (arith, room, le))
      | inr old ↦ let (size, room) = h j q old in (size, omega (arith, room, le))
    ]

reserve_in-Roomy :
    (n : ℕ) (m : Memory) (i : ℕ) (p : Partition) (buckets : List ℕ)
    → Roomy (suc n) m
    → get_elem? m.partitions i ≡ some p
    → Roomy n (reserve_in i p buckets m).1
unfolding reserve_in push_bucket count_used push_memory Roomy
reserve_in-Roomy n m i p [] h at =
    let size = bucket_header + padded p.size in
    let cursor = (m.memory_cursor + size) % 2 ^ 64 in
    let (bound, room) = h i p at in
    let le : cursor ≤ m.memory_cursor + 0x800040 = omega (arith, bound) in
    elim (Bool-cases
      (ltb ((m.main_memory + max_total_memory) % 2 ^ 64) ((m.memory_cursor + size) % 2 ^ 64))) [
        | inl out ↦
            rw (out, push_memory)
              (λ j q there.
                let (q_bound, q_room) = h j q there in (q_bound, omega (arith, q_room, le)))
        | inr inside ↦
            rw (inside, push_memory)
              (used_up n m i p _ cursor ((m.memory_cursor + bucket_header, i) ∷ m.buckets) h at refl
                le)
      ]
reserve_in-Roomy n m i p (address ∷ rest) h at =
    used_up n m i p _ m.memory_cursor m.buckets h at refl (omega arith)

pub reserve_memory-Roomy :
    (n : ℕ) (m : Memory) (size : ℕ) → Roomy (suc n) m → Roomy n (reserve_memory size m).1
unfolding reserve_memory Roomy
reserve_memory-Roomy n m size h =
    elim (Option-cases (find_partition (size % 2 ^ 32) 0 m.partitions)) [
      | inl nothing ↦
          rw (nothing, reserve_memory)
            (λ i p at. let (bound, room) = h i p at in (bound, omega (arith, room)))
      | inr ((i, p), found) ↦
          let (le, at, fits, first) =
            find_partition-first (size % 2 ^ 32) 0 m.partitions i p found in
          let start : i - 0 ≡ i = omega arith in
          rw (found, reserve_memory)
            (reserve_in-Roomy n m i p p.free_buckets h
              (subst (λ t. get_elem? m.partitions t ≡ some p) start at))
    ]

-- Every worker has a buffer.
abbrev pub HaveBuffers : List Worker → Type 0
HaveBuffers [] = Unit
HaveBuffers (worker ∷ workers) =
    (address : ℕ) × (worker.payload_buffer.base ≡ some address) × HaveBuffers workers

-- The bucket at an address is one of a partition with buckets of at least a size.
abbrev pub IsAsLarge : ℕ → ℕ → Memory → Type 0
IsAsLarge size a m =
    (i : ℕ) × (p : Partition) × (partition_of a m.buckets ≡ some i)
    × (get_elem? m.partitions i ≡ some p)
    × (size ≤ p.size)

-- Each buffer is empty, and its bucket as large as it says.
abbrev pub AreAsLarge : List Worker → Memory → Type 0
AreAsLarge [] m = Unit
AreAsLarge (worker ∷ workers) m =
    ((a : ℕ)
      → worker.payload_buffer.base ≡ some a
      → (worker.payload_buffer.nmemb ≡ 0)
        × (worker.payload_buffer.cap ≡ max_bucket_size)
        × IsAsLarge max_bucket_size a m)
    × AreAsLarge workers m

-- The buckets in use with the workers' buffers.
unfoldable pub in_use : List Worker → List ℕ → List ℕ
in_use [] live = live
in_use (worker ∷ workers) live =
    in_use workers (elim worker.payload_buffer.base [ none ↦ live | some address ↦ address ∷ live ])

unfoldable pub count_up : ℕ → ℕ → List ℕ
count_up id zero = []
count_up id (suc n) = id ∷ count_up (id + 1) n

start_workers-ids :
    (n id : ℕ) (m : Memory) → map (λ (w : Worker). w.id) (start_workers n id m).0 ≡ count_up id n
unfolding start_workers count_up
start_workers-ids zero id m = refl
start_workers-ids (suc n) id m =
    ap (λ t. id ∷ t) (start_workers-ids n (id + 1) (reserve_biggest_possible_payload m).1)

pub bucket_missing :
    (m : Memory) (live : List ℕ) (size : ℕ) (r : Option ℕ × Memory)
    → r.0 ≡ none
    → Reserved m live size r
    → IsMemory r.1 live
bucket_missing m live size (none, m') h reserved = reserved
bucket_missing m live size (some a, m') h reserved = ground (arith, h)

pub bucket_got :
    (m : Memory) (live : List ℕ) (size : ℕ) (r : Option ℕ × Memory) (address : ℕ)
    → r.0 ≡ some address
    → Reserved m live size r
    → IsMemory r.1 (address ∷ live)
bucket_got m live size (none, m') address h reserved = ground (arith, h)
bucket_got m live size (some a, m') address h reserved =
    let same : a ≡ address = ground (arith, h) in
    subst (λ x. IsMemory m' (x ∷ live)) same reserved.1

start_workers-IsMemory :
    (n id : ℕ) (m : Memory) (live : List ℕ)
    → IsMemory m live
    → Roomy n m
    → IsMemory (start_workers n id m).1 (in_use (start_workers n id m).0 live)
unfolding start_workers in_use reserve_biggest_possible_payload
start_workers-IsMemory zero id m live mem room = mem
start_workers-IsMemory (suc n) id m live mem room =
    let m' = (reserve_memory max_bucket_size m).1 in
    let room' = reserve_memory-Roomy n m max_bucket_size room in
    let reserved = reserve_memory-Reserved m live max_bucket_size mem (Roomy-HasRoom n m room) in
    elim (Option-cases (reserve_memory max_bucket_size m).0) [
      | inl none_left ↦
          let mem' : IsMemory m' live =
            bucket_missing m live max_bucket_size (reserve_memory max_bucket_size m) none_left
              reserved in
          rw (none_left, in_use) (start_workers-IsMemory n (id + 1) m' live mem' room')
      | inr (address, got) ↦
          let mem' : IsMemory m' (address ∷ live) =
            bucket_got m live max_bucket_size (reserve_memory max_bucket_size m) address got
              reserved in
          rw (got, in_use) (start_workers-IsMemory n (id + 1) m' (address ∷ live) mem' room')
    ]

-- What a start comes to.
abbrev pub StartedWell : List ℕ → Started → Type 0
StartedWell live (failed fds) = fds ≡ []
StartedWell live (running fd epfd workers m) =
    (map (λ (w : Worker). w.id) workers ≡ count_up 0 num_workers)
    × HaveBuffers workers
    × AreAsLarge workers m
    × IsMemory m (in_use workers live)

close_own : (fd : ℕ) → close fd (fd ∷ []) ≡ []
unfolding close
close_own fd = ground arith

close_both : (fd epfd : ℕ) → close fd (close epfd (epfd ∷ (fd ∷ []))) ≡ []
unfolding close
close_both fd epfd = ground arith

-- Whatever its calls of the system return, `start_server` ends with an error and none of its
-- descriptors open, or with the 16 workers of the ids 0 to 15, of which each has a payload buffer if
-- the memory has one for each, and the buffers are buckets of their own: the memory's bookkeeping holds
-- with them in use, if it did before, no partition has
-- buckets above the maximum, and the cursor can move past 16 of these without wrapping round.
pub start_server-StartedWell :
    (calls : Calls) (m : Memory) (live : List ℕ)
    → IsMemory m live
    → Roomy num_workers m
    → HaveBuffers (start_workers num_workers 0 m).0
    → AreAsLarge (start_workers num_workers 0 m).0 (start_workers num_workers 0 m).1
    → StartedWell live (start_server calls m)
unfolding start_server with_epoll
start_server-StartedWell calls m live mem room have large = elim (Option-cases calls.socket) [
  | inl e ↦ rw (e, start_server) refl
  | inr (fd, e) ↦ elim (Bool-cases calls.binds) [
    | inr b ↦ rw (e, start_server) (rw b (close_own fd))
    | inl b ↦ elim (Bool-cases calls.listens) [
      | inr l ↦ rw (e, start_server) (rw b (rw l (close_own fd)))
      | inl l ↦ elim (Option-cases calls.epoll_create) [
        | inl p ↦ rw (e, start_server) (rw b (rw l (rw (p, with_epoll) (close_own fd))))
        | inr (epfd, p) ↦ elim (Bool-cases calls.adds) [
          | inr a ↦
              rw (e, start_server) (rw b (rw l (rw (p, with_epoll) (rw a (close_both fd epfd)))))
          | inl a ↦
              rw (e, start_server)
                (rw b (
                  rw l (
                    rw (p, with_epoll)
                      (rw a (
                        start_workers-ids num_workers 0 m,
                        have,
                        large,
                        start_workers-IsMemory num_workers 0 m live mem room,
                      )))))
        ]
      ]
    ]
  ]
]
