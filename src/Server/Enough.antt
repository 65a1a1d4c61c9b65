-- ===== src/Server/Enough.antt =====
-- That the memory of src/memory.c has a payload buffer for each worker of src/server.c.
use cik.Prelude.{
  ℕ, zero, suc, ◌+◌, ◌-◌, ◌*◌, ◌/◌, ◌%◌, ◌^◌, ◌≤◌, ◌<◌, ◌≡◌, inl, inr, refl, sym, ◌∙◌, ap, subst,
  Option, none, some, List, [], ◌∷◌, get_elem?, get_elem?-set_self, get_elem?-set_ne,
  lt_of_get_elem?, set, leb, ltb, arith, Bool-cases, Option-cases,
}
use native.Mathlib.Decide.{ℕ_discrete}
use cik.Memory.{
  Memory, Partition, max_bucket_size, max_total_memory, bucket_header, padded, push_memory,
  min_bucket_size, push_partitions, push_bucket, count_used, find_partition, reserve_in,
  reserve_memory,
}
use cik.Memory.Fit.{find_partition-first}
use cik.Server.Starting.{start_workers, reserve_biggest_possible_payload}
use cik.Server.Buffers.{Roomy, reserve_memory-Roomy, HaveBuffers}

-- A partition has buckets of the maximal size.
abbrev pub HasLargest : List Partition → Type 0
HasLargest ps = (i : ℕ) × (p : Partition) × (get_elem? ps i ≡ some p) × (max_bucket_size ≤ p.size)

-- There is one, and `n` of its buckets fit between the cursor and the end of the memory.
abbrev pub IsAmple : ℕ → Memory → Type 0
IsAmple n m =
    (m.memory_cursor + n * 0x800040 ≤ m.main_memory + max_total_memory)
    × (m.main_memory + max_total_memory < 2 ^ 64)
    × HasLargest m.partitions

HasLargest-set :
    (ps : List Partition) (i : ℕ) (p p' : Partition)
    → get_elem? ps i ≡ some p
    → p'.size ≡ p.size
    → HasLargest ps
    → HasLargest (set ps i p')
HasLargest-set ps i p p' at same (j, q, there, large) = elim (ℕ_discrete i j) [
  | no apart ↦ (j, q, get_elem?-set_ne ps i j p' apart ∙ there, large)
  | yes equal ↦
      let own : some p ≡ some q = sym at ∙ ap (get_elem? ps) equal ∙ there in
      let size : p.size ≡ q.size =
        ap (λ (t : Option Partition). elim t as (λ x. ℕ) [ none ↦ 0 | some r ↦ r.size ]) own in
      (
        i,
        p',
        get_elem?-set_self ps i p' (lt_of_get_elem? ps i p at),
        omega (arith, size, same, large),
      )
]

find_partition_fails :
    (size i : ℕ) (ps : List Partition) (j : ℕ) (p : Partition)
    → find_partition size i ps ≡ none
    → get_elem? ps j ≡ some p
    → p.size < size
unfolding find_partition
find_partition_fails size i [] j p h at = cc
find_partition_fails size i (q ∷ ps) j p h at = elim (Bool-cases (leb size q.size)) [
  | inl fits ↦ ground (arith, h, fits)
  | inr small ↦
      elim j as (λ k. get_elem? (q ∷ ps) k ≡ some p → p.size < size) [
        | zero ↦ λ at'.
            let same : q ≡ p = ground (arith, at') in
            subst (λ (t : Partition). t.size < size) same (ground (arith, small))
        | suc k ↦ λ at'. find_partition_fails size (i + 1) ps k p (ground (arith, h, small)) at'
      ]
        at
]

-- What a reservation comes to with enough memory: a bucket, and enough for one less.
abbrev Got : ℕ → Option ℕ × Memory → Type 0
Got n (found, m) = ((a : ℕ) × (found ≡ some a)) × IsAmple n m

reserve_in-Got :
    (n : ℕ) (m : Memory) (i : ℕ) (p : Partition) (buckets : List ℕ)
    → Roomy (suc n) m
    → IsAmple (suc n) m
    → get_elem? m.partitions i ≡ some p
    → Got n (reserve_in i p buckets m)
unfolding reserve_in push_bucket count_used push_memory Roomy
reserve_in-Got n m i p [] h (ends, top, largest) at =
    let size = bucket_header + padded p.size in
    let (bound, room) = h i p at in
    let small : size ≤ 0x800040 = omega (arith, bound) in
    let moved : (m.memory_cursor + size) % 2 ^ 64 ≡ m.memory_cursor + size =
      omega (arith, small, ends, top) in
    let limit : (m.main_memory + max_total_memory) % 2 ^ 64 ≡ m.main_memory + max_total_memory =
      omega (arith, top) in
    elim (Bool-cases
      (ltb ((m.main_memory + max_total_memory) % 2 ^ 64) ((m.memory_cursor + size) % 2 ^ 64))) [
        | inl out ↦
            let over : (m.main_memory + max_total_memory) % 2 ^ 64
                < (m.memory_cursor + size) % 2 ^ 64 =
              ground (arith, out) in
            absurd (omega (arith, over, moved, limit, small, ends))
        | inr inside ↦
            rw (inside, push_memory)
              (
                (_, refl),
                (
                  omega (arith, moved, small, ends),
                  top,
                  HasLargest-set m.partitions i p _ at refl largest,
                ),
              )
      ]
reserve_in-Got n m i p (address ∷ rest) h (ends, top, largest) at =
    ((_, refl), (omega (arith, ends), top, HasLargest-set m.partitions i p _ at refl largest))

reserve_memory-Got :
    (n : ℕ) (m : Memory)
    → Roomy (suc n) m
    → IsAmple (suc n) m
    → Got n (reserve_memory max_bucket_size m)
unfolding reserve_memory
reserve_memory-Got n m h ample =
    elim (Option-cases (find_partition (max_bucket_size % 2 ^ 32) 0 m.partitions)) [
      | inl nothing ↦
          let (j, q, there, large) = ample.2 in
          let small =
            find_partition_fails (max_bucket_size % 2 ^ 32) 0 m.partitions j q nothing there in
          absurd (omega (arith, small, large))
      | inr ((i, p), found) ↦
          let (le, at, fits, first) =
            find_partition-first (max_bucket_size % 2 ^ 32) 0 m.partitions i p found in
          let start : i - 0 ≡ i = omega arith in
          rw (found, reserve_memory)
            (reserve_in-Got n m i p p.free_buckets h ample
              (subst (λ t. get_elem? m.partitions t ≡ some p) start at))
    ]

-- Once there is such a partition it stays.
pub push_memory-HasLargest :
    (size : ℕ) (m : Memory) → HasLargest m.partitions → HasLargest (push_memory size m).1.partitions
unfolding push_memory
push_memory-HasLargest size m h =
    elim (Bool-cases
      (ltb ((m.main_memory + max_total_memory) % 2 ^ 64) ((m.memory_cursor + size) % 2 ^ 64))) [
        | inl out ↦ rw (out, push_memory) h
        | inr inside ↦ rw (inside, push_memory) h
      ]

pub push_memory-base : (size : ℕ) (m : Memory) → (push_memory size m).1.main_memory ≡ m.main_memory
unfolding push_memory
push_memory-base size m =
    elim (Bool-cases
      (ltb ((m.main_memory + max_total_memory) % 2 ^ 64) ((m.memory_cursor + size) % 2 ^ 64))) [
        | inl out ↦ rw (out, push_memory) refl
        | inr inside ↦ rw (inside, push_memory) refl
      ]

pub push_partitions-HasLargest :
    (rounds size : ℕ) (m : Memory)
    → HasLargest m.partitions
    → HasLargest (push_partitions rounds size m).partitions
unfolding push_partitions
push_partitions-HasLargest zero size m h = h
push_partitions-HasLargest (suc rounds) size m (i, p, at, large) =
    elim (Bool-cases (ltb size min_bucket_size)) [
      | inl small ↦ rw (small, push_partitions) (i, p, at, large)
      | inr more ↦
          rw (more, push_partitions)
            (push_partitions-HasLargest rounds (size / 2) _ (suc i, p, at, large))
    ]

pub push_partitions-base :
    (rounds size : ℕ) (m : Memory) → (push_partitions rounds size m).main_memory ≡ m.main_memory
unfolding push_partitions
push_partitions-base zero size m = refl
push_partitions-base (suc rounds) size m = elim (Bool-cases (ltb size min_bucket_size)) [
  | inl small ↦ rw (small, push_partitions) refl
  | inr more ↦
      rw (more, push_partitions) (push_partitions-base rounds (size / 2) _ ∙ push_memory-base 40 m)
]

pub start_workers-HaveBuffers :
    (n id : ℕ) (m : Memory) → Roomy n m → IsAmple n m → HaveBuffers (start_workers n id m).0
unfolding start_workers reserve_biggest_possible_payload
start_workers-HaveBuffers zero id m room ample = tt
start_workers-HaveBuffers (suc n) id m room ample =
    let ((address, got), ample') = reserve_memory-Got n m room ample in
    let m' = (reserve_memory max_bucket_size m).1 in
    (
      address,
      rw (got, reserve_biggest_possible_payload) refl,
      start_workers-HaveBuffers n (id + 1) m' (reserve_memory-Roomy n m max_bucket_size room)
          ample',
    )
