-- ===== src/Server/Sizes.antt =====
-- That the payload buffers of src/server.c are as large as their workers take them to be.
use cik.Prelude.{
  false, ◌⊎◌, ℕ, zero, suc, ◌+◌, ◌-◌, ◌%◌, ◌^◌, ◌≤◌, ◌≡◌, inl, inr, refl, sym, ◌∙◌, ap, subst,
  Option, none, some, List, [], ◌∷◌, get_elem?, get_elem?-set_self, get_elem?-set_ne,
  lt_of_get_elem?, set, ltb, ◌==◌, arith, Bool-cases, Option-cases,
}
use native.Mathlib.Decide.{ℕ_discrete}
use cik.Memory.{
  add32, Memory, Partition, max_bucket_size, max_total_memory, bucket_header, padded, push_memory,
  push_bucket, count_used, find_partition, partition_of, reserve_in, reserve_memory,
}
use cik.Memory.Buckets.{IsMemory, Stacked}
use cik.Memory.Fit.{find_partition-first}
use cik.Memory.Safety.{Reserved, reserve_memory-Reserved}
use cik.Server.Starting.{start_workers, reserve_biggest_possible_payload}
use cik.Server.Buffers.{
  IsAsLarge, AreAsLarge, Roomy, Roomy-HasRoom, reserve_memory-Roomy, bucket_missing, bucket_got,
}

partition_of_le :
    (ps : List Partition) (buckets : List (ℕ × ℕ)) (cursor a i : ℕ)
    → Stacked ps buckets cursor
    → partition_of a buckets ≡ some i
    → a ≤ cursor
unfolding partition_of
partition_of_le ps [] cursor a i stacked h = cc
partition_of_le ps ((b, j) ∷ bs) cursor a i (p, at, low, high, rest) h =
    elim (Bool-cases (b == a)) [
      | inl same ↦ let e : b ≡ a = ground (arith, same) in omega (arith, e, high)
      | inr apart ↦
          let le = partition_of_le ps bs (b - bucket_header) a i rest (ground (arith, apart, h)) in
          omega (arith, le, high)
    ]

IsAsLarge-set :
    (size a i : ℕ) (m : Memory) (p p' : Partition) (cursor : ℕ)
    → get_elem? m.partitions i ≡ some p
    → p'.size ≡ p.size
    → IsAsLarge size a m
    → IsAsLarge size a (record m { partitions = set m.partitions i p'; memory_cursor = cursor })
IsAsLarge-set size a i m p p' cursor at same (j, q, owned, there, large) = elim (ℕ_discrete i j) [
  | no apart ↦ (j, q, owned, get_elem?-set_ne m.partitions i j p' apart ∙ there, large)
  | yes equal ↦
      let own : some p ≡ some q = sym at ∙ ap (get_elem? m.partitions) equal ∙ there in
      let sizes : p.size ≡ q.size =
        ap (λ (t : Option Partition). elim t as (λ x. ℕ) [ none ↦ 0 | some r ↦ r.size ]) own in
      (
        i,
        p',
        owned ∙ ap some (sym equal),
        get_elem?-set_self m.partitions i p' (lt_of_get_elem? m.partitions i p at),
        omega (arith, large, sizes, same),
      )
]

module _ (size a n : ℕ) (m : Memory) (live : List ℕ) (mem : IsMemory m live)
    (room : Roomy (suc n) m) (h : IsAsLarge size a m) where
  reserve_in-IsAsLarge :
      (i : ℕ) (p : Partition) (buckets : List ℕ)
      → get_elem? m.partitions i ≡ some p
      → IsAsLarge size a (reserve_in i p buckets m).1
  unfolding reserve_in push_bucket count_used push_memory partition_of Roomy
  reserve_in-IsAsLarge i p (address ∷ rest) at =
      IsAsLarge-set size a i m p _ m.memory_cursor at refl h
  reserve_in-IsAsLarge i p [] at =
      let n = bucket_header + padded p.size in
      elim (Bool-cases
        (ltb ((m.main_memory + max_total_memory) % 2 ^ 64) ((m.memory_cursor + n) % 2 ^ 64))) [
          | inl out ↦ rw (out, push_memory) h
          | inr inside ↦
              let (j, q, owned, there, large) =
                IsAsLarge-set size a i m p (record p { num_used = add32 p.num_used 1 })
                  ((m.memory_cursor + n) % 2 ^ 64) at refl h in
              let le =
                partition_of_le m.partitions m.buckets m.memory_cursor a h.0 mem.stacked h.2 in
              let new : ((m.memory_cursor + bucket_header) == a) ≡ false = ground (arith, le) in
              rw (inside, push_memory) (j, q, rw (new, partition_of) owned, there, large)
        ]

  reserve_memory-IsAsLarge : (bytes : ℕ) → IsAsLarge size a (reserve_memory bytes m).1
  unfolding reserve_memory
  reserve_memory-IsAsLarge bytes =
      elim (Option-cases (find_partition (bytes % 2 ^ 32) 0 m.partitions)) [
        | inl nothing ↦ rw (nothing, reserve_memory) h
        | inr ((i, p), found) ↦
            let (le, at, fits, first) =
              find_partition-first (bytes % 2 ^ 32) 0 m.partitions i p found in
            let start : i - 0 ≡ i = omega arith in
            rw (found, reserve_memory)
              (reserve_in-IsAsLarge i p p.free_buckets
                (subst (λ t. get_elem? m.partitions t ≡ some p) start at))
      ]

-- The memory's bookkeeping holds behind a reservation of the largest size.
reserve_memory-IsMemory :
    (n : ℕ) (m : Memory) (live : List ℕ)
    → IsMemory m live
    → Roomy (suc n) m
    → (live' : List ℕ) × IsMemory (reserve_memory max_bucket_size m).1 live'
reserve_memory-IsMemory n m live mem room =
    let r = reserve_memory max_bucket_size m in
    let reserved = reserve_memory-Reserved m live max_bucket_size mem (Roomy-HasRoom n m room) in
    elim (Option-cases r.0) [
      | inl nothing ↦ (live, bucket_missing m live max_bucket_size r nothing reserved)
      | inr (a, found) ↦ (a ∷ live, bucket_got m live max_bucket_size r a found reserved)
    ]

start_workers-IsAsLarge :
    (n id size a : ℕ) (m : Memory) (live : List ℕ)
    → IsMemory m live
    → Roomy n m
    → IsAsLarge size a m
    → IsAsLarge size a (start_workers n id m).1
unfolding start_workers reserve_biggest_possible_payload
start_workers-IsAsLarge zero id size a m live mem room h = h
start_workers-IsAsLarge (suc n) id size a m live mem room h =
    let (live', mem') = reserve_memory-IsMemory n m live mem room in
    start_workers-IsAsLarge n (id + 1) size a (reserve_memory max_bucket_size m).1 live' mem'
      (reserve_memory-Roomy n m max_bucket_size room)
      (reserve_memory-IsAsLarge size a n m live mem room h max_bucket_size)

got-IsAsLarge :
    (m : Memory) (live : List ℕ) (r : Option ℕ × Memory) (a : ℕ)
    → r.0 ≡ some a
    → Reserved m live max_bucket_size r
    → IsAsLarge max_bucket_size a r.1
got-IsAsLarge m live (none, m') a h reserved = ground (arith, h)
got-IsAsLarge m live (some b, m') a h (unused, mem, i, p, owned, at, fits, first) =
    let same : b ≡ a = ground (arith, h) in
    (i, p, subst (λ x. partition_of x m'.buckets ≡ some i) same owned, at, omega (arith, fits))

pub start_workers-AreAsLarge :
    (n id : ℕ) (m : Memory) (live : List ℕ)
    → IsMemory m live
    → Roomy n m
    → AreAsLarge (start_workers n id m).0 (start_workers n id m).1
unfolding start_workers reserve_biggest_possible_payload
start_workers-AreAsLarge zero id m live mem room = tt
start_workers-AreAsLarge (suc n) id m live mem room =
    let r = reserve_memory max_bucket_size m in
    let (live', mem') = reserve_memory-IsMemory n m live mem room in
    let room' = reserve_memory-Roomy n m max_bucket_size room in
    let reserved = reserve_memory-Reserved m live max_bucket_size mem (Roomy-HasRoom n m room) in
    (
      λ a got. first a (Option-cases r.0) got reserved mem' room',
      start_workers-AreAsLarge n (id + 1) r.1 live' mem' room',
    )
  where
    first :
        {live' : List ℕ} (a : ℕ)
        → ((reserve_memory max_bucket_size m).0 ≡ none)
          ⊎ ((b : ℕ) × ((reserve_memory max_bucket_size m).0 ≡ some b))
        → (reserve_biggest_possible_payload m).0.base ≡ some a
        → Reserved m live max_bucket_size (reserve_memory max_bucket_size m)
        → IsMemory (reserve_memory max_bucket_size m).1 live'
        → Roomy n (reserve_memory max_bucket_size m).1
        → ((reserve_biggest_possible_payload m).0.nmemb ≡ 0)
          × ((reserve_biggest_possible_payload m).0.cap ≡ max_bucket_size)
          × IsAsLarge max_bucket_size a
              (start_workers n (id + 1) (reserve_memory max_bucket_size m).1).1
    first a (inl nothing) got reserved mem' room' =
        let missing : (reserve_biggest_possible_payload m).0.base ≡ none =
          rw (nothing, reserve_biggest_possible_payload) refl in
        ground (arith, got, missing)
    first a (inr (b, found)) got reserved mem' room' =
        let there : (reserve_biggest_possible_payload m).0.base ≡ some b =
          rw (found, reserve_biggest_possible_payload) refl in
        let same : some b ≡ some a = sym there ∙ got in
        (
          rw (found, reserve_biggest_possible_payload) refl,
          rw (found, reserve_biggest_possible_payload) refl,
          start_workers-IsAsLarge n (id + 1) max_bucket_size a (reserve_memory max_bucket_size m).1
              _ mem' room'
              (got-IsAsLarge m live (reserve_memory max_bucket_size m) a (found ∙ same) reserved),
        )
