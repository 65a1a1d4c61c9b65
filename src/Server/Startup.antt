-- ===== src/Server/Startup.antt =====
-- `init_memory` of src/memory.c and then `start_server` of src/server.c, as main calls them.
use cik.Prelude.{
  refl, ◌∙◌, ℕ, zero, suc, ◌+◌, ◌*◌, ◌/◌, ◌%◌, ◌^◌, ◌≤◌, ◌<◌, ◌≡◌, inl, inr, subst, Option, none,
  some, [], ◌∷◌, get_elem?, ltb, arith, Bool-cases,
}
use cik.Memory.Apart.{init_memory-IsMemory}
use cik.Server.Connections.{num_workers}
use cik.Server.Enough.{
  IsAmple, HasLargest, push_memory-HasLargest, push_memory-base, push_partitions-HasLargest,
  push_partitions-base, start_workers-HaveBuffers,
}
use cik.Server.Sizes.{start_workers-AreAsLarge}
use cik.Server.Starting.{Calls, start_server}
use cik.Server.Buffers.{Roomy, StartedWell, start_server-StartedWell}
use cik.Memory.{
  init_memory, padding, padded, system_size, max_total_memory, Memory, Partition, max_bucket_size,
  min_bucket_size, push_memory, push_partitions,
}

-- The cursor is not beyond a place, and no partition has buckets above the maximum.
abbrev Sized : ℕ → Memory → Type 0
Sized c m =
    (m.memory_cursor ≤ c)
    × ((i : ℕ) (p : Partition) → get_elem? m.partitions i ≡ some p → p.size ≤ max_bucket_size)

push_memory-Sized : (c size : ℕ) (m : Memory) → Sized c m → Sized (c + size) (push_memory size m).1
unfolding push_memory
push_memory-Sized c size m (le, sizes) =
    let le' : (m.memory_cursor + size) % 2 ^ 64 ≤ c + size = omega (arith, le) in
    elim (Bool-cases
      (ltb ((m.main_memory + max_total_memory) % 2 ^ 64) ((m.memory_cursor + size) % 2 ^ 64))) [
        | inl out ↦ rw (out, push_memory) (le', sizes)
        | inr inside ↦ rw (inside, push_memory) (le', sizes)
      ]

push_partitions-Sized :
    (rounds c size : ℕ) (m : Memory)
    → size ≤ max_bucket_size
    → Sized c m
    → Sized (c + rounds * 40) (push_partitions rounds size m)
unfolding push_partitions
push_partitions-Sized zero c size m bound (le, sizes) = (omega (arith, le), sizes)
push_partitions-Sized (suc rounds) c size m bound (le, sizes) =
    elim (Bool-cases (ltb size min_bucket_size)) [
      | inl small ↦ rw (small, push_partitions) (omega (arith, le), sizes)
      | inr large ↦
          let (le', sizes') = push_memory-Sized c 40 m (le, sizes) in
          let m' : Memory = record (push_memory 40 m).1 {
            partitions =
                record {
                  size = size;
                  free_buckets = [];
                  num_used = 0;
                  num_free = 0;
                  num_reused = 0;
                }
                ∷ m.partitions;
          } in
          let all : (i : ℕ) (p : Partition)
              → get_elem? m'.partitions i ≡ some p
              → p.size ≤ max_bucket_size =
            λ i.
              elim i
                as (λ k.
                  (p : Partition) → get_elem? m'.partitions k ≡ some p → p.size ≤ max_bucket_size) [
                    | zero ↦ λ p at.
                        subst
                          (λ (q : Option Partition). elim q as (λ x. Type 0) [
                            | none ↦ Unit
                            | some r ↦ r.size ≤ max_bucket_size
                          ])
                          at bound
                    | suc k ↦ λ p at. sizes k p at
                  ] in
          let (le'', sizes'') =
            push_partitions-Sized rounds (c + 40) (size / 2) m' (omega (arith, bound)) (le', all) in
          rw (large, push_partitions) (omega (arith, le''), sizes'')
    ]

-- Where the cursor stands at most after `init_memory`.
abbrev pub system_end : ℕ → ℕ → ℕ → ℕ
system_end base num_maps map_bytes =
    base + 16 * 40 + padding (16 * 40) + padded (num_maps * 8) + num_maps * padded map_bytes

init_memory-Roomy :
    (base num_maps map_bytes : ℕ)
    → system_end base num_maps map_bytes + num_workers * 0x800040 < 2 ^ 64
    → Roomy num_workers (init_memory base num_maps map_bytes)
unfolding init_memory Roomy
init_memory-Roomy base num_maps map_bytes room =
    let empty : Memory = record {
      main_memory = base;
      memory_cursor = base;
      partitions = [];
      buckets = [];
      total_system_size = system_size num_maps map_bytes;
    } in
    let m = push_partitions 16 max_bucket_size empty in
    let m₁ = (push_memory (padding (16 * 40)) m).1 in
    let m₂ = (push_memory (padded (num_maps * 8)) m₁).1 in
    let start : Sized base empty = (omega arith, λ i p at. cc) in
    let h = push_partitions-Sized 16 base max_bucket_size empty (omega arith) start in
    let h₁ = push_memory-Sized (base + 16 * 40) (padding (16 * 40)) m h in
    let h₂ = push_memory-Sized (base + 16 * 40 + padding (16 * 40)) (padded (num_maps * 8)) m₁ h₁ in
    let (le, sizes) =
      push_memory-Sized (base + 16 * 40 + padding (16 * 40) + padded (num_maps * 8))
        (num_maps * padded map_bytes) m₂ h₂ in
    λ i p at. (sizes i p at, omega (arith, le, room))

init_memory-IsAmple :
    (base num_maps map_bytes : ℕ)
    → system_end base num_maps map_bytes + num_workers * 0x800040 ≤ base + max_total_memory
    → base + max_total_memory < 2 ^ 64
    → IsAmple num_workers (init_memory base num_maps map_bytes)
unfolding init_memory push_partitions
init_memory-IsAmple base num_maps map_bytes room top =
    let empty : Memory = record {
      main_memory = base;
      memory_cursor = base;
      partitions = [];
      buckets = [];
      total_system_size = system_size num_maps map_bytes;
    } in
    let m = push_partitions 16 max_bucket_size empty in
    let m₁ = (push_memory (padding (16 * 40)) m).1 in
    let m₂ = (push_memory (padded (num_maps * 8)) m₁).1 in
    let m₃ = (push_memory (num_maps * padded map_bytes) m₂).1 in
    let start : Sized base empty = (omega arith, λ i p at. cc) in
    let h = push_partitions-Sized 16 base max_bucket_size empty (omega arith) start in
    let h₁ = push_memory-Sized (base + 16 * 40) (padding (16 * 40)) m h in
    let h₂ = push_memory-Sized (base + 16 * 40 + padding (16 * 40)) (padded (num_maps * 8)) m₁ h₁ in
    let h₃ =
      push_memory-Sized (base + 16 * 40 + padding (16 * 40) + padded (num_maps * 8))
        (num_maps * padded map_bytes) m₂ h₂ in
    let same : m₃.main_memory ≡ base =
      push_memory-base (num_maps * padded map_bytes) m₂
      ∙ push_memory-base (padded (num_maps * 8)) m₁
      ∙ push_memory-base (padding (16 * 40)) m
      ∙ push_partitions-base 16 max_bucket_size empty in
    let largest : Partition = record {
      size = max_bucket_size;
      free_buckets = [];
      num_used = 0;
      num_free = 0;
      num_reused = 0;
    } in
    let one : Memory = record (push_memory 40 empty).1 { partitions = largest ∷ [] } in
    let first : HasLargest m.partitions =
      push_partitions-HasLargest 15 (max_bucket_size / 2) one (0, largest, refl, omega arith) in
    (
      omega (arith, h₃.0, same, room),
      omega (arith, same, top),
      push_memory-HasLargest (num_maps * padded map_bytes) m₂ (
          push_memory-HasLargest (padded (num_maps * 8)) m₁
            (push_memory-HasLargest (padding (16 * 40)) m first)),
    )

-- After `init_memory`, whatever the calls of the system in it return, `start_server` ends with an
-- error and none of its descriptors open, or with the 16 workers of the ids 0 to 15. Each of them
-- has an empty payload buffer then, in a bucket as large as it says, 0x800000 bytes, and these are
-- the only buckets in use, no two of them the same; if the 16 largest buckets fit the memory behind
-- the maps, and its addresses are below 2 ^ 64.
pub init_memory-start_server :
    (calls : Calls) (base num_maps map_bytes : ℕ)
    → system_end base num_maps map_bytes + num_workers * 0x800040 ≤ base + max_total_memory
    → base + max_total_memory < 2 ^ 64
    → StartedWell [] (start_server calls (init_memory base num_maps map_bytes))
init_memory-start_server calls base num_maps map_bytes room top =
    let m = init_memory base num_maps map_bytes in
    let roomy = init_memory-Roomy base num_maps map_bytes (omega (arith, room, top)) in
    start_server-StartedWell calls m [] (init_memory-IsMemory base num_maps map_bytes) roomy
      (start_workers-HaveBuffers num_workers 0 m roomy
        (init_memory-IsAmple base num_maps map_bytes room top))
      (start_workers-AreAsLarge num_workers 0 m [] (init_memory-IsMemory base num_maps map_bytes)
        roomy)
