-- ===== src/Tests/Buckets.antt =====
-- Witnesses for the memory.
use cik.Prelude.{
  ◌↔◌, true, Bool, map, ℕ, zero, suc, ◌+◌, ◌^◌, ◌≤◌, ◌<◌, ◌≡◌, ◌≢◌, ◌⊎◌, refl, ap, subst, some, [],
  ◌∷◌, get_elem?, arith,
}
use cik.World.{World, crash, null_payload}
use cik.Memory.{
  Memory, Partition, reserve_memory, release_memory, partition_of, padded, bucket_header,
}
use cik.Memory.Buckets.{count, IsMemory, HasRoom}
use cik.Memory.Safety.{
  Reserved, reserve_memory-Reserved, reserve_memory_apart, release_memory-IsMemory,
}
use cik.Entry.{cache_entry_init}
use cik.Controller.Set.{total_size, reserve_and_lock_entry, read_value}
use cik.Controller.Room.{read_value-fits}
use cik.Stream.{chunk}
use cik.Entry.{free, used, CacheEntry}
use cik.Controller.Clr.{clear}
use cik.Controller.Cleared.{HasMaps, drop_slot, Leaves, old_entries, mode_of, clear-HasMaps}
use cik.Tests.Data.{entry_a, small_partition, new_memory, key_a, world}

pub new_memory-IsMemory : IsMemory new_memory []
unfolding partition_of
new_memory-IsMemory = record {
  stacked = tt;
  counts = λ a. refl;
  kept = λ i p a here some_free. no_free i p a here some_free;
}
  where
    no_free :
        (i : ℕ) (p : Partition) (a : ℕ)
        → get_elem? new_memory.partitions i ≡ some p
        → 0 < count a p.free_buckets
        → partition_of a [] ≡ some i
    no_free zero p a here h =
        let same : small_partition 256 ≡ p = ground arith in
        absurd (omega (arith, ap (λ (t : Partition). count a t.free_buckets) same))
    no_free (suc zero) p a here h =
        let same : small_partition 512 ≡ p = ground arith in
        absurd (omega (arith, ap (λ (t : Partition). count a t.free_buckets) same))
    no_free (suc (suc i)) p a here h = cc

pub new_memory-HasRoom : HasRoom new_memory
new_memory-HasRoom zero p here =
    let same : small_partition 256 ≡ p = ground arith in
    subst (λ (t : Partition). 0x10400 + (bucket_header + padded t.size) < 2 ^ 64) same (omega arith)
new_memory-HasRoom (suc zero) p here =
    let same : small_partition 512 ≡ p = ground arith in
    subst (λ (t : Partition). 0x10400 + (bucket_header + padded t.size) < 2 ^ 64) same (omega arith)
new_memory-HasRoom (suc (suc i)) p here = cc

abbrev pub one_used : Memory
one_used = record {
  main_memory = 0x10000;
  memory_cursor = 0x10520;
  partitions = record (small_partition 256) { num_used = 1 } ∷ small_partition 512 ∷ [];
  buckets = (0x10420, 0) ∷ [];
  total_system_size = 0x400;
}

one_used-HasRoom : HasRoom one_used
one_used-HasRoom zero p here =
    let same : record (small_partition 256) { num_used = 1 } ≡ p = ground arith in
    subst (λ (t : Partition). 0x10520 + (bucket_header + padded t.size) < 2 ^ 64) same (omega arith)
one_used-HasRoom (suc zero) p here =
    let same : small_partition 512 ≡ p = ground arith in
    subst (λ (t : Partition). 0x10520 + (bucket_header + padded t.size) < 2 ^ 64) same (omega arith)
one_used-HasRoom (suc (suc i)) p here = cc

first : reserve_memory 100 new_memory ≡ (some 0x10420, one_used)
unfolding reserve_memory
first = refl

pub one_used-IsMemory : IsMemory one_used (0x10420 ∷ [])
one_used-IsMemory =
    (subst (Reserved new_memory [] 100) first
      (reserve_memory-Reserved new_memory [] 100 new_memory-IsMemory new_memory-HasRoom)).1

abbrev pub two_used : Memory
two_used = (reserve_memory 300 one_used).1

next_one : reserve_memory 300 one_used ≡ (some 0x10540, two_used)
unfolding reserve_memory
next_one = refl

pub two_used-IsMemory : IsMemory two_used (0x10540 ∷ 0x10420 ∷ [])
two_used-IsMemory =
    (subst (Reserved one_used (0x10420 ∷ []) 300) next_one
      (reserve_memory-Reserved one_used (0x10420 ∷ []) 300 one_used-IsMemory one_used-HasRoom)).1

second : reserve_memory 300 one_used ≡ (some 0x10540, two_used)
unfolding reserve_memory
second = refl

reserve_memory-Reserved_example : Reserved one_used (0x10420 ∷ []) 300 (reserve_memory 300 one_used)
reserve_memory-Reserved_example =
    reserve_memory-Reserved one_used (0x10420 ∷ []) 300 one_used-IsMemory one_used-HasRoom

release_memory-IsMemory_example :
    (m' : Memory) × (release_memory 0x10420 one_used ≡ some m') × IsMemory m' []
release_memory-IsMemory_example = release_memory-IsMemory one_used [] 0x10420 one_used-IsMemory

reserve_memory_apart_example :
    (0x10540 + padded 512 + bucket_header ≤ 0x10420)
    ⊎ (0x10420 + padded 256 + bucket_header ≤ 0x10540)
unfolding reserve_memory partition_of
reserve_memory_apart_example =
    reserve_memory_apart one_used two_used (0x10420 ∷ []) 300 0x10540 0x10420 1 0
      (record (small_partition 512) { num_used = 1 })
      (record (small_partition 256) { num_used = 1 }) one_used-IsMemory one_used-HasRoom second
      (omega arith) refl refl refl refl

abbrev before : World
before = world [] [] (chunk (1 ∷ 2 ∷ []) ∷ chunk (3 ∷ []) ∷ []) null_payload

read_value-fits_example :
    read_value (cache_entry_init 0x10420 10) [] key_a 3 (record before { memory = one_used })
    ≢ crash
unfolding reserve_and_lock_entry total_size reserve_memory
read_value-fits_example =
    read_value-fits [] key_a 3 before (record before { memory = one_used }) []
      (cache_entry_init 0x10420 10) new_memory-IsMemory new_memory-HasRoom (omega arith) refl

-- The entry of the map stands in the bucket in use, and its time is over.
abbrev with_entry : World
with_entry = record (world ((used 7 (entry_a 0x10420) ∷ free ∷ []) ∷ []) [] [] null_payload) {
  memory = one_used;
}

clear-HasMaps_example :
    (go : CacheEntry → Bool) × ((e : CacheEntry)
      → (go e ≡ true) ↔ Leaves old_entries [] with_entry.now e)
    × HasMaps (map (map (drop_slot go)) with_entry.maps) (clear (mode_of old_entries) [] with_entry)
clear-HasMaps_example = clear-HasMaps old_entries [] with_entry
