-- ===== src/Memory.antt =====
-- The allocator of src/memory.c: power-of-two partitions with free lists over one mapped region.
-- Requests are served one at a time, so the mark bit of a free list is clear between calls.
pub mod Buckets
pub mod Moves
pub mod Fit
pub mod Safety
pub mod Races
pub mod Apart
use cik.Prelude.{
  ℕ, zero, suc, ◌+◌, ◌-◌, ◌*◌, ◌/◌, ◌%◌, ◌^◌, List, [], ◌∷◌, Option, none, some, get_elem?, set,
  ltb, leb, ◌==◌, if◌then◌else◌,
}

-- `MIN_BUCKET_SIZE`, `MAX_BUCKET_SIZE` and `MAX_TOTAL_MEMORY` of src/config.h.
abbrev pub min_bucket_size : ℕ
min_bucket_size = 0x100

abbrev pub max_bucket_size : ℕ
max_bucket_size = 0x800000

abbrev pub max_total_memory : ℕ
max_total_memory = 0xFFFFFFFF

-- `PADDING` and `PADDED`, with alignof (max_align_t) = 16.
abbrev pub padding : ℕ → ℕ
padding s = (16 - s % 16) % 16

abbrev pub padded : ℕ → ℕ
padded s = s + padding s

-- `TPADDED (Bucket)`: three pointers.
abbrev pub bucket_header : ℕ
bucket_header = padded 24

-- `free_buckets` lists the data addresses of the buckets; the counters are 32 bits wide.
pub record Partition : Type 0 where
  pub size : ℕ
  pub free_buckets : List ℕ
  pub num_used : ℕ
  pub num_free : ℕ
  pub num_reused : ℕ

-- `buckets` has the data address of each bucket ever pushed with the index of its partition, the
-- latest first: what `bucket->partition` reads.
pub record Memory : Type 0 where
  pub main_memory : ℕ
  pub memory_cursor : ℕ
  pub partitions : List Partition
  pub buckets : List (ℕ × ℕ)
  pub total_system_size : ℕ

abbrev pub add32 : ℕ → ℕ → ℕ
add32 a b = (a + b) % 2 ^ 32

abbrev pub sub32 : ℕ → ℕ → ℕ
sub32 a b = (a + 2 ^ 32 - b) % 2 ^ 32

-- The cursor moves also when the request does not fit.
unfoldable pub push_memory : ℕ → Memory → Option ℕ × Memory
push_memory size m =
    let ptr = m.memory_cursor in
    let m' = record m { memory_cursor = (ptr + size) % 2 ^ 64 } in
    if ltb ((m.main_memory + max_total_memory) % 2 ^ 64) ((ptr + size) % 2 ^ 64)
    then (none, m')
    else (some ptr, m')

-- The first partition whose buckets are large enough, with its index.
unfoldable pub find_partition : ℕ → ℕ → List Partition → Option (ℕ × Partition)
find_partition size i [] = none
find_partition size i (p ∷ ps) =
    let rest = find_partition size (i + 1) ps in if leb size p.size then some (i, p) else rest

unfoldable pub count_used : ℕ → Partition → Memory → Memory
count_used i p m = record m {
  partitions = set m.partitions i (record p { num_used = add32 p.num_used 1 });
}

unfoldable pub push_bucket : ℕ → Partition → Option ℕ × Memory → Option ℕ × Memory
unfolding count_used
push_bucket i p (none, m) = (none, m)
push_bucket i p (some ptr, m) =
    let address = ptr + bucket_header in
    (some address, count_used i p (record m { buckets = (address, i) ∷ m.buckets }))

unfoldable pub reserve_in : ℕ → Partition → List ℕ → Memory → Option ℕ × Memory
unfolding push_memory push_bucket count_used
reserve_in i p [] m = push_bucket i p (push_memory (bucket_header + padded p.size) m)
reserve_in i p (address ∷ rest) m = (
  some address,
  count_used i
      (record p {
        free_buckets = rest;
        num_free = sub32 p.num_free 1;
        num_reused = add32 p.num_reused 1;
      })
      m,
)

-- The parameter is a u32: a wider size is truncated by the call.
unfoldable pub reserve_memory : ℕ → Memory → Option ℕ × Memory
unfolding find_partition reserve_in
reserve_memory size m = elim (find_partition (size % 2 ^ 32) 0 m.partitions) [
  | none ↦ (none, m)
  | some (i, p) ↦ reserve_in i p p.free_buckets m
]

unfoldable pub partition_of : ℕ → List (ℕ × ℕ) → Option ℕ
partition_of address [] = none
partition_of address ((a, i) ∷ bs) = if a == address then some i else partition_of address bs

unfoldable pub release_in : ℕ → ℕ → Memory → Option Partition → Option Memory
release_in address i m none = none
release_in address i m (some p) = some (record m {
  partitions = set m.partitions i (record p {
    free_buckets = address ∷ p.free_buckets;
    num_free = add32 p.num_free 1;
    num_used = sub32 p.num_used 1;
  });
})

-- `none` is a release of what is no bucket, whose header the code reads all the same.
unfoldable pub release_memory : ℕ → Memory → Option Memory
unfolding partition_of release_in
release_memory address m = elim (partition_of address m.buckets) [
  | none ↦ none
  | some i ↦ release_in address i m (get_elem? m.partitions i)
]

-- `bytes_reserved`, `bytes_used`, `bytes_free` and `bytes_reused`, 32 bits wide each.
pub record ServerInfo : Type 0 where
  pub bytes_reserved : ℕ
  pub bytes_used : ℕ
  pub bytes_free : ℕ
  pub bytes_reused : ℕ

add_partitions : List Partition → ServerInfo → ServerInfo
add_partitions [] nfo = nfo
add_partitions (p ∷ ps) nfo = add_partitions ps (record nfo {
  bytes_used = add32 nfo.bytes_used (p.size * p.num_used);
  bytes_free = add32 nfo.bytes_free (p.size * p.num_free);
  bytes_reused = add32 nfo.bytes_reused (p.size * p.num_reused);
})

unfoldable pub populate_nfo_response : Memory → ServerInfo
unfolding add_partitions
populate_nfo_response m = add_partitions m.partitions (record {
  bytes_reserved = (max_total_memory + 2 ^ 64 - m.total_system_size) % 2 ^ 32;
  bytes_used = 0;
  bytes_free = 0;
  bytes_reused = 0;
})

-- `for (size = MAX_BUCKET_SIZE; size >= MIN_BUCKET_SIZE; size >>= 1)`: each round pushes a
-- partition in front. Sixteen rounds are run.
unfoldable pub push_partitions : ℕ → ℕ → Memory → Memory
unfolding push_memory
push_partitions zero size m = m
push_partitions (suc rounds) size m =
    let (ptr, m') = push_memory 40 m in
    if ltb size min_bucket_size
    then m
    else push_partitions rounds (size / 2) (record m' {
      partitions =
          record { size = size; free_buckets = []; num_used = 0; num_free = 0; num_reused = 0 }
          ∷ m.partitions;
    })

-- The sizes that `init_memory` accounts for: sizeof (Partition) = 40, a pointer for each map, and
-- `map_bytes` for each map.
unfoldable pub system_size : ℕ → ℕ → ℕ
system_size num_maps map_bytes =
    padded (16 * 40) + padded (num_maps * 8) + num_maps * padded map_bytes

-- `base` is what mmap returned. The entry maps themselves are kept apart from the memory.
unfoldable pub init_memory : ℕ → ℕ → ℕ → Memory
unfolding push_partitions system_size
init_memory base num_maps map_bytes =
    let m = push_partitions 16 max_bucket_size (record {
      main_memory = base;
      memory_cursor = base;
      partitions = [];
      buckets = [];
      total_system_size = system_size num_maps map_bytes;
    }) in
    let m₁ = (push_memory (padding (16 * 40)) m).1 in
    let m₂ = (push_memory (padded (num_maps * 8)) m₁).1 in
    (push_memory (num_maps * padded map_bytes) m₂).1
