-- ===== src/Memory/Apart.antt =====
-- Where the buckets of src/memory.c lie, and the memory that `init_memory` leaves.
use cik.Prelude.{
  ◌%◌, ◌^◌, ℕ, zero, suc, ◌+◌, ◌-◌, ◌*◌, ◌/◌, ◌≤◌, ◌<◌, ◌≡◌, inl, inr, refl, sym, ◌∙◌, ap, subst,
  true, false, Option, none, some, List, [], ◌∷◌, get_elem?, ltb, ◌==◌, if◌then◌else◌, arith,
  Bool-cases, Option-cases,
}
use cik.Memory.{
  Partition, Memory, padded, bucket_header, partition_of, init_memory, padding, system_size,
  push_memory, push_partitions, min_bucket_size, max_bucket_size, max_total_memory,
}
use cik.Memory.Buckets.{
  Stacked, count, count_free, recorded, IsMemory, partition_of_below, count_free_le,
}

equal : (a b : ℕ) → (a == b) ≡ true → a ≡ b
equal a b h = ground arith

later :
    (c k x i : ℕ) (bs : List (ℕ × ℕ))
    → (c == x) ≡ false
    → partition_of x ((c, k) ∷ bs) ≡ some i
    → partition_of x bs ≡ some i
unfolding partition_of
later c k x i bs apart h = sym (ap (λ t. if t then some k else partition_of x bs) apart) ∙ h

-- The room of a bucket that is not the last pushed ends where that one's header begins.
room_below :
    (ps : List Partition) (bs : List (ℕ × ℕ)) (cursor a i : ℕ) (p : Partition)
    → Stacked ps bs cursor
    → partition_of a bs ≡ some i
    → get_elem? ps i ≡ some p
    → a + padded p.size ≤ cursor
unfolding partition_of
room_below ps [] cursor a i p s h at = cc
room_below ps ((c, k) ∷ bs) cursor a i p (q, here, low, high, s) h at = elim (Bool-cases (c == a)) [
  | inl is_a ↦
      let found : some k ≡ some i =
        sym (ap (λ t. if t then some k else partition_of a bs) is_a) ∙ h in
      let index : k ≡ i = ground arith in
      let same : q ≡ p = ground (arith, index, here, at) in
      subst (λ t. t + padded p.size ≤ cursor) (equal c a is_a)
        (subst (λ (t : Partition). c + padded t.size ≤ cursor) same high)
  | inr not_a ↦
      let below = room_below ps bs (c - bucket_header) a i p s (later c k a i bs not_a h) at in
      omega (arith, below)
]

Stacked-apart :
    (ps : List Partition) (bs : List (ℕ × ℕ)) (cursor a b i j : ℕ) (p : Partition)
    → Stacked ps bs cursor
    → partition_of a bs ≡ some i
    → partition_of b bs ≡ some j
    → get_elem? ps i ≡ some p
    → a < b
    → a + padded p.size + bucket_header ≤ b
unfolding partition_of
Stacked-apart ps [] cursor a b i j p s ha hb at lt = cc
Stacked-apart ps ((c, k) ∷ bs) cursor a b i j p (q, here, low, high, s) ha hb at lt =
    let below = λ (x k' : ℕ) (h : partition_of x bs ≡ some k').
      partition_of_below ps bs (c - bucket_header) x k' s h in
    elim (Bool-cases (c == a)) [
      | inl is_a ↦ elim (Bool-cases (c == b)) [
        | inl is_b ↦ absurd (omega (arith, equal c a is_a, equal c b is_b))
        | inr not_b ↦ absurd (omega (arith, below b j (later c k b j bs not_b hb), equal c a is_a))
      ]
      | inr not_a ↦ elim (Bool-cases (c == b)) [
        | inl is_b ↦
            let below =
              room_below ps bs (c - bucket_header) a i p s (later c k a i bs not_a ha) at in
            omega (arith, below, equal c b is_b)
        | inr not_b ↦
            Stacked-apart ps bs (c - bucket_header) a b i j p s (later c k a i bs not_a ha)
              (later c k b j bs not_b hb) at lt
      ]
    ]

-- Two buckets in use do not overlap: the room of the lower ends before the header of the higher.
pub buckets_apart :
    (m : Memory) (live : List ℕ) (a b i : ℕ) (p : Partition)
    → IsMemory m live
    → 0 < count a live
    → 0 < count b live
    → partition_of a m.buckets ≡ some i
    → get_elem? m.partitions i ≡ some p
    → a < b
    → a + padded p.size + bucket_header ≤ b
buckets_apart m live a b i p mem used_a used_b ha at lt =
    elim (Option-cases (partition_of b m.buckets)) [
      | inl nothing ↦
          let uncounted : recorded b m.buckets ≡ 0 =
            ap (λ (t : Option ℕ). elim t as (λ x. ℕ) [ none ↦ 0 | some j ↦ 1 ]) nothing in
          absurd (omega (arith, mem.counts b))
      | inr (j, hb) ↦
          Stacked-apart m.partitions m.buckets m.memory_cursor a b i j p mem.stacked ha hb at lt
    ]

-- No bucket anywhere.
abbrev HasNoBuckets : Memory → Type 0
HasNoBuckets m = (m.buckets ≡ []) × ((a : ℕ) → count_free a m.partitions ≡ 0)

push_memory-HasNoBuckets :
    (size : ℕ) (m : Memory) → HasNoBuckets m → HasNoBuckets (push_memory size m).1
unfolding push_memory
push_memory-HasNoBuckets size m h =
    elim (Bool-cases
      (ltb ((m.main_memory + max_total_memory) % 2 ^ 64) ((m.memory_cursor + size) % 2 ^ 64))) [
        | inl out ↦ rw (out, push_memory) h
        | inr inside ↦ rw (inside, push_memory) h
      ]

push_partitions-HasNoBuckets :
    (rounds size : ℕ) (m : Memory) → HasNoBuckets m → HasNoBuckets (push_partitions rounds size m)
unfolding push_partitions
push_partitions-HasNoBuckets zero size m h = h
push_partitions-HasNoBuckets (suc rounds) size m h = elim (Bool-cases (ltb size min_bucket_size)) [
  | inl done ↦ rw (done, push_partitions) h
  | inr more ↦
      rw (more, push_partitions)
        (push_partitions-HasNoBuckets rounds (size / 2) _
          ((push_memory-HasNoBuckets 40 m h).0, λ a. omega (arith, h.1 a)))
]

-- The memory that `init_memory` sets up has no bucket at all, neither in use nor free.
pub init_memory-IsMemory :
    (base num_maps map_bytes : ℕ) → IsMemory (init_memory base num_maps map_bytes) []
unfolding init_memory partition_of
init_memory-IsMemory base num_maps map_bytes =
    let start : Memory = record {
      main_memory = base;
      memory_cursor = base;
      partitions = [];
      buckets = [];
      total_system_size = system_size num_maps map_bytes;
    } in
    let m = push_partitions 16 max_bucket_size start in
    let m₁ = (push_memory (padding (16 * 40)) m).1 in
    let m₂ = (push_memory (padded (num_maps * 8)) m₁).1 in
    let h = push_partitions-HasNoBuckets 16 max_bucket_size start (refl, λ a. refl) in
    let h₁ = push_memory-HasNoBuckets (padding (16 * 40)) m h in
    let h₂ = push_memory-HasNoBuckets (padded (num_maps * 8)) m₁ h₁ in
    of_none (init_memory base num_maps map_bytes)
      (push_memory-HasNoBuckets (num_maps * padded map_bytes) m₂ h₂)
  where
    of_none : (m : Memory) → HasNoBuckets m → IsMemory m []
    of_none m (none_pushed, nothing) = record {
      stacked = subst (λ t. Stacked m.partitions t m.memory_cursor) (sym none_pushed) tt;
      counts = λ a. omega (arith, nothing a, ap (recorded a) none_pushed);
      kept = λ i p a here some_free.
          absurd (omega (arith, nothing a, count_free_le m.partitions i p a here));
    }
