-- ===== src/Memory/Safety.antt =====
-- `reserve_memory` and `release_memory` of src/memory.c keep the buckets apart.
use cik.Prelude.{
  ℕ, ◌+◌, ◌-◌, ◌%◌, ◌^◌, ◌≤◌, ◌<◌, ◌≡◌, ◌⊎◌, inl, inr, refl, sym, ap, subst, Option, none, some,
  List, [], ◌∷◌, get_elem?, get_elem?-set_self, lt_of_get_elem?, ltb, ◌==◌, arith, Bool-cases,
  Option-cases,
}
use native.Mathlib.Decide.{dec_lt}
use cik.Memory.Apart.{buckets_apart}
use native.Mathlib.Nat.{mod-eq_of_lt}
use cik.Memory.{
  Partition, Memory, padded, bucket_header, max_total_memory, push_memory, find_partition,
  push_bucket, count_used, reserve_in, reserve_memory, release_in, partition_of, release_memory,
  add32, sub32,
}
use cik.Memory.Buckets.{count, recorded, IsMemory, HasRoom, partition_of-partition, count_free_le}
use cik.Memory.Moves.{exchange, pushed, skipped}
use cik.Memory.Fit.{find_partition-first}

-- What a reservation comes to: a bucket that was not in use, in the first partition whose buckets
-- are large enough; or none, and the buckets stay as they are.
abbrev pub Reserved : Memory → List ℕ → ℕ → Option ℕ × Memory → Type 0
Reserved m live size (none, m') = IsMemory m' live
Reserved m live size (some a, m') =
    (count a live ≡ 0)
    × IsMemory m' (a ∷ live)
    × (i : ℕ) × (p : Partition) × (partition_of a m'.buckets ≡ some i)
    × (get_elem? m'.partitions i ≡ some p)
    × (size % 2 ^ 32 ≤ p.size)
    × ((k : ℕ) (q : Partition) → k < i → get_elem? m.partitions k ≡ some q → q.size < size % 2 ^ 32)

module _ (m : Memory) (live : List ℕ) (size i : ℕ) (p : Partition) (mem : IsMemory m live)
    (room : HasRoom m) (at : get_elem? m.partitions i ≡ some p) (fits : size % 2 ^ 32 ≤ p.size)
    (first : (k : ℕ) (q : Partition)
      → k < i
      → get_elem? m.partitions k ≡ some q
      → q.size < size % 2 ^ 32) where
  reserve_in-Reserved :
      (buckets : List ℕ)
      → p.free_buckets ≡ buckets
      → Reserved m live size (reserve_in i p buckets m)
  unfolding reserve_in push_bucket count_used push_memory partition_of
  reserve_in-Reserved [] e =
      let n = bucket_header + padded p.size in
      let moved : (m.memory_cursor + n) % 2 ^ 64 ≡ m.memory_cursor + n =
        mod-eq_of_lt (room i p at) in
      elim (Bool-cases
        (ltb ((m.main_memory + max_total_memory) % 2 ^ 64) ((m.memory_cursor + n) % 2 ^ 64))) [
          | inl out ↦ rw (out, push_memory) (skipped m live _ mem (omega (arith, moved)))
          | inr inside ↦
              let (unused, mem') =
                pushed m live i p ((m.memory_cursor + n) % 2 ^ 64) mem at (omega (arith, moved)) in
              rw (inside, push_memory)
                (
                  unused,
                  exchange _ _ _ i p _ mem' at refl (λ b. refl) (λ b h. mem'.kept i p b at h),
                  i,
                  _,
                  ground arith,
                  get_elem?-set_self m.partitions i _ (lt_of_get_elem? m.partitions i p at),
                  fits,
                  first,
                )
        ]
  reserve_in-Reserved (a ∷ rest) e =
      let used : 0 < count a p.free_buckets = subst (λ t. 0 < count a t) (sym e) (ground arith) in
      let owned = mem.kept i p a at used in
      let counted : recorded a m.buckets ≡ 1 =
        ap (λ (t : Option ℕ). elim t as (λ x. ℕ) [ none ↦ 0 | some j ↦ 1 ]) owned in
      (
        omega (arith, mem.counts a, count_free_le m.partitions i p a at, used, counted),
        exchange m live (a ∷ live) i p _ mem at refl (λ b. omega (arith, ap (count b) e))
            (λ b h. mem.kept i p b at (omega (arith, ap (count b) e))),
        i,
        _,
        owned,
        get_elem?-set_self m.partitions i _ (lt_of_get_elem? m.partitions i p at),
        fits,
        first,
      )

-- If every bucket is in use or on its own partition's free list, nowhere twice, and the cursor has
-- room, that holds after a reservation. It hands out a bucket that was not in use, in the first
-- partition whose buckets are as large as the size modulo 2 ^ 32, or none.
pub reserve_memory-Reserved :
    (m : Memory) (live : List ℕ) (size : ℕ)
    → IsMemory m live
    → HasRoom m
    → Reserved m live size (reserve_memory size m)
unfolding reserve_memory
reserve_memory-Reserved m live size mem room =
    elim (Option-cases (find_partition (size % 2 ^ 32) 0 m.partitions)) [
      | inl nothing ↦ rw (nothing, reserve_memory) mem
      | inr ((i, p), found) ↦
          let (le, at, fits, first) =
            find_partition-first (size % 2 ^ 32) 0 m.partitions i p found in
          let start : i - 0 ≡ i = omega arith in
          rw (found, reserve_memory)
            (reserve_in-Reserved m live size i p mem room
              (subst (λ t. get_elem? m.partitions t ≡ some p) start at) fits
              (λ k q lt here. first k q (omega arith) here) p.free_buckets refl)
    ]

-- A bucket in use can be released; after that it is in use no longer, and every bucket is still in
-- use or on its own partition's free list, nowhere twice.
pub release_memory-IsMemory :
    (m : Memory) (live : List ℕ) (a : ℕ)
    → IsMemory m (a ∷ live)
    → (m' : Memory) × (release_memory a m ≡ some m') × IsMemory m' live
unfolding release_memory release_in
release_memory-IsMemory m live a mem = elim (Option-cases (partition_of a m.buckets)) [
  | inl nothing ↦
      let one : count a (a ∷ live) ≡ 1 + count a live = ground arith in
      let uncounted : recorded a m.buckets ≡ 0 =
        ap (λ (t : Option ℕ). elim t as (λ x. ℕ) [ none ↦ 0 | some j ↦ 1 ]) nothing in
      absurd (omega (arith, mem.counts a))
  | inr (i, owned) ↦
      let (p, at) =
        partition_of-partition m.partitions m.buckets m.memory_cursor a i mem.stacked owned in
      (
        _,
        rw (owned, release_memory) (rw (at, release_in) refl),
        exchange m (a ∷ live) live i p
            (record p {
              free_buckets = a ∷ p.free_buckets;
              num_free = add32 p.num_free 1;
              num_used = sub32 p.num_used 1;
            })
            mem at refl (λ b. omega arith)
            (λ b h. elim (Bool-cases (a == b)) [
              | inl same ↦ subst (λ t. partition_of t m.buckets ≡ some i) (ground arith) owned
              | inr apart ↦ mem.kept i p b at (ground arith)
            ]),
      )
]

-- Under the same conditions a bucket that a reservation hands out does not overlap any that was in
-- use before, headers included: one lies below the other. The sizes are those of the buckets'
-- partitions.
pub reserve_memory_apart :
    (m m' : Memory) (live : List ℕ) (size a b i j : ℕ) (p q : Partition)
    → IsMemory m live
    → HasRoom m
    → reserve_memory size m ≡ (some a, m')
    → 0 < count b live
    → partition_of a m'.buckets ≡ some i
    → get_elem? m'.partitions i ≡ some p
    → partition_of b m'.buckets ≡ some j
    → get_elem? m'.partitions j ≡ some q
    → (a + padded p.size + bucket_header ≤ b) ⊎ (b + padded q.size + bucket_header ≤ a)
reserve_memory_apart m m' live size a b i j p q mem room h used of_a at_a of_b at_b =
    let (unused, mem', k₁, p₁, owned₁, at₁, fits₁, first₁) =
      subst (Reserved m live size) h (reserve_memory-Reserved m live size mem room) in
    elim (dec_lt a b) [
      | yes below ↦
          inl
            (buckets_apart m' (a ∷ live) a b i p mem' (ground arith) (omega arith) of_a at_a below)
      | no n ↦ elim (dec_lt b a) [
        | yes above ↦
            inr (
              buckets_apart m' (a ∷ live) b a j q mem' (omega arith) (ground arith) of_b at_b above)
        | no k ↦
            let same : a ≡ b = omega arith in absurd (omega (arith, ap (λ t. count t live) same))
      ]
    ]
