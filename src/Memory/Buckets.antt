-- ===== src/Memory/Buckets.antt =====
-- The buckets of src/memory.c: which are in use, which are free, and where they lie.
use cik.Prelude.{
  ℕ, zero, suc, ◌+◌, ◌-◌, ◌^◌, ◌≤◌, ◌<◌, ◌≡◌, inl, inr, sym, ◌∙◌, ap, subst, none, some, List, [],
  ◌∷◌, get_elem?, get_elem?-set_self, get_elem?-set_ne, lt_of_get_elem?, set, ◌==◌, if◌then◌else◌,
  arith, Bool-cases,
}
use native.Mathlib.Decide.{ℕ_discrete}
use cik.Memory.{Partition, Memory, padded, bucket_header, partition_of}

-- Every bucket has its header below its data and its room above, clear of those pushed before it
-- and below the cursor.
abbrev pub Stacked : List Partition → List (ℕ × ℕ) → ℕ → Type 0
Stacked ps [] cursor = Unit
Stacked ps ((a, i) ∷ bs) cursor =
    (p : Partition) × (get_elem? ps i ≡ some p)
    × (bucket_header ≤ a)
    × (a + padded p.size ≤ cursor)
    × Stacked ps bs (a - bucket_header)

abbrev pub count : ℕ → List ℕ → ℕ
count a [] = 0
count a (b ∷ bs) = (if b == a then 1 else 0) + count a bs

abbrev pub count_free : ℕ → List Partition → ℕ
count_free a [] = 0
count_free a (p ∷ ps) = count a p.free_buckets + count_free a ps

-- 1 for the address of a bucket, else 0.
abbrev pub recorded : ℕ → List (ℕ × ℕ) → ℕ
recorded a bs = elim (partition_of a bs) [ none ↦ 0 | some i ↦ 1 ]

-- `live` has the addresses that were handed out and not released. Every bucket is there or on the
-- free list of its own partition, and nowhere twice.
pub record IsMemory (m : Memory) (live : List ℕ) : Type 0 where
  pub stacked : Stacked m.partitions m.buckets m.memory_cursor
  pub counts : (a : ℕ) → count a live + count_free a m.partitions ≡ recorded a m.buckets
  pub kept :
      (i : ℕ) (p : Partition) (a : ℕ)
      → get_elem? m.partitions i ≡ some p
      → 0 < count a p.free_buckets
      → partition_of a m.buckets ≡ some i

-- The cursor can move past a bucket of any partition without wrapping round.
abbrev pub HasRoom : Memory → Type 0
HasRoom m =
    (i : ℕ) (p : Partition)
    → get_elem? m.partitions i ≡ some p
    → m.memory_cursor + (bucket_header + padded p.size) < 2 ^ 64

pub count_free-set :
    (ps : List Partition) (i : ℕ) (p p' : Partition) (a : ℕ)
    → get_elem? ps i ≡ some p
    → count_free a (set ps i p') + count a p.free_buckets
      ≡ count_free a ps + count a p'.free_buckets
count_free-set [] i p p' a h = cc
count_free-set (q ∷ ps) zero p p' a h = let same : q ≡ p = ground arith in rw same (omega arith)
count_free-set (q ∷ ps) (suc i) p p' a h = omega (arith, count_free-set ps i p p' a h)

-- A change of a partition that keeps its size keeps the buckets in place.
pub Stacked-set :
    (ps : List Partition) (i : ℕ) (p p' : Partition) (bs : List (ℕ × ℕ)) (cursor : ℕ)
    → get_elem? ps i ≡ some p
    → p'.size ≡ p.size
    → Stacked ps bs cursor
    → Stacked (set ps i p') bs cursor
Stacked-set ps i p p' [] cursor at same s = s
Stacked-set ps i p p' ((a, j) ∷ bs) cursor at same (q, at', low, high, s) =
    let rest = Stacked-set ps i p p' bs (a - bucket_header) at same s in
    elim (ℕ_discrete i j) [
      | yes e ↦
          let lt = lt_of_get_elem? ps i p at in
          let q_eq : q ≡ p = ground (arith, e, at, at') in
          (
            p',
            subst (λ t. get_elem? (set ps i p') t ≡ some p') e (get_elem?-set_self ps i p' lt),
            low,
            subst (λ t. a + padded t ≤ cursor) (ap (λ (t : Partition). t.size) q_eq ∙ sym same)
                high,
            rest,
          )
      | no n ↦ (q, get_elem?-set_ne ps i j p' n ∙ at', low, high, rest)
    ]

-- Everything recorded lies below the cursor.
pub partition_of_below :
    (ps : List Partition) (bs : List (ℕ × ℕ)) (cursor a i : ℕ)
    → Stacked ps bs cursor
    → partition_of a bs ≡ some i
    → a ≤ cursor
unfolding partition_of
partition_of_below ps [] cursor a i s h = cc
partition_of_below ps ((b, j) ∷ bs) cursor a i (p, at, low, high, s) h =
    elim (Bool-cases (b == a)) [
      | inl here ↦ ground arith
      | inr there ↦
          let below =
            partition_of_below ps bs (b - bucket_header) a i s
              (sym (ap (λ t. if t then some j else partition_of a bs) there) ∙ h) in
          omega arith
    ]

pub count_free_le :
    (ps : List Partition) (i : ℕ) (p : Partition) (a : ℕ)
    → get_elem? ps i ≡ some p
    → count a p.free_buckets ≤ count_free a ps
count_free_le [] i p a h = cc
count_free_le (q ∷ ps) zero p a h =
    let same : q ≡ p = ground arith in
    omega (arith, ap (λ (t : Partition). count a t.free_buckets) same)
count_free_le (q ∷ ps) (suc i) p a h = omega (arith, count_free_le ps i p a h)

-- Every bucket belongs to a partition.
pub partition_of-partition :
    (ps : List Partition) (bs : List (ℕ × ℕ)) (cursor a i : ℕ)
    → Stacked ps bs cursor
    → partition_of a bs ≡ some i
    → (p : Partition) × (get_elem? ps i ≡ some p)
unfolding partition_of
partition_of-partition ps [] cursor a i s h = cc
partition_of-partition ps ((b, j) ∷ bs) cursor a i (p, at, low, high, s) h =
    elim (Bool-cases (b == a)) [
      | inl here ↦
          let found : some j ≡ some i =
            sym (ap (λ t. if t then some j else partition_of a bs) here) ∙ h in
          let same : j ≡ i = ground arith in (p, subst (λ t. get_elem? ps t ≡ some p) same at)
      | inr there ↦
          partition_of-partition ps bs (b - bucket_header) a i s
            (sym (ap (λ t. if t then some j else partition_of a bs) there) ∙ h)
    ]

-- Only how often each address is in use matters.
pub same_count-IsMemory :
    (m : Memory) (live live' : List ℕ)
    → ((a : ℕ) → count a live ≡ count a live')
    → IsMemory m live
    → IsMemory m live'
same_count-IsMemory m live live' same mem = record {
  stacked = mem.stacked;
  counts = λ a. omega (arith, same a, mem.counts a);
  kept = mem.kept;
}
