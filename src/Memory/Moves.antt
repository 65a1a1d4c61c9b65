-- ===== src/Memory/Moves.antt =====
-- The three ways in which the bookkeeping of src/memory.c changes: the cursor moves, a free list
-- changes, a bucket is new.
use cik.Prelude.{
  ℕ, ◌+◌, ◌≤◌, ◌<◌, ◌≡◌, inl, inr, sym, ◌∙◌, ap, subst, Bool, true, false, Option, none, some, List,
  [], ◌∷◌, get_elem?, get_elem?-set_self, get_elem?-set_ne, lt_of_get_elem?, set, ◌==◌,
  if◌then◌else◌, arith, Bool-cases, Option-cases,
}
use native.Mathlib.Decide.{ℕ_discrete}
use cik.Memory.{Partition, Memory, padded, bucket_header, partition_of}
use cik.Memory.Buckets.{
  Stacked, count, count_free, recorded, IsMemory, count_free-set, Stacked-set, partition_of_below,
}

-- The cursor may move up.
Stacked-mono :
    (ps : List Partition) (bs : List (ℕ × ℕ)) (c c' : ℕ)
    → c ≤ c'
    → Stacked ps bs c
    → Stacked ps bs c'
Stacked-mono ps [] c c' le s = s
Stacked-mono ps ((a, i) ∷ bs) c c' le (p, at, low, high, s) = (p, at, low, omega arith, s)

pub skipped :
    (m : Memory) (live : List ℕ) (cursor : ℕ)
    → IsMemory m live
    → m.memory_cursor ≤ cursor
    → IsMemory (record m { memory_cursor = cursor }) live
skipped m live cursor mem le = record {
  stacked = Stacked-mono m.partitions m.buckets m.memory_cursor cursor le mem.stacked;
  counts = mem.counts;
  kept = mem.kept;
}

-- A partition whose free list changes, against the buckets in use.
pub exchange :
    (m : Memory) (live live' : List ℕ) (i : ℕ) (p p' : Partition)
    → IsMemory m live
    → get_elem? m.partitions i ≡ some p
    → p'.size ≡ p.size
    → ((b : ℕ) → count b live' + count b p'.free_buckets ≡ count b live + count b p.free_buckets)
    → ((b : ℕ) → 0 < count b p'.free_buckets → partition_of b m.buckets ≡ some i)
    → IsMemory (record m { partitions = set m.partitions i p' }) live'
exchange m live live' i p p' mem at size same owned = record {
  stacked = Stacked-set m.partitions i p p' m.buckets m.memory_cursor at size mem.stacked;
  counts = λ b. omega (arith, mem.counts b, count_free-set m.partitions i p p' b at, same b);
  kept = λ j q b here some_free. elim (ℕ_discrete i j) [
    | yes e ↦
        let lt = lt_of_get_elem? m.partitions i p at in
        let q_eq : q ≡ p' = ground (arith, e, here, get_elem?-set_self m.partitions i p' lt) in
        let free' : count b q.free_buckets ≡ count b p'.free_buckets =
          ap (λ (t : Partition). count b t.free_buckets) q_eq in
        subst (λ t. partition_of b m.buckets ≡ some t) e (owned b (omega arith))
    | no n ↦ mem.kept j q b (sym (get_elem?-set_ne m.partitions i j p' n) ∙ here) some_free
  ];
}

recorded-cons :
    (a b i : ℕ) (bs : List (ℕ × ℕ))
    → ((a == b) ≡ true → recorded b ((a, i) ∷ bs) ≡ 1)
      × ((a == b) ≡ false → recorded b ((a, i) ∷ bs) ≡ recorded b bs)
unfolding partition_of
recorded-cons a b i bs = (
  λ here.
      ap (λ t. elim (if t then some i else partition_of b bs) as (λ x. ℕ) [ none ↦ 0 | some j ↦ 1 ])
        here,
  λ there.
      ap (λ t. elim (if t then some i else partition_of b bs) as (λ x. ℕ) [ none ↦ 0 | some j ↦ 1 ])
        there,
)

-- A new bucket at the cursor, which is handed out at once.
pub pushed :
    (m : Memory) (live : List ℕ) (i : ℕ) (p : Partition) (cursor : ℕ)
    → IsMemory m live
    → get_elem? m.partitions i ≡ some p
    → m.memory_cursor + bucket_header + padded p.size ≤ cursor
    → (count (m.memory_cursor + bucket_header) live ≡ 0)
      × IsMemory
          (record m {
            memory_cursor = cursor;
            buckets = (m.memory_cursor + bucket_header, i) ∷ m.buckets;
          })
          ((m.memory_cursor + bucket_header) ∷ live)
unfolding partition_of
pushed m live i p cursor mem at room = (
  omega (arith, none_there),
  record {
    stacked = (
      p,
      at,
      omega arith,
      room,
      subst (Stacked m.partitions m.buckets) (omega arith) mem.stacked,
    );
    counts = λ b. elim (Bool-cases (m.memory_cursor + bucket_header == b)) [
      | inl here ↦
          let same : m.memory_cursor + bucket_header ≡ b = ground arith in
          let nothing : count b live + count_free b m.partitions ≡ 0 =
            subst (λ t. count t live + count_free t m.partitions ≡ 0) same none_there in
          omega (
            arith,
            (recorded-cons (m.memory_cursor + bucket_header) b i m.buckets).0 here,
            ap (λ (t : Bool). (if t then 1 else 0) + count b live) here,
          )
      | inr there ↦ omega (
        arith,
        mem.counts b,
        (recorded-cons (m.memory_cursor + bucket_header) b i m.buckets).1 there,
        ap (λ (t : Bool). (if t then 1 else 0) + count b live) there,
      )
    ];
    kept = λ j q b here some_free.
        let old = mem.kept j q b here some_free in
        let apart : (m.memory_cursor + bucket_header == b) ≡ false =
          ground (
            arith,
            partition_of_below m.partitions m.buckets m.memory_cursor b j mem.stacked old,
          ) in
        rw apart old;
  },
)
  where
    none_there :
        count (m.memory_cursor + bucket_header) live
          + count_free (m.memory_cursor + bucket_header) m.partitions
        ≡ 0
    none_there = elim (Option-cases (partition_of (m.memory_cursor + bucket_header) m.buckets)) [
      | inl nothing ↦
          mem.counts (m.memory_cursor + bucket_header)
          ∙ ap (λ (t : Option ℕ). elim t [ none ↦ 0 | some i ↦ 1 ]) nothing
      | inr (j, found) ↦ absurd (
          omega (
            arith,
            partition_of_below m.partitions m.buckets m.memory_cursor
                (m.memory_cursor + bucket_header) j mem.stacked found,
          ))
    ]
