-- ===== src/Memory/Races/Exclusive.antt =====
-- No bucket of src/memory.c is handed out twice, however threads interleave.
use cik.Prelude.{
  ℕ, zero, suc, ◌+◌, ◌≤◌, ◌<◌, ◌≡◌, ◌⊎◌, inl, inr, refl, sym, ◌∙◌, ap, false, Option, none, some,
  List, [], ◌∷◌, ◌==◌, arith, Bool-cases,
}
use cik.Memory.Buckets.{count}
use cik.Memory.Races.{
  Word, Place, outside, marked, seen, popping, pushing, linking, swapping, Shared, Choice, reserve,
  release, fail_once, is_spurious, begin, advance, interleave, new_partition,
}
use cik.Memory.Races.Consistent.{Owner, unborn, used, listed, held, Chain, count_of, IsConsistent}
use cik.Memory.Races.Moved.{depth}
use cik.Memory.Races.Popping.{
  mark-IsConsistent, read_list-IsConsistent, unmark-IsConsistent, read_next-IsConsistent,
  write_list-IsConsistent, push_new-IsConsistent,
}
use cik.Memory.Races.Releasing.{give_back-IsConsistent, link-IsConsistent, swap-IsConsistent}

abbrev SomeConsistent : Shared → Type 0
SomeConsistent s = (owner : ℕ → Owner) × (k : ℕ) × IsConsistent owner k s

begin-IsConsistent :
    (owner : ℕ → Owner) (k : ℕ) (choice : Choice) (i : ℕ) (s : Shared)
    → IsConsistent owner k s
    → SomeConsistent (begin choice i s)
unfolding begin
begin-IsConsistent owner k reserve i s c = (owner, k, mark-IsConsistent owner k i s c)
begin-IsConsistent owner k (release b) i s c =
    let (owner', c') = give_back-IsConsistent owner k i s c b in (owner', k, c')
begin-IsConsistent owner k fail_once i s c = (owner, k, c)

advance-IsConsistent :
    (owner : ℕ → Owner) (k i : ℕ) (choice : Choice) (place : Place) (s : Shared)
    → IsConsistent owner k s
    → s.places i ≡ place
    → SomeConsistent (advance i choice place s)
unfolding advance
advance-IsConsistent owner k i choice outside s c at = begin-IsConsistent owner k choice i s c
advance-IsConsistent owner k i choice marked s c at =
    (owner, k, read_list-IsConsistent owner k i s c at)
advance-IsConsistent owner k i choice (seen none) s c at =
    (owner, k, unmark-IsConsistent owner k i s c at)
advance-IsConsistent owner k i choice (seen (some b)) s c at =
    (owner, k, read_next-IsConsistent owner k i s c b at)
advance-IsConsistent owner k i choice (popping b word) s c at =
    let (k', c') = write_list-IsConsistent owner k i s c b word at in (_, k', c')
advance-IsConsistent owner k i choice pushing s c at =
    (_, k, push_new-IsConsistent owner k i s c at)
advance-IsConsistent owner k i choice (linking b) s c at =
    (owner, k, link-IsConsistent owner k i s c b at)
advance-IsConsistent owner k i choice (swapping b expected) s c at =
    swap-IsConsistent owner k i s c (is_spurious choice) b expected at

interleave-IsConsistent :
    (accesses : List (ℕ × Choice)) (s : Shared)
    → SomeConsistent s
    → SomeConsistent (interleave accesses s)
unfolding interleave
interleave-IsConsistent [] s c = c
interleave-IsConsistent ((i, choice) ∷ rest) s (owner, k, c) =
    interleave-IsConsistent rest (advance i choice (s.places i) s)
      (advance-IsConsistent owner k i choice (s.places i) s c refl)

new_partition-IsConsistent : IsConsistent (λ b. unborn) 0 new_partition
unfolding new_partition
new_partition-IsConsistent = record {
  chain = tt;
  fresh = λ b le. refl;
  counts = λ b. refl;
  knows = λ i. tt;
  alone = λ i j p q. cc;
}

-- The buckets of the free list, from the first on, with unmarked pointers between them.
abbrev pub Linked : (ℕ → Word) → Option ℕ → List ℕ → Type 0
Linked next none [] = Unit
Linked next none (b ∷ bs) = ⊥
Linked next (some a) [] = ⊥
Linked next (some a) (b ∷ bs) =
    (a ≡ b) × ((next a).is_marked ≡ false) × Linked next (next a).pointer bs

abbrev Counted : (ℕ → Owner) → ℕ → List ℕ → ℕ → Type 0
Counted owner k free b =
    (count b free ≡ 0) ⊎ ((count b free ≡ 1) × (d : ℕ) × (d < k) × (owner b ≡ listed d))

free_list_of :
    (owner : ℕ → Owner) (next : ℕ → Word) (p : Option ℕ) (k : ℕ)
    → Chain owner next p k
    → (free : List ℕ) × Linked next p free × ((b : ℕ) → Counted owner k free b)
free_list_of owner next none zero chain = ([], tt, λ b. inl refl)
free_list_of owner next none (suc k) chain = absurd chain
free_list_of owner next (some a) zero chain = absurd chain
free_list_of owner next (some a) (suc k) (here, unmarked, rest) =
    let (free, linked, counted) = free_list_of owner next (next a).pointer k rest in
    (a ∷ free, (refl, unmarked, linked), λ b. first free b (counted b))
  where
    first : (free : List ℕ) (b : ℕ) → Counted owner k free b → Counted owner (suc k) (a ∷ free) b
    first free b c = elim (Bool-cases (a == b)) [
      | inl same ↦
          let e : a ≡ b = ground (arith, same) in
          let own : owner b ≡ listed k = ap owner (sym e) ∙ here in
          elim c [
            | inl none_there ↦ inr (ground (arith, same, none_there), k, omega arith, own)
            | inr (one, d, lt, o) ↦
                let depths : d ≡ k = ap depth (sym o ∙ own) in absurd (omega (arith, lt, depths))
          ]
      | inr other ↦ elim c [
        | inl none_there ↦ inl (ground (arith, other, none_there))
        | inr (one, d, lt, o) ↦ inr (ground (arith, other, one), d, omega (arith, lt), o)
      ]
    ]

count_of_le : (o : Owner) → count_of o ≤ 1
count_of_le unborn = omega arith
count_of_le used = omega arith
count_of_le (listed d) = omega arith
count_of_le (held i) = omega arith

-- However the accesses of any number of threads to a new partition come one behind another, its free
-- list ends, has only unmarked pointers behind its first, and no bucket is on it and in use, twice on
-- it or twice in use.
pub interleave-Linked :
    (accesses : List (ℕ × Choice))
    → let s = interleave accesses new_partition in
      (free : List ℕ) × Linked s.next s.free_buckets.pointer free
      × ((b : ℕ) → count b free + s.uses b ≤ 1)
interleave-Linked accesses =
    let (owner, k, c) =
      interleave-IsConsistent accesses new_partition (_, 0, new_partition-IsConsistent) in
    let s = interleave accesses new_partition in
    let (free, linked, counted) = free_list_of owner s.next s.free_buckets.pointer k c.chain in
    (
      free,
      linked,
      λ b. elim (counted b) [
        | inl none_there ↦ omega (arith, none_there, c.counts b, count_of_le (owner b))
        | inr (one, d, lt, o) ↦
            let not_used : s.uses b ≡ 0 = c.counts b ∙ ap count_of o in omega (arith, one, not_used)
      ],
    )
