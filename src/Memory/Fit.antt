-- ===== src/Memory/Fit.antt =====
-- Which partition `reserve_memory` of src/memory.c takes a bucket from.
use cik.Prelude.{
  ℕ, zero, suc, ◌+◌, ◌-◌, ◌≤◌, ◌<◌, ◌≡◌, inl, inr, sym, ◌∙◌, ap, subst, some, List, [], ◌∷◌,
  get_elem?, leb, if◌then◌else◌, arith, Bool-cases,
}
use cik.Memory.{Partition, find_partition}

-- The partition found is the first that is large enough.
pub find_partition-first :
    (size i : ℕ) (ps : List Partition) (j : ℕ) (p : Partition)
    → find_partition size i ps ≡ some (j, p)
    → (i ≤ j)
      × (get_elem? ps (j - i) ≡ some p)
      × (size ≤ p.size)
      × ((k : ℕ) (q : Partition) → k < j - i → get_elem? ps k ≡ some q → q.size < size)
unfolding find_partition
find_partition-first size i [] j p h = cc
find_partition-first size i (q ∷ ps) j p h = elim (Bool-cases (leb size q.size)) [
  | inl fits ↦
      let found : some (i, q) ≡ some (j, p) =
        sym (ap (λ t. if t then some (i, q) else find_partition size (i + 1) ps) fits) ∙ h in
      let index : i ≡ j = ground arith in
      let same : q ≡ p = ground arith in
      let start : 0 ≡ j - i = omega arith in
      (
        omega arith,
        subst (λ t. get_elem? (q ∷ ps) t ≡ some p) start (ap some same),
        subst (λ (t : Partition). size ≤ t.size) same (ground arith),
        λ k r lt. absurd (omega arith),
      )
  | inr small ↦
      let found : find_partition size (i + 1) ps ≡ some (j, p) =
        sym (ap (λ t. if t then some (i, q) else find_partition size (i + 1) ps) small) ∙ h in
      let (le, at, fits, before) = find_partition-first size (i + 1) ps j p found in
      let next : suc (j - (i + 1)) ≡ j - i = omega arith in
      (
        omega arith,
        subst (λ t. get_elem? (q ∷ ps) t ≡ some p) next at,
        fits,
        λ k r lt here. smaller k r (j - (i + 1)) (omega arith) (ground arith) before here,
      )
]
  where
    smaller :
        (k : ℕ) (r : Partition) (n : ℕ)
        → k < suc n
        → q.size < size
        → ((k : ℕ) (r : Partition) → k < n → get_elem? ps k ≡ some r → r.size < size)
        → get_elem? (q ∷ ps) k ≡ some r
        → r.size < size
    smaller zero r n lt first before here =
        let same : q ≡ r = ground arith in subst (λ (t : Partition). t.size < size) same first
    smaller (suc k) r n lt first before here = before k r (omega arith) here
