-- ===== src/Memory/Races/Consistent.antt =====
-- What holds of a partition's free list of src/memory.c between any two accesses.
use cik.Prelude.{
  ℕ, zero, suc, ◌≤◌, ◌<◌, ◌≡◌, ◌≢◌, refl, sym, ◌∙◌, ap, subst, Bool, true, false, Option, none,
  some, ◌==◌, arith,
}
use cik.Memory.Races.{
  Word, Place, outside, marked, seen, popping, pushing, linking, swapping, Shared, change,
}

-- Who has a bucket: nobody yet, the free list at a depth, a caller, or a thread that releases it.
pub data Owner : Type 0 where
  unborn used : Owner
  listed : ℕ → Owner
  held : ℕ → Owner

-- The buckets from a pointer on are the list's, at falling depths, and their pointers are unmarked.
abbrev pub Chain : (ℕ → Owner) → (ℕ → Word) → Option ℕ → ℕ → Type 0
Chain owner next none zero = Unit
Chain owner next none (suc k) = ⊥
Chain owner next (some b) zero = ⊥
Chain owner next (some b) (suc k) =
    (owner b ≡ listed k) × ((next b).is_marked ≡ false) × Chain owner next (next b).pointer k

abbrev pub is_popping : Place → Bool
is_popping marked = true
is_popping (seen p) = true
is_popping (popping b word) = true
is_popping other = false

-- What a thread knows, where it stands.
abbrev pub Knows : (ℕ → Owner) → Shared → ℕ → Place → Type 0
Knows owner s i outside = Unit
Knows owner s i pushing = Unit
Knows owner s i marked = s.free_buckets.is_marked ≡ true
Knows owner s i (seen p) = (s.free_buckets.is_marked ≡ true) × (s.free_buckets.pointer ≡ p)
Knows owner s i (popping b word) =
    (s.free_buckets.is_marked ≡ true) × (s.free_buckets.pointer ≡ some b) × (s.next b ≡ word)
Knows owner s i (linking b) = owner b ≡ held i
Knows owner s i (swapping b expected) =
    (owner b ≡ held i) × (s.next b ≡ record { pointer = expected; is_marked = false })

abbrev pub count_of : Owner → ℕ
count_of used = 1
count_of other = 0

pub record IsConsistent (owner : ℕ → Owner) (k : ℕ) (s : Shared) : Type 0 where
  pub chain : Chain owner s.next s.free_buckets.pointer k
  pub fresh : (b : ℕ) → s.pushed ≤ b → owner b ≡ unborn
  pub counts : (b : ℕ) → s.uses b ≡ count_of (owner b)
  pub knows : (i : ℕ) → Knows owner s i (s.places i)
  pub alone : (i j : ℕ) → is_popping (s.places i) ≡ true → is_popping (s.places j) ≡ true → i ≡ j

pub change_self : {A : Type 0} → (f : ℕ → A) → (i : ℕ) → (a : A) → change f i a i ≡ a
change_self f i a = let same : (i == i) ≡ true = ground arith in rw same refl

pub change_other : {A : Type 0} → (f : ℕ → A) → (i j : ℕ) → (a : A) → j ≢ i → change f i a j ≡ f j
change_other f i j a ne = let test : (j == i) ≡ false = ground (arith, ne) in rw test refl

-- The chain depends on its own buckets only.
pub Chain-same :
    (owner owner' : ℕ → Owner) (next next' : ℕ → Word) (p : Option ℕ) (k : ℕ)
    → Chain owner next p k
    → ((b d : ℕ) → d < k → owner b ≡ listed d → (owner' b ≡ listed d) × (next' b ≡ next b))
    → Chain owner' next' p k
Chain-same owner owner' next next' none zero c same = tt
Chain-same owner owner' next next' none (suc k) c same = c
Chain-same owner owner' next next' (some b) zero c same = c
Chain-same owner owner' next next' (some b) (suc k) (here, unmarked, rest) same =
    let (here', now) = same b k (omega arith) here in
    (
      here',
      ap (λ (w : Word). w.is_marked) now ∙ unmarked,
      subst (λ (w : Word). Chain owner' next' w.pointer k) (sym now)
          (Chain-same owner owner' next next' (next b).pointer k rest
            (λ b' d lt o. same b' d (omega (arith, lt)) o)),
    )

-- What a thread knows stays true if the list does while it pops, and what it releases stays its own.
pub Knows-same :
    (owner owner' : ℕ → Owner) (s s' : Shared) (i : ℕ) (place : Place)
    → Knows owner s i place
    → (is_popping place ≡ true
        → (s'.free_buckets ≡ s.free_buckets)
          × ((b : ℕ) → s.free_buckets.pointer ≡ some b → s'.next b ≡ s.next b))
    → ((b : ℕ) → owner b ≡ held i → (owner' b ≡ held i) × (s'.next b ≡ s.next b))
    → Knows owner' s' i place
Knows-same owner owner' s s' i outside k pops holds = tt
Knows-same owner owner' s s' i pushing k pops holds = tt
Knows-same owner owner' s s' i marked k pops holds =
    ap (λ (w : Word). w.is_marked) (pops refl).0 ∙ k
Knows-same owner owner' s s' i (seen p) (m, h) pops holds = (
  ap (λ (w : Word). w.is_marked) (pops refl).0 ∙ m,
  ap (λ (w : Word). w.pointer) (pops refl).0 ∙ h,
)
Knows-same owner owner' s s' i (popping b word) (m, h, n) pops holds = (
  ap (λ (w : Word). w.is_marked) (pops refl).0 ∙ m,
  ap (λ (w : Word). w.pointer) (pops refl).0 ∙ h,
  (pops refl).1 b h ∙ n,
)
Knows-same owner owner' s s' i (linking b) k pops holds = (holds b k).0
Knows-same owner owner' s s' i (swapping b expected) (o, n) pops holds =
    ((holds b o).0, (holds b o).1 ∙ n)
