-- ===== src/Memory/Races/Moved.antt =====
-- One access to a free list of src/memory.c: what it must keep for all threads.
use cik.Prelude.{
  ℕ, zero, suc, ◌≤◌, ◌≡◌, ◌≢◌, refl, sym, ◌∙◌, ap, subst, Bool, true, false, Option, none, some,
  arith,
}
use native.Mathlib.Decide.{ℕ_discrete}
use mathlib.Core.Bool.{not, ◌&&◌}
use cik.Memory.Races.{
  Word, Place, outside, marked, seen, popping, pushing, linking, swapping, Shared, change, go_to,
  same_pointer,
}
use cik.Memory.Races.Consistent.{
  Owner, unborn, used, listed, held, Chain, is_popping, Knows, count_of, IsConsistent, change_self,
  change_other, Knows-same,
}

-- A thread that pops knows that the list is marked.
pub marked_of_popping :
    (owner : ℕ → Owner) (s : Shared) (i : ℕ) (place : Place)
    → Knows owner s i place
    → is_popping place ≡ true
    → s.free_buckets.is_marked ≡ true
marked_of_popping owner s i outside k p = cc
marked_of_popping owner s i pushing k p = cc
marked_of_popping owner s i marked k p = k
marked_of_popping owner s i (seen q) (m, h) p = m
marked_of_popping owner s i (popping b word) (m, h, n) p = m
marked_of_popping owner s i (linking b) k p = cc
marked_of_popping owner s i (swapping b e) k p = cc

-- What a step of thread `i` must leave to thread `j`.
abbrev pub Spares : (ℕ → Owner) → (ℕ → Owner) → Shared → Shared → ℕ → Type 0
Spares owner owner' s s' j =
    (is_popping (s.places j) ≡ true
      → (s'.free_buckets ≡ s.free_buckets)
        × ((b : ℕ) → s.free_buckets.pointer ≡ some b → s'.next b ≡ s.next b))
    × ((b : ℕ) → owner b ≡ held j → (owner' b ≡ held j) × (s'.next b ≡ s.next b))

pub moved :
    (owner owner' : ℕ → Owner) (k k' i : ℕ) (place : Place) (s s' : Shared)
    → IsConsistent owner k s
    → s'.places ≡ s.places
    → Chain owner' s'.next s'.free_buckets.pointer k'
    → ((b : ℕ) → s'.pushed ≤ b → owner' b ≡ unborn)
    → ((b : ℕ) → s'.uses b ≡ count_of (owner' b))
    → Knows owner' s' i place
    → ((j : ℕ) → j ≢ i → Spares owner owner' s s' j)
    → (is_popping place ≡ true → (j : ℕ) → j ≢ i → is_popping (s.places j) ≢ true)
    → IsConsistent owner' k' (go_to i place s')
moved owner owner' k k' i place s s' c places chain fresh counts knows spares alone = record {
  chain = chain;
  fresh = fresh;
  counts = counts;
  knows = λ j. elim (ℕ_discrete j i) [
    | yes e ↦
        let here : change s'.places i place j ≡ place =
          ap (change s'.places i place) e ∙ change_self s'.places i place in
        subst (λ (t : Place). Knows owner' s' j t) (sym here)
          (subst (λ t. Knows owner' s' t place) (sym e) knows)
    | no n ↦
        let there : change s'.places i place j ≡ s.places j =
          change_other s'.places i j place n ∙ ap (λ (f : ℕ → Place). f j) places in
        subst (λ (t : Place). Knows owner' s' j t) (sym there)
          (Knows-same owner owner' s s' j (s.places j) (c.knows j) (spares j n).0 (spares j n).1)
  ];
  alone = λ j l pj pl. elim (ℕ_discrete j i) [
    | yes ej ↦ elim (ℕ_discrete l i) [
      | yes el ↦ ej ∙ sym el
      | no nl ↦ absurd (alone (at_self j ej pj) l nl (at_other l nl pl))
    ]
    | no nj ↦ elim (ℕ_discrete l i) [
      | yes el ↦ absurd (alone (at_self l el pl) j nj (at_other j nj pj))
      | no nl ↦ c.alone j l (at_other j nj pj) (at_other l nl pl)
    ]
  ];
}
  where
    at_self :
        (j : ℕ) → j ≡ i → is_popping (change s'.places i place j) ≡ true → is_popping place ≡ true
    at_self j e p =
        sym (ap is_popping (ap (change s'.places i place) e ∙ change_self s'.places i place)) ∙ p

    at_other :
        (j : ℕ)
        → j ≢ i
        → is_popping (change s'.places i place j) ≡ true
        → is_popping (s.places j) ≡ true
    at_other j n p =
        sym
          (ap is_popping (change_other s'.places i j place n ∙ ap (λ (f : ℕ → Place). f j) places))
        ∙ p

abbrev pub depth : Owner → ℕ
depth (listed d) = d
depth other = 0

-- Buckets of different owners are different, and a change of one leaves the other.
pub differ :
    (owner : ℕ → Owner) (b b' : ℕ) (x y : Owner) → owner b ≡ x → owner b' ≡ y → x ≢ y → b' ≢ b
differ owner b b' x y h h' ne e = ne (sym h ∙ ap owner (sym e) ∙ h')

pub others_keep :
    (owner : ℕ → Owner) (b b' : ℕ) (x y new : Owner)
    → owner b ≡ x
    → owner b' ≡ y
    → x ≢ y
    → change owner b new b' ≡ y
others_keep owner b b' x y new h h' ne =
    change_other owner b b' new (differ owner b b' x y h h' ne) ∙ h'

pub used_of : (o : Owner) → count_of o ≢ 0 → o ≡ used
used_of unborn n = absurd (n refl)
used_of used n = refl
used_of (listed d) n = absurd (n refl)
used_of (held j) n = absurd (n refl)

-- The first bucket of the list is the list's.
pub first_listed :
    (owner : ℕ → Owner) (next : ℕ → Word) (p : Option ℕ) (k b : ℕ)
    → Chain owner next p k
    → p ≡ some b
    → (d : ℕ) × (owner b ≡ listed d)
first_listed owner next none k b chain h = cc
first_listed owner next (some a) zero b chain h = absurd chain
first_listed owner next (some a) (suc d) b (here, unmarked, rest) h =
    let same : a ≡ b = ground (arith, h) in (d, ap owner (sym same) ∙ here)

abbrev pub holder : Owner → ℕ
holder (held i) = i
holder other = 0

pub same_pointer_eq : (p q : Option ℕ) → same_pointer p q ≡ true → p ≡ q
same_pointer_eq none none h = refl
same_pointer_eq none (some b) h = cc
same_pointer_eq (some a) none h = cc
same_pointer_eq (some a) (some b) h = ap some (ground (arith, h))

-- How often each bucket is in use, once one of them changes hands.
pub counts_after :
    (owner : ℕ → Owner) (uses : ℕ → ℕ) (b n : ℕ) (new : Owner)
    → ((a : ℕ) → uses a ≡ count_of (owner a))
    → n ≡ count_of new
    → (a : ℕ) → change uses b n a ≡ count_of (change owner b new a)
counts_after owner uses b n new counts now a = elim (ℕ_discrete a b) [
  | yes e ↦
      ap (change uses b n) e
      ∙ change_self uses b n
      ∙ now
      ∙ ap count_of (sym (ap (change owner b new) e ∙ change_self owner b new))
  | no ne ↦
      change_other uses b a n ne ∙ counts a ∙ ap count_of (sym (change_other owner b a new ne))
]

pub counts_kept :
    (owner : ℕ → Owner) (b : ℕ) (old new : Owner)
    → owner b ≡ old
    → count_of old ≡ count_of new
    → (uses : ℕ → ℕ) → ((a : ℕ) → uses a ≡ count_of (owner a))
    → (a : ℕ) → uses a ≡ count_of (change owner b new a)
counts_kept owner b old new here same uses counts a = elim (ℕ_discrete a b) [
  | yes e ↦
      counts a
      ∙ ap count_of (ap owner e ∙ here)
      ∙ same
      ∙ ap count_of (sym (ap (change owner b new) e ∙ change_self owner b new))
  | no ne ↦ counts a ∙ ap count_of (sym (change_other owner b a new ne))
]

pub by_test : (a b c : Bool) → (not a && (not b && c)) ≡ true → b ≡ false
by_test true b c h = cc
by_test false true c h = cc
by_test false false c h = refl

pub by_second : (a b c : Bool) → (not a && (not b && c)) ≡ true → c ≡ true
by_second true b c h = cc
by_second false true c h = cc
by_second false false c h = h

module _ (owner : ℕ → Owner) (k i : ℕ) (s : Shared) (c : IsConsistent owner k s) where
  -- Nobody pops while the list is unmarked, and only one thread does so while it is marked.
  pub none_pops : s.free_buckets.is_marked ≡ false → (j : ℕ) → is_popping (s.places j) ≢ true
  none_pops free j p = let marked_now = marked_of_popping owner s j (s.places j) (c.knows j) p in cc

  pub only_one : is_popping (s.places i) ≡ true → (j : ℕ) → j ≢ i → is_popping (s.places j) ≢ true
  only_one here j n p = n (c.alone j i p here)
