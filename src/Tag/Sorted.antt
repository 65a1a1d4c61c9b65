-- ===== src/Tag/Sorted.antt =====
-- The order in which the walk over the tag index of src/tag.c meets its tags.
use cik.Prelude.{
  Ordering, ℕ, ◌<◌, ◌≡◌, sym, ◌∙◌, true, false, Option, some, List, [], ◌∷◌, ◌++◌, if◌then◌else◌,
}
use cik.Tag.{TagNode, null, node, walk_all_tags, is_empty}
use cik.Tag.Shape.{AllTags, IsIndex}
use cik.Tag.Walk.{num_nodes, tags_in_order, fold_tags, walk_all_tags-in_order, walk_in_order-folds}
use cik.Bytes.{Bytes}
use cik.Memory.{Memory}
use cik.Bytes.Compare.{lex, lex_trans}

unfoldable pub All : (Bytes → Type 0) → List Bytes → Type 0
All P [] = Unit
All P (t ∷ ts) = P t × All P ts

-- Each tag is before all that follow it, so none is there twice.
unfoldable pub IsSorted : List Bytes → Type 0
unfolding All
IsSorted [] = Unit
IsSorted (t ∷ ts) = All (λ u. lex t u ≡ Ordering.lt) ts × IsSorted ts

All-append : (P : Bytes → Type 0) (ts us : List Bytes) → All P ts → All P us → All P (ts ++ us)
unfolding All
All-append P [] us h k = k
All-append P (t ∷ ts) us (p, h) k = (p, All-append P ts us h k)

All-imp : (P Q : Bytes → Type 0) (ts : List Bytes) → ((t : Bytes) → P t → Q t) → All P ts → All Q ts
unfolding All
All-imp P Q [] f h = h
All-imp P Q (t ∷ ts) f (p, h) = (f t p, All-imp P Q ts f h)

tags_in_order-All :
    (P : Bytes → Type 0) (tree : TagNode) → AllTags P tree → All P (tags_in_order tree)
unfolding AllTags All tags_in_order
tags_in_order-All P null h = tt
tags_in_order-All P (node a t keys n left right) (p, l, r) =
    let later = tags_in_order-All P right r in
    All-append P (tags_in_order left)
      (if is_empty keys then tags_in_order right else t ∷ tags_in_order right)
      (tags_in_order-All P left l)
      (elim (is_empty keys)
        as (λ b. All P (if b then tags_in_order right else t ∷ tags_in_order right)) [
          | true ↦ later
          | false ↦ (p, later)
        ])

IsSorted-append :
    (t : Bytes) (ts us : List Bytes)
    → All (λ u. lex u t ≡ Ordering.lt) ts
    → All (λ u. lex t u ≡ Ordering.lt) us
    → IsSorted ts
    → IsSorted us
    → IsSorted (ts ++ us) × IsSorted (ts ++ (t ∷ us))
unfolding IsSorted All
IsSorted-append t [] us h k s s' = (s', (k, s'))
IsSorted-append t (u ∷ ts) us (h, hs) k (first, s) s' =
    let (without, with_t) = IsSorted-append t ts us hs k s s' in
    let beyond : All (λ v. lex u v ≡ Ordering.lt) us =
      All-imp (λ v. lex t v ≡ Ordering.lt) (λ v. lex u v ≡ Ordering.lt) us (λ v. lex_trans u t v h)
        k in
    (
      (All-append (λ v. lex u v ≡ Ordering.lt) ts us first beyond, without),
      (All-append (λ v. lex u v ≡ Ordering.lt) ts (t ∷ us) first (h, beyond), with_t),
    )

pub tags_in_order-IsSorted : (tree : TagNode) → IsIndex tree → IsSorted (tags_in_order tree)
unfolding IsIndex tags_in_order IsSorted
tags_in_order-IsSorted null h = tt
tags_in_order-IsSorted (node a t keys n left right) (small, large, c, l, r) =
    let both =
      IsSorted-append t (tags_in_order left) (tags_in_order right)
        (tags_in_order-All (λ u. lex u t ≡ Ordering.lt) left small)
        (tags_in_order-All (λ u. lex t u ≡ Ordering.lt) right large) (tags_in_order-IsSorted left l)
        (tags_in_order-IsSorted right r) in
    elim (is_empty keys)
      as (λ b.
        IsSorted
          (tags_in_order left ++ (if b then tags_in_order right else t ∷ tags_in_order right))) [
            | true ↦ both.0
            | false ↦ both.1
          ]

module _ {S : Type 0} (callback : Bytes → S → Option S) where
  -- On an ordered index and with more fuel than nodes, a walk that returns has handed the callback
  -- the tags that have keys, each once and in the order of their bytes.
  pub walk_all_tags-IsSorted :
      (fuel : ℕ) (tree : TagNode) (s s' : S) (m m' : Memory)
      → IsIndex tree
      → num_nodes tree < fuel
      → walk_all_tags callback fuel tree s m ≡ some (s', m')
      → (fold_tags callback (tags_in_order tree) s ≡ some s') × IsSorted (tags_in_order tree)
  walk_all_tags-IsSorted fuel tree s s' m m' index enough h = (
    walk_in_order-folds callback tree s s' m m'
        (sym (walk_all_tags-in_order callback fuel tree s m enough) ∙ h),
    tags_in_order-IsSorted tree index,
  )
