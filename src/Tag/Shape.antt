-- ===== src/Tag/Shape.antt =====
-- The shape of the tag index of src/tag.c: ordered by compare_tags, with lists that have no key
-- twice and are as long as num_keys says; its operations keep it.
use cik.Prelude.{
  Ordering, ℕ, ◌+◌, ◌%◌, ◌^◌, ◌≡◌, ◌⊎◌, inl, inr, refl, sym, subst, Option, some, List, [], length,
  arith, Option-cases,
}
use cik.Tag.{
  reserve_memory, Memory, create_tag_node, get_tag_if_exists, get_or_create_node, KeyElem, TagNode,
  null, node, write_node,
}
use cik.Tag.Keys.{IsUnique}
use cik.Bytes.{Bytes}
use cik.Bytes.Compare.{compare_tags-lex, lt_of_gt, lex, compare_tags}

unfoldable pub AllTags : (Bytes → Type 0) → TagNode → Type 0
AllTags P null = Unit
AllTags P (node a t keys n left right) = P t × AllTags P left × AllTags P right

-- A key list without duplicates, and its length in 32 bits.
unfoldable pub IsCounted : List KeyElem → ℕ → Type 0
IsCounted keys n = IsUnique keys × (n ≡ length keys % 2 ^ 32)

-- Smaller tags on the left, larger ones on the right, and every node's list counted.
unfoldable pub IsIndex : TagNode → Type 0
IsIndex null = Unit
IsIndex (node a t keys n left right) =
    AllTags (λ u. lex u t ≡ Ordering.lt) left
    × AllTags (λ u. lex t u ≡ Ordering.lt) right
    × IsCounted keys n
    × IsIndex left
    × IsIndex right

write-AllTags :
    (P : Bytes → Type 0) (tag : Bytes) (keys : List KeyElem) (n : ℕ) (tree : TagNode)
    → AllTags P tree
    → AllTags P (write_node tag keys n tree)
unfolding AllTags write_node
write-AllTags P tag keys n null h = h
write-AllTags P tag keys n (node a t ks k left right) (p, l, r) =
    elim (compare_tags tag t)
      as (λ o. AllTags P (elim o [
        | Ordering.lt ↦ node a t ks k (write_node tag keys n left) right
        | Ordering.gt ↦ node a t ks k left (write_node tag keys n right)
        | Ordering.eq ↦ node a t keys n left right
      ])) [
        | Ordering.lt ↦ (p, write-AllTags P tag keys n left l, r)
        | Ordering.gt ↦ (p, l, write-AllTags P tag keys n right r)
        | Ordering.eq ↦ (p, l, r)
      ]

pub write-IsIndex :
    (tag : Bytes) (keys : List KeyElem) (n : ℕ) (tree : TagNode)
    → IsCounted keys n
    → IsIndex tree
    → IsIndex (write_node tag keys n tree)
unfolding IsIndex write_node
write-IsIndex tag keys n null c h = h
write-IsIndex tag keys n (node a t ks k left right) c (small, large, counted, l, r) =
    elim (compare_tags tag t)
      as (λ o. IsIndex (elim o [
        | Ordering.lt ↦ node a t ks k (write_node tag keys n left) right
        | Ordering.gt ↦ node a t ks k left (write_node tag keys n right)
        | Ordering.eq ↦ node a t keys n left right
      ])) [
        | Ordering.lt ↦ (
          write-AllTags (λ u. lex u t ≡ Ordering.lt) tag keys n left small,
          large,
          counted,
          write-IsIndex tag keys n left c l,
          r,
        )
        | Ordering.gt ↦ (
          small,
          write-AllTags (λ u. lex t u ≡ Ordering.lt) tag keys n right large,
          counted,
          l,
          write-IsIndex tag keys n right c r,
        )
        | Ordering.eq ↦ (small, large, c, l, r)
      ]

-- The step down that `get_or_create_node` takes at a node, and what it makes of the node.
create-cases :
    (tag : Bytes) (a : ℕ) (t : Bytes) (ks : List KeyElem) (k : ℕ) (left right : TagNode)
    (m : Memory) (tree' : TagNode) (m' : Memory)
    → get_or_create_node tag (node a t ks k left right) m ≡ some (tree', m')
    → ((lex tag t ≡ Ordering.lt)
        × ((left' : TagNode) × (get_or_create_node tag left m ≡ some (left', m'))
            × (tree' ≡ node a t ks k left' right)))
      ⊎ (((lex tag t ≡ Ordering.gt)
            × ((right' : TagNode) × (get_or_create_node tag right m ≡ some (right', m'))
                × (tree' ≡ node a t ks k left right')))
          ⊎ (tree' ≡ node a t ks k left right))
unfolding get_or_create_node
create-cases tag a t ks k left right m tree' m' h =
    elim (Option-cases (get_or_create_node tag left m)) [
      | inl e ↦ elim (Option-cases (get_or_create_node tag right m)) [
        | inl e' ↦ ground (arith, compare_tags-lex tag t)
        | inr ((r', mr), e') ↦ ground (arith, compare_tags-lex tag t)
      ]
      | inr ((l', ml), e) ↦ elim (Option-cases (get_or_create_node tag right m)) [
        | inl e' ↦ ground (arith, compare_tags-lex tag t)
        | inr ((r', mr), e') ↦ ground (arith, compare_tags-lex tag t)
      ]
    ]

-- A node without its children, as it is made.
create-leaf :
    (tag : Bytes) (m : Memory) (tree' : TagNode) (m' : Memory)
    → create_tag_node tag m ≡ some (tree', m')
    → (a : ℕ) × (tree' ≡ node a tag [] 0 null null)
unfolding create_tag_node
create-leaf tag m tree' m' h = elim (Option-cases (reserve_memory (48 + length tag) m).0) [
  | inl e ↦ ground arith
  | inr (a, e) ↦ (a, ground arith)
]

create-AllTags :
    (P : Bytes → Type 0) (tag : Bytes) (tree : TagNode) (m : Memory) (tree' : TagNode) (m' : Memory)
    → get_or_create_node tag tree m ≡ some (tree', m')
    → P tag
    → AllTags P tree
    → AllTags P tree'
unfolding AllTags get_or_create_node
create-AllTags P tag null m tree' m' h p all =
    let (a, e) = create-leaf tag m tree' m' h in subst (AllTags P) (sym e) (p, tt, tt)
create-AllTags P tag (node a t ks k left right) m tree' m' h p (pt, l, r) =
    elim (create-cases tag a t ks k left right m tree' m' h) [
      | inl (o, (left', step, e)) ↦
          subst (AllTags P) (sym e) (pt, create-AllTags P tag left m left' m' step p l, r)
      | inr (inl (o, (right', step, e))) ↦
          subst (AllTags P) (sym e) (pt, l, create-AllTags P tag right m right' m' step p r)
      | inr (inr e) ↦ subst (AllTags P) (sym e) (pt, l, r)
    ]

pub create-IsIndex :
    (tag : Bytes) (tree : TagNode) (m : Memory) (tree' : TagNode) (m' : Memory)
    → get_or_create_node tag tree m ≡ some (tree', m')
    → IsIndex tree
    → IsIndex tree'
unfolding IsIndex get_or_create_node IsCounted IsUnique AllTags
create-IsIndex tag null m tree' m' h index =
    let (a, e) = create-leaf tag m tree' m' h in subst IsIndex (sym e) (tt, tt, (tt, refl), tt, tt)
create-IsIndex tag (node a t ks k left right) m tree' m' h (small, large, c, l, r) =
    elim (create-cases tag a t ks k left right m tree' m' h) [
      | inl (o, (left', step, e)) ↦
          let small' =
            create-AllTags (λ u. lex u t ≡ Ordering.lt) tag left m left' m' step o small in
          subst IsIndex (sym e) (small', large, c, create-IsIndex tag left m left' m' step l, r)
      | inr (inl (o, (right', step, e))) ↦
          let large' =
            create-AllTags (λ u. lex t u ≡ Ordering.lt) tag right m right' m' step
              (lt_of_gt tag t o) large in
          subst IsIndex (sym e) (small, large', c, l, create-IsIndex tag right m right' m' step r)
      | inr (inr e) ↦ subst IsIndex (sym e) (small, large, c, l, r)
    ]

-- The list found under a tag is counted.
pub find-IsCounted :
    (tag : Bytes) (tree : TagNode) (keys : List KeyElem) (n : ℕ)
    → IsIndex tree
    → get_tag_if_exists tag tree ≡ some (keys, n)
    → IsCounted keys n
unfolding IsIndex get_tag_if_exists
find-IsCounted tag null keys n index h = ground arith
find-IsCounted tag (node a t ks k left right) keys n (small, large, c, l, r) h =
    elim (compare_tags tag t)
        as (λ o.
          (elim o as (λ x. Option (List KeyElem × ℕ)) [
            | Ordering.lt ↦ get_tag_if_exists tag left
            | Ordering.gt ↦ get_tag_if_exists tag right
            | Ordering.eq ↦ some (ks, k)
          ]
            ≡ some (keys, n))
          → IsCounted keys n) [
            | Ordering.lt ↦ λ e. find-IsCounted tag left keys n l e
            | Ordering.gt ↦ λ e. find-IsCounted tag right keys n r e
            | Ordering.eq ↦ λ e.
                let same : ks ≡ keys = ground arith in
                let count : k ≡ n = ground arith in
                subst (λ x. IsCounted keys x) count (subst (λ x. IsCounted x k) same c)
          ]
      h
