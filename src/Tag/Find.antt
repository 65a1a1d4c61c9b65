-- ===== src/Tag/Find.antt =====
-- Which keys the tag index of src/tag.c lists under a tag, and what its writes change of that.
use cik.Prelude.{
  ℕ, ◌+◌, ◌≡◌, ◌≢◌, inl, inr, refl, Option, none, some, List, [], length, arith, Option-cases,
}
use cik.Tag.{
  create_tag_node, get_or_create_node, KeyElem, TagNode, null, node, get_tag_if_exists, write_node,
}
use cik.Bytes.{Bytes}
use cik.Memory.{Memory, reserve_memory}
use cik.Bytes.Compare.{lex_refl, eq_of_lex, compare_tags-lex}

-- A write through the node of a tag is read back under that tag.
pub find_after_write_same :
    (tag : Bytes) (keys : List KeyElem) (n : ℕ) (tree : TagNode) (found : List KeyElem × ℕ)
    → get_tag_if_exists tag tree ≡ some found
    → get_tag_if_exists tag (write_node tag keys n tree) ≡ some (keys, n)
unfolding get_tag_if_exists write_node
find_after_write_same tag keys n null found h = ground arith
find_after_write_same tag keys n (node a t ks k left right) found h = ground (
  arith,
  find_after_write_same tag keys n left found,
  find_after_write_same tag keys n right found,
)

-- The path to a tag passes no node of that tag on the way to another.
pub find_after_write_other :
    (tag other : Bytes) (keys : List KeyElem) (n : ℕ) (tree : TagNode)
    → other ≢ tag
    → get_tag_if_exists other (write_node tag keys n tree) ≡ get_tag_if_exists other tree
unfolding get_tag_if_exists write_node
find_after_write_other tag other keys n null h = refl
find_after_write_other tag other keys n (node a t ks k left right) h = ground (
  arith,
  find_after_write_other tag other keys n left,
  find_after_write_other tag other keys n right,
  compare_tags-lex tag t,
  compare_tags-lex other t,
  eq_of_lex tag t,
  eq_of_lex other t,
)

-- What a tag's node holds, and for a tag without a node what a new one holds.
abbrev pub found_or_new : Option (List KeyElem × ℕ) → List KeyElem × ℕ
found_or_new none = ([], 0)
found_or_new (some p) = p

-- The node of a tag is there after it was got or created, with the keys that it had.
pub get_or_create_same :
    (tag : Bytes) (tree : TagNode) (m : Memory) (tree' : TagNode) (m' : Memory)
    → get_or_create_node tag tree m ≡ some (tree', m')
    → get_tag_if_exists tag tree' ≡ some (found_or_new (get_tag_if_exists tag tree))
unfolding get_or_create_node get_tag_if_exists create_tag_node
get_or_create_same tag null m tree' m' h =
    elim (Option-cases (reserve_memory (48 + length tag) m).0) [
      | inl e ↦ ground arith
      | inr (a, e) ↦ ground (arith, compare_tags-lex tag tag, lex_refl tag)
    ]
get_or_create_same tag (node a t ks k left right) m tree' m' h =
    elim (Option-cases (get_or_create_node tag left m)) [
      | inl e ↦ elim (Option-cases (get_or_create_node tag right m)) [
        | inl e' ↦ ground arith
        | inr ((r', mr), e') ↦ ground (arith, get_or_create_same tag right m r' mr)
      ]
      | inr ((l', ml), e) ↦ elim (Option-cases (get_or_create_node tag right m)) [
        | inl e' ↦ ground (arith, get_or_create_same tag left m l' ml)
        | inr ((r', mr), e') ↦
            ground
              (arith, get_or_create_same tag left m l' ml, get_or_create_same tag right m r' mr)
      ]
    ]

-- Another tag's node is neither made nor changed by it.
pub get_or_create_other :
    (tag other : Bytes) (tree : TagNode) (m : Memory) (tree' : TagNode) (m' : Memory)
    → other ≢ tag
    → get_or_create_node tag tree m ≡ some (tree', m')
    → get_tag_if_exists other tree' ≡ get_tag_if_exists other tree
unfolding get_or_create_node get_tag_if_exists create_tag_node
get_or_create_other tag other null m tree' m' d h =
    elim (Option-cases (reserve_memory (48 + length tag) m).0) [
      | inl e ↦ ground arith
      | inr (a, e) ↦ ground (arith, compare_tags-lex other tag, eq_of_lex other tag)
    ]
get_or_create_other tag other (node a t ks k left right) m tree' m' d h =
    elim (Option-cases (get_or_create_node tag left m)) [
      | inl e ↦ elim (Option-cases (get_or_create_node tag right m)) [
        | inl e' ↦ ground arith
        | inr ((r', mr), e') ↦ ground (arith, get_or_create_other tag other right m r' mr)
      ]
      | inr ((l', ml), e) ↦ elim (Option-cases (get_or_create_node tag right m)) [
        | inl e' ↦ ground (arith, get_or_create_other tag other left m l' ml)
        | inr ((r', mr), e') ↦ ground (
          arith,
          get_or_create_other tag other left m l' ml,
          get_or_create_other tag other right m r' mr,
        )
      ]
    ]
