-- ===== src/Tag/Kept.antt =====
-- The operations of src/tag.c that change the tag index keep its shape.
use cik.Prelude.{
  ◌%◌, ◌^◌, ◌≡◌, inl, inr, sym, subst, false, some, length, if◌then◌else◌, arith, Option-cases,
}
use cik.Tag.{
  TagNode, write_node, get_tag_if_exists, add_key_to_tag, unlink_key, remove_found,
  remove_key_from_tag,
}
use cik.Tag.Find.{found_or_new}
use cik.Tag.Keys.{IsUnique, insert-IsUnique, insert-length, unlink-length, unlink-contains_same}
use cik.Tag.Listing.{add-Added, is_listed, remove_unlists_key}
use cik.Tag.Shape.{IsCounted, IsIndex, write-IsIndex, create-IsIndex, find-IsCounted}
use cik.Bytes.{Bytes}
use cik.Memory.{Memory, release_memory, add32, sub32}

-- If the index is ordered, with duplicate-free lists that are as long as `num_keys` says, it is so
-- after `add_key_to_tag`.
pub add-IsIndex :
    (tag key : Bytes) (tree : TagNode) (m : Memory) (tree' : TagNode) (m' : Memory)
    → add_key_to_tag tag key tree m ≡ some (tree', m')
    → IsIndex tree
    → IsIndex tree'
unfolding IsCounted
add-IsIndex tag key tree m tree' m' h index =
    let a = add-Added tag key tree m tree' m' h in
    let index₁ = create-IsIndex tag tree m a.tree₁ a.m₁ a.created index in
    let (unique, count) = find-IsCounted tag a.tree₁ a.keys a.n index₁ a.found in
    let longer = insert-length a.keys key a.m₁ a.b a.list' m' a.inserted in
    let unique' = insert-IsUnique a.keys key a.m₁ a.b a.list' m' a.inserted unique in
    let n' = if a.b then add32 a.n 1 else a.n in
    let count' : n' ≡ length a.list' % 2 ^ 32 = ground (arith, longer, count) in
    subst IsIndex (sym a.written) (write-IsIndex tag a.list' n' a.tree₁ (unique', count') index₁)

-- If the index is ordered, with duplicate-free lists that are as long as `num_keys` says, it is so
-- after `remove_key_from_tag`.
pub remove-IsIndex :
    (tag key : Bytes) (tree : TagNode) (m : Memory) (tree' : TagNode) (m' : Memory)
    → remove_key_from_tag tag key tree m ≡ some (tree', m')
    → IsIndex tree
    → IsIndex tree'
unfolding IsCounted remove_key_from_tag remove_found
remove-IsIndex tag key tree m tree' m' h index = elim (Option-cases (get_tag_if_exists tag tree)) [
  | inl nothing ↦ let same : tree ≡ tree' = ground arith in subst IsIndex same index
  | inr ((keys, n), found) ↦ elim (Option-cases (unlink_key key keys)) [
    | inl nothing ↦ let same : tree ≡ tree' = ground arith in subst IsIndex same index
    | inr ((elem, rest), there) ↦ elim (Option-cases (release_memory elem.address m)) [
      | inl nothing ↦ ground arith
      | inr (m₁, done) ↦
          let same : write_node tag rest (sub32 n 1) tree ≡ tree' = ground arith in
          let (unique, count) = find-IsCounted tag tree keys n index found in
          let shorter = unlink-length key keys elem rest there in
          let unique' = (unlink-contains_same key keys elem rest there unique).1 in
          let count' : sub32 n 1 ≡ length rest % 2 ^ 32 = omega (arith, shorter, count) in
          subst IsIndex same (write-IsIndex tag rest (sub32 n 1) tree (unique', count') index)
    ]
  ]
]

-- In such an index, `remove_key_from_tag` leaves the key listed under the tag no more.
pub remove-IsIndex_unlists :
    (tag key : Bytes) (tree : TagNode) (m : Memory) (tree' : TagNode) (m' : Memory)
    → IsIndex tree
    → remove_key_from_tag tag key tree m ≡ some (tree', m')
    → is_listed tree' tag key ≡ false
unfolding IsCounted IsUnique
remove-IsIndex_unlists tag key tree m tree' m' index h =
    let unique : IsUnique (found_or_new (get_tag_if_exists tag tree)).0 =
      elim (Option-cases (get_tag_if_exists tag tree)) [
        | inl e ↦ subst (λ o. IsUnique (found_or_new o).0) (sym e) tt
        | inr ((keys, n), e) ↦
            subst (λ o. IsUnique (found_or_new o).0) (sym e)
              (find-IsCounted tag tree keys n index e).0
      ] in
    remove_unlists_key tag key tree m tree' m' unique h
