-- ===== src/Tag/Listing.antt =====
-- Which keys the tag index of src/tag.c lists under a tag, after a key was added or removed.
use cik.Prelude.{
  ℕ, ◌+◌, ◌≡◌, ◌≢◌, ◌⊎◌, inl, inr, refl, subst, Bool, true, false, none, some, List, length,
  if◌then◌else◌, arith, Bool-cases, Option-cases,
}
use cik.Tag.{
  remove_found, remove_key_from_tag, unlink_key, KeyElem, TagNode, get_or_create_node,
  get_tag_if_exists, write_node, contains_key, insert_if_unique, insert_into, add_key_to_tag,
}
use cik.Tag.Find.{
  get_or_create_other, find_after_write_other, find_after_write_same, found_or_new,
  get_or_create_same,
}
use cik.Bytes.{Bytes}
use cik.Memory.{sub32, release_memory, add32, Memory, reserve_memory}
use cik.Bytes.Compare.{keys_are_equal, keys_are_equal_iff}
use cik.Tag.Keys.{
  IsUnique, insert_other, insert_same, unlink-contains_other, unlink-contains_same,
  unlink-contains_none,
}

-- Whether the index lists the key under the tag.
unfoldable pub is_listed : TagNode → Bytes → Bytes → Bool
is_listed tree tag key = contains_key (found_or_new (get_tag_if_exists tag tree)).0 key

-- The two steps of an addition: the node of the tag, and the insertion into its list.
pub record Added (tag key : Bytes) (tree : TagNode) (m : Memory) (tree' : TagNode) (m' : Memory)
    : Type 0 where
  pub tree₁ : TagNode
  pub m₁ : Memory
  pub created : get_or_create_node tag tree m ≡ some (tree₁, m₁)
  pub keys : List KeyElem
  pub n : ℕ
  pub found : get_tag_if_exists tag tree₁ ≡ some (keys, n)
  pub b : Bool
  pub list' : List KeyElem
  pub inserted : insert_if_unique keys key m₁ ≡ some ((b, list'), m')
  pub written : tree' ≡ write_node tag list' (if b then add32 n 1 else n) tree₁

pub add-Added :
    (tag key : Bytes) (tree : TagNode) (m : Memory) (tree' : TagNode) (m' : Memory)
    → add_key_to_tag tag key tree m ≡ some (tree', m')
    → Added tag key tree m tree' m'
unfolding add_key_to_tag insert_into
add-Added tag key tree m tree' m' h = elim (Option-cases (get_or_create_node tag tree m)) [
  | inl e ↦ absurd (ground arith)
  | inr ((tree₁, m₁), e) ↦
      let found = get_or_create_same tag tree m tree₁ m₁ e in
      let (keys, n) = found_or_new (get_tag_if_exists tag tree) in
      elim (Option-cases (insert_if_unique keys key m₁)) [
        | inl e' ↦ absurd (ground arith)
        | inr (((b, list'), m₂), e') ↦
            let done : add_key_to_tag tag key tree m
                ≡ some (write_node tag list' (if b then add32 n 1 else n) tree₁, m₂) =
              ground arith in
            let same : m₂ ≡ m' = ground arith in
            record {
              tree₁ = tree₁;
              m₁ = m₁;
              created = e;
              keys = keys;
              n = n;
              found = found;
              b = b;
              list' = list';
              inserted = subst (λ x. insert_if_unique keys key m₁ ≡ some ((b, list'), x)) same e';
              written = ground arith;
            }
      ]
]

-- After `add_key_to_tag` has returned, the index lists the key under the tag, or the allocator had
-- no bucket for the new list element in the memory that the tag's node was found or made in.
pub add_lists_key :
    (tag key : Bytes) (tree : TagNode) (m : Memory) (tree' : TagNode) (m' : Memory)
    → add_key_to_tag tag key tree m ≡ some (tree', m')
    → (is_listed tree' tag key ≡ true)
      ⊎ ((tree₁ : TagNode) × (m₁ : Memory) × (get_or_create_node tag tree m ≡ some (tree₁, m₁))
          × ((reserve_memory (24 + length key) m₁).0 ≡ none))
unfolding is_listed
add_lists_key tag key tree m tree' m' h =
    let a = add-Added tag key tree m tree' m' h in
    let n' = if a.b then add32 a.n 1 else a.n in
    let found = find_after_write_same tag a.list' n' a.tree₁ (a.keys, a.n) a.found in
    elim (insert_same a.keys key a.m₁ a.b a.list' m' a.inserted) [
      | inl listed ↦ inl (rw (a.written) (rw found listed))
      | inr (full, _) ↦ inr (a.tree₁, a.m₁, a.created, full)
    ]

-- `add_key_to_tag` changes nothing of what the index lists but for the key and the tag given.
pub add_keeps_other :
    (tag key : Bytes) (tree : TagNode) (m : Memory) (tree' : TagNode) (m' : Memory)
    (tag' key' : Bytes)
    → (tag' ≡ tag → key' ≢ key)
    → add_key_to_tag tag key tree m ≡ some (tree', m')
    → is_listed tree' tag' key' ≡ is_listed tree tag' key'
unfolding is_listed
add_keeps_other tag key tree m tree' m' tag' key' d h =
    let a = add-Added tag key tree m tree' m' h in
    let n' = if a.b then add32 a.n 1 else a.n in
    let found = find_after_write_same tag a.list' n' a.tree₁ (a.keys, a.n) a.found in
    let before = get_or_create_same tag tree m a.tree₁ a.m₁ a.created in
    elim (Bool-cases (keys_are_equal tag' tag)) [
      | inl e ↦
          let same : tag' ≡ tag = (keys_are_equal_iff tag' tag).0 e in
          let other : key' ≢ key = d same in
          ground (arith, insert_other a.keys key key' a.m₁ a.b a.list' m' other)
      | inr e ↦
          let other : tag' ≢ tag = λ t. ground (arith, (keys_are_equal_iff tag' tag)) in
          rw
            (
              a.written,
              find_after_write_other tag tag' a.list' n' a.tree₁ other,
              get_or_create_other tag tag' tree m a.tree₁ a.m₁ other a.created,
            )
            refl
    ]

-- `remove_key_from_tag` changes nothing of what the index lists but for the key and the tag given.
pub remove_keeps_other :
    (tag key : Bytes) (tree : TagNode) (m : Memory) (tree' : TagNode) (m' : Memory)
    (tag' key' : Bytes)
    → (tag' ≡ tag → key' ≢ key)
    → remove_key_from_tag tag key tree m ≡ some (tree', m')
    → is_listed tree' tag' key' ≡ is_listed tree tag' key'
unfolding is_listed remove_key_from_tag remove_found contains_key
remove_keeps_other tag key tree m tree' m' tag' key' d h =
    elim (Option-cases (get_tag_if_exists tag tree)) [
      | inl nothing ↦ ground arith
      | inr ((keys, n), found) ↦ elim (Option-cases (unlink_key key keys)) [
        | inl nothing ↦ ground arith
        | inr ((elem, rest), there) ↦ elim (Option-cases (release_memory elem.address m)) [
          | inl nothing ↦ ground arith
          | inr (m₁, done) ↦
              let same : tree' ≡ write_node tag rest (sub32 n 1) tree = ground arith in
              let after = find_after_write_same tag rest (sub32 n 1) tree (keys, n) found in
              elim (Bool-cases (keys_are_equal tag' tag)) [
                | inl e ↦
                    let t : tag' ≡ tag = (keys_are_equal_iff tag' tag).0 e in
                    ground (arith, unlink-contains_other key keys elem rest key' there (d t))
                | inr e ↦
                    let other : tag' ≢ tag = λ t. ground (arith, (keys_are_equal_iff tag' tag)) in
                    rw (same, find_after_write_other tag tag' rest (sub32 n 1) tree other) refl
              ]
        ]
      ]
    ]

-- After `remove_key_from_tag` has returned, the index does not list the key under the tag, if the
-- tag's list had no key twice.
pub remove_unlists_key :
    (tag key : Bytes) (tree : TagNode) (m : Memory) (tree' : TagNode) (m' : Memory)
    → IsUnique (found_or_new (get_tag_if_exists tag tree)).0
    → remove_key_from_tag tag key tree m ≡ some (tree', m')
    → is_listed tree' tag key ≡ false
unfolding is_listed remove_key_from_tag remove_found contains_key
remove_unlists_key tag key tree m tree' m' u h = elim (Option-cases (get_tag_if_exists tag tree)) [
  | inl nothing ↦ ground arith
  | inr ((keys, n), found) ↦
      let unique : IsUnique keys = subst (λ o. IsUnique (found_or_new o).0) found u in
      elim (Option-cases (unlink_key key keys)) [
        | inl nothing ↦ ground (arith, unlink-contains_none key keys)
        | inr ((elem, rest), there) ↦ elim (Option-cases (release_memory elem.address m)) [
          | inl nothing ↦ ground arith
          | inr (m₁, done) ↦
              let same : tree' ≡ write_node tag rest (sub32 n 1) tree = ground arith in
              rw (same, find_after_write_same tag rest (sub32 n 1) tree (keys, n) found)
                ((unlink-contains_same key keys elem rest there unique).0)
        ]
      ]
]
