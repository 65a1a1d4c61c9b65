-- ===== src/Tag/Matching.antt =====
-- The unions and intersections of key lists that src/tag.c computes for several tags.
use cik.Prelude.{
  ◌+◌, ◌≡◌, ◌≢◌, ◌⊎◌, inl, inr, Bool, true, false, some, List, [], ◌∷◌, length, if◌then◌else◌,
  arith, Bool-cases, Option-cases,
}
use cik.Tag.{
  KeyElem, TagNode, create_key_elem, contains_key, insert_if_unique, copy_key_list,
  get_key_list_copy_by_tag, get_tag_if_exists, release_key_list, insert_all, any_tags,
  get_keys_matching_any_tag, retain, all_tags, get_keys_matching_all_tags,
}
use cik.Tag.Keys.{insert_other}
use cik.Tag.Listing.{is_listed}
use cik.Bytes.{Bytes}
use cik.Memory.{Memory, reserve_memory, release_memory}
use cik.Bytes.Compare.{keys_are_equal, keys_are_equal_iff}

-- Some tag of the list has the key, and every tag of the list has it.
unfoldable pub AnyListed : TagNode → Bytes → List Bytes → Type 0
AnyListed tree key [] = ⊥
AnyListed tree key (tag ∷ tags) = (is_listed tree tag key ≡ true) ⊎ AnyListed tree key tags

unfoldable pub AllListed : TagNode → Bytes → List Bytes → Type 0
AllListed tree key [] = Unit
AllListed tree key (tag ∷ tags) = (is_listed tree tag key ≡ true) × AllListed tree key tags

copy-contains :
    (list copies : List KeyElem) (m m' : Memory) (key : Bytes)
    → copy_key_list list m ≡ some (copies, m')
    → contains_key copies key ≡ true
    → contains_key list key ≡ true
unfolding copy_key_list create_key_elem contains_key
copy-contains [] copies m m' key h c = ground arith
copy-contains (elem ∷ []) copies m m' key h c =
    elim (Option-cases (reserve_memory (24 + length elem.key) m).0) [
      | inl e ↦ ground (arith, e)
      | inr (a, e) ↦ ground (arith, e)
    ]
copy-contains (elem ∷ (elem' ∷ rest)) copies m m' key h c =
    elim (Option-cases (reserve_memory (24 + length elem.key) m).0) [
      | inl e ↦ ground (arith, e)
      | inr (a, e) ↦
          let m₁ = (reserve_memory (24 + length elem.key) m).1 in
          elim (Option-cases (copy_key_list (elem' ∷ rest) m₁)) [
            | inl e₁ ↦ ground (arith, e, e₁)
            | inr ((more, m₂), e₁) ↦
                ground (arith, e, e₁, copy-contains (elem' ∷ rest) more m₁ m₂ key)
          ]
    ]

-- A copied key is one that the index lists under the tag.
copy_by_tag-is_listed :
    (tag : Bytes) (tree : TagNode) (copies : List KeyElem) (m m' : Memory) (key : Bytes)
    → get_key_list_copy_by_tag tag tree m ≡ some (copies, m')
    → contains_key copies key ≡ true
    → is_listed tree tag key ≡ true
unfolding get_key_list_copy_by_tag is_listed contains_key
copy_by_tag-is_listed tag tree copies m m' key h c =
    elim (Option-cases (get_tag_if_exists tag tree)) [
      | inl e ↦ ground (arith, e)
      | inr ((keys, n), e) ↦ ground (arith, e, copy-contains keys copies m m' key)
    ]

insert_all-contains :
    (found list found' : List KeyElem) (m m' : Memory) (key : Bytes)
    → insert_all found list m ≡ some (found', m')
    → contains_key found' key ≡ true
    → (contains_key found key ≡ true) ⊎ (contains_key list key ≡ true)
unfolding insert_all contains_key
insert_all-contains found [] found' m m' key h c = ground arith
insert_all-contains found (elem ∷ rest) found' m m' key h c =
    elim (Option-cases (insert_if_unique found elem.key m)) [
      | inl e ↦ ground (arith, e)
      | inr (((b, found₁), m₁), e) ↦
          let later = insert_all-contains found₁ rest found' m₁ m' key in
          elim (Bool-cases (keys_are_equal elem.key key)) [
            | inl same ↦ ground (arith, same)
            | inr other ↦
                let different : key ≢ elem.key =
                  λ k. ground (arith, keys_are_equal_iff elem.key key) in
                ground (arith, e, later, insert_other found elem.key key m b found₁ m₁ different e)
          ]
    ]

retain-contains :
    (keys found kept : List KeyElem) (m m' : Memory) (key : Bytes)
    → retain keys found m ≡ some (kept, m')
    → contains_key kept key ≡ true
    → (contains_key found key ≡ true) × (contains_key keys key ≡ true)
unfolding retain contains_key
retain-contains keys [] kept m m' key h c = ground arith
retain-contains keys (elem ∷ rest) kept m m' key h c =
    elim (Bool-cases (contains_key keys elem.key)) [
      | inl there ↦ elim (Option-cases (retain keys rest m)) [
        | inl e ↦ ground (arith, e)
        | inr ((more, m₁), e) ↦
            ground
              (arith, e, retain-contains keys rest more m m₁ key, keys_are_equal_iff elem.key key)
      ]
      | inr gone ↦ elim (Option-cases (release_memory elem.address m)) [
        | inl e ↦ ground (arith, e)
        | inr (m₁, e) ↦ ground (arith, e, retain-contains keys rest kept m₁ m' key)
      ]
    ]

any_tags-AnyListed :
    (found : List KeyElem) (tags : List Bytes) (tree : TagNode) (found' : List KeyElem)
    (m m' : Memory) (key : Bytes)
    → any_tags found tags tree m ≡ some (found', m')
    → contains_key found' key ≡ true
    → (contains_key found key ≡ true) ⊎ AnyListed tree key tags
unfolding any_tags AnyListed
any_tags-AnyListed found [] tree found' m m' key h c = ground (arith, h)
any_tags-AnyListed found (tag ∷ tags) tree found' m m' key h c =
    elim (Option-cases (get_key_list_copy_by_tag tag tree m)) [
      | inl e ↦ ground (arith, e)
      | inr ((keys, m₁), e) ↦ elim (Option-cases (insert_all found keys m₁)) [
        | inl e₁ ↦ ground (arith, e, e₁)
        | inr ((found₁, m₂), e₁) ↦ elim (Option-cases (release_key_list keys m₂)) [
          | inl e₂ ↦ ground (arith, e, e₁, e₂)
          | inr ((u, m₃), e₂) ↦
              let rest : any_tags found₁ tags tree m₃ ≡ some (found', m') =
                ground (arith, e, e₁, e₂) in
              elim (any_tags-AnyListed found₁ tags tree found' m₃ m' key rest c) [
                | inl here ↦ elim (insert_all-contains found keys found₁ m₁ m₂ key e₁ here) [
                  | inl before ↦ inl before
                  | inr copied ↦ inr (inl (copy_by_tag-is_listed tag tree keys m m₁ key e copied))
                ]
                | inr later ↦ inr (inr later)
              ]
        ]
      ]
    ]

-- A key that `get_keys_matching_any_tag` returns is listed under one of the tags.
pub matching_any-AnyListed :
    (tags : List Bytes) (tree : TagNode) (found : List KeyElem) (m m' : Memory) (key : Bytes)
    → get_keys_matching_any_tag tags tree m ≡ some (found, m')
    → contains_key found key ≡ true
    → AnyListed tree key tags
unfolding get_keys_matching_any_tag AnyListed contains_key
matching_any-AnyListed [] tree found m m' key h c = ground (arith, h)
matching_any-AnyListed (tag ∷ tags) tree found m m' key h c =
    elim (Option-cases (get_key_list_copy_by_tag tag tree m)) [
      | inl e ↦ ground (arith, e)
      | inr ((keys, m₁), e) ↦
          let rest : any_tags keys tags tree m₁ ≡ some (found, m') = ground (arith, e) in
          elim (any_tags-AnyListed keys tags tree found m₁ m' key rest c) [
            | inl copied ↦ inl (copy_by_tag-is_listed tag tree keys m m₁ key e copied)
            | inr later ↦ inr later
          ]
    ]

all_tags-AllListed :
    (found : List KeyElem) (tags : List Bytes) (tree : TagNode) (found' : List KeyElem)
    (m m' : Memory) (key : Bytes)
    → all_tags found tags tree m ≡ some (found', m')
    → contains_key found' key ≡ true
    → (contains_key found key ≡ true) × AllListed tree key tags
unfolding all_tags AllListed
all_tags-AllListed found [] tree found' m m' key h c = ground (arith, h)
all_tags-AllListed found (tag ∷ tags) tree found' m m' key h c =
    elim (Option-cases (get_key_list_copy_by_tag tag tree m)) [
      | inl e ↦ ground (arith, e)
      | inr ((keys, m₁), e) ↦ elim (Option-cases (retain keys found m₁)) [
        | inl e₁ ↦ ground (arith, e, e₁)
        | inr ((found₁, m₂), e₁) ↦ elim (Option-cases (release_key_list keys m₂)) [
          | inl e₂ ↦ ground (arith, e, e₁, e₂)
          | inr ((u, m₃), e₂) ↦
              let rest : all_tags found₁ tags tree m₃ ≡ some (found', m') =
                ground (arith, e, e₁, e₂) in
              let (here, later) = all_tags-AllListed found₁ tags tree found' m₃ m' key rest c in
              let (before, copied) = retain-contains keys found found₁ m₁ m₂ key e₁ here in
              (before, (copy_by_tag-is_listed tag tree keys m m₁ key e copied, later))
        ]
      ]
    ]

-- A key that `get_keys_matching_all_tags` returns is listed under every one of the tags.
pub matching_all-AllListed :
    (tags : List Bytes) (tree : TagNode) (found : List KeyElem) (m m' : Memory) (key : Bytes)
    → get_keys_matching_all_tags tags tree m ≡ some (found, m')
    → contains_key found key ≡ true
    → AllListed tree key tags
unfolding get_keys_matching_all_tags AllListed
matching_all-AllListed [] tree found m m' key h c = tt
matching_all-AllListed (tag ∷ tags) tree found m m' key h c =
    elim (Option-cases (get_key_list_copy_by_tag tag tree m)) [
      | inl e ↦ ground (arith, e)
      | inr ((keys, m₁), e) ↦
          let rest : all_tags keys tags tree m₁ ≡ some (found, m') = ground (arith, e) in
          let (here, later) = all_tags-AllListed keys tags tree found m₁ m' key rest c in
          (copy_by_tag-is_listed tag tree keys m m₁ key e here, later)
    ]

-- A key that is returned for all of some tags is listed under every one of them, and one that is
-- returned for any of them under one at least.
pub matching-is_listed :
    (all : Bool) (tags : List Bytes) (tree : TagNode) (found : List KeyElem) (m m' : Memory)
    (key : Bytes)
    → (if all then get_keys_matching_all_tags tags else get_keys_matching_any_tag tags) tree m
      ≡ some (found, m')
    → contains_key found key ≡ true
    → (if all then AllListed tree key tags else AnyListed tree key tags)
matching-is_listed true tags tree found m m' key h c =
    matching_all-AllListed tags tree found m m' key h c
matching-is_listed false tags tree found m m' key h c =
    matching_any-AnyListed tags tree found m m' key h c
