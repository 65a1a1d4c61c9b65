-- ===== src/Tag.antt =====
-- The tag index of src/tag.c: a binary search tree of tags, each with the list of its keys. Every
-- node and list element is a bucket of the allocator. `none` is a crash: a NULL pointer that the
-- code goes through, or a release of what is no bucket.
pub mod Keys
pub mod Kept
pub mod Edits
pub mod Find
pub mod Listing
pub mod Matching
pub mod Shape
pub mod Sorted
pub mod Walk
use mathlib.Core.Option
use cik.Prelude.{
  ℕ, zero, suc, ◌+◌, Bool, true, false, List, [], ◌∷◌, Option, none, some, length, Ordering,
  if◌then◌else◌,
}
use cik.Bytes.{Bytes}
use cik.Bytes.Compare.{keys_are_equal, compare_tags}
use cik.Memory.{Memory, reserve_memory, release_memory, add32, sub32}

-- `KeyElem`; the key's bytes stand behind it in the same bucket.
pub record KeyElem : Type 0 where
  pub address : ℕ
  pub key : Bytes

-- `TagNode`: address, tag, keys, num_keys, left, right.
pub data TagNode : Type 0 where
  null : TagNode
  node : ℕ → Bytes → List KeyElem → ℕ → TagNode → TagNode → TagNode

-- `root`: static, so no bucket. Its tag is the bytes of "ROOT".
abbrev pub root : TagNode
root = node 0 (0x52 ∷ 0x4F ∷ 0x4F ∷ 0x54 ∷ []) [] 0 null null

abbrev pub M : Type 0 → Type 0
M A = Memory → Option (A × Memory)

abbrev pub pure : {A : Type 0} → A → M A
pure a m = some (a, m)

abbrev pub crash : {A : Type 0} → M A
crash m = none

infixl 5 ◌>>=◌ ◌>>◌
abbrev pub ◌>>=◌ : {A B : Type 0} → M A → (A → M B) → M B
◌>>=◌ m f s = elim (m s) [ none ↦ none | some (a, s') ↦ f a s' ]

abbrev pub ◌>>◌ : {B : Type 0} → M (Unit {0}) → M B → M B
m >> k = m >>= λ _. k

abbrev pub reserve : ℕ → M (Option ℕ)
reserve size m = some (reserve_memory size m)

abbrev pub release : ℕ → M (Unit {0})
release address m = elim (release_memory address m) [ none ↦ none | some m' ↦ some (tt, m') ]

-- sizeof (KeyElem) = 24.
unfoldable pub create_key_elem : Bytes → M (Option KeyElem)
create_key_elem key = do
  found ← reserve (24 + length key)
  pure (elim found [ none ↦ none | some address ↦ some (record { address = address; key = key }) ])

-- sizeof (TagNode) = 48. The result is written through unchecked.
unfoldable pub create_tag_node : Bytes → M TagNode
create_tag_node tag = do
  found ← reserve (48 + length tag)
  elim found [ none ↦ crash | some address ↦ pure (node address tag [] 0 null null) ]

-- Whether an element of the list has this key.
unfoldable pub contains_key : List KeyElem → Bytes → Bool
contains_key [] key = false
contains_key (elem ∷ rest) key =
    let later = contains_key rest key in if keys_are_equal elem.key key then true else later

push_key : List KeyElem → Option KeyElem → Bool × List KeyElem
push_key list none = (false, list)
push_key list (some elem) = (true, elem ∷ list)

unfoldable pub insert_if_unique : List KeyElem → Bytes → M (Bool × List KeyElem)
unfolding contains_key create_key_elem push_key
insert_if_unique list key =
    if contains_key list key
    then pure (false, list)
    else do elem ← create_key_elem key; pure (push_key list elem)

-- The path to the tag's node; the node is made where the path ends. The tree with it is returned.
unfoldable pub get_or_create_node : Bytes → TagNode → M TagNode
unfolding create_tag_node
get_or_create_node tag null = create_tag_node tag
get_or_create_node tag (node a t keys n left right) = elim (compare_tags tag t) [
  | Ordering.lt ↦ do left' ← get_or_create_node tag left; pure (node a t keys n left' right)
  | Ordering.gt ↦ do right' ← get_or_create_node tag right; pure (node a t keys n left right')
  | Ordering.eq ↦ pure (node a t keys n left right)
]

-- The keys of the node found, and its `num_keys`.
unfoldable pub get_tag_if_exists : Bytes → TagNode → Option (List KeyElem × ℕ)
get_tag_if_exists tag null = none
get_tag_if_exists tag (node a t keys n left right) = elim (compare_tags tag t) [
  | Ordering.lt ↦ get_tag_if_exists tag left
  | Ordering.gt ↦ get_tag_if_exists tag right
  | Ordering.eq ↦ some (keys, n)
]

-- A write through the node pointer that one of the two functions above returned.
unfoldable pub write_node : Bytes → List KeyElem → ℕ → TagNode → TagNode
write_node tag keys' n' null = null
write_node tag keys' n' (node a t keys n left right) = elim (compare_tags tag t) [
  | Ordering.lt ↦ node a t keys n (write_node tag keys' n' left) right
  | Ordering.gt ↦ node a t keys n left (write_node tag keys' n' right)
  | Ordering.eq ↦ node a t keys' n' left right
]

-- The loop stops after an allocation that failed only if it was the last.
unfoldable pub copy_key_list : List KeyElem → M (List KeyElem)
unfolding create_key_elem
copy_key_list [] = pure []
copy_key_list (elem ∷ []) = do
  copy ← create_key_elem elem.key
  pure (elim copy [ none ↦ [] | some e ↦ e ∷ [] ])
copy_key_list (elem ∷ (elem' ∷ rest)) = do
  copy ← create_key_elem elem.key
  elim copy [ none ↦ crash | some e ↦ do copies ← copy_key_list (elem' ∷ rest); pure (e ∷ copies) ]

unfoldable pub get_key_list_copy_by_tag : Bytes → TagNode → M (List KeyElem)
unfolding copy_key_list
get_key_list_copy_by_tag tag tree = elim (get_tag_if_exists tag tree) [
  | none ↦ pure []
  | some (keys, n) ↦ copy_key_list keys
]

-- `num_keys` counts only an insertion that took place.
insert_into : Bytes → Bytes → TagNode → Option (List KeyElem × ℕ) → M TagNode
unfolding insert_if_unique
insert_into tag key tree none = crash
insert_into tag key tree (some (keys, n)) = do
  inserted ← insert_if_unique keys key
  pure (write_node tag inserted.1 (if inserted.0 then add32 n 1 else n) tree)

unfoldable pub add_key_to_tag : Bytes → Bytes → TagNode → M TagNode
unfolding insert_into
add_key_to_tag tag key tree = do
  tree' ← get_or_create_node tag tree
  insert_into tag key tree' (get_tag_if_exists tag tree')

-- The first element with the key, and the list without it.
unfoldable pub unlink_key : Bytes → List KeyElem → Option (KeyElem × List KeyElem)
unlink_key key [] = none
unlink_key key (elem ∷ rest) =
    let later = Option.map (λ p. (p.0, elem ∷ p.1)) (unlink_key key rest) in
    if keys_are_equal elem.key key then some (elem, rest) else later

remove_found : Bytes → ℕ → TagNode → Option (KeyElem × List KeyElem) → M TagNode
remove_found tag n tree none = pure tree
remove_found tag n tree (some (elem, rest)) = do
  release elem.address
  pure (write_node tag rest (sub32 n 1) tree)

unfoldable pub remove_key_from_tag : Bytes → Bytes → TagNode → M TagNode
unfolding remove_found unlink_key
remove_key_from_tag tag key tree = elim (get_tag_if_exists tag tree) [
  | none ↦ pure tree
  | some (keys, n) ↦ remove_found tag n tree (unlink_key key keys)
]

unfoldable pub release_key_list : List KeyElem → M (Unit {0})
release_key_list [] = pure tt
release_key_list (elem ∷ rest) = do release elem.address; release_key_list rest

insert_all : List KeyElem → List KeyElem → M (List KeyElem)
unfolding insert_if_unique
insert_all found [] = pure found
insert_all found (elem ∷ rest) = do
  inserted ← insert_if_unique found elem.key
  insert_all inserted.1 rest

any_tags : List KeyElem → List Bytes → TagNode → M (List KeyElem)
unfolding insert_all
any_tags found [] tree = pure found
any_tags found (tag ∷ tags) tree = do
  keys ← get_key_list_copy_by_tag tag tree
  found' ← insert_all found keys
  release_key_list keys
  any_tags found' tags tree

unfoldable pub get_keys_matching_any_tag : List Bytes → TagNode → M (List KeyElem)
unfolding any_tags get_key_list_copy_by_tag release_key_list
get_keys_matching_any_tag [] tree = pure []
get_keys_matching_any_tag (tag ∷ tags) tree = do
  found ← get_key_list_copy_by_tag tag tree
  any_tags found tags tree

-- The loop over `found_keys` with its `skip_advancement`: what has no match is unlinked and
-- released.
retain : List KeyElem → List KeyElem → M (List KeyElem)
retain keys [] = pure []
retain keys (elem ∷ rest) = elim (contains_key keys elem.key) [
  | true ↦ do kept ← retain keys rest; pure (elem ∷ kept)
  | false ↦ do release elem.address; retain keys rest
]

all_tags : List KeyElem → List Bytes → TagNode → M (List KeyElem)
unfolding retain
all_tags found [] tree = pure found
all_tags found (tag ∷ tags) tree = do
  keys ← get_key_list_copy_by_tag tag tree
  found' ← retain keys found
  release_key_list keys
  all_tags found' tags tree

unfoldable pub get_keys_matching_all_tags : List Bytes → TagNode → M (List KeyElem)
unfolding all_tags get_key_list_copy_by_tag release_key_list
get_keys_matching_all_tags [] tree = pure []
get_keys_matching_all_tags (tag ∷ tags) tree = do
  found ← get_key_list_copy_by_tag tag tree
  all_tags found tags tree

pub is_empty : List KeyElem → Bool
is_empty [] = true
is_empty (k ∷ ks) = false

-- The inner loop: a TagElem (16 bytes) for each node on the way left.
descend : TagNode → List (ℕ × TagNode) → M (List (ℕ × TagNode))
descend null stack = pure stack
descend (node a t keys n left right) stack = do
  found ← reserve 16
  elim found [
    | none ↦ crash
    | some address ↦ descend left ((address, node a t keys n left right) ∷ stack)
  ]

module _ {S : Type 0} (callback : Bytes → S → Option S) where
  visit : TagNode → S → Option S
  visit null s = some s
  visit (node a t keys n left right) s = if is_empty keys then some s else callback t s

  right_of : TagNode → TagNode
  right_of null = null
  right_of (node a t keys n left right) = right

  -- One round of the outer loop on a stack that the inner loop has filled, per node.
  walk_loop : ℕ → List (ℕ × TagNode) → S → M S
  walk_loop zero stack s = crash
  walk_loop (suc fuel) [] s = pure s
  walk_loop (suc fuel) ((address, current) ∷ stack) s = do
    release address
    elim (visit current s) [
      | none ↦ crash
      | some s' ↦ do stack' ← descend (right_of current) stack; walk_loop fuel stack' s'
    ]

  unfoldable pub walk_all_tags : ℕ → TagNode → S → M S
  unfolding walk_loop descend visit right_of is_empty
  walk_all_tags fuel tree s = do stack ← descend tree []; walk_loop fuel stack s
