-- ===== src/Tag/Keys.antt =====
-- What `insert_if_unique` of src/tag.c and the unlinking of a key change of a key list.
use cik.Prelude.{
  suc, ◌+◌, ◌≡◌, ◌≢◌, ◌⊎◌, inl, inr, refl, Bool, true, false, none, some, List, [], ◌∷◌, length,
  if◌then◌else◌, arith, Option-cases,
}
use cik.Tag.{unlink_key, KeyElem, create_key_elem, contains_key, insert_if_unique, push_key}
use cik.Bytes.{Bytes}
use cik.Memory.{Memory, reserve_memory}
use cik.Bytes.Compare.{keys_are_equal_iff}

-- No two elements of the list have one key.
unfoldable pub IsUnique : List KeyElem → Type 0
IsUnique [] = Unit
IsUnique (elem ∷ rest) = (contains_key rest elem.key ≡ false) × IsUnique rest

pub insert_other :
    (list : List KeyElem) (key key' : Bytes) (m : Memory) (b : Bool) (list' : List KeyElem)
    (m' : Memory)
    → key' ≢ key
    → insert_if_unique list key m ≡ some ((b, list'), m')
    → contains_key list' key' ≡ contains_key list key'
unfolding insert_if_unique create_key_elem push_key contains_key
insert_other list key key' m b list' m' d h =
    elim (Option-cases (reserve_memory (24 + length key) m).0) [
      | inl e ↦ ground arith
      | inr (a, e) ↦ ground (arith, keys_are_equal_iff key key')
    ]

pub insert_same :
    (list : List KeyElem) (key : Bytes) (m : Memory) (b : Bool) (list' : List KeyElem) (m' : Memory)
    → insert_if_unique list key m ≡ some ((b, list'), m')
    → (contains_key list' key ≡ true)
      ⊎ (((reserve_memory (24 + length key) m).0 ≡ none)
          × ((reserve_memory (24 + length key) m).1 ≡ m'))
unfolding insert_if_unique create_key_elem push_key contains_key
insert_same list key m b list' m' h = elim (Option-cases (reserve_memory (24 + length key) m).0) [
  | inl e ↦ ground arith
  | inr (a, e) ↦ ground (arith, keys_are_equal_iff key key)
]

pub insert-IsUnique :
    (list : List KeyElem) (key : Bytes) (m : Memory) (b : Bool) (list' : List KeyElem) (m' : Memory)
    → insert_if_unique list key m ≡ some ((b, list'), m')
    → IsUnique list
    → IsUnique list'
unfolding insert_if_unique create_key_elem push_key contains_key IsUnique
insert-IsUnique list key m b list' m' h u =
    elim (Option-cases (reserve_memory (24 + length key) m).0) [
      | inl e ↦ ground arith
      | inr (a, e) ↦ ground (arith, keys_are_equal_iff key key)
    ]

pub unlink-contains_other :
    (key : Bytes) (list : List KeyElem) (elem : KeyElem) (rest : List KeyElem) (key' : Bytes)
    → unlink_key key list ≡ some (elem, rest)
    → key' ≢ key
    → contains_key rest key' ≡ contains_key list key'
unfolding unlink_key contains_key
unlink-contains_other key [] elem rest key' h d = ground arith
unlink-contains_other key (e ∷ es) elem rest key' h d = elim (Option-cases (unlink_key key es)) [
  | inl nothing ↦ ground (arith, keys_are_equal_iff e.key key, keys_are_equal_iff e.key key')
  | inr ((found, left), there) ↦ ground (
    arith,
    unlink-contains_other key es found left key',
    keys_are_equal_iff e.key key,
    keys_are_equal_iff e.key key',
  )
]

-- Of a list without duplicates nothing of the key is left.
pub unlink-contains_same :
    (key : Bytes) (list : List KeyElem) (elem : KeyElem) (rest : List KeyElem)
    → unlink_key key list ≡ some (elem, rest)
    → IsUnique list
    → (contains_key rest key ≡ false) × IsUnique rest
unfolding unlink_key contains_key IsUnique
unlink-contains_same key [] elem rest h u = ground arith
unlink-contains_same key (e ∷ es) elem rest h u = elim (Option-cases (unlink_key key es)) [
  | inl nothing ↦ ground (arith, keys_are_equal_iff e.key key)
  | inr ((found, left), there) ↦ ground (
    arith,
    unlink-contains_same key es found left,
    unlink-contains_other key es found left e.key there,
    keys_are_equal_iff e.key key,
  )
]

pub unlink-contains_none :
    (key : Bytes) (list : List KeyElem) → unlink_key key list ≡ none → contains_key list key ≡ false
unfolding unlink_key contains_key
unlink-contains_none key [] h = refl
unlink-contains_none key (e ∷ es) h = elim (Option-cases (unlink_key key es)) [
  | inl nothing ↦ ground (arith, unlink-contains_none key es)
  | inr ((found, left), there) ↦ ground arith
]

-- The flag of an insertion says whether the list has grown by one element.
pub insert-length :
    (list : List KeyElem) (key : Bytes) (m : Memory) (b : Bool) (list' : List KeyElem) (m' : Memory)
    → insert_if_unique list key m ≡ some ((b, list'), m')
    → length list' ≡ (if b then suc (length list) else length list)
unfolding insert_if_unique create_key_elem push_key
insert-length list key m b list' m' h = elim (Option-cases (reserve_memory (24 + length key) m).0) [
  | inl e ↦ ground arith
  | inr (a, e) ↦ ground arith
]

pub unlink-length :
    (key : Bytes) (list : List KeyElem) (elem : KeyElem) (rest : List KeyElem)
    → unlink_key key list ≡ some (elem, rest)
    → length list ≡ suc (length rest)
unfolding unlink_key
unlink-length key [] elem rest h = ground arith
unlink-length key (e ∷ es) elem rest h = elim (Option-cases (unlink_key key es)) [
  | inl nothing ↦ ground arith
  | inr ((found, left), there) ↦ ground (arith, unlink-length key es found left)
]
