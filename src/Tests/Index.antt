-- ===== src/Tests/Index.antt =====
-- Witnesses for the tag index.
use cik.Prelude.{
  ℕ, ◌+◌, ◌≡◌, ◌≢◌, ◌⊎◌, refl, ap, true, false, Option, none, some, List, [], ◌∷◌, length, arith,
}
use cik.Bytes.{Bytes}
use cik.Memory.{Memory}
use cik.Memory.{reserve_memory, release_memory}
use cik.Bytes.Compare.{compare_tags, keys_are_equal}
use cik.Tag.{
  copy_key_list, get_or_create_node, get_tag_if_exists, write_node, insert_if_unique, unlink_key,
  contains_key, KeyElem, TagNode, root, null, add_key_to_tag, remove_key_from_tag,
  get_keys_matching_all_tags, walk_all_tags,
}
use cik.Tag.Listing.{is_listed, add_lists_key}
use cik.Tag.Shape.{IsIndex}
use cik.Tag.Kept.{remove-IsIndex_unlists}
use cik.Tag.Edits.{added, removed, IsReached, start, edited, other_pairs_kept, reached-IsIndex}
use cik.Tag.Walk.{num_nodes, tags_in_order, fold_tags}
use cik.Tag.Sorted.{IsSorted, walk_all_tags-IsSorted}
use cik.Tag.Matching.{AllListed, matching-is_listed}
use cik.Tests.Data.{key_a, new_memory}

abbrev pub tag_x : Bytes
tag_x = 120 ∷ []

abbrev pub tag_y : Bytes
tag_y = 121 ∷ []

abbrev pub result : {A : Type 0} → A → Option (A × Memory) → A × Memory
result other none = (other, new_memory)
result other (some r) = r

-- A key under one tag, and under another.
abbrev pub first : TagNode × Memory
first = result null (add_key_to_tag tag_y key_a root new_memory)

abbrev pub second : TagNode × Memory
second = result null (add_key_to_tag tag_x key_a first.0 first.1)

abbrev third : TagNode × Memory
third = result null (remove_key_from_tag tag_y key_a second.0 second.1)

first_ran : add_key_to_tag tag_y key_a root new_memory ≡ some (first.0, first.1)
unfolding add_key_to_tag get_or_create_node compare_tags reserve_memory get_tag_if_exists write_node
    insert_if_unique
first_ran = refl

second_ran : add_key_to_tag tag_x key_a first.0 first.1 ≡ some (second.0, second.1)
unfolding add_key_to_tag get_or_create_node compare_tags reserve_memory get_tag_if_exists write_node
    insert_if_unique
second_ran = refl

third_ran : remove_key_from_tag tag_y key_a second.0 second.1 ≡ some (third.0, third.1)
unfolding remove_key_from_tag add_key_to_tag get_or_create_node compare_tags reserve_memory
    get_tag_if_exists write_node insert_if_unique unlink_key keys_are_equal release_memory
    contains_key
third_ran = refl

second-IsReached : IsReached second.0
second-IsReached =
    edited tag_x key_a first.0 first.1 second.0 second.1
      (edited tag_y key_a root new_memory first.0 first.1 start
        (added root new_memory first.0 first.1 first_ran))
      (added first.0 first.1 second.0 second.1 second_ran)

second-IsIndex : IsIndex second.0
second-IsIndex = reached-IsIndex second.0 second-IsReached

reached-IsIndex_example : IsIndex third.0
reached-IsIndex_example = reached-IsIndex third.0 (
    edited tag_y key_a second.0 second.1 third.0 third.1 second-IsReached
      (removed second.0 second.1 third.0 third.1 third_ran))

tags_differ : tag_x ≢ tag_y
tags_differ e =
    let head : Bytes → ℕ = λ t. elim t [ [] ↦ 0 | c ∷ cs ↦ c ] in omega (arith, ap head e)

other_pairs_kept_example : is_listed third.0 tag_x key_a ≡ is_listed second.0 tag_x key_a
other_pairs_kept_example =
    other_pairs_kept tag_y key_a second.0 second.1 third.0 third.1 tag_x key_a
      (λ e. absurd (tags_differ e)) (removed second.0 second.1 third.0 third.1 third_ran)

add_lists_key_example :
    (is_listed second.0 tag_x key_a ≡ true)
    ⊎ ((tree₁ : TagNode) × (m₁ : Memory) × (get_or_create_node tag_x first.0 first.1
          ≡ some (tree₁, m₁))
        × ((reserve_memory (24 + length key_a) m₁).0 ≡ none))
add_lists_key_example = add_lists_key tag_x key_a first.0 first.1 second.0 second.1 second_ran

remove-IsIndex_unlists_example : is_listed third.0 tag_y key_a ≡ false
remove-IsIndex_unlists_example =
    remove-IsIndex_unlists tag_y key_a second.0 second.1 third.0 third.1 second-IsIndex third_ran

abbrev collect : Bytes → List Bytes → Option (List Bytes)
collect tag tags = some (tag ∷ tags)

abbrev walked : List Bytes × Memory
walked = result [] (walk_all_tags collect 9 second.0 [] second.1)

walked_ran : walk_all_tags collect 9 second.0 [] second.1 ≡ some (walked.0, walked.1)
unfolding walk_all_tags add_key_to_tag get_or_create_node compare_tags reserve_memory
    get_tag_if_exists write_node insert_if_unique release_memory
walked_ran = refl

walk_all_tags-IsSorted_example :
    (fold_tags collect (tags_in_order second.0) [] ≡ some walked.0)
    × IsSorted (tags_in_order second.0)
unfolding num_nodes add_key_to_tag get_or_create_node compare_tags reserve_memory get_tag_if_exists
    write_node insert_if_unique release_memory
walk_all_tags-IsSorted_example =
    walk_all_tags-IsSorted collect 9 second.0 [] walked.0 second.1 walked.1 second-IsIndex
      (omega arith) walked_ran

abbrev pub matching_all : List KeyElem × Memory
matching_all = result [] (get_keys_matching_all_tags (tag_x ∷ tag_y ∷ []) second.0 second.1)

matching-is_listed_example : AllListed second.0 key_a (tag_x ∷ tag_y ∷ [])
unfolding get_keys_matching_all_tags add_key_to_tag get_or_create_node compare_tags reserve_memory
    get_tag_if_exists write_node insert_if_unique release_memory copy_key_list contains_key
    keys_are_equal
matching-is_listed_example =
    matching-is_listed true (tag_x ∷ tag_y ∷ []) second.0 matching_all.0 second.1 matching_all.1
      key_a refl refl
