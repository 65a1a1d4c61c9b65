-- ===== src/Controller/Matched.antt =====
-- What a CLR request of src/controller.c that goes by the tag index does to lookups.
use cik.Prelude.{
  ◌≡◌, ◌≢◌, inl, inr, refl, sym, ◌∙◌, ap, subst, Bool, true, false, none, some, List, [], ◌∷◌,
  if◌then◌else◌, arith, Bool-cases, Option-cases,
}
use cik.World.{
  World, Outcome, ok, stop, crash, Exec, and_then, ignore, from_tags, log_tags, log_key,
  get_map_for_key,
}
use cik.Bytes.{Bytes}
use cik.Memory.{Memory}
use cik.Tag
use cik.Tag.{TagNode, get_keys_matching_all_tags, get_keys_matching_any_tag, release_key_list}
use cik.Tag.Matching.{AllListed, AnyListed, matching-is_listed}
use cik.Log.{clr_match_all, clr_match_any, log_request_with_tags}
use cik.Controller.Clr.{release_keys, clear_matching}
use cik.Controller.Keeps.{KeepsMaps}
use cik.Bytes.Compare.{keys_are_equal_iff}
use cik.Tag.{KeyElem, contains_key}
use cik.Entry.{EntryMap}
use cik.Controller.Del.{delete_entry_by_key}
use cik.Controller.Clr.{delete_keys}
use cik.Controller.Stored.{lookup}
use cik.Controller.Deleted.{map_at}
use cik.Controller.Deletion.{Deleted, delete_entry_by_key-Deleted}
use cik.Controller.Spared.{
  HasRooms, found_in, Spares, SparesOthers, delete_entry_by_key-SparesOthers,
}

-- What `delete_keys` leaves: the keys of the list are gone, and all others are as they were.
abbrev Deletes : List KeyElem → List EntryMap → World → Type 0
Deletes keys maps w =
    HasRooms w.maps
    × ((q : Bytes) → contains_key keys q ≡ true → lookup w q ≡ none)
    × ((q : Bytes) → contains_key keys q ≡ false → lookup w q ≡ found_in maps q)

abbrev DeletesKeys : List KeyElem → List EntryMap → Outcome Unit → Type 0
DeletesKeys keys maps (ok u w) = Deletes keys maps w
DeletesKeys keys maps (stop s w) = ⊥
DeletesKeys keys maps crash = Unit

-- After one deletion, also one that found nothing.
Deletes-one : Bytes → List EntryMap → Outcome Unit → Type 0
Deletes-one key maps (ok u w) = Spares key maps w.maps × (lookup w key ≡ none)
Deletes-one key maps (stop s w) = Spares key maps w.maps × (lookup w key ≡ none)
Deletes-one key maps crash = Unit

delete-Deletes-one :
    (key : Bytes) (w : World) (o : Outcome Unit)
    → SparesOthers key w.maps o
    → Deleted key w o
    → Deletes-one key w.maps o
unfolding Deletes-one
delete-Deletes-one key w (ok u w') s d = (s, d)
delete-Deletes-one key w (stop t w') s (u, d) = (s, s.absent d)
delete-Deletes-one key w crash s d = tt

delete_entry_by_key-Deletes-one :
    (key : Bytes) (w : World) → HasRooms w.maps → Deletes-one key w.maps (delete_entry_by_key key w)
unfolding Deletes-one delete_entry_by_key log_key get_map_for_key
delete_entry_by_key-Deletes-one key w rooms = elim (Option-cases (map_at w key)) [
  | inl nothing ↦
      let lost : delete_entry_by_key key w ≡ crash =
        rw (nothing, delete_entry_by_key, get_map_for_key) refl in
      subst (Deletes-one key w.maps) (sym lost) tt
  | inr (map, at) ↦
      delete-Deletes-one key w (delete_entry_by_key key w)
        (delete_entry_by_key-SparesOthers key w rooms)
        (delete_entry_by_key-Deleted key w map at (rooms _ map at))
]

DeletesKeys-cons :
    (elem : KeyElem) (rest : List KeyElem) (maps : List EntryMap) (w₁ : World) (o : Outcome Unit)
    → Spares elem.key maps w₁.maps
    → lookup w₁ elem.key ≡ none
    → DeletesKeys rest w₁.maps o
    → DeletesKeys (elem ∷ rest) maps o
unfolding contains_key
DeletesKeys-cons elem rest maps w₁ (ok u w) s gone (rooms, listed, others) = (
  rooms,
  λ q h. elim (Bool-cases (contains_key rest q)) [
    | inl later ↦ listed q later
    | inr last ↦
        let same : q ≡ elem.key = ground (arith, h, last, keys_are_equal_iff elem.key q) in
        others q last ∙ ap (lookup w₁) same ∙ gone
  ],
  λ q h.
      let last : contains_key rest q ≡ false = ground (arith, h) in
      let ne : q ≢ elem.key = λ e. ground (arith, h, e, keys_are_equal_iff elem.key q) in
      others q last ∙ s.others q ne,
)
DeletesKeys-cons elem rest maps w₁ (stop t w) s gone d = d
DeletesKeys-cons elem rest maps w₁ crash s gone d = tt

-- A call whose status nobody looks at.
abbrev ignored : Outcome Unit → Outcome Unit
ignored (ok a w) = ok tt w
ignored (stop s w) = ok tt w
ignored crash = crash

ignore-ignored : (f : Exec Unit) (w : World) → ignore f w ≡ ignored (f w)
unfolding ignore
ignore-ignored f w = by_outcome (f w)
  where
    by_outcome :
        (o : Outcome Unit)
        → (elim o as (λ x. Outcome Unit) [
          | ok a w' ↦ ok tt w'
          | stop s w' ↦ ok tt w'
          | crash ↦ crash
        ])
          ≡ ignored o
    by_outcome (ok u w') = refl
    by_outcome (stop s w') = refl
    by_outcome crash = refl

ignored-DeletesKeys :
    (elem : KeyElem) (rest : List KeyElem) (maps : List EntryMap) (o : Outcome Unit)
    → ((w : World) → HasRooms w.maps → DeletesKeys rest w.maps (delete_keys rest w))
    → Deletes-one elem.key maps o
    → DeletesKeys (elem ∷ rest) maps (and_then (ignored o) (λ u. delete_keys rest))
unfolding Deletes-one
ignored-DeletesKeys elem rest maps (ok u w) later (s, gone) =
    DeletesKeys-cons elem rest maps w (delete_keys rest w) s gone (later w s.rooms)
ignored-DeletesKeys elem rest maps (stop t w) later (s, gone) =
    DeletesKeys-cons elem rest maps w (delete_keys rest w) s gone (later w s.rooms)
ignored-DeletesKeys elem rest maps crash later d = tt

delete_keys-DeletesKeys :
    (keys : List KeyElem) (w : World)
    → HasRooms w.maps
    → DeletesKeys keys w.maps (delete_keys keys w)
unfolding delete_keys contains_key
delete_keys-DeletesKeys [] w rooms = (rooms, λ q h. ground (arith, h), λ q h. refl)
delete_keys-DeletesKeys (elem ∷ rest) w rooms =
    subst (λ o. DeletesKeys (elem ∷ rest) w.maps (and_then o (λ u. delete_keys rest)))
      (sym (ignore-ignored (delete_entry_by_key elem.key) w))
      (ignored-DeletesKeys elem rest w.maps (delete_entry_by_key elem.key w)
        (delete_keys-DeletesKeys rest) (delete_entry_by_key-Deletes-one elem.key w rooms))

-- What a CLR by tags comes to. The keys that the tag index gave are gone; whatever it did not list
-- under the tags is as it was. It does not fail early.
abbrev pub Matched : Bool → List Bytes → World → Outcome Unit → Type 0
Matched all tags w (ok u w') =
    (keys : List KeyElem) × (m : Memory) × ((if all
          then get_keys_matching_all_tags tags
          else get_keys_matching_any_tag tags)
        w.tags w.memory
      ≡ some (keys, m))
    × ((q : Bytes) → contains_key keys q ≡ true → lookup w' q ≡ none)
    × ((q : Bytes) → contains_key keys q ≡ false → lookup w' q ≡ lookup w q)
    × ((q : Bytes)
        → ¬ (if all then AllListed w.tags q tags else AnyListed w.tags q tags)
        → lookup w' q ≡ lookup w q)
Matched all tags w (stop s w') = ⊥
Matched all tags w crash = Unit

abbrev matching : Bool → List Bytes → TagNode → Tag.M (List KeyElem)
matching all tags = if all then get_keys_matching_all_tags tags else get_keys_matching_any_tag tags

release_keys-KeepsMaps : (keys : List KeyElem) (w : World) → KeepsMaps w.maps (release_keys keys w)
unfolding release_keys from_tags
release_keys-KeepsMaps keys w = elim (Option-cases (release_key_list keys w.memory)) [
  | inl nothing ↦ rw (nothing, release_keys, from_tags) tt
  | inr (r, found) ↦ rw (found, release_keys, from_tags) refl
]

-- Behind the deletions the list of keys is released.
DeletesKeys-released :
    (all : Bool) (tags : List Bytes) (w : World) (keys : List KeyElem) (m : Memory)
    (o : Outcome Unit)
    → matching all tags w.tags w.memory ≡ some (keys, m)
    → DeletesKeys keys w.maps o
    → Matched all tags w (and_then o (λ u. release_keys keys))
DeletesKeys-released all tags w keys m (ok u w₁) found (rooms, gone, others) =
    released (release_keys keys w₁) (release_keys-KeepsMaps keys w₁)
  where
    released : (o : Outcome Unit) → KeepsMaps w₁.maps o → Matched all tags w o
    released (ok t w') kept =
        let same : (q : Bytes) → lookup w' q ≡ lookup w₁ q = λ q. ap (λ t. found_in t q) kept in
        (
          keys,
          m,
          found,
          λ q h. same q ∙ gone q h,
          λ q h. same q ∙ others q h,
          λ q h. elim (Bool-cases (contains_key keys q)) [
            | inl there ↦
                absurd (h (matching-is_listed all tags w.tags keys w.memory m q found there))
            | inr out ↦ same q ∙ others q out
          ],
        )
    released (stop t w') kept = kept
    released crash kept = tt
DeletesKeys-released all tags w keys m (stop t w₁) found d = d
DeletesKeys-released all tags w keys m crash found d = tt

-- If no map is empty, a CLR of what has all or any of some tags does not fail early. When it
-- returns, lookups of the keys that the tag index gave for the tags find nothing, those of all other
-- keys find what they found before, and so in particular do those of keys that the index did not
-- list under all, or any, of the tags.
pub clear_matching-Matched :
    (all : Bool) (tags : List Bytes) (w : World)
    → HasRooms w.maps
    → Matched all tags w (clear_matching all tags w)
unfolding clear_matching log_tags from_tags
clear_matching-Matched all tags w rooms = elim (Option-cases (matching all tags w.tags w.memory)) [
  | inl nothing ↦
      let lost : clear_matching all tags w ≡ crash = ground (arith, nothing) in
      subst (Matched all tags w) (sym lost) tt
  | inr ((keys, m), found) ↦
      let w₁ : World = record w {
        log_queue =
            log_request_with_tags (if all then clr_match_all else clr_match_any) w.source tags
              w.log_queue;
        memory = m;
      } in
      let now : clear_matching all tags w
          ≡ and_then (delete_keys keys w₁) (λ u. release_keys keys) =
        ground (arith, found) in
      subst (Matched all tags w) (sym now) (
        DeletesKeys-released all tags w keys m (delete_keys keys w₁) found
          (delete_keys-DeletesKeys keys w₁ rooms))
]
