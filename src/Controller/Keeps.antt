-- ===== src/Controller/Keeps.antt =====
-- What the tag index and the releases of src/controller.c leave alone: the entry maps.
use cik.Prelude.{ℕ, ◌≡◌, inl, inr, refl, subst, Option, none, some, List, [], ◌∷◌, Option-cases}
use cik.World.{World, Outcome, ok, stop, crash, Exec, and_then, ◌>>◌, on_tags, release}
use cik.Bytes.{Bytes}
use cik.Memory.{release_memory}
use cik.Tag.{TagNode, M, add_key_to_tag, remove_key_from_tag}
use cik.Entry.{EntryMap, CacheEntry}
use cik.Controller.Set.{add_key_to_tags, remove_key_from_tags, discard}

-- The maps are the same as before and the call does not return early, unless it crashes.
abbrev pub KeepsMaps : {A : Type 0} → List EntryMap → Outcome A → Type 0
KeepsMaps maps (ok a w) = w.maps ≡ maps
KeepsMaps maps (stop s w) = ⊥
KeepsMaps maps crash = Unit

KeepsMaps-and_then :
    {A B : Type 0} (maps : List EntryMap) (o : Outcome A) (f : A → Exec B)
    → KeepsMaps maps o
    → ((a : A) (w : World) → w.maps ≡ maps → KeepsMaps maps (f a w))
    → KeepsMaps maps (and_then o f)
KeepsMaps-and_then maps (ok a w) f h k = k a w h
KeepsMaps-and_then maps (stop s w) f h k = absurd h
KeepsMaps-and_then maps crash f h k = h

on_tags-KeepsMaps : (f : TagNode → M TagNode) (w : World) → KeepsMaps w.maps (on_tags f w)
unfolding on_tags
on_tags-KeepsMaps f w = elim (Option-cases (f w.tags w.memory)) [
  | inl nothing ↦ rw (nothing, on_tags) tt
  | inr (r, found) ↦ rw (found, on_tags) refl
]

release-KeepsMaps : (address : ℕ) (w : World) → KeepsMaps w.maps (release address w)
unfolding release
release-KeepsMaps address w = elim (Option-cases (release_memory address w.memory)) [
  | inl nothing ↦ rw (nothing, release) tt
  | inr (m, found) ↦ rw (found, release) refl
]

add_key_to_tags-KeepsMaps :
    (tags : List Bytes) (key : Bytes) (maps : List EntryMap) (w : World)
    → w.maps ≡ maps
    → KeepsMaps maps (add_key_to_tags tags key w)
unfolding add_key_to_tags
add_key_to_tags-KeepsMaps [] key maps w h = h
add_key_to_tags-KeepsMaps (tag ∷ tags) key maps w h =
    KeepsMaps-and_then maps (on_tags (add_key_to_tag tag key) w) (λ u. add_key_to_tags tags key)
      (subst (λ t. KeepsMaps t (on_tags (add_key_to_tag tag key) w)) h
        (on_tags-KeepsMaps (add_key_to_tag tag key) w))
      (λ u w' h'. add_key_to_tags-KeepsMaps tags key maps w' h')

pub remove_key_from_tags-KeepsMaps :
    (tags : List Bytes) (key : Bytes) (maps : List EntryMap) (w : World)
    → w.maps ≡ maps
    → KeepsMaps maps (remove_key_from_tags tags key w)
unfolding remove_key_from_tags
remove_key_from_tags-KeepsMaps [] key maps w h = h
remove_key_from_tags-KeepsMaps (tag ∷ tags) key maps w h =
    KeepsMaps-and_then maps (on_tags (remove_key_from_tag tag key) w)
      (λ u. remove_key_from_tags tags key)
      (subst (λ t. KeepsMaps t (on_tags (remove_key_from_tag tag key) w)) h
        (on_tags-KeepsMaps (remove_key_from_tag tag key) w))
      (λ u w' h'. remove_key_from_tags-KeepsMaps tags key maps w' h')

discard-KeepsMaps :
    (old : Option CacheEntry) (maps : List EntryMap) (w : World)
    → w.maps ≡ maps
    → KeepsMaps maps (discard old w)
unfolding discard
discard-KeepsMaps none maps w h = h
discard-KeepsMaps (some old) maps w h =
    KeepsMaps-and_then maps (remove_key_from_tags old.tags old.key w) (λ u. release old.address)
      (remove_key_from_tags-KeepsMaps old.tags old.key maps w h)
      (λ u w' h'.
        subst (λ t. KeepsMaps t (release old.address w')) h' (release-KeepsMaps old.address w'))

-- The end of `install`: the old entry goes, the new one's tags come.
pub discard-add-KeepsMaps :
    (old : Option CacheEntry) (tags : List Bytes) (key : Bytes) (w : World)
    → KeepsMaps w.maps ((discard old >> add_key_to_tags tags key) w)
discard-add-KeepsMaps old tags key w =
    KeepsMaps-and_then w.maps (discard old w) (λ u. add_key_to_tags tags key)
      (discard-KeepsMaps old w.maps w refl)
      (λ u w' h. add_key_to_tags-KeepsMaps tags key w.maps w' h)
