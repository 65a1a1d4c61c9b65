-- ===== src/Controller/Spared.antt =====
-- What a deletion by src/controller.c leaves alone: the lookups of every other key.
use cik.Prelude.{
  ℕ, zero, suc, ◌<◌, ◌≡◌, ◌≢◌, inl, inr, refl, sym, ◌∙◌, ap, subst, Option, none, some, List,
  length, length-set, get_elem?, get_elem?-set_self, get_elem?-set_ne, lt_of_get_elem?, set, arith,
  Option-cases,
}
use native.Mathlib.Decide.{ℕ_discrete}
use cik.Bytes.{Bytes}
use cik.Entry.{free, EntryMap, CacheEntry, lock_and_get_cache_entry, lock_and_unset_cache_entry}
use cik.Entry.Update.{lock_and_get-lock_and_unset_ne}
use cik.Memory.{release_memory}
use cik.Controller.Set.{remove_key_from_tags}
use cik.Controller.Del.{unset_entry, release_all, delete_entry_by_key}
use cik.Controller.Keeps.{KeepsMaps, remove_key_from_tags-KeepsMaps}
use cik.Controller.Deletion.{found_entry, logged, delete-unset}
use cik.Controller.Deleted.{
  map_at, unset_none, unset_some, release_crash, round, next_round, written,
}
use cik.World.{
  World, Outcome, ok, stop, crash, Exec, and_then, release, log_key, map_index, get_map_for_key,
}

-- No map is empty.
abbrev pub HasRooms : List EntryMap → Type 0
HasRooms maps = (i : ℕ) (map : EntryMap) → get_elem? maps i ≡ some map → 0 < length map

abbrev pub found_in : List EntryMap → Bytes → Option (ℕ × CacheEntry)
found_in maps key = elim (get_elem? maps (map_index key (length maps))) [
  | none ↦ none
  | some map ↦ lock_and_get_cache_entry map key
]

-- Between two states of the maps no other key than one was touched, and that was not added.
pub record Spares (key : Bytes) (maps maps' : List EntryMap) : Type 0 where
  pub rooms : HasRooms maps'
  pub others : (q : Bytes) → q ≢ key → found_in maps' q ≡ found_in maps q
  pub absent : found_in maps key ≡ none → found_in maps' key ≡ none

Spares-refl : (key : Bytes) (maps : List EntryMap) → HasRooms maps → Spares key maps maps
Spares-refl key maps r = record { rooms = r; others = λ q ne. refl; absent = λ h. h }

Spares-trans :
    (key : Bytes) (a b c : List EntryMap) → Spares key a b → Spares key b c → Spares key a c
Spares-trans key a b c s t = record {
  rooms = t.rooms;
  others = λ q ne. t.others q ne ∙ s.others q ne;
  absent = λ h. t.absent (s.absent h);
}

HasRooms-set :
    (maps : List EntryMap) (i : ℕ) (map : EntryMap)
    → HasRooms maps
    → 0 < length map
    → HasRooms (set maps i map)
HasRooms-set maps i map rooms size j other at = elim (ℕ_discrete i j) [
  | no n ↦ rooms j other (sym (get_elem?-set_ne maps i j map n) ∙ at)
  | yes e ↦
      let at' : get_elem? (set maps i map) i ≡ some other =
        subst (λ t. get_elem? (set maps i map) t ≡ some other) (sym e) at in
      let lt : i < length maps =
        omega (arith, lt_of_get_elem? (set maps i map) i other at', length-set maps i map) in
      let same : map ≡ other =
        ap (λ o. elim o [ none ↦ map | some m ↦ m ])
          (sym (get_elem?-set_self maps i map lt) ∙ at') in
      subst (λ t. 0 < length t) same size
]

unset-length :
    (map : EntryMap) (key : Bytes)
    → 0 < length map
    → 0 < length (lock_and_unset_cache_entry map key).1
unset-length map key size = elim (Option-cases (lock_and_get_cache_entry map key)) [
  | inl nothing ↦ rw (unset_none map key size nothing) size
  | inr ((p, e), found) ↦
      rw (unset_some map key p e size found) (omega (arith, length-set map p free))
]

-- An unset in the map of a key.
unset-Spares :
    (key : Bytes) (maps : List EntryMap) (map : EntryMap)
    → HasRooms maps
    → get_elem? maps (map_index key (length maps)) ≡ some map
    → Spares key maps
        (set maps (map_index key (length maps)) (lock_and_unset_cache_entry map key).1)
unset-Spares key maps map rooms at =
    let i = map_index key (length maps) in
    let map' = (lock_and_unset_cache_entry map key).1 in
    let size = rooms i map at in
    let len = length-set maps i map' in
    let lt = lt_of_get_elem? maps i map at in
    let there : (q : Bytes)
        → i ≡ map_index q (length maps)
        → found_in (set maps i map') q ≡ lock_and_get_cache_entry map' q =
      λ q e. rw (found_in, len, ← e) (rw (get_elem?-set_self maps i map' lt) refl) in
    let here : (q : Bytes)
        → i ≡ map_index q (length maps)
        → found_in maps q ≡ lock_and_get_cache_entry map q =
      λ q e. rw (found_in, ← e) (rw at refl) in
    record {
      rooms = HasRooms-set maps i map' rooms (unset-length map key size);
      others = λ q ne. elim (ℕ_discrete i (map_index q (length maps))) [
        | yes e ↦ there q e ∙ lock_and_get-lock_and_unset_ne map key q size ne ∙ sym (here q e)
        | no n ↦
            rw (found_in, len)
              (rw (get_elem?-set_ne maps i (map_index q (length maps)) map' n) refl)
      ];
      absent = λ h.
          there key refl
          ∙ ap (λ (t : Option CacheEntry × EntryMap). lock_and_get_cache_entry t.1 key)
              (unset_none map key size (sym (here key refl) ∙ h))
          ∙ sym (here key refl)
          ∙ h;
    }

-- The same for what a call leaves behind, unless it crashes.
abbrev pub SparesOthers : {A : Type 0} → Bytes → List EntryMap → Outcome A → Type 0
SparesOthers key maps (ok a w) = Spares key maps w.maps
SparesOthers key maps (stop s w) = Spares key maps w.maps
SparesOthers key maps crash = Unit

SparesOthers-trans :
    {A : Type 0} (key : Bytes) (a b : List EntryMap) (o : Outcome A)
    → Spares key a b
    → SparesOthers key b o
    → SparesOthers key a o
SparesOthers-trans key a b (ok u w) s t = Spares-trans key a b w.maps s t
SparesOthers-trans key a b (stop u w) s t = Spares-trans key a b w.maps s t
SparesOthers-trans key a b crash s t = tt

next_round-SparesOthers :
    (fuel : ℕ) (key : Bytes) (maps : List EntryMap) (w : World)
    → ((e : CacheEntry) → SparesOthers key w.maps (release_all fuel e key w))
    → Spares key maps w.maps
    → (r : Option CacheEntry) → SparesOthers key maps (next_round fuel key r w)
next_round-SparesOthers fuel key maps w later here none = here
next_round-SparesOthers fuel key maps w later here (some e) =
    SparesOthers-trans key maps w.maps (release_all fuel e key w) here (later e)

unset_entry_lost : (key : Bytes) (w : World) → map_at w key ≡ none → unset_entry key w ≡ crash
unfolding unset_entry get_map_for_key
unset_entry_lost key w nothing = rw (nothing, unset_entry, get_map_for_key) refl

release_all_lost :
    (fuel : ℕ) (e : CacheEntry) (key : Bytes) (w : World)
    → map_at w key ≡ none
    → release_all (suc fuel) e key w ≡ crash
unfolding release_all release
release_all_lost fuel e key w nothing = elim (Option-cases (release_memory e.address w.memory)) [
  | inl stuck ↦ release_crash fuel e key w stuck
  | inr (m, freed) ↦
      let lost = unset_entry_lost key (record w { memory = m }) nothing in
      ground (arith, freed, lost)
]

release_all-SparesOthers :
    (fuel : ℕ) (e : CacheEntry) (key : Bytes) (w : World)
    → HasRooms w.maps
    → SparesOthers key w.maps (release_all fuel e key w)
unfolding release_all
release_all-SparesOthers zero e key w rooms = tt
release_all-SparesOthers (suc fuel) e key w rooms = elim (Option-cases (map_at w key)) [
  | inl nothing ↦ subst (SparesOthers key w.maps) (sym (release_all_lost fuel e key w nothing)) tt
  | inr (map, at) ↦ elim (Option-cases (release_memory e.address w.memory)) [
    | inl stuck ↦ subst (SparesOthers key w.maps) (sym (release_crash fuel e key w stuck)) tt
    | inr (m, freed) ↦
        let w' = written w key (lock_and_unset_cache_entry map key).1 m in
        let here = unset-Spares key w.maps map rooms at in
        subst (SparesOthers key w.maps) (sym (round fuel e key w m map freed at)) (
          next_round-SparesOthers fuel key w.maps w'
            (λ e'. release_all-SparesOthers fuel e' key w' here.rooms) here
            (lock_and_unset_cache_entry map key).0)
  ]
]

-- What keeps the maps, with a call behind it.
KeepsMaps-SparesOthers :
    (key : Bytes) (maps : List EntryMap) (o : Outcome Unit) (f : Exec Unit)
    → KeepsMaps maps o
    → ((w : World) → w.maps ≡ maps → SparesOthers key maps (f w))
    → SparesOthers key maps (and_then o (λ u. f))
KeepsMaps-SparesOthers key maps (ok u w) f kept later = later w kept
KeepsMaps-SparesOthers key maps (stop s w) f kept later = absurd kept
KeepsMaps-SparesOthers key maps crash f kept later = tt

found_entry-SparesOthers :
    (key : Bytes) (fuel : ℕ) (r : Option CacheEntry) (w : World)
    → HasRooms w.maps
    → SparesOthers key w.maps (found_entry key fuel r w)
found_entry-SparesOthers key fuel none w rooms = Spares-refl key w.maps rooms
found_entry-SparesOthers key fuel (some e) w rooms =
    KeepsMaps-SparesOthers key w.maps (remove_key_from_tags e.tags e.key w) (release_all fuel e key)
      (remove_key_from_tags-KeepsMaps e.tags e.key w.maps w refl)
      (λ w' kept.
        subst (λ t. SparesOthers key t (release_all fuel e key w')) kept
          (release_all-SparesOthers fuel e key w' (subst HasRooms (sym kept) rooms)))

-- `delete_entry_by_key`, whatever its status is.
pub delete_entry_by_key-SparesOthers :
    (key : Bytes) (w : World)
    → HasRooms w.maps
    → SparesOthers key w.maps (delete_entry_by_key key w)
unfolding delete_entry_by_key log_key get_map_for_key
delete_entry_by_key-SparesOthers key w rooms = elim (Option-cases (map_at w key)) [
  | inl nothing ↦
      let lost : delete_entry_by_key key w ≡ crash =
        rw (nothing, delete_entry_by_key, get_map_for_key) refl in
      subst (SparesOthers key w.maps) (sym lost) tt
  | inr (map, at) ↦
      let here = unset-Spares key w.maps map rooms at in
      let w' : World = record (logged key w) {
        maps = set w.maps (map_index key (length w.maps)) (lock_and_unset_cache_entry map key).1;
      } in
      subst (SparesOthers key w.maps) (sym (delete-unset key w map at)) (
        SparesOthers-trans key w.maps w'.maps
          (found_entry key (suc (length map)) (lock_and_unset_cache_entry map key).0 w') here
          (found_entry-SparesOthers key (suc (length map)) (lock_and_unset_cache_entry map key).0 w'
            here.rooms))
]
