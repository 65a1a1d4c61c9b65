-- ===== src/Controller/Stored.antt =====
-- What  of src/controller.c, the end of a SET, does to later lookups.
use cik.Prelude.{
  ℕ, ◌<◌, ◌≡◌, ◌≢◌, inl, inr, refl, sym, ◌∙◌, ap, subst, Option, none, some, length, length-set,
  get_elem?, get_elem?-set_self, get_elem?-set_ne, lt_of_get_elem?, set, Option-cases,
}
use cik.World.{
  World, Outcome, ok, stop, crash, Exec, fail, and_then, ◌>>◌, release, map_index, get_map_for_key,
  put_map_for_key,
}
use native.Mathlib.Decide.{ℕ_discrete}
use cik.Protocol.{status_out_of_memory}
use cik.Bytes.{Bytes}
use cik.Entry.{EntryMap, CacheEntry, lock_and_get_cache_entry, set_locked_cache_entry}
use cik.Entry.Lookup.{IsNew}
use cik.Entry.Update.{lock_and_get-set_locked, lock_and_get-set_locked_ne}
use cik.Controller.Set.{install, discard, add_key_to_tags}
use cik.Controller.Keeps.{KeepsMaps, discard-add-KeepsMaps}

-- What a lookup of a key finds in the world.
abbrev pub lookup : World → Bytes → Option (ℕ × CacheEntry)
lookup w key = elim (get_elem? w.maps (map_index key (length w.maps))) [
  | none ↦ none
  | some map ↦ lock_and_get_cache_entry map key
]

-- No slot of any map holds the entry at this address, and no map is empty.
abbrev pub HasMapsFor : CacheEntry → World → Type 0
HasMapsFor e w =
    (i : ℕ) (map : EntryMap) → get_elem? w.maps i ≡ some map → (0 < length map) × IsNew map e

-- The rest of `install` behind the result of the map operation.
abbrev settled : CacheEntry → Option (EntryMap × Option CacheEntry) → Exec (Unit {0})
settled e none = release e.address >> fail status_out_of_memory
settled e (some (map', old)) =
    put_map_for_key e.key map' >> (discard old >> add_key_to_tags e.tags e.key)

install-set_locked :
    (e : CacheEntry) (w : World) (map : EntryMap)
    → get_elem? w.maps (map_index e.key (length w.maps)) ≡ some map
    → install e w ≡ settled e (set_locked_cache_entry map e) w
unfolding install get_map_for_key
install-set_locked e w map at =
    rw (at, install, get_map_for_key) (by_result (set_locked_cache_entry map e))
  where
    by_result :
        (r : Option (EntryMap × Option CacheEntry))
        → (elim r as (λ x. Exec (Unit {0})) [
          | none ↦ release e.address >> fail status_out_of_memory
          | some (map', old) ↦
              put_map_for_key e.key map' >> (discard old >> add_key_to_tags e.tags e.key)
        ])
            w
          ≡ settled e r w
    by_result none = refl
    by_result (some r) = refl

-- The map of the key was written, and nothing else of the maps.
install-KeepsMaps :
    (e : CacheEntry) (w : World) (map map' : EntryMap) (old : Option CacheEntry)
    → get_elem? w.maps (map_index e.key (length w.maps)) ≡ some map
    → set_locked_cache_entry map e ≡ some (map', old)
    → KeepsMaps (set w.maps (map_index e.key (length w.maps)) map') (install e w)
unfolding put_map_for_key
install-KeepsMaps e w map map' old at found =
    subst (KeepsMaps (set w.maps (map_index e.key (length w.maps)) map'))
      (sym (install-set_locked e w map at ∙ ap (λ t. settled e t w) found))
      (discard-add-KeepsMaps old e.tags e.key
        (record w { maps = set w.maps (map_index e.key (length w.maps)) map' }))

-- A map without room makes the call fail.
install_full :
    (e : CacheEntry) (w w' : World) (map : EntryMap)
    → get_elem? w.maps (map_index e.key (length w.maps)) ≡ some map
    → set_locked_cache_entry map e ≡ none
    → install e w ≢ ok tt w'
unfolding release
install_full e w w' map at full h =
    let failed : (release e.address >> fail status_out_of_memory) w ≡ ok tt w' =
      sym (install-set_locked e w map at ∙ ap (λ t. settled e t w) full) ∙ h in
    never (release e.address w) failed
  where
    never :
        (o : Outcome (Unit {0}))
        → and_then o (λ _. fail {A = Unit {0}} status_out_of_memory) ≢ ok tt w'
    never (ok a w₁) h = cc
    never (stop s w₁) h = cc
    never crash h = cc

lookups-install :
    (e : CacheEntry) (w w' : World)
    → HasMapsFor e w
    → install e w ≡ ok tt w'
    → ((p : ℕ) × (lookup w' e.key ≡ some (p, e)))
      × ((q : Bytes) → q ≢ e.key → lookup w' q ≡ lookup w q)
unfolding install get_map_for_key
lookups-install e w w' maps_ok h =
    elim (Option-cases (get_elem? w.maps (map_index e.key (length w.maps)))) [
      | inl nothing ↦
          let crashes : install e w ≡ crash = rw (nothing, install, get_map_for_key) refl in cc
      | inr (map, at) ↦ elim (Option-cases (set_locked_cache_entry map e)) [
        | inl full ↦ absurd (install_full e w w' map at full h)
        | inr ((map', old), found) ↦ written map map' old at found (
            subst (KeepsMaps (set w.maps (map_index e.key (length w.maps)) map')) h
              (install-KeepsMaps e w map map' old at found))
      ]
    ]
  where
    other :
        (q : Bytes) (map map' : EntryMap) (i : ℕ)
        → get_elem? w.maps i ≡ some map
        → w'.maps ≡ set w.maps i map'
        → length w'.maps ≡ length w.maps
        → i < length w.maps
        → lock_and_get_cache_entry map' q ≡ lock_and_get_cache_entry map q
        → lookup w' q ≡ lookup w q
    other q map map' i at now len lt same = elim (ℕ_discrete i (map_index q (length w.maps))) [
      | yes e ↦
          let here : get_elem? w.maps (map_index q (length w.maps)) ≡ some map =
            subst (λ t. get_elem? w.maps t ≡ some map) e at in
          let there : get_elem? (set w.maps i map') (map_index q (length w.maps)) ≡ some map' =
            subst (λ t. get_elem? (set w.maps i map') t ≡ some map') e
              (get_elem?-set_self w.maps i map' lt) in
          rw (lookup, len, now) (rw there (rw (here, lookup) same))
      | no n ↦
          rw (lookup, len, now)
            (rw (get_elem?-set_ne w.maps i (map_index q (length w.maps)) map' n) refl)
    ]

    written :
        (map map' : EntryMap) (old : Option CacheEntry)
        → get_elem? w.maps (map_index e.key (length w.maps)) ≡ some map
        → set_locked_cache_entry map e ≡ some (map', old)
        → w'.maps ≡ set w.maps (map_index e.key (length w.maps)) map'
        → ((p : ℕ) × (lookup w' e.key ≡ some (p, e)))
          × ((q : Bytes) → q ≢ e.key → lookup w' q ≡ lookup w q)
    written map map' old at found now =
        let (size, new) = maps_ok (map_index e.key (length w.maps)) map at in
        let i = map_index e.key (length w.maps) in
        let (p, here) = lock_and_get-set_locked map map' e old size new found in
        let lt = lt_of_get_elem? w.maps i map at in
        let len : length w'.maps ≡ length w.maps = ap length now ∙ length-set w.maps i map' in
        (
          (p, rw (lookup, len, now) (rw (get_elem?-set_self w.maps i map' lt) here)),
          λ q ne.
              other q map map' i at now len lt
                (lock_and_get-set_locked_ne map map' e old q size new ne found),
        )

-- After an `install` that succeeds, a lookup of the entry's key finds the entry, if no map is empty
-- and none holds an entry at the new one's address.
pub lookup-install :
    (e : CacheEntry) (w w' : World)
    → HasMapsFor e w
    → install e w ≡ ok tt w'
    → (p : ℕ) × (lookup w' e.key ≡ some (p, e))
lookup-install e w w' maps_ok h = (lookups-install e w w' maps_ok h).0

-- Under the same conditions a lookup of any other key finds what it found before.
pub lookup-install_ne :
    (e : CacheEntry) (w w' : World) (q : Bytes)
    → HasMapsFor e w
    → q ≢ e.key
    → install e w ≡ ok tt w'
    → lookup w' q ≡ lookup w q
lookup-install_ne e w w' q maps_ok ne h = (lookups-install e w w' maps_ok h).1 q ne
