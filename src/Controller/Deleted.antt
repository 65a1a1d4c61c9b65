-- ===== src/Controller/Deleted.antt =====
-- The loop of `delete_entry_by_key` of src/controller.c: it ends, and leaves no copy of the key.
use cik.Prelude.{
  ℕ, zero, suc, ◌+◌, ◌≤◌, ◌<◌, ◌≡◌, inl, inr, refl, sym, ◌∙◌, ap, subst, Option, none, some, [],
  ◌∷◌, length, length-set, get_elem?, get_elem?-set_self, lt_of_get_elem?, set, arith, Option-cases,
}
use cik.World.{
  World, Outcome, ok, stop, crash, Exec, pure, and_then, ◌>>=◌, release, map_index, get_map_for_key,
  put_map_for_key,
}
use cik.Bytes.{Bytes}
use cik.Memory.{Memory, release_memory}
use cik.Entry.{
  free, used, EntryMap, CacheEntry, get_key_hash, lock_and_get_cache_entry,
  lock_and_unset_cache_entry,
}
use cik.Entry.Lookup.{lock_and_get-Stored}
use cik.Entry.Update.{lock_and_unset-lock_and_get}
use cik.Controller.Del.{unset_entry, release_all}
use cik.Controller.Stored.{lookup}

-- How many slots are used.
abbrev pub used_slots : EntryMap → ℕ
used_slots [] = 0
used_slots (free ∷ map) = used_slots map
used_slots (used h e ∷ map) = suc (used_slots map)

pub used_slots-set :
    (map : EntryMap) (p h : ℕ) (e : CacheEntry)
    → get_elem? map p ≡ some (used h e)
    → suc (used_slots (set map p free)) ≡ used_slots map
used_slots-set [] p h e at = cc
used_slots-set (free ∷ map) zero h e at = cc
used_slots-set (used n x ∷ map) zero h e at = refl
used_slots-set (free ∷ map) (suc p) h e at = used_slots-set map p h e at
used_slots-set (used n x ∷ map) (suc p) h e at = ap suc (used_slots-set map p h e at)

pub used_slots-length : (map : EntryMap) → used_slots map ≤ length map
used_slots-length [] = omega arith
used_slots-length (free ∷ map) = omega (arith, used_slots-length map)
used_slots-length (used n x ∷ map) = omega (arith, used_slots-length map)

-- The map of a key.
abbrev pub map_at : World → Bytes → Option EntryMap
map_at w key = get_elem? w.maps (map_index key (length w.maps))

-- The loop's rest behind an unset.
abbrev pub next_round : ℕ → Bytes → Option CacheEntry → Exec Unit
next_round fuel key none = pure tt
next_round fuel key (some e) = release_all fuel e key

pub unset_entry-map :
    (key : Bytes) (w : World) (map : EntryMap)
    → map_at w key ≡ some map
    → unset_entry key w
      ≡ ok (lock_and_unset_cache_entry map key).0 (record w {
        maps = set w.maps (map_index key (length w.maps)) (lock_and_unset_cache_entry map key).1;
      })
unfolding unset_entry get_map_for_key put_map_for_key
unset_entry-map key w map at = rw (at, unset_entry, get_map_for_key) refl

-- What a round does once the entry is released.
pub round :
    (fuel : ℕ) (e : CacheEntry) (key : Bytes) (w : World) (m : Memory) (map : EntryMap)
    → release_memory e.address w.memory ≡ some m
    → map_at w key ≡ some map
    → release_all (suc fuel) e key w
      ≡ next_round fuel key (lock_and_unset_cache_entry map key).0 (record w {
        maps = set w.maps (map_index key (length w.maps)) (lock_and_unset_cache_entry map key).1;
        memory = m;
      })
unfolding release_all release
round fuel e key w m map freed at =
    let released : release e.address w ≡ ok tt (record w { memory = m }) =
      rw (freed, release) refl in
    ap
      (λ o. and_then o (λ u. unset_entry key >>= λ next. elim next as (λ x. Exec Unit) [
        | none ↦ pure tt
        | some e' ↦ release_all fuel e' key
      ]))
      released
    ∙ ap
        (λ o. and_then o (λ next. elim next as (λ x. Exec Unit) [
          | none ↦ pure tt
          | some e' ↦ release_all fuel e' key
        ]))
        (unset_entry-map key (record w { memory = m }) map at)
    ∙ by_result (lock_and_unset_cache_entry map key).0 _
  where
    by_result :
        (r : Option CacheEntry) (w' : World)
        → (elim r as (λ x. Exec Unit) [ none ↦ pure tt | some e' ↦ release_all fuel e' key ]) w'
          ≡ next_round fuel key r w'
    by_result none w' = refl
    by_result (some e') w' = refl

-- The world after a round: the key's map and the memory were written.
abbrev pub written : World → Bytes → EntryMap → Memory → World
written w key map m = record w { maps = set w.maps (map_index key (length w.maps)) map; memory = m }

pub map_at-written :
    (w : World) (key : Bytes) (map map' : EntryMap) (m : Memory)
    → map_at w key ≡ some map
    → map_at (written w key map' m) key ≡ some map'
map_at-written w key map map' m at =
    let i = map_index key (length w.maps) in
    let len : length (set w.maps i map') ≡ length w.maps = length-set w.maps i map' in
    ap (λ t. get_elem? (set w.maps i map') (map_index key t)) len
    ∙ get_elem?-set_self w.maps i map' (lt_of_get_elem? w.maps i map at)

pub lookup-map_at :
    (w : World) (key : Bytes) (map : EntryMap)
    → map_at w key ≡ some map
    → lookup w key ≡ lock_and_get_cache_entry map key
lookup-map_at w key map at = rw (at, lookup) refl

-- The key is gone from its map, unless a release crashed.
abbrev pub Gone : Bytes → Outcome Unit → Type 0
Gone key (ok u w) = lookup w key ≡ none
Gone key (stop s w) = ⊥
Gone key crash = Unit

-- The loop leaves no entry with the key, and more fuel makes no difference to it.
abbrev pub Ends : ℕ → CacheEntry → Bytes → World → Type 0
Ends fuel e key w =
    Gone key (release_all fuel e key w)
    × ((n : ℕ) → release_all (fuel + n) e key w ≡ release_all fuel e key w)

pub release_crash :
    (fuel : ℕ) (e : CacheEntry) (key : Bytes) (w : World)
    → release_memory e.address w.memory ≡ none
    → release_all (suc fuel) e key w ≡ crash
unfolding release_all release
release_crash fuel e key w nothing =
    let released : release e.address w ≡ crash = rw (nothing, release) refl in
    ap
      (λ o. and_then o (λ u. unset_entry key >>= λ next. elim next as (λ x. Exec Unit) [
        | none ↦ pure tt
        | some e' ↦ release_all fuel e' key
      ]))
      released

more_fuel :
    (fuel n : ℕ) (e : CacheEntry) (key : Bytes) (w : World)
    → release_all (suc fuel + n) e key w ≡ release_all (suc (fuel + n)) e key w
more_fuel fuel n e key w = ap (λ t. release_all t e key w) (omega arith)

pub unset_none :
    (map : EntryMap) (key : Bytes)
    → 0 < length map
    → lock_and_get_cache_entry map key ≡ none
    → lock_and_unset_cache_entry map key ≡ (none, map)
unset_none map key size nothing = lock_and_unset-lock_and_get map key size ∙ rw nothing refl

pub unset_some :
    (map : EntryMap) (key : Bytes) (p : ℕ) (e : CacheEntry)
    → 0 < length map
    → lock_and_get_cache_entry map key ≡ some (p, e)
    → lock_and_unset_cache_entry map key ≡ (some e, set map p free)
unset_some map key p e size found = lock_and_unset-lock_and_get map key size ∙ rw found refl

-- The loop of a DEL ends within as many rounds as slots of the key's map are used and one more. No
-- entry with the key is left in the map then, also if it held several.
pub release_all-Ends :
    (fuel : ℕ) (e : CacheEntry) (key : Bytes) (w : World) (map : EntryMap)
    → map_at w key ≡ some map
    → 0 < length map
    → used_slots map < fuel
    → Ends fuel e key w
release_all-Ends zero e key w map at size enough = absurd (omega arith)
release_all-Ends (suc fuel) e key w map at size enough =
    elim (Option-cases (release_memory e.address w.memory)) [
      | inl nothing ↦
          let now = release_crash fuel e key w nothing in
          (
            subst (Gone key) (sym now) tt,
            λ n. more_fuel fuel n e key w ∙ release_crash (fuel + n) e key w nothing ∙ sym now,
          )
      | inr (m, freed) ↦ elim (Option-cases (lock_and_get_cache_entry map key)) [
        | inl absent ↦
            let unset = unset_none map key size absent in
            let last = λ (k : ℕ).
              round k e key w m map freed at
              ∙ ap
                  (λ (t : Option CacheEntry × EntryMap). next_round k key t.0 (written w key t.1 m))
                  unset in
            (
              subst (Gone key) (sym (last fuel)) (
                  lookup-map_at (written w key map m) key map (map_at-written w key map map m at)
                  ∙ absent),
              λ n. more_fuel fuel n e key w ∙ last (fuel + n) ∙ sym (last fuel),
            )
        | inr ((p, e'), found) ↦
            let unset = unset_some map key p e' size found in
            let next = λ (k : ℕ).
              round k e key w m map freed at
              ∙ ap
                  (λ (t : Option CacheEntry × EntryMap). next_round k key t.0 (written w key t.1 m))
                  unset in
            let (stored, same) = lock_and_get-Stored map key p e' size found in
            let (gone, stable) =
              release_all-Ends fuel e' key (written w key (set map p free) m) (set map p free)
                (map_at-written w key map (set map p free) m at)
                (omega (arith, length-set map p free))
                (omega (arith, used_slots-set map p (get_key_hash e'.key) e' stored)) in
            (
              subst (Gone key) (sym (next fuel)) gone,
              λ n. more_fuel fuel n e key w ∙ next (fuel + n) ∙ stable n ∙ sym (next fuel),
            )
      ]
    ]
