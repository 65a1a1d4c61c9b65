-- ===== src/Controller/Deletion.antt =====
-- What `delete_entry_by_key` of src/controller.c does to lookups.
use cik.Prelude.{
  ℕ, suc, ◌<◌, ◌≡◌, inl, inr, refl, sym, ◌∙◌, ap, subst, Option, none, some, length, length-set,
  get_elem?, set, arith, Option-cases,
}
use cik.World.{
  World, Outcome, ok, stop, crash, Exec, fail, and_then, ◌>>◌, log_key, map_index, get_map_for_key,
}
use cik.Bytes.{Bytes}
use cik.Protocol.{status_not_found}
use cik.Log.{del_key, log_request_with_key}
use cik.Entry.{free, EntryMap, CacheEntry, lock_and_get_cache_entry, lock_and_unset_cache_entry}
use cik.Controller.Set.{remove_key_from_tags}
use cik.Controller.Del.{release_all, delete_entry_by_key}
use cik.Controller.Stored.{lookup}
use cik.Controller.Keeps.{KeepsMaps, remove_key_from_tags-KeepsMaps}
use cik.Controller.Deleted.{
  map_at, used_slots-length, unset_entry-map, unset_none, unset_some, map_at-written, lookup-map_at,
  Gone, release_all-Ends,
}

-- Deleted: the key is not found any more. Not found: it was not found before.
abbrev pub Deleted : Bytes → World → Outcome Unit → Type 0
Deleted key w (ok u w') = lookup w' key ≡ none
Deleted key w (stop s w') = (s ≡ status_not_found) × (lookup w key ≡ none)
Deleted key w crash = Unit

abbrev pub found_entry : Bytes → ℕ → Option CacheEntry → Exec Unit
found_entry key fuel none = fail status_not_found
found_entry key fuel (some e) = remove_key_from_tags e.tags e.key >> release_all fuel e key

abbrev pub logged : Bytes → World → World
logged key w = record w { log_queue = log_request_with_key del_key w.source key w.log_queue }

pub delete-unset :
    (key : Bytes) (w : World) (map : EntryMap)
    → map_at w key ≡ some map
    → delete_entry_by_key key w
      ≡ found_entry key
          (suc (length map))
          (lock_and_unset_cache_entry map key).0
          (record (logged key w) {
            maps =
                set w.maps (map_index key (length w.maps)) (lock_and_unset_cache_entry map key).1;
          })
unfolding delete_entry_by_key log_key get_map_for_key
delete-unset key w map at =
    rw (at, delete_entry_by_key, get_map_for_key)
      (ap (λ o. and_then o (found_entry key (suc (length map))))
        (unset_entry-map key (logged key w) map at))

-- The loop behind the removal from the tags, on the map with one slot freed.
rest-Deleted :
    (e : CacheEntry) (key : Bytes) (w : World) (n : ℕ) (map : EntryMap) (o : Outcome Unit)
    → KeepsMaps w.maps o
    → map_at w key ≡ some map
    → 0 < length map
    → length map ≡ n
    → (w₀ : World) → Deleted key w₀ (and_then o (λ u. release_all (suc n) e key))
rest-Deleted e key w n map (ok u w') kept at size len w₀ =
    let at' : map_at w' key ≡ some map =
      ap (λ t. get_elem? t (map_index key (length t))) kept ∙ at in
    let gone =
      (release_all-Ends (suc n) e key w' map at' size (omega (arith, used_slots-length map))).0 in
    by_outcome (release_all (suc n) e key w') gone
  where
    by_outcome : (r : Outcome Unit) → Gone key r → Deleted key w₀ r
    by_outcome (ok u w₁) g = g
    by_outcome (stop s w₁) g = absurd g
    by_outcome crash g = g
rest-Deleted e key w n map (stop s w') kept at size len w₀ = absurd kept
rest-Deleted e key w n map crash kept at size len w₀ = tt

-- If the map of the key is not empty, a deletion that returns ok leaves no entry with the key, also
-- if the map held several; the one other status is "not found", and then the key was not in the map.
pub delete_entry_by_key-Deleted :
    (key : Bytes) (w : World) (map : EntryMap)
    → map_at w key ≡ some map
    → 0 < length map
    → Deleted key w (delete_entry_by_key key w)
delete_entry_by_key-Deleted key w map at size =
    elim (Option-cases (lock_and_get_cache_entry map key)) [
      | inl absent ↦
          let now =
            delete-unset key w map at
            ∙ ap
                (λ (t : Option CacheEntry × EntryMap).
                  found_entry key (suc (length map)) t.0 (record (logged key w) {
                    maps = set w.maps (map_index key (length w.maps)) t.1;
                  }))
                (unset_none map key size absent) in
          subst (Deleted key w) (sym now) (refl, lookup-map_at w key map at ∙ absent)
      | inr ((p, e), found) ↦
          let w₁ : World = record (logged key w) {
            maps = set w.maps (map_index key (length w.maps)) (set map p free);
          } in
          let now =
            delete-unset key w map at
            ∙ ap
                (λ (t : Option CacheEntry × EntryMap).
                  found_entry key (suc (length map)) t.0 (record (logged key w) {
                    maps = set w.maps (map_index key (length w.maps)) t.1;
                  }))
                (unset_some map key p e size found) in
          subst (Deleted key w) (sym now) (
            rest-Deleted e key w₁ (length map) (set map p free)
              (remove_key_from_tags e.tags e.key w₁)
              (remove_key_from_tags-KeepsMaps e.tags e.key w₁.maps w₁ refl)
              (map_at-written w key map (set map p free) w.memory at)
              (omega (arith, length-set map p free)) (length-set map p free) w)
    ]
