-- ===== src/Controller/Ended.antt =====
-- The loop of `delete_entry_by_key` of src/controller.c on a memory whose buckets are kept apart.
use cik.Prelude.{
  ℕ, zero, suc, ◌+◌, ◌<◌, ◌≡◌, inl, inr, sym, ◌∙◌, ap, Option, none, some, List, [], ◌∷◌, ◌++◌,
  length, length-set, get_elem?, set, arith, Option-cases,
}
use cik.World.{World, ok}
use cik.Bytes.{Bytes}
use cik.Memory.Buckets.{count, IsMemory, same_count-IsMemory}
use cik.Memory.Safety.{release_memory-IsMemory}
use cik.Entry.{free, used, EntryMap, CacheEntry, get_key_hash, lock_and_get_cache_entry}
use cik.Entry.Lookup.{lock_and_get-Stored}
use cik.Controller.Del.{release_all}
use cik.Controller.Stored.{lookup}
use cik.Controller.Deleted.{
  map_at, used_slots, used_slots-set, written, next_round, round, unset_none, unset_some,
  map_at-written, lookup-map_at,
}

-- The buckets of a map's entries.
abbrev pub addresses : EntryMap → List ℕ
addresses [] = []
addresses (free ∷ map) = addresses map
addresses (used h e ∷ map) = e.address ∷ addresses map

addresses-set :
    (map : EntryMap) (p h : ℕ) (e : CacheEntry) (live : List ℕ) (a : ℕ)
    → get_elem? map p ≡ some (used h e)
    → count a (e.address ∷ (addresses (set map p free) ++ live)) ≡ count a (addresses map ++ live)
addresses-set [] p h e live a at = cc
addresses-set (free ∷ map) zero h e live a at = cc
addresses-set (used n x ∷ map) zero h e live a at =
    let same : x ≡ e = ground (arith, at) in
    ap (λ (y : CacheEntry). count a (y.address ∷ (addresses map ++ live))) (sym same)
addresses-set (free ∷ map) (suc p) h e live a at = addresses-set map p h e live a at
addresses-set (used n x ∷ map) (suc p) h e live a at =
    omega (arith, addresses-set map p h e live a at)

-- The loop returns, and then no lookup finds the key, every bucket is free or in use by an entry that
-- is left in the key's map or by others, and more fuel makes no difference.
abbrev pub Finishes : ℕ → CacheEntry → Bytes → World → List ℕ → Type 0
Finishes fuel e key w live =
    (w' : World) × (release_all fuel e key w ≡ ok tt w')
    × (lookup w' key ≡ none)
    × ((map : EntryMap) × (map_at w' key ≡ some map) × IsMemory w'.memory (addresses map ++ live))
    × ((n : ℕ) → release_all (fuel + n) e key w ≡ release_all fuel e key w)

more_fuel :
    (fuel n : ℕ) (e : CacheEntry) (key : Bytes) (w : World)
    → release_all (suc fuel + n) e key w ≡ release_all (suc (fuel + n)) e key w
more_fuel fuel n e key w = ap (λ t. release_all t e key w) (omega arith)

-- If the entry that a DEL took out of the key's map and those in it lie in buckets in use of their
-- own, the loop ends within as many rounds as slots of the map are used and one more, and returns.
-- Then no entry with the key is left, also if the map held several, and just the entries that are
-- left in the map, and what was in use besides, are in use.
pub release_all-Finishes :
    (fuel : ℕ) (e : CacheEntry) (key : Bytes) (w : World) (map : EntryMap) (live : List ℕ)
    → map_at w key ≡ some map
    → 0 < length map
    → used_slots map < fuel
    → IsMemory w.memory (e.address ∷ (addresses map ++ live))
    → Finishes fuel e key w live
release_all-Finishes zero e key w map live at size enough mem = absurd (omega (arith, enough))
release_all-Finishes (suc fuel) e key w map live at size enough mem =
    let (m, freed, mem') = release_memory-IsMemory w.memory (addresses map ++ live) e.address mem in
    elim (Option-cases (lock_and_get_cache_entry map key)) [
      | inl absent ↦
          let unset = unset_none map key size absent in
          let last = λ (k : ℕ).
            round k e key w m map freed at
            ∙ ap (λ (t : Option CacheEntry × EntryMap). next_round k key t.0 (written w key t.1 m))
                unset in
          let at' = map_at-written w key map map m at in
          (
            written w key map m,
            last fuel,
            lookup-map_at (written w key map m) key map at' ∙ absent,
            (map, at', mem'),
            λ n. more_fuel fuel n e key w ∙ last (fuel + n) ∙ sym (last fuel),
          )
      | inr ((p, e'), found) ↦
          let unset = unset_some map key p e' size found in
          let next = λ (k : ℕ).
            round k e key w m map freed at
            ∙ ap (λ (t : Option CacheEntry × EntryMap). next_round k key t.0 (written w key t.1 m))
                unset in
          let (stored, same) = lock_and_get-Stored map key p e' size found in
          let rest = set map p free in
          let (w', done, gone, kept, stable) =
            release_all-Finishes fuel e' key (written w key rest m) rest live
              (map_at-written w key map rest m at) (omega (arith, length-set map p free, size))
              (omega (arith, used_slots-set map p (get_key_hash e'.key) e' stored, enough))
              (same_count-IsMemory m (addresses map ++ live) (e'.address ∷ (addresses rest ++ live))
                (λ a. sym (addresses-set map p (get_key_hash e'.key) e' live a stored)) mem') in
          (
            w',
            next fuel ∙ done,
            gone,
            kept,
            λ n. more_fuel fuel n e key w ∙ next (fuel + n) ∙ stable n ∙ sym (next fuel),
          )
    ]
