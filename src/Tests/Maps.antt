-- ===== src/Tests/Maps.antt =====
-- Witnesses for the entry maps.
use cik.Prelude.{
  ℕ, zero, suc, ◌<◌, ◌≡◌, ◌≢◌, ◌↔◌, refl, ap, subst, none, some, [], ◌∷◌, length, set, arith,
}
use cik.World.{World, ok, null_payload}
use cik.Bytes.{Bytes}
use cik.Entry.{used, get_key_hash, lock_and_get_cache_entry, set_locked_cache_entry}
use cik.Entry.Lookup.{IsNew, Absent, lock_and_get-eq-none_iff}
use cik.Controller.Set.{install}
use cik.Controller.Stored.{HasMapsFor, lookup, lookup-install, lookup-install_ne}
use cik.Tests.Data.{empty_map, key_a, key_b, entry_a, map_a, empty_map-IsNew, world}

keys_differ : key_b ≢ key_a
keys_differ h = absurd (omega (arith, ap head h))
  where
    head : Bytes → ℕ
    head [] = 0
    head (b ∷ bs) = b

lock_and_get-eq-none_iff_example :
    (lock_and_get_cache_entry map_a key_b ≡ none) ↔ Absent map_a key_b
lock_and_get-eq-none_iff_example = lock_and_get-eq-none_iff map_a key_b (omega arith)

set_empty : set_locked_cache_entry empty_map (entry_a 100) ≡ some (map_a, none)
unfolding set_locked_cache_entry get_key_hash
set_empty = refl

set_again :
    set_locked_cache_entry map_a (entry_a 200)
    ≡ some (set map_a 0 (used (get_key_hash key_a) (entry_a 200)), some (entry_a 100))
unfolding set_locked_cache_entry get_key_hash
set_again = refl

abbrev before : World
before = world (empty_map ∷ []) [] [] null_payload

abbrev after : World
after = world (map_a ∷ []) [] [] null_payload

before-HasMapsFor : HasMapsFor (entry_a 100) before
before-HasMapsFor zero map h =
    let same : empty_map ≡ map = ground arith in
    subst (λ t. (0 < length t) × IsNew t (entry_a 100)) same
      (omega arith, empty_map-IsNew (entry_a 100))
before-HasMapsFor (suc i) map h = cc

installed : install (entry_a 100) before ≡ ok tt after
unfolding install get_key_hash set_locked_cache_entry
installed = refl

lookup-install_example : (p : ℕ) × (lookup after key_a ≡ some (p, entry_a 100))
lookup-install_example = lookup-install (entry_a 100) before after before-HasMapsFor installed

lookup-install_ne_example : lookup after key_b ≡ lookup before key_b
lookup-install_ne_example =
    lookup-install_ne (entry_a 100) before after key_b before-HasMapsFor keys_differ installed
