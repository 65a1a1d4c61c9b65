-- ===== src/Entry/Update.antt =====
-- Lookups after `set_locked_cache_entry` and `lock_and_unset_cache_entry` of src/entry.c.
use cik.Prelude.{
  ℕ, ◌%◌, ◌<◌, ◌≡◌, ◌≢◌, ◌⊎◌, inl, inr, refl, sym, ◌∙◌, ap, false, Option, none, some, length,
  length-set, get_elem?, get_elem?-set_self, get_elem?-set_ne, set, arith, Option-cases,
}
use cik.Entry.Settle.{lock_and_get-set, Settled, set-Settled, holds_key_of_accepts, settle_new}
use cik.Bytes.{Bytes}
use cik.Entry.{
  Slot, free, used, EntryMap, CacheEntry, get_key_hash, stops, holds_key, find_key, entry_at,
  accepts, settle, lock_and_get_cache_entry, lock_and_unset_cache_entry, set_locked_cache_entry,
}
use cik.Entry.Probe.{turn, turn-lt, turn_injective, hit, probe_first}
use cik.Entry.Lookup.{
  lock_and_get-Stored, IsNew, holds_key-used, held, holds_key_ne, lock_and_get_first,
}

module _ (map : EntryMap) (e : CacheEntry) (j : ℕ) (near : j < length map) where
  abbrev target : ℕ
  target = turn (length map) (get_key_hash e.key % length map) j

  abbrev written : EntryMap
  written = set map target (used (get_key_hash e.key) e)

  len : length written ≡ length map
  len = length-set map target (used (get_key_hash e.key) e)

  written_self : get_elem? written target ≡ some (used (get_key_hash e.key) e)
  written_self =
      get_elem?-set_self map target (used (get_key_hash e.key) e)
        (turn-lt (length map) (get_key_hash e.key % length map) j (omega arith) near)

  module _
      (before : (i : ℕ)
        → i < j
        → hit (accepts e) map (get_key_hash e.key % length map) i ≡ false) where
    missed_before :
        (i : ℕ)
        → i < j
        → stops
            (holds_key e.key)
            (get_elem? written (turn (length map) (get_key_hash e.key % length map) i))
          ≡ false
    missed_before i h =
        rw
          (get_elem?-set_ne map target (turn (length map) (get_key_hash e.key % length map) i)
            (used (get_key_hash e.key) e)
            (λ same. absurd (
              omega (
                arith,
                turn_injective (length map) (get_key_hash e.key % length map) j i (omega arith) near
                    (omega arith) same,
              ))))
          (holds_key_of_accepts e _ (before i h))

    lock_and_get-written : lock_and_get_cache_entry written e.key ≡ some (target, e)
    lock_and_get-written =
        lock_and_get_first written e.key j e (rw len near) (rw len written_self) refl
          (λ i h. rw len (missed_before i h))
        ∙ rw len refl

set_locked-both :
    (map map' : EntryMap) (e : CacheEntry) (old : Option CacheEntry)
    → 0 < length map
    → IsNew map e
    → set_locked_cache_entry map e ≡ some (map', old)
    → (p : ℕ) × (lock_and_get_cache_entry map' e.key ≡ some (p, e))
      × ((x : CacheEntry)
          → old ≡ some x
          → (x.key ≡ e.key) × (lock_and_get_cache_entry map e.key ≡ some (p, x)))
set_locked-both map map' e old size new h =
    let s = set-Settled map e (map', old) size h in
    let n = length map in
    let slot = get_key_hash e.key % n in
    let p = turn n slot s.j in
    let (now_e, was) = settle_new e s.slot s.accepted (λ k x q. new p k x (s.at ∙ ap some q)) in
    let map_eq : map' ≡ written map e s.j s.near =
      ap (λ (t : EntryMap × Option CacheEntry). t.0) s.result ∙ ap (λ t. set map p t) now_e in
    let old_eq : old ≡ (settle e s.slot).1 =
      ap (λ (t : EntryMap × Option CacheEntry). t.1) s.result in
    (
      p,
      rw map_eq (lock_and_get-written map e s.j s.near s.before),
      λ x q. replaced s was x (sym old_eq ∙ q),
    )
  where
    replaced :
        (s : Settled map e (map', old))
        → (((settle e s.slot).1 ≡ none) × (s.slot ≡ free)
            ⊎ ((x : CacheEntry) × ((settle e s.slot).1 ≡ some x)
                × (s.slot ≡ used (get_key_hash x.key) x)
                × (x.key ≡ e.key)))
        → (x : CacheEntry) → (settle e s.slot).1 ≡ some x
        → (x.key ≡ e.key)
          × (lock_and_get_cache_entry map e.key
              ≡ some (turn (length map) (get_key_hash e.key % length map) s.j, x))
    replaced s (inl (nothing, was_free)) x q = cc (nothing, q)
    replaced s (inr (x', taken, stood, same)) x q =
        let x_eq : x' ≡ x = ground arith in
        let key_eq : x.key ≡ e.key = ap (λ (t : CacheEntry). t.key) (sym x_eq) ∙ same in
        (
          key_eq,
          lock_and_get_first map e.key s.j x s.near
              (s.at ∙ ap some (stood ∙ ap (λ (t : CacheEntry). used (get_key_hash t.key) t) x_eq))
              key_eq (λ i h. holds_key_of_accepts e _ (s.before i h)),
        )

-- After a set that succeeds, in a map that is not empty and of an entry whose address is not in it
-- yet, a lookup of its key
-- returns that entry.
pub lock_and_get-set_locked :
    (map map' : EntryMap) (e : CacheEntry) (old : Option CacheEntry)
    → 0 < length map
    → IsNew map e
    → set_locked_cache_entry map e ≡ some (map', old)
    → (p : ℕ) × (lock_and_get_cache_entry map' e.key ≡ some (p, e))
lock_and_get-set_locked map map' e old size new h =
    let (p, found, was) = set_locked-both map map' e old size new h in (p, found)

-- An entry that such a set hands back as the old one has the same key, and is the one that a lookup
-- returned before the set, from the slot that holds the new entry after it.
pub set_locked_old :
    (map map' : EntryMap) (e x : CacheEntry)
    → 0 < length map
    → IsNew map e
    → set_locked_cache_entry map e ≡ some (map', some x)
    → (x.key ≡ e.key)
      × ((p : ℕ) × (lock_and_get_cache_entry map e.key ≡ some (p, x))
          × (lock_and_get_cache_entry map' e.key ≡ some (p, e)))
set_locked_old map map' e x size new h =
    let (p, found, was) = set_locked-both map map' e (some x) size new h in
    let (same, before) = was x refl in (same, (p, before, found))

-- A set that succeeds, in a map that is not empty and of an entry whose address is not in it yet,
-- leaves the lookups of all
-- other keys as they were.
pub lock_and_get-set_locked_ne :
    (map map' : EntryMap) (e : CacheEntry) (old : Option CacheEntry) (q : Bytes)
    → 0 < length map
    → IsNew map e
    → q ≢ e.key
    → set_locked_cache_entry map e ≡ some (map', old)
    → lock_and_get_cache_entry map' q ≡ lock_and_get_cache_entry map q
lock_and_get-set_locked_ne map map' e old q size new ne h =
    let s = set-Settled map e (map', old) size h in
    let p = turn (length map) (get_key_hash e.key % length map) s.j in
    let (now_e, was) = settle_new e s.slot s.accepted (λ k x r. new p k x (s.at ∙ ap some r)) in
    let map_eq : map' ≡ set map p (used (get_key_hash e.key) e) =
      ap (λ (t : EntryMap × Option CacheEntry). t.0) s.result ∙ ap (λ t. set map p t) now_e in
    rw map_eq (
      lock_and_get-set map q p s.slot (used (get_key_hash e.key) e) s.at (before_ne s.slot was)
        (holds_key_ne e.key q _ ne (holds_key-used e.key e refl)) size)
  where
    before_ne :
        (s : Slot)
        → (((settle e s).1 ≡ none) × (s ≡ free)
            ⊎ ((x : CacheEntry) × ((settle e s).1 ≡ some x)
                × (s ≡ used (get_key_hash x.key) x)
                × (x.key ≡ e.key)))
        → holds_key q s ≡ false
    before_ne s (inl (nothing, was_free)) = rw was_free (unfold holds_key in refl)
    before_ne s (inr (x, taken, stood, same)) =
        rw stood (holds_key_ne e.key q _ ne (holds_key-used e.key x same))

-- In a map that is not empty, an unset takes the entry that a lookup would return, and frees its slot.
pub lock_and_unset-lock_and_get :
    (map : EntryMap) (key : Bytes)
    → 0 < length map
    → lock_and_unset_cache_entry map key ≡ (elim (lock_and_get_cache_entry map key) [
      | none ↦ (none, map)
      | some (p, e) ↦ (some e, set map p free)
    ])
unfolding lock_and_unset_cache_entry lock_and_get_cache_entry
lock_and_unset-lock_and_get map key size =
    let slot = get_key_hash key % length map in
    elim (probe_first (holds_key key) map slot (omega arith)) [
      | inl (nothing, misses) ↦ rw (lock_and_unset_cache_entry, lock_and_get_cache_entry, nothing)
      | inr (j, near, found, hits, before) ↦ let (e, at, same) = held key _ hits in run j e found at
    ]
  where
    run :
        (j : ℕ) (e : CacheEntry)
        → find_key map key ≡ some (turn (length map) (get_key_hash key % length map) j)
        → get_elem? map (turn (length map) (get_key_hash key % length map) j)
          ≡ some (used (get_key_hash e.key) e)
        → lock_and_unset_cache_entry map key ≡ (elim (lock_and_get_cache_entry map key) [
          | none ↦ (none, map)
          | some (p, x) ↦ (some x, set map p free)
        ])
    run j e found at =
        let entry : entry_at map (turn (length map) (get_key_hash key % length map) j) ≡ some e =
          rw (at, entry_at) refl in
        rw (lock_and_unset_cache_entry, lock_and_get_cache_entry, found, entry)

-- In a map that is not empty, an unset leaves the lookups of all other keys as they were.
pub lock_and_get-lock_and_unset_ne :
    (map : EntryMap) (key q : Bytes)
    → 0 < length map
    → q ≢ key
    → lock_and_get_cache_entry (lock_and_unset_cache_entry map key).1 q
      ≡ lock_and_get_cache_entry map q
lock_and_get-lock_and_unset_ne map key q size ne =
    rw (lock_and_unset-lock_and_get map key size)
      (elim (Option-cases (lock_and_get_cache_entry map key)) [
        | inl nothing ↦ rw nothing
        | inr ((p, e), found) ↦
            let (at, same) = lock_and_get-Stored map key p e size found in
            rw found (
              lock_and_get-set map q p _ free at
                (holds_key_ne key q _ ne (holds_key-used key e same)) (unfold holds_key in refl)
                size)
      ])
