-- ===== src/Entry/Settle.antt =====
-- Where `set_locked_cache_entry` of src/entry.c writes, and lookups across the change of one slot.
use native.Mathlib.Decide.{ℕ_discrete}
use cik.Prelude.{
  ℕ, ◌%◌, ◌<◌, ◌≡◌, ◌≢◌, ◌⊎◌, inl, inr, refl, sym, ◌∙◌, ap, Bool, true, false, Option, none, some,
  length, length-set, get_elem?, get_elem?-set_self, get_elem?-set_ne, lt_of_get_elem?, set, arith,
}
use cik.Bytes.{Bytes}
use cik.Bytes.Compare.{keys_are_equal_iff}
use cik.Entry.{
  Slot, free, used, EntryMap, CacheEntry, get_key_hash, stops, probe, holds_key, accepts, settle,
  lock_and_get_cache_entry, set_locked_cache_entry,
}
use cik.Entry.Probe.{turn, hit, probe_first}
use cik.Entry.Lookup.{
  holds_key-used, lock_and_get_first, lock_and_get-eq-none_iff, lock_and_get-Found, Found, missing,
  present,
}

-- One slot replaced by another that holds the key `q` as little as it did.
module _ (map : EntryMap) (q : Bytes) (p : ℕ) (old new : Slot) (at : get_elem? map p ≡ some old)
    (was : holds_key q old ≡ false) (is : holds_key q new ≡ false) where
  same_hits :
      (x : ℕ)
      → stops (holds_key q) (get_elem? (set map p new) x) ≡ stops (holds_key q) (get_elem? map x)
  same_hits x = elim (ℕ_discrete p x) [
    | yes e ↦ rw (← e, get_elem?-set_self map p new (lt_of_get_elem? map p old at), at, was, is)
    | no n ↦ rw (get_elem?-set_ne map p x new n)
  ]

  pub lock_and_get-set :
      0 < length map → lock_and_get_cache_entry (set map p new) q ≡ lock_and_get_cache_entry map q
  lock_and_get-set size = go (lock_and_get-Found map q size)
    where
      len : length (set map p new) ≡ length map
      len = length-set map p new

      go :
          {r : Option (ℕ × CacheEntry)}
          → Found map q r
          → lock_and_get_cache_entry (set map p new) q ≡ r
      go (missing r e absent) =
          (lock_and_get-eq-none_iff (set map p new) q (rw len size)).1 (λ x. same_hits x ∙ absent x)
          ∙ sym e
      go (present r j e near eq stored same before) =
          let pos = turn (length map) (get_key_hash q % length map) j in
          let moved : get_elem? (set map p new) pos ≡ some (used (get_key_hash e.key) e) =
            get_elem?-set_ne map p pos new (λ (here : p ≡ pos).
              let hits : stops (holds_key q) (get_elem? map pos) ≡ true =
                rw stored (holds_key-used q e same) in
              cc (here, at, was, hits))
            ∙ stored in
          lock_and_get_first (set map p new) q j e (rw len near) (rw len moved) same (λ i h.
            rw len (same_hits (turn (length map) (get_key_hash q % length map) i) ∙ before i h))
          ∙ rw len (sym eq)

-- The slot that a successful set wrote: the first on the path that is free or holds the key.
pub record Settled (map : EntryMap) (e : CacheEntry) (r : EntryMap × Option CacheEntry)
    : Type 0 where
  pub j : ℕ
  pub slot : Slot
  pub near : j < length map
  pub at : get_elem? map (turn (length map) (get_key_hash e.key % length map) j) ≡ some slot
  pub accepted : accepts e slot ≡ true
  pub before : (i : ℕ) → i < j → hit (accepts e) map (get_key_hash e.key % length map) i ≡ false
  pub result : r ≡ (
    set map (turn (length map) (get_key_hash e.key % length map) j) (settle e slot).0,
    (settle e slot).1,
  )

accepted_slot :
    (stop : Slot → Bool) (o : Option Slot)
    → stops stop o ≡ true
    → (s : Slot) × (o ≡ some s) × (stop s ≡ true)
accepted_slot stop none h = ground arith
accepted_slot stop (some s) h = (s, refl, h)

pub set-Settled :
    (map : EntryMap) (e : CacheEntry) (r : EntryMap × Option CacheEntry)
    → 0 < length map
    → set_locked_cache_entry map e ≡ some r
    → Settled map e r
unfolding set_locked_cache_entry
set-Settled map e r size h =
    let slot = get_key_hash e.key % length map in
    elim (probe_first (accepts e) map slot (omega arith)) [
      | inl (nothing, misses) ↦ cc (h, nothing)
      | inr (j, near, found, hits, before) ↦
          let (s, at, accepted) = accepted_slot (accepts e) _ hits in
          record {
            j = j;
            slot = s;
            near = near;
            at = at;
            accepted = accepted;
            before = λ i q. before i (omega arith) q;
            result = some_injective (sym h ∙ run j s found at);
          }
    ]
  where
    run :
        (j : ℕ) (s : Slot)
        → probe
            (accepts e)
            map
            (get_key_hash e.key % length map)
            (length map)
            (get_key_hash e.key % length map)
          ≡ some (turn (length map) (get_key_hash e.key % length map) j)
        → get_elem? map (turn (length map) (get_key_hash e.key % length map) j) ≡ some s
        → set_locked_cache_entry map e
          ≡ some (
            set map (turn (length map) (get_key_hash e.key % length map) j) (settle e s).0,
            (settle e s).1,
          )
    run j s found at = rw (set_locked_cache_entry, found, at)

    some_injective : {x y : EntryMap × Option CacheEntry} → some x ≡ some y → x ≡ y
    some_injective q = ground arith

pub holds_key_of_accepts :
    (e : CacheEntry) (o : Option Slot)
    → stops (accepts e) o ≡ false
    → stops (holds_key e.key) o ≡ false
unfolding accepts holds_key
holds_key_of_accepts e none h = refl
holds_key_of_accepts e (some free) h = refl
holds_key_of_accepts e (some (used n x)) h = ground arith

-- What a slot that was accepted held: nothing, or an entry with the key. It is given up for `e`.
pub settle_new :
    (e : CacheEntry) (s : Slot)
    → accepts e s ≡ true
    → ((h : ℕ) (x : CacheEntry) → s ≡ used h x → x.address ≢ e.address)
    → ((settle e s).0 ≡ used (get_key_hash e.key) e)
      × (((settle e s).1 ≡ none) × (s ≡ free)
          ⊎ ((x : CacheEntry) × ((settle e s).1 ≡ some x)
              × (s ≡ used (get_key_hash x.key) x)
              × (x.key ≡ e.key)))
unfolding accepts
settle_new e free acc new = (refl, inl (refl, refl))
settle_new e (used h x) acc new =
    let apart = new h x refl in
    let same : x.key ≡ e.key = ground (arith, keys_are_equal_iff x.key e.key) in
    let hash : h ≡ get_key_hash e.key = ground arith in
    (
      ground arith,
      inr (x, ground arith, ap (λ t. used t x) (hash ∙ ap get_key_hash (sym same)), same),
    )
