-- ===== src/Entry/Lookup.antt =====
-- What the operations of src/entry.c do to lookups, from the probing loop.
use native.Mathlib.Decide.{dec_lt}
use mathlib.Core.Path.{ap₂}
use cik.Prelude.{
  ◌↔◌, ℕ, ◌%◌, ◌≤◌, ◌<◌, ◌≡◌, ◌≢◌, inl, inr, sym, ◌∙◌, ap, subst, Bool, true, false, Option, none,
  some, length, get_elem?, ltb, ltb→lt, get_elem?-beyond, arith, Bool-cases,
}
use cik.Bytes.{Bytes}
use cik.Bytes.Compare.{keys_are_equal_iff}
use cik.Entry.{
  Slot, free, used, EntryMap, CacheEntry, get_key_hash, stops, holds_key, lock_and_get_cache_entry,
}
use cik.Entry.Probe.{turn, steps_to, turn-steps_to, hit, probe_first}

-- The map holds this entry at this position, under the hash of its key.
abbrev pub Stored : EntryMap → ℕ → CacheEntry → Type 0
Stored map p e = get_elem? map p ≡ some (used (get_key_hash e.key) e)

-- No slot holds this key.
abbrev pub Absent : EntryMap → Bytes → Type 0
Absent map key = (p : ℕ) → stops (holds_key key) (get_elem? map p) ≡ false

-- No slot holds the entry at this address.
abbrev pub IsNew : EntryMap → CacheEntry → Type 0
IsNew map e = (p h : ℕ) (x : CacheEntry) → get_elem? map p ≡ some (used h x) → x.address ≢ e.address

pub holds_key-used :
    (key : Bytes) (e : CacheEntry)
    → e.key ≡ key
    → holds_key key (used (get_key_hash e.key) e) ≡ true
unfolding holds_key
holds_key-used key e k = ground (arith, keys_are_equal_iff e.key key, ap get_key_hash k)

pub held :
    (key : Bytes) (o : Option Slot)
    → stops (holds_key key) o ≡ true
    → (e : CacheEntry) × (o ≡ some (used (get_key_hash e.key) e)) × (e.key ≡ key)
unfolding holds_key
held key none h = ground arith
held key (some free) h = ground arith
held key (some (used n e)) h =
    let same : e.key ≡ key = ground (arith, keys_are_equal_iff e.key key) in
    let hash : n ≡ get_key_hash key = ground arith in
    (e, ap (λ t. some (used t e)) (hash ∙ ap get_key_hash (sym same)), same)

-- Two keys cannot stand in one slot.
pub holds_key_ne :
    (key q : Bytes) (s : Slot) → q ≢ key → holds_key key s ≡ true → holds_key q s ≡ false
holds_key_ne key q s ne h = elim (Bool-cases (holds_key q s)) [
  | inr other ↦ other
  | inl yes_q ↦
      let (e, at, k) = held key (some s) h in
      let (e', at', k') = held q (some s) yes_q in
      let same : e' ≡ e = cc in absurd (ne (sym k' ∙ ap (λ (x : CacheEntry). x.key) same ∙ k))
]

-- What a lookup yields: nothing, and the key is absent; or the entry at the first slot on the
-- probing path that holds the key.
pub data Found (map : EntryMap) (key : Bytes) : Option (ℕ × CacheEntry) → Type 0 where
  missing : (r : Option (ℕ × CacheEntry)) → r ≡ none → Absent map key → Found map key r
  present :
      (r : Option (ℕ × CacheEntry)) (j : ℕ) (e : CacheEntry)
      → j < length map
      → r ≡ some (turn (length map) (get_key_hash key % length map) j, e)
      → Stored map (turn (length map) (get_key_hash key % length map) j) e
      → e.key ≡ key
      → ((i : ℕ) → i < j → hit (holds_key key) map (get_key_hash key % length map) i ≡ false)
      → Found map key r

-- If no step of the loop qualifies, no slot does.
pub none_hits :
    (stop : Slot → Bool) (map : EntryMap) (slot : ℕ)
    → slot < length map
    → ((j : ℕ) → 0 ≤ j → j < length map → hit stop map slot j ≡ false)
    → (p : ℕ) → stops stop (get_elem? map p) ≡ false
none_hits stop map slot h none_hit p = elim (Bool-cases (ltb p (length map))) [
  | inl inside ↦
      let (near, lands) = turn-steps_to (length map) slot p h (ltb→lt p (length map) inside) in
      subst (λ t. stops stop (get_elem? map t) ≡ false) lands
        (none_hit (steps_to (length map) slot p) (omega arith) near)
  | inr outside ↦ rw (get_elem?-beyond map p (ground arith))
]

module _ (map : EntryMap) (key : Bytes) (size : 0 < length map) where
  pub lock_and_get-Found : Found map key (lock_and_get_cache_entry map key)
  unfolding lock_and_get_cache_entry
  lock_and_get-Found =
      let slot = get_key_hash key % length map in
      elim (probe_first (holds_key key) map slot (omega arith)) [
        | inl (nothing, misses) ↦
            missing _ (rw (lock_and_get_cache_entry, nothing))
              (none_hits (holds_key key) map slot (omega arith) misses)
        | inr (j, near, found, hits, before) ↦
            let (e, at, same) = held key _ hits in
            present _ j e near (rw (lock_and_get_cache_entry, found, at)) at same
              (λ i q. before i (omega arith) q)
      ]

-- In a map that is not empty, a lookup fails exactly if no slot holds the key, wherever the slots
-- are and whatever is free.
pub lock_and_get-eq-none_iff :
    (map : EntryMap) (key : Bytes)
    → 0 < length map
    → (lock_and_get_cache_entry map key ≡ none) ↔ Absent map key
lock_and_get-eq-none_iff map key size =
    let f = lock_and_get-Found map key size in (none_of_Found f, λ absent. absent_of_Found f absent)
  where
    none_of_Found : {r : Option (ℕ × CacheEntry)} → Found map key r → r ≡ none → Absent map key
    none_of_Found (missing r e absent) h = absent
    none_of_Found (present r j e near eq at same before) h = cc

    absent_of_Found : {r : Option (ℕ × CacheEntry)} → Found map key r → Absent map key → r ≡ none
    absent_of_Found (missing r e absent) h = e
    absent_of_Found (present r j e near eq at same before) h =
        let p = turn (length map) (get_key_hash key % length map) j in
        let hits : stops (holds_key key) (get_elem? map p) ≡ true =
          rw at (holds_key-used key e same) in
        cc (h p, hits)

-- An entry that a lookup returns stands in the map at the position that comes with it.
pub lock_and_get-Stored :
    (map : EntryMap) (key : Bytes) (p : ℕ) (e : CacheEntry)
    → 0 < length map
    → lock_and_get_cache_entry map key ≡ some (p, e)
    → Stored map p e × (e.key ≡ key)
lock_and_get-Stored map key p e size h = go (lock_and_get-Found map key size) h
  where
    go :
        {r : Option (ℕ × CacheEntry)}
        → Found map key r
        → r ≡ some (p, e)
        → Stored map p e × (e.key ≡ key)
    go (missing r eq absent) h = cc
    go (present r j x near eq at same before) h =
        let both : (turn (length map) (get_key_hash key % length map) j ≡ p) × (x ≡ e) =
          ground arith in
        (ground arith, ground arith)

-- The first slot on the probing path that holds the key is the one that a lookup returns.
pub lock_and_get_first :
    (map : EntryMap) (key : Bytes) (j : ℕ) (e : CacheEntry)
    → j < length map
    → Stored map (turn (length map) (get_key_hash key % length map) j) e
    → e.key ≡ key
    → ((i : ℕ) → i < j → hit (holds_key key) map (get_key_hash key % length map) i ≡ false)
    → lock_and_get_cache_entry map key
      ≡ some (turn (length map) (get_key_hash key % length map) j, e)
lock_and_get_first map key j e near at same before = go (lock_and_get-Found map key (omega arith))
  where
    holds_here :
        stops (holds_key key) (get_elem? map (turn (length map) (get_key_hash key % length map) j))
        ≡ true
    holds_here = rw at (holds_key-used key e same)

    go :
        {r : Option (ℕ × CacheEntry)}
        → Found map key r
        → r ≡ some (turn (length map) (get_key_hash key % length map) j, e)
    go (missing r eq absent) =
        cc (absent (turn (length map) (get_key_hash key % length map) j), holds_here)
    go (present r j' x near' eq at' same' before') = elim (dec_lt j j') [
      | yes earlier ↦ cc (before' j earlier, holds_here)
      | no later ↦ elim (dec_lt j' j) [
        | yes earlier' ↦
            let hits : hit (holds_key key) map (get_key_hash key % length map) j' ≡ true =
              rw at' (holds_key-used key x same') in
            cc (before j' earlier', hits)
        | no later' ↦
            let e₁ : j' ≡ j = omega arith in
            let e₂ : x ≡ e = cc (e₁, at, at') in
            eq ∙ ap₂ (λ t y. some (turn (length map) (get_key_hash key % length map) t, y)) e₁ e₂
      ]
    ]
