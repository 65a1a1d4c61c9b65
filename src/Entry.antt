-- ===== src/Entry.antt =====
-- The open-addressing hash map of src/entry.c. A slot's mask, hash and entry pointer are always
-- written together, so a slot is free, or used with a hash and an entry. The spin locks on slots
-- and entries are not modelled: requests are served one at a time.
pub mod Probe
pub mod Lookup
pub mod Settle
pub mod Update
pub mod Walk
use cik.Prelude.{
  ℕ, zero, suc, ◌+◌, ◌*◌, ◌%◌, ◌^◌, Bool, true, false, List, [], ◌∷◌, Option, none, some, length,
  get_elem?, set, replicate, ltb, bit_xor, ◌==◌, if◌then◌else◌,
}
use cik.Bytes.{Bytes}
use cik.Bytes.Compare.{keys_are_equal}

-- `address` is the bucket that holds the entry, by which the code tells entries apart. `expires`
-- is `none` for `CACHE_EXPIRES_INIT`, (time_t) -1.
pub record CacheEntry : Type 0 where
  pub address : ℕ
  pub key : Bytes
  pub tags : List Bytes
  pub value : Bytes
  pub mtime : ℕ
  pub expires : Option ℕ
  pub nhits : ℕ

pub data Slot : Type 0 where
  free : Slot
  used : ℕ → CacheEntry → Slot

abbrev pub EntryMap : Type 0
EntryMap = List Slot

-- `CACHE_ENTRY_INIT`.
abbrev pub cache_entry_init : ℕ → ℕ → CacheEntry
cache_entry_init address now = record {
  address = address;
  key = [];
  tags = [];
  value = [];
  mtime = now;
  expires = none;
  nhits = 0;
}

hash_loop : ℕ → Bytes → ℕ
hash_loop hash [] = hash
hash_loop hash (b ∷ bs) = hash_loop (bit_xor ((hash * 32 % 2 ^ 32 + hash) % 2 ^ 32) b) bs

unfoldable pub get_hash : Bytes → ℕ
unfolding hash_loop
get_hash bs = hash_loop 5381 bs

unfoldable pub get_key_hash : Bytes → ℕ
unfolding get_hash
get_key_hash key = get_hash key

-- `size` is `CACHE_ENTRY_MAP_SIZE`.
unfoldable pub init_cache_entry_map : ℕ → EntryMap
init_cache_entry_map size = replicate size free

unfoldable pub cmp_keys : Bytes → Bytes → Bool
unfolding keys_are_equal
cmp_keys a b = keys_are_equal a b

-- `++pos; if (pos >= CACHE_ENTRY_MAP_SIZE) pos = 0`.
unfoldable pub next_pos : ℕ → ℕ → ℕ
next_pos size pos = if ltb (pos + 1) size then pos + 1 else 0

abbrev pub stops : (Slot → Bool) → Option Slot → Bool
stops stop none = false
stops stop (some s) = stop s

-- The do-while loop that the three operations share: from `pos` on, round the map, to the first
-- slot at which `stop` holds; `none` if `slot` comes round again. The map's size is fuel enough.
unfoldable pub probe : (Slot → Bool) → EntryMap → ℕ → ℕ → ℕ → Option ℕ
unfolding next_pos
probe stop map slot zero pos = none
probe stop map slot (suc fuel) pos = elim (stops stop (get_elem? map pos)) [
  | true ↦ some pos
  | false ↦
      let pos' = next_pos (length map) pos in
      elim (pos' == slot) [ true ↦ none | false ↦ probe stop map slot fuel pos' ]
]

-- The slot is used, with this hash and this key.
unfoldable pub holds_key : Bytes → Slot → Bool
unfolding cmp_keys
holds_key key free = false
holds_key key (used h e) = if h == get_key_hash key then cmp_keys e.key key else false

unfoldable pub find_key : EntryMap → Bytes → Option ℕ
unfolding probe
find_key map key =
    let slot = get_key_hash key % length map in probe (holds_key key) map slot (length map) slot

abbrev pub entry_at : EntryMap → ℕ → Option CacheEntry
entry_at map pos = elim (get_elem? map pos) [
  | none ↦ none
  | some s ↦ elim s [ free ↦ none | used h e ↦ some e ]
]

-- The entry comes with its position, through which the caller writes to it.
unfoldable pub lock_and_get_cache_entry : EntryMap → Bytes → Option (ℕ × CacheEntry)
unfolding find_key
lock_and_get_cache_entry map key = elim (find_key map key) [
  | none ↦ none
  | some pos ↦ elim (entry_at map pos) [ none ↦ none | some e ↦ some (pos, e) ]
]

-- A write to the entry that stands at a position.
unfoldable pub write_entry : EntryMap → ℕ → CacheEntry → EntryMap
write_entry map pos e = set map pos (used (get_key_hash e.key) e)

unfoldable pub lock_and_unset_cache_entry : EntryMap → Bytes → Option CacheEntry × EntryMap
unfolding find_key
lock_and_unset_cache_entry map key = elim (find_key map key) [
  | none ↦ (none, map)
  | some pos ↦ (entry_at map pos, set map pos free)
]

-- The loop of `set_locked_cache_entry` stops at a free slot, at the entry itself, or at an
-- occupant with its key.
unfoldable pub accepts : CacheEntry → Slot → Bool
unfolding cmp_keys
accepts entry free = true
accepts entry (used h e) =
    if h == get_key_hash entry.key
    then (if e.address == entry.address then true else cmp_keys e.key entry.key)
    else false

-- What the call does with the slot that it stopped at: the new slot and `*old_entry`.
abbrev pub settle : CacheEntry → Slot → Slot × Option CacheEntry
settle entry free = (used (get_key_hash entry.key) entry, none)
settle entry (used h e) =
    if e.address == entry.address
    then (used h e, none)
    else (used (get_key_hash entry.key) entry, some e)

-- `none` is the result false; else the map, and the entry that was replaced.
unfoldable pub set_locked_cache_entry :
    EntryMap → CacheEntry → Option (EntryMap × Option CacheEntry)
unfolding probe accepts
set_locked_cache_entry map entry =
    let slot = get_key_hash entry.key % length map in
    elim (probe (accepts entry) map slot (length map) slot) [
      | none ↦ none
      | some pos ↦ elim (get_elem? map pos) [
        | none ↦ none
        | some s ↦ some (set map pos (settle entry s).0, (settle entry s).1)
      ]
    ]

module _ {S : Type 0} (callback : CacheEntry → S → Option (Bool × S)) where
  -- The callback's result true unsets the slot. `none` is a crash in the callback.
  unfoldable pub walk_slot : Slot → S → Option (Slot × S)
  walk_slot free s = some (free, s)
  walk_slot (used h e) s = elim (callback e s) [
    | none ↦ none
    | some (unset, s') ↦ some ((if unset then free else used h e), s')
  ]

  unfoldable pub walk_entries : EntryMap → S → Option (EntryMap × S)
  unfolding walk_slot
  walk_entries [] s = some ([], s)
  walk_entries (slot ∷ slots) s = elim (walk_slot slot s) [
    | none ↦ none
    | some (slot', s') ↦ elim (walk_entries slots s') [
      | none ↦ none
      | some (slots', s'') ↦ some (slot' ∷ slots', s'')
    ]
  ]
