-- ===== src/Stats/Unchanged.antt =====
-- The statistics of src/entry.c read the maps and leave them as they are.
use cik.Prelude.{
  ℕ, ◌+◌, ◌≡◌, inl, inr, Bool, false, Option, some, List, [], ◌∷◌, length, arith, Option-cases,
}
use cik.Entry.{Slot, free, used, EntryMap, CacheEntry, walk_slot, walk_entries}
use cik.Stats.{EntryRow, write_entry_stats_cb, write_entry_stats}
use cik.Log.Print.{key2str}

module _ {S : Type 0} (callback : CacheEntry → S → Option (Bool × S))
    (stays : (e : CacheEntry) (s : S) (b : Bool) (s' : S)
      → callback e s ≡ some (b, s')
      → b ≡ false) where
  walk_slot_unchanged :
      (slot slot' : Slot) (s s' : S) → walk_slot callback slot s ≡ some (slot', s') → slot' ≡ slot
  unfolding walk_slot
  walk_slot_unchanged free slot' s s' h = ground (arith, h)
  walk_slot_unchanged (used n e) slot' s s' h = elim (Option-cases (callback e s)) [
    | inl nothing ↦ ground (arith, h, nothing)
    | inr ((b, s₁), found) ↦ ground (arith, h, found, stays e s b s₁ found)
  ]

  -- A walk whose callback asks for no removal leaves every slot.
  pub walk_entries_unchanged :
      (map map' : EntryMap) (s s' : S) → walk_entries callback map s ≡ some (map', s') → map' ≡ map
  unfolding walk_entries
  walk_entries_unchanged [] map' s s' h = ground (arith, h)
  walk_entries_unchanged (slot ∷ map) map' s s' h =
      elim (Option-cases (walk_slot callback slot s)) [
        | inl nothing ↦ ground (arith, h, nothing)
        | inr ((slot₁, s₁), found) ↦ elim (Option-cases (walk_entries callback map s₁)) [
          | inl nothing ↦ ground (arith, h, found, nothing)
          | inr ((map₁, s₂), rest) ↦ ground (
            arith,
            h,
            found,
            rest,
            walk_slot_unchanged slot slot₁ s s₁ found,
            walk_entries_unchanged map map₁ s₁ s₂ rest,
          )
        ]
      ]

stats_cb_stays :
    (now i : ℕ) (e : CacheEntry) (rows : List EntryRow) (b : Bool) (rows' : List EntryRow)
    → write_entry_stats_cb now i e rows ≡ some (b, rows')
    → b ≡ false
unfolding write_entry_stats_cb
stats_cb_stays now i e rows b rows' h = elim (Option-cases (key2str e.key 0 (length e.key))) [
  | inl nothing ↦ ground (arith, h, nothing)
  | inr (text, found) ↦ ground (arith, h, found)
]

-- When `write_entry_stats` returns, every map is as it was.
pub write_entry_stats_unchanged :
    (now i : ℕ) (maps maps' : List EntryMap) (rows rows' : List EntryRow)
    → write_entry_stats now i maps rows ≡ some (maps', rows')
    → maps' ≡ maps
unfolding write_entry_stats
write_entry_stats_unchanged now i [] maps' rows rows' h = ground (arith, h)
write_entry_stats_unchanged now i (map ∷ maps) maps' rows rows' h =
    elim (Option-cases (walk_entries (write_entry_stats_cb now i) map rows)) [
      | inl nothing ↦ ground (arith, h, nothing)
      | inr ((map₁, rows₁), found) ↦
          elim (Option-cases (write_entry_stats now (i + 1) maps rows₁)) [
            | inl nothing ↦ ground (arith, h, found, nothing)
            | inr ((maps₁, rows₂), rest) ↦
                let same : map₁ ≡ map =
                  walk_entries_unchanged (write_entry_stats_cb now i) (stats_cb_stays now i) map
                    map₁ rows rows₁ found in
                ground (
                  arith,
                  h,
                  found,
                  rest,
                  same,
                  write_entry_stats_unchanged now (i + 1) maps maps₁ rows₁ rows₂ rest,
                )
          ]
    ]
