-- ===== src/Entry/Walk.antt =====
-- What a walk over the entries of src/entry.c keeps of its data.
use cik.Prelude.{
  ◌≡◌, inl, inr, refl, subst, Bool, Option, none, some, [], ◌∷◌, if◌then◌else◌, arith, Option-cases,
}
use cik.Entry.{Slot, free, used, EntryMap, CacheEntry, walk_slot, walk_entries}

module _ {S : Type 0} (P : S → Type 0) (callback : CacheEntry → S → Option (Bool × S))
    (keeps : (e : CacheEntry) (s : S) (b : Bool) (s' : S)
      → callback e s ≡ some (b, s')
      → P s
      → P s') where
  walk_slot-keeps :
      (slot slot' : Slot) (s s' : S) → walk_slot callback slot s ≡ some (slot', s') → P s → P s'
  unfolding walk_slot
  walk_slot-keeps free slot' s s' h p = let same : s ≡ s' = ground arith in subst P same p
  walk_slot-keeps (used n e) slot' s s' h p = elim (Option-cases (callback e s)) [
    | inl nothing ↦
        let crashed : walk_slot callback (used n e) s ≡ none = rw (nothing, walk_slot) refl in cc
    | inr ((b, s₁), found) ↦
        let done : walk_slot callback (used n e) s ≡ some (if b then free else used n e, s₁) =
          rw (found, walk_slot) refl in
        let same : s₁ ≡ s' = cc in subst P same (keeps e s b s₁ found p)
  ]

  -- A property of the data that the callback keeps holds after the walk.
  pub walk_entries-keeps :
      (map map' : EntryMap) (s s' : S) → walk_entries callback map s ≡ some (map', s') → P s → P s'
  unfolding walk_entries
  walk_entries-keeps [] map' s s' h p = let same : s ≡ s' = cc in subst P same p
  walk_entries-keeps (slot ∷ map) map' s s' h p = elim (Option-cases (walk_slot callback slot s)) [
    | inl nothing ↦
        let crashed : walk_entries callback (slot ∷ map) s ≡ none =
          rw (nothing, walk_entries) refl in
        cc
    | inr ((slot₁, s₁), found) ↦ elim (Option-cases (walk_entries callback map s₁)) [
      | inl nothing ↦
          let crashed : walk_entries callback (slot ∷ map) s ≡ none =
            rw (found, walk_entries) (rw nothing refl) in
          cc
      | inr ((map₂, s₂), rest) ↦
          let done : walk_entries callback (slot ∷ map) s ≡ some (slot₁ ∷ map₂, s₂) =
            rw (found, walk_entries) (rw rest refl) in
          let same : s₂ ≡ s' = cc in
          subst P same
            (walk_entries-keeps map map₂ s₁ s₂ rest (walk_slot-keeps slot slot₁ s s₁ found p))
    ]
  ]
