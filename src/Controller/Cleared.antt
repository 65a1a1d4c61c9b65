-- ===== src/Controller/Cleared.antt =====
-- What a CLR request of src/controller.c that does not go by the tag index leaves in the maps.
use cik.Prelude.{
  ◌⊎◌, ◌↔◌, ◌<◌, subst, map, map as each, not, ℕ, ◌≡◌, inl, inr, refl, sym, ◌∙◌, ap, Bool, true,
  Option, none, some, List, [], ◌∷◌, if◌then◌else◌, arith, Bool-cases, Option-cases,
}
use cik.Entry.{Slot, free, used, EntryMap, CacheEntry, walk_slot, walk_entries}
use cik.Controller.Get.{is_expired}
use cik.Controller.Clr.{
  drop_entry, clear_all_callback, clear_old_callback, clear_non_matching_callback, matches_any,
  clear, has_tag, clear_mode_all, clear_mode_old, clear_mode_match_none,
}
use cik.Bytes.{Bytes}
use cik.Bytes.Compare.{keys_are_equal, keys_are_equal_iff}
use cik.World.{
  log_no_args, log_tags, World, Outcome, ok, stop, crash, walk_maps, walk_all_entries, and_then,
}

-- A slot once the entries that go have gone.
unfoldable pub drop_slot : (CacheEntry → Bool) → Slot → Slot
drop_slot goes free = free
drop_slot goes (used h e) = if goes e then free else used h e

module _ {S : Type 0} (callback : CacheEntry → S × World → Option (Bool × (S × World))) (given : S)
    (goes : CacheEntry → Bool)
    (decides : (e : CacheEntry) (w : World) (b : Bool) (r : S × World)
      → callback e (given, w) ≡ some (b, r)
      → (b ≡ goes e) × (r.0 ≡ given)) where
  walk_slot-drop_slot :
      (slot slot' : Slot) (s r : S × World)
      → s.0 ≡ given
      → walk_slot callback slot s ≡ some (slot', r)
      → (slot' ≡ drop_slot goes slot) × (r.0 ≡ given)
  unfolding walk_slot drop_slot
  walk_slot-drop_slot free slot' s r d h = ground (arith, d, h)
  walk_slot-drop_slot (used n e) slot' (s, w) r d h =
      let same : callback e (s, w) ≡ callback e (given, w) = ap (λ t. callback e (t, w)) d in
      elim (Option-cases (callback e (s, w))) [
        | inl nothing ↦ ground (arith, h, nothing)
        | inr ((b, r₁), found) ↦
            let (decided, kept) = decides e w b r₁ (sym same ∙ found) in
            ground (arith, h, found, decided, kept)
      ]

  walk_entries-drop_slot :
      (map map' : EntryMap) (s r : S × World)
      → s.0 ≡ given
      → walk_entries callback map s ≡ some (map', r)
      → (map' ≡ each (drop_slot goes) map) × (r.0 ≡ given)
  unfolding walk_entries
  walk_entries-drop_slot [] map' s r d h = ground (arith, d, h)
  walk_entries-drop_slot (slot ∷ map) map' s r d h =
      elim (Option-cases (walk_slot callback slot s)) [
        | inl nothing ↦ ground (arith, h, nothing)
        | inr ((slot₁, r₁), found) ↦
            let (here, d₁) = walk_slot-drop_slot slot slot₁ s r₁ d found in
            elim (Option-cases (walk_entries callback map r₁)) [
              | inl nothing ↦ ground (arith, h, found, nothing)
              | inr ((map₁, r₂), rest) ↦
                  let (later, d₂) = walk_entries-drop_slot map map₁ r₁ r₂ d₁ rest in
                  ground (arith, h, found, rest, here, later, d₂)
            ]
      ]

  walk_maps-drop_slot :
      (maps maps' : List EntryMap) (s r : S × World)
      → s.0 ≡ given
      → walk_maps callback maps s ≡ some (maps', r)
      → maps' ≡ map (map (drop_slot goes)) maps
  unfolding walk_maps
  walk_maps-drop_slot [] maps' s r d h = ground (arith, h)
  walk_maps-drop_slot (m ∷ maps) maps' s r d h = elim (Option-cases (walk_entries callback m s)) [
    | inl nothing ↦ ground (arith, h, nothing)
    | inr ((m₁, r₁), found) ↦
        let (here, d₁) = walk_entries-drop_slot m m₁ s r₁ d found in
        elim (Option-cases (walk_maps callback maps r₁)) [
          | inl nothing ↦ ground (arith, h, found, nothing)
          | inr ((maps₁, r₂), rest) ↦
              ground (arith, h, found, rest, here, walk_maps-drop_slot maps maps₁ r₁ r₂ d₁ rest)
        ]
  ]

-- The maps after a call that returns; it does not return early.
abbrev pub HasMaps : {A : Type 0} → List EntryMap → Outcome A → Type 0
HasMaps maps (ok a w) = w.maps ≡ maps
HasMaps maps (stop s w) = ⊥
HasMaps maps crash = Unit

HasMaps-returned :
    {A : Type 0} (maps : List EntryMap) (o : Outcome A)
    → HasMaps maps o
    → HasMaps maps (and_then o (λ a w. ok tt w))
HasMaps-returned maps (ok a w) h = h
HasMaps-returned maps (stop s w) h = h
HasMaps-returned maps crash h = h

walk_all_entries-HasMaps :
    {S : Type 0} (callback : CacheEntry → S × World → Option (Bool × (S × World))) (given : S)
    (goes : CacheEntry → Bool) (w : World)
    → ((e : CacheEntry) (v : World) (b : Bool) (r : S × World)
        → callback e (given, v) ≡ some (b, r)
        → (b ≡ goes e) × (r.0 ≡ given))
    → HasMaps (map (map (drop_slot goes)) w.maps) (walk_all_entries callback given w)
unfolding walk_all_entries
walk_all_entries-HasMaps callback given goes w decides =
    elim (Option-cases (walk_maps callback w.maps (given, w))) [
      | inl nothing ↦ rw (nothing, walk_all_entries) tt
      | inr ((maps', r), found) ↦
          rw (found, walk_all_entries)
            (walk_maps-drop_slot callback given goes decides w.maps maps' (given, w) r refl found)
    ]

clear_all-decides :
    {S : Type 0} (given : S) (e : CacheEntry) (w : World) (b : Bool) (r : S × World)
    → clear_all_callback e (given, w) ≡ some (b, r)
    → (b ≡ true) × (r.0 ≡ given)
unfolding clear_all_callback
clear_all-decides {S} given e w b r =
    elim (drop_entry e w)
      as (λ o.
        (elim o as (λ x. Option (Bool × (S × World))) [
          | ok a w' ↦ some (true, (given, w'))
          | stop _ w' ↦ none
          | crash ↦ none
        ]
          ≡ some (b, r))
        → (b ≡ true) × (r.0 ≡ given)) [
          | ok a w' ↦ λ h. ground (arith, h)
          | stop s w' ↦ λ h. ground (arith, h)
          | crash ↦ λ h. ground (arith, h)
        ]

clear_old-decides :
    (now : ℕ) (e : CacheEntry) (w : World) (b : Bool) (r : ℕ × World)
    → clear_old_callback e (now, w) ≡ some (b, r)
    → (b ≡ is_expired e now) × (r.0 ≡ now)
unfolding clear_old_callback
clear_old-decides now e w b r h = elim (Bool-cases (is_expired e now)) [
  | inl old ↦ ground (arith, h, old, clear_all-decides now e w b r)
  | inr fresh ↦ ground (arith, h, fresh)
]

clear_non_matching-decides :
    (tags : List Bytes) (e : CacheEntry) (w : World) (b : Bool) (r : List Bytes × World)
    → clear_non_matching_callback e (tags, w) ≡ some (b, r)
    → (b ≡ not (matches_any tags e.tags)) × (r.0 ≡ tags)
unfolding clear_non_matching_callback
clear_non_matching-decides tags e w b r h = elim (Bool-cases (matches_any tags e.tags)) [
  | inl stays ↦ ground (arith, h, stays)
  | inr leaves ↦ ground (arith, h, leaves, clear_all-decides tags e w b r)
]

-- Which entries go: all of them, those whose time is over, or those that have none of the tags.
pub data Selection : Type 0 where
  every_entry old_entries entries_without_tags : Selection

abbrev pub mode_of : Selection → ℕ
mode_of every_entry = clear_mode_all
mode_of old_entries = clear_mode_old
mode_of entries_without_tags = clear_mode_match_none

-- A tag is one of some tags.
abbrev pub IsOneOf : Bytes → List Bytes → Type 0
IsOneOf tag [] = ⊥
IsOneOf tag (other ∷ tags) = (other ≡ tag) ⊎ IsOneOf tag tags

-- What an entry is like that goes.
abbrev pub Leaves : Selection → List Bytes → ℕ → CacheEntry → Type 0
Leaves every_entry tags now e = Unit
Leaves old_entries tags now e = (t : ℕ) × (e.expires ≡ some t) × (t < now)
Leaves entries_without_tags tags now e = (tag : Bytes) → IsOneOf tag tags → ¬ IsOneOf tag e.tags

abbrev goes : Selection → List Bytes → ℕ → CacheEntry → Bool
goes every_entry tags now e = true
goes old_entries tags now e = is_expired e now
goes entries_without_tags tags now e = not (matches_any tags e.tags)

has_tag-IsOneOf :
    (want : Bytes) (haves : List Bytes) → (has_tag want haves ≡ true) ↔ IsOneOf want haves
unfolding has_tag
has_tag-IsOneOf want [] = ground arith
has_tag-IsOneOf want (have ∷ haves) =
    let here = keys_are_equal_iff want have in
    let later = has_tag-IsOneOf want haves in
    elim (Bool-cases (keys_are_equal want have)) [
      | inl same ↦
          let equal : want ≡ have = here.0 same in (λ h. inl (sym equal), λ h. rw same refl)
      | inr apart ↦ (
        λ h. inr (later.0 (ground (arith, h, apart))),
        λ h. elim h [
          | inl equal ↦
              let same : keys_are_equal want have ≡ true = here.1 (sym equal) in
              ground (arith, apart, same)
          | inr there ↦ let found = later.1 there in ground (arith, apart, found)
        ],
      )
    ]

matches_any-IsOneOf :
    (wants haves : List Bytes)
    → (matches_any wants haves ≡ true) ↔ ((tag : Bytes) × IsOneOf tag wants × IsOneOf tag haves)
unfolding matches_any
matches_any-IsOneOf [] haves = (λ h. ground (arith, h), λ (tag, none_there, has). absurd none_there)
matches_any-IsOneOf (want ∷ wants) haves =
    let here = has_tag-IsOneOf want haves in
    let later = matches_any-IsOneOf wants haves in
    elim (Bool-cases (has_tag want haves)) [
      | inl has ↦ (λ h. (want, inl refl, here.0 has), λ h. rw has refl)
      | inr lacks ↦ (
        λ h. let (tag, wanted, had) = later.0 (ground (arith, h, lacks)) in (tag, inr wanted, had),
        λ (tag, wanted, had). elim wanted [
          | inl same ↦
              let found : has_tag want haves ≡ true =
                here.1 (subst (λ t. IsOneOf t haves) (sym same) had) in
              ground (arith, lacks, found)
          | inr there ↦ let found = later.1 (tag, there, had) in ground (arith, lacks, found)
        ],
      )
    ]

goes-Leaves :
    (selection : Selection) (tags : List Bytes) (now : ℕ) (e : CacheEntry)
    → (goes selection tags now e ≡ true) ↔ Leaves selection tags now e
unfolding is_expired
goes-Leaves every_entry tags now e = (λ h. tt, λ h. refl)
goes-Leaves old_entries tags now e = elim (Option-cases e.expires) [
  | inl none_set ↦ (λ h. ground (arith, h, none_set), λ (t, at, old). ground (arith, at, none_set))
  | inr (t, at) ↦
      (λ h. (t, at, ground (arith, h, at)), λ (u, at', old). ground (arith, at, at', old))
]
goes-Leaves entries_without_tags tags now e =
    let both = matches_any-IsOneOf tags e.tags in
    elim (Bool-cases (matches_any tags e.tags)) [
      | inl some_tag ↦
          let (tag, wanted, had) = both.0 some_tag in
          (λ h. ground (arith, h, some_tag), λ h. absurd (h tag wanted had))
      | inr no_tag ↦ (
        λ h tag wanted had. let found = both.1 (tag, wanted, had) in ground (arith, no_tag, found),
        λ h. rw no_tag refl,
      )
    ]

clear-goes :
    (selection : Selection) (tags : List Bytes) (w : World)
    → HasMaps
        (map (map (drop_slot (goes selection tags w.now))) w.maps)
        (clear (mode_of selection) tags w)
unfolding clear log_no_args log_tags is_expired
clear-goes every_entry tags w = HasMaps-returned _ _ (
    walk_all_entries-HasMaps clear_all_callback tt (goes every_entry tags w.now) _
      (clear_all-decides tt))
clear-goes old_entries tags w = HasMaps-returned _ _ (
    walk_all_entries-HasMaps clear_old_callback w.now (goes old_entries tags w.now) _
      (clear_old-decides w.now))
clear-goes entries_without_tags tags w = HasMaps-returned _ _ (
    walk_all_entries-HasMaps clear_non_matching_callback tags (goes entries_without_tags tags w.now)
      _ (clear_non_matching-decides tags))

-- A CLR of everything, of what is old or of what has none of some tags does not fail early. When it
-- returns, just the entries that it is for are gone, all of them, those whose time was over or those
-- of which no tag is one of the given: every other slot of every map is as it was.
pub clear-HasMaps :
    (selection : Selection) (tags : List Bytes) (w : World)
    → (go : CacheEntry → Bool) × ((e : CacheEntry) → (go e ≡ true) ↔ Leaves selection tags w.now e)
      × HasMaps (map (map (drop_slot go)) w.maps) (clear (mode_of selection) tags w)
clear-HasMaps selection tags w =
    (goes selection tags w.now, goes-Leaves selection tags w.now, clear-goes selection tags w)
