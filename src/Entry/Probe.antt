-- ===== src/Entry/Probe.antt =====
-- The probing loop of src/entry.c visits every slot once, from the hash's slot on, and stops at the
-- first that qualifies. Position `turn n slot j` is the one after `j` steps.
use cik.Prelude.{
  ℕ, zero, suc, ◌+◌, ◌-◌, ◌≤◌, ◌<◌, ◌≡◌, ◌⊎◌, inl, inr, refl, Bool, true, false, Option, none, some,
  length, get_elem?, ltb, ◌==◌, subst, if◌then◌else◌, arith, Bool-cases,
}
use cik.Entry.{Slot, EntryMap, next_pos, stops, probe}

abbrev pub turn : ℕ → ℕ → ℕ → ℕ
turn n slot j = if ltb (slot + j) n then slot + j else slot + j - n

-- The number of steps to a position.
abbrev pub steps_to : ℕ → ℕ → ℕ → ℕ
steps_to n slot p = if ltb p slot then p + n - slot else p - slot

pub turn-steps_to :
    (n slot p : ℕ)
    → slot < n
    → p < n
    → (steps_to n slot p < n) × (turn n slot (steps_to n slot p) ≡ p)
turn-steps_to n slot p h k = ground arith

next_pos-turn :
    (n slot j : ℕ)
    → slot < n
    → suc j < n
    → (next_pos n (turn n slot j) ≡ turn n slot (suc j)) × ((turn n slot (suc j) == slot) ≡ false)
unfolding next_pos
next_pos-turn n slot j h k = ground arith

next_pos_last : (n slot j : ℕ) → slot < n → suc j ≡ n → (next_pos n (turn n slot j) == slot) ≡ true
unfolding next_pos
next_pos_last n slot j h k = ground arith

module _ (stop : Slot → Bool) (map : EntryMap) (slot : ℕ) where
  -- Whether the slot after `j` steps qualifies.
  abbrev pub hit : ℕ → Bool
  hit j = stops stop (get_elem? map (turn (length map) slot j))

  -- The loop's result after `k` steps: nothing from there on, or the first hit.
  abbrev pub Probed : ℕ → Option ℕ → Type 0
  Probed k r =
      ((r ≡ none) × ((j : ℕ) → k ≤ j → j < length map → hit j ≡ false))
      ⊎ ((j : ℕ) × (j < length map)
          × (r ≡ some (turn (length map) slot j))
          × (hit j ≡ true)
          × ((i : ℕ) → k ≤ i → i < j → hit i ≡ false))

  module _ (fuel pos : ℕ) where
    probe_hit :
        stops stop (get_elem? map pos) ≡ true → probe stop map slot (suc fuel) pos ≡ some pos
    unfolding probe
    probe_hit e = rw (e, probe)

    probe_last :
        stops stop (get_elem? map pos) ≡ false
        → (next_pos (length map) pos == slot) ≡ true
        → probe stop map slot (suc fuel) pos ≡ none
    unfolding probe
    probe_last e f = rw (e, probe) (rw f)

    probe_next :
        stops stop (get_elem? map pos) ≡ false
        → (next_pos (length map) pos == slot) ≡ false
        → probe stop map slot (suc fuel) pos ≡ probe stop map slot fuel (next_pos (length map) pos)
    unfolding probe
    probe_next e f = rw (e, probe) (rw f)

  Probed-hit : (k : ℕ) → k < length map → hit k ≡ true → Probed k (some (turn (length map) slot k))
  Probed-hit k h e = inr (k, h, refl, e, λ i p q. absurd (omega arith))

  Probed-step : (k : ℕ) (r : Option ℕ) → hit k ≡ false → Probed (suc k) r → Probed k r
  Probed-step k r e (inl (none_found, rest)) = inl (
    none_found,
    λ j p q. elim (Bool-cases (j == k)) [
      | inl same ↦ subst (λ t. hit t ≡ false) (ground arith) e
      | inr differ ↦ rest j (ground arith) q
    ],
  )
  Probed-step k r e (inr (j, h, found, qualifies, before)) = inr (
    j,
    h,
    found,
    qualifies,
    λ i p q. elim (Bool-cases (i == k)) [
      | inl same ↦ subst (λ t. hit t ≡ false) (ground arith) e
      | inr differ ↦ before i (ground arith) q
    ],
  )

  probe-Probed :
      (fuel k : ℕ)
      → slot < length map
      → suc fuel + k ≡ length map
      → Probed k (probe stop map slot (suc fuel) (turn (length map) slot k))
  probe-Probed zero k h e = elim (Bool-cases (hit k)) [
    | inl found ↦ rw (probe_hit 0 _ found) (Probed-hit k (omega arith) found)
    | inr missed ↦
        rw (probe_last 0 _ missed (next_pos_last (length map) slot k h (omega arith)))
          (Probed-step k none missed (inl (refl, λ j p q. absurd (omega arith))))
  ]
  probe-Probed (suc fuel) k h e = elim (Bool-cases (hit k)) [
    | inl found ↦ rw (probe_hit (suc fuel) _ found) (Probed-hit k (omega arith) found)
    | inr missed ↦
        let (next, apart) = next_pos-turn (length map) slot k h (omega arith) in
        rw (probe_next (suc fuel) _ missed (rw next apart), next)
          (Probed-step k _ missed (probe-Probed fuel (suc k) h (omega arith)))
  ]

  -- The whole loop, with the size of the map as fuel: it finds the first slot that qualifies.
  pub probe_first : slot < length map → Probed 0 (probe stop map slot (length map) slot)
  probe_first h =
      let size : suc (length map - 1) ≡ length map = omega arith in
      let start : turn (length map) slot 0 ≡ slot = ground arith in
      subst (λ t. Probed 0 (probe stop map slot t slot)) size
        (subst (λ t. Probed 0 (probe stop map slot (suc (length map - 1)) t)) start
          (probe-Probed (length map - 1) 0 h (omega arith)))

-- The loop depends on the map only through which slots qualify.
pub probe_congr :
    (stop : Slot → Bool) (map map' : EntryMap) (slot fuel pos : ℕ)
    → length map ≡ length map'
    → ((p : ℕ) → stops stop (get_elem? map p) ≡ stops stop (get_elem? map' p))
    → probe stop map slot fuel pos ≡ probe stop map' slot fuel pos
unfolding probe
probe_congr stop map map' slot zero pos len same = refl
probe_congr stop map map' slot (suc fuel) pos len same =
    let ih = probe_congr stop map map' slot fuel (next_pos (length map) pos) len same in
    ground (arith, same pos, ih, len)

pub turn_injective :
    (n slot i j : ℕ) → slot < n → i < n → j < n → turn n slot i ≡ turn n slot j → i ≡ j
turn_injective n slot i j h hi hj e = ground arith

pub turn-lt : (n slot j : ℕ) → slot < n → j < n → turn n slot j < n
turn-lt n slot j h k = ground arith
