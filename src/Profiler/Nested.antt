-- ===== src/Profiler/Nested.antt =====
-- Nested scopes of src/profiler.c: what they should count, and a scope that was just entered.
use cik.Prelude.{
  ℕ, ◌+◌, ◌-◌, ◌%◌, ◌^◌, ◌≤◌, ◌<◌, ◌≡◌, ◌≢◌, ◌⊎◌, inl, inr, refl, sym, ◌∙◌, ap, subst, Bool, true,
  false, List, [], ◌∷◌, ◌==◌, if◌then◌else◌, arith, Bool-cases,
}
use cik.Profiler.{Profiler, index, Profilers, ProfilerData, Scopes, no_scopes, scope}
use cik.Profiler.Moves.{seen, entered, entered_self, entered_other, index_inj, same_self}

-- Profilers of the scopes around.
abbrev pub has : List Profiler → Profiler → Bool
has [] q = false
has (p ∷ ps) q = if index q == index p then true else has ps q

-- No scope is `prof_main` or stands inside one of its own kind, and each ends after it starts.
abbrev pub AreNested : List Profiler → Scopes → Type 0
AreNested around no_scopes = Unit
AreNested around (scope p enter_tick inside exit_tick behind) =
    (index p ≢ 0)
    × (has around p ≡ false)
    × (enter_tick ≤ exit_tick)
    × (exit_tick < 2 ^ 64)
    × AreNested (p ∷ around) inside
    × AreNested around behind

-- The time of the scopes that stand beside one another.
abbrev pub duration : Scopes → ℕ
duration no_scopes = 0
duration (scope p enter_tick inside exit_tick behind) = exit_tick - enter_tick + duration behind

-- How often a profiler's scopes are entered, the time from their starts to their ends, and the part
-- of it that is in scopes directly inside of them.
abbrev pub entries : Profiler → Scopes → ℕ
entries q no_scopes = 0
entries q (scope p enter_tick inside exit_tick behind) =
    (if index q == index p then 1 else 0) + entries q inside + entries q behind

abbrev pub total_time : Profiler → Scopes → ℕ
total_time q no_scopes = 0
total_time q (scope p enter_tick inside exit_tick behind) =
    (if index q == index p then exit_tick - enter_tick else 0)
    + total_time q inside
    + total_time q behind

abbrev pub inner_time : Profiler → Scopes → ℕ
inner_time q no_scopes = 0
inner_time q (scope p enter_tick inside exit_tick behind) =
    (if index q == index p then duration inside else 0) + inner_time q inside + inner_time q behind

-- A state inside of these scopes.
pub record IsInside (around : List Profiler) (s : Profilers) : Type 0 where
  pub opens : (q : Profiler) → (seen s q).is_open ≡ has around q
  pub current : (index s.current ≡ 0) ⊎ (has around s.current ≡ true)
  pub proper : (q : Profiler) → has around q ≡ true → index q ≢ 0
  pub small : (q : Profiler) → has around q ≡ true → (seen s q).num_child_ticks < 2 ^ 64

-- What the scopes leave of a scope around them: its start and its parent, and time is counted for
-- the one directly around.
abbrev pub Kept : Profiler → Scopes → Profilers → Profilers → Type 0
Kept q done s s' =
    ((seen s' q).start_tick ≡ (seen s q).start_tick)
    × ((seen s' q).parent ≡ (seen s q).parent)
    × ((seen s' q).num_child_ticks < 2 ^ 64)
    × ((seen s' q).num_child_ticks % 2 ^ 64
        ≡ ((seen s q).num_child_ticks + (if index q == index s.current then duration done else 0))
          % 2 ^ 64)

pub record Accounts (around : List Profiler) (done : Scopes) (s s' : Profilers) : Type 0 where
  pub current : s'.current ≡ s.current
  pub opens : (q : Profiler) → (seen s' q).is_open ≡ (seen s q).is_open
  pub invocations :
      (q : Profiler)
      → (seen s' q).num_invocations % 2 ^ 64
        ≡ ((seen s q).num_invocations + entries q done) % 2 ^ 64
  pub ticks :
      (q : Profiler)
      → (seen s' q).total_num_ticks % 2 ^ 64
        ≡ ((seen s q).total_num_ticks + total_time q done) % 2 ^ 64
  pub self_cost :
      (q : Profiler)
      → ((seen s' q).total_self_cost + inner_time q done) % 2 ^ 64
        ≡ ((seen s q).total_self_cost + total_time q done) % 2 ^ 64
  pub kept : (q : Profiler) → has around q ≡ true → Kept q done s s'

pub IsInside-after :
    (around : List Profiler) (done : Scopes) (s s' : Profilers)
    → IsInside around s
    → Accounts around done s s'
    → IsInside around s'
IsInside-after around done s s' i a = record {
  opens = λ q. a.opens q ∙ i.opens q;
  current = subst (λ p. (index p ≡ 0) ⊎ (has around p ≡ true)) (sym a.current) i.current;
  proper = i.proper;
  small = λ q h. (a.kept q h).2;
}

-- One scope, and those behind it.
pub Accounts-behind :
    (around : List Profiler) (p : Profiler) (e x : ℕ) (inside behind : Scopes) (s s₁ s₂ : Profilers)
    → Accounts around (scope p e inside x no_scopes) s s₁
    → Accounts around behind s₁ s₂
    → Accounts around (scope p e inside x behind) s s₂
Accounts-behind around p e x inside behind s s₁ s₂ a b = record {
  current = b.current ∙ a.current;
  opens = λ q. b.opens q ∙ a.opens q;
  invocations = λ q. omega (arith, a.invocations q, b.invocations q);
  ticks = λ q. omega (arith, a.ticks q, b.ticks q);
  self_cost = λ q. omega (arith, a.self_cost q, b.self_cost q);
  kept = λ q h.
      let (start, parent, small, child) = a.kept q h in
      let (start', parent', small', child') = b.kept q h in
      (
        start' ∙ start,
        parent' ∙ parent,
        small',
        elim (Bool-cases (index q == index s.current)) [
          | inl here ↦ ground (arith, child, child', a.current, here)
          | inr other ↦ ground (arith, child, child', a.current, other)
        ],
      );
}

-- Inside a scope that was just entered.
pub IsInside-entered :
    (around : List Profiler) (p : Profiler) (e : ℕ) (s : Profilers)
    → IsInside around s
    → index p ≢ 0
    → IsInside (p ∷ around) (entered e p s)
IsInside-entered around p e s i ne = record {
  opens = λ q. elim (Bool-cases (index q == index p)) [
    | inl same ↦
        let here : q ≡ p = index_inj q p (ground (arith, same)) in
        let there : (seen (entered e p s) q).is_open ≡ true =
          subst (λ t. (seen (entered e p s) t).is_open ≡ true) (sym here)
            (ap (λ (d : ProfilerData). d.is_open) (entered_self e p s)) in
        let listed : has (p ∷ around) q ≡ true = ground (arith, same) in there ∙ sym listed
    | inr other ↦
        let apart : index q ≢ index p = ground (arith, other) in
        ap (λ (d : ProfilerData). d.is_open) (entered_other e p q s apart)
        ∙ i.opens q
        ∙ rw (other, has) refl
  ];
  current = inr (rw (same_self (index p)) refl);
  proper = λ q h. elim (Bool-cases (index q == index p)) [
    | inl same ↦ ground (arith, same, ne)
    | inr other ↦ i.proper q (ground (arith, h, other))
  ];
  small = λ q h. elim (Bool-cases (index q == index p)) [
    | inl same ↦
        let here : q ≡ p = index_inj q p (ground (arith, same)) in
        let zero : (seen (entered e p s) q).num_child_ticks ≡ 0 =
          subst (λ t. (seen (entered e p s) t).num_child_ticks ≡ 0) (sym here)
            (ap (λ (d : ProfilerData). d.num_child_ticks) (entered_self e p s)) in
        omega (arith, zero)
    | inr other ↦
        let apart : index q ≢ index p = ground (arith, other) in
        let same : (seen (entered e p s) q).num_child_ticks ≡ (seen s q).num_child_ticks =
          ap (λ (d : ProfilerData). d.num_child_ticks) (entered_other e p q s apart) in
        omega (arith, same, i.small q (ground (arith, h, other)))
  ];
}
