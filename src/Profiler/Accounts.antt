-- ===== src/Profiler/Accounts.antt =====
-- The counters of src/profiler.c against nested scopes.
use cik.Prelude.{
  ℕ, ◌^◌, ◌≤◌, ◌<◌, ◌≡◌, ◌≢◌, inl, inr, refl, sym, ◌∙◌, ap, subst, false, some, List, ◌∷◌, arith,
}
use cik.Profiler.{Profiler, index, Profilers, ProfilerData, Scopes, no_scopes, scope, profile}
use cik.Profiler.Moves.{seen, entered, enter-entered, left, index_inj}
use cik.Profiler.Nested.{
  has, AreNested, IsInside, Accounts, IsInside-after, Accounts-behind, IsInside-entered,
}
use cik.Profiler.Exits.{
  Own, Around, Apart, parent, exit-ends, places, child, small_child, inside_itself,
}

-- A scope behind its exit: `s` is the state before it, `s₂` the one before its exit.
module _ (around : List Profiler) (p : Profiler) (e x : ℕ) (inside : Scopes) (s s₂ : Profilers)
    (i : IsInside around s) (ne : index p ≢ 0) (outside : has around p ≡ false) (le : e ≤ x)
    (lt : x < 2 ^ 64) (b : Accounts (p ∷ around) inside (entered e p s) s₂) where
  scope-Accounts : Accounts around (scope p e inside x no_scopes) s (left x p s₂)
  unfolding Own Around Apart
  scope-Accounts = record {
    current = parent around p e x inside s s₂ i ne outside le lt b;
    opens = λ q. elim (places around p e x inside s s₂ i ne outside le lt b q) [
      | inl (own, before, after) ↦
          let here : q ≡ p = index_inj q p (ground (arith, own)) in
          let closed_now = ap (λ (d : ProfilerData). d.is_open) after in
          closed_now
          ∙ sym (subst (λ t. (seen s t).is_open ≡ false) (sym here) (i.opens p ∙ outside))
      | inr (inl (other, there, before, after)) ↦
          ap (λ (d : ProfilerData). d.is_open) after
          ∙ b.opens q
          ∙ ap (λ (d : ProfilerData). d.is_open) before
      | inr (inr (other, far, before, after)) ↦
          ap (λ (d : ProfilerData). d.is_open) after
          ∙ b.opens q
          ∙ ap (λ (d : ProfilerData). d.is_open) before
    ];
    invocations = λ q.
        let field = λ (d : ProfilerData). d.num_invocations in
        elim (places around p e x inside s s₂ i ne outside le lt b q) [
          | inl (own, before, after) ↦
              ground (arith, own, ap field before, ap field after, b.invocations q)
          | inr (inl (other, there, before, after)) ↦
              ground (arith, other, ap field before, ap field after, b.invocations q)
          | inr (inr (other, far, before, after)) ↦
              ground (arith, other, ap field before, ap field after, b.invocations q)
        ];
    ticks = λ q.
        let field = λ (d : ProfilerData). d.total_num_ticks in
        elim (places around p e x inside s s₂ i ne outside le lt b q) [
          | inl (own, before, after) ↦
              ground (arith, own, ap field before, ap field after, b.ticks q)
          | inr (inl (other, there, before, after)) ↦
              ground (arith, other, ap field before, ap field after, b.ticks q)
          | inr (inr (other, far, before, after)) ↦
              ground (arith, other, ap field before, ap field after, b.ticks q)
        ];
    self_cost = λ q.
        let field = λ (d : ProfilerData). d.total_self_cost in
        elim (places around p e x inside s s₂ i ne outside le lt b q) [
          | inl (own, before, after) ↦ ground (
            arith,
            own,
            ap field before,
            ap field after,
            b.self_cost q,
            small_child around p e x inside s s₂ i ne outside le lt b q own,
            child around p e x inside s s₂ i ne outside le lt b q own,
          )
          | inr (inl (other, there, before, after)) ↦
              ground (arith, other, ap field before, ap field after, b.self_cost q)
          | inr (inr (other, far, before, after)) ↦
              ground (arith, other, ap field before, ap field after, b.self_cost q)
        ];
    kept = λ q h. elim (places around p e x inside s s₂ i ne outside le lt b q) [
      | inl (own, before, after) ↦
          absurd (inside_itself around p e x inside s s₂ i ne outside le lt b q own h)
      | inr (inl (other, there, before, after)) ↦
          let (start', parent', small', child') = b.kept q (ground (arith, other, h)) in
          let old = ap (λ (d : ProfilerData). d.num_child_ticks) before in
          let new = ap (λ (d : ProfilerData). d.num_child_ticks) after in
          (
            ap (λ (d : ProfilerData). d.start_tick) after
                ∙ start'
                ∙ ap (λ (d : ProfilerData). d.start_tick) before,
            ap (λ (d : ProfilerData). d.parent) after
                ∙ parent'
                ∙ ap (λ (d : ProfilerData). d.parent) before,
            omega (arith, new),
            ground (arith, old, new, child', other, there),
          )
      | inr (inr (other, far, before, after)) ↦
          let (start', parent', small', child') = b.kept q (ground (arith, other, h)) in
          let elsewhere = far (i.proper q h) in
          let old = ap (λ (d : ProfilerData). d.num_child_ticks) before in
          let new = ap (λ (d : ProfilerData). d.num_child_ticks) after in
          (
            ap (λ (d : ProfilerData). d.start_tick) after
                ∙ start'
                ∙ ap (λ (d : ProfilerData). d.start_tick) before,
            ap (λ (d : ProfilerData). d.parent) after
                ∙ parent'
                ∙ ap (λ (d : ProfilerData). d.parent) before,
            omega (arith, new, small'),
            ground (arith, old, new, child', other, elsewhere),
          )
    ];
  }

no_scopes-Accounts :
    (around : List Profiler) (s : Profilers) → IsInside around s → Accounts around no_scopes s s
no_scopes-Accounts around s i = record {
  current = refl;
  opens = λ q. refl;
  invocations = λ q. omega arith;
  ticks = λ q. omega arith;
  self_cost = λ q. omega arith;
  kept = λ q h. (refl, refl, i.small q h, ground arith);
}

-- Scopes that are nested properly, inside of which no other is of the same kind and that end no
-- earlier than they start, pass all assertions. Behind them the same scope is current and the same
-- are open as before. For each profiler its invocations have grown by how often it was entered, its
-- ticks by the time from its starts to its ends and its own cost by that time less the time of the
-- scopes directly inside, all in 64 bits. Before them the open elements are those of the scopes
-- around, of which the current is one unless it is the main one, and their child ticks fit 64 bits.
pub profile-Accounts :
    (around : List Profiler) (run : Scopes) (s : Profilers)
    → IsInside around s
    → AreNested around run
    → (s' : Profilers) × (profile run s ≡ some s') × Accounts around run s s'
unfolding profile
profile-Accounts around no_scopes s i nested = (s, refl, no_scopes-Accounts around s i)
profile-Accounts around (scope p e inside x behind) s i (ne, outside, le, lt, within, later) =
    let (s₂, run, b) =
      profile-Accounts (p ∷ around) inside (entered e p s) (IsInside-entered around p e s i ne)
        within in
    let one = scope-Accounts around p e x inside s s₂ i ne outside le lt b in
    let s₃ = left x p s₂ in
    let (s₄, rest, c) =
      profile-Accounts around behind s₃
        (IsInside-after around (scope p e inside x no_scopes) s s₃ i one) later in
    (
      s₄,
      rw (enter-entered e p s ne (i.opens p ∙ outside), profile)
          (rw run (rw (exit-ends around p e x inside s s₂ i ne outside le lt b) rest)),
      Accounts-behind around p e x inside behind s s₃ s₄ one c,
    )
