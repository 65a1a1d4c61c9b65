-- ===== src/Profiler/Exits.antt =====
-- The exit of a scope of src/profiler.c: which elements of the table it changes.
use cik.Prelude.{
  ℕ, ◌-◌, ◌%◌, ◌^◌, ◌≤◌, ◌<◌, ◌≡◌, ◌≢◌, ◌⊎◌, inl, inr, refl, sym, ◌∙◌, ap, subst, true, false, some,
  List, ◌∷◌, ◌==◌, arith, Bool-cases,
}
use cik.Profiler.{Profiler, index, Profilers, ProfilerData, sub64, Scopes, profile_scope_exit}
use cik.Profiler.Moves.{
  seen, entered, entered_self, entered_other, opened, closed, counted, left, exit-left, left_self,
  left_other, left_parent, set_up_open, index_inj, same_self,
}
use cik.Profiler.Nested.{has, duration, IsInside, Accounts}

-- A scope behind its exit: `s` is the state before it, `s₂` the one before its exit.
module _ (around : List Profiler) (p : Profiler) (e x : ℕ) (inside : Scopes) (s s₂ : Profilers)
    (i : IsInside around s) (ne : index p ≢ 0) (outside : has around p ≡ false) (le : e ≤ x)
    (lt : x < 2 ^ 64) (b : Accounts (p ∷ around) inside (entered e p s) s₂) where
  listed : has (p ∷ around) p ≡ true
  listed = rw (same_self (index p)) refl

  started : seen (entered e p s) p ≡ opened e p s
  started = entered_self e p s

  still_open : (seen s₂ p).is_open ≡ true
  still_open = b.opens p ∙ ap (λ (d : ProfilerData). d.is_open) started

  in_table : (seen s₂ p ≡ s₂.table p) × (index (s₂.table p).profiler ≡ index p)
  in_table = set_up_open p (s₂.table p) still_open

  pub parent : (s₂.table p).parent ≡ s.current
  parent =
      ap (λ (d : ProfilerData). d.parent) (sym in_table.0)
      ∙ (b.kept p listed).1
      ∙ ap (λ (d : ProfilerData). d.parent) started

  start : (s₂.table p).start_tick ≡ e
  start =
      ap (λ (d : ProfilerData). d.start_tick) (sym in_table.0)
      ∙ (b.kept p listed).0
      ∙ ap (λ (d : ProfilerData). d.start_tick) started

  ticks : sub64 x (s₂.table p).start_tick ≡ x - e
  ticks = omega (arith, start, le, lt)

  apart : index p ≢ index s.current
  apart same = elim i.current [
    | inl main ↦ ne (same ∙ main)
    | inr there ↦
        let here : has around p ≡ true =
          subst (λ t. has around t ≡ true) (sym (index_inj p s.current same)) there in
        cc
  ]

  pub exit-ends : profile_scope_exit x p s₂ ≡ some (left x p s₂)
  exit-ends = exit-left x p s₂ (ap index (sym b.current)) (λ h. apart (h ∙ ap index parent))

  left_p : seen (left x p s₂) p ≡ closed (x - e) (seen s₂ p)
  left_p =
      left_self x p s₂ in_table.1
      ∙ ap (λ t. closed t (s₂.table p)) ticks
      ∙ ap (closed (x - e)) (sym in_table.0)

  left_around :
      index s.current ≢ 0 → seen (left x p s₂) s.current ≡ counted (x - e) (seen s₂ s.current)
  left_around scoped =
      let around_open : (seen s₂ s.current).is_open ≡ true = elim i.current [
        | inl main ↦ absurd (scoped main)
        | inr there ↦
            b.opens s.current
            ∙ ap (λ (d : ProfilerData). d.is_open)
                (entered_other e p s.current s (λ h. apart (sym h)))
            ∙ i.opens s.current
            ∙ there
      ] in
      subst (λ r. seen (left x p s₂) r ≡ counted (x - e) (seen s₂ r)) parent
        (left_parent x p s₂ in_table.1 (λ h. scoped (ap index (sym parent) ∙ h))
            (λ h. apart (sym (ap index (sym parent) ∙ h)))
            (subst (λ r. (seen s₂ r).is_open ≡ true) (sym parent) around_open)
          ∙ ap (λ t. counted t (seen s₂ (s₂.table p).parent)) ticks)

  left_rest :
      (q : Profiler)
      → index q ≢ index p
      → (index s.current ≡ 0) ⊎ (index q ≢ index s.current)
      → seen (left x p s₂) q ≡ seen s₂ q
  left_rest q other far =
      left_other x p s₂ in_table.1 q other
        (subst (λ r. (index r ≡ 0) ⊎ (index q ≢ index r)) (sym parent) far)

  -- Each profiler is the scope's own, the one around it, or neither.
  unfoldable pub Own : Profiler → Type 0
  Own q =
      ((index q == index p) ≡ true)
      × (seen (entered e p s) q ≡ opened e q s)
      × (seen (left x p s₂) q ≡ closed (x - e) (seen s₂ q))

  unfoldable pub Around : Profiler → Type 0
  Around q =
      ((index q == index p) ≡ false)
      × ((index q == index s.current) ≡ true)
      × (seen (entered e p s) q ≡ seen s q)
      × (seen (left x p s₂) q ≡ counted (x - e) (seen s₂ q))

  unfoldable pub Apart : Profiler → Type 0
  Apart q =
      ((index q == index p) ≡ false)
      × ((index q ≢ 0) → (index q == index s.current) ≡ false)
      × (seen (entered e p s) q ≡ seen s q)
      × (seen (left x p s₂) q ≡ seen s₂ q)

  pub places : (q : Profiler) → Own q ⊎ (Around q ⊎ Apart q)
  unfolding Own Around Apart
  places q = elim (Bool-cases (index q == index p)) [
    | inl same ↦
        let here : q ≡ p = index_inj q p (ground (arith, same)) in
        inl (
          same,
          subst (λ t. seen (entered e p s) t ≡ opened e t s) (sym here) started,
          subst (λ t. seen (left x p s₂) t ≡ closed (x - e) (seen s₂ t)) (sym here) left_p,
        )
    | inr other ↦
        let far : index q ≢ index p = ground (arith, other) in
        let before = entered_other e p q s far in
        elim (Bool-cases (index q == index s.current)) [
          | inr elsewhere ↦ inr (
              inr
                (other, λ _. elsewhere, before, left_rest q far (inr (ground (arith, elsewhere)))))
          | inl there ↦ elim (Bool-cases (index s.current == 0)) [
            | inl main ↦
                let none_open : index s.current ≡ 0 = ground (arith, main) in
                inr (
                  inr (
                    other,
                    λ h. absurd (ground (arith, h, there, none_open)),
                    before,
                    left_rest q far (inl none_open),
                  ))
            | inr scoped ↦
                let here : q ≡ s.current = index_inj q s.current (ground (arith, there)) in
                let some_scope : index s.current ≢ 0 = ground (arith, scoped) in
                inr (
                  inl (
                    other,
                    there,
                    before,
                    subst (λ t. seen (left x p s₂) t ≡ counted (x - e) (seen s₂ t)) (sym here)
                        (left_around some_scope),
                  ))
          ]
        ]
  ]

  child_ticks : (seen s₂ p).num_child_ticks % 2 ^ 64 ≡ duration inside % 2 ^ 64
  child_ticks =
      let zero : (seen (entered e p s) p).num_child_ticks ≡ 0 =
        ap (λ (d : ProfilerData). d.num_child_ticks) started in
      let own = same_self (index p) in
      let (_, _, _, child) = b.kept p listed in ground (arith, zero, own, child)

  pub child :
      (q : Profiler)
      → (index q == index p) ≡ true
      → (seen s₂ q).num_child_ticks % 2 ^ 64 ≡ duration inside % 2 ^ 64
  child q own =
      let here : q ≡ p = index_inj q p (ground (arith, own)) in
      subst (λ t. (seen s₂ t).num_child_ticks % 2 ^ 64 ≡ duration inside % 2 ^ 64) (sym here)
        child_ticks

  pub small_child :
      (q : Profiler) → (index q == index p) ≡ true → (seen s₂ q).num_child_ticks < 2 ^ 64
  small_child q own =
      let here : q ≡ p = index_inj q p (ground (arith, own)) in
      subst (λ t. (seen s₂ t).num_child_ticks < 2 ^ 64) (sym here) (b.kept p listed).2

  pub inside_itself : (q : Profiler) → (index q == index p) ≡ true → has around q ≢ true
  inside_itself q own h =
      let here : q ≡ p = index_inj q p (ground (arith, own)) in
      let out : has around q ≡ false = subst (λ t. has around t ≡ false) (sym here) outside in cc
