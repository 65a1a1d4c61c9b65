-- ===== src/Main/Signals.antt =====
-- The loop of main of src/main.c and the signals that end it.
use cik.Prelude.{
  ℕ, suc, ◌+◌, ◌≤◌, ◌<◌, ◌≡◌, ◌⊎◌, inl, inr, refl, ◌∙◌, ap, Bool, true, false, some, List, [], ◌∷◌,
  ◌++◌, if◌then◌else◌, arith, Bool-cases,
}
use cik.Main.{
  Signal, sigint, sigterm, sigusr1, Flags, no_flags, handle_signal, handle_signals, quitting,
  wait_for_quit,
}

-- How many of the signals are SIGINT, and how many are SIGTERM.
abbrev pub sigints : List Signal → ℕ
sigints [] = 0
sigints (sigint ∷ signals) = suc (sigints signals)
sigints (sigterm ∷ signals) = sigints signals
sigints (sigusr1 ∷ signals) = sigints signals

abbrev pub sigterms : List Signal → ℕ
sigterms [] = 0
sigterms (sigint ∷ signals) = sigterms signals
sigterms (sigterm ∷ signals) = suc (sigterms signals)
sigterms (sigusr1 ∷ signals) = sigterms signals

abbrev pub asks_stats : List Signal → Bool
asks_stats [] = false
asks_stats (sigint ∷ signals) = asks_stats signals
asks_stats (sigterm ∷ signals) = asks_stats signals
asks_stats (sigusr1 ∷ signals) = true

-- Rounds without SIGINT and SIGTERM, and how many of them ask for the statistics.
abbrev pub AreCalm : List (List Signal) → Type 0
AreCalm [] = Unit
AreCalm (signals ∷ rounds) = (sigints signals ≡ 0) × (sigterms signals ≡ 0) × AreCalm rounds

abbrev pub asking : List (List Signal) → ℕ
asking [] = 0
asking (signals ∷ rounds) = (if asks_stats signals then 1 else 0) + asking rounds

calm-handle_signals :
    (signals : List Signal) (f : Flags)
    → sigints signals ≡ 0
    → sigterms signals ≡ 0
    → handle_signals signals f
      ≡ some (record f { do_write_stats = if asks_stats signals then true else f.do_write_stats })
unfolding handle_signals handle_signal
calm-handle_signals [] f i t = refl
calm-handle_signals (sigint ∷ signals) f i t = absurd (omega (arith, i))
calm-handle_signals (sigterm ∷ signals) f i t = absurd (omega (arith, t))
calm-handle_signals (sigusr1 ∷ signals) f i t =
    let rest = calm-handle_signals signals (record f { do_write_stats = true }) i t in
    elim (Bool-cases (asks_stats signals)) [
      | inl more ↦ ground (arith, rest, more)
      | inr last ↦ ground (arith, rest, last)
    ]

-- How often a signal whose handler is reset may still come.
abbrev left_over : Bool → ℕ
left_over default = if default then 0 else 1

ends-handle_signals :
    (signals : List Signal) (f : Flags)
    → sigints signals ≤ left_over f.sigint_default
    → sigterms signals ≤ left_over f.sigterm_default
    → (f' : Flags) × (handle_signals signals f ≡ some f')
      × ((f.quit ≡ true) ⊎ (0 < sigints signals + sigterms signals) → f'.quit ≡ true)
unfolding handle_signals handle_signal
ends-handle_signals [] f i t =
    (f, refl, λ h. elim h [ inl q ↦ q | inr n ↦ absurd (omega (arith, n)) ])
ends-handle_signals (sigint ∷ signals) f i t = elim (Bool-cases f.sigint_default) [
  | inl used ↦ absurd (omega (arith, i, ap left_over used))
  | inr fresh ↦
      let (f', run, quits) =
        ends-handle_signals signals (record f { sigint_default = true; quit = true })
          (omega (arith, i, ap left_over fresh)) (t) in
      (f', ground (arith, fresh, run), λ h. quits (inl refl))
]
ends-handle_signals (sigterm ∷ signals) f i t = elim (Bool-cases f.sigterm_default) [
  | inl used ↦ absurd (omega (arith, t, ap left_over used))
  | inr fresh ↦
      let (f', run, quits) =
        ends-handle_signals signals (record f { sigterm_default = true; quit = true }) (i)
          (omega (arith, t, ap left_over fresh)) in
      (f', ground (arith, fresh, run), λ h. quits (inl refl))
]
ends-handle_signals (sigusr1 ∷ signals) f i t =
    let (f', run, quits) = ends-handle_signals signals (record f { do_write_stats = true }) i t in
    (f', run, quits)

calm-round :
    (signals : List Signal) (rounds : List (List Signal)) (n : ℕ)
    → sigints signals ≡ 0
    → sigterms signals ≡ 0
    → wait_for_quit (signals ∷ rounds) no_flags n
      ≡ wait_for_quit rounds no_flags (n + (if asks_stats signals then 1 else 0))
unfolding wait_for_quit
calm-round signals rounds n i t =
    let handled = calm-handle_signals signals no_flags i t in
    elim (Bool-cases (asks_stats signals)) [
      | inl asks ↦ ground (arith, handled, asks)
      | inr quiet ↦ ground (arith, handled, quiet)
    ]

calm-wait_for_quit :
    (rounds later : List (List Signal)) (n : ℕ)
    → AreCalm rounds
    → wait_for_quit (rounds ++ later) no_flags n ≡ wait_for_quit later no_flags (n + asking rounds)
unfolding wait_for_quit
calm-wait_for_quit [] later n calm = ap (wait_for_quit later no_flags) (omega arith)
calm-wait_for_quit (signals ∷ rounds) later n (i, t, calm) =
    calm-round signals (rounds ++ later) n i t
    ∙ calm-wait_for_quit rounds later (n + (if asks_stats signals then 1 else 0)) calm
    ∙ ap (wait_for_quit later no_flags) (omega arith)

-- The loop ends at its first test of the flag behind a SIGINT or SIGTERM, if neither comes twice by
-- then. By then it has written the statistics once for each earlier round with a SIGUSR1, whatever
-- signals come later.
pub wait_for_quit-quitting :
    (rounds : List (List Signal)) (last : List Signal) (later : List (List Signal))
    → AreCalm rounds
    → sigints last ≤ 1
    → sigterms last ≤ 1
    → 0 < sigints last + sigterms last
    → wait_for_quit (rounds ++ (last ∷ later)) no_flags 0 ≡ quitting (asking rounds)
unfolding wait_for_quit
wait_for_quit-quitting rounds last later calm i t some_end =
    let (f', run, quits) = ends-handle_signals last no_flags i t in
    let quit = quits (inr some_end) in
    calm-wait_for_quit rounds (last ∷ later) 0 calm ∙ ground (arith, run, quit)
