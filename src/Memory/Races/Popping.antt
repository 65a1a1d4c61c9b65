-- ===== src/Memory/Races/Popping.antt =====
-- The accesses of reserve_memory of src/memory.c keep a free list consistent.
use cik.Prelude.{
  ℕ, zero, suc, ◌+◌, ◌≡◌, ◌≢◌, inl, inr, refl, sym, ◌∙◌, ap, subst, true, false, none, some,
  if◌then◌else◌, arith, Bool-cases,
}
use cik.Memory.Races.{
  Word, Place, outside, marked, seen, popping, pushing, Shared, change, go_to, mark, read_list,
  unmark, read_next, write_list, push_new,
}
use cik.Memory.Races.Consistent.{
  Owner, unborn, used, listed, held, Chain, is_popping, Knows, count_of, IsConsistent, change_other,
  Chain-same,
}
use cik.Memory.Races.Moved.{none_pops, only_one, moved, depth, others_keep, counts_after}

module _ (owner : ℕ → Owner) (k i : ℕ) (s : Shared) (c : IsConsistent owner k s) where
  -- Steps that leave the list, the buckets and their owners alone.
  stays :
      (place : Place)
      → Knows owner s i place
      → (is_popping place ≡ true → (j : ℕ) → j ≢ i → is_popping (s.places j) ≢ true)
      → IsConsistent owner k (go_to i place s)
  stays place knows alone =
      moved owner owner k k i place s s c refl c.chain c.fresh c.counts knows
        (λ j n. (λ p. (refl, λ b h. refl), λ b o. (o, refl))) alone

  pub mark-IsConsistent : IsConsistent owner k (mark i s)
  unfolding mark
  mark-IsConsistent =
      let now : Shared = record s { free_buckets = record s.free_buckets { is_marked = true } } in
      elim (Bool-cases s.free_buckets.is_marked) [
        | inl taken ↦
            let step : mark i s ≡ go_to i pushing s =
              ap (λ t. if t then go_to i pushing s else go_to i marked now) taken in
            subst (IsConsistent owner k) (sym step) (stays pushing tt (λ p. cc))
        | inr free_now ↦
            let step : mark i s ≡ go_to i marked now =
              ap (λ t. if t then go_to i pushing s else go_to i marked now) free_now in
            subst (IsConsistent owner k) (sym step) (
              moved owner owner k k i marked s now c refl c.chain c.fresh c.counts refl
                (λ j n. (λ p. absurd (none_pops owner k i s c free_now j p), λ b o. (o, refl)))
                (λ p j n. none_pops owner k i s c free_now j))
      ]

  pub read_list-IsConsistent : s.places i ≡ marked → IsConsistent owner k (read_list i s)
  unfolding read_list
  read_list-IsConsistent at =
      let knows : Knows owner s i marked =
        subst (λ (t : Place). Knows owner s i t) at (c.knows i) in
      stays (seen s.free_buckets.pointer) (knows, refl)
        (λ p. only_one owner k i s c (ap is_popping at))

  pub unmark-IsConsistent : s.places i ≡ seen none → IsConsistent owner k (unmark i s)
  unfolding unmark
  unmark-IsConsistent at =
      moved owner owner k k i pushing s
        (record s { free_buckets = record s.free_buckets { is_marked = false } }) c refl c.chain
        c.fresh c.counts tt
        (λ j n. (λ p. absurd (only_one owner k i s c (ap is_popping at) j n p), λ b o. (o, refl)))
        (λ p. cc)

  pub read_next-IsConsistent :
      (b : ℕ) → s.places i ≡ seen (some b) → IsConsistent owner k (read_next i b s)
  unfolding read_next
  read_next-IsConsistent b at =
      let (m, h) : Knows owner s i (seen (some b)) =
        subst (λ (t : Place). Knows owner s i t) at (c.knows i) in
      stays (popping b (s.next b)) (m, h, refl) (λ p. only_one owner k i s c (ap is_popping at))

  -- The first bucket goes from the list to the caller.
  pub write_list-IsConsistent :
      (b : ℕ) (word : Word)
      → s.places i ≡ popping b word
      → (k' : ℕ) × IsConsistent (change owner b used) k' (write_list i b word s)
  unfolding write_list
  write_list-IsConsistent b word at =
      let (m, first, n) : Knows owner s i (popping b word) =
        subst (λ (t : Place). Knows owner s i t) at (c.knows i) in
      let chain : Chain owner s.next (some b) k =
        subst (λ t. Chain owner s.next t k) first c.chain in
      write_at k chain n first
    where
      write_at :
          (d : ℕ)
          → Chain owner s.next (some b) d
          → s.next b ≡ word
          → s.free_buckets.pointer ≡ some b
          → (k' : ℕ) × IsConsistent (change owner b used) k' (write_list i b word s)
      write_at zero chain n first = absurd chain
      write_at (suc d) (here, unmarked, rest) n first =
          let owner' = change owner b used in
          let s' : Shared = record s {
            free_buckets = word;
            uses = change s.uses b (s.uses b + 1);
          } in
          let chain' : Chain owner' s.next word.pointer d =
            Chain-same owner owner' s.next s.next word.pointer d
              (subst (λ (t : Word). Chain owner s.next t.pointer d) n rest)
              (λ b' d' lt o. (
                others_keep owner b b' (listed d) (listed d') used here o
                    (λ e. absurd (omega (arith, lt, ap depth e))),
                refl,
              )) in
          let unused : s.uses b ≡ 0 = c.counts b ∙ ap count_of here in
          (
            d,
            moved owner owner' k d i outside s s' c refl chain'
                (λ b' le.
                  others_keep owner b b' (listed d) unborn used here (c.fresh b' le) (λ e. cc))
                (counts_after owner s.uses b (s.uses b + 1) used c.counts (omega (arith, unused)))
                tt
                (λ j ne. (
                  λ p. absurd (only_one owner k i s c (ap is_popping at) j ne p),
                  λ b' o. (others_keep owner b b' (listed d) (held j) used here o (λ e. cc), refl),
                ))
                (λ p. cc),
          )

  -- A new bucket goes to the caller.
  pub push_new-IsConsistent :
      s.places i ≡ pushing → IsConsistent (change owner s.pushed used) k (push_new i s)
  unfolding push_new
  push_new-IsConsistent at =
      let b = s.pushed in
      let owner' = change owner b used in
      let here : owner b ≡ unborn = c.fresh b (omega arith) in
      let unused : s.uses b ≡ 0 = c.counts b ∙ ap count_of here in
      let s' : Shared = record s { pushed = b + 1; uses = change s.uses b (s.uses b + 1) } in
      moved owner owner' k k i outside s s' c refl
        (Chain-same owner owner' s.next s.next s.free_buckets.pointer k c.chain
          (λ b' d lt o. (others_keep owner b b' unborn (listed d) used here o (λ e. cc), refl)))
        (λ b' le.
          change_other owner b b' used (λ e. absurd (omega (arith, le, e)))
          ∙ c.fresh b' (omega (arith, le)))
        (counts_after owner s.uses b (s.uses b + 1) used c.counts (omega (arith, unused))) tt
        (λ j ne. (
          λ p. (refl, λ b' h. refl),
          λ b' o. (others_keep owner b b' unborn (held j) used here o (λ e. cc), refl),
        ))
        (λ p. cc)
