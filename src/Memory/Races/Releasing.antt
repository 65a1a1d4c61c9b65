-- ===== src/Memory/Races/Releasing.antt =====
-- The accesses of release_memory of src/memory.c keep a free list consistent.
use cik.Prelude.{
  ℕ, suc, ◌-◌, ◌≡◌, ◌≢◌, inl, inr, refl, sym, ◌∙◌, ap, subst, Bool, false, Option, some, ◌==◌,
  if◌then◌else◌, arith, Bool-cases,
}
use mathlib.Core.Bool.{not, ◌&&◌}
use cik.Memory.Races.{
  Word, Place, outside, linking, swapping, Shared, change, go_to, give_back, link, swap,
  same_pointer,
}
use cik.Memory.Races.Consistent.{
  Owner, unborn, used, listed, held, Chain, is_popping, Knows, count_of, IsConsistent, change_self,
  change_other, Chain-same,
}
use cik.Memory.Races.Moved.{
  none_pops, moved, differ, others_keep, used_of, first_listed, holder, same_pointer_eq,
  counts_after, counts_kept, by_test, by_second,
}

module _ (owner : ℕ → Owner) (k i : ℕ) (s : Shared) (c : IsConsistent owner k s) where
  -- A bucket in use goes to the thread that releases it.
  pub give_back-IsConsistent :
      (b : ℕ) → (owner' : ℕ → Owner) × IsConsistent owner' k (give_back i b s)
  unfolding give_back
  give_back-IsConsistent b =
      let s' : Shared = record s { uses = change s.uses b (s.uses b - 1) } in
      elim (Bool-cases (s.uses b == 0)) [
        | inl none_used ↦
            let step : give_back i b s ≡ s =
              ap (λ t. if t then s else go_to i (linking b) s') none_used in
            (owner, subst (IsConsistent owner k) (sym step) c)
        | inr some_used ↦
            let step : give_back i b s ≡ go_to i (linking b) s' =
              ap (λ t. if t then s else go_to i (linking b) s') some_used in
            let here : owner b ≡ used =
              used_of (owner b) (λ z. ground (arith, z, some_used, c.counts b)) in
            let once : s.uses b ≡ 1 = c.counts b ∙ ap count_of here in
            let owner' = change owner b (held i) in
            (
              owner',
              subst (IsConsistent owner' k) (sym step) (
                  moved owner owner' k k i (linking b) s s' c refl
                    (Chain-same owner owner' s.next s.next s.free_buckets.pointer k c.chain
                      (λ b' d lt o.
                        (others_keep owner b b' used (listed d) (held i) here o (λ e. cc), refl)))
                    (λ b' le.
                      others_keep owner b b' used unborn (held i) here (c.fresh b' le) (λ e. cc))
                    (counts_after owner s.uses b (s.uses b - 1) (held i) c.counts
                      (omega (arith, once)))
                    (change_self owner b (held i))
                    (λ j ne. (
                      λ p. (refl, λ b' h. refl),
                      λ b' o.
                          (others_keep owner b b' used (held j) (held i) here o (λ e. cc), refl),
                    ))
                    (λ p. cc)),
            )
      ]

  -- A write to the `next` of a bucket that the thread holds.
  writes_next :
      (b : ℕ) (word : Word) (place : Place)
      → owner b ≡ held i
      → Knows owner (record s { next = change s.next b word }) i place
      → is_popping place ≡ false
      → IsConsistent owner k (go_to i place (record s { next = change s.next b word }))
  writes_next b word place own knows quiet =
      let s' : Shared = record s { next = change s.next b word } in
      let kept : (b' : ℕ) (o : Owner) → owner b' ≡ o → held i ≢ o → s'.next b' ≡ s.next b' =
        λ b' o h ne. change_other s.next b b' word (differ owner b b' (held i) o own h ne) in
      moved owner owner k k i place s s' c refl
        (Chain-same owner owner s.next s'.next s.free_buckets.pointer k c.chain
          (λ b' d lt o. (o, kept b' (listed d) o (λ e. cc))))
        c.fresh c.counts knows
        (λ j ne. (
          λ p. (
            refl,
            λ b' h.
                let (d, o) = first_listed owner s.next s.free_buckets.pointer k b' c.chain h in
                kept b' (listed d) o (λ e. cc),
          ),
          λ b' o. (o, kept b' (held j) o (λ e. ne (sym (ap holder e)))),
        ))
        (λ p. cc)

  pub link-IsConsistent : (b : ℕ) → s.places i ≡ linking b → IsConsistent owner k (link i b s)
  unfolding link
  link-IsConsistent b at =
      let own : owner b ≡ held i = subst (λ (t : Place). Knows owner s i t) at (c.knows i) in
      writes_next b (record { pointer = s.free_buckets.pointer; is_marked = false })
        (swapping b s.free_buckets.pointer) own (own, change_self s.next b _) refl

  -- An exchange that succeeds puts the bucket at the front of the list.
  swaps :
      (b : ℕ)
      → owner b ≡ held i
      → s.next b ≡ record { pointer = s.free_buckets.pointer; is_marked = false }
      → s.free_buckets.is_marked ≡ false
      → IsConsistent (change owner b (listed k)) (suc k) (
          go_to i outside
            (record s { free_buckets = record { pointer = some b; is_marked = false } }))
  swaps b own linked free_now =
      let owner' = change owner b (listed k) in
      let s' : Shared = record s {
        free_buckets = record { pointer = some b; is_marked = false };
      } in
      let rest : Chain owner' s.next s.free_buckets.pointer k =
        Chain-same owner owner' s.next s.next s.free_buckets.pointer k c.chain (λ b' d lt o.
          (others_keep owner b b' (held i) (listed d) (listed k) own o (λ e. cc), refl)) in
      moved owner owner' k (suc k) i outside s s' c refl
        (
          change_self owner b (listed k),
          ap (λ (w : Word). w.is_marked) linked,
          subst (λ (w : Word). Chain owner' s.next w.pointer k) (sym linked) rest,
        )
        (λ b' le. others_keep owner b b' (held i) unborn (listed k) own (c.fresh b' le) (λ e. cc))
        (λ a. counts_kept owner b (held i) (listed k) own refl s.uses c.counts a) tt
        (λ j ne. (
          λ p. absurd (none_pops owner k i s c free_now j p),
          λ b' o. (
            others_keep owner b b' (held i) (held j) (listed k) own o (λ e. ne (sym (ap holder e))),
            refl,
          ),
        ))
        (λ p. cc)

  pub swap-IsConsistent :
      (spurious : Bool) (b : ℕ) (expected : Option ℕ)
      → s.places i ≡ swapping b expected
      → (owner' : ℕ → Owner) × (k' : ℕ) × IsConsistent owner' k' (swap spurious i b expected s)
  unfolding swap
  swap-IsConsistent spurious b expected at =
      let (own, linked) : Knows owner s i (swapping b expected) =
        subst (λ (t : Place). Knows owner s i t) at (c.knows i) in
      let done =
        go_to i outside
          (record s { free_buckets = record { pointer = some b; is_marked = false } }) in
      let again = go_to i (linking b) (record s { next = change s.next b s.free_buckets }) in
      let test =
        not spurious
        && (not s.free_buckets.is_marked && same_pointer s.free_buckets.pointer expected) in
      elim (Bool-cases test) [
        | inr fails ↦
            let step : swap spurious i b expected s ≡ again =
              ap (λ t. if t then done else again) fails in
            (
              owner,
              k,
              subst (IsConsistent owner k) (sym step)
                  (writes_next b s.free_buckets (linking b) own own refl),
            )
        | inl matches ↦
            let step : swap spurious i b expected s ≡ done =
              ap (λ t. if t then done else again) matches in
            let free_now : s.free_buckets.is_marked ≡ false =
              by_test spurious s.free_buckets.is_marked _ matches in
            let same : s.free_buckets.pointer ≡ expected =
              same_pointer_eq s.free_buckets.pointer expected
                (by_second spurious s.free_buckets.is_marked _ matches) in
            (
              change owner b (listed k),
              suc k,
              subst (IsConsistent (change owner b (listed k)) (suc k)) (sym step) (
                  swaps b own
                    (linked ∙ ap (λ p. record { pointer = p; is_marked = false }) (sym same))
                    free_now),
            )
      ]
