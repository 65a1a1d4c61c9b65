-- ===== src/Profiler/Moves.antt =====
-- Single calls of src/profiler.c: which elements of the table they change, and how.
use cik.Prelude.{
  ℕ, ◌≡◌, ◌≢◌, ◌⊎◌, inl, inr, refl, sym, ◌∙◌, ap, true, false, Option, none, some, List, [], ◌∷◌,
  get_elem?, ◌==◌, if◌then◌else◌, arith, Bool-cases,
}
use cik.Profiler.{
  Profiler, prof_main, prof_main_loop, prof_server_accept, prof_handle_get_request,
  prof_handle_set_request, prof_handle_del_request, prof_handle_clr_request, prof_handle_request,
  prof_server_read, prof_close_client, index, ProfilerData, Profilers, set_up, put, add64, sub64,
  profile_scope_enter, profile_scope_exit, count_for_parent, close_scope,
}

-- What a profiler's element stands for, also before its first use.
abbrev pub seen : Profilers → Profiler → ProfilerData
seen s p = set_up p (s.table p)

abbrev profilers : List Profiler
profilers =
    prof_main ∷ prof_main_loop ∷ prof_server_accept ∷ prof_handle_get_request
    ∷ prof_handle_set_request ∷ prof_handle_del_request ∷ prof_handle_clr_request
    ∷ prof_handle_request ∷ prof_server_read ∷ prof_close_client ∷ []

of_index : ℕ → Profiler
of_index n = elim (get_elem? profilers n) [ none ↦ prof_main | some p ↦ p ]

of_index-index : (p : Profiler) → of_index (index p) ≡ p
unfolding of_index
of_index-index prof_main = refl
of_index-index prof_main_loop = refl
of_index-index prof_server_accept = refl
of_index-index prof_handle_get_request = refl
of_index-index prof_handle_set_request = refl
of_index-index prof_handle_del_request = refl
of_index-index prof_handle_clr_request = refl
of_index-index prof_handle_request = refl
of_index-index prof_server_read = refl
of_index-index prof_close_client = refl

pub index_inj : (p q : Profiler) → index p ≡ index q → p ≡ q
index_inj p q h = sym (of_index-index p) ∙ ap of_index h ∙ of_index-index q

pub same_self : (n : ℕ) → (n == n) ≡ true
same_self n = ground arith

-- An open element is set up.
pub set_up_open :
    (p : Profiler) (d : ProfilerData)
    → (set_up p d).is_open ≡ true
    → (set_up p d ≡ d) × (index d.profiler ≡ index p)
unfolding set_up
set_up_open p d h = elim (Bool-cases (index d.profiler == index p)) [
  | inl here ↦ (rw (here, set_up) refl, ground (arith, here))
  | inr other ↦
      let now : (set_up p d).is_open ≡ false = rw (other, set_up) refl in
      absurd (ground (arith, now, h))
]

pub set_up_same : (p : Profiler) (d : ProfilerData) → index d.profiler ≡ index p → set_up p d ≡ d
unfolding set_up
set_up_same p d h =
    let here : (index d.profiler == index p) ≡ true = ground (arith, h) in rw (here, set_up) refl

pub set_up-profiler : (p : Profiler) (d : ProfilerData) → index (set_up p d).profiler ≡ index p
unfolding set_up
set_up-profiler p d = elim (Bool-cases (index d.profiler == index p)) [
  | inl here ↦ rw (here, set_up) (ground (arith, here))
  | inr other ↦ rw (other, set_up) refl
]

pub put_self : (t : Profiler → ProfilerData) (p : Profiler) (d : ProfilerData) → put t p d p ≡ d
put_self t p d = rw (same_self (index p)) refl

pub put_other :
    (t : Profiler → ProfilerData) (p q : Profiler) (d : ProfilerData)
    → index q ≢ index p
    → put t p d q ≡ t q
put_other t p q d ne = let test : (index q == index p) ≡ false = ground (arith, ne) in rw test refl

-- The state behind an enter that is allowed.
abbrev pub opened : ℕ → Profiler → Profilers → ProfilerData
opened now p s = record (seen s p) {
  is_open = true;
  parent = s.current;
  num_invocations = add64 (seen s p).num_invocations 1;
  start_tick = now;
  num_child_ticks = 0;
}

abbrev pub entered : ℕ → Profiler → Profilers → Profilers
entered now p s = record { table = put s.table p (opened now p s); current = p }

pub enter-entered :
    (now : ℕ) (p : Profiler) (s : Profilers)
    → index p ≢ 0
    → (seen s p).is_open ≡ false
    → profile_scope_enter now p s ≡ some (entered now p s)
unfolding profile_scope_enter
enter-entered now p s some_scope closed =
    let test : (index p == 0) ≡ false = ground (arith, some_scope) in
    rw (test, profile_scope_enter) (rw closed refl)

pub entered_self :
    (now : ℕ) (p : Profiler) (s : Profilers) → seen (entered now p s) p ≡ opened now p s
entered_self now p s =
    ap (set_up p) (put_self s.table p (opened now p s))
    ∙ set_up_same p (opened now p s) (set_up-profiler p (s.table p))

pub entered_other :
    (now : ℕ) (p q : Profiler) (s : Profilers)
    → index q ≢ index p
    → seen (entered now p s) q ≡ seen s q
entered_other now p q s ne = ap (set_up q) (put_other s.table p q (opened now p s) ne)

-- What an exit adds to, for the scope itself and for the one around it.
abbrev pub closed : ℕ → ProfilerData → ProfilerData
closed ticks d = record d {
  num_ticks = ticks;
  total_num_ticks = add64 d.total_num_ticks ticks;
  total_self_cost = add64 d.total_self_cost (sub64 ticks d.num_child_ticks);
  is_open = false;
}

abbrev pub counted : ℕ → ProfilerData → ProfilerData
counted ticks d = record d { num_child_ticks = add64 d.num_child_ticks ticks }

-- The element of the scope around, if there is one.
pub surrounding : Profiler → ℕ → (Profiler → ProfilerData) → Profiler → ProfilerData
surrounding parent ticks table =
    if index parent == 0 then table else put table parent (counted ticks (table parent))

abbrev pub left : ℕ → Profiler → Profilers → Profilers
left now p s = record {
  table =
      put
        (surrounding (s.table p).parent (sub64 now (s.table p).start_tick)
          (put s.table p (record (s.table p) { num_ticks = sub64 now (s.table p).start_tick })))
        p (closed (sub64 now (s.table p).start_tick) (s.table p));
  current = (s.table p).parent;
}

surrounding_other :
    (parent p : Profiler) (ticks : ℕ) (t : Profiler → ProfilerData)
    → index p ≢ index parent
    → surrounding parent ticks t p ≡ t p
unfolding surrounding
surrounding_other parent p ticks t ne = elim (Bool-cases (index parent == 0)) [
  | inl nothing ↦ rw (nothing, surrounding) refl
  | inr there ↦ rw (there, surrounding) (put_other t parent p (counted ticks (t parent)) ne)
]

abbrev finished : (Profiler → ProfilerData) → Profiler → ProfilerData → Profiler → Option Profilers
finished table p d parent = some (record { table = put table p d; current = parent })

pub exit-left :
    (now : ℕ) (p : Profiler) (s : Profilers)
    → index p ≡ index s.current
    → index p ≢ index (s.table p).parent
    → profile_scope_exit now p s ≡ some (left now p s)
unfolding profile_scope_exit count_for_parent close_scope surrounding
exit-left now p s here ne =
    let test : (index p == index s.current) ≡ true = ground (arith, here) in
    let ticks = sub64 now (s.table p).start_tick in
    let table₁ = put s.table p (record (s.table p) { num_ticks = ticks }) in
    let own : count_for_parent (s.table p).parent ticks table₁ p
        ≡ record (s.table p) { num_ticks = ticks } =
      surrounding_other (s.table p).parent p ticks table₁ ne
      ∙ put_self s.table p (record (s.table p) { num_ticks = ticks }) in
    rw (test, profile_scope_exit)
      (ap
        (λ (d : ProfilerData).
          finished (count_for_parent (s.table p).parent ticks table₁) p (close_scope d) d.parent)
        own)

module _ (now : ℕ) (p : Profiler) (s : Profilers) (set : index (s.table p).profiler ≡ index p) where
  pub left_self : seen (left now p s) p ≡ closed (sub64 now (s.table p).start_tick) (s.table p)
  left_self =
      let ticks = sub64 now (s.table p).start_tick in
      let d = closed ticks (s.table p) in
      let table₁ = put s.table p (record (s.table p) { num_ticks = ticks }) in
      ap (set_up p) (put_self (surrounding (s.table p).parent ticks table₁) p d)
      ∙ set_up_same p d set

  pub left_other :
      (q : Profiler)
      → index q ≢ index p
      → (index (s.table p).parent ≡ 0) ⊎ (index q ≢ index (s.table p).parent)
      → seen (left now p s) q ≡ seen s q
  unfolding surrounding
  left_other q ne apart =
      let ticks = sub64 now (s.table p).start_tick in
      let parent = (s.table p).parent in
      let table₁ = put s.table p (record (s.table p) { num_ticks = ticks }) in
      let kept : table₁ q ≡ s.table q = put_other s.table p q _ ne in
      let around : surrounding parent ticks table₁ q ≡ table₁ q = elim apart [
        | inl main ↦
            let test : (index parent == 0) ≡ true = ground (arith, main) in
            rw (test, surrounding) refl
        | inr other ↦ surrounding_other parent q ticks table₁ other
      ] in
      ap (set_up q) (put_other (surrounding parent ticks table₁) p q _ ne ∙ around ∙ kept)

  pub left_parent :
      index (s.table p).parent ≢ 0
      → index (s.table p).parent ≢ index p
      → (seen s (s.table p).parent).is_open ≡ true
      → seen (left now p s) (s.table p).parent
        ≡ counted (sub64 now (s.table p).start_tick) (seen s (s.table p).parent)
  unfolding surrounding
  left_parent some_scope ne around_open =
      let ticks = sub64 now (s.table p).start_tick in
      let parent = (s.table p).parent in
      let table₁ = put s.table p (record (s.table p) { num_ticks = ticks }) in
      let test : (index parent == 0) ≡ false = ground (arith, some_scope) in
      let (up, set_parent) = set_up_open parent (s.table parent) around_open in
      let kept : table₁ parent ≡ s.table parent = put_other s.table p parent _ ne in
      let around : surrounding parent ticks table₁ parent ≡ counted ticks (table₁ parent) =
        rw (test, surrounding) (put_self table₁ parent (counted ticks (table₁ parent))) in
      let now_there : (left now p s).table parent ≡ counted ticks (s.table parent) =
        put_other (surrounding parent ticks table₁) p parent _ ne
        ∙ around
        ∙ ap (counted ticks) kept in
      ap (set_up parent) now_there
      ∙ set_up_same parent (counted ticks (s.table parent)) set_parent
      ∙ ap (counted ticks) (sym up)
