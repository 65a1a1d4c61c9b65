-- ===== src/Profiler.antt =====
-- src/profiler.c, and the macro PROFILE of src/profiler.h.
pub mod Moves
pub mod Nested
pub mod Exits
pub mod Accounts
use cik.Prelude.{
  ℕ, ◌+◌, ◌-◌, ◌*◌, ◌%◌, ◌^◌, Bool, true, false, Option, none, some, ◌==◌, if◌then◌else◌,
}

-- The scopes that are measured; `prof_main` stands for none of them being open.
pub data Profiler : Type 0 where
  prof_main prof_main_loop prof_server_accept prof_handle_get_request : Profiler
  prof_handle_set_request prof_handle_del_request prof_handle_clr_request : Profiler
  prof_handle_request prof_server_read prof_close_client : Profiler

-- The number of a profiler in its enumeration.
abbrev pub index : Profiler → ℕ
index prof_main = 0
index prof_main_loop = 1
index prof_server_accept = 2
index prof_handle_get_request = 3
index prof_handle_set_request = 4
index prof_handle_del_request = 5
index prof_handle_clr_request = 6
index prof_handle_request = 7
index prof_server_read = 8
index prof_close_client = 9

pub record ProfilerData : Type 0 where
  pub profiler : Profiler
  pub parent : Profiler
  pub num_invocations : ℕ
  pub start_tick : ℕ
  pub num_ticks : ℕ
  pub num_child_ticks : ℕ
  pub total_num_ticks : ℕ
  pub total_self_cost : ℕ
  pub is_open : Bool

-- `profiler_data`, which has an element for each profiler, and `current_profiler`.
pub record Profilers : Type 0 where
  pub table : Profiler → ProfilerData
  pub current : Profiler

-- Arithmetic on u64.
abbrev pub add64 : ℕ → ℕ → ℕ
add64 x y = (x + y) % 2 ^ 64

abbrev pub sub64 : ℕ → ℕ → ℕ
sub64 x y = (x + 2 ^ 64 - y) % 2 ^ 64

-- The static table is all zero.
abbrev pub zero_data : ProfilerData
zero_data = record {
  profiler = prof_main;
  parent = prof_main;
  num_invocations = 0;
  start_tick = 0;
  num_ticks = 0;
  num_child_ticks = 0;
  total_num_ticks = 0;
  total_self_cost = 0;
  is_open = false;
}

abbrev pub no_profilers : Profilers
no_profilers = record { table = λ p. zero_data; current = prof_main }

abbrev pub put : (Profiler → ProfilerData) → Profiler → ProfilerData → Profiler → ProfilerData
put table p d q = if index q == index p then d else table q

-- What the first use of a profiler sets up.
unfoldable pub set_up : Profiler → ProfilerData → ProfilerData
set_up p d = if index d.profiler == index p then d else record d {
  profiler = p;
  parent = prof_main;
  is_open = false;
  num_invocations = 0;
  total_num_ticks = 0;
  total_self_cost = 0;
}

-- With the reading of the performance counter; `none` is a failed assertion.
unfoldable pub profile_scope_enter : ℕ → Profiler → Profilers → Option Profilers
unfolding set_up
profile_scope_enter now p s =
    if index p == index prof_main
    then none
    else (let d = set_up p (s.table p) in
        if d.is_open
        then none
        else some (record {
          table = put s.table p (record d {
            is_open = true;
            parent = s.current;
            num_invocations = add64 d.num_invocations 1;
            start_tick = now;
            num_child_ticks = 0;
          });
          current = p;
        }))

-- The ticks go to the scope around, unless that is `prof_main`.
unfoldable pub count_for_parent : Profiler → ℕ → (Profiler → ProfilerData) → Profiler → ProfilerData
count_for_parent parent ticks table =
    if index parent == index prof_main
    then table
    else put table parent
        (record (table parent) { num_child_ticks = add64 (table parent).num_child_ticks ticks })

unfoldable pub close_scope : ProfilerData → ProfilerData
close_scope d = record d {
  total_num_ticks = add64 d.total_num_ticks d.num_ticks;
  total_self_cost = add64 d.total_self_cost (sub64 d.num_ticks d.num_child_ticks);
  is_open = false;
}

unfoldable pub profile_scope_exit : ℕ → Profiler → Profilers → Option Profilers
unfolding count_for_parent close_scope
profile_scope_exit now p s =
    if index p == index s.current
    then (let ticks = sub64 now (s.table p).start_tick in
        let table₁ = put s.table p (record (s.table p) { num_ticks = ticks }) in
        let table₂ = count_for_parent (s.table p).parent ticks table₁ in
        some
          (record { table = put table₂ p (close_scope (table₂ p)); current = (table₂ p).parent }))
    else none

-- `CLOCK_MONOTONIC` in seconds and nanoseconds, in 64 bits.
unfoldable pub get_performance_counter : ℕ → ℕ → ℕ
get_performance_counter tv_sec tv_nsec = add64 (tv_sec % 2 ^ 64 * 1000000000 % 2 ^ 64) tv_nsec

abbrev pub get_performance_frequency : ℕ
get_performance_frequency = 1000000000

-- Scopes of the code that run one behind another, each entered at a tick and left at one, with the
-- scopes inside it.
pub data Scopes : Type 0 where
  no_scopes : Scopes
  scope :
      (p : Profiler) (enter_tick : ℕ) (inside : Scopes) (exit_tick : ℕ) (behind : Scopes) → Scopes

-- The macro `PROFILE` at the start of each of them.
unfoldable pub profile : Scopes → Profilers → Option Profilers
unfolding profile_scope_enter profile_scope_exit
profile no_scopes s = some s
profile (scope p enter_tick inside exit_tick behind) s = elim (profile_scope_enter enter_tick p s) [
  | none ↦ none
  | some s₁ ↦ elim (profile inside s₁) [
    | none ↦ none
    | some s₂ ↦ elim (profile_scope_exit exit_tick p s₂) [
      | none ↦ none
      | some s₃ ↦ profile behind s₃
    ]
  ]
]
