-- ===== src/Tests/Process.antt =====
-- Witnesses for the way through main, its signals, the threads and the profiler.
use cik.Prelude.{
  ℕ, suc, ◌≡◌, ◌≢◌, inl, inr, refl, true, some, List, [], ◌∷◌, ◌==◌, arith, Bool-cases,
}
use cik.Main.{
  StartCalls, no_error, main, Signal, sigint, sigusr1, no_flags, wait_for_quit, quitting,
}
use cik.Main.Leaving.{Leaves, nothing_held, main-Leaves}
use cik.Main.Signals.{wait_for_quit-quitting}
use cik.Threads.{Threads}
use cik.Threads.Joined.{CreatesAndJoins, thrd_create-thrd_join}
use cik.Profiler.{
  set_up, index, Profilers, no_profilers, Scopes, no_scopes, scope, prof_handle_request,
  prof_handle_get_request, prof_server_read, profile,
}
use cik.Profiler.Nested.{Accounts, IsInside}
use cik.Profiler.Accounts.{profile-Accounts}
use cik.Tests.Data.{new_memory}
use cik.Tests.Buckets.{new_memory-IsMemory, new_memory-HasRoom}

abbrev all_well : StartCalls
all_well = record {
  parses = true;
  pid_file = some 3;
  locks_pid = true;
  init_memory = no_error;
  inits_util = true;
  inits_log = true;
  inits_controller = true;
  starts_server = true;
  persistence_file = some 7;
  locks_persistence = true;
  creates_thread = true;
}

distinct : (pid fd : ℕ) → some 3 ≡ some pid → some 7 ≡ some fd → fd ≢ pid
distinct pid fd a b = ground (arith, a, b)

main-Leaves_example : Leaves nothing_held (main all_well)
main-Leaves_example = main-Leaves all_well (λ e. ground (arith, e)) distinct

abbrev two_rounds : List (List Signal)
two_rounds = (sigusr1 ∷ sigusr1 ∷ []) ∷ [] ∷ []

wait_for_quit-quitting_example :
    wait_for_quit
      ((sigusr1 ∷ sigusr1 ∷ []) ∷ [] ∷ (sigusr1 ∷ sigint ∷ []) ∷ (sigint ∷ []) ∷ [])
      no_flags
      0
    ≡ quitting 1
wait_for_quit-quitting_example =
    wait_for_quit-quitting two_rounds (sigusr1 ∷ sigint ∷ []) ((sigint ∷ []) ∷ [])
      (refl, refl, (refl, refl, tt)) (omega arith) (omega arith) (omega arith)

abbrev no_threads : Threads
no_threads = record { memory = new_memory; wrappers = [] }

thrd_create-thrd_join_example : CreatesAndJoins 0 suc 4 no_threads []
thrd_create-thrd_join_example =
    thrd_create-thrd_join 0 suc 4 no_threads [] new_memory-IsMemory new_memory-HasRoom

abbrev one_request : Scopes
one_request =
    scope prof_server_read 100
      (scope prof_handle_request 110 (scope prof_handle_get_request 115 no_scopes 120 no_scopes) 130
        no_scopes)
      140 no_scopes

no_profilers-IsInside : IsInside [] no_profilers
unfolding set_up
no_profilers-IsInside = record {
  opens = λ q. elim (Bool-cases (0 == index q)) [
    | inl main_one ↦ rw (main_one, set_up) refl
    | inr other ↦ rw (other, set_up) refl
  ];
  current = inl refl;
  proper = λ q h. cc;
  small = λ q h. cc;
}

profile-Accounts_example :
    (s' : Profilers) × (profile one_request no_profilers ≡ some s')
    × Accounts [] one_request no_profilers s'
profile-Accounts_example = profile-Accounts [] one_request no_profilers no_profilers-IsInside (
  omega arith,
  refl,
  omega arith,
  omega arith,
  (
    omega arith,
    refl,
    omega arith,
    omega arith,
    (omega arith, refl, omega arith, omega arith, tt, tt),
    tt,
  ),
  tt,
)
