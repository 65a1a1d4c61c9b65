-- ===== src/Main.antt =====
-- src/main.c: the order of the start, the signals, the loop and the way out.
pub mod Leaving
pub mod Signals
use cik.Prelude.{
  ◌&&◌, not, ℕ, ◌+◌, Bool, true, false, Option, none, some, List, [], ◌∷◌, ◌++◌, if◌then◌else◌,
}
use cik.Threads.{ThreadStatus, thrd_success, thrd_error}

-- What `init_memory` returns: a number below 0, 0, or the errno of a call that failed.
pub data MemoryResult : Type 0 where
  below_zero no_error errno_of_failure : MemoryResult

-- What the calls of `main` come to: `none` or `false` for an error.
pub record StartCalls : Type 0 where
  pub parses : Bool
  pub pid_file : Option ℕ
  pub locks_pid : Bool
  pub init_memory : MemoryResult
  pub inits_util : Bool
  pub inits_log : Bool
  pub inits_controller : Bool
  pub starts_server : Bool
  pub persistence_file : Option ℕ
  pub locks_persistence : Bool
  pub creates_thread : Bool

-- What `main` does, in its order.
pub data Step : Type 0 where
  opened locked unlocked closed : ℕ → Step
  wrote_pid load_log persisted : ℕ → Step
  set_signals mapped not_mapped initialized started logging not_logging waited : Step
  stopped joined unmapped complained : Step

pub data Exit : Type 0 where
  exit_success exit_failure : Exit

-- `unlock_and_close_fd_ptr`.
unfoldable pub unlock_and_close : Option ℕ → List Step
unlock_and_close none = []
unlock_and_close (some fd) = unlocked fd ∷ closed fd ∷ []

-- A return from `main`: the two descriptors are cleaned up, the later one first.
unfoldable pub leave : Exit → Option ℕ → Option ℕ → Exit × List Step
unfolding unlock_and_close
leave exit pid persistence = (exit, unlock_and_close persistence ++ unlock_and_close pid)

unfoldable pub after : List Step → Exit × List Step → Exit × List Step
after steps (exit, more) = (exit, steps ++ more)

-- From the load of the persistence file on.
unfoldable pub run_until_quit : StartCalls → ℕ → ℕ → Exit × List Step
unfolding leave after
run_until_quit calls pid fd =
    after
      ((if calls.creates_thread then logging else not_logging)
        ∷ load_log fd
        ∷ waited
        ∷ stopped
        ∷ joined
        ∷ persisted fd
        ∷ unmapped
        ∷ [])
      (leave exit_success (some pid) (some fd))

-- A message, and a failure that leaves the PID's file.
unfoldable pub give_up : ℕ → Exit × List Step
unfolding leave after
give_up pid = after (complained ∷ []) (leave exit_failure (some pid) none)

unfoldable pub open_persistence : StartCalls → ℕ → Exit × List Step
unfolding leave after run_until_quit give_up
open_persistence calls pid = elim calls.persistence_file [
  | none ↦ give_up pid
  | some fd ↦
      if calls.locks_persistence
      then after (opened fd ∷ locked fd ∷ []) (run_until_quit calls pid fd)
      else after (opened fd ∷ complained ∷ []) (leave exit_failure (some pid) (some fd))
]

unfoldable pub start_serving : StartCalls → ℕ → Exit × List Step
unfolding after open_persistence give_up
start_serving calls pid =
    if calls.starts_server then after (started ∷ []) (open_persistence calls pid) else give_up pid

unfoldable pub initialize : StartCalls → ℕ → Exit × List Step
unfolding after start_serving give_up
initialize calls pid =
    if calls.inits_util && (calls.inits_log && calls.inits_controller)
    then after (initialized ∷ []) (start_serving calls pid)
    else give_up pid

-- From the signals on: `0 > init_memory ()` gives up without a message. Behind an errno `main` goes
-- on as if there were memory.
unfoldable pub start_up : StartCalls → ℕ → Exit × List Step
unfolding leave after initialize
start_up calls pid = after (set_signals ∷ []) (elim calls.init_memory [
  | below_zero ↦ leave exit_failure (some pid) none
  | no_error ↦ after (mapped ∷ []) (initialize calls pid)
  | errno_of_failure ↦ after (not_mapped ∷ []) (initialize calls pid)
])

unfoldable pub main : StartCalls → Exit × List Step
unfolding leave after start_up
main calls = if not calls.parses then leave exit_failure none none else elim calls.pid_file [
  | none ↦ after (complained ∷ []) (leave exit_failure none none)
  | some pid ↦
      if calls.locks_pid
      then after (opened pid ∷ locked pid ∷ wrote_pid pid ∷ []) (start_up calls pid)
      else after (opened pid ∷ complained ∷ []) (leave exit_failure (some pid) none)
]

pub data Signal : Type 0 where
  sigint sigterm sigusr1 : Signal

-- The two flags, and whether SIGINT and SIGTERM are back at their default action, which ends the
-- process.
pub record Flags : Type 0 where
  pub quit : Bool
  pub do_write_stats : Bool
  pub sigint_default : Bool
  pub sigterm_default : Bool

abbrev pub no_flags : Flags
no_flags = record {
  quit = false;
  do_write_stats = false;
  sigint_default = false;
  sigterm_default = false;
}

-- `sigint_handler`, `sigterm_handler` and `sigusr1_handler`; `none` ends the process.
unfoldable pub handle_signal : Signal → Flags → Option Flags
handle_signal sigint f =
    if f.sigint_default then none else some (record f { sigint_default = true; quit = true })
handle_signal sigterm f =
    if f.sigterm_default then none else some (record f { sigterm_default = true; quit = true })
handle_signal sigusr1 f = some (record f { do_write_stats = true })

unfoldable pub handle_signals : List Signal → Flags → Option Flags
unfolding handle_signal
handle_signals [] f = some f
handle_signals (signal ∷ signals) f = elim (handle_signal signal f) [
  | none ↦ none
  | some f' ↦ handle_signals signals f'
]

-- How the loop of `main` ends, and how often it has written the statistics by then.
pub data Waiting : Type 0 where
  quitting waiting : ℕ → Waiting
  killed : Waiting

-- One list of signals for each test of `quit`: those since the test before. When they are used up,
-- the loop is still waiting.
unfoldable pub wait_for_quit : List (List Signal) → Flags → ℕ → Waiting
unfolding handle_signals
wait_for_quit [] f written = waiting written
wait_for_quit (signals ∷ rounds) f written = elim (handle_signals signals f) [
  | none ↦ killed
  | some f' ↦
      let idle = wait_for_quit rounds f' written in
      let writes = wait_for_quit rounds (record f' { do_write_stats = false }) (written + 1) in
      if f'.quit then quitting written else if f'.do_write_stats then writes else idle
]

-- `write_stats`: what happens to each file with a name, by whether fopen succeeds.
pub data StatsFile : Type 0 where
  wrote_stats open_failed : ℕ → StatsFile

unfoldable pub write_stats : (ℕ → Bool) → List (Option ℕ) → List StatsFile
write_stats opens [] = []
write_stats opens (none ∷ files) = write_stats opens files
write_stats opens (some name ∷ files) =
    (if opens name then wrote_stats name else open_failed name) ∷ write_stats opens files

-- `run_logging_thread`: what the two opens return, and what `quit` is at each test. With the status
-- come the descriptors left open and how often the logs were flushed.
unfoldable pub flush_until : List Bool → ℕ → ℕ
flush_until [] flushed = flushed
flush_until (quit ∷ tests) flushed =
    let rest = flush_until tests (flushed + 1) in if quit then flushed else rest

unfoldable pub run_logging_thread : Option ℕ → Option ℕ → List Bool → ThreadStatus × List ℕ × ℕ
unfolding flush_until
run_logging_thread rd_fd none tests = (thrd_error, elim rd_fd [ none ↦ [] | some fd ↦ fd ∷ [] ], 0)
run_logging_thread rd_fd (some wr_fd) tests = (thrd_success, [], flush_until tests 0)
