-- ===== src/Main/Leaving.antt =====
-- Every way out of main of src/main.c against what a start and a shutdown must keep to.
use cik.Prelude.{
  ℕ, ◌≡◌, ◌≢◌, ◌⊎◌, inl, inr, refl, ◌∙◌, Bool, true, false, Option, none, some, List, [], ◌∷◌, ◌++◌,
  ◌==◌, if◌then◌else◌, arith, Bool-cases, Option-cases,
}
use mathlib.Core.Bool.{not, ◌&&◌}
use cik.Main.{
  StartCalls, Step, opened, locked, unlocked, closed, wrote_pid, load_log, persisted, set_signals,
  mapped, not_mapped, MemoryResult, below_zero, no_error, errno_of_failure, initialized, started,
  logging, not_logging, waited, stopped, joined, unmapped, complained, Exit, exit_success,
  exit_failure, unlock_and_close, leave, after, run_until_quit, open_persistence, start_up,
  initialize, start_serving, give_up, main,
}

-- What the process holds: open and locked files, the memory and the server.
pub record Holding : Type 0 where
  pub files : List ℕ
  pub locks : List ℕ
  pub has_memory : Bool
  pub has_server : Bool
  pub is_loaded : Bool

abbrev pub nothing_held : Holding
nothing_held = record {
  files = [];
  locks = [];
  has_memory = false;
  has_server = false;
  is_loaded = false;
}

is_in : ℕ → List ℕ → Bool
is_in fd [] = false
is_in fd (other ∷ fds) = let later = is_in fd fds in if other == fd then true else later

without : ℕ → List ℕ → List ℕ
without fd [] = []
without fd (other ∷ fds) = let rest = without fd fds in if other == fd then rest else other ∷ rest

when : Bool → Holding → Option Holding
when b h = if b then some h else none

-- The order that a start and a shutdown must keep. Files are opened once, locked while they are
-- open and unlocked before they are closed. The PID is written to a locked file. The server runs on
-- the memory. The persistence file is read into a running server, and written, while it is locked,
-- only after it was read and when the server has stopped; the memory goes after that.
unfoldable pub allowed : Step → Holding → Option Holding
unfolding is_in without when
allowed (opened fd) h = when (not (is_in fd h.files)) (record h { files = fd ∷ h.files })
allowed (locked fd) h =
    when (is_in fd h.files && not (is_in fd h.locks)) (record h { locks = fd ∷ h.locks })
allowed (wrote_pid fd) h = when (is_in fd h.locks) h
allowed (unlocked fd) h = when (is_in fd h.files) (record h { locks = without fd h.locks })
allowed (closed fd) h =
    when (is_in fd h.files && not (is_in fd h.locks)) (record h { files = without fd h.files })
allowed (load_log fd) h =
    when (is_in fd h.locks && (h.has_server && not h.is_loaded)) (record h { is_loaded = true })
allowed (persisted fd) h = when (is_in fd h.locks && (h.is_loaded && not h.has_server)) h
allowed mapped h = when (not h.has_memory) (record h { has_memory = true })
allowed started h = when (h.has_memory && not h.has_server) (record h { has_server = true })
allowed stopped h = when h.has_server (record h { has_server = false })
allowed unmapped h = when (h.has_memory && not h.has_server) (record h { has_memory = false })
allowed joined h = when (not h.has_server) h
allowed waited h = when h.has_server h
allowed other h = some h

unfoldable pub follow : List Step → Holding → Option Holding
unfolding allowed
follow [] h = some h
follow (step ∷ steps) h = elim (allowed step h) [ none ↦ none | some h' ↦ follow steps h' ]

-- All steps are allowed from here, and no file is left open or locked. Behind a success there is no
-- memory and no server either.
abbrev pub Leaves : Holding → Exit × List Step → Type 0
Leaves h (exit, steps) =
    (end : Holding) × (follow steps h ≡ some end)
    × (end.files ≡ [])
    × (end.locks ≡ [])
    × (exit ≡ exit_success
        → (end.has_memory ≡ false) × (end.has_server ≡ false) × (end.is_loaded ≡ true))

leave_pid :
    (h : Holding) (pid : ℕ)
    → h.files ≡ pid ∷ []
    → (h.locks ≡ []) ⊎ (h.locks ≡ pid ∷ [])
    → Leaves h (leave exit_failure (some pid) none)
unfolding leave unlock_and_close follow allowed is_in without when
leave_pid h pid files locks = (
  record h { files = []; locks = [] },
  ground (arith, files, locks),
  refl,
  refl,
  λ e. ground (arith, e),
)

follow-append :
    (steps more : List Step) (h h' : Holding)
    → follow steps h ≡ some h'
    → follow (steps ++ more) h ≡ follow more h'
unfolding follow
follow-append [] more h h' e = ground (arith, e)
follow-append (step ∷ steps) more h h' e = elim (Option-cases (allowed step h)) [
  | inl stuck ↦ ground (arith, e, stuck)
  | inr (h₁, on) ↦ ground (arith, e, on, follow-append steps more h₁ h')
]

Leaves-after :
    (steps : List Step) (r : Exit × List Step) (h h' : Holding)
    → follow steps h ≡ some h'
    → Leaves h' r
    → Leaves h (after steps r)
unfolding after
Leaves-after steps (exit, more) h h' e (end, run, files, locks, done) =
    (end, follow-append steps more h h' e ∙ run, files, locks, done)

-- The files of a start: the PID's, and the persistence file.
abbrev holding : List ℕ → List ℕ → Bool → Bool → Bool → Holding
holding files locks memory server loaded = record {
  files = files;
  locks = locks;
  has_memory = memory;
  has_server = server;
  is_loaded = loaded;
}

leave_early : (h : Holding) → h.files ≡ [] → h.locks ≡ [] → Leaves h (leave exit_failure none none)
unfolding leave unlock_and_close follow
leave_early h files locks = (h, refl, files, locks, λ e. ground (arith, e))

give_up-Leaves :
    (pid : ℕ) (memory server : Bool)
    → Leaves (holding (pid ∷ []) (pid ∷ []) memory server false) (give_up pid)
unfolding give_up follow allowed
give_up-Leaves pid memory server =
    let h = holding (pid ∷ []) (pid ∷ []) memory server false in
    Leaves-after (complained ∷ []) (leave exit_failure (some pid) none) h h refl
      (leave_pid h pid refl (inr refl))

module _ (calls : StartCalls) (pid fd : ℕ) (ne : fd ≢ pid) where
  leave_both :
      (exit : Exit) (locks : List ℕ) (memory server loaded : Bool)
      → (locks ≡ pid ∷ []) ⊎ (locks ≡ fd ∷ pid ∷ [])
      → (exit ≡ exit_success → (memory ≡ false) × (server ≡ false) × (loaded ≡ true))
      → Leaves
          (holding (fd ∷ pid ∷ []) locks memory server loaded)
          (leave exit (some pid) (some fd))
  unfolding leave unlock_and_close follow allowed is_in without when
  leave_both exit locks memory server loaded held done =
      (holding [] [] memory server loaded, ground (arith, held, ne), refl, refl, done)

  run_until_quit-Leaves :
      Leaves (holding (fd ∷ pid ∷ []) (fd ∷ pid ∷ []) true true false) (run_until_quit calls pid fd)
  unfolding run_until_quit follow allowed is_in when
  run_until_quit-Leaves =
      Leaves-after
        ((if calls.creates_thread then logging else not_logging)
          ∷ load_log fd
          ∷ waited
          ∷ stopped
          ∷ joined
          ∷ persisted fd
          ∷ unmapped
          ∷ [])
        (leave exit_success (some pid) (some fd))
        (holding (fd ∷ pid ∷ []) (fd ∷ pid ∷ []) true true false)
        (holding (fd ∷ pid ∷ []) (fd ∷ pid ∷ []) false false true)
        (elim (Bool-cases calls.creates_thread) [
          | inl runs ↦ ground (arith, runs)
          | inr fails ↦ ground (arith, fails)
        ])
        (leave_both exit_success (fd ∷ pid ∷ []) false false true (inr refl)
          (λ e. (refl, refl, refl)))

open_persistence-Leaves :
    (calls : StartCalls) (pid : ℕ)
    → ((fd : ℕ) → calls.persistence_file ≡ some fd → fd ≢ pid)
    → Leaves (holding (pid ∷ []) (pid ∷ []) true true false) (open_persistence calls pid)
unfolding open_persistence follow allowed is_in when
open_persistence-Leaves calls pid apart = elim (Option-cases calls.persistence_file) [
  | inl none_there ↦ rw (none_there, open_persistence) (give_up-Leaves pid true true)
  | inr (fd, there) ↦
      let ne = apart fd there in
      rw (there, open_persistence)
        (elim (Bool-cases calls.locks_persistence) [
          | inl lock ↦ rw lock (
              Leaves-after (opened fd ∷ locked fd ∷ []) (run_until_quit calls pid fd)
                (holding (pid ∷ []) (pid ∷ []) true true false)
                (holding (fd ∷ pid ∷ []) (fd ∷ pid ∷ []) true true false) (ground (arith, ne))
                (run_until_quit-Leaves calls pid fd ne))
          | inr no_lock ↦ rw no_lock (
              Leaves-after (opened fd ∷ complained ∷ []) (leave exit_failure (some pid) (some fd))
                (holding (pid ∷ []) (pid ∷ []) true true false)
                (holding (fd ∷ pid ∷ []) (pid ∷ []) true true false) (ground (arith, ne))
                (leave_both calls pid fd ne exit_failure (pid ∷ []) true true false (inl refl)
                  (λ e. ground (arith, e))))
        ])
]

start_serving-Leaves :
    (calls : StartCalls) (pid : ℕ)
    → ((fd : ℕ) → calls.persistence_file ≡ some fd → fd ≢ pid)
    → Leaves (holding (pid ∷ []) (pid ∷ []) true false false) (start_serving calls pid)
unfolding start_serving follow allowed when
start_serving-Leaves calls pid apart = elim (Bool-cases calls.starts_server) [
  | inr fails ↦ rw (fails, start_serving) (give_up-Leaves pid true false)
  | inl starts ↦
      rw (starts, start_serving)
        (Leaves-after (started ∷ []) (open_persistence calls pid)
          (holding (pid ∷ []) (pid ∷ []) true false false)
          (holding (pid ∷ []) (pid ∷ []) true true false) refl
          (open_persistence-Leaves calls pid apart))
]

initialize-Leaves :
    (calls : StartCalls) (pid : ℕ)
    → ((fd : ℕ) → calls.persistence_file ≡ some fd → fd ≢ pid)
    → Leaves (holding (pid ∷ []) (pid ∷ []) true false false) (initialize calls pid)
unfolding initialize follow allowed
initialize-Leaves calls pid apart =
    elim (Bool-cases (calls.inits_util && (calls.inits_log && calls.inits_controller))) [
      | inr fails ↦ rw (fails, initialize) (give_up-Leaves pid true false)
      | inl ready ↦
          rw (ready, initialize)
            (Leaves-after (initialized ∷ []) (start_serving calls pid)
              (holding (pid ∷ []) (pid ∷ []) true false false)
              (holding (pid ∷ []) (pid ∷ []) true false false) refl
              (start_serving-Leaves calls pid apart))
    ]

start_up-Leaves :
    (calls : StartCalls) (pid : ℕ)
    → calls.init_memory ≢ errno_of_failure
    → ((fd : ℕ) → calls.persistence_file ≡ some fd → fd ≢ pid)
    → Leaves (holding (pid ∷ []) (pid ∷ []) false false false) (start_up calls pid)
unfolding start_up follow allowed when
start_up-Leaves calls pid maps apart = by_result calls.init_memory maps
  where
    by_result :
        (r : MemoryResult)
        → r ≢ errno_of_failure
        → Leaves (holding (pid ∷ []) (pid ∷ []) false false false) (
            after (set_signals ∷ []) (elim r as (λ x. Exit × List Step) [
              | below_zero ↦ leave exit_failure (some pid) none
              | no_error ↦ after (mapped ∷ []) (initialize calls pid)
              | errno_of_failure ↦ after (not_mapped ∷ []) (initialize calls pid)
            ]))
    by_result below_zero ne =
        let h = holding (pid ∷ []) (pid ∷ []) false false false in
        Leaves-after (set_signals ∷ []) (leave exit_failure (some pid) none) h h refl
          (leave_pid h pid refl (inr refl))
    by_result no_error ne =
        let h = holding (pid ∷ []) (pid ∷ []) false false false in
        Leaves-after (set_signals ∷ []) (after (mapped ∷ []) (initialize calls pid)) h h refl (
          Leaves-after (mapped ∷ []) (initialize calls pid) h
            (holding (pid ∷ []) (pid ∷ []) true false false) refl
            (initialize-Leaves calls pid apart))
    by_result errno_of_failure ne = absurd (ne refl)

-- If init_memory does not fail with an errno, which main takes for a success, and the persistence
-- file does not get the descriptor that the PID's file has, then on every way through `main` the
-- steps come in an order that is allowed and no file is left open or locked. If it exits with
-- success, the persistence file was read, the server has stopped and the memory is gone.
pub main-Leaves :
    (calls : StartCalls)
    → calls.init_memory ≢ errno_of_failure
    → ((pid fd : ℕ) → calls.pid_file ≡ some pid → calls.persistence_file ≡ some fd → fd ≢ pid)
    → Leaves nothing_held (main calls)
unfolding main follow allowed is_in when
main-Leaves calls maps apart = elim (Bool-cases calls.parses) [
  | inr fails ↦ rw (fails, main) (leave_early nothing_held refl refl)
  | inl parsed ↦ elim (Option-cases calls.pid_file) [
    | inl none_there ↦
        rw (parsed, main)
          (rw none_there (
            Leaves-after (complained ∷ []) (leave exit_failure none none) nothing_held nothing_held
              refl (leave_early nothing_held refl refl)))
    | inr (pid, there) ↦ elim (Bool-cases calls.locks_pid) [
      | inr no_lock ↦
          rw (parsed, main)
            (rw there (
              rw no_lock (
                Leaves-after (opened pid ∷ complained ∷ []) (leave exit_failure (some pid) none)
                  nothing_held (holding (pid ∷ []) [] false false false) refl
                  (leave_pid (holding (pid ∷ []) [] false false false) pid refl (inl refl)))))
      | inl lock ↦
          rw (parsed, main)
            (rw there (
              rw lock (
                Leaves-after (opened pid ∷ locked pid ∷ wrote_pid pid ∷ []) (start_up calls pid)
                  nothing_held (holding (pid ∷ []) (pid ∷ []) false false false) (ground arith)
                  (start_up-Leaves calls pid maps (λ fd h. apart pid fd there h)))))
    ]
  ]
]
