-- ===== src/Server/Stopped.antt =====
-- What stop_server of src/server.c leaves behind.
use cik.Prelude.{
  map, ℕ, ◌+◌, ◌≡◌, ◌≢◌, ◌↔◌, inl, inr, refl, ap, subst, Bool, true, false, Option, none, some,
  List, [], ◌∷◌, ◌==◌, if◌then◌else◌, arith, Option-cases,
}
use cik.Memory.{Memory}
use cik.Memory.Buckets.{count, IsMemory, same_count-IsMemory}
use cik.Memory.Safety.{release_memory-IsMemory}
use cik.Server.Connections.{Client, close_all, close_client, close_fd, clear_worker}
use cik.Server.Starting.{Worker, close}
use cik.Server.Buffers.{in_use, HaveBuffers}
use cik.Server.Stopping.{close_clients, run_worker, join_workers, Process, stop_server}
use mathlib.Core.Option
use native.Mathlib.Decide.{ℕ_discrete}
use cik.Threads.{ThreadStatus, thrd_success}

-- The worker after its thread: without its buffer if epoll_create succeeded, else as it was.
abbrev pub ended : Option ℕ → Worker → Worker
ended none worker = worker
ended (some epfd) worker = record worker {
  payload_buffer = record { base = none; nmemb = 0; cap = 0 };
}

count-in_use :
    (workers : List Worker) (live : List ℕ) (a : ℕ)
    → count a (in_use workers live) ≡ count a (in_use workers []) + count a live
unfolding in_use
count-in_use [] live a = omega arith
count-in_use (worker ∷ workers) live a = elim (Option-cases worker.payload_buffer.base) [
  | inl e ↦ rw (e, in_use) (count-in_use workers live a)
  | inr (b, e) ↦
      rw (e, in_use)
        (omega (arith, count-in_use workers (b ∷ live) a, count-in_use workers (b ∷ []) a))
]

in_use-front :
    (m : Memory) (workers : List Worker) (b : ℕ) (live : List ℕ)
    → IsMemory m (in_use workers (b ∷ live))
    → IsMemory m (b ∷ in_use workers live)
in_use-front m workers b live =
    same_count-IsMemory m (in_use workers (b ∷ live)) (b ∷ in_use workers live)
      (λ a. omega (arith, count-in_use workers (b ∷ live) a, count-in_use workers live a))

-- What is left of the workers and of the memory when all threads are joined.
abbrev pub Joined : (ℕ → Option ℕ) → List Worker → List ℕ → Option (List Worker × Memory) → Type 0
Joined epfds workers live none = ⊥
Joined epfds workers live (some (workers', m')) =
    (workers' ≡ map (λ (w : Worker). ended (epfds w.id) w) workers)
    × IsMemory m' (in_use workers' live)

run_worker-ended :
    (epfd : Option ℕ) (worker : Worker) (m : Memory) (rest : List Worker) (live : List ℕ) (b : ℕ)
    → worker.payload_buffer.base ≡ some b
    → IsMemory m (in_use rest (b ∷ live))
    → (live' : List ℕ) × (m' : Memory) × (status : ThreadStatus) × (run_worker epfd worker m
        ≡ some (status, ended epfd worker, m'))
      × IsMemory m' (in_use rest live')
      × ((ws : List Worker) → in_use ws live' ≡ in_use (ended epfd worker ∷ ws) live)
unfolding run_worker in_use
run_worker-ended none worker m rest live b got mem =
    (b ∷ live, m, _, refl, mem, λ ws. rw (got, in_use) refl)
run_worker-ended (some epfd) worker m rest live b got mem =
    let (m', gone, mem') =
      release_memory-IsMemory m (in_use rest live) b (in_use-front m rest b live mem) in
    (live, m', thrd_success, rw (got, run_worker) (rw gone refl), mem', λ ws. refl)

pub join_workers-Joined :
    (epfds : ℕ → Option ℕ) (workers : List Worker) (m : Memory) (live : List ℕ)
    → HaveBuffers workers
    → IsMemory m (in_use workers live)
    → Joined epfds workers live (join_workers epfds workers m)
unfolding join_workers in_use
join_workers-Joined epfds [] m live have mem = (refl, mem)
join_workers-Joined epfds (worker ∷ workers) m live (b, got, have) mem =
    let mem₁ : IsMemory m (in_use workers (b ∷ live)) =
      subst
        (λ t. IsMemory m (
          in_use workers (elim t as (λ x. List ℕ) [ none ↦ live | some address ↦ address ∷ live ])))
        got mem in
    let (live', m', status, ran, mem', front) =
      run_worker-ended (epfds worker.id) worker m workers live b got mem₁ in
    rw (ran, join_workers)
      (joined (join_workers epfds workers m') (join_workers-Joined epfds workers m' live' have mem')
        front)
  where
    joined :
        {live' : List ℕ} (r : Option (List Worker × Memory))
        → Joined epfds workers live' r
        → ((ws : List Worker) → in_use ws live' ≡ in_use (ended (epfds worker.id) worker ∷ ws) live)
        → Joined epfds
            (worker ∷ workers)
            live
            (Option.map (λ (ws, m''). (ended (epfds worker.id) worker ∷ ws, m'')) r)
    joined none j front = absurd j
    joined (some (ws, m'')) (same, mem'') front =
        (ap (λ t. ended (epfds worker.id) worker ∷ t) same, subst (IsMemory m'') (front ws) mem'')

abbrev pub is_open : ℕ → List ℕ → Bool
is_open fd [] = false
is_open fd (other ∷ fds) = if other == fd then true else is_open fd fds

-- Whether a client has the descriptor.
abbrev pub is_fd_of : ℕ → List Client → Bool
is_fd_of fd [] = false
is_fd_of fd (client ∷ clients) = elim client.fd [
  | none ↦ is_fd_of fd clients
  | some other ↦ if other == fd then true else is_fd_of fd clients
]

abbrev pub AllClosed : List Client → Type 0
AllClosed [] = Unit
AllClosed (client ∷ clients) = (client.fd ≡ none) × AllClosed clients

-- What is left of the process: of its descriptors those of others, closed clients, joined threads.
abbrev pub Stopped : (ℕ → Option ℕ) → ℕ → ℕ → Process → List ℕ → Option Process → Type 0
Stopped epfds fd epfd p live none = ⊥
Stopped epfds fd epfd p live (some p') =
    (p'.is_running ≡ false)
    × ((other : ℕ)
        → (is_open other p'.fds ≡ true) ↔ (
            (is_open other p.fds ≡ true)
            × (fd ≢ other)
            × (epfd ≢ other)
            × (is_fd_of other p.clients ≡ false)))
    × AllClosed p'.clients
    × Joined epfds p.workers live (some (p'.workers, p'.memory))

is_open-close :
    (fd other : ℕ) (fds : List ℕ)
    → (is_open other (close fd fds) ≡ true) ↔ ((is_open other fds ≡ true) × (fd ≢ other))
unfolding close
is_open-close fd other [] = ground arith
is_open-close fd other (a ∷ fds) =
    let ih = is_open-close fd other fds in
    elim (ℕ_discrete a fd) [
      | yes same ↦ ground (arith, same, ih)
      | no apart ↦ ground (arith, apart, ih)
    ]

is_open-close_clients :
    (other : ℕ) (clients : List Client) (fds : List ℕ)
    → (is_open other (close_clients clients fds) ≡ true)
      ↔ ((is_open other fds ≡ true) × (is_fd_of other clients ≡ false))
unfolding close_clients
is_open-close_clients other [] fds = ground arith
is_open-close_clients other (client ∷ clients) fds = elim (Option-cases client.fd) [
  | inl e ↦ rw (e, close_clients) (is_open-close_clients other clients fds)
  | inr (fd, e) ↦
      let ih = is_open-close_clients other clients (close fd fds) in
      let own = is_open-close fd other fds in
      rw (e, close_clients)
        (elim (ℕ_discrete fd other) [
          | yes same ↦ ground (arith, same, ih, own)
          | no apart ↦ ground (arith, apart, ih, own)
        ])
]

close_all-AllClosed : (clients : List Client) → AllClosed (close_all clients)
unfolding close_all close_client close_fd clear_worker
close_all-AllClosed [] = tt
close_all-AllClosed (client ∷ clients) = elim (Option-cases client.fd) [
  | inl e ↦ rw (e, close_client) (e, close_all-AllClosed clients)
  | inr (fd, e) ↦ rw (e, close_client) (refl, close_all-AllClosed clients)
]

left_open :
    (other fd epfd : ℕ) (clients : List Client) (fds : List ℕ)
    → (is_open other (close fd (close epfd (close_clients clients fds))) ≡ true) ↔ (
        (is_open other fds ≡ true)
        × (fd ≢ other)
        × (epfd ≢ other)
        × (is_fd_of other clients ≡ false))
left_open other fd epfd clients fds = ground (
  arith,
  is_open-close fd other (close epfd (close_clients clients fds)),
  is_open-close epfd other (close_clients clients fds),
  is_open-close_clients other clients fds,
)

-- If every worker has a buffer of its own, `stop_server` ends, whatever epoll_create returned in the
-- threads. Of the descriptors just those of the server and of the clients are gone, no client has
-- one, and the workers whose epoll_create succeeded have given back their buffers; those of the
-- others stay in use.
pub stop_server-Stopped :
    (epfds : ℕ → Option ℕ) (fd epfd : ℕ) (p : Process) (live : List ℕ)
    → HaveBuffers p.workers
    → IsMemory p.memory (in_use p.workers live)
    → Stopped epfds fd epfd p live (stop_server epfds fd epfd p)
unfolding stop_server
stop_server-Stopped epfds fd epfd p live have mem =
    stopped (join_workers epfds p.workers p.memory)
      (join_workers-Joined epfds p.workers p.memory live have mem)
  where
    stopped :
        (r : Option (List Worker × Memory))
        → Joined epfds p.workers live r
        → Stopped epfds fd epfd p live (
            Option.map
              (λ (workers', m'). record {
                is_running = false;
                fds = close fd (close epfd (close_clients p.clients p.fds));
                clients = close_all p.clients;
                workers = workers';
                memory = m';
              })
              r)
    stopped none j = absurd j
    stopped (some (ws, m')) j =
        (refl, (λ other. left_open other fd epfd p.clients p.fds), close_all-AllClosed p.clients, j)
