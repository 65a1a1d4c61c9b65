-- ===== src/Server/Stopping.antt =====
-- The end of the workers' threads and stop_server of src/server.c.
use mathlib.Core.Option
use cik.Prelude.{ℕ, Bool, false, Option, none, some, List, [], ◌∷◌}
use cik.Memory.{Memory, release_memory}
use cik.Threads.{ThreadStatus, thrd_success, thrd_error}
use cik.Server.Connections.{Client, close_all}
use cik.Server.Starting.{Worker, close}

-- With what epoll_create returns (`none` is an error), from there to the thread's end; the loop
-- between the two leaves the address of the buffer as it is. Its epoll
-- descriptor is opened and closed here. `none` is the release of NULL.
unfoldable pub run_worker : Option ℕ → Worker → Memory → Option (ThreadStatus × Worker × Memory)
run_worker none worker m = some (thrd_error, worker, m)
run_worker (some epfd) worker m = elim worker.payload_buffer.base [
  | none ↦ none
  | some address ↦
      Option.map
        (λ m'. (
          thrd_success,
          record worker { payload_buffer = record { base = none; nmemb = 0; cap = 0 } },
          m',
        ))
        (release_memory address m)
]

-- `for (w = 0; w < NUM_WORKERS; ++w)`: each worker's thread has ended when it is joined. The first
-- argument is what epoll_create returned in the thread of each id. The thrd_join of <threads.h> gives
-- no bucket back.
unfoldable pub join_workers : (ℕ → Option ℕ) → List Worker → Memory → Option (List Worker × Memory)
unfolding run_worker
join_workers epfds [] m = some ([], m)
join_workers epfds (worker ∷ workers) m = elim (run_worker (epfds worker.id) worker m) [
  | none ↦ none
  | some (status, worker', m') ↦
      Option.map (λ (ws, m''). (worker' ∷ ws, m'')) (join_workers epfds workers m')
]

-- The descriptors that `close_all` closes.
unfoldable pub close_clients : List Client → List ℕ → List ℕ
unfolding close
close_clients [] fds = fds
close_clients (client ∷ clients) fds =
    close_clients clients (elim client.fd [ none ↦ fds | some fd ↦ close fd fds ])

-- `is_running`, the descriptors that are open, the clients, the workers and the memory.
pub record Process : Type 0 where
  pub is_running : Bool
  pub fds : List ℕ
  pub clients : List Client
  pub workers : List Worker
  pub memory : Memory

-- With what epoll_create returned for the workers, and the server's fd and epfd.
unfoldable pub stop_server : (ℕ → Option ℕ) → ℕ → ℕ → Process → Option Process
unfolding join_workers close_all close_clients close
stop_server epfds fd epfd p =
    Option.map
      (λ (workers', m'). record {
        is_running = false;
        fds = close fd (close epfd (close_clients p.clients p.fds));
        clients = close_all p.clients;
        workers = workers';
        memory = m';
      })
      (join_workers epfds p.workers p.memory)
