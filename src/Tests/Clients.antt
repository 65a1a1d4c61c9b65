-- ===== src/Tests/Clients.antt =====
-- Witnesses for the table of clients.
use cik.Prelude.{
  ℕ, ◌+◌, ◌%◌, ◌≡◌, ◌⊎◌, refl, true, false, none, some, [], ◌∷◌, get_elem?, set, take, arith,
}
use cik.Protocol.{status_bug}
use cik.Server.Connections.{
  Client, Server, no_counters, incoming, accept, close, run, init_clients, close_fd, clear_worker,
  update, accepted_as, wait_for_new_connection, check_worker, num_workers,
}
use cik.Memory.{init_memory}
use cik.Server.Starting.{Calls, start_server}
use cik.Server.Buffers.{StartedWell}
use cik.Server.Startup.{init_memory-start_server}
use cik.Server.Slots.{AllOpen, IsServer, run-init_clients}
use cik.Server.Accepting.{wait_for_new_connection-first, close_loses_worker}

abbrev client : ℕ → Client
client fd = record { fd = some fd; worker = some 3; counters = no_counters }

abbrev free_client : Client
free_client = record { fd = none; worker = none; counters = no_counters }

abbrev server : Server
server = record { clients = client 5 ∷ client 6 ∷ free_client ∷ []; worker_id = 15 }

run-init_clients_example :
    IsServer (run (accept (incoming (some 5) true) ∷ close 0 ∷ []) init_clients)
run-init_clients_example = run-init_clients (accept (incoming (some 5) true) ∷ close 0 ∷ [])

wait_for_new_connection-first_example :
    (AllOpen server.clients
      × (wait_for_new_connection (incoming (some 7) true) server ≡ (false, server)))
    ⊎ ((i : ℕ) × (found : Client) × (get_elem? server.clients i ≡ some found)
        × (found.fd ≡ none)
        × AllOpen (take i server.clients)
        × (wait_for_new_connection (incoming (some 7) true) server ≡ (
          true,
          record server {
            clients = set server.clients i (accepted_as 7 server.worker_id found);
            worker_id = (server.worker_id + 1) % num_workers;
          },
        )))
wait_for_new_connection-first_example = wait_for_new_connection-first 7 server

close_loses_worker_example :
    let closing = update close_fd 1 server in
    let (returns_0, accepted) = wait_for_new_connection (incoming (some 7) true) closing in
    (returns_0 ≡ true)
    × ((after : Client) × (get_elem? (update clear_worker 1 accepted).clients 1 ≡ some after)
        × (after.fd ≡ some 7)
        × (check_worker after ≡ some status_bug))
unfolding AllOpen
close_loses_worker_example = close_loses_worker server 1 6 7 (client 6) refl refl ((5, refl), tt)

abbrev calls : Calls
calls = record { socket = some 3; binds = true; listens = true; epoll_create = some 4; adds = true }

init_memory-start_server_example : StartedWell [] (start_server calls (init_memory 0x10000 3 64))
init_memory-start_server_example =
    init_memory-start_server calls 0x10000 3 64 (omega arith) (omega arith)
