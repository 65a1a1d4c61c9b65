-- ===== src/Server/Slots.antt =====
-- The table of clients of src/server.c: what accepting and closing keep, which slot a connection
-- gets, and what a closing in two steps lets happen.
use cik.Prelude.{
  get_elem?-set_cases, length-replicate, ℕ, zero, suc, ◌+◌, ◌%◌, ◌<◌, ◌≡◌, inl, inr, refl, sym, ◌∙◌,
  subst, Bool, true, false, Option, none, some, List, [], ◌∷◌, length, length-set, get_elem?,
  replicate, arith, Option-cases,
}
use cik.Server.Connections.{
  init_clients, max_num_clients, no_counters, accepted_as, num_workers, Client, Server, Event,
  failed, timeout, unexpected, incoming, find_free, close_fd, clear_worker, close_client, update,
  accept_into, wait_for_new_connection, Action, accept, close, run,
}

-- An open client has a worker.
unfoldable pub IsServed : Client → Type 0
IsServed client =
    (fd : ℕ) → client.fd ≡ some fd → (w : ℕ) × (client.worker ≡ some w) × (w < num_workers)

-- As many clients as ever, the next worker a worker, and every client served.
pub record IsServer (server : Server) : Type 0 where
  pub size : length server.clients ≡ max_num_clients
  pub next : server.worker_id < num_workers
  pub served :
      (i : ℕ) (client : Client) → get_elem? server.clients i ≡ some client → IsServed client

unfoldable pub AllOpen : List Client → Type 0
AllOpen [] = Unit
AllOpen (client ∷ clients) = ((fd : ℕ) × (client.fd ≡ some fd)) × AllOpen clients

update-IsServer :
    (step : Client → Client) (i : ℕ) (server : Server)
    → ((client : Client) → IsServed client → IsServed (step client))
    → IsServer server
    → IsServer (update step i server)
unfolding update
update-IsServer step i server keeps h = elim (Option-cases (get_elem? server.clients i)) [
  | inl e ↦ rw (e, update) h
  | inr (client, e) ↦
      rw (e, update)
        (record {
          size = length-set server.clients i (step client) ∙ h.size;
          next = h.next;
          served = λ j c at. elim (get_elem?-set_cases server.clients i j (step client) c at) [
            | inl new ↦ subst IsServed (sym new) (keeps client (h.served i client e))
            | inr old ↦ h.served j c old
          ];
        })
]

close-IsServed : (client : Client) → IsServed client → IsServed (close_client client)
unfolding IsServed close_client close_fd clear_worker
close-IsServed client h = elim (Option-cases client.fd) [
  | inl e ↦ rw (e, close_client) h
  | inr (fd, e) ↦ rw (e, close_client) (λ fd' at. ground (arith, at))
]

advance-IsServer :
    (server : Server) (n : ℕ)
    → IsServer server
    → IsServer (record server { worker_id = n % num_workers })
advance-IsServer server n h = record { size = h.size; next = omega arith; served = h.served }

accepted-IsServer :
    (fd i : ℕ) (server : Server)
    → IsServer server
    → IsServer (update (accepted_as fd server.worker_id) i server)
unfolding IsServed
accepted-IsServer fd i server h =
    update-IsServer (accepted_as fd server.worker_id) i server
      (λ client s fd' at. (server.worker_id, refl, h.next)) h

accept_into-IsServer :
    (i : ℕ) (accepted : Option ℕ) (added : Bool) (server : Server)
    → IsServer server
    → IsServer (accept_into i accepted added server).1
unfolding accept_into IsServed
accept_into-IsServer i none added server h =
    update-IsServer (λ client. record client { fd = none }) i server
      (λ client s fd at. ground (arith, at)) h
accept_into-IsServer i (some fd) true server h =
    advance-IsServer (update (accepted_as fd server.worker_id) i server) (server.worker_id + 1)
      (accepted-IsServer fd i server h)
accept_into-IsServer i (some fd) false server h =
    update-IsServer close_client i (update (accepted_as fd server.worker_id) i server)
      close-IsServed (accepted-IsServer fd i server h)

wait-IsServer :
    (event : Event) (server : Server)
    → IsServer server
    → IsServer (wait_for_new_connection event server).1
unfolding wait_for_new_connection
wait-IsServer failed server h = h
wait-IsServer timeout server h = h
wait-IsServer unexpected server h = h
wait-IsServer (incoming accepted added) server h = elim (Option-cases (find_free server.clients)) [
  | inl e ↦ rw (e, wait_for_new_connection) h
  | inr (i, e) ↦ rw (e, wait_for_new_connection) (accept_into-IsServer i accepted added server h)
]

run-IsServer :
    (actions : List Action) (server : Server) → IsServer server → IsServer (run actions server)
unfolding run
run-IsServer [] server h = h
run-IsServer (accept event ∷ actions) server h =
    run-IsServer actions (wait_for_new_connection event server).1 (wait-IsServer event server h)
run-IsServer (close i ∷ actions) server h =
    run-IsServer actions (update close_client i server)
      (update-IsServer close_client i server close-IsServed h)

replicate-elem :
    (n i : ℕ) (c client : Client) → get_elem? (replicate n c) i ≡ some client → c ≡ client
replicate-elem zero i c client h = ground (arith, h)
replicate-elem (suc n) zero c client h = ground (arith, h)
replicate-elem (suc n) (suc i) c client h = replicate-elem n i c client h

init_clients-IsServer : IsServer init_clients
unfolding init_clients IsServed
init_clients-IsServer =
    let empty : Client = record { fd = none; worker = none; counters = no_counters } in
    record {
      size = length-replicate max_num_clients empty;
      next = omega arith;
      served = λ i client at.
          subst IsServed (replicate-elem max_num_clients i empty client at)
            (λ fd h. ground (arith, h));
    }

-- From the start of the server on, whatever connections come and whichever clients are closed, if
-- every closing is done before the next accept: the table keeps its 256 clients, the next worker is
-- one of the 16, and every client with a file descriptor has one of them.
pub run-init_clients : (actions : List Action) → IsServer (run actions init_clients)
run-init_clients actions = run-IsServer actions init_clients init_clients-IsServer
