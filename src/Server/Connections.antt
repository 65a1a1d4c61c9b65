-- ===== src/Server/Connections.antt =====
-- The connections of src/server.c: the table of clients, the thread that accepts and the closing of
-- a client in the steps that another thread can come between.
use mathlib.Core.Option
use cik.Prelude.{
  ℕ, suc, ◌+◌, ◌%◌, Bool, true, false, Option, none, some, List, [], ◌∷◌, get_elem?, set, replicate,
  if◌then◌else◌,
}
use cik.World.{ClientCounters}
use cik.Protocol.{StatusCode, status_bug}

abbrev pub max_num_clients : ℕ
max_num_clients = 0x100

abbrev pub num_workers : ℕ
num_workers = 0x10

-- `fd` is `none` for -1 and `worker` is `none` for NULL, else the worker's place in `workers`.
pub record Client : Type 0 where
  pub fd : Option ℕ
  pub worker : Option ℕ
  pub counters : ClientCounters

-- `clients`, and the static `worker_id` of `wait_for_new_connection`.
pub record Server : Type 0 where
  pub clients : List Client
  pub worker_id : ℕ

abbrev pub no_counters : ClientCounters
no_counters = record { get_hit = 0; get_miss = 0; set = 0; del = 0; clr = 0; lst = 0; nfo = 0 }

-- What epoll_wait returns: below 0, 0, or an event with or without EPOLLIN. With it come what accept
-- and epoll_ctl return then.
pub data Event : Type 0 where
  failed timeout unexpected : Event
  incoming : Option ℕ → Bool → Event

-- `for (i = 0; i < MAX_NUM_CLIENTS; ++i)`: the first client whose fd is -1.
unfoldable pub find_free : List Client → Option ℕ
find_free [] = none
find_free (client ∷ clients) =
    let later = Option.map suc (find_free clients) in
    elim client.fd [ none ↦ some 0 | some fd ↦ later ]

-- `close_client`: first the fd, then the worker.
unfoldable pub close_fd : Client → Client
close_fd client = record client { fd = none }

unfoldable pub clear_worker : Client → Client
clear_worker client = record client { worker = none }

unfoldable pub close_client : Client → Client
unfolding close_fd clear_worker
close_client client = elim client.fd [ none ↦ client | some fd ↦ clear_worker (close_fd client) ]

-- A step on one client of the table.
unfoldable pub update : (Client → Client) → ℕ → Server → Server
update step i server = elim (get_elem? server.clients i) [
  | none ↦ server
  | some client ↦ record server { clients = set server.clients i (step client) }
]

-- A client once it has its fd, its counters and its worker.
abbrev pub accepted_as : ℕ → ℕ → Client → Client
accepted_as fd worker_id client = record {
  fd = some fd;
  worker = some worker_id;
  counters = no_counters;
}

-- From accept on. An fd below 0 is left as -1; a client that epoll_ctl refuses is closed.
unfoldable pub accept_into : ℕ → Option ℕ → Bool → Server → Bool × Server
unfolding update close_client
accept_into i none added server = (false, update (λ client. record client { fd = none }) i server)
accept_into i (some fd) added server =
    let server' = update (accepted_as fd server.worker_id) i server in
    if added
    then (true, record server' { worker_id = (server.worker_id + 1) % num_workers })
    else (false, update close_client i server')

-- Whether 0 is returned, and the server after it.
unfoldable pub wait_for_new_connection : Event → Server → Bool × Server
unfolding find_free accept_into
wait_for_new_connection failed server = (false, server)
wait_for_new_connection timeout server = (true, server)
wait_for_new_connection unexpected server = (true, server)
wait_for_new_connection (incoming accepted added) server = elim (find_free server.clients) [
  | none ↦ (false, server)
  | some i ↦ accept_into i accepted added server
]

-- The clients are zero but for their fd; -1 goes there.
unfoldable pub init_clients : Server
init_clients = record {
  clients = replicate max_num_clients (record { fd = none; worker = none; counters = no_counters });
  worker_id = 0;
}

-- What the threads do to the table, each in one go.
pub data Action : Type 0 where
  accept : Event → Action
  close : ℕ → Action

-- The accept thread's loop and the workers' closings, in the order in which they happen.
unfoldable pub run : List Action → Server → Server
unfolding wait_for_new_connection update close_client
run [] server = server
run (accept event ∷ actions) server = run actions (wait_for_new_connection event server).1
run (close i ∷ actions) server = run actions (update close_client i server)

-- `for (i = 0; i < MAX_NUM_CLIENTS; ++i) close_client (&clients[i])` of stop_server.
unfoldable pub close_all : List Client → List Client
unfolding close_client
close_all [] = []
close_all (client ∷ clients) = close_client client ∷ close_all clients

-- The test at the start of `handle_request`: a client without a worker gets STATUS_BUG.
unfoldable pub check_worker : Client → Option StatusCode
check_worker client = elim client.worker [ none ↦ some status_bug | some id ↦ none ]
