-- ===== src/Server/Starting.antt =====
-- `start_server` of src/server.c with the results of its calls of the system, and the payload buffers
-- that it reserves.
use cik.Prelude.{
  not, ℕ, zero, suc, ◌+◌, Bool, Option, none, some, List, [], ◌∷◌, ◌==◌, if◌then◌else◌,
}
use cik.Memory.{Memory, max_bucket_size, reserve_memory}
use cik.Log.{LogQueue, log_queue_init}
use cik.Server.Connections.{num_workers}

-- A Payload by its address, `none` for NULL.
pub record Buffer : Type 0 where
  pub base : Option ℕ
  pub nmemb : ℕ
  pub cap : ℕ

-- The fields of Worker that are set before its thread runs.
pub record Worker : Type 0 where
  pub id : ℕ
  pub payload_buffer : Buffer
  pub log_queue : LogQueue

-- The sizes of a buffer that could not be reserved are as they were, 0 in a static worker.
unfoldable pub reserve_biggest_possible_payload : Memory → Buffer × Memory
reserve_biggest_possible_payload m =
    let (found, m') = reserve_memory max_bucket_size m in
    (
      elim found [
        | none ↦ record { base = none; nmemb = 0; cap = 0 }
        | some address ↦ record { base = some address; nmemb = 0; cap = max_bucket_size }
      ],
      m',
    )

-- `for (id = 0; id < NUM_WORKERS; ++id)`, for so many workers from an id on. The thrd_create of
-- <threads.h> takes no bucket.
unfoldable pub start_workers : ℕ → ℕ → Memory → List Worker × Memory
unfolding reserve_biggest_possible_payload
start_workers zero id m = ([], m)
start_workers (suc n) id m =
    let (buffer, m') = reserve_biggest_possible_payload m in
    let rest = start_workers n (id + 1) m' in
    (record { id = id; payload_buffer = buffer; log_queue = log_queue_init 0x100 } ∷ rest.0, rest.1)

-- What socket and epoll_create return (`none` is an error), and whether bind, listen and epoll_ctl
-- succeed.
pub record Calls : Type 0 where
  pub socket : Option ℕ
  pub binds : Bool
  pub listens : Bool
  pub epoll_create : Option ℕ
  pub adds : Bool

-- The descriptors that are left open when an error is returned, or the server's two with its workers.
pub data Started : Type 0 where
  failed : List ℕ → Started
  running : ℕ → ℕ → List Worker → Memory → Started

unfoldable pub close : ℕ → List ℕ → List ℕ
close fd [] = []
close fd (other ∷ fds) = let rest = close fd fds in if other == fd then rest else other ∷ rest

unfoldable pub with_epoll : Calls → ℕ → Memory → Option ℕ → Started
unfolding close start_workers
with_epoll calls fd m none = failed (close fd (fd ∷ []))
with_epoll calls fd m (some epfd) =
    let (workers, m') = start_workers num_workers 0 m in
    if calls.adds
    then running fd epfd workers m'
    else failed (close fd (close epfd (epfd ∷ (fd ∷ []))))

unfoldable pub start_server : Calls → Memory → Started
unfolding with_epoll close
start_server calls m = elim calls.socket [
  | none ↦ failed []
  | some fd ↦
      if not calls.binds
      then failed (close fd (fd ∷ []))
      else if not calls.listens
      then failed (close fd (fd ∷ []))
      else with_epoll calls fd m calls.epoll_create
]
