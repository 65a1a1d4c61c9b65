-- ===== src/Server/Accepting.antt =====
-- Which slot of the table of src/server.c a connection gets, and what a closing that has not ended
-- does to it.
use cik.Prelude.{
  ℕ, zero, suc, ◌+◌, ◌%◌, ◌≡◌, ◌⊎◌, inl, inr, refl, sym, ap, subst, true, false, none, some, List,
  [], ◌∷◌, get_elem?, get_elem?-set_self, lt_of_get_elem?, set, take, arith, Option-cases,
}
use cik.Protocol.{status_bug}
use cik.Server.Connections.{
  num_workers, check_worker, accepted_as, clear_worker, incoming, close_fd, accept_into, Server,
  wait_for_new_connection, update, Client, find_free,
}
use cik.Server.Slots.{AllOpen}

-- The slot that is found is free, and those before it are not.
find_free-first :
    (clients : List Client) (i : ℕ)
    → find_free clients ≡ some i
    → ((client : Client) × (get_elem? clients i ≡ some client) × (client.fd ≡ none))
      × AllOpen (take i clients)
unfolding find_free AllOpen
find_free-first [] i h = ground (arith, h)
find_free-first (client ∷ clients) i h = elim (Option-cases client.fd) [
  | inl e ↦
      let same : i ≡ 0 = ground (arith, h, e) in
      subst
        (λ k.
          ((c : Client) × (get_elem? (client ∷ clients) k ≡ some c) × (c.fd ≡ none))
          × AllOpen (take k (client ∷ clients)))
        (sym same) ((client, refl, e), tt)
  | inr (fd, e) ↦ elim (Option-cases (find_free clients)) [
    | inl e' ↦ ground (arith, h, e, e')
    | inr (j, e') ↦
        let same : i ≡ suc j = ground (arith, h, e, e') in
        let (free, before) = find_free-first clients j e' in
        subst
          (λ k.
            ((c : Client) × (get_elem? (client ∷ clients) k ≡ some c) × (c.fd ≡ none))
            × AllOpen (take k (client ∷ clients)))
          (sym same) (free, ((fd, e), before))
  ]
]

find_free-at :
    (clients : List Client) (i : ℕ) (client : Client)
    → get_elem? clients i ≡ some client
    → client.fd ≡ none
    → AllOpen (take i clients)
    → find_free clients ≡ some i
unfolding find_free AllOpen
find_free-at [] i client at free before = ground (arith, at)
find_free-at (c ∷ cs) zero client at free before =
    let same : c ≡ client = ground (arith, at) in
    let none_there : c.fd ≡ none = subst (λ x. x.fd ≡ none) (sym same) free in
    rw (none_there, find_free) refl
find_free-at (c ∷ cs) (suc i) client at free ((fd, e), before) =
    rw (e, find_free) (rw (find_free-at cs i client at free before) refl)

find_free-full : (clients : List Client) → find_free clients ≡ none → AllOpen clients
unfolding find_free AllOpen
find_free-full [] h = tt
find_free-full (client ∷ clients) h = elim (Option-cases client.fd) [
  | inl e ↦ ground (arith, h, e)
  | inr (fd, e) ↦ elim (Option-cases (find_free clients)) [
    | inl e' ↦ ((fd, e), find_free-full clients e')
    | inr (j, e') ↦ ground (arith, h, e, e')
  ]
]

update-some :
    (step : Client → Client) (i : ℕ) (server : Server) (client : Client)
    → get_elem? server.clients i ≡ some client
    → update step i server ≡ record server { clients = set server.clients i (step client) }
unfolding update
update-some step i server client at = rw (at, update) refl

-- A connection that comes goes to the first client that is free, with all counters zero and the
-- server's next worker, after which the worker behind that (the first behind the last) is next; no
-- other client is changed. If every client is open, 0 is not returned and nothing is changed.
pub wait_for_new_connection-first :
    (fd : ℕ) (server : Server)
    → (AllOpen server.clients
        × (wait_for_new_connection (incoming (some fd) true) server ≡ (false, server)))
      ⊎ ((i : ℕ) × (client : Client) × (get_elem? server.clients i ≡ some client)
          × (client.fd ≡ none)
          × AllOpen (take i server.clients)
          × (wait_for_new_connection (incoming (some fd) true) server ≡ (
            true,
            record server {
              clients = set server.clients i (record {
                fd = some fd;
                worker = some server.worker_id;
                counters = record {
                  get_hit = 0;
                  get_miss = 0;
                  set = 0;
                  del = 0;
                  clr = 0;
                  lst = 0;
                  nfo = 0;
                };
              });
              worker_id = (server.worker_id + 1) % num_workers;
            },
          )))
unfolding wait_for_new_connection accept_into
wait_for_new_connection-first fd server = elim (Option-cases (find_free server.clients)) [
  | inl e ↦ inl (find_free-full server.clients e, rw (e, wait_for_new_connection) refl)
  | inr (i, e) ↦
      let ((client, at, free), before) = find_free-first server.clients i e in
      inr (
        i,
        client,
        at,
        free,
        before,
        rw (e, wait_for_new_connection)
            (ap (λ s. (true, record s { worker_id = (server.worker_id + 1) % num_workers }))
              (update-some (accepted_as fd server.worker_id) i server client at)),
      )
]

AllOpen-take_set :
    (clients : List Client) (i : ℕ) (client : Client)
    → AllOpen (take i clients)
    → AllOpen (take i (set clients i client))
unfolding AllOpen
AllOpen-take_set [] i client h = h
AllOpen-take_set (c ∷ cs) zero client h = h
AllOpen-take_set (c ∷ cs) (suc i) client (p, h) = (p, AllOpen-take_set cs i client h)

-- If a connection is accepted between the two stores of `close_client`, on the first client that is
-- then free, the second store takes the worker from the new connection: it has its file descriptor
-- and no worker, and is answered STATUS_BUG.
pub close_loses_worker :
    (server : Server) (i fd fd' : ℕ) (client : Client)
    → get_elem? server.clients i ≡ some client
    → client.fd ≡ some fd
    → AllOpen (take i server.clients)
    → let closing = update close_fd i server in
      let (returns_0, accepted) = wait_for_new_connection (incoming (some fd') true) closing in
      (returns_0 ≡ true)
      × ((after : Client) × (get_elem? (update clear_worker i accepted).clients i ≡ some after)
          × (after.fd ≡ some fd')
          × (check_worker after ≡ some status_bug))
unfolding wait_for_new_connection accept_into close_fd clear_worker check_worker
close_loses_worker server i fd fd' client at is_open before =
    let lt = lt_of_get_elem? server.clients i client at in
    let clients₁ = set server.clients i (close_fd client) in
    let closing : Server = record server { clients = clients₁ } in
    let first = update-some close_fd i server client at in
    let at₁ = get_elem?-set_self server.clients i (close_fd client) lt in
    let found =
      find_free-at clients₁ i (close_fd client) at₁ refl
        (AllOpen-take_set server.clients i (close_fd client) before) in
    let new = accepted_as fd' server.worker_id (close_fd client) in
    let clients₂ = set clients₁ i new in
    let accepted : Server = record closing {
      clients = clients₂;
      worker_id = (server.worker_id + 1) % num_workers;
    } in
    let second : wait_for_new_connection (incoming (some fd') true) closing ≡ (true, accepted) =
      rw (found, wait_for_new_connection)
        (ap (λ s. (true, record s { worker_id = (server.worker_id + 1) % num_workers }))
          (update-some (accepted_as fd' server.worker_id) i closing (close_fd client) at₁)) in
    let lt₁ = lt_of_get_elem? clients₁ i (close_fd client) at₁ in
    let at₂ = get_elem?-set_self clients₁ i new lt₁ in
    let third = update-some clear_worker i accepted new at₂ in
    let lt₂ = lt_of_get_elem? clients₂ i new at₂ in
    rw first (
      rw second (
        rw third (
          refl,
          (clear_worker new, get_elem?-set_self clients₂ i (clear_worker new) lt₂, refl, refl),
        )))
