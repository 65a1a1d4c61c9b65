-- ===== src/Tests/Endings.antt =====
-- A witness for the end of the server.
use cik.Prelude.{refl, true, none, some, [], ◌∷◌}
use cik.Log.{log_queue_init}
use cik.Server.Connections.{no_counters}
use cik.Server.Stopping.{Process, stop_server}
use cik.Server.Stopped.{Stopped, stop_server-Stopped}
use cik.Tests.Buckets.{one_used, one_used-IsMemory}

-- The server's fd is 3 and its epfd 4, a client has 5, and 6 is another file.
abbrev one_worker : Process
one_worker = record {
  is_running = true;
  fds = 3 ∷ 4 ∷ 5 ∷ 6 ∷ [];
  clients =
      record { fd = some 5; worker = some 0; counters = no_counters }
      ∷ record { fd = none; worker = none; counters = no_counters }
      ∷ [];
  workers =
      record {
        id = 0;
        payload_buffer = record { base = some 0x10420; nmemb = 0; cap = 0x800000 };
        log_queue = log_queue_init 0x100;
      }
      ∷ [];
  memory = one_used;
}

stop_server-Stopped_example :
    Stopped (λ id. some 7) 3 4 one_worker [] (stop_server (λ id. some 7) 3 4 one_worker)
unfolding cik.Server.Buffers.in_use
stop_server-Stopped_example =
    stop_server-Stopped (λ id. some 7) 3 4 one_worker [] (0x10420, refl, tt) one_used-IsMemory
