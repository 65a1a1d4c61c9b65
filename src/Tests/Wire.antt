-- ===== src/Tests/Wire.antt =====
-- Witnesses for the byte strings, the socket loops and the responses.
use cik.Prelude.{◌≡◌, refl, some, [], ◌∷◌, ◌++◌, arith}
use cik.World.{World, null_payload, worker_buffer}
use cik.Stream.{chunk, takes, read_request_payload, write_response_payload}
use cik.Stream.Reading.{Reads, read_request_payload-Reads}
use cik.Stream.Writing.{Writes, write_response_payload-Writes}
use cik.Protocol.{status_not_found}
use cik.Controller.Get.{serve_entry}
use cik.Server.{respond, payload_bytes}
use cik.Server.Serving.{Served, serve_entry-Served}
use cik.Server.Respond.{respond-lem}
use cik.Tests.Data.{key_a, entry_a, map_a, world}

read_request_payload-Reads_example :
    Reads
      (chunk (1 ∷ 2 ∷ []) ∷ chunk (3 ∷ 4 ∷ 5 ∷ []) ∷ [])
      4
      (read_request_payload (chunk (1 ∷ 2 ∷ []) ∷ chunk (3 ∷ 4 ∷ 5 ∷ []) ∷ []) 4)
read_request_payload-Reads_example =
    read_request_payload-Reads (chunk (1 ∷ 2 ∷ []) ∷ chunk (3 ∷ 4 ∷ 5 ∷ []) ∷ []) 4
      (omega arith, (omega arith, tt))

write_response_payload-Writes_example :
    Writes
      (takes 2 ∷ takes 10 ∷ [])
      (1 ∷ 2 ∷ 3 ∷ [])
      (write_response_payload (takes 2 ∷ takes 10 ∷ []) (1 ∷ 2 ∷ 3 ∷ []))
write_response_payload-Writes_example =
    write_response_payload-Writes (takes 2 ∷ takes 10 ∷ []) (1 ∷ 2 ∷ 3 ∷ [])

abbrev before : World
before = world (map_a ∷ []) (takes 8 ∷ takes 100 ∷ []) [] null_payload

abbrev answered : World
answered = world (map_a ∷ []) (takes 8 ∷ takes 100 ∷ []) [] worker_buffer

serve_entry-Served_example :
    Served 1 (entry_a 100) before (serve_entry key_a 1 map_a (0, entry_a 100) before)
serve_entry-Served_example = serve_entry-Served key_a 1 map_a 0 (entry_a 100) before refl

respond-lem_example :
    respond status_not_found answered
    ≡ some (record answered {
      sends = [];
      output = [] ++ ((0x43 ∷ 0x69 ∷ 0x4B ∷ 0x66 ∷ 0 ∷ 0 ∷ 0 ∷ 0x41 ∷ []) ++ (5 ∷ 6 ∷ []));
    })
unfolding payload_bytes
respond-lem_example =
    respond-lem status_not_found answered (5 ∷ 6 ∷ []) _ 7 99 [] refl refl (omega arith)
      (omega arith) (omega arith) refl
