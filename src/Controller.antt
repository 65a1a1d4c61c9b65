-- ===== src/Controller.antt =====
-- The request handlers of src/controller.c, and their dispatch.
pub mod Reading
pub mod Get
pub mod Set
pub mod Del
pub mod Clr
pub mod Lst
pub mod Nfo
pub mod Keeps
pub mod Room
pub mod Deleted
pub mod Ended
pub mod Deletion
pub mod Stored
pub mod Cleared
pub mod Spared
pub mod Matched
pub mod Listed
pub mod Answered
use cik.Prelude.{ℕ, ◌+◌, ◌%◌, ◌^◌, Bool, true, false, ◌==◌, if◌then◌else◌, not}
use cik.Memory.{add32}
use cik.Protocol.{Request, byte_at, has_control_bytes, status_protocol_error}
use cik.World.{World, PerCommand, Exec, ok, stop, crash, null_payload, fail, modify, ◌>>=◌, ◌>>◌}
use Get.{handle_get_request}
use Set.{handle_set_request}
use Del.{handle_del_request}
use Clr.{handle_clr_request}
use Lst.{handle_lst_request}
use Nfo.{handle_nfo_request}

-- `CMD_BYTE_…` of src/types.h.
pub data Command : Type 0 where
  get set del clr lst nfo : Command

unfoldable pub decode_op : ℕ → (Command → Exec (Unit {0})) → Exec (Unit {0})
decode_op op run =
    if op == 0x67
    then run get
    else if op == 0x73
    then run set
    else if op == 0x64
    then run del
    else if op == 0x63
    then run clr
    else if op == 0x6C
    then run lst
    else if op == 0x6E
    then run nfo
    else fail status_protocol_error

-- One more in the field of the command.
add_to : ℕ → ℕ → Command → PerCommand → PerCommand
add_to amount width get c = record c { get = (c.get + amount) % 2 ^ width }
add_to amount width set c = record c { set = (c.set + amount) % 2 ^ width }
add_to amount width del c = record c { del = (c.del + amount) % 2 ^ width }
add_to amount width clr c = record c { clr = (c.clr + amount) % 2 ^ width }
add_to amount width lst c = record c { lst = (c.lst + amount) % 2 ^ width }
add_to amount width nfo c = record c { nfo = (c.nfo + amount) % 2 ^ width }

-- The worker's timer and counter are updated whatever the handler's status.
unfoldable pub account : Command → World → World
unfolding add_to
account c w = record w {
  worker_timers = add_to w.ticks 64 c w.worker_timers;
  worker_counters = add_to 1 32 c w.worker_counters;
}

unfoldable pub timed : Command → Exec (Unit {0}) → Exec (Unit {0})
unfolding account
timed c m w = elim (m w) [
  | ok a w' ↦ ok a (account c w')
  | stop s w' ↦ stop s (account c w')
  | crash ↦ crash
]

unfoldable pub handler : Command → Request → Exec (Unit {0})
handler get r = handle_get_request r
handler set r = handle_set_request r
handler del r = handle_del_request r
handler clr r = handle_clr_request r
handler lst r = handle_lst_request r
handler nfo r = handle_nfo_request r

-- The client, its worker and the request are never NULL here.
unfoldable pub handle_request : Request → Exec (Unit {0})
unfolding decode_op timed handler
handle_request request =
    if has_control_bytes request
    then (do
      modify (λ w. record w { response = null_payload })
      decode_op (byte_at 3 request) (λ c. timed c (handler c request)))
    else fail status_protocol_error
