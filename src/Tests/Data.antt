-- ===== src/Tests/Data.antt =====
-- Inputs for the witnesses.
use cik.Prelude.{ℕ, zero, suc, ◌≡◌, ap, true, some, List, [], ◌∷◌, arith}
use cik.World.{PayloadRef, World}
use cik.Bytes.{Bytes}
use cik.Memory.{Memory, Partition}
use cik.Entry.{free, used, EntryMap, CacheEntry, get_key_hash}
use cik.Entry.Lookup.{IsNew}
use cik.Log.{log_queue_init}
use cik.Stream.{Sending, Incoming}
use cik.Tag.{TagNode}

abbrev pub empty_map : EntryMap
empty_map = free ∷ free ∷ free ∷ free ∷ []

abbrev pub key_a : Bytes
key_a = 97 ∷ []

abbrev pub key_b : Bytes
key_b = 98 ∷ []

abbrev pub entry_a : ℕ → CacheEntry
entry_a address = record {
  address = address;
  key = key_a;
  tags = [];
  value = 1 ∷ 2 ∷ 3 ∷ [];
  mtime = 7;
  expires = some 9;
  nhits = 0;
}

abbrev pub map_a : EntryMap
map_a = used (get_key_hash key_a) (entry_a 100) ∷ free ∷ free ∷ free ∷ []

pub empty_map-IsNew : (e : CacheEntry) → IsNew empty_map e
empty_map-IsNew e zero h x q = cc
empty_map-IsNew e (suc zero) h x q = cc
empty_map-IsNew e (suc (suc zero)) h x q = cc
empty_map-IsNew e (suc (suc (suc zero))) h x q = cc
empty_map-IsNew e (suc (suc (suc (suc p)))) h x q = cc

pub map_a-IsNew : IsNew map_a (entry_a 200)
map_a-IsNew zero h x q =
    let same : entry_a 100 ≡ x = ground arith in
    λ e. absurd (omega (arith, ap (λ (t : CacheEntry). t.address) same))
map_a-IsNew (suc zero) h x q = cc
map_a-IsNew (suc (suc zero)) h x q = cc
map_a-IsNew (suc (suc (suc zero))) h x q = cc
map_a-IsNew (suc (suc (suc (suc p)))) h x q = cc

abbrev pub small_partition : ℕ → Partition
small_partition size = record {
  size = size;
  free_buckets = [];
  num_used = 0;
  num_free = 0;
  num_reused = 0;
}

abbrev pub new_memory : Memory
new_memory = record {
  main_memory = 0x10000;
  memory_cursor = 0x10400;
  partitions = small_partition 256 ∷ small_partition 512 ∷ [];
  buckets = [];
  total_system_size = 0x400;
}

abbrev pub world : List EntryMap → List Sending → List Incoming → PayloadRef → World
world maps sends input response = record {
  maps = maps;
  tags = TagNode.null;
  memory = new_memory;
  source = record { worker_id = 0; client_ip = 0; client_port = 0 };
  counters = record { get_hit = 0; get_miss = 0; set = 0; del = 0; clr = 0; lst = 0; nfo = 0 };
  is_open = true;
  buffer = record { base = 5 ∷ 6 ∷ 7 ∷ 8 ∷ []; nmemb = 2; cap = 4 };
  log_queue = log_queue_init 4;
  worker_counters = record { get = 0; set = 0; del = 0; clr = 0; lst = 0; nfo = 0 };
  worker_timers = record { get = 0; set = 0; del = 0; clr = 0; lst = 0; nfo = 0 };
  response = response;
  input = input;
  sends = sends;
  output = [];
  now = 10;
  ticks = 1;
}
