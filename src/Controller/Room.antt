-- ===== src/Controller/Room.antt =====
-- The room for a new entry behind `reserve_and_lock_entry`, in a SET of src/controller.c.
use cik.Prelude.{
  ℕ, zero, suc, ◌+◌, ◌-◌, ◌*◌, ◌%◌, ◌^◌, ◌≤◌, ◌<◌, ◌≡◌, ◌≢◌, inl, inr, refl, ◌∙◌, ap, true, false,
  Option, none, some, List, [], ◌∷◌, length, length-append, length-take, get_elem?, ltb, ◌==◌,
  arith, Bool-cases,
}
use cik.World.{World, Outcome, ok, crash, fail, and_then, ◌>>=◌, release}
use cik.Bytes.{Bytes}
use cik.Memory.{Partition, Memory, reserve_memory, release_memory, partition_of}
use cik.Memory.Buckets.{IsMemory, HasRoom}
use cik.Memory.Safety.{Reserved, reserve_memory-Reserved, release_memory-IsMemory}
use cik.Stream.{
  chunk, broken, got, failed, prepend, Incoming, ReadResult, Received, read, read_loop,
  read_request_payload,
}
use cik.Protocol.{status_network_error, status_connection_closed, StatusCode, status_ok}
use cik.Entry.{CacheEntry, cache_entry_init}
use cik.Controller.Set.{
  entry_size, tag_size, sum_lengths, total_size, reserve_and_lock_entry, bucket_capacity,
  read_value, value_status,
}

abbrev AtMost : ℕ → ReadResult → Type 0
AtMost n (got bs rest) = length bs ≤ n
AtMost n (failed rest) = Unit

read-le : (input : List Incoming) (n : ℕ) → AtMost n (read input n)
unfolding read
read-le [] n = omega arith
read-le (broken ∷ rest) n = tt
read-le (chunk bs ∷ rest) n = omega (arith, length-take n bs)

read_loop-le :
    (fuel : ℕ) (input : List Incoming) (n : ℕ) → length (read_loop fuel input n).bytes ≤ n
unfolding read_loop read
read_loop-le zero input n = omega arith
read_loop-le (suc fuel) input n =
    go (read input n) (read-le input n) (λ rest n'. read_loop-le fuel rest n')
  where
    go :
        (r : ReadResult)
        → AtMost n r
        → ((rest : List Incoming) (n' : ℕ) → length (read_loop fuel rest n').bytes ≤ n')
        → length
            (elim r as (λ x. Received) [
              | failed rest ↦ record { status = status_network_error; bytes = []; rest = rest }
              | got [] rest ↦ record { status = status_connection_closed; bytes = []; rest = rest }
              | got (b ∷ bs) rest ↦
                  let remaining = n - length (b ∷ bs) in
                  prepend (b ∷ bs) (elim (ltb 0 remaining) [
                    | true ↦ read_loop fuel rest remaining
                    | false ↦ record { status = status_ok; bytes = []; rest = rest }
                  ])
            ]).bytes
          ≤ n
    go (failed rest) le more_reads = omega arith
    go (got [] rest) le more_reads = omega arith
    go (got (b ∷ bs) rest) le more_reads = elim (Bool-cases (ltb 0 (n - length (b ∷ bs)))) [
      | inl more ↦ rw more (
          omega (
            arith,
            length-append bs (read_loop fuel rest (n - length (b ∷ bs))).bytes,
            more_reads rest (n - length (b ∷ bs)),
          ))
      | inr enough ↦ rw enough (omega (arith, length-append bs []))
    ]

read_request_payload-le :
    (input : List Incoming) (n : ℕ) → length (read_request_payload input n).bytes ≤ n
unfolding read_request_payload
read_request_payload-le input n = elim (Bool-cases (n == 0)) [
  | inl empty ↦ rw (empty, read_request_payload) (omega arith)
  | inr some_bytes ↦ rw (some_bytes, read_request_payload) (read_loop-le n input n)
]

bucket_capacity-partition :
    (m : Memory) (a i : ℕ) (p : Partition)
    → partition_of a m.buckets ≡ some i
    → get_elem? m.partitions i ≡ some p
    → bucket_capacity m a ≡ p.size
unfolding bucket_capacity
bucket_capacity-partition m a i p owned at = rw (owned, bucket_capacity) (rw at refl)

given_up :
    (s : StatusCode) (address : ℕ) (w : World) (m : Memory)
    → release_memory address w.memory ≡ some m
    → (release address >>= λ _. fail {A = Bytes} s) w ≢ crash
unfolding release
given_up s address w m freed h =
    let done : release address w ≡ ok tt (record w { memory = m }) = rw (freed, release) refl in
    cc (ap (λ o. and_then o (λ _. fail {A = Bytes} s)) done, h)

value_status-returns :
    (s : StatusCode) (e : CacheEntry) (bs : Bytes) (w : World) (m : Memory)
    → release_memory e.address w.memory ≡ some m
    → value_status s e bs w ≢ crash
unfolding value_status
value_status-returns status_ok e bs w m freed h = cc
value_status-returns s e bs w m freed h = given_up s e.address w m freed h

read_value-returns :
    (e : CacheEntry) (tags : List Bytes) (key : Bytes) (vlen : ℕ) (w : World) (m : Memory)
    → ltb (bucket_capacity w.memory e.address) (
        entry_size
        + length tags * tag_size
        + sum_lengths tags
        + length key
        + length (read_request_payload w.input vlen).bytes)
      ≡ false
    → release_memory e.address w.memory ≡ some m
    → read_value e tags key vlen w ≢ crash
unfolding read_value
read_value-returns e tags key vlen w m enough freed =
    rw (enough, read_value)
      (value_status-returns (read_request_payload w.input vlen).status e _
        (record w { input = (read_request_payload w.input vlen).rest }) m freed)

abbrev returned : Option CacheEntry → World → Outcome (Option CacheEntry)
returned r w = ok r w

-- If every bucket is in use or on its own partition's free list, nowhere twice, the cursor has room,
-- and the sizes of a SET add up within 32 bits, the bucket that is reserved has room for the entry,
-- its tags, its key and all of the value that arrives: nothing is written outside of it, and an
-- entry that is given up can be released.
pub read_value-fits :
    (tags : List Bytes) (key : Bytes) (vlen : ℕ) (w w' : World) (live : List ℕ) (e : CacheEntry)
    → IsMemory w.memory live
    → HasRoom w.memory
    → entry_size + (length tags * tag_size + sum_lengths tags + length key + vlen) < 2 ^ 32
    → reserve_and_lock_entry (total_size tags (length key) vlen) w ≡ ok (some e) w'
    → read_value e tags key vlen w' ≢ crash
unfolding reserve_and_lock_entry total_size
read_value-fits tags key vlen w w' live e mem room small h =
    go (reserve_memory (entry_size + total_size tags (length key) vlen) w.memory)
      (reserve_memory-Reserved w.memory live (entry_size + total_size tags (length key) vlen) mem
        room)
      h
  where
    fitting :
        (m : Memory) (i a : ℕ) (p : Partition)
        → partition_of a m.buckets ≡ some i
        → get_elem? m.partitions i ≡ some p
        → (entry_size + total_size tags (length key) vlen) % 2 ^ 32 ≤ p.size
        → IsMemory m (a ∷ live)
        → e.address ≡ a
        → w'.memory ≡ m
        → read_value e tags key vlen w' ≢ crash
    fitting m i a p owned at fits mem' address now =
        let arrived = read_request_payload-le w'.input vlen in
        let cap : bucket_capacity w'.memory e.address ≡ p.size =
          ap (λ t. bucket_capacity t e.address) now
          ∙ ap (bucket_capacity m) address
          ∙ bucket_capacity-partition m a i p owned at in
        let enough : ltb (bucket_capacity w'.memory e.address) (
              entry_size
              + length tags * tag_size
              + sum_lengths tags
              + length key
              + length (read_request_payload w'.input vlen).bytes)
            ≡ false =
          ground (arith, cap, arrived) in
        let (m', freed, mem'') = release_memory-IsMemory m live a mem' in
        let released : release_memory e.address w'.memory ≡ some m' = rw (address, now) freed in
        read_value-returns e tags key vlen w' m' enough released

    go :
        (r : Option ℕ × Memory)
        → Reserved w.memory live (entry_size + total_size tags (length key) vlen) r
        → returned
            (elim r.0 as (λ x. Option CacheEntry) [
              | none ↦ none
              | some address ↦ some (cache_entry_init address w.now)
            ])
            (record w { memory = r.1 })
          ≡ ok (some e) w'
        → read_value e tags key vlen w' ≢ crash
    go (none, m) reserved eq = cc
    go (some a, m) (unused, mem', i, p, owned, at, fits, first) eq =
        fitting m i a p owned at fits mem' (ground arith) (ground arith)
