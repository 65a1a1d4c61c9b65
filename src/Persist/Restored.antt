-- ===== src/Persist/Restored.antt =====
-- The SET of src/controller.c on an entry that src/main.c saved.
use cik.Prelude.{
  ℕ, ◌+◌, ◌*◌, ◌%◌, ◌^◌, ◌<◌, ◌≡◌, ◌≢◌, inl, inr, refl, sym, ◌∙◌, ap, subst, some, List, [], ◌++◌,
  length, get_elem?, ltb, arith, Bool-cases,
}
use cik.World.{crash, World, ok, log_key}
use cik.Bytes.{Bytes}
use cik.Memory.{Memory, add32, reserve_memory}
use cik.Memory.Buckets.{HasRoom, IsMemory, count}
use cik.Entry.{EntryMap, CacheEntry, used, cache_entry_init}
use cik.Log.{set_key, log_request_with_key}
use cik.Protocol.{byte_at, be32_at}
use cik.Controller.Reading.{read_request_key, read_tags_using_payload_buffer}
use cik.Controller.Set.{
  entry_size, total_size, reserve_and_lock_entry, read_value, expiry, store_entry, install,
  handle_set_request,
}
use mathlib.Core.List.{reverse}
use cik.Memory.Safety.{Reserved, reserve_memory-Reserved}
use cik.Controller.Room.{read_value-fits}
use cik.Persist.Loading.{be32_at_8, be32_at_12, ttl_left_bound}
use cik.Persist.Reads.{
  Fit, tag_bytes, read_request_key_present, read_tags_using_payload_buffer_present,
}
use cik.Persist.{set_header, ttl_left}
use cik.Stream.{Incoming, read_request_payload}
use cik.Stream.Reading.{content}
use cik.Persist.Reads.{Holds, payload}
use cik.Controller.Set.{tag_size, sum_lengths, bucket_capacity, value_status}
use cik.Controller.Stored.{HasMapsFor}

-- Every entry of the maps lies in a bucket that is in use, and no map is empty.
abbrev pub AreLive : List EntryMap → List ℕ → Type 0
AreLive maps live =
    (i : ℕ) (map : EntryMap)
    → get_elem? maps i ≡ some map
    → (0 < length map)
      × ((p h : ℕ) (x : CacheEntry) → get_elem? map p ≡ some (used h x) → 0 < count x.address live)

-- The entry that a SET of the saved bytes makes, in a bucket at an address.
abbrev pub restored : CacheEntry → ℕ → World → ℕ → CacheEntry
restored e now w a = record (cache_entry_init a w.now) {
  key = e.key;
  tags = e.tags;
  value = e.value;
  mtime = w.now;
  expires = expiry w.now (ttl_left e now);
}

-- The world behind the key: the counter and the log.
abbrev counted : CacheEntry → World → World
counted e w = record w {
  counters = record w.counters { set = add32 w.counters.set 1 };
  log_queue = log_request_with_key set_key w.source e.key w.log_queue;
}

set_steps :
    (header : Bytes) (e : CacheEntry) (ttl a : ℕ) (w w₁ w₃ w₅ : World) (m : Memory)
    → read_request_key (byte_at 4 header) w ≡ ok e.key w₁
    → byte_at 6 header ≡ 0
    → read_tags_using_payload_buffer (byte_at 5 header) (counted e w₁) ≡ ok e.tags w₃
    → reserve_memory (entry_size + total_size e.tags (length e.key) (be32_at 8 header)) w₃.memory
      ≡ (some a, m)
    → be32_at 12 header ≡ ttl
    → read_value
        (cache_entry_init a w₃.now)
        e.tags
        e.key
        (be32_at 8 header)
        (record w₃ { memory = m })
      ≡ ok e.value w₅
    → handle_set_request header w
      ≡ install
          (record (cache_entry_init a w₃.now) {
            key = e.key;
            tags = e.tags;
            value = e.value;
            mtime = w₅.now;
            expires = expiry w₅.now ttl;
          })
          w₅
unfolding handle_set_request store_entry reserve_and_lock_entry log_key
set_steps header e ttl a w w₁ w₃ w₅ m key flags tags room time value =
    ground (arith, key, flags, tags, room, time, value)

-- A value that is there is read, if the bucket is large enough.
read_value_present :
    (e₀ : CacheEntry) (tags : List Bytes) (key value rest : Bytes) (w : World)
    → Holds w (value ++ rest)
    → read_value e₀ tags key (length value) w ≢ crash
    → (input : List Incoming) × (read_value e₀ tags key (length value) w
        ≡ ok value (record w { input = input }))
      × (content input ≡ rest)
unfolding read_value value_status
read_value_present e₀ tags key value rest w (h, s) returns =
    let r = read_request_payload w.input (length value) in
    let (status, bytes, left, sound) = payload w.input value rest s h in
    elim (Bool-cases (
      ltb (bucket_capacity w.memory e₀.address) (
        entry_size
        + length tags * tag_size
        + sum_lengths tags
        + length key
        + length (read_request_payload w.input (length value)).bytes))) [
          | inl over ↦
              let lost : read_value e₀ tags key (length value) w ≡ crash =
                rw (over, read_value) refl in
              absurd (returns lost)
          | inr room ↦ (
            r.rest,
            rw (room, read_value)
                (rw (status, value_status) (ap (λ b. ok b (record w { input = r.rest })) bytes)),
            left,
          )
        ]

-- No entry lies in a bucket that was not in use.
pub AreLive-new :
    (w : World) (live : List ℕ) (e : CacheEntry)
    → AreLive w.maps live
    → count e.address live ≡ 0
    → HasMapsFor e w
AreLive-new w live e are_live unused i map at =
    let (size, in_use) = are_live i map at in
    (
      size,
      λ p h x here same. absurd (
          let positive : 0 < count x.address live = in_use p h x here in
          let zero : count x.address live ≡ 0 = ap (λ a. count a live) same ∙ unused in
          omega (arith, positive, zero)),
    )

-- What a saved entry and a state are like for a replay to go well: the entry's sizes fit the request
-- and the payload buffer, and every bucket is in use or free, the entries' are in use, and there is
-- one for the entry to come.
pub record IsReplayable (e : CacheEntry) (w : World) (live : List ℕ) (a : ℕ) (m : Memory)
    : Type 0 where
  pub key_pos : 0 < length e.key
  pub key_short : length e.key < 256
  pub tags_few : length e.tags < 256
  pub value_small : length e.value < 2 ^ 32
  pub tags_fit : Fit e.tags w.buffer.cap
  pub sizes :
      entry_size + (length e.tags * tag_size + sum_lengths e.tags + length e.key + length e.value)
      < 2 ^ 32
  pub memory : IsMemory w.memory live
  pub room : HasRoom w.memory
  pub entries : AreLive w.maps live
  pub bucket :
      reserve_memory (entry_size + total_size e.tags (length e.key) (length e.value)) w.memory
      ≡ (some a, m)

module _ (e : CacheEntry) (now : ℕ) (rest : Bytes) (w : World) (live : List ℕ) (a : ℕ) (m : Memory)
    (r : IsReplayable e w live a m) where
  pub unused : count a live ≡ 0
  unused =
      let got_one : Reserved w.memory live _ (some a, m) =
        subst (Reserved w.memory live _) r.bucket (
          reserve_memory-Reserved w.memory live
            (entry_size + total_size e.tags (length e.key) (length e.value)) r.memory r.room) in
      got_one.0

  -- The SET makes the entry and installs it, with the maps as they were.
  pub set_installs :
      Holds w (reverse e.key ++ (tag_bytes e.tags ++ (e.value ++ rest)))
      → (w₅ : World) × (handle_set_request (set_header e now) w ≡ install (restored e now w a) w₅)
        × (w₅.maps ≡ w.maps)
  unfolding set_header reserve_and_lock_entry
  set_installs holds =
      let header = set_header e now in
      let klen : length e.key ≡ byte_at 4 header = omega (arith, r.key_short) in
      let ntags : length e.tags ≡ byte_at 5 header = omega (arith, r.tags_few) in
      let vlen : length e.value ≡ be32_at 8 header = sym (
        be32_at_8 (length e.value) (ttl_left e now) 0x43 0x69 0x4B 0x73 (length e.key % 256)
          (length e.tags % 256) 0 0 [] r.value_small) in
      let ttl : be32_at 12 header ≡ ttl_left e now =
        be32_at_12 (length e.value) (ttl_left e now) 0x43 0x69 0x4B 0x73 (length e.key % 256)
          (length e.tags % 256) 0 0 [] (ttl_left_bound e now) in
      let (input, key, left, sound) =
        read_request_key_present e.key (tag_bytes e.tags ++ (e.value ++ rest)) w r.key_pos
          (omega (arith, r.key_short)) holds in
      let w₁ : World = record w { input = input } in
      let (w₃, tags, left₃, sound₃, only) =
        read_tags_using_payload_buffer_present e.tags (e.value ++ rest) (counted e w₁) r.tags_fit
          (left, sound) in
      let same_memory : w.memory ≡ w₃.memory = ap (λ (t : World). t.memory) only in
      let same_now : w.now ≡ w₃.now = ap (λ (t : World). t.now) only in
      let same_maps : w.maps ≡ w₃.maps = ap (λ (t : World). t.maps) only in
      let size = entry_size + total_size e.tags (length e.key) (length e.value) in
      let bucket : reserve_memory size w₃.memory ≡ (some a, m) =
        subst (λ t. reserve_memory size t ≡ (some a, m)) same_memory r.bucket in
      let w₄ : World = record w₃ { memory = m } in
      let reserved : reserve_and_lock_entry (total_size e.tags (length e.key) (length e.value)) w₃
          ≡ ok (some (cache_entry_init a w₃.now)) w₄ =
        ground (arith, bucket) in
      let returns =
        read_value-fits e.tags e.key (length e.value) w₃ w₄ live (cache_entry_init a w₃.now)
          (subst (λ t. IsMemory t live) same_memory r.memory) (subst HasRoom same_memory r.room)
          r.sizes reserved in
      let (input₅, value, left₅) =
        read_value_present (cache_entry_init a w₃.now) e.tags e.key e.value rest w₄ (left₃, sound₃)
          returns in
      let w₅ : World = record w₄ { input = input₅ } in
      (
        w₅,
        set_steps header e (ttl_left e now) a w w₁ w₃ w₅ m
              (subst (λ n. read_request_key n w ≡ ok e.key w₁) klen key) refl
              (subst (λ n. read_tags_using_payload_buffer n (counted e w₁) ≡ ok e.tags w₃) ntags
                tags)
              (subst
                (λ n.
                  reserve_memory (entry_size + total_size e.tags (length e.key) n) w₃.memory
                  ≡ (some a, m))
                vlen bucket)
              ttl
              (subst (λ n. read_value (cache_entry_init a w₃.now) e.tags e.key n w₄ ≡ ok e.value w₅)
                vlen value)
            ∙ ap
                (λ n.
                  install
                    (record (cache_entry_init a n) {
                      key = e.key;
                      tags = e.tags;
                      value = e.value;
                      mtime = n;
                      expires = expiry n (ttl_left e now);
                    })
                    w₅)
                (sym same_now),
        sym same_maps,
      )
