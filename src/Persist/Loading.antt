-- ===== src/Persist/Loading.antt =====
-- What the dump at the end of src/main.c writes for an entry, against the reads of
-- src/controller.c that load_request_log goes through at the next start.
use cik.Prelude.{
  ℕ, ◌-◌, ◌%◌, ◌^◌, ◌<◌, ◌≡◌, inl, inr, refl, sym, ◌∙◌, ap, subst, true, false, none, some, List,
  [], ◌∷◌, ◌++◌, append-nil, append_assoc, length, ltb, arith, Option-cases,
}
use mathlib.Core.List.{reverse}
use cik.Bytes.{Bytes}
use cik.Bytes.Reverse.{reverse_block_lem}
use cik.Entry.{CacheEntry}
use cik.Stream.{Incoming, read, got, failed, chunk, left_over}
use cik.Stream.Reading.{content, IsSound, left_over-content, left_over-IsSound}
use cik.Protocol.{has_control_bytes, byte_at, be32, be32_at, Request}
use cik.World.{World, ok, crash, Exec, pure, ◌>>=◌, read_bytes}
use cik.Controller.Reading.{read_request_key, read_tags_using_payload_buffer}
use cik.Persist.{write_entry_as_set_request_callback, ttl_left, set_header, write_tags, write_body}
use cik.Persist.Reads.{
  read_bytes_present, read_tags_using_payload_buffer_present, read_request_key_present, Holds, Fit,
  tag_bytes,
}

-- The header as `load_request_log` reads it, and what `handle_set_request` reads behind it, in its
-- order.
pub record Loaded : Type 0 where
  pub header : Request
  pub key : Bytes
  pub tags : List Bytes
  pub value : Bytes

load_fields : Request → Exec Loaded
load_fields header = do
  key ← read_request_key (byte_at 4 header)
  tags ← read_tags_using_payload_buffer (byte_at 5 header)
  value ← read_bytes (be32_at 8 header)
  pure (record { header = header; key = key; tags = tags; value = value })

unfoldable pub load_saved : Exec Loaded
unfolding load_fields
load_saved w = elim (read w.input 16) [
  | got header rest ↦ load_fields header (record w { input = rest })
  | failed rest ↦ crash
]

abbrev pub saved_bytes : CacheEntry → ℕ → Bytes
saved_bytes e now = set_header e now ++ (reverse e.key ++ (tag_bytes e.tags ++ e.value))

write_tags-tag_bytes :
    (tags : List Bytes) (cap : ℕ) → Fit tags cap → write_tags tags ≡ some (tag_bytes tags)
unfolding write_tags
write_tags-tag_bytes [] cap fit = refl
write_tags-tag_bytes (tag ∷ tags) cap (pos, short, le, fit) =
    let text = reverse_block_lem tag pos (omega (arith, short)) in
    let others = write_tags-tag_bytes tags (cap - length tag) fit in
    let size : length tag % 256 ≡ length tag = omega (arith, short) in
    rw (text, write_tags) (rw (others) (ap (λ n. some (n ∷ (reverse tag ++ tag_bytes tags))) size))

pub write_body-saved_bytes :
    (e : CacheEntry) (now cap : ℕ)
    → 0 < length e.key
    → length e.key < 256
    → Fit e.tags cap
    → write_body e now ≡ some (saved_bytes e now)
unfolding write_body
write_body-saved_bytes e now cap pos short fit =
    let key = reverse_block_lem e.key pos (omega (arith, short)) in
    let tags = write_tags-tag_bytes e.tags cap fit in ground (arith, key, tags)

pub be32_at_8 :
    (x y : ℕ) (a b c d e f g h : ℕ) (rest : Bytes)
    → x < 2 ^ 32
    → be32_at 8 (a ∷ b ∷ c ∷ d ∷ e ∷ f ∷ g ∷ h ∷ (be32 x ++ (be32 y ++ rest))) ≡ x
unfolding be32
be32_at_8 x y a b c d e f g h rest lt = omega (arith, lt)

pub be32_at_12 :
    (x y : ℕ) (a b c d e f g h : ℕ) (rest : Bytes)
    → y < 2 ^ 32
    → be32_at 12 (a ∷ b ∷ c ∷ d ∷ e ∷ f ∷ g ∷ h ∷ (be32 x ++ (be32 y ++ rest))) ≡ y
unfolding be32
be32_at_12 x y a b c d e f g h rest lt = omega (arith, lt)

load_fields_steps :
    (header key value : Bytes) (tags : List Bytes) (w w₁ w₂ w₃ : World)
    → read_request_key (byte_at 4 header) w ≡ ok key w₁
    → read_tags_using_payload_buffer (byte_at 5 header) w₁ ≡ ok tags w₂
    → read_bytes (be32_at 8 header) w₂ ≡ ok value w₃
    → load_fields header w
      ≡ ok (record { header = header; key = key; tags = tags; value = value }) w₃
unfolding load_fields
load_fields_steps header key value tags w w₁ w₂ w₃ a b c = ground (arith, a, b, c)

pub ttl_left_bound : (e : CacheEntry) (now : ℕ) → ttl_left e now < 2 ^ 32
unfolding ttl_left
ttl_left_bound e now = elim (Option-cases e.expires) [
  | inl none_set ↦ rw (none_set, ttl_left) (omega arith)
  | inr (t, at) ↦ rw (at, ttl_left) (omega arith)
]

load_saved_steps :
    (header : Bytes) (rest : List Incoming) (w : World)
    → read w.input 16 ≡ got header rest
    → load_saved w ≡ load_fields header (record w { input = rest })
unfolding load_saved
load_saved_steps header rest w h = ground (arith, h)

-- What the fields of a saved request come back as from behind its header.
fields_load :
    (e : CacheEntry) (now : ℕ) (rest : Bytes) (w : World)
    → 0 < length e.key
    → length e.key < 256
    → length e.tags < 256
    → length e.value < 2 ^ 32
    → Fit e.tags w.buffer.cap
    → Holds w (reverse e.key ++ (tag_bytes e.tags ++ (e.value ++ rest)))
    → (w' : World) × (load_fields (set_header e now) w
        ≡ ok (record { header = set_header e now; key = e.key; tags = e.tags; value = e.value }) w')
      × (content w'.input ≡ rest)
      × IsSound w'.input
unfolding set_header
fields_load e now rest w pos short few small fit holds =
    let header = set_header e now in
    let klen : length e.key ≡ byte_at 4 header = omega (arith, short) in
    let ntags : length e.tags ≡ byte_at 5 header = omega (arith, few) in
    let vlen : length e.value ≡ be32_at 8 header = sym (
      be32_at_8 (length e.value) (ttl_left e now) 0x43 0x69 0x4B 0x73 (length e.key % 256)
        (length e.tags % 256) 0 0 [] small) in
    let (input, key, left, sound) =
      read_request_key_present e.key (tag_bytes e.tags ++ (e.value ++ rest)) w pos
        (omega (arith, short)) holds in
    let w₁ = record w { input = input } in
    let (w₂, tags, left₂, sound₂, only) =
      read_tags_using_payload_buffer_present e.tags (e.value ++ rest) w₁ fit (left, sound) in
    let (input₃, value, left₃, sound₃) = read_bytes_present e.value rest w₂ (left₂, sound₂) in
    let w₃ = record w₂ { input = input₃ } in
    (
      w₃,
      load_fields_steps header e.key e.value e.tags w w₁ w₂ w₃
          (subst (λ n. read_request_key n w ≡ ok e.key w₁) klen key)
          (subst (λ n. read_tags_using_payload_buffer n w₁ ≡ ok e.tags w₂) ntags tags)
          (subst (λ n. read_bytes n w₂ ≡ ok e.value w₃) vlen value),
      left₃,
      sound₃,
    )

-- An entry that has not expired is written at the end of the file, and the file is loaded as it
-- was: when the file holds what was written and goes on with other bytes, the header read first
-- has the control bytes, the set command, no flags and what was left of the time (all ones if the
-- entry does not expire), and the reads behind it give back the key, the tags and the value, with
-- exactly the other bytes left. The key is not empty and shorter than 256 bytes, as are the tags,
-- which fit the payload buffer together; there are fewer than 256 of them, and the value is shorter
-- than 2 ^ 32 bytes.
pub saved_entry_loads :
    (e : CacheEntry) (now : ℕ) (file rest : Bytes) (w : World)
    → (elim e.expires [ none ↦ false | some t ↦ ltb t now ]) ≡ false
    → 0 < length e.key
    → length e.key < 256
    → length e.tags < 256
    → length e.value < 2 ^ 32
    → Fit e.tags w.buffer.cap
    → w.input ≡ chunk (saved_bytes e now ++ rest) ∷ []
    → (write_entry_as_set_request_callback now e file ≡ some (true, file ++ saved_bytes e now))
      × ((header : Request) × (w' : World) × (load_saved w
            ≡ ok (record { header = header; key = e.key; tags = e.tags; value = e.value }) w')
          × (content w'.input ≡ rest)
          × (has_control_bytes header ≡ true)
          × (byte_at 3 header ≡ 0x73)
          × (byte_at 6 header ≡ 0)
          × (be32_at 12 header
              ≡ (elim e.expires [ none ↦ 2 ^ 32 - 1 | some t ↦ (t - now) % 2 ^ 32 ])))
unfolding write_entry_as_set_request_callback load_saved read set_header has_control_bytes ttl_left
saved_entry_loads e now file rest w alive pos short few small fit holds =
    let header = set_header e now in
    let body = reverse e.key ++ (tag_bytes e.tags ++ (e.value ++ rest)) in
    let split : saved_bytes e now ++ rest ≡ header ++ body =
      ap (λ t. header ++ t)
        (append_assoc (reverse e.key) (tag_bytes e.tags ++ e.value) rest
          ∙ ap (λ t. reverse e.key ++ t) (append_assoc (tag_bytes e.tags) e.value rest)) in
    let first : read w.input 16 ≡ got header (left_over body []) =
      ap (λ i. read i 16) (holds ∙ ap (λ t. chunk t ∷ []) split) in
    let w₁ = record w { input = left_over body [] } in
    let left = left_over-content body [] ∙ append-nil body in
    let (w', fields, content', sound) =
      fields_load e now rest w₁ pos short few small fit (left, left_over-IsSound body [] tt) in
    (
      ground (arith, alive, write_body-saved_bytes e now w.buffer.cap pos short fit),
      (
        header,
        w',
        load_saved_steps header (left_over body []) w first ∙ fields,
        content',
        refl,
        refl,
        refl,
        be32_at_12 (length e.value) (ttl_left e now) 0x43 0x69 0x4B 0x73 (length e.key % 256)
            (length e.tags % 256) 0 0 [] (ttl_left_bound e now),
      ),
    )
