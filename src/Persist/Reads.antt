-- ===== src/Persist/Reads.antt =====
-- What the reads of src/controller.c return on a stream that holds what was written.
use cik.Prelude.{
  ℕ, ◌+◌, ◌-◌, ◌^◌, ◌≤◌, ◌<◌, ◌≡◌, refl, sym, ◌∙◌, ap, subst, false, List, [], ◌∷◌, ◌++◌,
  append_assoc, length, length-append, ltb, arith,
}
use mathlib.Core.List.{reverse, reverse-reverse, reverse-cons}
use cik.Bytes.{Bytes}
use cik.Bytes.Reverse.{reverse_block_lem}
use cik.Protocol.{status_ok}
use cik.Stream.{Incoming, read_request_payload}
use cik.Stream.Reading.{content, IsSound, read_request_payload-Reads}
use cik.World.{finish_read, World, ok, and_then, store, read_bytes, read_into_buffer, reversed}
use cik.Controller.Reading.{read_request_key, read_tag, read_tags, read_tags_using_payload_buffer}

-- The stream of the world holds these bytes and nothing is wrong with it.
abbrev pub Holds : World → Bytes → Type 0
Holds w bs = (content w.input ≡ bs) × IsSound w.input

append_inj :
    (xs ys us vs : Bytes) → length xs ≡ length ys → xs ++ us ≡ ys ++ vs → (xs ≡ ys) × (us ≡ vs)
append_inj [] [] us vs h e = (refl, e)
append_inj [] (y ∷ ys) us vs h e = absurd (omega (arith, h))
append_inj (x ∷ xs) [] us vs h e = absurd (omega (arith, h))
append_inj (x ∷ xs) (y ∷ ys) us vs h e =
    let tails : xs ++ us ≡ ys ++ vs = cc in
    let heads : x ≡ y = cc in
    let (same, rest) = append_inj xs ys us vs (omega (arith, h)) tails in
    (ground (arith, heads, same), rest)

pub length-reverse : (xs : Bytes) → length (reverse xs) ≡ length xs
length-reverse [] = refl
length-reverse (x ∷ xs) =
    omega
      (arith, ap length (reverse-cons x xs), length-append (reverse xs) (x ∷ []), length-reverse xs)

-- A payload of the first bytes that are there.
pub payload :
    (input : List Incoming) (xs rest : Bytes)
    → IsSound input
    → content input ≡ xs ++ rest
    → let r = read_request_payload input (length xs) in
      (r.status ≡ status_ok) × (r.bytes ≡ xs) × (content r.rest ≡ rest) × IsSound r.rest
payload input xs rest s h =
    let (all, len, status, sound) = read_request_payload-Reads input (length xs) s in
    let r = read_request_payload input (length xs) in
    let total : length (content input) ≡ length xs + length rest =
      ap length h ∙ length-append xs rest in
    let same : length xs ≡ length r.bytes = omega (arith, len, total) in
    let (bytes, left) = append_inj xs r.bytes rest (content r.rest) same (sym h ∙ all) in
    (ground (arith, status, total), sym bytes, sym left, sound)

pub read_bytes_present :
    (xs rest : Bytes) (w : World)
    → Holds w (xs ++ rest)
    → (input : List Incoming) × (read_bytes (length xs) w ≡ ok xs (record w { input = input }))
      × (content input ≡ rest)
      × IsSound input
unfolding read_bytes finish_read
read_bytes_present xs rest w (h, s) =
    let r = read_request_payload w.input (length xs) in
    let (status, bytes, left, sound) = payload w.input xs rest s h in
    (
      r.rest,
      rw (status, read_bytes) (ap (λ b. ok b (record w { input = r.rest })) bytes),
      left,
      sound,
    )

read_into_buffer_present :
    (offset : ℕ) (xs rest : Bytes) (w : World)
    → Holds w (xs ++ rest)
    → (input : List Incoming) × (read_into_buffer offset (length xs) w
        ≡ ok xs (record (store offset xs w) { input = input }))
      × (content input ≡ rest)
      × IsSound input
unfolding read_into_buffer finish_read
read_into_buffer_present offset xs rest w (h, s) =
    let r = read_request_payload w.input (length xs) in
    let (status, bytes, left, sound) = payload w.input xs rest s h in
    (
      r.rest,
      rw (status, read_into_buffer)
          (ap (λ b. ok b (record (store offset b w) { input = r.rest })) bytes),
      left,
      sound,
    )

reversed_back :
    (xs : Bytes) (w : World)
    → 0 < length xs
    → length xs < 2 ^ 32
    → reversed (reverse xs) w ≡ ok xs w
unfolding reversed
reversed_back xs w h k =
    let len = length-reverse xs in
    rw (reverse_block_lem (reverse xs) (omega (arith, h, len)) (omega (arith, k, len)), reversed)
      (ap (λ t. ok t w) (reverse-reverse xs))

pub read_request_key_present :
    (key rest : Bytes) (w : World)
    → 0 < length key
    → length key < 2 ^ 32
    → Holds w (reverse key ++ rest)
    → (input : List Incoming) × (read_request_key (length key) w
        ≡ ok key (record w { input = input }))
      × (content input ≡ rest)
      × IsSound input
unfolding read_request_key
read_request_key_present key rest w h k holds =
    let (input, read, left, sound) = read_bytes_present (reverse key) rest w holds in
    let size : read_bytes (length key) w ≡ ok (reverse key) (record w { input = input }) =
      subst (λ n. read_bytes n w ≡ ok (reverse key) (record w { input = input }))
        (length-reverse key) read in
    (
      input,
      ap (λ o. and_then o (λ bs. reversed bs)) size
          ∙ reversed_back key (record w { input = input }) h k,
      left,
      sound,
    )

-- The bytes that write_tags writes, and tags that fit the length byte and what is left of a buffer.
abbrev pub tag_bytes : List Bytes → Bytes
tag_bytes [] = []
tag_bytes (tag ∷ tags) = length tag ∷ (reverse tag ++ tag_bytes tags)

abbrev pub Fit : List Bytes → ℕ → Type 0
Fit [] cap = Unit
Fit (tag ∷ tags) cap =
    (0 < length tag) × (length tag < 256) × (length tag ≤ cap) × Fit tags (cap - length tag)

-- Nothing but the stream and the buffer has changed.
abbrev pub ReadsOnly : World → World → Type 0
ReadsOnly w w' = record w { input = w'.input; buffer = w'.buffer } ≡ w'

read_tag_steps :
    (tag raw : Bytes) (n offset cap : ℕ) (w w₁ w₂ : World)
    → read_bytes 1 w ≡ ok (n ∷ []) w₁
    → ltb cap n ≡ false
    → read_into_buffer offset n w₁ ≡ ok raw w₂
    → reversed raw w₂ ≡ ok tag w₂
    → read_tag offset cap w ≡ ok tag (store offset tag w₂)
unfolding read_tag
read_tag_steps tag raw n offset cap w w₁ w₂ header fits read back =
    ground (arith, header, fits, read, back)

read_tag_present :
    (tag rest : Bytes) (offset cap : ℕ) (w : World)
    → 0 < length tag
    → length tag < 256
    → length tag ≤ cap
    → Holds w (length tag ∷ (reverse tag ++ rest))
    → (w' : World) × (read_tag offset cap w ≡ ok tag w')
      × (content w'.input ≡ rest)
      × IsSound w'.input
      × ReadsOnly w w'
read_tag_present tag rest offset cap w h k le holds =
    let (input, header, left, sound) =
      read_bytes_present (length tag ∷ []) (reverse tag ++ rest) w holds in
    let w₁ = record w { input = input } in
    let (input₂, read, left₂, sound₂) =
      read_into_buffer_present offset (reverse tag) rest w₁ (left, sound) in
    let fits : ltb cap (length tag) ≡ false = ground arith in
    let w₂ = record (store offset (reverse tag) w₁) { input = input₂ } in
    let read' : read_into_buffer offset (length tag) w₁ ≡ ok (reverse tag) w₂ =
      subst (λ n. read_into_buffer offset n w₁ ≡ ok (reverse tag) w₂) (length-reverse tag) read in
    let back = reversed_back tag w₂ h (omega (arith, k)) in
    (
      store offset tag w₂,
      read_tag_steps tag (reverse tag) (length tag) offset cap w w₁ w₂ header fits read' back,
      left₂,
      sound₂,
      refl,
    )

read_tags_present :
    (tags : List Bytes) (rest : Bytes) (offset cap : ℕ) (w : World)
    → Fit tags cap
    → Holds w (tag_bytes tags ++ rest)
    → (w' : World) × (read_tags (length tags) offset cap w ≡ ok tags w')
      × (content w'.input ≡ rest)
      × IsSound w'.input
      × ReadsOnly w w'
unfolding read_tags
read_tags_present [] rest offset cap w fit (h, s) =
    (record w { buffer = record w.buffer { nmemb = w.buffer.cap - cap } }, refl, h, s, refl)
read_tags_present (tag ∷ tags) rest offset cap w (pos, short, le, fit) (h, s) =
    let (w₁, first, left, sound, only) =
      read_tag_present tag (tag_bytes tags ++ rest) offset cap w pos short le
        (h ∙ ap (λ t. length tag ∷ t) (append_assoc (reverse tag) (tag_bytes tags) rest), s) in
    let (w₂, others, left₂, sound₂, only₂) =
      read_tags_present tags rest (offset + length tag) (cap - length tag) w₁ fit (left, sound) in
    (
      w₂,
      ground (arith, first, others),
      left₂,
      sound₂,
      ap (λ (t : World). record t { input = w₂.input; buffer = w₂.buffer }) only ∙ only₂,
    )

-- The tags that were written are read, if their lengths fit a byte and the payload buffer.
pub read_tags_using_payload_buffer_present :
    (tags : List Bytes) (rest : Bytes) (w : World)
    → Fit tags w.buffer.cap
    → Holds w (tag_bytes tags ++ rest)
    → (w' : World) × (read_tags_using_payload_buffer (length tags) w ≡ ok tags w')
      × (content w'.input ≡ rest)
      × IsSound w'.input
      × ReadsOnly w w'
unfolding read_tags_using_payload_buffer
read_tags_using_payload_buffer_present tags rest w fit h =
    read_tags_present tags rest 0 w.buffer.cap w fit h
