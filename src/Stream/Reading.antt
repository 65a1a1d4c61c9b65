-- ===== src/Stream/Reading.antt =====
-- What `read_request_payload` of src/server.c makes of a stream, however it is cut into chunks.
use cik.Prelude.{
  ltb→lt, ℕ, zero, suc, ◌+◌, ◌-◌, ◌≤◌, ◌<◌, min, ◌≡◌, inl, inr, refl, sym, ◌∙◌, ap, true, false,
  List, [], ◌∷◌, ◌++◌, append-nil, append_assoc, length, length-append, length-take, take, drop,
  ltb, leb, ◌==◌, if◌then◌else◌, arith, Bool-cases,
}
use cik.Stream.{
  status_ok, read_request_payload, prepend, status_connection_closed, got, status_network_error,
  failed, ReadResult, Received, Bytes, read, left_over, read_loop, Incoming, chunk, broken,
}

-- The bytes of a stream up to its first error.
abbrev pub content : List Incoming → Bytes
content [] = []
content (broken ∷ rest) = []
content (chunk bs ∷ rest) = bs ++ content rest

-- No chunk is empty, and there is no error.
abbrev pub IsSound : List Incoming → Type 0
IsSound [] = Unit
IsSound (broken ∷ rest) = ⊥
IsSound (chunk bs ∷ rest) = (0 < length bs) × IsSound rest

append-take-drop : (n : ℕ) (xs : Bytes) → take n xs ++ drop n xs ≡ xs
append-take-drop zero xs = refl
append-take-drop (suc n) [] = refl
append-take-drop (suc n) (x ∷ xs) = ap (λ t. x ∷ t) (append-take-drop n xs)

pub left_over-content :
    (bs : Bytes) (rest : List Incoming) → content (left_over bs rest) ≡ bs ++ content rest
unfolding left_over
left_over-content [] rest = refl
left_over-content (b ∷ bs) rest = refl

pub left_over-IsSound :
    (bs : Bytes) (rest : List Incoming) → IsSound rest → IsSound (left_over bs rest)
unfolding left_over
left_over-IsSound [] rest s = s
left_over-IsSound (b ∷ bs) rest s = (omega arith, s)

-- A read that asks for something returns the next bytes, at least one if there are any left.
abbrev pub Progress : List Incoming → ℕ → ReadResult → Type 0
Progress input n (failed rest) = ⊥
Progress input n (got bs rest) =
    (content input ≡ bs ++ content rest)
    × (length bs ≤ n)
    × IsSound rest
    × (0 < length (content input) → 0 < length bs)

read-Progress :
    (input : List Incoming) (n : ℕ) → 0 < n → IsSound input → Progress input n (read input n)
unfolding read
read-Progress [] n h s = (refl, omega arith, s, λ k. k)
read-Progress (broken ∷ rest) n h s = absurd s
read-Progress (chunk bs ∷ rest) n h (some_bytes, s) =
    let len = length-take n bs in
    (
      ap (λ t. t ++ content rest) (sym (append-take-drop n bs))
          ∙ append_assoc (take n bs) (drop n bs) (content rest)
          ∙ ap (λ t. take n bs ++ t) (sym (left_over-content (drop n bs) rest)),
      omega (arith, len),
      left_over-IsSound (drop n bs) rest s,
      λ k. omega (arith, len),
    )

-- What a read of `n` bytes comes to: all of them, or all there are and a closed connection.
abbrev pub Reads : List Incoming → ℕ → Received → Type 0
Reads input n r =
    (content input ≡ r.bytes ++ content r.rest)
    × (length r.bytes ≡ min n (length (content input)))
    × (r.status ≡ (if leb n (length (content input)) then status_ok else status_connection_closed))
    × IsSound r.rest

le_of_not_ltb : (a b : ℕ) → ltb a b ≡ false → b ≤ a
le_of_not_ltb a b h = ground arith

read_loop-Reads :
    (fuel : ℕ) (input : List Incoming) (n : ℕ)
    → n ≤ fuel
    → 0 < n
    → IsSound input
    → Reads input n (read_loop fuel input n)
unfolding read_loop
read_loop-Reads zero input n h k s = absurd (omega arith)
read_loop-Reads (suc fuel) input n h k s =
    go (read input n) (read-Progress input n k s)
      (λ rest n' h' k' s'. read_loop-Reads fuel rest n' h' k' s')
  where
    go :
        (result : ReadResult)
        → Progress input n result
        → ((rest : List Incoming) (n' : ℕ)
            → n' ≤ fuel
            → 0 < n'
            → IsSound rest
            → Reads rest n' (read_loop fuel rest n'))
        → Reads input n (elim result [
          | failed rest ↦ record { status = status_network_error; bytes = []; rest = rest }
          | got [] rest ↦ record { status = status_connection_closed; bytes = []; rest = rest }
          | got (b ∷ bs) rest ↦
              let remaining = n - length (b ∷ bs) in
              prepend (b ∷ bs) (elim (ltb 0 remaining) [
                | true ↦ read_loop fuel rest remaining
                | false ↦ record { status = status_ok; bytes = []; rest = rest }
              ])
        ])
    go (failed rest) p more_reads = absurd p
    go (got [] rest) (all, le, sound, some_bytes) more_reads =
        (all, ground arith, ground arith, sound)
    go (got (b ∷ bs) rest) (all, le, sound, some_bytes) more_reads =
        let total : length (content input) ≡ length (b ∷ bs) + length (content rest) =
          ap length all ∙ length-append (b ∷ bs) (content rest) in
        elim (Bool-cases (ltb 0 (n - length (b ∷ bs)))) [
          | inl more ↦
              let (all', len, status, sound') =
                more_reads rest (n - length (b ∷ bs)) (omega arith) (ground arith) sound in
              rw more (
                all
                    ∙ ap (λ t. (b ∷ bs) ++ t) all'
                    ∙ sym (
                        append_assoc (b ∷ bs) _
                          (content (read_loop fuel rest (n - length (b ∷ bs))).rest)),
                omega (
                  arith,
                  len,
                  length-append bs (read_loop fuel rest (n - length (b ∷ bs))).bytes,
                  ltb→lt 0 (n - length (b ∷ bs)) more,
                ),
                status ∙ ap (λ t. if t then status_ok else status_connection_closed) (ground arith),
                sound',
              )
          | inr enough ↦ rw enough (
            all ∙ ap (λ t. t ++ content rest) (sym (append-nil (b ∷ bs))),
            omega (arith, ap length (append-nil bs), le_of_not_ltb 0 (n - length (b ∷ bs)) enough),
            ground (arith, le_of_not_ltb 0 (n - length (b ∷ bs)) enough),
            sound,
          )
        ]

-- From a stream without empty chunks and errors, a payload of `n` bytes is read in full if the
-- stream has them, however they are cut into chunks: the status is ok, the bytes are the next `n`,
-- and all that follows is left, without empty chunks and errors. If the stream ends before, the
-- connection is found closed, with all of its bytes consumed.
pub read_request_payload-Reads :
    (input : List Incoming) (n : ℕ) → IsSound input → Reads input n (read_request_payload input n)
unfolding read_request_payload
read_request_payload-Reads input zero s = (refl, ground arith, ground arith, s)
read_request_payload-Reads input (suc n) s =
    let size : (suc n == 0) ≡ false = ground arith in
    rw (size, read_request_payload)
      (read_loop-Reads (suc n) input (suc n) (omega arith) (omega arith) s)
