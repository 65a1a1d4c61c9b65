-- ===== src/Stream/Writing.antt =====
-- What `write_response_payload` of src/server.c puts on the wire.
use cik.Prelude.{
  ltb→lt, length-drop, ℕ, zero, suc, ◌+◌, ◌≤◌, ◌<◌, ◌≡◌, ◌↔◌, inl, inr, refl, sym, ◌∙◌, ap, false,
  List, [], ◌∷◌, ◌++◌, length, take, drop, ltb, ◌==◌, arith, Bool-cases,
}
use cik.Protocol.{status_ok}
use cik.Stream.{Sending, takes, refuses, Sent, write_loop, write_response_payload}
use cik.Bytes.{Bytes}

-- How many bytes the calls of send take together, up to one that takes none.
abbrev pub capacity : List Sending → ℕ
capacity [] = 0
capacity (refuses ∷ rest) = 0
capacity (takes zero ∷ rest) = 0
capacity (takes (suc n) ∷ rest) = suc n + capacity rest

-- The next bytes of the response went out, as many as the socket takes; ok says that it took all.
abbrev pub Writes : List Sending → Bytes → Sent → Type 0
Writes sends out r =
    (r.bytes ≡ take (capacity sends) out) × ((r.status ≡ status_ok) ↔ (length out ≤ capacity sends))

take_all : (n : ℕ) (xs : Bytes) → length xs ≤ n → take n xs ≡ xs
take_all zero [] h = refl
take_all (suc n) [] h = refl
take_all zero (x ∷ xs) h = absurd (omega arith)
take_all (suc n) (x ∷ xs) h = ap (λ t. x ∷ t) (take_all n xs (omega arith))

take_nil : (n : ℕ) → take {A = ℕ} n [] ≡ []
take_nil zero = refl
take_nil (suc n) = refl

take_add : (m n : ℕ) (xs : Bytes) → take (m + n) xs ≡ take m xs ++ take n (drop m xs)
take_add zero n xs = ap (λ t. take t xs) (omega arith)
take_add (suc m) n [] = take_nil (suc m + n) ∙ sym (take_nil n)
take_add (suc m) n (x ∷ xs) =
    let next : suc m + n ≡ suc (m + n) = omega arith in
    ap (λ t. take t (x ∷ xs)) next ∙ ap (λ t. x ∷ t) (take_add m n xs)

write_loop-Writes :
    (sends : List Sending) (out : Bytes) → 0 < length out → Writes sends out (write_loop sends out)
unfolding write_loop
write_loop-Writes [] out h = (refl, ((λ q. cc), (λ q. absurd (omega arith))))
write_loop-Writes (refuses ∷ rest) out h = (refl, ((λ q. cc), (λ q. absurd (omega arith))))
write_loop-Writes (takes zero ∷ rest) out h = (refl, ((λ q. cc), (λ q. absurd (omega arith))))
write_loop-Writes (takes (suc n) ∷ rest) out h = elim (Bool-cases (ltb (suc n) (length out))) [
  | inl more ↦
      let len = length-drop (suc n) out in
      let (bytes, status) =
        write_loop-Writes rest (drop (suc n) out)
          (omega (arith, ltb→lt (suc n) (length out) more)) in
      rw more (
        ap (λ t. take (suc n) out ++ t) bytes ∙ sym (take_add (suc n) (capacity rest) out),
        ((λ q. omega (arith, status.0 q)), (λ q. status.1 (omega arith))),
      )
  | inr enough ↦ rw enough (sym (take_all _ out (ground arith)), ((λ q. ground arith), (λ q. refl)))
]

-- A response goes out as the prefix that the calls of send take, in order and without a gap; the
-- status is ok exactly if they take all of it, whatever the portions.
pub write_response_payload-Writes :
    (sends : List Sending) (out : Bytes) → Writes sends out (write_response_payload sends out)
unfolding write_response_payload
write_response_payload-Writes sends [] =
    (sym (take_nil (capacity sends)), ((λ q. omega arith), (λ q. refl)))
write_response_payload-Writes sends (b ∷ out) =
    let size : (length (b ∷ out) == 0) ≡ false = ground arith in
    rw (size, write_response_payload) (write_loop-Writes sends (b ∷ out) (omega arith))
