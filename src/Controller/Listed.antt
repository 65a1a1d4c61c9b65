-- ===== src/Controller/Listed.antt =====
-- What the list handlers of src/controller.c put into the payload: names, one behind another.
use cik.Prelude.{
  ◌+◌, ◌%◌, ◌≤◌, ◌<◌, ◌≡◌, ◌⊎◌, inl, inr, refl, sym, ◌∙◌, ap, subst, Option, none, some, List, [],
  ◌∷◌, ◌++◌, append-nil, append_assoc, length, length-append, length-drop, drop, arith, Bool-cases,
}
use cik.World.{Payload}
use mathlib.Core.List.{reverse}
use mathlib.Core.Path.{ap₂}
use cik.Bytes.{Bytes}
use cik.Bytes.Reverse.{reverse_block_lem}
use cik.Log.{splice}
use cik.Log.Blocks.{splice_behind}
use cik.Protocol.{status_ok, status_out_of_memory}
use cik.Persist.Reads.{length-reverse}
use cik.Controller.Lst.{ListData, put_name, is_full, list_name}

-- Names behind one another, each a length byte and its bytes in their own order.
abbrev pub encoded : List Bytes → Bytes
encoded [] = []
encoded (name ∷ names) = length name ∷ (reverse name ++ encoded names)

-- Every name is from 1 to 255 bytes long.
abbrev pub AreNames : List Bytes → Type 0
AreNames [] = Unit
AreNames (name ∷ names) = (0 < length name) × (length name < 256) × AreNames names

-- A block that starts with these bytes and is as long as its capacity says.
abbrev pub StartsWith : Payload → Bytes → Type 0
StartsWith p bs =
    (blank : Bytes) × (p.base ≡ bs ++ blank) × (p.nmemb ≡ length bs) × (length p.base ≡ p.cap)

-- One name behind another, by the callback of the walks.
unfoldable pub list_names : List Bytes → ListData → Option ListData
list_names [] d = some d
list_names (name ∷ names) d = elim (list_name name d) [
  | none ↦ none
  | some d' ↦ list_names names d'
]

put_name-StartsWith :
    (name : Bytes) (p : Payload) (bs : Bytes)
    → 0 < length name
    → length name < 256
    → p.nmemb + 1 + length name ≤ p.cap
    → StartsWith p bs
    → (p' : Payload) × (put_name name p ≡ some p')
      × (p'.cap ≡ p.cap)
      × StartsWith p' (bs ++ (length name ∷ reverse name))
unfolding put_name
put_name-StartsWith name p bs pos short room (blank, base, size, len) =
    let text = reverse_block_lem name pos (omega (arith, short)) in
    let new : Bytes = (length name % 256) ∷ reverse name in
    let byte : length name % 256 ≡ length name = omega (arith, short) in
    let same : new ≡ length name ∷ reverse name = ap (λ n. n ∷ reverse name) byte in
    let back = length-reverse name in
    let block : splice p.nmemb new p.base ≡ bs ++ (new ++ drop (length new) blank) =
      ap₂ (λ n b. splice n new b) size base ∙ splice_behind bs new blank in
    let total : length p.base ≡ length bs + length blank =
      ap length base ∙ length-append bs blank in
    let rest = length-drop (length new) blank in
    (
      record p { base = splice p.nmemb new p.base; nmemb = p.nmemb + 1 + length name },
      rw (text, put_name) refl,
      refl,
      (
        drop (length new) blank,
        block
            ∙ ap (λ t. bs ++ (t ++ drop (length new) blank)) same
            ∙ sym (append_assoc bs (length name ∷ reverse name) (drop (length new) blank)),
        omega (arith, size, length-append bs (length name ∷ reverse name), back),
        ap length block
            ∙ omega (
              arith,
              length-append bs (new ++ drop (length new) blank),
              length-append new (drop (length new) blank),
              rest,
              back,
              len,
              total,
              room,
              size,
            ),
      ),
    )

-- A status that is not ok keeps everything as it is.
pub list_names_stopped :
    (names : List Bytes) (p : Payload)
    → list_names names (record { status = status_out_of_memory; payload = p })
      ≡ some (record { status = status_out_of_memory; payload = p })
unfolding list_names list_name
list_names_stopped [] p = refl
list_names_stopped (name ∷ names) p = list_names_stopped names p

-- All names are listed, or as many as there is room for.
abbrev pub Lists : List Bytes → Payload → Bytes → ListData → Type 0
Lists names p bs d =
    ((d.status ≡ status_ok) × StartsWith d.payload (bs ++ encoded names))
    ⊎ ((fitting : List Bytes) × (next : Bytes) × (rest : List Bytes) × (names
          ≡ fitting ++ (next ∷ rest))
        × (d.status ≡ status_out_of_memory)
        × StartsWith d.payload (bs ++ encoded fitting)
        × (p.cap < length (bs ++ encoded fitting) + 1 + length next))

encoded-cons :
    (name : Bytes) (names : List Bytes) (bs : Bytes)
    → (bs ++ (length name ∷ reverse name)) ++ encoded names ≡ bs ++ encoded (name ∷ names)
encoded-cons name names bs = append_assoc bs (length name ∷ reverse name) (encoded names)

Lists-cons :
    (name : Bytes) (names : List Bytes) (p p' : Payload) (bs : Bytes) (d : ListData)
    → p'.cap ≡ p.cap
    → Lists names p' (bs ++ (length name ∷ reverse name)) d
    → Lists (name ∷ names) p bs d
Lists-cons name names p p' bs d cap (inl (good, starts)) =
    inl (good, subst (StartsWith d.payload) (encoded-cons name names bs) starts)
Lists-cons name names p p' bs d cap (inr (fitting, next, rest, split, full, starts, over)) =
    let here = encoded-cons name fitting bs in
    inr (
      name ∷ fitting,
      next,
      rest,
      ap (λ t. name ∷ t) split,
      full,
      subst (StartsWith d.payload) here starts,
      omega (arith, over, cap, ap length here),
    )

pub list_names-Lists :
    (names : List Bytes) (p : Payload) (bs : Bytes)
    → AreNames names
    → StartsWith p bs
    → (d : ListData) × (list_names names (record { status = status_ok; payload = p }) ≡ some d)
      × Lists names p bs d
unfolding list_names list_name
list_names-Lists [] p bs ok starts = (
  record { status = status_ok; payload = p },
  refl,
  inl (refl, subst (StartsWith p) (sym (append-nil bs)) starts),
)
list_names-Lists (name ∷ names) p bs (pos, short, ok) starts = elim (Bool-cases (is_full name p)) [
  | inl full ↦ (
    record { status = status_out_of_memory; payload = p },
    rw (full, list_names, list_name) (list_names_stopped names p),
    inr (
      [],
      name,
      names,
      refl,
      refl,
      subst (StartsWith p) (sym (append-nil bs)) starts,
      ground (arith, full, starts.2, ap length (append-nil bs)),
    ),
  )
  | inr room ↦
      let (p', put, cap, starts') =
        put_name-StartsWith name p bs pos short (ground (arith, room)) starts in
      let (d, done, lists) =
        list_names-Lists names p' (bs ++ (length name ∷ reverse name)) ok starts' in
      (
        d,
        rw (room, list_names, list_name) (rw (put) done),
        Lists-cons name names p p' bs d cap lists,
      )
]
