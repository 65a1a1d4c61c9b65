-- ===== src/Log/Packed.antt =====
-- The tags that a log entry of src/log.c is filled with, and what is printed of them.
use cik.Prelude.{
  map, ℕ, zero, suc, ◌+◌, ◌-◌, ◌%◌, ◌≤◌, ◌<◌, ◌≡◌, refl, sym, ◌∙◌, ap, subst, false, some, List, [],
  ◌∷◌, ◌++◌, append_assoc, length, length-append, get_elem?, drop, replicate, ltb, arith,
}
use mathlib.Core.Option
use mathlib.Core.List.{reverse}
use cik.Bytes.{Bytes}
use cik.Log.{splice, pack_tags}
use cik.Config.Text.{c_string}
use cik.Log.Print.{key2str, print_tags, print_entry_tags}
use cik.Log.Blocks.{splice_behind, elem_past, key2str-reverse, drop-drop, drop-replicate}

-- Each tag behind its length.
abbrev pub packed : List Bytes → Bytes
packed [] = []
packed (tag ∷ tags) = length tag ∷ (tag ++ packed tags)

abbrev first_length : List Bytes → ℕ
first_length [] = 0
first_length (tag ∷ tags) = length tag

-- No tag is empty.
abbrev pub NoneEmpty : List Bytes → Type 0
NoneEmpty [] = Unit
NoneEmpty (tag ∷ tags) = (0 < length tag) × NoneEmpty tags

pack_tags-packed :
    (pre blank : Bytes) (tags : List Bytes)
    → length pre + length (packed tags) < 256
    → pack_tags (pre ++ blank) (length pre) tags
      ≡ pre ++ (packed tags ++ drop (length (packed tags)) blank)
unfolding pack_tags
pack_tags-packed pre blank [] fit = refl
pack_tags-packed pre blank (tag ∷ tags) fit =
    let size : length (packed (tag ∷ tags)) ≡ suc (length tag + length (packed tags)) =
      omega (arith, length-append tag (packed tags)) in
    let pre' = pre ++ (length tag ∷ tag) in
    let blank' = drop (length tag) (drop 1 blank) in
    let small : ltb 0x100 (length pre + 1 + length tag) ≡ false = ground (arith, size, fit) in
    let one : splice (length pre) (length tag ∷ []) (pre ++ blank)
        ≡ pre ++ (length tag ∷ drop 1 blank) =
      splice_behind pre (length tag ∷ []) blank in
    let at : (length pre + 1) % 256 ≡ length (pre ++ (length tag ∷ [])) =
      omega (arith, size, fit, length-append pre (length tag ∷ [])) in
    let block : splice ((length pre + 1) % 256) tag
          (splice (length pre) (length tag ∷ []) (pre ++ blank))
        ≡ pre' ++ blank' =
      ap (λ o. splice o tag (splice (length pre) (length tag ∷ []) (pre ++ blank))) at
      ∙ ap (splice (length (pre ++ (length tag ∷ []))) tag)
          (one ∙ sym (append_assoc pre (length tag ∷ []) (drop 1 blank)))
      ∙ splice_behind (pre ++ (length tag ∷ [])) tag (drop 1 blank)
      ∙ append_assoc pre (length tag ∷ []) (tag ++ blank')
      ∙ sym (append_assoc pre (length tag ∷ tag) blank') in
    let next : ((length pre + 1) % 256 + length tag) % 256 ≡ length pre' =
      omega (arith, size, fit, length-append pre (length tag ∷ tag)) in
    let rest =
      pack_tags-packed pre' blank' tags
        (omega (arith, size, fit, length-append pre (length tag ∷ tag))) in
    let behind = drop (length (packed tags)) blank' in
    let count : 1 + (length tag + length (packed tags)) ≡ length (packed (tag ∷ tags)) =
      omega (arith, size) in
    let skipped : behind ≡ drop (length (packed (tag ∷ tags))) blank =
      drop-drop (length (packed tags)) (length tag) (drop 1 blank)
      ∙ drop-drop (length tag + length (packed tags)) 1 blank
      ∙ ap (λ k. drop k blank) count in
    rw (small, pack_tags)
      (ap (λ b. pack_tags b (((length pre + 1) % 256 + length tag) % 256) tags) block
        ∙ ap (λ n. pack_tags (pre' ++ blank') n tags) next
        ∙ rest
        ∙ append_assoc pre (length tag ∷ tag) (packed tags ++ behind)
        ∙ ap (λ t. pre ++ (length tag ∷ t))
            (sym (append_assoc tag (packed tags) behind)
              ∙ ap (λ t. (tag ++ packed tags) ++ t) skipped))

first_byte :
    (tags : List Bytes) (post : Bytes)
    → get_elem? (packed tags ++ (0 ∷ post)) 0 ≡ some (first_length tags)
first_byte [] post = refl
first_byte (tag ∷ tags) post = refl

-- One round of the loop, from what it reads.
print_tags_step :
    (fuel base nmemb next : ℕ) (block text : Bytes) (texts : List Bytes)
    → 0 < nmemb
    → key2str block base nmemb ≡ some text
    → get_elem? block (base + nmemb) ≡ some next
    → print_tags fuel block (base + nmemb + 1) next ≡ some texts
    → print_tags (suc fuel) block base nmemb ≡ some (c_string text ∷ texts)
unfolding print_tags Option.bind
print_tags_step fuel base nmemb next block text texts h a b c = ground (arith, h, a, b, c)

print_tags-packed :
    (pre post : Bytes) (tags : List Bytes) (fuel : ℕ)
    → NoneEmpty tags
    → length tags < fuel
    → print_tags fuel (pre ++ (packed tags ++ (0 ∷ post))) (length pre + 1) (first_length tags)
      ≡ some (map (λ tag. c_string (reverse tag)) tags)
unfolding print_tags Option.bind
print_tags-packed pre post tags zero full enough = absurd (omega (arith, enough))
print_tags-packed pre post [] (suc fuel) full enough = refl
print_tags-packed pre post (tag ∷ tags) (suc fuel) (some_bytes, full) enough =
    let rest = packed tags ++ (0 ∷ post) in
    let head = pre ++ (length tag ∷ []) in
    let pre' = pre ++ (length tag ∷ tag) in
    let block = pre ++ (packed (tag ∷ tags) ++ (0 ∷ post)) in
    let tail : pre ++ (length tag ∷ (tag ++ rest)) ≡ block =
      ap (λ t. pre ++ (length tag ∷ t)) (sym (append_assoc tag (packed tags) (0 ∷ post))) in
    let as_head : head ++ (tag ++ rest) ≡ block =
      append_assoc pre (length tag ∷ []) (tag ++ rest) ∙ tail in
    let as_pre' : pre' ++ rest ≡ block = append_assoc pre (length tag ∷ tag) rest ∙ tail in
    let base : length head ≡ length pre + 1 = length-append pre (length tag ∷ []) in
    let size : length pre' ≡ length pre + 1 + length tag =
      omega (arith, length-append pre (length tag ∷ tag)) in
    let text : key2str block (length pre + 1) (length tag) ≡ some (reverse tag) =
      subst (λ b. key2str b (length pre + 1) (length tag) ≡ some (reverse tag)) as_head
        (subst (λ n. key2str (head ++ (tag ++ rest)) n (length tag) ≡ some (reverse tag)) base
          (key2str-reverse head tag rest)) in
    let place : length pre' + 0 ≡ length pre + 1 + length tag = omega (arith, size) in
    let next : get_elem? block (length pre + 1 + length tag) ≡ some (first_length tags) =
      subst (λ b. get_elem? b (length pre + 1 + length tag) ≡ some (first_length tags)) as_pre'
        (subst (λ n. get_elem? (pre' ++ rest) n ≡ some (first_length tags)) place
          (elem_past pre' rest 0 ∙ first_byte tags post)) in
    let beyond : length pre' + 1 ≡ length pre + 1 + length tag + 1 = omega (arith, size) in
    let others : print_tags fuel block (length pre + 1 + length tag + 1) (first_length tags)
        ≡ some (map (λ tag. c_string (reverse tag)) tags) =
      subst
        (λ b.
          print_tags fuel b (length pre + 1 + length tag + 1) (first_length tags)
          ≡ some (map (λ tag. c_string (reverse tag)) tags))
        as_pre'
        (subst
          (λ n.
            print_tags fuel (pre' ++ rest) n (first_length tags)
            ≡ some (map (λ tag. c_string (reverse tag)) tags))
          beyond (print_tags-packed pre' post tags fuel full (omega (arith, enough)))) in
    print_tags_step fuel (length pre + 1) (length tag) (first_length tags) block (reverse tag)
      (map (λ tag. c_string (reverse tag)) tags) some_bytes text next others

count_tags : (tags : List Bytes) → length tags ≤ length (packed tags)
count_tags [] = omega arith
count_tags (tag ∷ tags) = omega (arith, count_tags tags, length-append tag (packed tags))

-- Tags that a log entry is filled with are printed as they were sent, last byte first and up to the
-- first zero byte then, in the same order and without any other, if none of them is empty and with
-- a length byte each they take fewer than the 256 bytes of the entry.
pub print_entry_tags-pack_tags :
    (tags : List Bytes)
    → NoneEmpty tags
    → length (packed tags) < 256
    → print_entry_tags (pack_tags (replicate 0x100 0) 0 tags)
      ≡ some (map (λ tag. c_string (reverse tag)) tags)
unfolding print_entry_tags Option.bind
print_entry_tags-pack_tags tags full fit =
    let left = 255 - length (packed tags) in
    let split : 0x100 ≡ length (packed tags) + suc left = omega (arith, fit) in
    let zeros : drop (length (packed tags)) (replicate 0x100 0) ≡ 0 ∷ replicate left 0 =
      ap (λ k. drop (length (packed tags)) (replicate k 0)) split
      ∙ drop-replicate (length (packed tags)) (suc left) 0 in
    let filled : pack_tags (replicate 0x100 0) 0 tags ≡ packed tags ++ (0 ∷ replicate left 0) =
      pack_tags-packed [] (replicate 0x100 0) tags (omega (arith, fit))
      ∙ ap (λ t. packed tags ++ t) zeros in
    let block = packed tags ++ (0 ∷ replicate left 0) in
    let enough : length tags < suc (length block) =
      omega (arith, count_tags tags, length-append (packed tags) (0 ∷ replicate left 0)) in
    rw filled (
      ground (
        arith,
        first_byte tags (replicate left 0),
        print_tags-packed [] (replicate left 0) tags (suc (length block)) full enough,
      ))
