-- ===== src/Log/Blocks.antt =====
-- Reading and writing in the data of a log entry of src/log.c, and the reversal of key2str.
use cik.Prelude.{
  ℕ, zero, suc, ◌+◌, ◌≤◌, ◌<◌, ◌≡◌, refl, sym, ◌∙◌, ap, some, [], ◌∷◌, ◌++◌, length, get_elem?,
  take, drop, take-append, replicate, arith,
}
use mathlib.Core.Option
use mathlib.Core.List.{reverse, reverse-append}
use cik.Bytes.{Bytes}
use cik.Log.{splice}
use cik.Log.Print.{key2str}

drop_past : (pre bs : Bytes) (n : ℕ) → drop (length pre + n) (pre ++ bs) ≡ drop n bs
drop_past [] bs n = ap (λ k. drop k bs) (omega arith)
drop_past (c ∷ pre) bs n =
    let step : length (c ∷ pre) + n ≡ suc (length pre + n) = omega arith in
    ap (λ k. drop k (c ∷ (pre ++ bs))) step ∙ drop_past pre bs n

pub splice_behind :
    (pre bs blank : Bytes)
    → splice (length pre) bs (pre ++ blank) ≡ pre ++ (bs ++ drop (length bs) blank)
splice_behind pre bs blank =
    ap (λ t. t ++ (bs ++ drop (length pre + length bs) (pre ++ blank))) (take-append pre blank)
    ∙ ap (λ t. pre ++ (bs ++ t)) (drop_past pre blank (length bs))

pub elem_past : (pre bs : Bytes) (n : ℕ) → get_elem? (pre ++ bs) (length pre + n) ≡ get_elem? bs n
elem_past [] bs n = ap (get_elem? bs) (omega arith)
elem_past (c ∷ pre) bs n =
    let step : length (c ∷ pre) + n ≡ suc (length pre + n) = omega arith in
    ap (get_elem? (c ∷ (pre ++ bs))) step ∙ elem_past pre bs n

take_one_more :
    (xs post : Bytes) (n : ℕ)
    → n < length xs
    → (x : ℕ) × (get_elem? (xs ++ post) n ≡ some x) × (take (suc n) xs ≡ take n xs ++ (x ∷ []))
take_one_more [] post n h = absurd (omega (arith, h))
take_one_more (c ∷ xs) post zero h = (c, refl, refl)
take_one_more (c ∷ xs) post (suc n) h =
    let (x, at, step) = take_one_more xs post n (omega (arith, h)) in (x, at, ap (λ t. c ∷ t) step)

key2str_from :
    (pre xs post : Bytes) (n : ℕ)
    → n ≤ length xs
    → key2str (pre ++ (xs ++ post)) (length pre) n ≡ some (reverse (take n xs))
unfolding key2str Option.bind
key2str_from pre xs post zero h = refl
key2str_from pre xs post (suc n) h =
    let (x, at, step) = take_one_more xs post n (omega (arith, h)) in
    let here = elem_past pre (xs ++ post) n ∙ at in
    let before = key2str_from pre xs post n (omega (arith, h)) in
    let turned : reverse (take (suc n) xs) ≡ x ∷ reverse (take n xs) =
      ap reverse step ∙ reverse-append (take n xs) (x ∷ []) in
    ground (arith, here, before, turned)

take_all : (xs : Bytes) → take (length xs) xs ≡ xs
take_all [] = refl
take_all (x ∷ xs) = ap (λ t. x ∷ t) (take_all xs)

-- `key2str` turns the bytes of a key around.
pub key2str-reverse :
    (pre xs post : Bytes)
    → key2str (pre ++ (xs ++ post)) (length pre) (length xs) ≡ some (reverse xs)
key2str-reverse pre xs post =
    key2str_from pre xs post (length xs) (omega arith) ∙ ap (λ t. some (reverse t)) (take_all xs)

drop_nil : (n : ℕ) → drop {A = ℕ} n [] ≡ []
drop_nil zero = refl
drop_nil (suc n) = refl

pub drop-drop : (m n : ℕ) (bs : Bytes) → drop m (drop n bs) ≡ drop (n + m) bs
drop-drop m zero bs = let step : m ≡ 0 + m = omega arith in ap (λ k. drop k bs) step
drop-drop m (suc n) [] = drop_nil m ∙ sym (drop_nil (suc n + m))
drop-drop m (suc n) (c ∷ bs) =
    let step : suc (n + m) ≡ suc n + m = omega arith in
    drop-drop m n bs ∙ ap (λ k. drop k (c ∷ bs)) step

pub drop-replicate : (n m : ℕ) (c : ℕ) → drop n (replicate (n + m) c) ≡ replicate m c
drop-replicate zero m c = let step : 0 + m ≡ m = omega arith in ap (λ k. replicate k c) step
drop-replicate (suc n) m c =
    let step : suc n + m ≡ suc (n + m) = omega arith in
    ap (λ k. drop (suc n) (replicate k c)) step ∙ drop-replicate n m c
