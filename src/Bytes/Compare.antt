-- ===== src/Bytes/Compare.antt =====
-- Comparison of keys and tags: `keys_are_equal` and `compare_tags` of src/tag.c, and the order
-- that `compare_tags` computes.
use cik.Prelude.{
  ℕ, zero, suc, ◌≤◌, Bool, true, false, [], ◌∷◌, compare, Ordering, length, take, ◌≡◌, refl, ltb,
  ◌==◌, if◌then◌else◌, arith, ◌↔◌, Bool-cases, inl, inr, ◌∙◌,
}
use cik.Bytes.{Bytes, memcmp}

is_eq : Ordering → Bool
is_eq Ordering.eq = true
is_eq _ = false

-- Two keys with one base pointer have the same bytes, so the test on the bases is subsumed.
unfoldable pub keys_are_equal : Bytes → Bytes → Bool
unfolding is_eq memcmp
keys_are_equal a b = if length a == length b then is_eq (memcmp a b) else false

-- The sign of the int that the source returns.
unfoldable pub compare_tags : Bytes → Bytes → Ordering
unfolding memcmp
compare_tags a b =
    let size = (if ltb (length b) (length a) then length b else length a) in
    let result : Ordering = if size == 0 then Ordering.eq else memcmp (take size a) (take size b) in
    elim result [
      | Ordering.eq ↦
          if ltb (length a) (length b)
          then Ordering.lt
          else if ltb (length b) (length a)
          then Ordering.gt
          else Ordering.eq
      | o ↦ o
    ]

-- The comparison of keys holds exactly of equal byte strings.
pub keys_are_equal_iff : (a b : Bytes) → (keys_are_equal a b ≡ true) ↔ (a ≡ b)
unfolding keys_are_equal
keys_are_equal_iff [] [] = ground arith
keys_are_equal_iff [] (y ∷ b) = ground arith
keys_are_equal_iff (x ∷ a) [] = ground arith
keys_are_equal_iff (x ∷ a) (y ∷ b) = ground (arith, keys_are_equal_iff a b)

-- The dictionary order, a prefix before its extensions.
abbrev pub lex : Bytes → Bytes → Ordering
lex [] [] = Ordering.eq
lex [] (y ∷ b) = Ordering.lt
lex (x ∷ a) [] = Ordering.gt
lex (x ∷ a) (y ∷ b) = let rest = lex a b in elim (compare x y) [ Ordering.eq ↦ rest | o ↦ o ]

memcmp-take_left : (n : ℕ) (a b : Bytes) → length a ≤ n → memcmp (take n a) (take n b) ≡ memcmp a b
unfolding memcmp
memcmp-take_left zero [] b h = refl
memcmp-take_left zero (x ∷ a) b h = absurd (omega arith)
memcmp-take_left (suc n) [] b h = refl
memcmp-take_left (suc n) (x ∷ a) [] h = refl
memcmp-take_left (suc n) (x ∷ a) (y ∷ b) h = ground (arith, memcmp-take_left n a b)

memcmp-take_right : (n : ℕ) (a b : Bytes) → length b ≤ n → memcmp (take n a) (take n b) ≡ memcmp a b
unfolding memcmp
memcmp-take_right zero [] b h = refl
memcmp-take_right zero (x ∷ a) [] h = refl
memcmp-take_right zero (x ∷ a) (y ∷ b) h = absurd (omega arith)
memcmp-take_right (suc n) [] b h = refl
memcmp-take_right (suc n) (x ∷ a) [] h = refl
memcmp-take_right (suc n) (x ∷ a) (y ∷ b) h = ground (arith, memcmp-take_right n a b)

-- The comparison of the bytes, and where those agree of the lengths.
abbrev by_length : Ordering → ℕ → ℕ → Ordering
by_length Ordering.eq m n =
    if ltb m n then Ordering.lt else if ltb n m then Ordering.gt else Ordering.eq
by_length o m n = o

compare_tags-memcmp :
    (a b : Bytes) → compare_tags a b ≡ by_length (memcmp a b) (length a) (length b)
unfolding compare_tags
compare_tags-memcmp [] [] = ground arith
compare_tags-memcmp [] (y ∷ b) = ground arith
compare_tags-memcmp (x ∷ a) [] = ground arith
compare_tags-memcmp (x ∷ a) (y ∷ b) = elim (Bool-cases (ltb (length (y ∷ b)) (length (x ∷ a)))) [
  | inl e ↦ ground (arith, memcmp-take_right (length (y ∷ b)) (x ∷ a) (y ∷ b))
  | inr e ↦ ground (arith, memcmp-take_left (length (x ∷ a)) (x ∷ a) (y ∷ b))
]

by_length-memcmp : (a b : Bytes) → by_length (memcmp a b) (length a) (length b) ≡ lex a b
unfolding memcmp
by_length-memcmp [] [] = ground arith
by_length-memcmp [] (y ∷ b) = ground arith
by_length-memcmp (x ∷ a) [] = ground arith
by_length-memcmp (x ∷ a) (y ∷ b) = ground (arith, by_length-memcmp a b)

-- Comparing the common length by memcmp, and then the lengths, is the dictionary order.
pub compare_tags-lex : (a b : Bytes) → compare_tags a b ≡ lex a b
compare_tags-lex a b = compare_tags-memcmp a b ∙ by_length-memcmp a b

pub lex_refl : (a : Bytes) → lex a a ≡ Ordering.eq
lex_refl [] = refl
lex_refl (x ∷ a) = ground (arith, lex_refl a)

pub eq_of_lex : (a b : Bytes) → lex a b ≡ Ordering.eq → a ≡ b
eq_of_lex [] [] h = refl
eq_of_lex [] (y ∷ b) h = ground arith
eq_of_lex (x ∷ a) [] h = ground arith
eq_of_lex (x ∷ a) (y ∷ b) h = ground (arith, eq_of_lex a b)

pub gt_of_lt : (a b : Bytes) → lex a b ≡ Ordering.lt → lex b a ≡ Ordering.gt
gt_of_lt [] [] h = ground arith
gt_of_lt [] (y ∷ b) h = refl
gt_of_lt (x ∷ a) [] h = ground arith
gt_of_lt (x ∷ a) (y ∷ b) h = ground (arith, gt_of_lt a b)

pub lt_of_gt : (a b : Bytes) → lex a b ≡ Ordering.gt → lex b a ≡ Ordering.lt
lt_of_gt [] [] h = ground arith
lt_of_gt [] (y ∷ b) h = ground arith
lt_of_gt (x ∷ a) [] h = refl
lt_of_gt (x ∷ a) (y ∷ b) h = ground (arith, lt_of_gt a b)

pub lex_trans :
    (a b c : Bytes) → lex a b ≡ Ordering.lt → lex b c ≡ Ordering.lt → lex a c ≡ Ordering.lt
lex_trans [] [] c h k = ground arith
lex_trans [] (y ∷ b) [] h k = ground arith
lex_trans [] (y ∷ b) (z ∷ c) h k = refl
lex_trans (x ∷ a) [] c h k = ground arith
lex_trans (x ∷ a) (y ∷ b) [] h k = ground arith
lex_trans (x ∷ a) (y ∷ b) (z ∷ c) h k = ground (arith, lex_trans a b c)
