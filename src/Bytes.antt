-- ===== src/Bytes.antt =====
-- Byte strings: the bytes that a base pointer and a member count delimit. memcmp as src/tag.c and
-- src/entry.c use it, and the in-place reversal of src/util.h.
pub mod Xor
pub mod Reverse
pub mod Compare
use mathlib.Core.Option
use cik.Prelude.{
  ℕ, zero, suc, ◌+◌, ◌-◌, ◌%◌, ◌^◌, Bool, true, false, List, [], ◌∷◌, compare, Ordering, length,
  get_elem?, set, bit_xor, Option, none, some, ltb,
}

abbrev pub Bytes : Type 0
Bytes = List ℕ

-- memcmp over the common length: the first difference decides.
unfoldable pub memcmp : Bytes → Bytes → Ordering
memcmp [] ys = Ordering.eq
memcmp (x ∷ xs) [] = Ordering.eq
memcmp (x ∷ xs) (y ∷ ys) =
    let rest = memcmp xs ys in elim (compare x y) [ Ordering.eq ↦ rest | o ↦ o ]

-- `*i ^= *j; *j ^= *i; *i ^= *j` on the bytes a and b at i and j.
abbrev pub xor_pair : ℕ → ℕ → ℕ × ℕ
xor_pair a b = let a' = bit_xor a b in let b' = bit_xor b a' in (bit_xor a' b', b')

unfoldable pub xor_swap : Bytes → ℕ → ℕ → Option Bytes
xor_swap mem i j =
    Option.bind (get_elem? mem i) λ a.
      Option.bind (get_elem? mem j) λ b. let p = xor_pair a b in some (set (set mem j p.1) i p.0)

-- `for (; i < j; ++i, --j)`; `none` is an access outside the block.
unfoldable pub reverse_loop : ℕ → Bytes → ℕ → ℕ → Option Bytes
unfolding xor_swap
reverse_loop zero mem i j = none
reverse_loop (suc fuel) mem i j = elim (ltb i j) [
  | true ↦ Option.bind (xor_swap mem i j) (λ m. reverse_loop fuel m (i + 1) (j - 1))
  | false ↦ some mem
]

-- `nmemb - 1` is a subtraction of 32-bit unsigned numbers. Each round takes two bytes of the
-- block, so its length is fuel enough.
unfoldable pub reverse_bytes : Bytes → ℕ → ℕ → Option Bytes
unfolding reverse_loop
reverse_bytes mem base nmemb =
    reverse_loop (suc (length mem)) mem base (base + (nmemb + 2 ^ 32 - 1) % 2 ^ 32)

-- A call on a block that is exactly the `nmemb` bytes at `base`.
unfoldable pub reverse_block : Bytes → Option Bytes
unfolding reverse_bytes
reverse_block bs = reverse_bytes bs 0 (length bs)
