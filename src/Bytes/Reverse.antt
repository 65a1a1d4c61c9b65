-- ===== src/Bytes/Reverse.antt =====
-- `reverse_bytes` (src/util.h) against the reversal of a list, and what it does on no bytes.
use mathlib.Core.List.{reverse, reverse-append}
use mathlib.Core.Option
use cik.Prelude.{
  ℕ, zero, suc, ◌+◌, ◌-◌, ◌%◌, ◌^◌, ◌≤◌, ◌<◌, [], ◌∷◌, ◌++◌, append-nil, append_assoc, length,
  get_elem?, set, none, some, subst, ◌≡◌, refl, arith, sym, ap, ◌∙◌, length-append,
}
use cik.Bytes.{Bytes, xor_swap, reverse_loop, reverse_bytes, reverse_block}
use cik.Bytes.Xor.{xor_cancel_left, xor_cancel_right}

get_elem?-middle : (xs : Bytes) (y : ℕ) (ys : Bytes) → get_elem? (xs ++ y ∷ ys) (length xs) ≡ some y
get_elem?-middle [] y ys = refl
get_elem?-middle (x ∷ xs) y ys = get_elem?-middle xs y ys

set-middle : (xs : Bytes) (y z : ℕ) (ys : Bytes) → set (xs ++ y ∷ ys) (length xs) z ≡ xs ++ z ∷ ys
set-middle [] y z ys = refl
set-middle (x ∷ xs) y z ys = ap (λ t. x ∷ t) (set-middle xs y z ys)

get_elem?-beyond : (xs : Bytes) (i : ℕ) → length xs ≤ i → get_elem? xs i ≡ none
get_elem?-beyond [] i h = refl
get_elem?-beyond (x ∷ xs) zero h = absurd (omega arith)
get_elem?-beyond (x ∷ xs) (suc i) h = get_elem?-beyond xs i (omega arith)

-- One round exchanges the two bytes: the three exclusive ors lose nothing.
xor_swap_lem :
    (pre : Bytes) (x : ℕ) (mid : Bytes) (y : ℕ) (post : Bytes) (i j : ℕ)
    → i ≡ length pre
    → j ≡ length (pre ++ x ∷ mid)
    → xor_swap (pre ++ x ∷ (mid ++ y ∷ post)) i j ≡ some (pre ++ y ∷ (mid ++ x ∷ post))
unfolding xor_swap Option.bind
xor_swap_lem pre x mid y post i j hi hj =
    let regroup : pre ++ x ∷ (mid ++ y ∷ post) ≡ (pre ++ x ∷ mid) ++ y ∷ post =
      sym (append_assoc pre (x ∷ mid) (y ∷ post)) in
    let at_j : get_elem? (pre ++ x ∷ (mid ++ y ∷ post)) j ≡ some y =
      rw (hj, regroup) (get_elem?-middle (pre ++ x ∷ mid) y post) in
    let set_j : set (pre ++ x ∷ (mid ++ y ∷ post)) j x ≡ pre ++ x ∷ (mid ++ x ∷ post) =
      rw (hj, regroup, set-middle (pre ++ x ∷ mid) y x post)
        (append_assoc pre (x ∷ mid) (x ∷ post)) in
    rw
      (
        hi,
        get_elem?-middle pre x (mid ++ y ∷ post),
        ← hi,
        at_j,
        xor_cancel_right x y,
        xor_cancel_left x y,
        set_j,
        hi,
      )
      (ap some (set-middle pre x y (mid ++ x ∷ post)))

snoc_view : (x : ℕ) (xs : Bytes) → (mid : Bytes) × (y : ℕ) × (x ∷ xs ≡ mid ++ y ∷ [])
snoc_view x [] = ([], x, refl)
snoc_view x (y ∷ ys) = let (mid, z, e) = snoc_view y ys in (x ∷ mid, z, ap (λ t. x ∷ t) e)

reverse_ends :
    (x : ℕ) (mid : Bytes) (y : ℕ) → reverse (x ∷ (mid ++ y ∷ [])) ≡ y ∷ (reverse mid ++ x ∷ [])
reverse_ends x mid y = rw (reverse-append (x ∷ []) (mid ++ y ∷ []), reverse-append mid (y ∷ []))

reverse_loop_stop :
    (fuel : ℕ) (mem : Bytes) (i j : ℕ) → j ≤ i → reverse_loop (suc fuel) mem i j ≡ some mem
unfolding reverse_loop
reverse_loop_stop fuel mem i j h = ground arith

reverse_loop_round :
    (fuel : ℕ) (mem mem' : Bytes) (i j : ℕ)
    → i < j
    → xor_swap mem i j ≡ some mem'
    → reverse_loop (suc fuel) mem i j ≡ reverse_loop fuel mem' (i + 1) (j - 1)
unfolding reverse_loop Option.bind
reverse_loop_round fuel mem mem' i j h e = ground (arith, e)

reverse_loop_lem :
    (fuel : ℕ) (pre xs post : Bytes) (i j : ℕ)
    → length xs < fuel
    → i ≡ length pre
    → j ≡ length pre + length xs - 1
    → reverse_loop fuel (pre ++ (xs ++ post)) i j ≡ some (pre ++ (reverse xs ++ post))
reverse_loop_lem zero pre xs post i j f hi hj = absurd (omega arith)
reverse_loop_lem (suc fuel) pre [] post i j f hi hj = reverse_loop_stop fuel _ i j (omega arith)
reverse_loop_lem (suc fuel) pre (x ∷ []) post i j f hi hj =
    reverse_loop_stop fuel _ i j (omega arith)
reverse_loop_lem (suc fuel) pre (x ∷ (x' ∷ xs)) post i j f hi hj =
    let (mid, y, e) = snoc_view x' xs in
    let len : suc (length xs) ≡ length mid + 1 = ap length e ∙ length-append mid (y ∷ []) in
    let swapped =
      xor_swap_lem pre x mid y post i j hi (omega (arith, length-append pre (x ∷ mid))) in
    let rest =
      reverse_loop_lem fuel (pre ++ y ∷ []) mid (x ∷ post) (i + 1) (j - 1) (omega arith)
        (omega (arith, length-append pre (y ∷ []))) (omega (arith, length-append pre (y ∷ []))) in
    subst
      (λ t.
        reverse_loop (suc fuel) (pre ++ x ∷ (t ++ post)) i j
        ≡ some (pre ++ (reverse (x ∷ t) ++ post)))
      (sym e)
      (rw
        (
          append_assoc mid (y ∷ []) post,
          reverse_loop_round fuel _ _ i j (omega arith) swapped,
          ← append_assoc pre (y ∷ []) (mid ++ x ∷ post),
          rest,
          reverse_ends x mid y,
        )
        (ap some (
          append_assoc pre (y ∷ []) (reverse mid ++ x ∷ post)
          ∙ ap (λ t. pre ++ y ∷ t) (sym (append_assoc (reverse mid) (x ∷ []) post)))))

-- Inside a larger block, the reversal reverses the `nmemb` bytes at `base` and touches no other, if
-- there is at least one and fewer than 2 ^ 32.
pub reverse_bytes_lem :
    (pre xs post : Bytes)
    → 0 < length xs
    → length xs < 2 ^ 32
    → reverse_bytes (pre ++ (xs ++ post)) (length pre) (length xs)
      ≡ some (pre ++ (reverse xs ++ post))
unfolding reverse_bytes
reverse_bytes_lem pre xs post h k =
    reverse_loop_lem (suc (length (pre ++ (xs ++ post)))) pre xs post (length pre)
      (length pre + (length xs + 2 ^ 32 - 1) % 2 ^ 32)
      (omega (arith, length-append pre (xs ++ post), length-append xs post)) refl (omega arith)

-- A block that is exactly the bytes of a key or tag.
pub reverse_block_lem :
    (xs : Bytes) → 0 < length xs → length xs < 2 ^ 32 → reverse_block xs ≡ some (reverse xs)
unfolding reverse_block
reverse_block_lem xs h k =
    subst (λ t. reverse_bytes t 0 (length xs) ≡ some (reverse xs)) (append-nil xs)
      (reverse_bytes_lem [] xs [] h k ∙ ap some (append-nil (reverse xs)))

-- With no bytes, `nmemb - 1` wraps: the first round reads 4 GiB - 1 bytes past the base, outside of
-- any block that is smaller than 2 ^ 32 bytes.
pub reverse_bytes_empty :
    (mem : Bytes) (base : ℕ) → length mem < 2 ^ 32 → reverse_bytes mem base 0 ≡ none
unfolding reverse_bytes reverse_loop xor_swap Option.bind
reverse_bytes_empty mem base h =
    ground (arith, get_elem?-beyond mem (base + 4294967295) (omega arith))
