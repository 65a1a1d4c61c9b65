-- ===== src/Log/Mask.antt =====
-- `& mask` of src/log.c, for the mask of a power of two of elements.
use cik.Prelude.{ℕ, zero, suc, ◌+◌, ◌-◌, ◌*◌, ◌/◌, ◌%◌, ◌^◌, ◌≤◌, ◌<◌, min, ◌≡◌, ap, arith}
use Prim.Native.Nat.{bit_and-bitwise, bit_and}
use native.Mathlib.Nat.{le_refl, pow-suc, one-le-pow}
use cik.Bytes.Xor.{digits_fuel}

and_step : (a b : ℕ) → bit_and a b ≡ bit_and (a / 2) (b / 2) * 2 + min (a % 2) (b % 2)
and_step zero b = omega (arith, bit_and-bitwise 0 b, bit_and-bitwise 0 (b / 2))
and_step (suc a) b = omega (
  arith,
  bit_and-bitwise (suc a) b,
  bit_and-bitwise (suc a / 2) (b / 2),
  digits_fuel (λ y. 0) min a (suc a / 2) (suc a / 2) (b / 2) (omega arith) (le_refl _),
)

and_zero_fuel : (n a : ℕ) → a ≤ n → bit_and a 0 ≡ 0
and_zero_fuel n zero h = bit_and-bitwise 0 0
and_zero_fuel zero (suc a) h = absurd (omega arith)
and_zero_fuel (suc n) (suc a) h =
    omega (arith, and_step (suc a) 0, and_zero_fuel n (suc a / 2) (omega arith))

and_parts : (k q r : ℕ) → r < 2 ^ k → bit_and (q * 2 ^ k + r) (2 ^ k - 1) ≡ r
and_parts zero q r h =
    let size : q * 2 ^ 0 + r ≡ q = omega arith in
    rw size (omega (arith, and_zero_fuel q q (le_refl q)))
and_parts (suc k) q r h =
    let double : q * 2 ^ suc k ≡ 2 * (q * 2 ^ k) =
      omega (arith, ap (λ (t : ℕ). q * t) (pow-suc 2 k)) in
    ground (
      arith,
      and_step (q * 2 ^ suc k + r) (2 ^ suc k - 1),
      double,
      pow-suc 2 k,
      and_parts k q (r / 2) (omega arith),
    )

pub and_mask : (k a : ℕ) → bit_and a (2 ^ k - 1) ≡ a % 2 ^ k
and_mask k a = ground (arith, one-le-pow k 2, and_parts k (a / 2 ^ k) (a % 2 ^ k))
