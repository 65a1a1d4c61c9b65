-- ===== src/Bytes/Xor.antt =====
-- The exclusive or at every width, from the recursion on binary digits.
use Prim.Native.Nat.{digits, differ, bit_xor-bitwise}
use native.Mathlib.Nat.{le_refl}
use cik.Prelude.{ℕ, zero, suc, ◌+◌, ◌*◌, ◌/◌, ◌%◌, ◌≤◌, ◌<◌, bit_xor, ◌≡◌, refl, arith}

-- More fuel than the first number needs changes nothing.
pub digits_fuel :
    (z : ℕ → ℕ) (f : ℕ → ℕ → ℕ) (n m a b : ℕ) → a ≤ n → a ≤ m → digits z f n a b ≡ digits z f m a b
digits_fuel z f zero zero a b p q = refl
digits_fuel z f zero (suc m) zero b p q = refl
digits_fuel z f zero (suc m) (suc a) b p q = absurd (omega arith)
digits_fuel z f (suc n) zero zero b p q = refl
digits_fuel z f (suc n) zero (suc a) b p q = absurd (omega arith)
digits_fuel z f (suc n) (suc m) zero b p q = refl
digits_fuel z f (suc n) (suc m) (suc a) b p q =
    rw (digits_fuel z f n m (suc a / 2) (b / 2) (omega arith) (omega arith))

zero-xor : (b : ℕ) → bit_xor 0 b ≡ b
zero-xor b = bit_xor-bitwise 0 b

differ-digits : (a b : ℕ) → a < 2 → b < 2 → differ a b ≡ (a + b) % 2
differ-digits zero zero h k = refl
differ-digits zero (suc zero) h k = refl
differ-digits zero (suc (suc b)) h k = absurd (omega arith)
differ-digits (suc zero) zero h k = refl
differ-digits (suc zero) (suc zero) h k = refl
differ-digits (suc zero) (suc (suc b)) h k = absurd (omega arith)
differ-digits (suc (suc a)) b h k = absurd (omega arith)

bit_xor_step : (a b : ℕ) → bit_xor a b ≡ bit_xor (a / 2) (b / 2) * 2 + (a % 2 + b % 2) % 2
bit_xor_step zero b = omega (arith, zero-xor b, zero-xor (b / 2))
bit_xor_step (suc a) b = omega (
  arith,
  bit_xor-bitwise (suc a) b,
  bit_xor-bitwise (suc a / 2) (b / 2),
  digits_fuel (λ y. y) differ a (suc a / 2) (suc a / 2) (b / 2) (omega arith) (le_refl _),
  differ-digits (suc a % 2) (b % 2) (omega arith) (omega arith),
)

div-xor : (a b : ℕ) → bit_xor a b / 2 ≡ bit_xor (a / 2) (b / 2)
div-xor a b = omega (arith, bit_xor_step a b)

mod-xor : (a b : ℕ) → bit_xor a b % 2 ≡ (a % 2 + b % 2) % 2
mod-xor a b = omega (arith, bit_xor_step a b)

xor_self_fuel :
    (n a b : ℕ) → a + b ≤ n → (bit_xor b (bit_xor a b) ≡ a) × (bit_xor (bit_xor a b) a ≡ b)
xor_self_fuel zero zero zero h = (refl, refl)
xor_self_fuel zero zero (suc b) h = absurd (omega arith)
xor_self_fuel zero (suc a) b h = absurd (omega arith)
xor_self_fuel (suc n) a b h =
    let (left, right) = xor_self_fuel n (a / 2) (b / 2) (omega arith) in
    (
      rw (bit_xor_step b (bit_xor a b), div-xor a b, left) (omega (arith, mod-xor a b)),
      rw (bit_xor_step (bit_xor a b) a, div-xor a b, right) (omega (arith, mod-xor a b)),
    )

pub xor_cancel_right : (a b : ℕ) → bit_xor b (bit_xor a b) ≡ a
xor_cancel_right a b = (xor_self_fuel (a + b) a b (omega arith)).0

pub xor_cancel_left : (a b : ℕ) → bit_xor (bit_xor a b) a ≡ b
xor_cancel_left a b = (xor_self_fuel (a + b) a b (omega arith)).1
