-- ===== src/Prelude/Bits.antt =====
-- Laws of `bit_and`, `bit_or` and `bit_xor` at every width, from the digit recursion that the
-- native operations stand for.
use Prim.Native.Nat.{
  ℕ, zero, suc, ◌+◌, ◌-◌, ◌*◌, ◌/◌, ◌%◌, ◌^◌, ◌≤◌, ◌<◌, min, max, bit_and, bit_or, bit_xor, digits,
  bitwise, differ, bit_and-bitwise, bit_or-bitwise, bit_xor-bitwise,
}
use mathlib.Core.Path.{◌≡◌, refl, ap}
use native.Mathlib.Nat.{pow-suc, one-le-pow}
use native.Mathlib.Omega.{arith}

-- The recursion of the native operations, which starts with the first number as its count of digits.
module _ (z : ℕ → ℕ) (f : ℕ → ℕ → ℕ) where
  digits_settled :
      (bound count a b : ℕ) → count ≤ bound → a ≤ count → digits z f count a b ≡ bitwise z f a b
  digits_settled bound zero zero b h k = refl
  digits_settled bound (suc count) zero b h k = refl
  digits_settled bound zero (suc a) b h k = absurd (omega arith)
  digits_settled zero (suc count) (suc a) b h k = absurd (omega arith)
  digits_settled (suc bound) (suc count) (suc a) b h k = omega (
    arith,
    digits_settled bound count (suc a / 2) (b / 2) (omega arith) (omega arith),
    digits_settled bound a (suc a / 2) (b / 2) (omega arith) (omega arith),
  )

  -- An operation that is such a recursion goes one digit at a time.
  module _ (op : ℕ → ℕ → ℕ) (meaning : (a b : ℕ) → op a b ≡ bitwise z f a b)
      (exhausted : (b : ℕ) → z b ≡ z (b / 2) * 2 + f 0 (b % 2)) where
    by_digit : (a b : ℕ) → op a b ≡ op (a / 2) (b / 2) * 2 + f (a % 2) (b % 2)
    by_digit zero b = omega (arith, meaning 0 b, meaning 0 (b / 2), exhausted b)
    by_digit (suc a) b = omega (
      arith,
      digits_settled a a (suc a / 2) (b / 2) (omega arith) (omega arith),
      meaning (suc a) b,
      meaning (suc a / 2) (b / 2),
    )

differ-digit : (b : ℕ) → b < 2 → differ 0 b ≡ b
differ-digit zero h = refl
differ-digit (suc zero) h = refl
differ-digit (suc (suc b)) h = absurd (omega arith)

pub bit_xor_step : (a b : ℕ) → bit_xor a b ≡ bit_xor (a / 2) (b / 2) * 2 + differ (a % 2) (b % 2)
bit_xor_step =
    by_digit (λ b. b) differ bit_xor bit_xor-bitwise
      (λ b. omega (arith, differ-digit (b % 2) (omega arith)))

pub bit_and_step : (a b : ℕ) → bit_and a b ≡ bit_and (a / 2) (b / 2) * 2 + min (a % 2) (b % 2)
bit_and_step = by_digit (λ b. 0) min bit_and bit_and-bitwise (λ b. omega arith)

pub bit_or_step : (a b : ℕ) → bit_or a b ≡ bit_or (a / 2) (b / 2) * 2 + max (a % 2) (b % 2)
bit_or_step = by_digit (λ b. b) max bit_or bit_or-bitwise (λ b. omega arith)

differ_bits : (x y : ℕ) → x < 2 → y < 2 → (differ (differ x y) y ≡ x) × (differ x y < 2)
differ_bits zero zero h k = (refl, omega arith)
differ_bits zero (suc zero) h k = (refl, omega arith)
differ_bits zero (suc (suc y)) h k = absurd (omega arith)
differ_bits (suc zero) zero h k = (refl, omega arith)
differ_bits (suc zero) (suc zero) h k = (refl, omega arith)
differ_bits (suc zero) (suc (suc y)) h k = absurd (omega arith)
differ_bits (suc (suc x)) y h k = absurd (omega arith)

bit_xor_cancel_fuel : (n a b : ℕ) → a + b ≤ n → bit_xor (bit_xor a b) b ≡ a
bit_xor_cancel_fuel zero zero zero h = refl
bit_xor_cancel_fuel zero zero (suc b) h = absurd (omega arith)
bit_xor_cancel_fuel zero (suc a) b h = absurd (omega arith)
bit_xor_cancel_fuel (suc n) zero zero h = refl
bit_xor_cancel_fuel (suc n) a b h = ground (
  arith,
  bit_xor_step a b,
  bit_xor_step (bit_xor a b) b,
  differ_bits (a % 2) (b % 2) (omega arith) (omega arith),
  bit_xor_cancel_fuel n (a / 2) (b / 2) (omega arith),
)

-- A keystream byte applied twice gives the byte back.
pub bit_xor_cancel : (a b : ℕ) → bit_xor (bit_xor a b) b ≡ a
bit_xor_cancel a b = bit_xor_cancel_fuel (a + b) a b (omega arith)

-- Operands of k bits have an exclusive or of k bits.
pub bit_xor-lt : (k a b : ℕ) → a < 2 ^ k → b < 2 ^ k → bit_xor a b < 2 ^ k
bit_xor-lt zero zero zero h g = omega arith
bit_xor-lt zero zero (suc b) h g = absurd (omega arith)
bit_xor-lt zero (suc a) b h g = absurd (omega arith)
bit_xor-lt (suc k) a b h g = omega (
  arith,
  pow-suc 2 k,
  bit_xor_step a b,
  (differ_bits (a % 2) (b % 2) (omega arith) (omega arith)).1,
  bit_xor-lt k (a / 2) (b / 2) (omega (arith, pow-suc 2 k)) (omega (arith, pow-suc 2 k)),
)

pub bit_or-zero : (n a : ℕ) → a ≤ n → bit_or a 0 ≡ a
bit_or-zero n zero h = refl
bit_or-zero zero (suc a) h = absurd (omega arith)
bit_or-zero (suc n) (suc a) h =
    omega (arith, bit_or_step (suc a) 0, bit_or-zero n (suc a / 2) (omega arith))

-- `r | (q << k)` is a sum where `r` fits k bits.
pub bit_or_shifted : (k r q : ℕ) → r < 2 ^ k → bit_or r (q * 2 ^ k) ≡ r + q * 2 ^ k
bit_or_shifted zero zero q h = ground (arith, bit_or-bitwise 0 (q * 1))
bit_or_shifted zero (suc r) q h = absurd (omega arith)
bit_or_shifted (suc k) r q h = ground (
  arith,
  ap (λ (t : ℕ). q * t) (pow-suc 2 k),
  pow-suc 2 k,
  bit_or_step r (q * 2 ^ suc k),
  bit_or_shifted k (r / 2) q (omega (arith, pow-suc 2 k)),
)

pub bit_or_field : (k q r : ℕ) → r < 2 ^ k → bit_or (q * 2 ^ k) r ≡ q * 2 ^ k + r
bit_or_field zero q zero h = ground (arith, bit_or-zero (q * 1) (q * 1))
bit_or_field zero q (suc r) h = absurd (omega arith)
bit_or_field (suc k) q r h = ground (
  arith,
  ap (λ (t : ℕ). q * t) (pow-suc 2 k),
  pow-suc 2 k,
  bit_or_step (q * 2 ^ suc k) r,
  bit_or_field k q (r / 2) (omega (arith, pow-suc 2 k)),
)

bit_and-zero : (n a : ℕ) → a ≤ n → bit_and a 0 ≡ 0
bit_and-zero n zero h = refl
bit_and-zero zero (suc a) h = absurd (omega arith)
bit_and-zero (suc n) (suc a) h =
    omega (arith, bit_and_step (suc a) 0, bit_and-zero n (suc a / 2) (omega arith))

bit_and_low : (k q r : ℕ) → r < 2 ^ k → bit_and (q * 2 ^ k + r) (2 ^ k - 1) ≡ r
bit_and_low zero q r h = omega (arith, bit_and-zero (q * 1 + r) (q * 1 + r) (omega arith))
bit_and_low (suc k) q r h = ground (
  arith,
  ap (λ (t : ℕ). q * t) (pow-suc 2 k),
  pow-suc 2 k,
  bit_and_step (q * 2 ^ suc k + r) (2 ^ suc k - 1),
  bit_and_low k q (r / 2) (omega (arith, pow-suc 2 k)),
)

-- A mask of k ones is the remainder by 2 ^ k.
pub bit_and_mask : (k a : ℕ) → bit_and a (2 ^ k - 1) ≡ a % 2 ^ k
bit_and_mask k a = ground (arith, one-le-pow k 2, bit_and_low k (a / 2 ^ k) (a % 2 ^ k))

bit_and_one : (q : ℕ) → bit_and q 1 ≡ q % 2
bit_and_one q = omega (arith, bit_and_step q 1, bit_and-zero (q / 2) (q / 2) (omega arith))

-- `a & (1 << k)` is the digit at place k.
pub bit_and_place : (k q r : ℕ) → r < 2 ^ k → bit_and (r + q * 2 ^ k) (2 ^ k) ≡ q % 2 * 2 ^ k
bit_and_place zero q zero h = ground (arith, bit_and_one (0 + q * 1))
bit_and_place zero q (suc r) h = absurd (omega arith)
bit_and_place (suc k) q r h = ground (
  arith,
  ap (λ (t : ℕ). q * t) (pow-suc 2 k),
  ap (λ (t : ℕ). q % 2 * t) (pow-suc 2 k),
  pow-suc 2 k,
  bit_and_step (r + q * 2 ^ suc k) (2 ^ suc k),
  bit_and_place k q (r / 2) (omega (arith, pow-suc 2 k)),
)

differ_zero : (x : ℕ) → differ x 0 ≡ x
differ_zero zero = refl
differ_zero (suc x) = refl

bit_xor-zero_fuel : (n a : ℕ) → a ≤ n → bit_xor a 0 ≡ a
bit_xor-zero_fuel n zero h = refl
bit_xor-zero_fuel zero (suc a) h = absurd (omega arith)
bit_xor-zero_fuel (suc n) (suc a) h = ground (
  arith,
  bit_xor_step (suc a) 0,
  bit_xor-zero_fuel n (suc a / 2) (omega arith),
  differ_zero (suc a % 2),
)

pub bit_xor-zero : (a : ℕ) → bit_xor a 0 ≡ a
bit_xor-zero a = bit_xor-zero_fuel a a (omega arith)
