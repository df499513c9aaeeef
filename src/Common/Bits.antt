-- ===== src/Common/Bits.antt =====
-- Exclusive or with a word of ones, as arithmetic.
use Prim.Native.Nat.{
  ℕ, zero, suc, ◌+◌, ◌*◌, ◌/◌, ◌%◌, ◌^◌, ◌≤◌, ◌<◌, bit_xor, digits, differ, bit_xor-bitwise,
}
use mathlib.Core.Path.{◌≡◌, refl}
use native.Mathlib.Omega.{arith}

abbrev xor_digits : ℕ → ℕ → ℕ → ℕ
xor_digits n a b = digits (λ y. y) differ n a b

-- Fuel beyond the first operand does not matter.
xor_digits_fuel : (n m a b : ℕ) → a ≤ n → a ≤ m → xor_digits n a b ≡ xor_digits m a b
xor_digits_fuel zero zero a b p q = refl
xor_digits_fuel zero (suc m) zero b p q = refl
xor_digits_fuel zero (suc m) (suc a) b p q = absurd (omega arith)
xor_digits_fuel (suc n) zero zero b p q = refl
xor_digits_fuel (suc n) zero (suc a) b p q = absurd (omega arith)
xor_digits_fuel (suc n) (suc m) zero b p q = refl
xor_digits_fuel (suc n) (suc m) (suc a) b p q =
    omega (arith, xor_digits_fuel n m (suc a / 2) (b / 2) (omega arith) (omega arith))

zero-bit_xor : (b : ℕ) → bit_xor 0 b ≡ b
zero-bit_xor b = bit_xor-bitwise 0 b

differ_bits : (d e : ℕ) → d < 2 → e ≡ 1 → differ d e + d ≡ 1
differ_bits zero e h q = rw q refl
differ_bits (suc zero) e h q = rw q refl
differ_bits (suc (suc d)) e h q = absurd (omega arith)

-- The lowest digit.
bit_xor_step : (a b : ℕ) → b % 2 ≡ 1 → bit_xor a b + a % 2 ≡ bit_xor (a / 2) (b / 2) * 2 + 1
bit_xor_step zero b h = omega (arith, zero-bit_xor b, zero-bit_xor (b / 2))
bit_xor_step (suc a) b h = omega (
  arith,
  bit_xor-bitwise (suc a) b,
  bit_xor-bitwise (suc a / 2) (b / 2),
  xor_digits_fuel a (suc a / 2) (suc a / 2) (b / 2) (omega arith) (omega arith),
  differ_bits (suc a % 2) (b % 2) (omega arith) h,
)

-- A word of `k` ones, by its digits.
abbrev ones : ℕ → ℕ
ones zero = 0
ones (suc k) = 2 * ones k + 1

bit_xor-ones : (k a : ℕ) → a ≤ ones k → bit_xor a (ones k) + a ≡ ones k
bit_xor-ones zero zero h = refl
bit_xor-ones zero (suc a) h = absurd (omega arith)
bit_xor-ones (suc k) a h =
    let b = 2 * ones k + 1 in
    let half : b / 2 ≡ ones k = omega arith in
    let ih : bit_xor (a / 2) (b / 2) + a / 2 ≡ ones k =
      rw half (bit_xor-ones k (a / 2) (omega arith)) in
    omega (arith, bit_xor_step a b (omega arith), ih)

-- `^ 0xffffffff` is the complement of a 32-bit word.
pub bit_xor_word : (a : ℕ) → a < 2 ^ 32 → bit_xor a 0xffffffff + a ≡ 0xffffffff
bit_xor_word a h = bit_xor-ones 32 a (omega arith)
