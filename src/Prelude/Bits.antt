-- ===== src/Prelude/Bits.antt =====
-- Masks and disjoint `|` at variables.
use Prim.Native.Nat.pow
use Prim.Native.Nat.{
  ℕ, zero, suc, ◌+◌, ◌*◌, ◌/◌, ◌%◌, ◌^◌, ◌≤◌, ◌<◌, min, max, bit_and, bit_or, digits,
  bit_and-bitwise, bit_or-bitwise,
}
use mathlib.Core.Path.{◌≡◌, refl, ap}
use native.Mathlib.Omega.{arith}

-- Both operations go through the binary digits; more fuel than the first number changes nothing.
module _ (empty : ℕ → ℕ) (digit : ℕ → ℕ → ℕ) where
  digits_enough :
      (x k l y : ℕ) → x ≤ k → x ≤ l → digits empty digit k x y ≡ digits empty digit l x y
  digits_enough (suc x) (suc k) (suc l) y small little =
      omega (arith, digits_enough (suc x / 2) k l (y / 2) (omega arith) (omega arith))
  digits_enough (suc x) zero l y small little = absurd (omega arith)
  digits_enough (suc x) (suc k) zero y small little = absurd (omega arith)
  digits_enough zero zero zero y small little = refl
  digits_enough zero zero (suc l) y small little = refl
  digits_enough zero (suc k) zero y small little = refl
  digits_enough zero (suc k) (suc l) y small little = refl

zero-bit_and : (b : ℕ) → bit_and 0 b ≡ 0
zero-bit_and b = bit_and-bitwise 0 b

zero-bit_or : (b : ℕ) → bit_or 0 b ≡ b
zero-bit_or b = bit_or-bitwise 0 b

bit_and_halves : (a b : ℕ) → bit_and a b ≡ bit_and (a / 2) (b / 2) * 2 + min (a % 2) (b % 2)
bit_and_halves zero b = omega (arith, zero-bit_and b, zero-bit_and (b / 2))
bit_and_halves (suc a) b = omega (
  arith,
  bit_and-bitwise (suc a) b,
  bit_and-bitwise (suc a / 2) (b / 2),
  digits_enough (λ b. zero) min (suc a / 2) a (suc a / 2) (b / 2) (omega arith) (omega arith),
)

bit_or_halves : (a b : ℕ) → bit_or a b ≡ bit_or (a / 2) (b / 2) * 2 + max (a % 2) (b % 2)
bit_or_halves zero b = omega (arith, zero-bit_or b, zero-bit_or (b / 2))
bit_or_halves (suc a) b = omega (
  arith,
  bit_or-bitwise (suc a) b,
  bit_or-bitwise (suc a / 2) (b / 2),
  digits_enough (λ b. b) max (suc a / 2) a (suc a / 2) (b / 2) (omega arith) (omega arith),
)

bit_and-zero_fuel : (n a : ℕ) → a ≤ n → bit_and a 0 ≡ 0
bit_and-zero_fuel n zero h = zero-bit_and 0
bit_and-zero_fuel zero (suc a) h = absurd (omega arith)
bit_and-zero_fuel (suc n) (suc a) h =
    omega (arith, bit_and_halves (suc a) 0, bit_and-zero_fuel n (suc a / 2) (omega arith))

bit_and-zero : (a : ℕ) → bit_and a 0 ≡ 0
bit_and-zero a = bit_and-zero_fuel a a (omega arith)

-- One more one in the mask keeps one more bit.
bit_and_longer_mask : (a m : ℕ) → bit_and a (m * 2 + 1) ≡ bit_and (a / 2) m * 2 + a % 2
bit_and_longer_mask a m =
    let half : (m * 2 + 1) / 2 ≡ m = omega arith in
    rw (bit_and_halves a (m * 2 + 1)) (rw half (omega arith))

bit_or-zero_fuel : (n a : ℕ) → a ≤ n → bit_or a 0 ≡ a
bit_or-zero_fuel n zero h = zero-bit_or 0
bit_or-zero_fuel zero (suc a) h = absurd (omega arith)
bit_or-zero_fuel (suc n) (suc a) h =
    omega (arith, bit_or_halves (suc a) 0, bit_or-zero_fuel n (suc a / 2) (omega arith))

bit_or-zero : (a : ℕ) → bit_or a 0 ≡ a
bit_or-zero a = bit_or-zero_fuel a a (omega arith)

-- `|` of a multiple of a power of two and a number below it is their sum.
pub bit_or_disjoint : (k x y : ℕ) → y < 2 ^ k → bit_or (x * 2 ^ k) y ≡ x * 2 ^ k + y
bit_or_disjoint zero x y h =
    let none : y ≡ 0 = omega arith in rw none (omega (arith, bit_or-zero (x * 2 ^ zero)))
bit_or_disjoint (suc k) x y h =
    let p : ℕ = x * 2 ^ k in
    let twice : x * 2 ^ suc k ≡ p * 2 = omega (arith, ap (λ (t : ℕ). x * t) (pow.suc 2 k)) in
    let half : (p * 2) / 2 ≡ p = omega arith in
    rw (twice, bit_or_halves (p * 2) y, half)
      (omega (arith, bit_or_disjoint k x (y / 2) (omega (arith, pow.suc 2 k))))

-- The masks of 7 and 14 ones.
bit_and_seven_ones : (a : ℕ) → bit_and a 127 ≡ a % 128
bit_and_seven_ones a = omega (
  arith,
  bit_and_longer_mask a 63,
  bit_and_longer_mask (a / 2) 31,
  bit_and_longer_mask (a / 2 / 2) 15,
  bit_and_longer_mask (a / 2 / 2 / 2) 7,
  bit_and_longer_mask (a / 2 / 2 / 2 / 2) 3,
  bit_and_longer_mask (a / 2 / 2 / 2 / 2 / 2) 1,
  bit_and_longer_mask (a / 2 / 2 / 2 / 2 / 2 / 2) 0,
  bit_and-zero (a / 2 / 2 / 2 / 2 / 2 / 2 / 2),
)

-- The mask of 14 ones, in two steps of seven.
pub bit_and_fourteen_ones : (a : ℕ) → bit_and a 0x3fff ≡ a % 0x4000
bit_and_fourteen_ones a = omega (
  arith,
  bit_and_longer_mask a 8191,
  bit_and_longer_mask (a / 2) 4095,
  bit_and_longer_mask (a / 2 / 2) 2047,
  bit_and_longer_mask (a / 2 / 2 / 2) 1023,
  bit_and_longer_mask (a / 2 / 2 / 2 / 2) 511,
  bit_and_longer_mask (a / 2 / 2 / 2 / 2 / 2) 255,
  bit_and_longer_mask (a / 2 / 2 / 2 / 2 / 2 / 2) 127,
  bit_and_seven_ones (a / 2 / 2 / 2 / 2 / 2 / 2 / 2),
)
