-- ===== src/Bits/Step.antt =====
-- One binary digit of `bit_and` and `bit_or`, from the recursion that the native operations
-- stand for.
use Prim.Native.Nat.{
  ℕ, zero, suc, ◌+◌, ◌*◌, ◌/◌, ◌%◌, ◌≤◌, min, max, bit_and, bit_or, digits, bit_and-bitwise,
  bit_or-bitwise,
}
use mathlib.Core.Path.{◌≡◌, refl}
use native.Mathlib.Omega.{arith}

module _ (left : ℕ → ℕ) (digit : ℕ → ℕ → ℕ) where
  digits_fuel : (k l x y : ℕ) → x ≤ k → x ≤ l → digits left digit k x y ≡ digits left digit l x y
  digits_fuel zero zero x y hk hl = refl
  digits_fuel zero (suc l) zero y hk hl = refl
  digits_fuel zero (suc l) (suc x) y hk hl = absurd (omega arith)
  digits_fuel (suc k) zero zero y hk hl = refl
  digits_fuel (suc k) zero (suc x) y hk hl = absurd (omega arith)
  digits_fuel (suc k) (suc l) zero y hk hl = refl
  digits_fuel (suc k) (suc l) (suc x) y hk hl =
      omega (arith, digits_fuel k l (suc x / 2) (y / 2) (omega arith) (omega arith))

zero-bit_and : (y : ℕ) → bit_and 0 y ≡ 0
zero-bit_and y = bit_and-bitwise 0 y

pub zero-bit_or : (y : ℕ) → bit_or 0 y ≡ y
zero-bit_or y = bit_or-bitwise 0 y

pub bit_and_step : (x y : ℕ) → bit_and x y ≡ bit_and (x / 2) (y / 2) * 2 + min (x % 2) (y % 2)
bit_and_step zero y = omega (arith, zero-bit_and y, zero-bit_and (y / 2))
bit_and_step (suc x) y = omega (
  arith,
  bit_and-bitwise (suc x) y,
  bit_and-bitwise (suc x / 2) (y / 2),
  digits_fuel (λ y. zero) min x (suc x / 2) (suc x / 2) (y / 2) (omega arith) (omega arith),
)

pub bit_or_step : (x y : ℕ) → bit_or x y ≡ bit_or (x / 2) (y / 2) * 2 + max (x % 2) (y % 2)
bit_or_step zero y = omega (arith, zero-bit_or y, zero-bit_or (y / 2))
bit_or_step (suc x) y = omega (
  arith,
  bit_or-bitwise (suc x) y,
  bit_or-bitwise (suc x / 2) (y / 2),
  digits_fuel (λ y. y) max x (suc x / 2) (suc x / 2) (y / 2) (omega arith) (omega arith),
)
