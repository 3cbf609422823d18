-- ===== src/Prelude/Bits.antt =====
-- Laws of `bit_and` and `bit_or` at variables, by the recursion on the binary digits.
use Prim.Native.Nat.{
  ℕ, zero, suc, ◌+◌, ◌*◌, ◌/◌, ◌%◌, ◌≤◌, min, max, bit_and, bit_or, digits, bit_and-bitwise,
  bit_or-bitwise,
}
use mathlib.Core.Path.{◌≡◌, refl}
use native.Mathlib.Omega.{arith}

digits_fuel :
    (z : ℕ → ℕ) (f : ℕ → ℕ → ℕ) (n m a b : ℕ) → a ≤ n → a ≤ m → digits z f n a b ≡ digits z f m a b
digits_fuel z f zero zero a b p q = refl
digits_fuel z f zero (suc m) zero b p q = refl
digits_fuel z f zero (suc m) (suc a) b p q = absurd (omega arith)
digits_fuel z f (suc n) zero zero b p q = refl
digits_fuel z f (suc n) zero (suc a) b p q = absurd (omega arith)
digits_fuel z f (suc n) (suc m) zero b p q = refl
digits_fuel z f (suc n) (suc m) (suc a) b p q =
    omega (arith, digits_fuel z f n m (suc a / 2) (b / 2) (omega arith) (omega arith))

pub bit_and_step : (a b : ℕ) → bit_and a b ≡ bit_and (a / 2) (b / 2) * 2 + min (a % 2) (b % 2)
bit_and_step zero b = omega (arith, bit_and-bitwise 0 b, bit_and-bitwise 0 (b / 2))
bit_and_step (suc a) b = omega (
  arith,
  bit_and-bitwise (suc a) b,
  bit_and-bitwise (suc a / 2) (b / 2),
  digits_fuel (λ _. 0) min a (suc a / 2) (suc a / 2) (b / 2) (omega arith) (omega arith),
)

bit_or_step : (a b : ℕ) → bit_or a b ≡ bit_or (a / 2) (b / 2) * 2 + max (a % 2) (b % 2)
bit_or_step zero b = omega (arith, bit_or-bitwise 0 b, bit_or-bitwise 0 (b / 2))
bit_or_step (suc a) b = omega (
  arith,
  bit_or-bitwise (suc a) b,
  bit_or-bitwise (suc a / 2) (b / 2),
  digits_fuel (λ c. c) max a (suc a / 2) (suc a / 2) (b / 2) (omega arith) (omega arith),
)

bit_and-or_fuel : (n a b m : ℕ) → a ≤ n → bit_and a m ≤ bit_and (bit_or a b) m
bit_and-or_fuel n zero b m h = omega (arith, bit_and-bitwise 0 m)
bit_and-or_fuel zero (suc a) b m h = absurd (omega arith)
bit_and-or_fuel (suc n) (suc a) b m h = omega (
  arith,
  bit_and_step (suc a) m,
  bit_or_step (suc a) b,
  bit_and_step (bit_or (suc a) b) m,
  halves,
  bit_and-or_fuel n (suc a / 2) (b / 2) (m / 2) (omega arith),
)
  where
    half : bit_or (suc a) b / 2 ≡ bit_or (suc a / 2) (b / 2)
    half = omega (arith, bit_or_step (suc a) b)

    halves : bit_and (bit_or (suc a) b / 2) (m / 2) ≡ bit_and (bit_or (suc a / 2) (b / 2)) (m / 2)
    halves = rw half

-- Setting more bits loses none.
pub bit_and-or_left : (a b m : ℕ) → bit_and a m ≤ bit_and (bit_or a b) m
bit_and-or_left a b m = bit_and-or_fuel a a b m (omega arith)

bit_and-or_right_fuel : (n a m : ℕ) → m ≤ n → m ≤ bit_and (bit_or a m) m
bit_and-or_right_fuel n a zero h = omega arith
bit_and-or_right_fuel zero a (suc m) h = absurd (omega arith)
bit_and-or_right_fuel (suc n) a (suc m) h = omega (
  arith,
  bit_or_step a (suc m),
  bit_and_step (bit_or a (suc m)) (suc m),
  halves,
  bit_and-or_right_fuel n (a / 2) (suc m / 2) (omega arith),
)
  where
    half : bit_or a (suc m) / 2 ≡ bit_or (a / 2) (suc m / 2)
    half = omega (arith, bit_or_step a (suc m))

    halves :
        bit_and (bit_or a (suc m) / 2) (suc m / 2)
        ≡ bit_and (bit_or (a / 2) (suc m / 2)) (suc m / 2)
    halves = rw half

-- The bits that were set are there.
pub bit_and-or_right : (a m : ℕ) → m ≤ bit_and (bit_or a m) m
bit_and-or_right a m = bit_and-or_right_fuel m a m (omega arith)
