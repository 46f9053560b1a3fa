-- ===== src/Common/Bits/Step.antt =====
-- The native `&`, `|` and `^` by their lowest binary digit and the digits above it.
use Prim.Native.Nat.{
  ℕ, zero, suc, ◌+◌, ◌*◌, ◌/◌, ◌%◌, ◌≤◌, ◌<◌, min, max, bit_and, bit_or, bit_xor, digits, bitwise,
  bit_and-bitwise, bit_or-bitwise, bit_xor-bitwise, differ,
}
use mathlib.Core.Path.{◌≡◌, refl, ap, ◌∙◌}
use native.Mathlib.Omega.{arith}

module _ (z : ℕ → ℕ) (f : ℕ → ℕ → ℕ) where
  fuel_is_enough : (a n m b : ℕ) → a ≤ n → a ≤ m → digits z f n a b ≡ digits z f m a b
  fuel_is_enough zero zero zero b le1 le2 = refl
  fuel_is_enough zero zero (suc m) b le1 le2 = refl
  fuel_is_enough zero (suc n) zero b le1 le2 = refl
  fuel_is_enough zero (suc n) (suc m) b le1 le2 = refl
  fuel_is_enough (suc a) zero m b le1 le2 = absurd (omega arith)
  fuel_is_enough (suc a) (suc n) zero b le1 le2 = absurd (omega arith)
  fuel_is_enough (suc a) (suc n) (suc m) b le1 le2 =
      ap (λ (t : ℕ). t * 2 + f (suc a % 2) (b % 2))
        (fuel_is_enough (suc a / 2) n m (b / 2) (omega arith) (omega arith))

  -- The lowest digit and the digits above it.
  low_digit :
      (a b : ℕ)
      → bitwise z f (suc a) b ≡ f (suc a % 2) (b % 2) + 2 * bitwise z f (suc a / 2) (b / 2)
  low_digit a b =
      let half = suc a / 2 in
      omega (arith, fuel_is_enough half a half (b / 2) (omega arith) (omega arith))

pub bit_and_step : (a b : ℕ) → bit_and a b ≡ min (a % 2) (b % 2) + 2 * bit_and (a / 2) (b / 2)
bit_and_step zero b = simp bit_and-bitwise (omega arith)
bit_and_step (suc a) b = simp bit_and-bitwise (low_digit (λ y. 0) min a b)

pub bit_or_step : (a b : ℕ) → bit_or a b ≡ max (a % 2) (b % 2) + 2 * bit_or (a / 2) (b / 2)
bit_or_step zero b = simp bit_or-bitwise (omega arith)
bit_or_step (suc a) b = simp bit_or-bitwise (low_digit (λ y. y) max a b)

-- Exclusive or adds the digits without a carry.
differ_of_digits : (x y : ℕ) → x < 2 → y < 2 → differ x y ≡ (x + y) % 2
differ_of_digits zero y p q = omega arith
differ_of_digits (suc zero) zero p q = refl
differ_of_digits (suc zero) (suc zero) p q = refl
differ_of_digits (suc zero) (suc (suc y)) p q = absurd (omega arith)
differ_of_digits (suc (suc x)) y p q = absurd (omega arith)

-- Exclusive or adds the digits without a carry.
pub bit_xor_step : (a b : ℕ) → bit_xor a b ≡ (a % 2 + b % 2) % 2 + 2 * bit_xor (a / 2) (b / 2)
bit_xor_step zero b = simp bit_xor-bitwise (omega arith)
bit_xor_step (suc a) b =
    simp bit_xor-bitwise (low_digit (λ y. y) differ a b)
    ∙ ap (λ (t : ℕ). t + 2 * bit_xor (suc a / 2) (b / 2))
        (differ_of_digits (suc a % 2) (b % 2) (omega arith) (omega arith))
