-- ===== src/Common/Bits/Bounds.antt =====
-- `&`, `|` and `^` stay within a width.
use workbench.Common.Bits.Step.{bit_and_step, bit_or_step, bit_xor_step}
use Prim.Native.Nat.{ℕ, zero, suc, ◌/◌, ◌^◌, ◌≤◌, ◌<◌, bit_and, bit_or, bit_xor, bit_and-bitwise}
use mathlib.Core.Path.{◌≡◌}
use native.Mathlib.Nat.{pow-suc}
use native.Mathlib.Omega.{arith}

zero-bit_and : (b : ℕ) → bit_and 0 b ≡ 0
zero-bit_and b = bit_and-bitwise 0 b

-- The operations stay within a width.
pub bit_and-le : (a b : ℕ) → bit_and a b ≤ a
bit_and-le a b = bound a a b (omega arith)
  where
    bound : (n c d : ℕ) → c ≤ n → bit_and c d ≤ c
    bound n zero d h = omega (arith, zero-bit_and d)
    bound zero (suc c) d h = absurd (omega arith)
    bound (suc n) (suc c) d h =
        omega (arith, bit_and_step (suc c) d, bound n (suc c / 2) (d / 2) (omega arith))

pub bit_and-le_mask : (a b : ℕ) → bit_and a b ≤ b
bit_and-le_mask a b = bound a a b (omega arith)
  where
    bound : (n c d : ℕ) → c ≤ n → bit_and c d ≤ d
    bound n zero d h = omega (arith, zero-bit_and d)
    bound zero (suc c) d h = absurd (omega arith)
    bound (suc n) (suc c) d h =
        omega (arith, bit_and_step (suc c) d, bound n (suc c / 2) (d / 2) (omega arith))

pub bit_or-lt : (k a b : ℕ) → a < 2 ^ k → b < 2 ^ k → bit_or a b < 2 ^ k
bit_or-lt zero zero zero p q = omega arith
bit_or-lt zero zero (suc b) p q = absurd (omega arith)
bit_or-lt zero (suc a) b p q = absurd (omega arith)
bit_or-lt (suc k) a b p q = omega (
  arith,
  pow-suc 2 k,
  bit_or_step a b,
  bit_or-lt k (a / 2) (b / 2) (omega (arith, pow-suc 2 k)) (omega (arith, pow-suc 2 k)),
)

pub bit_xor-lt : (k a b : ℕ) → a < 2 ^ k → b < 2 ^ k → bit_xor a b < 2 ^ k
bit_xor-lt zero zero zero p q = omega arith
bit_xor-lt zero zero (suc b) p q = absurd (omega arith)
bit_xor-lt zero (suc a) b p q = absurd (omega arith)
bit_xor-lt (suc k) a b p q = omega (
  arith,
  pow-suc 2 k,
  bit_xor_step a b,
  bit_xor-lt k (a / 2) (b / 2) (omega (arith, pow-suc 2 k)) (omega (arith, pow-suc 2 k)),
)
