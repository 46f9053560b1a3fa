-- ===== src/Common/Bits/Masks.antt =====
-- `&` and `^` with the masks that the program uses, as arithmetic.
use workbench.Common.Bits.Step.{bit_and_step, bit_xor_step}
use workbench.Common.Bits.Digits.{digit, digit-suc}
use Prim.Native.Nat.{ℕ, zero, suc, ◌+◌, ◌-◌, ◌*◌, ◌/◌, ◌%◌, ◌^◌, ◌≤◌, ◌<◌, bit_and, bit_xor}
use mathlib.Core.Path.{◌≡◌, refl}
use native.Mathlib.Nat.{pow-succ'}
use native.Mathlib.Omega.{arith}

bit_and-zero : (a : ℕ) → bit_and a 0 ≡ 0
bit_and-zero a = at_fuel a a (omega arith)
  where
    at_fuel : (n c : ℕ) → c ≤ n → bit_and c 0 ≡ 0
    at_fuel n zero h = refl
    at_fuel zero (suc c) h = absurd (omega arith)
    at_fuel (suc n) (suc c) h =
        omega (arith, bit_and_step (suc c) 0, at_fuel n (suc c / 2) (omega arith))

bit_and-even : (a m : ℕ) → bit_and a (2 * m) ≡ bit_and (a / 2) m * 2
bit_and-even a m = ground (arith, bit_and_step a (2 * m))

bit_and-odd : (a m : ℕ) → bit_and a (2 * m + 1) ≡ bit_and (a / 2) m * 2 + a % 2
bit_and-odd a m = ground (arith, bit_and_step a (2 * m + 1))

pub bit_and_1 : (a : ℕ) → bit_and a 0x01 ≡ a % 2
bit_and_1 a = omega (arith, bit_and-odd a 0, bit_and-zero (a / 2))

pub bit_and_3 : (a : ℕ) → bit_and a 0x03 ≡ a % 4
bit_and_3 a = omega (arith, bit_and-odd a 1, bit_and_1 (a / 2))

pub bit_and_7 : (a : ℕ) → bit_and a 0x07 ≡ a % 8
bit_and_7 a = omega (arith, bit_and-odd a 3, bit_and_3 (a / 2))

-- `&` with a mask of low bits is a remainder.
pub bit_and_0f : (a : ℕ) → bit_and a 0x0f ≡ a % 16
bit_and_0f a = omega (arith, bit_and-odd a 7, bit_and_7 (a / 2))

pub bit_and_1f : (a : ℕ) → bit_and a 0x1f ≡ a % 32
bit_and_1f a = omega (arith, bit_and-odd a 0x0f, bit_and_0f (a / 2))

pub bit_and_3f : (a : ℕ) → bit_and a 0x3f ≡ a % 64
bit_and_3f a = omega (arith, bit_and-odd a 0x1f, bit_and-odd (a / 2) 0x0f, bit_and_0f (a / 2 / 2))

pub bit_and_7f : (a : ℕ) → bit_and a 0x7f ≡ a % 128
bit_and_7f a = omega (arith, bit_and-odd a 0x3f, bit_and_3f (a / 2))

pub bit_and_ff : (a : ℕ) → bit_and a 0xff ≡ a % 256
bit_and_ff a = omega (arith, bit_and-odd a 0x7f, bit_and-odd (a / 2) 0x3f, bit_and_3f (a / 2 / 2))

pub bit_and_3fff : (a : ℕ) → bit_and a 0x3fff ≡ a % 16384
bit_and_3fff a = omega (
  arith,
  bit_and-odd a 0x1fff,
  bit_and-odd (a / 2) 0x0fff,
  bit_and-odd (a / 2 / 2) 0x07ff,
  bit_and-odd (a / 2 / 2 / 2) 0x03ff,
  bit_and-odd (a / 2 / 2 / 2 / 2) 0x01ff,
  bit_and-odd (a / 2 / 2 / 2 / 2 / 2) 0xff,
  bit_and_ff (a / 2 / 2 / 2 / 2 / 2 / 2),
)

bit_and_ff0 : (a : ℕ) → bit_and a 0xff0 ≡ a / 16 % 256 * 16
bit_and_ff0 a = omega (
  arith,
  bit_and-even a 0x7f8,
  bit_and-even (a / 2) 0x3fc,
  bit_and-even (a / 2 / 2) 0x1fe,
  bit_and-even (a / 2 / 2 / 2) 0xff,
  bit_and_ff (a / 2 / 2 / 2 / 2),
)

-- The high byte of a 16-bit word.
pub bit_and_ff00 : (a : ℕ) → bit_and a 0xff00 ≡ a / 256 % 256 * 256
bit_and_ff00 a = omega (
  arith,
  bit_and-even a 0x7f80,
  bit_and-even (a / 2) 0x3fc0,
  bit_and-even (a / 2 / 2) 0x1fe0,
  bit_and-even (a / 2 / 2 / 2) 0xff0,
  bit_and_ff0 (a / 2 / 2 / 2 / 2),
)

-- Bits 6 and 7 of a byte.
pub bit_and_c0 : (a : ℕ) → bit_and a 0xc0 ≡ a / 64 % 4 * 64
bit_and_c0 a = omega (
  arith,
  bit_and-even a 0x60,
  bit_and-even (a / 2) 0x30,
  bit_and-even (a / 2 / 2) 0x18,
  bit_and-even (a / 2 / 2 / 2) 0x0c,
  bit_and-even (a / 2 / 2 / 2 / 2) 0x06,
  bit_and-even (a / 2 / 2 / 2 / 2 / 2) 0x03,
  bit_and_3 (a / 2 / 2 / 2 / 2 / 2 / 2),
)

-- `&` with a single bit.
pub bit_and_single : (k a : ℕ) → bit_and a (2 ^ k) ≡ digit a k * 2 ^ k
bit_and_single zero a = omega (arith, bit_and_1 a)
bit_and_single (suc k) a =
    rw (digit-suc, pow-succ' 2 k, bit_and-even, bit_and_single k (a / 2)) (omega arith)

bit_xor-zero : (a : ℕ) → bit_xor a 0 ≡ a
bit_xor-zero a = at_fuel a a (omega arith)
  where
    at_fuel : (n c : ℕ) → c ≤ n → bit_xor c 0 ≡ c
    at_fuel n zero h = refl
    at_fuel zero (suc c) h = absurd (omega arith)
    at_fuel (suc n) (suc c) h =
        omega (arith, bit_xor_step (suc c) 0, at_fuel n (suc c / 2) (omega arith))

bit_xor-odd : (a m : ℕ) → bit_xor a (2 * m + 1) ≡ bit_xor (a / 2) m * 2 + (a + 1) % 2
bit_xor-odd a m = ground (arith, bit_xor_step a (2 * m + 1))

bit_xor_0f : (a : ℕ) → a < 16 → bit_xor a 0x0f ≡ 15 - a
bit_xor_0f a h = ground (
  arith,
  bit_xor-odd a 7,
  bit_xor-odd (a / 2) 3,
  bit_xor-odd (a / 2 / 2) 1,
  bit_xor-odd (a / 2 / 2 / 2) 0,
  bit_xor-zero (a / 2 / 2 / 2 / 2),
)

-- The complement of a byte.
pub bit_xor_ff : (a : ℕ) → a < 256 → bit_xor a 0xff ≡ 255 - a
bit_xor_ff a h = ground (
  arith,
  bit_xor-odd a 0x7f,
  bit_xor-odd (a / 2) 0x3f,
  bit_xor-odd (a / 2 / 2) 0x1f,
  bit_xor-odd (a / 2 / 2 / 2) 0x0f,
  bit_xor_0f (a / 2 / 2 / 2 / 2),
)
