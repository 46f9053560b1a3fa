-- ===== src/Cpu/Arith/Bcd.antt =====
-- The decimal adjustment of emulator/cpu_core.c on operands of two decimal digits, against numbers
-- up to 99.
use workbench.Common.{
  bit_or_fields, bit_and_0f, ℕ, ◌+◌, ◌-◌, ◌*◌, ◌/◌, ◌%◌, ◌≤◌, ◌≡◌, not, arith, to_bit,
}
use workbench.Cpu.Arith.Decimal.{pack_digits, bcd_add, bcd_sub}

-- Two decimal digits in a byte.
pub record IsBcd (b : ℕ) : Type 0 where
  pub high : b / 16 ≤ 9
  pub low : b % 16 ≤ 9

-- The number that two digits stand for.
abbrev pub bcd_value : ℕ → ℕ
bcd_value b = b / 16 * 10 + b % 16

pack_digits_lem : (hi lo : ℕ) → pack_digits hi lo ≡ hi % 16 * 16 + lo % 16
unfolding pack_digits
pack_digits_lem hi lo =
    ground (arith, bit_and_0f hi, bit_and_0f lo, bit_or_fields 4 (hi % 16) (lo % 16))

-- What the adjusted digits of an addition stand for.
pub bcd_add_lem :
    (a v c : ℕ)
    → IsBcd a
    → IsBcd v
    → c ≤ 1
    → let (r, k) = bcd_add a v c in
      (bcd_value r + 100 * to_bit k ≡ bcd_value a + bcd_value v + c) × IsBcd r
unfolding bcd_add
bcd_add_lem a v c da dv hc = rw (bit_and_0f a, bit_and_0f v) (simp pack_digits_lem (ground arith))

-- What the adjusted digits of a subtraction stand for: a borrow is a hundred.
pub bcd_sub_lem :
    (a v c : ℕ)
    → IsBcd a
    → IsBcd v
    → c ≤ 1
    → let (r, k) = bcd_sub a v c in
      (bcd_value r + bcd_value v + (1 - c) ≡ bcd_value a + 100 * to_bit (not k)) × IsBcd r
unfolding bcd_sub
bcd_sub_lem a v c da dv hc = rw (bit_and_0f a, bit_and_0f v) (simp pack_digits_lem (ground arith))
