-- ===== src/Cpu/Arith/Decimal.antt =====
-- The decimal adjustment of ADC and SBC in emulator/cpu_core.c, which all four handlers share:
-- the adjusted accumulator and the carry. `lo` and `hi` are uint16_t in ADC, and do not wrap;
-- in SBC they are int16_t, here by their bit pattern, negative from `2 ^ 15` on.
use workbench.Common.{
  ℕ, ◌+◌, ◌-◌, ◌^◌, Bool, not, ltb, leb, if◌then◌else◌, u8, u16, ◌<<◌, ◌>>>◌, bit_and, bit_or,
}

-- `(uint8_t)(((hi & 0x0F) << 4) | (lo & 0x0F))`
unfoldable pub pack_digits : ℕ → ℕ → ℕ
pack_digits hi lo = u8 (bit_or (bit_and hi 0x0f << 4) (bit_and lo 0x0f))

unfoldable pub bcd_add : ℕ → ℕ → ℕ → ℕ × Bool
bcd_add a value c =
    let lo0 = u16 (bit_and a 0x0f + bit_and value 0x0f + c) in
    let hi0 = u16 ((a >>> 4) + (value >>> 4)) in
    let adjust = ltb 9 lo0 in
    let lo = if adjust then lo0 - 10 else lo0 in
    let hi1 = if adjust then hi0 + 1 else hi0 in
    let carry_out = ltb 9 hi1 in
    let hi = if carry_out then hi1 - 10 else hi1 in (pack_digits hi lo, carry_out)

-- An int16_t below zero.
abbrev negative : ℕ → Bool
negative n = leb (2 ^ 15) n

unfoldable pub bcd_sub : ℕ → ℕ → ℕ → ℕ × Bool
bcd_sub a mval c =
    let lo0 = u16 (bit_and a 0x0f + 2 ^ 16 - bit_and mval 0x0f - (1 - c)) in
    let hi0 = u16 ((a >>> 4) + 2 ^ 16 - (mval >>> 4)) in
    let adjust = negative lo0 in
    let lo = if adjust then u16 (lo0 + 10) else lo0 in
    let hi1 = if adjust then u16 (hi0 + 2 ^ 16 - 1) else hi0 in
    let borrow = negative hi1 in
    let hi = if borrow then u16 (hi1 + 10) else hi1 in (pack_digits hi lo, not borrow)
