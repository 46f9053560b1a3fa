-- ===== src/Cpu/Arith.antt =====
-- The arithmetic handlers of emulator/cpu_core.c: ADC and SBC in binary and in decimal mode, for
-- both variants, and the comparisons.
pub mod Compare
pub mod Decimal
pub mod Binary
pub mod Bcd
pub mod DecimalMode
use workbench.Common.{
  nonzero, ℕ, ◌+◌, ◌-◌, ◌^◌, Bool, true, not, ◌&&◌, ◌==◌, leb, if◌then◌else◌, to_bit, u8, u16,
  bit_and, bit_xor,
}
use workbench.Cpu.Flags.{
  carry, zero, decimal, overflow, sign, has_flag, put_flag, zero_calc, sign_calc, carry_calc,
  overflow_calc,
}
use workbench.Cpu.State.{Machine, Hooks}
use workbench.Cpu.Access.{nz_calc, getvalue, add_ticks}
use Decimal.{bcd_add, bcd_sub}

-- The V flag of the decimal paths: `((a ^ v) & 0x80) == 0 && ((a ^ bin) & 0x80)`.
unfoldable pub decimal_overflow : ℕ → ℕ → ℕ → ℕ → ℕ
decimal_overflow a v bin =
    put_flag overflow ((bit_and (bit_xor a v) 0x80 == 0) && nonzero (bit_and (bit_xor a bin) 0x80))

module _ {H : Type 0} where
  -- The binary branch of ADC and SBC: `result = a + value + carry`, its flags, `saveaccum`.
  unfoldable pub add_binary : ℕ → ℕ → Machine H → Machine H
  add_binary value c m =
      let result = u16 (m.a + value + c) in
      record m {
        status =
            sign_calc result
              (overflow_calc result m.a value (zero_calc result (carry_calc result m.status)));
        a = u8 (bit_and result 0x00ff);
      }

  -- The decimal branch on the NMOS part: N, V and Z from the binary sum.
  unfoldable pub decimal_nmos : ℕ → ℕ → ℕ × Bool → Machine H → Machine H
  decimal_nmos operand c adjusted m =
      let bin = u16 (m.a + operand + c) in
      let (digits, carry_out) = adjusted in
      record m {
        status =
            put_flag carry carry_out
              (sign_calc bin (zero_calc bin (decimal_overflow m.a operand bin m.status)));
        a = digits;
      }

  -- The decimal branch on the 65C02: N and Z from the adjusted result, one more cycle.
  unfoldable pub decimal_cmos : ℕ → ℕ → ℕ × Bool → Machine H → Machine H
  unfolding add_ticks
  decimal_cmos operand c adjusted m =
      let bin = u16 (m.a + operand + c) in
      let (res, carry_out) = adjusted in
      add_ticks 1 (record m {
        status = put_flag sign (nonzero (bit_and res 0x80)) (
            put_flag zero (res == 0)
              (put_flag carry carry_out (decimal_overflow m.a operand bin m.status)));
        a = res;
      })

  -- `(status & FLAG_CARRY) ? 1 : 0`
  unfoldable pub carry_in : Machine H → ℕ
  carry_in m = to_bit (has_flag carry m.status)

  unfoldable pub set_penaltyop : Machine H → Machine H
  set_penaltyop m = record m { penaltyop = true }

-- The flags of CMP, CPX and CPY for the register `r`.
unfoldable pub compare_calc : ℕ → ℕ → ℕ → ℕ
compare_calc r value status = sign_calc (u16 (r + 2 ^ 16 - value)) (
    put_flag zero (r == u8 (bit_and value 0x00ff))
      (put_flag carry (leb (u8 (bit_and value 0x00ff)) r) status))

module _ {H : Type 0} (hooks : Hooks H) where
  unfoldable pub adc : Machine H → Machine H
  unfolding set_penaltyop carry_in
  adc m =
      let (value, m1) = getvalue hooks (set_penaltyop m) in
      let c = carry_in m1 in
      if has_flag decimal m1.status
      then decimal_nmos value c (bcd_add m1.a value c) m1
      else add_binary value c m1

  unfoldable pub adc_65c02 : Machine H → Machine H
  unfolding set_penaltyop carry_in
  adc_65c02 m =
      let c = carry_in m in
      let (value, m1) = getvalue hooks (set_penaltyop m) in
      if has_flag decimal m1.status
      then decimal_cmos value c (bcd_add m1.a value c) m1
      else add_binary value (bit_and m1.status 0x01) m1

  unfoldable pub sbc : Machine H → Machine H
  unfolding set_penaltyop carry_in
  sbc m =
      let (mval, m1) = getvalue hooks (set_penaltyop m) in
      let c = carry_in m1 in
      if has_flag decimal m1.status
      then decimal_nmos (bit_xor mval 0x00ff) c (bcd_sub m1.a mval c) m1
      else add_binary (bit_xor mval 0x00ff) c m1

  unfoldable pub sbc_65c02 : Machine H → Machine H
  unfolding set_penaltyop carry_in
  sbc_65c02 m =
      let (mval, m1) = getvalue hooks (set_penaltyop m) in
      let c = carry_in m1 in
      if has_flag decimal m1.status
      then decimal_cmos (bit_xor mval 0x00ff) c (bcd_sub m1.a mval c) m1
      else add_binary (bit_xor mval 0x00ff) (bit_and m1.status 0x01) m1

  unfoldable pub cmp : Machine H → Machine H
  unfolding set_penaltyop
  cmp m =
      let (value, m1) = getvalue hooks (set_penaltyop m) in
      record m1 { status = compare_calc m1.a value m1.status }

  unfoldable pub cpx : Machine H → Machine H
  cpx m =
      let (value, m1) = getvalue hooks m in record m1 { status = compare_calc m1.x value m1.status }

  unfoldable pub cpy : Machine H → Machine H
  cpy m =
      let (value, m1) = getvalue hooks m in record m1 { status = compare_calc m1.y value m1.status }
