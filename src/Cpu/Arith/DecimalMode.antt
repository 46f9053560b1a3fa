-- ===== src/Cpu/Arith/DecimalMode.antt =====
-- ADC and SBC with the decimal flag set, on both variants.
use workbench.Common.{
  ℕ, ◌+◌, ◌-◌, ◌*◌, ◌%◌, ◌<◌, ◌≤◌, ◌≡◌, refl, Bool, true, not, leb, ◌==◌, arith, to_bit, u64,
  bit_xor_ff,
}
use workbench.Cpu.Flags.{carry, zero, sign, decimal, has_flag}
use workbench.Cpu.Flags.Laws.{has_flag-put_flag, has_flag-zero_calc, has_flag-sign_calc, sign_test}
use workbench.Cpu.State.{Machine, Hooks}
use workbench.Cpu.Access.{getvalue, add_ticks}
use workbench.Cpu.Arith.{sbc, sbc_65c02, decimal_nmos, decimal_cmos, carry_in, set_penaltyop}
use workbench.Cpu.Arith.Decimal.{bcd_sub}
use workbench.Cpu.Arith.Binary.{operand_of, operand_of-lt, kept_by_operand, carry_in-le}
use workbench.Cpu.Arith.Bcd.{IsBcd, bcd_value, bcd_sub_lem}
use workbench.Cpu.Valid.{IsValid}

module _ {H : Type 0} where
  -- The NMOS part takes Z and N from the binary sum of `operand` and `c`, and no extra cycle.
  pub record NmosFlags (m : Machine H) (operand c : ℕ) (r : Machine H) : Type 0 where
    pub zero_binary : has_flag zero r.status ≡ ((m.a + operand + c) % 256 == 0)
    pub sign_binary : has_flag sign r.status ≡ leb 128 ((m.a + operand + c) % 256)
    pub same_ticks : r.clockticks ≡ m.clockticks

  -- The 65C02 takes Z and N from the result, and one cycle more.
  pub record CmosFlags (m r : Machine H) : Type 0 where
    pub zero_result : has_flag zero r.status ≡ (r.a == 0)
    pub sign_result : has_flag sign r.status ≡ leb 128 (r.a % 256)
    pub one_tick : r.clockticks ≡ u64 (m.clockticks + 1)

  nmos_flags :
      (o c : ℕ) (k : ℕ × Bool) (m : Machine H)
      → m.a < 256
      → o < 256
      → c ≤ 1
      → NmosFlags m o c (decimal_nmos o c k m)
        × (has_flag carry (decimal_nmos o c k m).status ≡ k.1)
        × ((decimal_nmos o c k m).a ≡ k.0)
  unfolding decimal_nmos
  nmos_flags o c k m ha ho hc = (
    record {
      zero_binary = rw (has_flag-put_flag, has_flag-sign_calc, has_flag-zero_calc) (ground arith);
      sign_binary = rw (has_flag-put_flag, has_flag-sign_calc) (ground arith);
      same_ticks = refl;
    },
    has_flag-put_flag carry carry _ _,
    refl,
  )

  cmos_flags :
      (o c : ℕ) (k : ℕ × Bool) (m : Machine H)
      → CmosFlags m (decimal_cmos o c k m)
        × (has_flag carry (decimal_cmos o c k m).status ≡ k.1)
        × ((decimal_cmos o c k m).a ≡ k.0)
  unfolding decimal_cmos add_ticks
  cmos_flags o c k m = (
    record {
      zero_result = rw (has_flag-put_flag, has_flag-put_flag) refl;
      sign_result = rw has_flag-put_flag (sign_test k.0);
      one_tick = refl;
    },
    rw (has_flag-put_flag, has_flag-put_flag, has_flag-put_flag),
    refl,
  )

  -- The accumulator and carry of `r` are the decimal sum of those of `m` and `operand`.
  pub record IsDecimalSum (m : Machine H) (operand c : ℕ) (r : Machine H) : Type 0 where
    pub digits : IsBcd r.a
    pub total :
        bcd_value r.a + 100 * to_bit (has_flag carry r.status)
        ≡ bcd_value m.a + bcd_value operand + c

  -- The accumulator of `r` is the decimal difference, and a clear carry is a borrowed hundred.
  pub record IsDecimalDifference (m : Machine H) (operand c : ℕ) (r : Machine H) : Type 0 where
    pub digits : IsBcd r.a
    pub total :
        bcd_value r.a + bcd_value operand + (1 - c)
        ≡ bcd_value m.a + 100 * to_bit (not (has_flag carry r.status))

-- Where `s` has the accumulator and the clock of `m`: after the operand is read.
module _ {H : Type 0} (m s : Machine H) (same_a : s.a ≡ m.a)
    (same_clock : s.clockticks ≡ m.clockticks) where
  nmos_from :
      (o c : ℕ) (k : ℕ × Bool)
      → m.a < 256
      → o < 256
      → c ≤ 1
      → NmosFlags m o c (decimal_nmos o c k s)
        × (has_flag carry (decimal_nmos o c k s).status ≡ k.1)
        × ((decimal_nmos o c k s).a ≡ k.0)
  nmos_from o c k ha ho hc = ground (arith, nmos_flags o c k s)

  cmos_from :
      (o c : ℕ) (k : ℕ × Bool)
      → CmosFlags m (decimal_cmos o c k s)
        × (has_flag carry (decimal_cmos o c k s).status ≡ k.1)
        × ((decimal_cmos o c k s).a ≡ k.0)
  cmos_from o c k = ground (arith, cmos_flags o c k s)

module _ {H : Type 0} (hooks : Hooks H) where
  -- With the decimal flag set, SBC of two bytes of decimal digits gives the digits of their
  -- difference less the borrow, with a hundred borrowed where the carry comes out clear; Z, N and
  -- the cycles are as for ADC, the NMOS part's from the binary sum with the complement.
  pub sbc-IsDecimalDifference :
      (m : Machine H)
      → IsValid m
      → has_flag decimal m.status ≡ true
      → IsBcd m.a
      → IsBcd (operand_of hooks m)
      → IsDecimalDifference m (operand_of hooks m) (carry_in m) (sbc hooks m)
        × NmosFlags m (255 - operand_of hooks m) (carry_in m) (sbc hooks m)
        × IsDecimalDifference m (operand_of hooks m) (carry_in m) (sbc_65c02 hooks m)
        × CmosFlags m (sbc_65c02 hooks m)
  unfolding sbc sbc_65c02 carry_in
  sbc-IsDecimalDifference m v set da dv =
      let kept = kept_by_operand hooks m in
      let value = operand_of hooks m in
      let complement = bit_xor_ff value (operand_of-lt hooks m v) in
      let digits = bcd_sub_lem m.a value (carry_in m) da dv (carry_in-le m) in
      let k = bcd_sub m.a value (carry_in m) in
      let nmos =
        nmos_from m (getvalue hooks (set_penaltyop m)).1 kept.0 kept.2 (255 - value) (carry_in m) k
          v.a_byte (omega arith) (carry_in-le m) in
      let cmos =
        cmos_from m (getvalue hooks (set_penaltyop m)).1 kept.0 kept.2 (255 - value) (carry_in m)
          k in
      rw (kept.1, set, kept.0, complement)
        (
          record { digits = rw nmos.2 digits.1; total = rw (nmos.1, nmos.2) digits.0 },
          nmos.0,
          record { digits = rw cmos.2 digits.1; total = rw (cmos.1, cmos.2) digits.0 },
          cmos.0,
        )
