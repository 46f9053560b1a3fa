-- ===== src/Cpu/Arith/Binary.antt =====
-- ADC and SBC of emulator/cpu_core.c in binary mode, against sums of numbers.
use workbench.Cpu.State.{cpu_read, Machine, Hooks}
use workbench.Cpu.Flags.Laws.{
  signs_differ, same_flag, has_flag-zero_calc, has_flag-sign_calc, has_flag-carry_calc,
  has_flag-overflow_calc,
}
use workbench.Common.{
  ℕ, ◌+◌, ◌-◌, ◌*◌, ◌%◌, ◌<◌, ◌≤◌, ◌≡◌, Bool, false, not, ◌&&◌, ◌==◌, leb, arith, u16,
  if◌then◌else◌, to_bit, bit_and, bit_and_ff, bit_xor_ff, bit_and_single,
}
use workbench.Cpu.Flags.{
  Flag, carry, zero, interrupt, decimal, overflow, sign, has_flag, sign_calc, zero_calc, carry_calc,
  overflow_calc,
}
use workbench.Cpu.Valid.{IsValid, getvalue-lt, paying, paid_value-IsValid}
use workbench.Cpu.Access.{getvalue}
use workbench.Cpu.Arith.{adc, adc_65c02, sbc, sbc_65c02, add_binary, carry_in, set_penaltyop}

-- A byte as a signed number, plus 128.
abbrev pub biased : ℕ → ℕ
biased b = (b + 128) % 256

-- Whether the signed sum of two bytes and a carry lies between -128 and 127.
abbrev pub signed_sum_fits : ℕ → ℕ → ℕ → Bool
signed_sum_fits a b c = leb 128 (biased a + biased b + c) && leb (biased a + biased b + c) 383

-- What an addition of `operand` and the carry `c` to the accumulator of `m` leaves in `r`.
pub record IsSum {H : Type 0} (m : Machine H) (operand c : ℕ) (r : Machine H) : Type 0 where
  pub total : r.a + 256 * to_bit (has_flag carry r.status) ≡ m.a + operand + c
  pub byte : r.a < 256
  pub zero_set : has_flag zero r.status ≡ (r.a == 0)
  pub sign_set : has_flag sign r.status ≡ leb 128 r.a
  pub overflow_set : has_flag overflow r.status ≡ not (signed_sum_fits m.a operand c)
  pub interrupt_kept : has_flag interrupt r.status ≡ has_flag interrupt m.status
  pub decimal_kept : has_flag decimal r.status ≡ has_flag decimal m.status

-- The status after the sum `n`, flag by flag.
sum_flags :
    (f : Flag) (n a o s : ℕ)
    → n < 65536
    → has_flag f (sign_calc n (overflow_calc n a o (zero_calc n (carry_calc n s)))) ≡ (
        if same_flag f sign
        then leb 128 (n % 256)
        else if same_flag f overflow
        then signs_differ n a o
        else if same_flag f zero
        then n % 256 == 0
        else if same_flag f carry
        then leb 256 n
        else has_flag f s)
sum_flags f n a o s h = rw (
  has_flag-sign_calc f n (overflow_calc n a o (zero_calc n (carry_calc n s))),
  has_flag-overflow_calc f n a o (zero_calc n (carry_calc n s)),
  has_flag-zero_calc f n (carry_calc n s),
  has_flag-carry_calc f n s h,
)

module _ {H : Type 0} where
  add_binary-IsSum :
      (operand c : ℕ) (m : Machine H)
      → m.a < 256
      → operand < 256
      → c ≤ 1
      → IsSum m operand c (add_binary operand c m)
  unfolding add_binary
  add_binary-IsSum operand c m ha ho hc =
      let n = u16 (m.a + operand + c) in
      let flag = λ (f : Flag). sum_flags f n m.a operand m.status (omega arith) in
      record {
        total = ground (arith, flag carry, bit_and_ff n);
        byte = omega (arith, bit_and_ff n);
        zero_set = ground (arith, flag zero, bit_and_ff n);
        sign_set = ground (arith, flag sign, bit_and_ff n);
        overflow_set = ground (arith, flag overflow);
        interrupt_kept = flag interrupt;
        decimal_kept = flag decimal;
      }

  IsSum-of_same :
      (m m1 r : Machine H) (operand c : ℕ)
      → m1.a ≡ m.a
      → m1.status ≡ m.status
      → IsSum m1 operand c r
      → IsSum m operand c r
  IsSum-of_same m m1 r operand c same_a same_status s = ground (arith, s)

  -- `status & FLAG_CARRY` is the carry as a number.
  status_carry : (m : Machine H) → bit_and m.status 0x01 ≡ carry_in m
  unfolding carry_in has_flag
  status_carry m = ground (arith, bit_and_single 0 m.status)

  pub carry_in-le : (m : Machine H) → carry_in m ≤ 1
  unfolding carry_in
  carry_in-le m = ground arith

module _ {H : Type 0} (hooks : Hooks H) where
  -- The operand that ADC, SBC and CMP read.
  abbrev pub operand_of : Machine H → ℕ
  operand_of m = (getvalue hooks (set_penaltyop m)).0

  -- What the read of the operand leaves alone.
  pub kept_by_operand :
      (m : Machine H)
      → let m1 = (getvalue hooks (set_penaltyop m)).1 in
        (m1.a ≡ m.a) × (m1.status ≡ m.status) × (m1.clockticks ≡ m.clockticks)
  unfolding getvalue set_penaltyop cpu_read
  kept_by_operand m = ground arith

  -- The binary branch, entered with the operand read.
  operand-IsSum :
      (m : Machine H) (operand c : ℕ)
      → IsValid m
      → operand < 256
      → c ≤ 1
      → IsSum m operand c (add_binary operand c (getvalue hooks (set_penaltyop m)).1)
  unfolding set_penaltyop
  operand-IsSum m operand c v ho hc =
      let kept = kept_by_operand m in
      IsSum-of_same m _ _ operand c kept.0 kept.1
        (add_binary-IsSum operand c _ (paid_value-IsValid hooks m v).a_byte ho hc)

  pub operand_of-lt : (m : Machine H) → IsValid m → operand_of m < 256
  unfolding set_penaltyop
  operand_of-lt m v = getvalue-lt hooks _ (paying m v)

  -- With the decimal flag clear, ADC adds the operand and the carry to the accumulator on either
  -- variant: accumulator and carry flag make up the sum, Z and N are those of the accumulator, V
  -- says that the signed sum does not fit, and I and D stay.
  pub adc-IsSum :
      (m : Machine H)
      → IsValid m
      → has_flag decimal m.status ≡ false
      → IsSum m (operand_of m) (carry_in m) (adc hooks m)
        × IsSum m (operand_of m) (carry_in m) (adc_65c02 hooks m)
  unfolding adc adc_65c02 carry_in
  adc-IsSum m v binary =
      let kept = kept_by_operand m in
      let sum = operand-IsSum m (operand_of m) (carry_in m) v (operand_of-lt m v) (carry_in-le m) in
      (rw (kept.1, binary) sum, rw (kept.1, binary, status_carry m) sum)

  -- With the decimal flag clear, SBC adds the complement of the operand and the carry, on either
  -- variant: it subtracts the operand and the borrow.
  pub sbc-IsSum :
      (m : Machine H)
      → IsValid m
      → has_flag decimal m.status ≡ false
      → IsSum m (255 - operand_of m) (carry_in m) (sbc hooks m)
        × IsSum m (255 - operand_of m) (carry_in m) (sbc_65c02 hooks m)
  unfolding sbc sbc_65c02 carry_in
  sbc-IsSum m v binary =
      let kept = kept_by_operand m in
      let sum = operand-IsSum m (255 - operand_of m) (carry_in m) v (omega arith) (carry_in-le m) in
      let complement = bit_xor_ff (operand_of m) (operand_of-lt m v) in
      (rw (kept.1, binary, complement) sum, rw (kept.1, binary, status_carry m, complement) sum)
