-- ===== src/Cpu/Valid/Arith.antt =====
-- The arithmetic handlers of emulator/cpu_core.c and the validity of the machine.
use workbench.Common.{ℕ, ◌<◌, refl, Bool, arith}
use workbench.Cpu.Flags.{carry, zero, sign}
use workbench.Cpu.State.{Machine, Hooks}
use workbench.Cpu.Access.{nz_calc}
use workbench.Cpu.Arith
use workbench.Cpu.Arith.{
  add_binary, decimal_nmos, decimal_cmos, carry_in, set_penaltyop, compare_calc,
}
use workbench.Cpu.Arith.Decimal.{bcd_add, bcd_sub, pack_digits}
use workbench.Cpu.Valid.Status.{
  put_flag-IsStatus, nz_calc-IsStatus, sum_calc-IsStatus, decimal_overflow-IsStatus,
  compare_calc-IsStatus,
}
use workbench.Cpu.Valid.Defs.{
  IsValid, with_status, with_a, paid_value-IsValid, add_ticks-IsValid, if-IsValid, getvalue-IsValid,
}

module _ {H : Type 0} where
  add_binary-IsValid : (value c : ℕ) (m : Machine H) → IsValid m → IsValid (add_binary value c m)
  unfolding add_binary
  add_binary-IsValid value c m v =
      with_a _ _ m (omega arith) (sum_calc-IsStatus _ m.a value m.status v.status_ok) v

  decimal_nmos-IsValid :
      (o c : ℕ) (r : ℕ × Bool) (m : Machine H)
      → r.0 < 256
      → IsValid m
      → IsValid (decimal_nmos o c r m)
  unfolding decimal_nmos nz_calc
  decimal_nmos-IsValid o c r m h v =
      with_a _ _ m h
        (put_flag-IsStatus carry r.1 _ refl
          (nz_calc-IsStatus _ _ (decimal_overflow-IsStatus m.a o _ m.status v.status_ok)))
        v

  decimal_cmos-IsValid :
      (o c : ℕ) (r : ℕ × Bool) (m : Machine H)
      → r.0 < 256
      → IsValid m
      → IsValid (decimal_cmos o c r m)
  unfolding decimal_cmos
  decimal_cmos-IsValid o c r m h v = add_ticks-IsValid 1 _ (
      with_a _ _ m h
        (put_flag-IsStatus sign _ _ refl (
          put_flag-IsStatus zero _ _ refl (
            put_flag-IsStatus carry r.1 _ refl
              (decimal_overflow-IsStatus m.a o _ m.status v.status_ok))))
        v)

bcd_add-lt : (a v c : ℕ) → (bcd_add a v c).0 < 256
unfolding bcd_add pack_digits
bcd_add-lt a v c = omega arith

bcd_sub-lt : (a v c : ℕ) → (bcd_sub a v c).0 < 256
unfolding bcd_sub pack_digits
bcd_sub-lt a v c = omega arith

module _ {H : Type 0} (hooks : Hooks H) where
  pub adc-IsValid : (m : Machine H) → IsValid m → IsValid (Arith.adc hooks m)
  unfolding Arith.adc
  adc-IsValid m v =
      if-IsValid _ (decimal_nmos-IsValid _ _ _ _ (bcd_add-lt _ _ _) (paid_value-IsValid hooks m v))
        (add_binary-IsValid _ _ _ (paid_value-IsValid hooks m v))

  pub adc_65c02-IsValid : (m : Machine H) → IsValid m → IsValid (Arith.adc_65c02 hooks m)
  unfolding Arith.adc_65c02
  adc_65c02-IsValid m v =
      if-IsValid _ (decimal_cmos-IsValid _ _ _ _ (bcd_add-lt _ _ _) (paid_value-IsValid hooks m v))
        (add_binary-IsValid _ _ _ (paid_value-IsValid hooks m v))

  pub sbc-IsValid : (m : Machine H) → IsValid m → IsValid (Arith.sbc hooks m)
  unfolding Arith.sbc
  sbc-IsValid m v =
      if-IsValid _ (decimal_nmos-IsValid _ _ _ _ (bcd_sub-lt _ _ _) (paid_value-IsValid hooks m v))
        (add_binary-IsValid _ _ _ (paid_value-IsValid hooks m v))

  pub sbc_65c02-IsValid : (m : Machine H) → IsValid m → IsValid (Arith.sbc_65c02 hooks m)
  unfolding Arith.sbc_65c02
  sbc_65c02-IsValid m v =
      if-IsValid _ (decimal_cmos-IsValid _ _ _ _ (bcd_sub-lt _ _ _) (paid_value-IsValid hooks m v))
        (add_binary-IsValid _ _ _ (paid_value-IsValid hooks m v))

  -- Where `s` is the state after the operand has been read.
  compared-IsValid :
      (r value : ℕ) (s : Machine H)
      → IsValid s
      → IsValid (record s { status = compare_calc r value s.status })
  compared-IsValid r value s v = with_status _ s (compare_calc-IsStatus r value _ v.status_ok) v

  pub cmp-IsValid : (m : Machine H) → IsValid m → IsValid (Arith.cmp hooks m)
  unfolding Arith.cmp
  cmp-IsValid m v = compared-IsValid _ _ _ (paid_value-IsValid hooks m v)

  pub cpx-IsValid : (m : Machine H) → IsValid m → IsValid (Arith.cpx hooks m)
  unfolding Arith.cpx
  cpx-IsValid m v = compared-IsValid _ _ _ (getvalue-IsValid hooks m v)

  pub cpy-IsValid : (m : Machine H) → IsValid m → IsValid (Arith.cpy hooks m)
  unfolding Arith.cpy
  cpy-IsValid m v = compared-IsValid _ _ _ (getvalue-IsValid hooks m v)
