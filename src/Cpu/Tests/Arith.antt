-- ===== src/Cpu/Tests/Arith.antt =====
-- ADC, SBC and the comparisons at concrete machines, in binary and in decimal mode.
use workbench.Common.{ℕ, ◌-◌, ◌≡◌, refl, true, false, ◌==◌, arith, if◌then◌else◌}
use workbench.Cpu.Tables.{addrtable}
use workbench.Cpu.Access.{getvalue, operand_is_a}
use workbench.Cpu.Flags.{has_flag, decimal}
use workbench.Cpu.Valid.{IsValid}
use workbench.Cpu.Arith.{adc, adc_65c02, sbc, sbc_65c02, carry_in, set_penaltyop, cmp, cpx, cpy}
use workbench.Cpu.Arith.Binary.{operand_of, IsSum, adc-IsSum, sbc-IsSum}
use workbench.Cpu.Arith.Bcd.{IsBcd}
use workbench.Cpu.Arith.DecimalMode.{
  IsDecimalDifference, NmosFlags, CmosFlags, sbc-IsDecimalDifference,
}
use workbench.Cpu.State.{Machine, cpu_read, host_read}
use workbench.Cpu.Tests.{Memory, flat_hooks, start}
use workbench.Cpu.Arith.Compare.{IsComparison, compare-IsComparison}

-- The accumulator holds 0x58 and the operand is 0x46 at 0x50, in binary or in decimal mode.
abbrev adding : ℕ → Machine Memory
adding status' = record (start (λ b. if b == 0x50 then 0x46 else 0)) {
  a = 0x58;
  ea = 0x50;
  opcode = 0x65;
  status = status';
}

adding-IsValid : IsValid (adding 0x20)
unfolding has_flag
adding-IsValid = record {
  pc_word = omega arith;
  sp_byte = omega arith;
  a_byte = omega arith;
  x_byte = omega arith;
  y_byte = omega arith;
  status_ok = record { byte = omega arith; no_break = refl };
  opcode_byte = omega arith;
  ea_word = omega arith;
  reladdr_word = omega arith;
  ticks_word = omega arith;
  goal_word = omega arith;
  count_word = omega arith;
}

adding_decimal-IsValid : IsValid (adding 0x29)
unfolding has_flag
adding_decimal-IsValid = record {
  pc_word = omega arith;
  sp_byte = omega arith;
  a_byte = omega arith;
  x_byte = omega arith;
  y_byte = omega arith;
  status_ok = record { byte = omega arith; no_break = refl };
  opcode_byte = omega arith;
  ea_word = omega arith;
  reladdr_word = omega arith;
  ticks_word = omega arith;
  goal_word = omega arith;
  count_word = omega arith;
}

-- The flags and the operand of these machines, as they compute.
adding_binary_mode : has_flag decimal 0x20 ≡ false
unfolding has_flag
adding_binary_mode = refl

adding_decimal_mode : has_flag decimal 0x29 ≡ true
unfolding has_flag
adding_decimal_mode = refl

adding_operand : operand_of flat_hooks (adding 0x29) ≡ 0x46
unfolding getvalue set_penaltyop operand_is_a addrtable cpu_read host_read
adding_operand = refl

digits_58 : IsBcd 0x58
digits_58 = omega arith

digits_of_operand : IsBcd (operand_of flat_hooks (adding 0x29))
digits_of_operand = rw adding_operand (omega arith)

adc-IsSum_example :
    IsSum
      (adding 0x20)
      (operand_of flat_hooks (adding 0x20))
      (carry_in (adding 0x20))
      (adc flat_hooks (adding 0x20))
    × IsSum
        (adding 0x20)
        (operand_of flat_hooks (adding 0x20))
        (carry_in (adding 0x20))
        (adc_65c02 flat_hooks (adding 0x20))
adc-IsSum_example = adc-IsSum flat_hooks (adding 0x20) adding-IsValid adding_binary_mode

sbc-IsSum_example :
    IsSum
      (adding 0x20)
      (255 - operand_of flat_hooks (adding 0x20))
      (carry_in (adding 0x20))
      (sbc flat_hooks (adding 0x20))
    × IsSum
        (adding 0x20)
        (255 - operand_of flat_hooks (adding 0x20))
        (carry_in (adding 0x20))
        (sbc_65c02 flat_hooks (adding 0x20))
sbc-IsSum_example = sbc-IsSum flat_hooks (adding 0x20) adding-IsValid adding_binary_mode

abbrev decimal_machine : Machine Memory
decimal_machine = adding 0x29

sbc-IsDecimalDifference_example :
    IsDecimalDifference decimal_machine
      (operand_of flat_hooks decimal_machine)
      (carry_in decimal_machine)
      (sbc flat_hooks decimal_machine)
    × NmosFlags decimal_machine
        (255 - operand_of flat_hooks decimal_machine)
        (carry_in decimal_machine)
        (sbc flat_hooks decimal_machine)
    × IsDecimalDifference decimal_machine
        (operand_of flat_hooks decimal_machine)
        (carry_in decimal_machine)
        (sbc_65c02 flat_hooks decimal_machine)
    × CmosFlags decimal_machine (sbc_65c02 flat_hooks decimal_machine)
sbc-IsDecimalDifference_example =
    sbc-IsDecimalDifference flat_hooks decimal_machine adding_decimal-IsValid adding_decimal_mode
      digits_58 digits_of_operand

compare-IsComparison_example :
    IsComparison 0x58
      (operand_of flat_hooks (adding 0x20))
      0x20
      (cmp flat_hooks (adding 0x20)).status
    × IsComparison 0
        (getvalue flat_hooks (adding 0x20)).0
        0x20
        (cpx flat_hooks (adding 0x20)).status
    × IsComparison 0
        (getvalue flat_hooks (adding 0x20)).0
        0x20
        (cpy flat_hooks (adding 0x20)).status
compare-IsComparison_example = compare-IsComparison flat_hooks (adding 0x20) adding-IsValid
