-- ===== src/Cpu/Tests.antt =====
-- Runs of the 6502 core on small programs, and the theorems at concrete machines.
mod Arith
mod Return
use workbench.Cpu.Run.{exec_goal}
use workbench.Cpu.Run.{exec_round}
use workbench.Common.{repeat}
use workbench.Cpu.Run.{irq6502}
use workbench.Cpu.Run.{nmi6502}
use workbench.Common.{ℕ, ◌+◌, ◌-◌, ◌≡◌, refl, true, false, none, ◌==◌, arith, u8, if◌then◌else◌}
use workbench.Cpu.Flags.{
  zero_calc, sign_calc, put_flag, set_flag, clear_flag, has_flag, decimal, constant,
}
use workbench.Cpu.Tables.{optable, addrtable, ticktable}
use workbench.Cpu.Access.{nz_calc, getvalue, putvalue, operand_is_a, add_ticks}
use workbench.Cpu.Modes.{fetch, run_mode}
use workbench.Cpu.Transfer
use workbench.Cpu.Dispatch.{run_op}
use workbench.Cpu.Run.{
  cpu_select_tables, finish, instruction, charge, fetch_opcode, interrupt_to, step6502,
}
use workbench.Cpu.Valid.{IsValid}
use workbench.Cpu.Valid.Run.{step6502-IsValid}
use workbench.Cpu.Arith.{adc, adc_65c02, sbc, sbc_65c02, carry_in, set_penaltyop}
use workbench.Cpu.Arith.Binary.{operand_of, IsSum, adc-IsSum, sbc-IsSum}
use workbench.Cpu.Arith.Bcd.{IsBcd}
use workbench.Cpu.Arith.DecimalMode.{
  IsDecimalSum, IsDecimalDifference, NmosFlags, CmosFlags, sbc-IsDecimalDifference,
}
use workbench.Cpu.Branch.{jsr, rts, rti, brk_insn, brk_insn_65c02}
use workbench.Cpu.Branch.Return.{SameStack, rts-jsr}
use workbench.Cpu.Branch.Return.Rti.{rti-interrupt_to, rti-brk}
use workbench.Cpu.State.{Machine, Hooks, cpu_read, cpu_write, nmos, host_read, host_write}
use workbench.Cpu.Stack.Memory.{IsStackMemory}

-- A flat memory, as the program's own tests have it.
abbrev Memory : Type 0
Memory = ℕ → ℕ

abbrev flat_hooks : Hooks Memory
flat_hooks = record {
  read6502 = λ addr mem. (mem addr, mem);
  write6502 = λ addr v mem. λ b. if b == addr then v else mem b;
  external_read = none;
  external_write = none;
  read_tap = none;
  write_tap = none;
  loopexternal = none;
}

abbrev page_one : Memory → ℕ → ℕ
page_one mem i = u8 (mem (0x100 + i))

flat_hooks-IsStackMemory : IsStackMemory flat_hooks page_one
unfolding host_read host_write
flat_hooks-IsStackMemory = record {
  reads = λ i h hi. refl;
  read_keeps = λ addr j h hj. refl;
  writes = λ i v j h hi hv hj. ground arith;
}

-- The program of test_cpu_variant.c: LDA #$42, STA $0050, BRK.
abbrev store_program : Memory
store_program b =
    if b == 0x0200
    then 0xa9
    else if b == 0x0201
    then 0x42
    else if b == 0x0202
    then 0x85
    else if b == 0x0203
    then 0x50
    else if b == 0xffff
    then 0x03
    else 0

abbrev start : Memory → Machine Memory
start mem = record {
  pc = 0x0200;
  sp = 0xfd;
  a = 0;
  x = 0;
  y = 0;
  status = 0x20;
  cpu_variant = 0;
  tables = nmos;
  wai_pending = false;
  stp_pending = false;
  instructions = 0;
  clockticks = 0;
  clockgoal = 0;
  ea = 0;
  reladdr = 0;
  opcode = 0;
  penaltyop = false;
  penaltyaddr = false;
  host = mem;
}

abbrev stored : Machine Memory
stored = step6502 flat_hooks (step6502 flat_hooks (start store_program))

store_program_runs :
    (stored.host 0x50 ≡ 0x42) × (stored.a ≡ 0x42) × (stored.pc ≡ 0x204) × (stored.clockticks ≡ 5)
unfolding step6502 cpu_select_tables finish instruction charge add_ticks run_op optable run_mode
    addrtable fetch_opcode cpu_read cpu_write host_read host_write Transfer.lda Transfer.sta
    getvalue putvalue operand_is_a fetch ticktable nz_calc zero_calc sign_calc put_flag set_flag
    clear_flag
store_program_runs = (refl, refl, refl, refl)

start-IsValid : IsValid (start store_program)
unfolding has_flag
start-IsValid = record {
  pc_word = omega arith;
  sp_byte = omega arith;
  a_byte = omega arith;
  x_byte = omega arith;
  y_byte = omega arith;
  status_ok = record { byte = omega arith; no_break = refl };
  opcode_byte = omega arith;
  ea_word = omega arith;
  reladdr_word = omega arith;
  ticks_word = omega arith;
  goal_word = omega arith;
  count_word = omega arith;
}

step6502-IsValid_example :
    IsValid (step6502 flat_hooks (start store_program))
    × IsValid (nmi6502 flat_hooks (start store_program))
    × IsValid (irq6502 flat_hooks (start store_program))
    × ((tickcount n : ℕ)
        → IsValid (repeat n (exec_round flat_hooks) (exec_goal tickcount (start store_program))))
step6502-IsValid_example = step6502-IsValid flat_hooks (start store_program) tt start-IsValid
