-- ===== src/Cpu/Run.antt =====
-- The run loops and interrupts of emulator/cpu_core.c: cpu_select_tables, step6502, exec6502,
-- nmi6502, irq6502 and cpu_clear_wai.
use workbench.Common.{
  ℕ, zero, suc, ◌+◌, ◌&&◌, ◌||◌, ◌==◌, false, Option, none, some, ltb, if◌then◌else◌, u16, u32, u64,
}
use workbench.Cpu.Flags.{constant, interrupt, set_flag}
use workbench.Cpu.State.{Machine, Hooks, nmos, cmos, cpu_read}
use workbench.Cpu.Tables.{addrtable, optable, ticktable}
use workbench.Cpu.Access.{read_word, add_ticks}
use workbench.Cpu.Stack.{push16, push8}
use workbench.Cpu.Modes.{run_mode}
use workbench.Cpu.Dispatch.{run_op}

abbrev pub cpu_65c02 : ℕ
cpu_65c02 = 1

module _ {H : Type 0} where
  -- `if (callexternal) (*loopexternal)();`
  abbrev pub run_callback : Option (Machine H → Machine H) → Machine H → Machine H
  run_callback none m = m
  run_callback (some loopexternal) m = loopexternal m

  unfoldable pub cpu_select_tables : Machine H → Machine H
  cpu_select_tables m = record m { tables = if m.cpu_variant == cpu_65c02 then cmos else nmos }

  -- What exec6502 does before its loop.
  unfoldable pub exec_goal : ℕ → Machine H → Machine H
  exec_goal tickcount m =
      let m1 = cpu_select_tables m in record m1 { clockgoal = u64 (m1.clockgoal + tickcount) }

  unfoldable pub cpu_clear_wai : Machine H → Machine H
  cpu_clear_wai m = record m { wai_pending = false }

module _ {H : Type 0} (hooks : Hooks H) where
  -- `opcode = cpu_read(pc++)`, the constant flag, and the penalties cleared.
  unfoldable pub fetch_opcode : Machine H → Machine H
  fetch_opcode m =
      let (v, m1) = cpu_read hooks m.pc m in
      record m1 {
        opcode = v;
        pc = u16 (m.pc + 1);
        status = set_flag constant m1.status;
        penaltyop = false;
        penaltyaddr = false;
      }

  -- `clockticks6502 += ticktable[opcode]`, and the penalty cycle.
  unfoldable pub charge : Machine H → Machine H
  charge m =
      let m1 = add_ticks (ticktable m.tables m.opcode) m in
      if m1.penaltyop && m1.penaltyaddr then add_ticks 1 m1 else m1

  -- One instruction, from the opcode fetch to its cycles.
  unfoldable pub instruction : Machine H → Machine H
  instruction m =
      let m1 = fetch_opcode m in
      let m2 = run_mode hooks (addrtable m1.tables m1.opcode) m1 in
      charge (run_op hooks (optable m2.tables m2.opcode) m2)

  -- `instructions++; if (callexternal) (*loopexternal)();`
  unfoldable pub finish : Machine H → Machine H
  finish m =
      let m1 = record m { instructions = u32 (m.instructions + 1) } in
      run_callback hooks.loopexternal m1

  unfoldable pub step6502 : Machine H → Machine H
  step6502 m =
      let m1 = cpu_select_tables m in
      if m1.stp_pending || m1.wai_pending
      then (let m2 = add_ticks 1 m1 in record m2 { clockgoal = m2.clockticks })
      else (let m2 = instruction m1 in finish (record m2 { clockgoal = m2.clockticks }))

  -- The body of the loop of exec6502.
  unfoldable pub exec_round : Machine H → Machine H
  exec_round m = if m.stp_pending || m.wai_pending then add_ticks 1 m else finish (instruction m)

  -- The loop of exec6502; `none` means that the fuel ran out.
  unfoldable pub exec_loop : ℕ → Machine H → Option (Machine H)
  exec_loop zero m = none
  exec_loop (suc fuel) m =
      let rest = exec_loop fuel (exec_round m) in
      if ltb m.clockticks m.clockgoal then rest else some m

  unfoldable pub exec6502 : ℕ → ℕ → Machine H → Option (Machine H)
  exec6502 fuel tickcount m = exec_loop fuel (exec_goal tickcount m)

  -- What NMI and IRQ share: the pushes, the interrupt flag and the vector.
  unfoldable pub interrupt_to : ℕ → Machine H → Machine H
  interrupt_to vector m =
      let m1 = record m { wai_pending = false } in
      let m2 = push16 hooks m1.pc m1 in
      let m3 = push8 hooks m2.status m2 in
      let m4 = record m3 { status = set_flag interrupt m3.status } in
      let (v, m5) = read_word hooks vector (vector + 1) m4 in record m5 { pc = v }

  unfoldable pub nmi6502 : Machine H → Machine H
  nmi6502 = interrupt_to 0xfffa

  unfoldable pub irq6502 : Machine H → Machine H
  irq6502 = interrupt_to 0xfffe
