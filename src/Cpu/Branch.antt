-- ===== src/Cpu/Branch.antt =====
-- The handlers of emulator/cpu_core.c that change the flow: branches, jumps, calls, returns, BRK.
pub mod Return
use workbench.Common.{ℕ, ◌+◌, ◌-◌, ◌^◌, ◌==◌, Bool, not, leb, if◌then◌else◌, u16, bit_and, bit_or}
use workbench.Cpu.Flags.{
  carry, zero, interrupt, decimal, break, constant, overflow, sign, flag_mask, has_flag, set_flag,
  clear_flag,
}
use workbench.Cpu.State.{Machine, Hooks, cpu_read}
use workbench.Cpu.Access.{read_word, add_ticks}
use workbench.Cpu.Stack.{push16, push8, pull16, pull8}
use workbench.Cpu.Modes.{fetch}
use workbench.Cpu.Logic.{opcode_bit}

-- `(int8_t)r` as a 16-bit offset.
unfoldable pub sign_extend : ℕ → ℕ
sign_extend r = if leb 128 r then r + 0xff00 else r

module _ {H : Type 0} where
  -- A taken branch: `pc += offset`, two cycles if that leaves the page, else one.
  unfoldable pub branch_by : ℕ → Machine H → Machine H
  branch_by offset m =
      let pc' = u16 (m.pc + offset) in
      add_ticks (if bit_and m.pc 0xff00 == bit_and pc' 0xff00 then 1 else 2) (record m { pc = pc' })

  -- A branch on one flag.
  unfoldable pub branch_if : Bool → Machine H → Machine H
  branch_if taken m = if taken then branch_by m.reladdr m else m

  unfoldable pub bcc : Machine H → Machine H
  bcc m = branch_if (not (has_flag carry m.status)) m

  unfoldable pub bcs : Machine H → Machine H
  bcs m = branch_if (has_flag carry m.status) m

  unfoldable pub bne : Machine H → Machine H
  bne m = branch_if (not (has_flag zero m.status)) m

  unfoldable pub beq : Machine H → Machine H
  beq m = branch_if (has_flag zero m.status) m

  unfoldable pub bpl : Machine H → Machine H
  bpl m = branch_if (not (has_flag sign m.status)) m

  unfoldable pub bmi : Machine H → Machine H
  bmi m = branch_if (has_flag sign m.status) m

  unfoldable pub bvc : Machine H → Machine H
  bvc m = branch_if (not (has_flag overflow m.status)) m

  unfoldable pub bvs : Machine H → Machine H
  bvs m = branch_if (has_flag overflow m.status) m

  unfoldable pub bra : Machine H → Machine H
  bra m = branch_by m.reladdr m

  unfoldable pub jmp : Machine H → Machine H
  jmp m = record m { pc = m.ea }

module _ {H : Type 0} (hooks : Hooks H) where
  unfoldable pub bbr : Machine H → Machine H
  bbr m =
      let (r, m1) = fetch hooks m in
      let (v, m2) = cpu_read hooks m1.ea m1 in
      if bit_and v (opcode_bit m) == 0 then branch_by (sign_extend r) m2 else m2

  unfoldable pub bbs : Machine H → Machine H
  bbs m =
      let (r, m1) = fetch hooks m in
      let (v, m2) = cpu_read hooks m1.ea m1 in
      if bit_and v (opcode_bit m) == 0 then m2 else branch_by (sign_extend r) m2

  unfoldable pub jsr : Machine H → Machine H
  jsr m = let m1 = push16 hooks (u16 (m.pc + 2 ^ 16 - 1)) m in record m1 { pc = m1.ea }

  unfoldable pub rts : Machine H → Machine H
  rts m = let (value, m1) = pull16 hooks m in record m1 { pc = u16 (value + 1) }

  -- `pc++`, then `pc` and the status with B set go on the stack.
  unfoldable pub brk_push : Machine H → Machine H
  brk_push m =
      let m1 = record m { pc = u16 (m.pc + 1) } in
      let m2 = push16 hooks m1.pc m1 in push8 hooks (set_flag break m2.status) m2

  -- `pc = cpu_read(0xFFFE) | cpu_read(0xFFFF) << 8`
  unfoldable pub irq_vector : Machine H → Machine H
  irq_vector m = let (v, m1) = read_word hooks 0xfffe 0xffff m in record m1 { pc = v }

  unfoldable pub brk_insn : Machine H → Machine H
  brk_insn m =
      let m1 = brk_push m in irq_vector (record m1 { status = set_flag interrupt m1.status })

  unfoldable pub brk_insn_65c02 : Machine H → Machine H
  brk_insn_65c02 m =
      let m1 = brk_push m in
      irq_vector (record m1 { status = clear_flag decimal (set_flag interrupt m1.status) })

  -- `status = (pull8() & ~FLAG_BREAK) | FLAG_CONSTANT`, of PLP and RTI.
  unfoldable pub pull_status : Machine H → Machine H
  pull_status m =
      let (v, m1) = pull8 hooks m in
      record m1 { status = bit_or (bit_and v (255 - flag_mask break)) (flag_mask constant) }

  unfoldable pub rti : Machine H → Machine H
  rti m = let (value, m1) = pull16 hooks (pull_status m) in record m1 { pc = value }
