-- ===== src/Cpu/Transfer.antt =====
-- The loads, stores, register transfers, stack, flag and idle handlers of emulator/cpu_core.c.
use workbench.Common.{ℕ, Bool, true, ◌||◌, ◌==◌, if◌then◌else◌, u8, bit_and}
use workbench.Cpu.Flags.{carry, interrupt, decimal, break, overflow, set_flag, clear_flag}
use workbench.Cpu.State.{Machine, Hooks}
use workbench.Cpu.Access.{nz_calc, getvalue, putvalue}
use workbench.Cpu.Stack.{push8, pull8}
use workbench.Cpu.Branch.{pull_status}

-- The opcodes on which an unofficial NOP pays for a page crossing.
abbrev slow_nop : ℕ → Bool
slow_nop opcode =
    opcode == 0x1c
    || opcode == 0x3c
    || opcode == 0x5c
    || opcode == 0x7c
    || opcode == 0xdc
    || opcode == 0xfc

module _ {H : Type 0} where
  unfoldable pub clc : Machine H → Machine H
  clc m = record m { status = clear_flag carry m.status }

  unfoldable pub cld : Machine H → Machine H
  cld m = record m { status = clear_flag decimal m.status }

  unfoldable pub cli : Machine H → Machine H
  cli m = record m { status = clear_flag interrupt m.status }

  unfoldable pub clv : Machine H → Machine H
  clv m = record m { status = clear_flag overflow m.status }

  unfoldable pub sec : Machine H → Machine H
  sec m = record m { status = set_flag carry m.status }

  unfoldable pub sed : Machine H → Machine H
  sed m = record m { status = set_flag decimal m.status }

  unfoldable pub sei : Machine H → Machine H
  sei m = record m { status = set_flag interrupt m.status }

  unfoldable pub tax : Machine H → Machine H
  tax m = record m { x = m.a; status = nz_calc m.a m.status }

  unfoldable pub tay : Machine H → Machine H
  tay m = record m { y = m.a; status = nz_calc m.a m.status }

  unfoldable pub tsx : Machine H → Machine H
  tsx m = record m { x = m.sp; status = nz_calc m.sp m.status }

  unfoldable pub txa : Machine H → Machine H
  txa m = record m { a = m.x; status = nz_calc m.x m.status }

  unfoldable pub txs : Machine H → Machine H
  txs m = record m { sp = m.x }

  unfoldable pub tya : Machine H → Machine H
  tya m = record m { a = m.y; status = nz_calc m.y m.status }

  unfoldable pub nop : Machine H → Machine H
  nop m = record m { penaltyop = if slow_nop m.opcode then true else m.penaltyop }

  unfoldable pub wai : Machine H → Machine H
  wai m = record m { wai_pending = true }

  unfoldable pub stp : Machine H → Machine H
  stp m = record m { stp_pending = true }

module _ {H : Type 0} (hooks : Hooks H) where
  unfoldable pub lda : Machine H → Machine H
  lda m =
      let (value, m1) = getvalue hooks (record m { penaltyop = true }) in
      let v = u8 (bit_and value 0x00ff) in record m1 { a = v; status = nz_calc v m1.status }

  unfoldable pub ldx : Machine H → Machine H
  ldx m =
      let (value, m1) = getvalue hooks (record m { penaltyop = true }) in
      let v = u8 (bit_and value 0x00ff) in record m1 { x = v; status = nz_calc v m1.status }

  unfoldable pub ldy : Machine H → Machine H
  ldy m =
      let (value, m1) = getvalue hooks (record m { penaltyop = true }) in
      let v = u8 (bit_and value 0x00ff) in record m1 { y = v; status = nz_calc v m1.status }

  unfoldable pub sta : Machine H → Machine H
  sta m = putvalue hooks m.a m

  unfoldable pub stx : Machine H → Machine H
  stx m = putvalue hooks m.x m

  unfoldable pub sty : Machine H → Machine H
  sty m = putvalue hooks m.y m

  unfoldable pub stz : Machine H → Machine H
  stz m = putvalue hooks 0 m

  unfoldable pub pha : Machine H → Machine H
  pha m = push8 hooks m.a m

  unfoldable pub phx : Machine H → Machine H
  phx m = push8 hooks m.x m

  unfoldable pub phy : Machine H → Machine H
  phy m = push8 hooks m.y m

  unfoldable pub php : Machine H → Machine H
  php m = push8 hooks (set_flag break m.status) m

  unfoldable pub pla : Machine H → Machine H
  pla m = let (v, m1) = pull8 hooks m in record m1 { a = v; status = nz_calc v m1.status }

  unfoldable pub plx : Machine H → Machine H
  plx m = let (v, m1) = pull8 hooks m in record m1 { x = v; status = nz_calc v m1.status }

  unfoldable pub ply : Machine H → Machine H
  ply m = let (v, m1) = pull8 hooks m in record m1 { y = v; status = nz_calc v m1.status }

  unfoldable pub plp : Machine H → Machine H
  plp m = pull_status hooks m
