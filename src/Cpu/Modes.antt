-- ===== src/Cpu/Modes.antt =====
-- The addressing mode functions of emulator/cpu_core.c: each sets the effective address `ea` (or
-- `reladdr`), moves `pc` past the operand, and notes a page crossing in `penaltyaddr`.
use workbench.Common.{nonzero, ℕ, ◌+◌, true, u8, u16, ◌==◌, if◌then◌else◌, bit_and, bit_or}
use workbench.Cpu.State.{Machine, Hooks, cpu_read}
use workbench.Cpu.Access.{read_word}
use workbench.Cpu.Tables

module _ {H : Type 0} where
  unfoldable pub imp : Machine H → Machine H
  imp m = m

  unfoldable pub acc : Machine H → Machine H
  acc m = m

  unfoldable pub imm : Machine H → Machine H
  imm m = record m { ea = m.pc; pc = u16 (m.pc + 1) }

  -- `ea += index`, with the penalty where that leaves the page of the base address.
  unfoldable pub index_ea : ℕ → ℕ → Machine H → Machine H
  index_ea base index m =
      let ea' = u16 (base + index) in
      record m {
        ea = ea';
        penaltyaddr = if bit_and base 0xff00 == bit_and ea' 0xff00 then m.penaltyaddr else true;
      }

module _ {H : Type 0} (hooks : Hooks H) where
  -- The operand byte, `cpu_read(pc++)`.
  unfoldable pub fetch : Machine H → ℕ × Machine H
  fetch m = let (v, m1) = cpu_read hooks m.pc m in (v, record m1 { pc = u16 (m.pc + 1) })

  -- The operand word, `cpu_read(pc) | cpu_read(pc+1) << 8`, with `pc += 2`.
  unfoldable pub fetch_word : Machine H → ℕ × Machine H
  fetch_word m =
      let (v, m1) = read_word hooks m.pc (m.pc + 1) m in (v, record m1 { pc = u16 (m.pc + 2) })

  unfoldable pub zp : Machine H → Machine H
  zp m = let (v, m1) = fetch m in record m1 { ea = v }

  unfoldable pub zpx : Machine H → Machine H
  zpx m = let (v, m1) = fetch m in record m1 { ea = bit_and (v + m1.x) 0xff }

  unfoldable pub zpy : Machine H → Machine H
  zpy m = let (v, m1) = fetch m in record m1 { ea = bit_and (v + m1.y) 0xff }

  unfoldable pub rel : Machine H → Machine H
  rel m =
      let (v, m1) = fetch m in
      record m1 { reladdr = if nonzero (bit_and v 0x80) then bit_or v 0xff00 else v }

  unfoldable pub abso : Machine H → Machine H
  abso m = let (v, m1) = fetch_word m in record m1 { ea = v }

  unfoldable pub absx : Machine H → Machine H
  absx m = let (v, m1) = fetch_word m in index_ea v m1.x m1

  unfoldable pub absy : Machine H → Machine H
  absy m = let (v, m1) = fetch_word m in index_ea v m1.y m1

  -- NMOS: the high byte of the target comes from the same page as the low byte.
  unfoldable pub ind : Machine H → Machine H
  ind m =
      let (eahelp, m1) = fetch_word m in
      let eahelp2 = bit_or (bit_and eahelp 0xff00) (bit_and (eahelp + 1) 0x00ff) in
      let (v, m2) = read_word hooks eahelp eahelp2 m1 in record m2 { ea = v }

  unfoldable pub ind_65c02 : Machine H → Machine H
  ind_65c02 m =
      let (eahelp, m1) = fetch_word m in
      let (v, m2) = read_word hooks eahelp (eahelp + 1) m1 in record m2 { ea = v }

  unfoldable pub ind_zp : Machine H → Machine H
  ind_zp m =
      let (zp, m1) = fetch m in
      let (v, m2) = read_word hooks zp (u8 (zp + 1)) m1 in record m2 { ea = v }

  unfoldable pub ind_absx : Machine H → Machine H
  ind_absx m =
      let (v, m1) = fetch_word m in
      let base = u16 (v + m1.x) in
      let (w, m2) = read_word hooks base (base + 1) m1 in record m2 { ea = w }

  unfoldable pub indx : Machine H → Machine H
  indx m =
      let (v, m1) = fetch m in
      let eahelp = bit_and (v + m1.x) 0xff in
      let (w, m2) = read_word hooks (bit_and eahelp 0x00ff) (bit_and (eahelp + 1) 0x00ff) m1 in
      record m2 { ea = w }

  unfoldable pub indy : Machine H → Machine H
  indy m =
      let (eahelp, m1) = fetch m in
      let eahelp2 = bit_or (bit_and eahelp 0xff00) (bit_and (eahelp + 1) 0x00ff) in
      let (base, m2) = read_word hooks eahelp eahelp2 m1 in index_ea base m2.y m2

  -- `(*addrtable[opcode])()`
  unfoldable pub run_mode : Tables.Mode → Machine H → Machine H
  unfolding imp acc imm zp zpx zpy rel abso absx absy ind ind_65c02 ind_zp ind_absx indx indy
  run_mode Tables.imp = imp
  run_mode Tables.acc = acc
  run_mode Tables.imm = imm
  run_mode Tables.zp = zp
  run_mode Tables.zpx = zpx
  run_mode Tables.zpy = zpy
  run_mode Tables.rel = rel
  run_mode Tables.abso = abso
  run_mode Tables.absx = absx
  run_mode Tables.absy = absy
  run_mode Tables.ind = ind
  run_mode Tables.ind_65c02 = ind_65c02
  run_mode Tables.ind_zp = ind_zp
  run_mode Tables.ind_absx = ind_absx
  run_mode Tables.indx = indx
  run_mode Tables.indy = indy
