-- ===== src/Cpu/Access.antt =====
-- Operand access of emulator/cpu_core.c (getvalue, putvalue), and the word and flag helpers that
-- its handlers write inline.
use workbench.Common.{ℕ, ◌+◌, Bool, true, false, u8, u64, ◌<<◌, bit_and, bit_or, if◌then◌else◌}
use workbench.Cpu.Flags.{zero_calc, sign_calc}
use workbench.Cpu.State.{Machine, Hooks, cpu_read, cpu_write}
use workbench.Cpu.Tables.{Mode, acc, addrtable}

-- `zerocalc(n); signcalc(n);`
unfoldable pub nz_calc : ℕ → ℕ → ℕ
unfolding zero_calc sign_calc
nz_calc n status = sign_calc n (zero_calc n status)

abbrev is_acc : Mode → Bool
is_acc acc = true
is_acc _ = false

module _ {H : Type 0} where
  -- `addrtable[opcode] == acc`
  unfoldable pub operand_is_a : Machine H → Bool
  operand_is_a m = is_acc (addrtable m.tables m.opcode)

  -- `clockticks6502 += n`
  unfoldable pub add_ticks : ℕ → Machine H → Machine H
  add_ticks n m = record m { clockticks = u64 (m.clockticks + n) }

module _ {H : Type 0} (hooks : Hooks H) where
  -- `cpu_read(lo) | cpu_read(hi) << 8`, read from left to right.
  unfoldable pub read_word : ℕ → ℕ → Machine H → ℕ × Machine H
  read_word lo hi m =
      let (l, m1) = cpu_read hooks lo m in
      let (h, m2) = cpu_read hooks hi m1 in (bit_or l (h << 8), m2)

  unfoldable pub getvalue : Machine H → ℕ × Machine H
  getvalue m = if operand_is_a m then (m.a, m) else cpu_read hooks m.ea m

  unfoldable pub putvalue : ℕ → Machine H → Machine H
  putvalue saveval m =
      if operand_is_a m
      then record m { a = u8 (bit_and saveval 0x00ff) }
      else cpu_write hooks m.ea (bit_and saveval 0x00ff) m
