-- ===== src/Cpu/Valid/Modes.antt =====
-- The addressing modes of emulator/cpu_core.c and the validity of the machine.
use workbench.Common.{ℕ, ◌+◌, ◌<◌, ◌^◌, arith, bit_and_ff, bit_or-lt}
use workbench.Cpu.State.{Machine, Hooks}
use workbench.Cpu.Access.{read_word}
use workbench.Cpu.Tables
use workbench.Cpu.Modes.{fetch, fetch_word, index_ea, run_mode}
use workbench.Cpu.Valid.Defs.{
  IsValid, cpu_read-lt, cpu_read-IsValid, read_word-lt, read_word-IsValid,
}

module _ {H : Type 0} where
  index_ea-IsValid : (base index : ℕ) (m : Machine H) → IsValid m → IsValid (index_ea base index m)
  unfolding index_ea
  index_ea-IsValid base index m v = ground (arith, v)

module _ {H : Type 0} (hooks : Hooks H) where
  pub fetch-lt : (m : Machine H) → (fetch hooks m).0 < 256
  unfolding fetch
  fetch-lt m = cpu_read-lt hooks m.pc m

  pub fetch-IsValid : (m : Machine H) → IsValid m → IsValid (fetch hooks m).1
  unfolding fetch
  fetch-IsValid m v = ground (arith, cpu_read-IsValid hooks m.pc m v)

  fetch_word-lt : (m : Machine H) → (fetch_word hooks m).0 < 2 ^ 16
  unfolding fetch_word
  fetch_word-lt m = read_word-lt hooks m.pc (m.pc + 1) m

  fetch_word-IsValid : (m : Machine H) → IsValid m → IsValid (fetch_word hooks m).1
  unfolding fetch_word
  fetch_word-IsValid m v = ground (arith, read_word-IsValid hooks m.pc (m.pc + 1) m v)

  -- The target of an indirect jump or access becomes the effective address.
  reads-IsValid :
      (lo hi : ℕ) (m : Machine H)
      → IsValid m
      → IsValid (record (read_word hooks lo hi m).1 { ea = (read_word hooks lo hi m).0 })
  reads-IsValid lo hi m v =
      ground (arith, read_word-lt hooks lo hi m, read_word-IsValid hooks lo hi m v)

  pub run_mode-IsValid :
      (mode : Tables.Mode) (m : Machine H) → IsValid m → IsValid (run_mode hooks mode m)
  unfolding run_mode
  run_mode-IsValid Tables.imp m v = v
  run_mode-IsValid Tables.acc m v = v
  run_mode-IsValid Tables.imm m v = ground (arith, v)
  run_mode-IsValid Tables.zp m v = ground (arith, fetch-lt m, fetch-IsValid m v)
  run_mode-IsValid Tables.zpx m v =
      ground (arith, fetch-IsValid m v, bit_and_ff ((fetch hooks m).0 + (fetch hooks m).1.x))
  run_mode-IsValid Tables.zpy m v =
      ground (arith, fetch-IsValid m v, bit_and_ff ((fetch hooks m).0 + (fetch hooks m).1.y))
  run_mode-IsValid Tables.rel m v =
      ground (arith, fetch-lt m, fetch-IsValid m v, bit_or-lt 16 (fetch hooks m).0 0xff00)
  run_mode-IsValid Tables.abso m v = ground (arith, fetch_word-lt m, fetch_word-IsValid m v)
  run_mode-IsValid Tables.absx m v = index_ea-IsValid _ _ _ (fetch_word-IsValid m v)
  run_mode-IsValid Tables.absy m v = index_ea-IsValid _ _ _ (fetch_word-IsValid m v)
  run_mode-IsValid Tables.indy m v =
      index_ea-IsValid _ _ _ (read_word-IsValid hooks _ _ _ (fetch-IsValid m v))
  run_mode-IsValid Tables.ind m v = reads-IsValid _ _ _ (fetch_word-IsValid m v)
  run_mode-IsValid Tables.ind_65c02 m v = reads-IsValid _ _ _ (fetch_word-IsValid m v)
  run_mode-IsValid Tables.ind_absx m v = reads-IsValid _ _ _ (fetch_word-IsValid m v)
  run_mode-IsValid Tables.ind_zp m v = reads-IsValid _ _ _ (fetch-IsValid m v)
  run_mode-IsValid Tables.indx m v = reads-IsValid _ _ _ (fetch-IsValid m v)
