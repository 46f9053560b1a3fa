-- ===== src/Cpu/Stack.antt =====
-- The stack functions of emulator/cpu_core.c, and reset6502.
pub mod Memory
use workbench.Common.{ℕ, ◌-◌, ◌+◌, false, u8, ◌>>>◌, bit_and}
use workbench.Cpu.Flags.{constant, set_flag}
use workbench.Cpu.State.{Machine, Hooks, cpu_read, cpu_write}
use workbench.Cpu.Access.{read_word}

abbrev pub base_stack : ℕ
base_stack = 0x100

module _ {H : Type 0} (hooks : Hooks H) where
  unfoldable pub push16 : ℕ → Machine H → Machine H
  push16 pushval m =
      let m1 = cpu_write hooks (base_stack + m.sp) (bit_and (pushval >>> 8) 0xff) m in
      let m2 =
        cpu_write hooks (base_stack + bit_and (m.sp + 256 - 1) 0xff) (bit_and pushval 0xff) m1 in
      record m2 { sp = u8 (m.sp + 256 - 2) }

  unfoldable pub push8 : ℕ → Machine H → Machine H
  push8 pushval m = record (cpu_write hooks (base_stack + m.sp) pushval m) {
    sp = u8 (m.sp + 256 - 1);
  }

  unfoldable pub pull16 : Machine H → ℕ × Machine H
  pull16 m =
      let (temp16, m1) =
        read_word hooks (base_stack + bit_and (m.sp + 1) 0xff)
          (base_stack + bit_and (m.sp + 2) 0xff) m in
      (temp16, record m1 { sp = u8 (m.sp + 2) })

  unfoldable pub pull8 : Machine H → ℕ × Machine H
  pull8 m = let sp' = u8 (m.sp + 1) in cpu_read hooks (base_stack + sp') (record m { sp = sp' })

  unfoldable pub reset6502 : Machine H → Machine H
  reset6502 m =
      let (vector, m1) = read_word hooks 0xfffc 0xfffd m in
      record m1 {
        pc = vector;
        a = 0;
        x = 0;
        y = 0;
        sp = 0xfd;
        status = set_flag constant m1.status;
        wai_pending = false;
        stp_pending = false;
      }
