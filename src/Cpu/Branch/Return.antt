-- ===== src/Cpu/Branch/Return.antt =====
-- JSR and RTS of emulator/cpu_core.c, around a routine that leaves the pushed bytes alone.
pub mod Status
pub mod Rti
pub mod Pull
use workbench.Common.{
  bit_or-lt, ap, ◌∙◌, ◌&&◌, not, all_below_sound, bit_and, ◌||◌, all_below, bit_or, ◌^◌, ℕ, ◌+◌,
  ◌-◌, ◌*◌, ◌/◌, ◌%◌, ◌<◌, ◌≡◌, refl, true, false, ◌==◌, arith, u16, if◌then◌else◌,
}
use workbench.Cpu.Branch.{
  irq_vector, brk_push, jsr, rts, rti, pull_status, brk_insn, brk_insn_65c02,
}
use workbench.Cpu.Stack.Memory.{
  peek-read_word, sp-push8, sp-read_word, status-push16, sp-pull8, status-pull16, sp-pull16,
  sp-push16, IsStackMemory, peek-push8, peek-push16, pull8-value, peek-pull8, pull16-value,
}
use workbench.Cpu.Valid.{IsStatus, IsValid}
use workbench.Cpu.Flags.{constant, break, has_flag, set_flag, flag_mask}
use workbench.Cpu.State.{Machine, Hooks}
use workbench.Cpu.Stack.{push16, push8}
use workbench.Cpu.Run.{interrupt_to}

module _ {H : Type 0} (hooks : Hooks H) (peek : H → ℕ → ℕ) (memory : IsStackMemory hooks peek) where
  -- The machine `s` has the stack of `m` from the pointer up to `n` bytes.
  pub record SameStack (n : ℕ) (m s : Machine H) : Type 0 where
    pub pointer : s.sp ≡ m.sp
    pub bytes :
        (k : ℕ) → k < n → peek s.host ((m.sp + 1 + k) % 256) ≡ peek m.host ((m.sp + 1 + k) % 256)

  -- A subroutine that is entered by JSR and comes to its RTS with the stack pointer and the two
  -- bytes above it as JSR left them returns behind the JSR, with the pointer of the caller.
  pub rts-jsr :
      (m s : Machine H)
      → IsValid m
      → SameStack 2 (jsr hooks m) s
      → ((rts hooks s).pc ≡ m.pc) × ((rts hooks s).sp ≡ m.sp)
  unfolding jsr rts
  rts-jsr m s v same =
      let w = u16 (m.pc + 2 ^ 16 - 1) in
      let p = push16 hooks w m in
      ground (
        arith,
        pull16-value hooks peek memory s,
        sp-push16 hooks w m,
        sp-pull16 hooks s,
        same.pointer,
        same.bytes 0 (omega arith),
        same.bytes 1 (omega arith),
        peek-push16 hooks peek memory w ((p.sp + 1 + 0) % 256) m,
        peek-push16 hooks peek memory w ((p.sp + 1 + 1) % 256) m,
      )
