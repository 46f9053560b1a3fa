-- ===== src/Cpu/Undocumented.antt =====
-- The undocumented NMOS handlers of emulator/cpu_core.c: each runs two documented ones.
use workbench.Common.{◌+◌, ◌-◌, ◌^◌, ◌&&◌, if◌then◌else◌, u64, bit_and}
use workbench.Cpu.State.{Machine, Hooks}
use workbench.Cpu.Access.{putvalue}
use workbench.Cpu.Arith
use workbench.Cpu.Logic
use workbench.Cpu.Transfer

module _ {H : Type 0} where
  -- `if (penaltyop && penaltyaddr) clockticks6502--;`
  unfoldable pub refund : Machine H → Machine H
  refund m =
      if m.penaltyop && m.penaltyaddr
      then record m { clockticks = u64 (m.clockticks + 2 ^ 64 - 1) }
      else m

module _ {H : Type 0} (hooks : Hooks H) where
  unfoldable pub lax : Machine H → Machine H
  lax m = Transfer.ldx hooks (Transfer.lda hooks m)

  unfoldable pub sax : Machine H → Machine H
  sax m =
      let m1 = Transfer.stx hooks (Transfer.sta hooks m) in
      refund (putvalue hooks (bit_and m1.a m1.x) m1)

  unfoldable pub dcp : Machine H → Machine H
  dcp m = refund (Arith.cmp hooks (Logic.dec hooks m))

  unfoldable pub isb : Machine H → Machine H
  isb m = refund (Arith.sbc hooks (Logic.inc hooks m))

  unfoldable pub slo : Machine H → Machine H
  slo m = refund (Logic.ora hooks (Logic.asl hooks m))

  unfoldable pub rla : Machine H → Machine H
  rla m = refund (Logic.and hooks (Logic.rol hooks m))

  unfoldable pub sre : Machine H → Machine H
  sre m = refund (Logic.eor hooks (Logic.lsr hooks m))

  unfoldable pub rra : Machine H → Machine H
  rra m = refund (Arith.adc hooks (Logic.ror hooks m))
