-- ===== src/Cpu/Chip.antt =====
-- The CPU on the bus, emulator/chips/cpu_65c02.c: control lines, interrupts, and one instruction for
-- each cycle that is not owed.
pub mod Cycles
mod Tests
use workbench.Common.{
  ℕ, ◌+◌, ◌-◌, ◌^◌, ◌==◌, Bool, true, false, ◌&&◌, ◌||◌, not, if◌then◌else◌, nonzero, bit_and, u64,
  ltb,
}
use workbench.Bus.{Bus}
use workbench.Cpu.State.{Machine, Hooks}
use workbench.Cpu.Stack.{reset6502}
use workbench.Cpu.Run.{step6502, nmi6502, irq6502, cpu_clear_wai}

-- `struct cpu_65c02_state`.
pub record Chip : Type 0 where
  pub cycles_owed : ℕ
  pub prev_res : ℕ
  pub prev_nmi : ℕ

-- The chip and the core. The lines of the bus are a part of the host's state, since the core's
-- memory accesses go through the bus.
pub record Rig (H : Type 0) : Type 0 where
  pub chip : Chip
  pub core : Machine H

-- Where the host keeps the lines.
pub record Wired (H : Type 0) : Type 0 where
  pub lines : H → Bus
  pub drive : Bus → H → H

abbrev pub cpu_65c02_init : Chip
cpu_65c02_init = record { cycles_owed = 0; prev_res = 0; prev_nmi = 0 }

module _ {H : Type 0} (wired : Wired H) where
  abbrev pub bus : Rig H → Bus
  bus r = wired.lines r.core.host

  -- `bus->cpu_cycle_due = ...`
  abbrev pub set_due : ℕ → Rig H → Rig H
  set_due due r = record r {
    core = record r.core {
      host = wired.drive (record (bus r) { cpu_cycle_due = due }) r.core.host;
    };
  }

module _ {H : Type 0} (hooks : Hooks H) (wired : Wired H) where
  -- RES and NMI act on their rising edges.
  unfoldable pub sample_res : Rig H → Rig H
  sample_res r =
      let r1 =
        if nonzero (bus wired r).res && not (nonzero r.chip.prev_res)
        then record r { core = reset6502 hooks r.core; chip = record r.chip { cycles_owed = 0 } }
        else r in
      record r1 { chip = record r1.chip { prev_res = (bus wired r1).res } }

  unfoldable pub sample_nmi : Rig H → Rig H
  sample_nmi r =
      let r1 =
        if nonzero (bus wired r).nmi && not (nonzero r.chip.prev_nmi)
        then record r { core = nmi6502 hooks r.core }
        else r in
      record r1 { chip = record r1.chip { prev_nmi = (bus wired r1).nmi } }

  -- An interrupt ends WAI, masked or not.
  abbrev wake : Rig H → Rig H
  wake r =
      if (nonzero (bus wired r).irq || nonzero (bus wired r).nmi) && r.core.wai_pending
      then record r { core = cpu_clear_wai r.core }
      else r

  -- IRQ is taken between instructions, unless it is masked.
  abbrev take_irq : Rig H → Rig H
  take_irq r =
      if nonzero (bus wired r).irq
        && (r.chip.cycles_owed == 0)
        && not (nonzero (bit_and r.core.status 0x04))
      then record r { core = irq6502 hooks r.core }
      else r

  unfoldable pub sample_irq : Rig H → Rig H
  sample_irq r = take_irq (wake r)

  -- A due cycle is one of those owed, or starts an instruction, which owes the others.
  unfoldable pub run_cycle : Rig H → Rig H
  run_cycle r =
      if ltb 0 r.chip.cycles_owed
      then record r { chip = record r.chip { cycles_owed = r.chip.cycles_owed - 1 } }
      else (let m = step6502 hooks r.core in
          let consumed = u64 (m.clockticks + 2 ^ 64 - r.core.clockticks) in
          record r {
            core = m;
            chip = record r.chip {
              cycles_owed = if ltb 0 consumed then consumed - 1 else r.chip.cycles_owed;
            };
          })

  unfoldable pub cpu_65c02_tick : Rig H → Rig H
  cpu_65c02_tick r =
      let r1 = sample_irq (sample_nmi (sample_res r)) in
      if nonzero (bus wired r1).cpu_cycle_due then run_cycle (set_due wired 0 r1) else r1

  unfoldable pub cpu_65c02_reset : Rig H → Rig H
  cpu_65c02_reset r = record { chip = cpu_65c02_init; core = reset6502 hooks r.core }
