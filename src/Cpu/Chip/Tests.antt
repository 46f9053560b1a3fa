-- ===== src/Cpu/Chip/Tests.antt =====
-- The CPU chip's theorems on a rig whose host has the lines beside a flat memory.
use workbench.Common.{ℕ, ◌-◌, ◌≡◌, refl, true, false, none, ◌==◌, if◌then◌else◌, repeat, arith}
use workbench.Bus.{Bus, bus_init}
use workbench.Cpu.State.{Hooks, nmos}
use workbench.Cpu.Chip.{Rig, Wired, cpu_65c02_tick}
use workbench.Cpu.Chip.Cycles.{tick-held, Quiet, next_cycle, registers, repeat-owed}

abbrev Host : Type 0
Host = Bus × (ℕ → ℕ)

abbrev hooks : Hooks Host
hooks = record {
  read6502 = λ addr h. (h.1 addr, h);
  write6502 = λ addr v h. (h.0, λ b. if b == addr then v else h.1 b);
  external_read = none;
  external_write = none;
  read_tap = none;
  write_tap = none;
  loopexternal = none;
}

abbrev wired : Wired Host
wired = record { lines = λ h. h.0; drive = λ b h. (b, h.1) }

-- A core that waits, with interrupts masked.
abbrev rig : ℕ → Bus → Rig Host
rig owed bus = record {
  chip = record { cycles_owed = owed; prev_res = 0; prev_nmi = 0 };
  core = record {
    pc = 0x0200;
    sp = 0xfd;
    a = 0;
    x = 0;
    y = 0;
    status = 0x24;
    cpu_variant = 1;
    tables = nmos;
    wai_pending = true;
    stp_pending = false;
    instructions = 0;
    clockticks = 0;
    clockgoal = 0;
    ea = 0;
    reladdr = 0;
    opcode = 0;
    penaltyop = false;
    penaltyaddr = false;
    host = (bus, λ addr. 0xea);
  };
}

abbrev interrupted : Bus
interrupted = record bus_init { irq = 1 }

tick-held_example :
    (cpu_65c02_tick hooks wired (rig 0 interrupted)).core
    ≡ record (rig 0 interrupted).core { wai_pending = false }
unfolding bus_init
tick-held_example = tick-held hooks wired (rig 0 interrupted) refl refl refl refl refl

rig-Quiet : Quiet hooks wired (rig 3 bus_init)
unfolding bus_init
rig-Quiet = record { res = refl; nmi = refl; irq = refl }

repeat-owed_example :
    ((repeat 2 (next_cycle hooks wired) (rig 3 bus_init)).chip.cycles_owed ≡ 3 - 2)
    × (registers hooks wired
          (bus_init, λ addr. 0)
          (repeat 2 (next_cycle hooks wired) (rig 3 bus_init))
        ≡ registers hooks wired (bus_init, λ addr. 0) (rig 3 bus_init))
repeat-owed_example =
    repeat-owed hooks wired (λ b h. refl) 2 3 (rig 3 bus_init) (bus_init, λ addr. 0) rig-Quiet refl
      (omega arith)
