-- ===== src/Cpu/State.antt =====
-- The registers and helper variables of emulator/cpu_core.c, the memory hooks, and memory access.
-- `H` is the state of the host behind read6502, write6502 and the hooks.
use workbench.Common.{◌<◌, arith, ℕ, Bool, Option, none, some, u8, u16}

-- The tables that `addrtable`, `optable` and `ticktable` point to.
pub data Tables : Type 0 where
  nmos cmos : Tables

pub record Machine (H : Type 0) : Type 0 where
  pub pc : ℕ
  pub sp : ℕ
  pub a : ℕ
  pub x : ℕ
  pub y : ℕ
  pub status : ℕ
  pub cpu_variant : ℕ
  pub tables : Tables
  pub wai_pending : Bool
  pub stp_pending : Bool
  pub instructions : ℕ
  pub clockticks : ℕ
  pub clockgoal : ℕ
  pub ea : ℕ
  pub reladdr : ℕ
  pub opcode : ℕ
  pub penaltyop : Bool
  pub penaltyaddr : Bool
  pub host : H

-- What the program that links the core provides: read6502 and write6502, the external memory
-- hooks and the bus taps, which may be NULL, and `loopexternal` where `callexternal` is set.
pub record Hooks (H : Type 0) : Type 0 where
  pub read6502 : ℕ → H → ℕ × H
  pub write6502 : ℕ → ℕ → H → H
  pub external_read : Option (ℕ → H → ℕ × H)
  pub external_write : Option (ℕ → ℕ → H → H)
  pub read_tap : Option (ℕ → ℕ → H → H)
  pub write_tap : Option (ℕ → ℕ → H → H)
  pub loopexternal : Option (Machine H → Machine H)

module _ {H : Type 0} where
  tapped : Option (ℕ → ℕ → H → H) → ℕ → ℕ → H → H
  tapped none addr v h = h
  tapped (some tap) addr v h = tap addr v h

-- `external ? external(addr) : read6502(addr)`, and the same for a write.
or_external {ℓ} : {A : Type ℓ} → Option A → A → A
or_external none host_function = host_function
or_external (some external) host_function = external

module _ {H : Type 0} (hooks : Hooks H) where
  -- A read as the host sees it: the external hook if there is one, then the tap. The value is a
  -- uint8_t.
  unfoldable pub host_read : ℕ → H → ℕ × H
  unfolding tapped or_external
  host_read addr h =
      let (v, h') = or_external hooks.external_read hooks.read6502 addr h in
      (u8 v, tapped hooks.read_tap addr (u8 v) h')

  unfoldable pub host_write : ℕ → ℕ → H → H
  unfolding tapped or_external
  host_write addr v h =
      tapped hooks.write_tap addr v (or_external hooks.external_write hooks.write6502 addr v h)

  unfoldable pub cpu_read : ℕ → Machine H → ℕ × Machine H
  cpu_read addr m = let (v, h) = host_read (u16 addr) m.host in (v, record m { host = h })

  unfoldable pub cpu_write : ℕ → ℕ → Machine H → Machine H
  cpu_write addr v m = record m { host = host_write (u16 addr) (u8 v) m.host }

  -- What a read returns is a byte, whatever the host does.
  pub host_read-lt : (addr : ℕ) (h : H) → (host_read addr h).0 < 256
  unfolding host_read
  host_read-lt addr h = omega arith
