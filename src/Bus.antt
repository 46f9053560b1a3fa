-- ===== src/Bus.antt =====
-- The bus of emulator/bus.h and emulator/bus.c: its lines, and the chips that answer an access.
pub mod Order
mod Tests
use workbench.Common.{
  ℕ, ◌+◌, Bool, true, false, Option, none, some, List, [], ◌∷◌, leb, if◌then◌else◌, u64, length,
  ◌++◌,
}

-- The lines of `struct bus`; a line is high when it is not 0.
pub record Bus : Type 0 where
  pub addr : ℕ
  pub data_lines : ℕ
  pub rwb : ℕ
  pub romcs : ℕ
  pub ramcs : ℕ
  pub viacs : ℕ
  pub wr : ℕ
  pub irq : ℕ
  pub nmi : ℕ
  pub res : ℕ
  pub bank_config : ℕ
  pub cks : ℕ
  pub ck : ℕ
  pub r_bits : ℕ
  pub cpu_cycle_due : ℕ
  pub osc_ticks : ℕ

abbrev pub bus_max_chips : ℕ
bus_max_chips = 16

-- `bus_init`: all lines low but for `rwb`.
unfoldable pub bus_init : Bus
bus_init = record {
  addr = 0;
  data_lines = 0;
  rwb = 1;
  romcs = 0;
  ramcs = 0;
  viacs = 0;
  wr = 0;
  irq = 0;
  nmi = 0;
  res = 0;
  bank_config = 0;
  cks = 0;
  ck = 0;
  r_bits = 0;
  cpu_cycle_due = 0;
  osc_ticks = 0;
}

module _ (World : Type 0) where
  -- `struct chip_ops`, on the states of all chips and the lines: `none` for a null pointer. A read
  -- gives `none` where the chip does not claim it, a write says whether it claims.
  pub record ChipOps : Type 0 where
    pub tick : Option (World × Bus → World × Bus)
    pub read : Option (ℕ → World × Bus → Option ℕ × (World × Bus))
    pub write : Option (ℕ → ℕ → World × Bus → Bool × (World × Bus))
    pub reset : Option (World → World)

module _ {World : Type 0} where
  -- `bus_add_chip`: -1, here `none`, when the bus is full.
  unfoldable pub bus_add_chip : List (ChipOps World) → ChipOps World → Option (List (ChipOps World))
  bus_add_chip chips chip =
      if leb bus_max_chips (length chips) then none else some (chips ++ (chip ∷ []))

  abbrev reset_chip : Option (World → World) → World → World
  reset_chip none w = w
  reset_chip (some reset) w = reset w

  unfoldable pub bus_reset : List (ChipOps World) → World → World
  bus_reset [] w = w
  bus_reset (c ∷ chips) w = bus_reset chips (reset_chip c.reset w)

  abbrev tick_chip : Option (World × Bus → World × Bus) → World × Bus → World × Bus
  tick_chip none s = s
  tick_chip (some tick) s = tick s

  unfoldable pub tick_chips : List (ChipOps World) → World × Bus → World × Bus
  tick_chips [] s = s
  tick_chips (c ∷ chips) s = tick_chips chips (tick_chip c.tick s)

  unfoldable pub bus_step : List (ChipOps World) → World × Bus → World × Bus
  bus_step chips (w, b) = tick_chips chips (w, record b { osc_ticks = u64 (b.osc_ticks + 1) })

  -- A chip's answer to a read, and to a write; a chip without the operation does not claim.
  abbrev pub read_chip : ChipOps World → ℕ → World × Bus → Option ℕ × (World × Bus)
  read_chip c addr s = elim c.read [ none ↦ (none, s) | some read ↦ read addr s ]

  abbrev pub write_chip : ChipOps World → ℕ → ℕ → World × Bus → Bool × (World × Bus)
  write_chip c addr v s = elim c.write [ none ↦ (false, s) | some write ↦ write addr v s ]

  -- The first chip that claims the access ends it.
  unfoldable pub bus_read : List (ChipOps World) → ℕ → World × Bus → Option ℕ × (World × Bus)
  bus_read [] addr s = (none, s)
  bus_read (c ∷ chips) addr s =
      let (answer, s1) = read_chip c addr s in
      elim answer [ some v ↦ (some v, s1) | none ↦ bus_read chips addr s1 ]

  unfoldable pub bus_write : List (ChipOps World) → ℕ → ℕ → World × Bus → Bool × (World × Bus)
  bus_write [] addr v s = (false, s)
  bus_write (c ∷ chips) addr v s =
      let (claimed, s1) = write_chip c addr v s in
      elim claimed [ true ↦ (true, s1) | false ↦ bus_write chips addr v s1 ]
