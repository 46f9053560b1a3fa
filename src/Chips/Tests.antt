-- ===== src/Chips/Tests.antt =====
-- The theorems on the memory chips and the decoder at concrete lines.
use workbench.Common.{◌≡◌, refl, arith, [], ◌∷◌, repeat, some, if◌then◌else◌}
use workbench.Bus.{Bus, bus_init}
use workbench.Chips.Decoder.{
  clock_22v10_refresh_combinational, clock_22v10_tick, pld_table, pld_entry, pld_romcs, pld_ramcs,
  pld_viacs, pld_r15, pld_r16, pld_r17, pld_r18,
}
use workbench.Chips.Memory.{ram_628128_read, ram_628128_write, ram_628128_init}
use workbench.Chips.Select.{IsDecoded, refresh-IsDecoded}
use workbench.Chips.Cycle.{edges, taken, edges-rom, edges-ram}
use workbench.Chips.Cells.{same_cell, ram-read-write}

-- The reset vector's address, and one in low memory.
abbrev at_vector : Bus
at_vector = record bus_init { addr = 0xfffc }

abbrev at_zero : Bus
at_zero = record bus_init { addr = 0x0000 }

refresh-IsDecoded_example : IsDecoded 0xfffc 0 (clock_22v10_refresh_combinational at_vector)
unfolding bus_init
refresh-IsDecoded_example = refresh-IsDecoded at_vector (omega arith)

edges-rom_example :
    (edges 4 (taken at_vector) ≡ 0 ∷ 0 ∷ 0 ∷ 1 ∷ [])
    × ((repeat 4 clock_22v10_tick (taken at_vector)).cks ≡ 0)
    × ((repeat 4 clock_22v10_tick (taken at_vector)).ck ≡ 0)
unfolding bus_init clock_22v10_refresh_combinational pld_table pld_entry pld_romcs pld_ramcs
    pld_viacs pld_r15 pld_r16 pld_r17 pld_r18
edges-rom_example = edges-rom at_vector refl

edges-ram_example :
    (edges 2 (taken at_zero) ≡ 0 ∷ 1 ∷ [])
    × ((repeat 2 clock_22v10_tick (taken at_zero)).cks ≡ 0)
    × ((repeat 2 clock_22v10_tick (taken at_zero)).ck ≡ 0)
unfolding bus_init clock_22v10_refresh_combinational pld_table pld_entry pld_romcs pld_ramcs
    pld_viacs pld_r15 pld_r16 pld_r17 pld_r18
edges-ram_example = edges-ram at_zero refl

-- A write at $2000 and a read at $6000, in the same bank, are the same cell.
abbrev writing : Bus
writing = record bus_init { ramcs = 1; rwb = 0 }

abbrev reading : Bus
reading = record bus_init { ramcs = 1 }

ram-read-write_example :
    ram_628128_read 0x6000 ((ram_628128_write 0x2000 0x5a (ram_628128_init, writing)).1, reading)
    ≡ (if same_cell writing 0x2000 reading 0x6000
        then some 0x5a
        else ram_628128_read 0x6000 (ram_628128_init, reading))
unfolding bus_init
ram-read-write_example =
    ram-read-write ram_628128_init writing reading 0x2000 0x6000 0x5a (omega arith) (omega arith)
      refl refl refl refl
