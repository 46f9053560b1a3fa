-- ===== src/Chips/Cycle.antt =====
-- How long a CPU cycle lasts: the registered outputs of emulator/chips/clock_22v10.c.
use workbench.Common.{
  ℕ, zero, suc, ◌≡◌, refl, true, false, nonzero, List, [], ◌∷◌, repeat, arith, bit_and,
}
use workbench.Bus.{Bus}
use workbench.Chips.Decoder.{
  clock_22v10_refresh_combinational, clock_22v10_tick, clock_edge, pld_out,
}

-- Whether a CPU cycle is due after each of `n` ticks of the oscillator.
unfoldable pub edges : ℕ → Bus → List ℕ
edges zero bus = []
edges (suc n) bus = let bus1 = clock_22v10_tick bus in bus1.cpu_cycle_due ∷ edges n bus1

-- The lines when a CPU cycle has just been taken: both clocks low.
abbrev pub taken : Bus → Bus
taken bus = record bus { cks = 0; ck = 0; cpu_cycle_due = 0 }

rom_line :
    (bus : Bus)
    → (clock_22v10_refresh_combinational bus).romcs ≡ 1
    → nonzero (bit_and (pld_out bus) 1) ≡ true
unfolding clock_22v10_refresh_combinational
rom_line bus h = ground arith

ram_line :
    (bus : Bus)
    → (clock_22v10_refresh_combinational bus).romcs ≡ 0
    → nonzero (bit_and (pld_out bus) 1) ≡ false
unfolding clock_22v10_refresh_combinational
ram_line bus h = ground arith

-- While the ROM is addressed the next CPU cycle is due on the fourth tick of the oscillator after
-- the last, and the clocks are then as they were.
pub edges-rom :
    (bus : Bus)
    → (clock_22v10_refresh_combinational bus).romcs ≡ 1
    → (edges 4 (taken bus) ≡ 0 ∷ 0 ∷ 0 ∷ 1 ∷ [])
      × ((repeat 4 clock_22v10_tick (taken bus)).cks ≡ 0)
      × ((repeat 4 clock_22v10_tick (taken bus)).ck ≡ 0)
unfolding edges repeat clock_22v10_tick clock_22v10_refresh_combinational clock_edge
edges-rom bus h = simp (rom_line bus h) (refl, refl, refl)

-- While the ROM is not addressed the next CPU cycle is due on the second tick of the oscillator
-- after the last, and the clocks are then as they were.
pub edges-ram :
    (bus : Bus)
    → (clock_22v10_refresh_combinational bus).romcs ≡ 0
    → (edges 2 (taken bus) ≡ 0 ∷ 1 ∷ [])
      × ((repeat 2 clock_22v10_tick (taken bus)).cks ≡ 0)
      × ((repeat 2 clock_22v10_tick (taken bus)).ck ≡ 0)
unfolding edges repeat clock_22v10_tick clock_22v10_refresh_combinational clock_edge
edges-ram bus h = simp (ram_line bus h) (refl, refl, refl)
