-- ===== src/Chips/Decoder.antt =====
-- The 22V10 of emulator/chips/clock_22v10.c, with the equations of clock_22v10_pld_generated.h:
-- chip selects, RAM bank bits and the CPU clock.
use workbench.Common.{
  ℕ, Bool, ◌&&◌, ◌||◌, not, if◌then◌else◌, u8, ◌<<◌, ◌>>>◌, bit_and, bit_or, nonzero, to_bit,
}
use workbench.Bus.{Bus}

-- The inputs of an equation, each a bit.
pub record PldInputs : Type 0 where
  pub a15 : Bool
  pub a14 : Bool
  pub a13 : Bool
  pub a12 : Bool
  pub a11 : Bool
  pub c4 : Bool
  pub c3 : Bool
  pub c2 : Bool
  pub c1 : Bool
  pub c0 : Bool

unfoldable pub pld_romcs : PldInputs → Bool
pld_romcs i =
    (not i.c4
      && not i.c3
      && not i.c2
      && not i.c1
      && not i.c0
      && i.a15
      && i.a14
      && i.a13
      && i.a12
      && i.a11)
    || (not i.c4 && not i.c3 && not i.c2 && not i.c1 && not i.c0 && i.a15 && not i.a14)
    || (not i.c4 && not i.c3 && not i.c2 && not i.c1 && not i.c0 && i.a15 && i.a14 && not i.a13)
    || (not i.c4
        && not i.c3
        && not i.c2
        && not i.c1
        && not i.c0
        && i.a15
        && i.a14
        && i.a13
        && not i.a12)
    || (i.c4 && not i.c2 && not i.c1 && not i.c0 && i.a15 && not i.a14)
    || (i.c4 && not i.c2 && not i.c1 && not i.c0 && i.a15 && i.a14 && not i.a13)
    || (i.c4 && not i.c2 && not i.c1 && not i.c0 && i.a15 && i.a14 && i.a13 && not i.a12)

unfoldable pub pld_viacs : PldInputs → Bool
pld_viacs i = (i.a15 && i.a14 && i.a13 && i.a12 && not i.a11)

unfoldable pub pld_ramcs : PldInputs → Bool
pld_ramcs i = not (
    (not i.c4
      && not i.c3
      && not i.c2
      && not i.c1
      && not i.c0
      && i.a15
      && i.a14
      && i.a13
      && i.a12
      && i.a11)
    || (not i.c4 && not i.c3 && not i.c2 && not i.c1 && not i.c0 && i.a15 && not i.a14)
    || (not i.c4 && not i.c3 && not i.c2 && not i.c1 && not i.c0 && i.a15 && i.a14 && not i.a13)
    || (not i.c4
        && not i.c3
        && not i.c2
        && not i.c1
        && not i.c0
        && i.a15
        && i.a14
        && i.a13
        && not i.a12)
    || (i.c4 && not i.c2 && not i.c1 && not i.c0 && i.a15 && not i.a14)
    || (i.c4 && not i.c2 && not i.c1 && not i.c0 && i.a15 && i.a14 && not i.a13)
    || (i.c4 && not i.c2 && not i.c1 && not i.c0 && i.a15 && i.a14 && i.a13 && not i.a12)
    || (i.a15 && i.a14 && i.a13 && i.a12 && not i.a11))

unfoldable pub pld_r15 : PldInputs → Bool
pld_r15 i =
    (not i.a15 && not i.a14 && not i.c4 && not i.c3 && not i.c2 && not i.c1 && not i.c0)
    || (not i.a15 && not i.a14 && not i.c4 && i.c0)
    || (not i.a15 && not i.a14 && i.c4 && not i.c3)
    || (i.a15 && i.a14)

unfoldable pub pld_r16 : PldInputs → Bool
pld_r16 i =
    (not i.a15 && not i.a14 && not i.c4 && i.c1)
    || (not i.a15 && not i.a14 && i.c4 && i.c3)
    || (i.a15 && not i.a14 && i.c4 && i.c0)
    || (i.a15 && not i.a13 && i.c4 && i.c0)
    || (i.a15 && not i.a12 && i.c4 && i.c0)
    || (i.a15 && not i.a11 && i.c4 && i.c0)

unfoldable pub pld_r17 : PldInputs → Bool
pld_r17 i =
    (not i.a15 && not i.a14 && not i.c4 && i.c2)
    || (i.a15 && not i.a14 && i.c4 && i.c1)
    || (i.a15 && not i.a13 && i.c4 && i.c1)
    || (i.a15 && not i.a12 && i.c4 && i.c1)
    || (i.a15 && not i.a11 && i.c4 && i.c1)

unfoldable pub pld_r18 : PldInputs → Bool
pld_r18 i =
    (not i.a15 && not i.a14 && not i.c4 && i.c3)
    || (i.a15 && not i.a14 && i.c4 && i.c2)
    || (i.a15 && not i.a13 && i.c4 && i.c2)
    || (i.a15 && not i.a12 && i.c4 && i.c2)
    || (i.a15 && not i.a11 && i.c4 && i.c2)

-- The bits of A15..A11 and of the bank configuration.
abbrev pld_inputs : ℕ → ℕ → PldInputs
pld_inputs a cb = record {
  a15 = nonzero (bit_and (a >>> 4) 1);
  a14 = nonzero (bit_and (a >>> 3) 1);
  a13 = nonzero (bit_and (a >>> 2) 1);
  a12 = nonzero (bit_and (a >>> 1) 1);
  a11 = nonzero (bit_and a 1);
  c4 = nonzero (bit_and (cb >>> 4) 1);
  c3 = nonzero (bit_and (cb >>> 3) 1);
  c2 = nonzero (bit_and (cb >>> 2) 1);
  c1 = nonzero (bit_and (cb >>> 1) 1);
  c0 = nonzero (bit_and cb 1);
}

abbrev pld_romcs_bit : ℕ
pld_romcs_bit = 0x01

abbrev pld_ramcs_bit : ℕ
pld_ramcs_bit = 0x02

abbrev pld_viacs_bit : ℕ
pld_viacs_bit = 0x04

abbrev pld_r_shift : ℕ
pld_r_shift = 3

-- One entry of the table, as `build_pld_table` computes it.
unfoldable pub pld_entry : ℕ → ℕ → ℕ
pld_entry a cb =
    let i = pld_inputs a cb in
    u8 (
      bit_or
        (bit_or
          (bit_or (if pld_romcs i then pld_romcs_bit else 0)
            (if pld_ramcs i then pld_ramcs_bit else 0))
          (if pld_viacs i then pld_viacs_bit else 0))
        (bit_or
            (bit_or (bit_or (to_bit (pld_r18 i) << 3) (to_bit (pld_r17 i) << 2))
              (to_bit (pld_r16 i) << 1))
            (to_bit (pld_r15 i))
          << pld_r_shift))

-- The table by its index, `a << 5 | cb`.
unfoldable pub pld_table : ℕ → ℕ
pld_table index = pld_entry (index >>> 5) (bit_and index 0x1f)

-- The table's entry for the address and the bank configuration.
abbrev pub pld_out : Bus → ℕ
pld_out bus = pld_table (bit_or ((bus.addr >>> 11) << 5) (bit_and bus.bank_config 0x1f))

-- The chip selects and bank bits of an entry.
abbrev pub selects : ℕ → Bus → Bus
selects out bus = record bus {
  romcs = to_bit (nonzero (bit_and out pld_romcs_bit));
  ramcs = to_bit (nonzero (bit_and out pld_ramcs_bit));
  viacs = to_bit (nonzero (bit_and out pld_viacs_bit));
  r_bits = u8 (out >>> pld_r_shift);
  wr = bit_and (if nonzero bus.rwb then 0 else 1) bus.ck;
}

unfoldable pub clock_22v10_refresh_combinational : Bus → Bus
clock_22v10_refresh_combinational bus = selects (pld_out bus) bus

-- The registered clock outputs.
unfoldable pub clock_edge : Bus → Bus
clock_edge bus =
    let cks = nonzero bus.cks in
    let ck = nonzero bus.ck in
    let new_cks = if cks then 0 else 1 in
    let new_ck =
      to_bit ((ck && not cks) || (not ck && cks) || (not (nonzero bus.romcs) && not ck)) in
    record bus {
      cpu_cycle_due = if ck && not (nonzero new_ck) then 1 else bus.cpu_cycle_due;
      cks = new_cks;
      ck = new_ck;
      wr = bit_and (if nonzero bus.rwb then 0 else 1) new_ck;
    }

unfoldable pub clock_22v10_tick : Bus → Bus
clock_22v10_tick bus = clock_edge (clock_22v10_refresh_combinational bus)
