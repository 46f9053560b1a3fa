-- ===== src/Chips/Select.antt =====
-- The memory map that the chip selects of emulator/chips/clock_22v10.c make.
use workbench.Common.{
  ℕ, ◌+◌, ◌*◌, ◌/◌, ◌%◌, ◌^◌, ◌<◌, ◌≡◌, refl, ap, ◌∙◌, Bool, true, ◌==◌, ◌&&◌, ◌||◌, leb, ltb,
  nonzero, to_bit, all_below, all_below_sound, bit_and, bit_or, bit_and_1f, bit_or_fields, arith,
}
use workbench.Bus.{Bus}
use workbench.Chips.Decoder.{
  pld_romcs, pld_ramcs, pld_viacs, pld_r15, pld_r16, pld_r17, pld_r18, pld_entry, pld_table,
  clock_22v10_refresh_combinational,
}

-- The index of the table that an address and a bank configuration make up.
index_of : ℕ → ℕ → ℕ
index_of addr bank = addr / 2048 * 32 + bank % 32

index-bit_or :
    (addr bank : ℕ) → bit_or ((addr / 2 ^ 11) * 2 ^ 5) (bit_and bank 0x1f) ≡ index_of addr bank
unfolding index_of
index-bit_or addr bank =
    ap (λ (t : ℕ). bit_or (addr / 2 ^ 11 * 2 ^ 5) t) (bit_and_1f bank)
    ∙ bit_or_fields 5 (addr / 2 ^ 11) (bank % 32) (omega arith)

-- What is checked of each entry.
abbrev entry_is_right : ℕ → Bool
entry_is_right index =
    let out = pld_table index in
    let romcs = to_bit (nonzero (bit_and out 0x01)) in
    let ramcs = to_bit (nonzero (bit_and out 0x02)) in
    let viacs = to_bit (nonzero (bit_and out 0x04)) in
    (romcs + ramcs + viacs == 1)
    && (viacs == to_bit (index / 32 == 30))
    && (romcs * to_bit (ltb index 512) == 0)
    && (ltb 0 (index % 32) || (ramcs == to_bit (ltb index 512)))

table_checked : all_below 1024 entry_is_right ≡ true
unfolding all_below pld_table pld_entry pld_romcs pld_ramcs pld_viacs pld_r15 pld_r16 pld_r17
    pld_r18
table_checked = refl

-- The selects of an address: one chip, the VIA at $F000..$F7FF and nowhere else, the ROM in the
-- upper half only, and under bank configuration 0 the RAM in the lower half only.
pub record IsDecoded (addr bank : ℕ) (r : Bus) : Type 0 where
  pub one_chip : r.romcs + r.ramcs + r.viacs ≡ 1
  pub via_window : r.viacs ≡ to_bit (leb 0xf000 addr && ltb addr 0xf800)
  pub rom_half : r.romcs * to_bit (ltb addr 0x8000) ≡ 0
  pub reset_bank : (ltb 0 (bank % 32) || (r.ramcs == to_bit (ltb addr 0x8000))) ≡ true

-- For each address and bank configuration the decoder selects exactly one of ROM, RAM and VIA: the
-- VIA at $F000..$F7FF whatever the bank, the ROM in the upper half of the address space only, and
-- with bank bits 0, as after a reset, the RAM in the lower half and nowhere else.
pub refresh-IsDecoded :
    (bus : Bus)
    → bus.addr < 65536
    → IsDecoded bus.addr bus.bank_config (clock_22v10_refresh_combinational bus)
unfolding clock_22v10_refresh_combinational index_of
refresh-IsDecoded bus h =
    let index = index_of bus.addr bus.bank_config in
    let right = all_below_sound entry_is_right 1024 index (omega arith) table_checked in
    simp (index-bit_or bus.addr bus.bank_config) (record {
      one_chip = ground (arith, right);
      via_window = ground (arith, right);
      rom_half = ground (arith, right);
      reset_bank = ground (arith, right);
    })
