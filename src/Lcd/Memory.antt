-- ===== src/Lcd/Memory.antt =====
-- The display memory of lcd_hd44780.c: ddram_index, read_value and advance_ac.
use workbench.Common.{
  ℕ, ◌+◌, ◌-◌, ◌*◌, ◌%◌, ◌^◌, ◌==◌, Bool, not, if◌then◌else◌, to_bit, leb, u8, u32, bit_and,
}
use workbench.Lcd.State.{Lcd}

-- The cell for an address: two lines of 40 from $00 and from $40, or one of 80.
abbrev pub cell : Bool → ℕ → ℕ
cell two_line_mode addr =
    let a = bit_and addr 0x7f in
    if not two_line_mode then a % 80 else to_bit (leb 0x40 a) * 40 + bit_and a 0x3f % 40

unfoldable pub ddram_index : Lcd → ℕ → ℕ
ddram_index s addr = cell s.two_line_mode addr

unfoldable pub read_value : Bool → Lcd → ℕ
read_value rs s =
    if not rs
    then bit_and s.ac 0x7f
    else if s.cgram_mode
    then s.cgram (bit_and s.ac 0x3f)
    else s.ddram (ddram_index s s.ac)

-- The address after one in each mode; the sum in the first is one of C integers of 32 bits.
abbrev pub next_cgram : Bool → ℕ → ℕ
next_cgram entry_id ac = u8 (bit_and (u32 (ac + (if entry_id then 1 else 2 ^ 32 - 1))) 0x3f)

abbrev pub next_two_line : Bool → ℕ → ℕ
next_two_line entry_id ac =
    if entry_id
    then (if ac == 0x27 then 0x40 else if ac == 0x67 then 0x00 else u8 (ac + 1))
    else if ac == 0x40
    then 0x27
    else if ac == 0x00
    then 0x67
    else u8 (ac + 2 ^ 8 - 1)

abbrev pub next_one_line : Bool → ℕ → ℕ
next_one_line entry_id ac =
    if entry_id
    then (if leb 0x4f ac then 0x00 else u8 (ac + 1))
    else if ac == 0x00
    then 0x4f
    else u8 (ac + 2 ^ 8 - 1)

abbrev pub next_ddram : Bool → Bool → ℕ → ℕ
next_ddram two_line_mode entry_id ac =
    if two_line_mode then next_two_line entry_id ac else next_one_line entry_id ac

unfoldable pub advance_ac : Lcd → Lcd
advance_ac s = record s {
  ac =
      if s.cgram_mode
      then next_cgram s.entry_id s.ac
      else next_ddram s.two_line_mode s.entry_id s.ac;
}
