-- ===== src/Lcd/Commands.antt =====
-- What the display does with a byte: execute_byte and lcd_hd44780_instruction of lcd_hd44780.c,
-- and the bytes and halves of bytes that lcd_hd44780_tick takes.
use workbench.Common.{
  ◌<<◌, bit_or, u8, ◌>>>◌, ℕ, Bool, true, false, ◌&&◌, not, if◌then◌else◌, nonzero, bit_and,
}
use workbench.Chips.Memory.{store}
use workbench.Lcd.State.{Lcd, blank}
use workbench.Lcd.Memory.{ddram_index, advance_ac}

-- The instructions, by their highest bit.
abbrev pub inst_clear : ℕ
inst_clear = 0x01

abbrev pub inst_home : ℕ
inst_home = 0x02

abbrev pub inst_entry_mode : ℕ
inst_entry_mode = 0x04

abbrev pub inst_display_ctl : ℕ
inst_display_ctl = 0x08

abbrev pub inst_cursor_shift : ℕ
inst_cursor_shift = 0x10

abbrev pub inst_function_set : ℕ
inst_function_set = 0x20

abbrev pub inst_set_cgram : ℕ
inst_set_cgram = 0x40

abbrev pub inst_set_ddram : ℕ
inst_set_ddram = 0x80

-- `byte & bit` as a condition.
abbrev pub has : ℕ → ℕ → Bool
has byte bit = nonzero (bit_and byte bit)

-- A data write.
unfoldable pub write_cell : ℕ → Lcd → Lcd
write_cell byte s = record s {
  cgram = if s.cgram_mode then store (bit_and s.ac 0x3f) byte s.cgram else s.cgram;
  ddram = if s.cgram_mode then s.ddram else store (ddram_index s s.ac) byte s.ddram;
}

unfoldable pub function_set : ℕ → Lcd → Lcd
function_set byte s = record s {
  four_bit_mode = not (has byte 0x10);
  two_line_mode = has byte 0x08;
  font_5x10 = not (has byte 0x08) && has byte 0x04;
}

unfoldable pub command : ℕ → Lcd → Lcd
command byte s =
    if has byte inst_set_ddram
    then record s { ac = bit_and byte 0x7f; cgram_mode = false }
    else if has byte inst_set_cgram
    then record s { ac = bit_and byte 0x3f; cgram_mode = true }
    else if has byte inst_function_set
    then function_set byte s
    else if has byte inst_cursor_shift
    then s
    else if has byte inst_display_ctl
    then record s {
      display_on = has byte 0x04;
      cursor_on = has byte 0x02;
      blink_on = has byte 0x01;
    }
    else if has byte inst_entry_mode
    then record s { entry_id = has byte 0x02; entry_s = has byte 0x01 }
    else if has byte inst_home
    then record s { ac = 0; cgram_mode = false }
    else if has byte inst_clear
    then record s { ddram = blank; ac = 0; cgram_mode = false; dirty = true }
    else s

unfoldable pub execute_byte : Bool → ℕ → Lcd → Lcd
execute_byte rs byte s =
    if rs then record (advance_ac (write_cell byte s)) { dirty = true } else command byte s

unfoldable pub lcd_hd44780_instruction : ℕ → Lcd → Lcd
lcd_hd44780_instruction byte s = execute_byte false byte s

-- A byte, or the next half of one, is strobed in.
unfoldable pub latch_data : Bool → ℕ → Lcd → Lcd
latch_data rs byte s =
    if s.four_bit_mode
    then (if not s.high_nibble_pending
        then record s { high_nibble = byte >>> 4; high_nibble_pending = true }
        else execute_byte rs (u8 (bit_or (s.high_nibble << 4) (byte >>> 4)))
            (record s { high_nibble_pending = false }))
    else execute_byte rs byte s
