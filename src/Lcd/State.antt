-- ===== src/Lcd/State.antt =====
-- The state of the display, struct lcd_hd44780_state of emulator/chips/lcd_hd44780.h, with its
-- wiring to the ports of the VIA, and the reset, the init and the setters of lcd_hd44780.c.
use workbench.Common.{ℕ, Bool, true, false, if◌then◌else◌, ltb}
use workbench.Chips.Memory.{Contents}

pub data Port : Type 0 where
  port_a : Port
  port_b : Port

pub record Wiring : Type 0 where
  pub rs_port : Port
  pub rs_bit : ℕ
  pub rw_port : Port
  pub rw_bit : ℕ
  pub e_port : Port
  pub e_bit : ℕ
  pub data_port : Port
  pub data_mask : ℕ

abbrev pub wiring_wendy2c : Wiring
wiring_wendy2c = record {
  rs_port = Port.port_a;
  rs_bit = 0x01;
  rw_port = Port.port_a;
  rw_bit = 0x08;
  e_port = Port.port_b;
  e_bit = 0x20;
  data_port = Port.port_a;
  data_mask = 0xf0;
}

abbrev pub wiring_michael : Wiring
wiring_michael = record {
  rs_port = Port.port_a;
  rs_bit = 0x20;
  rw_port = Port.port_a;
  rw_bit = 0x40;
  e_port = Port.port_a;
  e_bit = 0x80;
  data_port = Port.port_b;
  data_mask = 0xff;
}

pub record Lcd : Type 0 where
  pub ddram : Contents
  pub cgram : Contents
  pub rows : ℕ
  pub cols : ℕ
  pub ac : ℕ
  pub cgram_mode : Bool
  pub entry_id : Bool
  pub entry_s : Bool
  pub display_on : Bool
  pub cursor_on : Bool
  pub blink_on : Bool
  pub two_line_mode : Bool
  pub four_bit_mode : Bool
  pub font_5x10 : Bool
  pub high_nibble : ℕ
  pub high_nibble_pending : Bool
  pub prev_e : Bool
  pub dirty : Bool
  pub wiring : Wiring
  pub undriven_strobes : ℕ
  pub contention : ℕ
  pub contending : Bool

-- `memset(ddram, 0x20, LCD_DDRAM_SIZE)`: the cells outside the array stand for no memory.
abbrev pub blank : Contents
blank = λ a. 0x20

unfoldable pub lcd_hd44780_reset : Lcd → Lcd
lcd_hd44780_reset s = record s {
  ddram = blank;
  cgram = λ a. 0;
  ac = 0;
  cgram_mode = false;
  entry_id = true;
  entry_s = false;
  display_on = false;
  cursor_on = false;
  blink_on = false;
  two_line_mode = false;
  four_bit_mode = false;
  font_5x10 = false;
  high_nibble = 0;
  high_nibble_pending = false;
  prev_e = false;
  dirty = true;
}

unfoldable pub lcd_hd44780_init : Lcd
lcd_hd44780_init = record {
  ddram = blank;
  cgram = λ a. 0;
  rows = 2;
  cols = 16;
  ac = 0;
  cgram_mode = false;
  entry_id = true;
  entry_s = false;
  display_on = false;
  cursor_on = false;
  blink_on = false;
  two_line_mode = false;
  four_bit_mode = false;
  font_5x10 = false;
  high_nibble = 0;
  high_nibble_pending = false;
  prev_e = false;
  dirty = false;
  wiring = wiring_wendy2c;
  undriven_strobes = 0;
  contention = 0;
  contending = false;
}

unfoldable pub lcd_hd44780_set_wiring : Wiring → Lcd → Lcd
lcd_hd44780_set_wiring wiring s = record s { wiring = wiring }

-- `if (n < low) n = low; if (n > high) n = high;`
abbrev pub clamped : ℕ → ℕ → ℕ → ℕ
clamped low high n =
    let raised = if ltb n low then low else n in if ltb high raised then high else raised

unfoldable pub lcd_hd44780_set_geometry : ℕ → ℕ → Lcd → Lcd
lcd_hd44780_set_geometry rows cols s = record s {
  rows = clamped 1 4 rows;
  cols = clamped 1 20 cols;
}
