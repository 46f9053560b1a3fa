-- ===== src/Lcd.antt =====
-- The HD44780 character display on the VIA's ports, emulator/chips/lcd_hd44780.c.
pub mod State
pub mod Memory
pub mod Commands
pub mod Pins
pub mod Panel
pub mod Ring
pub mod Latch
pub mod Strobe
pub mod Valid
pub mod Bytes
pub mod Cursor
pub mod History
mod Tests
