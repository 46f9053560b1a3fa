-- ===== src/Serial.antt =====
-- The USB serial chip, emulator/chips/serial_usb.c.
pub mod Queue
pub mod Chip
pub mod Fifo
pub mod Rounds
pub mod Deliver
mod Tests
