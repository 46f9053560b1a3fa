-- ===== src/Via.antt =====
-- The 6522 VIA, emulator/chips/via_6522.c: registers, timers, shift register, interrupts, pins.
pub mod State
pub mod Access
pub mod Timers
pub mod Pins
pub mod Events
pub mod Line
pub mod Timing
pub mod Receiver
pub mod Shift
pub mod Registers
mod Tests
