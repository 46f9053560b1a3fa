-- ===== src/Chips.antt =====
-- The memory side of the wendy2c board: the address decoder and clock, the ROM and the RAM.
pub mod Decoder
pub mod Memory
pub mod Select
pub mod Cycle
pub mod Cells
mod Tests
