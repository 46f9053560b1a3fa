-- ===== src/Asm.antt =====
-- The bootstrap assembler, asm/00/asm.c.
pub mod Scan
pub mod Lines
pub mod Total
pub mod Listing
pub mod RoundTrip
pub mod Printed
pub mod Sources
mod Tests
