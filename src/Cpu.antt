-- ===== src/Cpu.antt =====
-- The 6502 core, emulator/cpu_core.c: its state and memory hooks, the status flags, the stack,
-- the addressing modes, the instruction handlers, the dispatch tables and the run loops.
pub mod Flags
pub mod State
pub mod Tables
pub mod Access
pub mod Stack
pub mod Modes
pub mod Arith
pub mod Logic
pub mod Branch
pub mod Transfer
pub mod Undocumented
pub mod Dispatch
pub mod Run
pub mod Chip
pub mod Valid
mod Tests
