-- ===== src/Cpu/Valid.antt =====
-- The well-formedness of the machine of emulator/cpu_core.c: the registers, the operand address,
-- the opcode and the counters of ticks and instructions fit their C types, and the break flag,
-- which is no bit of the real processor, is never set in `status`. The children take it through the addressing modes, the handlers and the run loops.
mod Status
mod Defs
pub mod Modes
pub mod Arith
pub mod Logic
pub mod Stack
pub mod Transfer
pub mod Branch
pub mod Dispatch
pub mod Run
pub use Status.{IsStatus}
pub use Defs.*
