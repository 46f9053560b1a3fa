-- ===== src/Cpu/Tables.antt =====
-- The entries of the dispatch tables of emulator/cpu_core.c: the addressing mode functions and
-- the instruction handlers that the tables point to, and the lookup of an opcode. The two
-- variants' tables stand in the children, a row for each high digit of the opcode.
mod Defs
mod Nmos
mod Cmos
pub use Defs.*
use workbench.Common.{ℕ, List, [], ◌/◌, ◌%◌, get_or}
unfoldable pub use Nmos.*
unfoldable pub use Cmos.*
use workbench.Cpu.State.{Tables, nmos, cmos}

-- `table[opcode]`, for an opcode of eight bits.
abbrev entry : {A : Type 0} → List (List A) → ℕ → A → A
entry table opcode d = get_or (get_or table (opcode / 16) []) (opcode % 16) d

unfoldable pub addrtable : Tables → ℕ → Mode
unfolding addrtable_nmos addrtable_65c02
addrtable nmos opcode = entry addrtable_nmos opcode imp
addrtable cmos opcode = entry addrtable_65c02 opcode imp

unfoldable pub optable : Tables → ℕ → Op
unfolding optable_nmos optable_65c02
optable nmos opcode = entry optable_nmos opcode nop
optable cmos opcode = entry optable_65c02 opcode nop

unfoldable pub ticktable : Tables → ℕ → ℕ
unfolding ticktable_nmos ticktable_65c02
ticktable nmos opcode = entry ticktable_nmos opcode 0
ticktable cmos opcode = entry ticktable_65c02 opcode 0
