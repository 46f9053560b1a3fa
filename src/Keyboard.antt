-- ===== src/Keyboard.antt =====
-- The PS/2 keyboard board, emulator/chips/ps2_keyboard_board.c.
pub mod Queue
pub mod Board
pub mod Tick
pub mod Fifo
pub mod Keys
pub mod Answers
pub mod Conversation
mod Tests
