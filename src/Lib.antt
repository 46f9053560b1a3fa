-- ===== src/Lib.antt =====
-- A model of the emulator of the 6502 workbench (emulator/), in a shallow embedding: each C
-- function is a function on explicit states.
--
-- The parts and how they interact. The core (emulator/cpu_core.c) executes one instruction of
-- the NMOS 6502 or of the 65C02 on registers and a memory that the host supplies through two
-- functions, or through hooks that the machine wrapper installs. On the wendy2c board the chips
-- sit on a bus (emulator/bus.c): its lines are a record that each chip reads and drives, and an
-- access goes to the chips in the order of their registration. The 22V10 (emulator/chips/
-- clock_22v10.c) decodes the address and the bank bits, which the VIA's port B drives, into chip
-- selects, and derives the CPU clock from the oscillator; ROM, RAM and the VIA
-- (emulator/chips/via_6522.c) answer when they are selected; the VIA's timers count CPU cycles and
-- its flags drive the interrupt line of the CPU.
--
-- Which file models which part:
--   Common and its children: tests on numbers, machine words, bit laws and list access.
--   Cpu.State: the registers and the memory accesses (cpu_read, cpu_write). The host's state is
--     the type H, and read6502, write6502, the hooks and the loop callback are the fields of
--     Hooks, which stands for code outside cpu_core.c.
--   Cpu.Flags: the flag macros and zerocalc, signcalc, carrycalc, overflowcalc.
--   Cpu.Access and Cpu.Stack: getvalue, putvalue, push16, push8, pull16, pull8, reset6502.
--   Cpu.Modes: the addressing modes. Cpu.Tables: addrtable, optable and ticktable of both variants.
--   Cpu.Arith, Cpu.Logic, Cpu.Branch, Cpu.Transfer, Cpu.Undocumented: the instruction handlers,
--     which Cpu.Dispatch composes as the function pointers of optable do.
--   Cpu.Run: cpu_select_tables, step6502, exec6502, nmi6502, irq6502, cpu_clear_wai.
--   Cpu.Chip: emulator/chips/cpu_65c02.c, which runs the core on the bus; Cpu.Chip.Cycles.
--   Cpu.Valid and its children: the C types of the registers and counters as an
--     invariant.
--   Cpu.Arith.Binary and Cpu.Arith.DecimalMode: ADC and SBC against sums of numbers and of
--     decimal digits (nothing in the source tests NES_CPU, so that both honor the decimal flag),
--     Cpu.Arith.Compare for CMP, CPX and CPY. Cpu.Branch.Return: calls, interrupts
--     and pushes against their returns and pulls.
--   Bus: the lines and the chip list. Bus.Order: the order of an access.
--   Via.State: struct via_6522_state and the helpers. Via.Access: the register reads and writes.
--     Via.Timers: the tick and the reset. Via.Pins: CB2, CA2 and the ports. Via.Events: the
--     histories of a VIA. Via.Line, Via.Timing, Via.Receiver, Via.Shift, Via.Registers: the
--     interrupt line, timer 1, the serial input tick by tick, and the flags and pins bit by bit.
--   Chips.Decoder: the 22V10 and its generated equations (clock_22v10_pld_generated.h).
--     Chips.Memory: rom_28c256.c and ram_628128.c. Chips.Select, Chips.Cycle, Chips.Cells: the
--     memory map, the clock and the cells of the RAM.
--   Lcd.State, Lcd.Memory, Lcd.Commands, Lcd.Pins and Lcd.Panel: the HD44780 display
--     (emulator/chips/lcd_hd44780.c), which watches the VIA's ports; Lcd.Ring, Lcd.Latch,
--     Lcd.Strobe, Lcd.Valid, Lcd.History, Lcd.Bytes and Lcd.Cursor: its memory as a ring, the
--     strobes, its histories and the positions on the panel.
--   Asm.Scan and Asm.Lines: the bootstrap assembler (asm/00/asm.c). Asm.Total: its loops.
--     Asm.Listing, Asm.Printed, Asm.RoundTrip and Asm.Sources: source texts and their bytes.
--   Json.Scan, Json.Value and Json.Message: the parser of the browser's messages
--     (emulator/web_json.c). Json.Bounds, Json.Total, Json.Limits, Json.Depth: how far it goes.
--     Json.Decimal and Json.RoundTrip: printed messages.
--   Serial.Queue and Serial.Chip: the USB serial chip (emulator/chips/serial_usb.c), which drives
--     CB2 of the VIA and follows its shifts. Serial.Fifo: its queue as a list. Serial.Rounds and
--     Serial.Deliver: a byte on its way into the VIA.
--   Keyboard.Queue, Keyboard.Board and Keyboard.Tick: the PS/2 keyboard board
--     (emulator/chips/ps2_keyboard_board.c), which watches port A of the VIA, takes the byte of port B
--     and drives CA2. Keyboard.Fifo and Keyboard.Keys: its queues as lists. Keyboard.Answers and
--     Keyboard.Conversation: its answers to the host.
--   Tests modules: runs on small memories, and the theorems at concrete machines.
--
-- Bounds: every integer of the source keeps its width by an explicit `% 2 ^ w`. The loop of
-- exec6502 recurses on fuel, as an iteration for each instruction; `none` says that the fuel ran
-- out. The assembler's loops run on the length of the text, since each line and each item takes a
-- character; the message parser's on twice that length, since a nested value takes at least a
-- bracket or a comma. Their theorems say that this fuel never runs out.
--
-- Not modelled: the graphical displays, the LED and button board, the serial link and network
-- chips, the other machine's board, the machines' wiring, the web and terminal front ends, sockets
-- and files.
pub mod Common
pub mod Bus
pub mod Cpu
pub mod Via
pub mod Chips
pub mod Lcd
pub mod Asm
pub mod Json
pub mod Serial
pub mod Keyboard
