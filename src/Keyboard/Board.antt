-- ===== src/Keyboard/Board.antt =====
-- The state of the keyboard board, struct ps2_keyboard_board_state of
-- emulator/chips/ps2_keyboard_board.h, and its commands, frames and keys in
-- ps2_keyboard_board.c.
use workbench.Common.{
  ℕ, ◌+◌, ◌*◌, ◌==◌, Bool, true, ◌||◌, ◌&&◌, Option, none, some, if◌then◌else◌, ltb, List, [], ◌∷◌,
  length, u8, u32, u64, bit_and, bit_or, nonzero,
}
use workbench.Keyboard.Queue.{ByteQueue, queue_size, last_of_key, queue_put, kept}

pub data Fault : Type 0 where
  no_fault : Fault
  no_edge : Fault
  no_ack : Fault
  resend : Fault

pub record KeyboardBoard : Type 0 where
  pub ticks_per_us : ℕ
  pub fault : Fault
  pub shift_register : ℕ
  pub prev_solb_low : Bool
  pub ca2 : ℕ
  pub active : Bool
  pub from_host : Bool
  pub frame_byte : ℕ
  pub frame_last_of_key : Bool
  pub frame_start : ℕ
  pub frame_end : ℕ
  pub detector_until : ℕ
  pub replies : ByteQueue
  pub keys : ByteQueue
  pub next_send : ℕ
  pub keys_after : ℕ
  pub key_interval_us : ℕ
  pub awaiting_argument_for : ℕ
  pub commands : ℕ

abbrev pub bit_us : ℕ
bit_us = 80

abbrev pub host_frame_bits : ℕ
host_frame_bits = 12

abbrev pub device_frame_bits : ℕ
device_frame_bits = 11

abbrev pub reply_delay_us : ℕ
reply_delay_us = 1000

abbrev pub key_quiet_us : ℕ
key_quiet_us = 200000

abbrev pub key_interval : ℕ
key_interval = 20000

abbrev pub scan_code_set : ℕ
scan_code_set = 0x02

-- So many microseconds in ticks.
unfoldable pub us : KeyboardBoard → ℕ → ℕ
us s n = u64 (n * s.ticks_per_us)

unfoldable pub start_frame : ℕ → ℕ → Bool → KeyboardBoard → KeyboardBoard
start_frame start entry from_host s = record s {
  active = true;
  from_host = from_host;
  frame_byte = u8 entry;
  frame_last_of_key = nonzero (bit_and entry last_of_key);
  frame_start = start;
  frame_end =
      u64 (start + us s (bit_us * (if from_host then host_frame_bits else device_frame_bits)));
}

unfoldable pub reply : ℕ → KeyboardBoard → KeyboardBoard
reply byte s = record s { replies = kept (queue_put byte s.replies) s.replies }

-- The answers to the argument of the last command.
unfoldable pub receive_argument : ℕ → KeyboardBoard → KeyboardBoard
receive_argument byte s =
    let s1 = reply 0xfa s in
    let s2 =
      if (s.awaiting_argument_for == 0xf0) && (byte == 0x00) then reply scan_code_set s1 else s1 in
    record s2 { awaiting_argument_for = 0 }

-- The switch on the command.
unfoldable pub answer_command : ℕ → KeyboardBoard → KeyboardBoard
answer_command byte s =
    if byte == 0xee
    then reply 0xee s
    else if byte == 0xff
    then reply 0xaa (reply 0xfa s)
    else if byte == 0xf2
    then reply 0x83 (reply 0xab (reply 0xfa s))
    else if (byte == 0xed) || ((byte == 0xf0) || (byte == 0xf3))
    then reply 0xfa (record s { awaiting_argument_for = byte })
    else reply 0xfa s

-- What follows the counting of the command, by the fault.
unfoldable pub receive_by : Fault → ℕ → KeyboardBoard → KeyboardBoard
receive_by Fault.no_ack byte s = s
receive_by Fault.resend byte s = reply 0xfe s
receive_by Fault.no_fault byte s =
    if nonzero s.awaiting_argument_for then receive_argument byte s else answer_command byte s
receive_by Fault.no_edge byte s =
    if nonzero s.awaiting_argument_for then receive_argument byte s else answer_command byte s

unfoldable pub receive_command : ℕ → ℕ → KeyboardBoard → KeyboardBoard
receive_command byte now s = receive_by s.fault byte (record s {
  commands = u32 (s.commands + 1);
  next_send = u64 (now + us s reply_delay_us);
  keys_after = u64 (now + us s key_quiet_us);
})

-- The codes of a key, the last one flagged.
unfoldable pub queue_codes : List ℕ → ByteQueue → ByteQueue
queue_codes [] q = q
queue_codes (code ∷ []) q = kept (queue_put (bit_or code last_of_key) q) q
queue_codes (code ∷ (next ∷ codes)) q = queue_codes (next ∷ codes) (kept (queue_put code q) q)

-- `none` is -1.
unfoldable pub ps2_board_queue_key : List ℕ → KeyboardBoard → Option KeyboardBoard
ps2_board_queue_key codes s =
    if ltb queue_size (s.keys.count + length codes)
    then none
    else some (record s { keys = queue_codes codes s.keys })
