-- ===== src/Serial/Queue.antt =====
-- The state of the serial chip, struct serial_usb_state of emulator/chips/serial_usb.h, and its
-- queue of received bytes in serial_usb.c.
use workbench.Common.{
  ℕ, ◌+◌, ◌-◌, ◌%◌, ◌==◌, Bool, Option, none, some, if◌then◌else◌, leb, List, [], ◌∷◌,
}
use workbench.Chips.Memory.{Contents, store}

abbrev pub buf_size : ℕ
buf_size = 0x11000

pub data Phase : Type 0 where
  idle : Phase
  start : Phase
  shifting : Phase

pub record SerialUsb : Type 0 where
  pub buf : Contents
  pub head : ℕ
  pub tail : ℕ
  pub state : Phase
  pub current_byte : ℕ
  pub bit_index : ℕ
  pub prev_shift_total : ℕ

unfoldable pub queue_empty : SerialUsb → Bool
queue_empty s = s.head == s.tail

unfoldable pub queue_full : SerialUsb → Bool
queue_full s = (s.head + 1) % buf_size == s.tail

-- The byte, and the state without it.
unfoldable pub queue_pop : SerialUsb → ℕ × SerialUsb
queue_pop s = (s.buf s.tail, record s { tail = (s.tail + 1) % buf_size })

-- `none` is -1.
unfoldable pub serial_usb_queue_byte : ℕ → SerialUsb → Option SerialUsb
serial_usb_queue_byte byte s =
    if queue_full s
    then none
    else some (record s { buf = store s.head byte s.buf; head = (s.head + 1) % buf_size })

-- The difference of the indices, with the size where it is negative.
unfoldable pub serial_usb_queue_count : SerialUsb → ℕ
serial_usb_queue_count s = if leb s.tail s.head then s.head - s.tail else s.head + buf_size - s.tail

unfoldable pub queued_or : Option SerialUsb → SerialUsb → (SerialUsb → SerialUsb) → SerialUsb
queued_or none s go = s
queued_or (some t) s go = go t

-- Byte by byte, until one does not fit.
unfoldable pub queue_bytes : List ℕ → SerialUsb → SerialUsb
queue_bytes [] s = s
queue_bytes (byte ∷ bytes) s = queued_or (serial_usb_queue_byte byte s) s (queue_bytes bytes)

-- The content of the file, where it can be opened.
unfoldable pub serial_usb_queue_file : Option (List ℕ) → SerialUsb → Option SerialUsb
serial_usb_queue_file none s = none
serial_usb_queue_file (some bytes) s = some (queue_bytes bytes s)
