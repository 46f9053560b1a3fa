-- ===== src/Keyboard/Queue.antt =====
-- The byte queues of the keyboard, struct ps2_byte_queue of
-- emulator/chips/ps2_keyboard_board.h, and queue_put and queue_take of ps2_keyboard_board.c.
use workbench.Common.{ℕ, ◌+◌, ◌-◌, ◌%◌, ◌==◌, Option, none, some, if◌then◌else◌}
use workbench.Chips.Memory.{Contents, store}

abbrev pub queue_size : ℕ
queue_size = 16384

-- The flag of a key's last byte.
abbrev pub last_of_key : ℕ
last_of_key = 0x100

pub record ByteQueue : Type 0 where
  pub entries : Contents
  pub head : ℕ
  pub count : ℕ

-- `none` is -1.
unfoldable pub queue_put : ℕ → ByteQueue → Option ByteQueue
queue_put entry q =
    if q.count == queue_size
    then none
    else some (record q {
      entries = store ((q.head + q.count) % queue_size) entry q.entries;
      count = q.count + 1;
    })

-- The entry, and the queue without it.
unfoldable pub queue_take : ByteQueue → ℕ × ByteQueue
queue_take q =
    (q.entries q.head, record q { head = (q.head + 1) % queue_size; count = q.count - 1 })

-- A put whose result is not looked at.
unfoldable pub kept : Option ByteQueue → ByteQueue → ByteQueue
kept none q = q
kept (some r) q = r
