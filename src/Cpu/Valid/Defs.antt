-- ===== src/Cpu/Valid/Defs.antt =====
-- The invariant, and the memory and operand accesses that every handler is made of.
use workbench.Common.{
  ℕ, ◌<◌, ◌^◌, Bool, true, false, arith, if◌then◌else◌, true, false, bit_and, bit_or-lt,
}
use workbench.Cpu.Valid.Status.{IsStatus}
use workbench.Cpu.State.{Machine, Hooks, cpu_read, cpu_write, host_read-lt}
use workbench.Cpu.Access.{add_ticks, read_word, getvalue, putvalue}

pub record IsValid {H : Type 0} (m : Machine H) : Type 0 where
  pub pc_word : m.pc < 2 ^ 16
  pub sp_byte : m.sp < 256
  pub a_byte : m.a < 256
  pub x_byte : m.x < 256
  pub y_byte : m.y < 256
  pub status_ok : IsStatus m.status
  pub opcode_byte : m.opcode < 256
  pub ea_word : m.ea < 2 ^ 16
  pub reladdr_word : m.reladdr < 2 ^ 16
  pub ticks_word : m.clockticks < 2 ^ 64
  pub goal_word : m.clockgoal < 2 ^ 64
  pub count_word : m.instructions < 2 ^ 32

module _ {H : Type 0} where
  pub with_status :
      (s : ℕ) (m : Machine H) → IsStatus s → IsValid m → IsValid (record m { status = s })
  with_status s m ok v = assumption (v, ok)

  pub add_ticks-IsValid : (n : ℕ) (m : Machine H) → IsValid m → IsValid (add_ticks n m)
  unfolding add_ticks
  add_ticks-IsValid n m v = ground (arith, v)

  pub if-IsValid :
      (c : Bool) {s t : Machine H} → IsValid s → IsValid t → IsValid (if c then s else t)
  if-IsValid true v w = v
  if-IsValid false v w = w

  -- Marking the operation as one that pays for a page crossing.
  pub paying : (m : Machine H) → IsValid m → IsValid (record m { penaltyop = true })
  paying m v = assumption v

  pub with_a :
      (n s : ℕ) (m : Machine H)
      → n < 256
      → IsStatus s
      → IsValid m
      → IsValid (record m { a = n; status = s })
  with_a n s m h ok v = assumption (v, ok, h)

  pub with_x :
      (n s : ℕ) (m : Machine H)
      → n < 256
      → IsStatus s
      → IsValid m
      → IsValid (record m { x = n; status = s })
  with_x n s m h ok v = assumption (v, ok, h)

  pub with_y :
      (n s : ℕ) (m : Machine H)
      → n < 256
      → IsStatus s
      → IsValid m
      → IsValid (record m { y = n; status = s })
  with_y n s m h ok v = assumption (v, ok, h)

module _ {H : Type 0} (hooks : Hooks H) where
  pub cpu_read-IsValid : (addr : ℕ) (m : Machine H) → IsValid m → IsValid (cpu_read hooks addr m).1
  unfolding cpu_read
  cpu_read-IsValid addr m v = record {
    pc_word = v.pc_word;
    sp_byte = v.sp_byte;
    a_byte = v.a_byte;
    x_byte = v.x_byte;
    y_byte = v.y_byte;
    status_ok = v.status_ok;
    opcode_byte = v.opcode_byte;
    ea_word = v.ea_word;
    reladdr_word = v.reladdr_word;
    ticks_word = v.ticks_word;
    goal_word = v.goal_word;
    count_word = v.count_word;
  }

  pub cpu_write-IsValid :
      (addr w : ℕ) (m : Machine H) → IsValid m → IsValid (cpu_write hooks addr w m)
  unfolding cpu_write
  cpu_write-IsValid addr w m v = assumption v

  pub cpu_read-lt : (addr : ℕ) (m : Machine H) → (cpu_read hooks addr m).0 < 256
  unfolding cpu_read
  cpu_read-lt addr m = host_read-lt hooks _ m.host

  pub getvalue-lt : (m : Machine H) → IsValid m → (getvalue hooks m).0 < 256
  unfolding getvalue
  getvalue-lt m v = ground (arith, cpu_read-lt m.ea m)

  pub getvalue-IsValid : (m : Machine H) → IsValid m → IsValid (getvalue hooks m).1
  unfolding getvalue
  getvalue-IsValid m v = ground (arith, cpu_read-IsValid m.ea m v)

  pub putvalue-IsValid : (w : ℕ) (m : Machine H) → IsValid m → IsValid (putvalue hooks w m)
  unfolding putvalue
  putvalue-IsValid w m v = ground (arith, cpu_write-IsValid m.ea (bit_and w 0x00ff) m v)

  pub read_word-lt : (lo hi : ℕ) (m : Machine H) → (read_word hooks lo hi m).0 < 2 ^ 16
  unfolding read_word
  read_word-lt lo hi m =
      bit_or-lt 16 (cpu_read hooks lo m).0 _ (omega (arith, cpu_read-lt lo m))
        (omega (arith, cpu_read-lt hi (cpu_read hooks lo m).1))

  pub read_word-IsValid :
      (lo hi : ℕ) (m : Machine H) → IsValid m → IsValid (read_word hooks lo hi m).1
  unfolding read_word
  read_word-IsValid lo hi m v = cpu_read-IsValid hi _ (cpu_read-IsValid lo m v)

  -- The operand is read, and the operation marked.
  pub paid_value-IsValid :
      (m : Machine H) → IsValid m → IsValid (getvalue hooks (record m { penaltyop = true })).1
  paid_value-IsValid m v = getvalue-IsValid _ (paying m v)
