-- ===== src/Cpu/Valid/Stack.antt =====
-- The stack functions, reset6502 and the pull of the status, of emulator/cpu_core.c, and the
-- validity of the machine.
use workbench.Common.{ℕ, ◌<◌, ◌^◌, refl, arith}
use workbench.Cpu.Flags.{constant}
use workbench.Cpu.State.{Machine, Hooks}
use workbench.Cpu.Valid.Status.{set_flag-IsStatus, pulled-IsStatus}
use workbench.Cpu.Valid.Defs.{
  IsValid, with_status, cpu_read-IsValid, cpu_read-lt, cpu_write-IsValid, read_word-IsValid,
  read_word-lt,
}
use workbench.Cpu.Stack.{push16, push8, pull16, pull8, reset6502}
use workbench.Cpu.Branch.{pull_status}

module _ {H : Type 0} where
  with_sp : (n : ℕ) (m : Machine H) → n < 256 → IsValid m → IsValid (record m { sp = n })
  with_sp n m h v = assumption (v, h)

module _ {H : Type 0} (hooks : Hooks H) where
  pub push8-IsValid : (n : ℕ) (m : Machine H) → IsValid m → IsValid (push8 hooks n m)
  unfolding push8
  push8-IsValid n m v = with_sp _ _ (omega arith) (cpu_write-IsValid hooks _ _ m v)

  pub push16-IsValid : (n : ℕ) (m : Machine H) → IsValid m → IsValid (push16 hooks n m)
  unfolding push16
  push16-IsValid n m v =
      with_sp _ _ (omega arith) (cpu_write-IsValid hooks _ _ _ (cpu_write-IsValid hooks _ _ m v))

  pub pull8-lt : (m : Machine H) → (pull8 hooks m).0 < 256
  unfolding pull8
  pull8-lt m = cpu_read-lt hooks _ _

  pub pull8-IsValid : (m : Machine H) → IsValid m → IsValid (pull8 hooks m).1
  unfolding pull8
  pull8-IsValid m v = cpu_read-IsValid hooks _ _ (with_sp _ m (omega arith) v)

  pub pull16-lt : (m : Machine H) → (pull16 hooks m).0 < 2 ^ 16
  unfolding pull16
  pull16-lt m = read_word-lt hooks _ _ m

  pub pull16-IsValid : (m : Machine H) → IsValid m → IsValid (pull16 hooks m).1
  unfolding pull16
  pull16-IsValid m v = with_sp _ _ (omega arith) (read_word-IsValid hooks _ _ m v)

  pub pull_status-IsValid : (m : Machine H) → IsValid m → IsValid (pull_status hooks m)
  unfolding pull_status
  pull_status-IsValid m v = with_status _ _ (pulled-IsStatus _ (pull8-lt m)) (pull8-IsValid m v)

  pub reset6502-IsValid : (m : Machine H) → IsValid m → IsValid (reset6502 hooks m)
  unfolding reset6502
  reset6502-IsValid m v =
      let w = read_word-IsValid hooks 0xfffc 0xfffd m v in
      assumption (
        w,
        read_word-lt hooks 0xfffc 0xfffd m,
        set_flag-IsStatus constant _ refl w.status_ok,
        zero_is_byte,
        fd_is_byte,
      )
    where
      zero_is_byte : 0 < 256
      zero_is_byte = omega arith

      fd_is_byte : 0xfd < 256
      fd_is_byte = omega arith
