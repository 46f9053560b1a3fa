-- ===== src/Cpu/Valid/Logic.antt =====
-- The logic, shift, increment and bit handlers of emulator/cpu_core.c and the validity of the
-- machine.
use workbench.Common.{ℕ, ◌<◌, refl, arith}
use workbench.Cpu.Flags.{carry, zero}
use workbench.Cpu.State.{Machine, Hooks}
use workbench.Cpu.Access.{nz_calc, putvalue}
use workbench.Cpu.Valid.Status.{
  IsStatus, put_flag-IsStatus, nz_calc-IsStatus, zero_calc-IsStatus, carry_calc-IsStatus,
  bit_flags-IsStatus,
}
use workbench.Cpu.Valid.Defs.{
  IsValid, with_status, with_a, with_x, with_y, paid_value-IsValid, getvalue-IsValid,
  putvalue-IsValid, cpu_read-IsValid, cpu_write-IsValid,
}
use workbench.Cpu.Logic
use workbench.Cpu.Logic.{save_result, opcode_bit}

module _ {H : Type 0} where
  save_result-IsValid : (r : ℕ) (m : Machine H) → IsValid m → IsValid (save_result r m)
  unfolding save_result
  save_result-IsValid r m v = with_a _ _ m (omega arith) (nz_calc-IsStatus r m.status v.status_ok) v

  -- A new `x` or `y` with its flags.
  new_x :
      (n : ℕ) (m : Machine H)
      → n < 256
      → IsValid m
      → IsValid (record m { x = n; status = nz_calc n m.status })
  new_x n m h v = with_x _ _ m h (nz_calc-IsStatus n m.status v.status_ok) v

  new_y :
      (n : ℕ) (m : Machine H)
      → n < 256
      → IsValid m
      → IsValid (record m { y = n; status = nz_calc n m.status })
  new_y n m h v = with_y _ _ m h (nz_calc-IsStatus n m.status v.status_ok) v

  pub inx-IsValid : (m : Machine H) → IsValid m → IsValid (Logic.inx m)
  unfolding Logic.inx
  inx-IsValid m v = new_x _ m (omega arith) v

  pub iny-IsValid : (m : Machine H) → IsValid m → IsValid (Logic.iny m)
  unfolding Logic.iny
  iny-IsValid m v = new_y _ m (omega arith) v

  pub dex-IsValid : (m : Machine H) → IsValid m → IsValid (Logic.dex m)
  unfolding Logic.dex
  dex-IsValid m v = new_x _ m (omega arith) v

  pub dey-IsValid : (m : Machine H) → IsValid m → IsValid (Logic.dey m)
  unfolding Logic.dey
  dey-IsValid m v = new_y _ m (omega arith) v

module _ {H : Type 0} (hooks : Hooks H) where
  pub and-IsValid : (m : Machine H) → IsValid m → IsValid (Logic.and hooks m)
  unfolding Logic.and
  and-IsValid m v = save_result-IsValid _ _ (paid_value-IsValid hooks m v)

  pub ora-IsValid : (m : Machine H) → IsValid m → IsValid (Logic.ora hooks m)
  unfolding Logic.ora
  ora-IsValid m v = save_result-IsValid _ _ (paid_value-IsValid hooks m v)

  pub eor-IsValid : (m : Machine H) → IsValid m → IsValid (Logic.eor hooks m)
  unfolding Logic.eor
  eor-IsValid m v = save_result-IsValid _ _ (paid_value-IsValid hooks m v)

  -- A result is stored after its flags, which begin from those in `s`.
  stored-IsValid :
      (r s : ℕ) (m : Machine H)
      → IsStatus s
      → IsValid m
      → IsValid (putvalue hooks r (record m { status = s }))
  stored-IsValid r s m ok v = putvalue-IsValid hooks r _ (with_status s m ok v)

  pub asl-IsValid : (m : Machine H) → IsValid m → IsValid (Logic.asl hooks m)
  unfolding Logic.asl
  asl-IsValid m v =
      let w = getvalue-IsValid hooks m v in
      stored-IsValid _ _ _ (nz_calc-IsStatus _ _ (carry_calc-IsStatus _ _ w.status_ok)) w

  pub rol-IsValid : (m : Machine H) → IsValid m → IsValid (Logic.rol hooks m)
  unfolding Logic.rol
  rol-IsValid m v =
      let w = getvalue-IsValid hooks m v in
      stored-IsValid _ _ _ (nz_calc-IsStatus _ _ (carry_calc-IsStatus _ _ w.status_ok)) w

  pub lsr-IsValid : (m : Machine H) → IsValid m → IsValid (Logic.lsr hooks m)
  unfolding Logic.lsr
  lsr-IsValid m v =
      let w = getvalue-IsValid hooks m v in
      stored-IsValid _ _ _ (nz_calc-IsStatus _ _ (put_flag-IsStatus carry _ _ refl w.status_ok)) w

  pub ror-IsValid : (m : Machine H) → IsValid m → IsValid (Logic.ror hooks m)
  unfolding Logic.ror
  ror-IsValid m v =
      let w = getvalue-IsValid hooks m v in
      stored-IsValid _ _ _ (nz_calc-IsStatus _ _ (put_flag-IsStatus carry _ _ refl w.status_ok)) w

  pub inc-IsValid : (m : Machine H) → IsValid m → IsValid (Logic.inc hooks m)
  unfolding Logic.inc
  inc-IsValid m v =
      let w = getvalue-IsValid hooks m v in
      stored-IsValid _ _ _ (nz_calc-IsStatus _ _ w.status_ok) w

  pub dec-IsValid : (m : Machine H) → IsValid m → IsValid (Logic.dec hooks m)
  unfolding Logic.dec
  dec-IsValid m v =
      let w = getvalue-IsValid hooks m v in
      stored-IsValid _ _ _ (nz_calc-IsStatus _ _ w.status_ok) w

  pub trb-IsValid : (m : Machine H) → IsValid m → IsValid (Logic.trb hooks m)
  unfolding Logic.trb
  trb-IsValid m v =
      let w = getvalue-IsValid hooks m v in
      stored-IsValid _ _ _ (put_flag-IsStatus zero _ _ refl w.status_ok) w

  pub tsb-IsValid : (m : Machine H) → IsValid m → IsValid (Logic.tsb hooks m)
  unfolding Logic.tsb
  tsb-IsValid m v =
      let w = getvalue-IsValid hooks m v in
      stored-IsValid _ _ _ (put_flag-IsStatus zero _ _ refl w.status_ok) w

  pub bit-IsValid : (m : Machine H) → IsValid m → IsValid (Logic.bit hooks m)
  unfolding Logic.bit
  bit-IsValid m v =
      let w = getvalue-IsValid hooks m v in
      with_status _ _ (bit_flags-IsStatus _ _ (zero_calc-IsStatus _ _ w.status_ok)) w

  pub bit_imm-IsValid : (m : Machine H) → IsValid m → IsValid (Logic.bit_imm hooks m)
  unfolding Logic.bit_imm
  bit_imm-IsValid m v =
      let w = getvalue-IsValid hooks m v in with_status _ _ (zero_calc-IsStatus _ _ w.status_ok) w

  pub rmb-IsValid : (m : Machine H) → IsValid m → IsValid (Logic.rmb hooks m)
  unfolding Logic.rmb
  rmb-IsValid m v = cpu_write-IsValid hooks _ _ _ (cpu_read-IsValid hooks m.ea m v)

  pub smb-IsValid : (m : Machine H) → IsValid m → IsValid (Logic.smb hooks m)
  unfolding Logic.smb
  smb-IsValid m v = cpu_write-IsValid hooks _ _ _ (cpu_read-IsValid hooks m.ea m v)
