-- ===== src/Cpu/Valid/Branch.antt =====
-- The branches, jumps, calls and returns of emulator/cpu_core.c and the validity of the machine.
use workbench.Common.{ℕ, ◌<◌, ◌^◌, refl, Bool, arith}
use workbench.Cpu.State.{Machine, Hooks}
use workbench.Cpu.Flags.{interrupt, decimal}
use workbench.Cpu.Branch
use workbench.Cpu.Branch.{branch_by, branch_if, brk_push, irq_vector, sign_extend}
use workbench.Cpu.Valid.Status.{set_flag-IsStatus, clear_flag-IsStatus}
use workbench.Cpu.Valid.Defs.{
  IsValid, with_status, add_ticks-IsValid, if-IsValid, cpu_read-IsValid, read_word-IsValid,
  read_word-lt,
}
use workbench.Cpu.Valid.Modes.{fetch-IsValid}
use workbench.Cpu.Valid.Stack.{
  push8-IsValid, push16-IsValid, pull16-IsValid, pull16-lt, pull_status-IsValid,
}

module _ {H : Type 0} where
  pub with_pc : (n : ℕ) (m : Machine H) → n < 2 ^ 16 → IsValid m → IsValid (record m { pc = n })
  with_pc n m h v = assumption (v, h)

  branch_by-IsValid : (n : ℕ) (m : Machine H) → IsValid m → IsValid (branch_by n m)
  unfolding branch_by
  branch_by-IsValid n m v = add_ticks-IsValid _ _ (with_pc _ m (omega arith) v)

  branch_if-IsValid : (c : Bool) (m : Machine H) → IsValid m → IsValid (branch_if c m)
  unfolding branch_if
  branch_if-IsValid c m v = if-IsValid c (branch_by-IsValid _ m v) v

  pub bcc-IsValid : (m : Machine H) → IsValid m → IsValid (Branch.bcc m)
  unfolding Branch.bcc
  bcc-IsValid m v = branch_if-IsValid _ m v

  pub bcs-IsValid : (m : Machine H) → IsValid m → IsValid (Branch.bcs m)
  unfolding Branch.bcs
  bcs-IsValid m v = branch_if-IsValid _ m v

  pub bne-IsValid : (m : Machine H) → IsValid m → IsValid (Branch.bne m)
  unfolding Branch.bne
  bne-IsValid m v = branch_if-IsValid _ m v

  pub beq-IsValid : (m : Machine H) → IsValid m → IsValid (Branch.beq m)
  unfolding Branch.beq
  beq-IsValid m v = branch_if-IsValid _ m v

  pub bpl-IsValid : (m : Machine H) → IsValid m → IsValid (Branch.bpl m)
  unfolding Branch.bpl
  bpl-IsValid m v = branch_if-IsValid _ m v

  pub bmi-IsValid : (m : Machine H) → IsValid m → IsValid (Branch.bmi m)
  unfolding Branch.bmi
  bmi-IsValid m v = branch_if-IsValid _ m v

  pub bvc-IsValid : (m : Machine H) → IsValid m → IsValid (Branch.bvc m)
  unfolding Branch.bvc
  bvc-IsValid m v = branch_if-IsValid _ m v

  pub bvs-IsValid : (m : Machine H) → IsValid m → IsValid (Branch.bvs m)
  unfolding Branch.bvs
  bvs-IsValid m v = branch_if-IsValid _ m v

  pub bra-IsValid : (m : Machine H) → IsValid m → IsValid (Branch.bra m)
  unfolding Branch.bra
  bra-IsValid m v = branch_by-IsValid _ m v

  pub jmp-IsValid : (m : Machine H) → IsValid m → IsValid (Branch.jmp m)
  unfolding Branch.jmp
  jmp-IsValid m v = with_pc _ m v.ea_word v

module _ {H : Type 0} (hooks : Hooks H) where
  pub bbr-IsValid : (m : Machine H) → IsValid m → IsValid (Branch.bbr hooks m)
  unfolding Branch.bbr
  bbr-IsValid m v =
      let w = cpu_read-IsValid hooks _ _ (fetch-IsValid hooks m v) in
      if-IsValid _ (branch_by-IsValid _ _ w) w

  pub bbs-IsValid : (m : Machine H) → IsValid m → IsValid (Branch.bbs hooks m)
  unfolding Branch.bbs
  bbs-IsValid m v =
      let w = cpu_read-IsValid hooks _ _ (fetch-IsValid hooks m v) in
      if-IsValid _ w (branch_by-IsValid _ _ w)

  pub jsr-IsValid : (m : Machine H) → IsValid m → IsValid (Branch.jsr hooks m)
  unfolding Branch.jsr
  jsr-IsValid m v = let w = push16-IsValid hooks _ m v in with_pc _ _ w.ea_word w

  pub rts-IsValid : (m : Machine H) → IsValid m → IsValid (Branch.rts hooks m)
  unfolding Branch.rts
  rts-IsValid m v = with_pc _ _ (omega arith) (pull16-IsValid hooks m v)

  pub rti-IsValid : (m : Machine H) → IsValid m → IsValid (Branch.rti hooks m)
  unfolding Branch.rti
  rti-IsValid m v =
      with_pc _ _ (pull16-lt hooks _) (pull16-IsValid hooks _ (pull_status-IsValid hooks m v))

  brk_push-IsValid : (m : Machine H) → IsValid m → IsValid (brk_push hooks m)
  unfolding brk_push
  brk_push-IsValid m v =
      push8-IsValid hooks _ _ (push16-IsValid hooks _ _ (with_pc _ m (omega arith) v))

  irq_vector-IsValid : (m : Machine H) → IsValid m → IsValid (irq_vector hooks m)
  unfolding irq_vector
  irq_vector-IsValid m v = with_pc _ _ (read_word-lt hooks _ _ m) (read_word-IsValid hooks _ _ m v)

  pub brk_insn-IsValid : (m : Machine H) → IsValid m → IsValid (Branch.brk_insn hooks m)
  unfolding Branch.brk_insn
  brk_insn-IsValid m v =
      let w = brk_push-IsValid m v in
      irq_vector-IsValid _ (with_status _ _ (set_flag-IsStatus interrupt _ refl w.status_ok) w)

  pub brk_insn_65c02-IsValid : (m : Machine H) → IsValid m → IsValid (Branch.brk_insn_65c02 hooks m)
  unfolding Branch.brk_insn_65c02
  brk_insn_65c02-IsValid m v =
      let w = brk_push-IsValid m v in
      irq_vector-IsValid _ (
        with_status _ _
          (clear_flag-IsStatus decimal _ refl (set_flag-IsStatus interrupt _ refl w.status_ok)) w)
