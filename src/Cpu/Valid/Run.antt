-- ===== src/Cpu/Valid/Run.antt =====
-- The run functions of emulator/cpu_core.c and the validity of the machine.
use workbench.Common.{suc}
use workbench.Cpu.Run.{irq6502}
use workbench.Common.{repeat}
use workbench.Cpu.Run.{exec_goal}
use workbench.Cpu.Run.{nmi6502}
use workbench.Common.{
  ℕ, zero, suc, repeat, ◌+◌, ◌<◌, ◌^◌, refl, false, arith, u16, u32, Option, some, none,
}
use workbench.Cpu.State.{Machine, Hooks}
use workbench.Cpu.Flags.{constant, interrupt}
use workbench.Cpu.Tables.{ticktable}
use workbench.Cpu.Run.{
  cpu_select_tables, run_callback, fetch_opcode, charge, instruction, finish, step6502, exec_round,
  interrupt_to,
}
use workbench.Cpu.Valid.Status.{set_flag-IsStatus}
use workbench.Cpu.Valid.Defs.{
  IsValid, with_status, add_ticks-IsValid, if-IsValid, cpu_read-IsValid, cpu_read-lt,
  read_word-IsValid, read_word-lt,
}
use workbench.Cpu.Valid.Modes.{run_mode-IsValid}
use workbench.Cpu.Valid.Stack.{push8-IsValid, push16-IsValid}
use workbench.Cpu.Valid.Branch.{with_pc}
use workbench.Cpu.Valid.Dispatch.{run_op-IsValid}

-- The external callback, if there is one, keeps the machine valid.
abbrev pub LoopKeepsValid : {H : Type 0} → Option (Machine H → Machine H) → Type 0
LoopKeepsValid none = Unit {0}
LoopKeepsValid {H} (some loopexternal) = (m : Machine H) → IsValid m → IsValid (loopexternal m)

module _ {H : Type 0} where
  -- The counters that no instruction depends on may change.
  recounted :
      (goal count : ℕ) (m : Machine H)
      → goal < 2 ^ 64
      → count < 2 ^ 32
      → IsValid m
      → IsValid (record m { clockgoal = goal; instructions = count })
  recounted goal count m g k v = assumption (v, g, k)

  selected : (m : Machine H) → IsValid m → IsValid (cpu_select_tables m)
  unfolding cpu_select_tables
  selected m v = assumption v

module _ {H : Type 0} (hooks : Hooks H) where
  fetch_opcode-IsValid : (m : Machine H) → IsValid m → IsValid (fetch_opcode hooks m)
  unfolding fetch_opcode
  fetch_opcode-IsValid m v =
      let w = cpu_read-IsValid hooks m.pc m v in
      assumption
        (w, set_flag-IsStatus constant _ refl w.status_ok, cpu_read-lt hooks m.pc m, next_is_word)
    where
      next_is_word : u16 (m.pc + 1) < 2 ^ 16
      next_is_word = omega arith

  charge-IsValid : (m : Machine H) → IsValid m → IsValid (charge hooks m)
  unfolding charge
  charge-IsValid m v =
      let w = add_ticks-IsValid (ticktable m.tables m.opcode) m v in
      if-IsValid _ (add_ticks-IsValid 1 _ w) w

  instruction-IsValid : (m : Machine H) → IsValid m → IsValid (instruction hooks m)
  unfolding instruction
  instruction-IsValid m v =
      charge-IsValid _
        (run_op-IsValid hooks _ _ (run_mode-IsValid hooks _ _ (fetch_opcode-IsValid m v)))

  finish-IsValid :
      (m : Machine H) → LoopKeepsValid hooks.loopexternal → IsValid m → IsValid (finish hooks m)
  unfolding finish
  finish-IsValid m keeps v = called hooks.loopexternal keeps
    where
      called :
          (callback : Option (Machine H → Machine H))
          → LoopKeepsValid callback
          → IsValid (run_callback callback (record m { instructions = u32 (m.instructions + 1) }))
      called none k = recounted m.clockgoal _ m v.goal_word (omega arith) v
      called (some loopexternal) k = k _ (recounted m.clockgoal _ m v.goal_word (omega arith) v)

  step-IsValid :
      (m : Machine H) → LoopKeepsValid hooks.loopexternal → IsValid m → IsValid (step6502 hooks m)
  unfolding step6502
  step-IsValid m keeps v =
      let w = selected m v in
      let waited = add_ticks-IsValid 1 _ w in
      let run = instruction-IsValid _ w in
      if-IsValid _ (recounted _ _ _ waited.ticks_word waited.count_word waited)
        (finish-IsValid _ keeps (recounted _ _ _ run.ticks_word run.count_word run))

  pub exec_round-IsValid :
      (m : Machine H) → LoopKeepsValid hooks.loopexternal → IsValid m → IsValid (exec_round hooks m)
  unfolding exec_round
  exec_round-IsValid m keeps v =
      if-IsValid _ (add_ticks-IsValid 1 m v) (finish-IsValid _ keeps (instruction-IsValid m v))

  -- An NMI or an IRQ keeps the machine valid.
  pub interrupt_to-IsValid :
      (vector : ℕ) (m : Machine H) → IsValid m → IsValid (interrupt_to hooks vector m)
  unfolding interrupt_to
  interrupt_to-IsValid vector m v =
      let pushed = push8-IsValid hooks _ _ (push16-IsValid hooks _ _ (awake m v)) in
      let masked = with_status _ _ (set_flag-IsStatus interrupt _ refl pushed.status_ok) pushed in
      with_pc _ _ (read_word-lt hooks _ _ _) (read_word-IsValid hooks _ _ _ masked)
    where
      awake : (m : Machine H) → IsValid m → IsValid (record m { wai_pending = false })
      awake m v = assumption v

  rounds-IsValid :
      (n : ℕ) (m : Machine H)
      → LoopKeepsValid hooks.loopexternal
      → IsValid m
      → IsValid (repeat n (exec_round hooks) m)
  unfolding repeat
  rounds-IsValid zero m keeps v = v
  rounds-IsValid (suc n) m keeps v =
      rounds-IsValid n (exec_round hooks m) keeps (exec_round-IsValid m keeps v)

  exec_goal-IsValid : (tickcount : ℕ) (m : Machine H) → IsValid m → IsValid (exec_goal tickcount m)
  unfolding exec_goal
  exec_goal-IsValid tickcount m v =
      let w = selected m v in recounted _ _ _ (omega arith) w.count_word w

  -- The program counter, the registers, the operand address and offset, the opcode, the counts of
  -- ticks and instructions and the tick goal stay within their C types, and the break flag stays
  -- clear in the live status: over a step, over an NMI and an IRQ, and from the entry of exec6502
  -- over any number of rounds of its loop, for each opcode, both variants and any host, provided
  -- that an external callback, where one is hooked, keeps the machine valid too.
  pub step6502-IsValid :
      (m : Machine H)
      → LoopKeepsValid hooks.loopexternal
      → IsValid m
      → IsValid (step6502 hooks m)
        × IsValid (nmi6502 hooks m)
        × IsValid (irq6502 hooks m)
        × ((tickcount n : ℕ) → IsValid (repeat n (exec_round hooks) (exec_goal tickcount m)))
  unfolding nmi6502 irq6502
  step6502-IsValid m keeps v = (
    step-IsValid m keeps v,
    interrupt_to-IsValid 0xfffa m v,
    interrupt_to-IsValid 0xfffe m v,
    λ tickcount n. rounds-IsValid n _ keeps (exec_goal-IsValid tickcount m v),
  )
