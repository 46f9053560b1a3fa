-- ===== src/Cpu/Chip/Cycles.antt =====
-- The cycles that emulator/chips/cpu_65c02.c owes, and the interrupts that it holds back.
use workbench.Common.{
  ℕ, zero, suc, ◌-◌, ◌≤◌, ◌≡◌, refl, ap, ◌∙◌, Bool, true, false, ◌==◌, ◌&&◌, ◌||◌, not, nonzero,
  bit_and, ltb, repeat, arith, Bool-cases, inl, inr,
}
use workbench.Bus.{Bus}
use workbench.Cpu.State.{Machine, Hooks}
use workbench.Cpu.Run.{cpu_clear_wai}
use workbench.Cpu.Chip.{
  Rig, Wired, bus, sample_res, sample_nmi, sample_irq, run_cycle, set_due, cpu_65c02_tick,
}

blocked :
    (mask : Bool) (owed : ℕ) → (mask || nonzero owed) ≡ true → ((owed == 0) && not mask) ≡ false
blocked mask owed h = ground arith

module _ {H : Type 0} (hooks : Hooks H) (wired : Wired H) where
  -- While RES and NMI are low and no cycle is due, an IRQ that is masked, or that comes within an
  -- instruction, changes nothing in the core but that it ends a WAI.
  pub tick-held :
      (r : Rig H)
      → nonzero (bus wired r).res ≡ false
      → nonzero (bus wired r).nmi ≡ false
      → nonzero (bus wired r).irq ≡ true
      → nonzero (bus wired r).cpu_cycle_due ≡ false
      → (nonzero (bit_and r.core.status 0x04) || nonzero r.chip.cycles_owed) ≡ true
      → (cpu_65c02_tick hooks wired r).core ≡ record r.core { wai_pending = false }
  unfolding cpu_65c02_tick sample_res sample_nmi sample_irq cpu_clear_wai
  tick-held r res nmi irq due held =
      let still = blocked (nonzero (bit_and r.core.status 0x04)) r.chip.cycles_owed held in
      elim (Bool-cases r.core.wai_pending) [
        | inl h ↦ simp (res, nmi, irq, due, h, still) refl
        | inr h ↦
            simp (res, nmi, irq, due, h, still)
              (ap (λ (w : Bool). record r.core { wai_pending = w }) h)
      ]

  -- RES, NMI and IRQ low.
  pub record Quiet (r : Rig H) : Type 0 where
    pub res : (bus wired r).res ≡ 0
    pub nmi : (bus wired r).nmi ≡ 0
    pub irq : (bus wired r).irq ≡ 0

  -- What the next CPU cycle does.
  abbrev pub next_cycle : Rig H → Rig H
  next_cycle r = cpu_65c02_tick hooks wired (set_due wired 1 r)

  -- The core but for the lines in the host's state.
  abbrev pub registers : H → Rig H → Machine H
  registers h r = record r.core { host = h }

  record Owed (r q : Rig H) (n : ℕ) (h : H) : Type 0 where
    left : q.chip.cycles_owed ≡ n
    idle : registers h q ≡ registers h r
    quiet : Quiet q

  module _ (kept : (b : Bus) (h : H) → wired.lines (wired.drive b h) ≡ b) where
    next_cycle-Owed :
        (n : ℕ) (r : Rig H) (h : H)
        → Quiet r
        → r.chip.cycles_owed ≡ suc n
        → Owed r (next_cycle r) n h
    unfolding cpu_65c02_tick sample_res sample_nmi sample_irq run_cycle
    next_cycle-Owed n r h quiet owed =
        simp (kept, quiet.res, quiet.nmi, quiet.irq, owed, positive, before)
          (record {
            left = refl;
            idle = refl;
            quiet = record { res = simp kept refl; nmi = simp kept refl; irq = simp kept refl };
          })
      where
        positive : ltb 0 (suc n) ≡ true
        positive = ground arith

        before : suc n - 1 ≡ n
        before = omega arith

    -- With RES, NMI and IRQ low, the next `n` CPU cycles after an instruction that owes at least
    -- `n` pass without any change in the core, and are no longer owed.
    pub repeat-owed :
        (n k : ℕ) (r : Rig H) (h : H)
        → Quiet r
        → r.chip.cycles_owed ≡ k
        → n ≤ k
        → ((repeat n next_cycle r).chip.cycles_owed ≡ k - n)
          × (registers h (repeat n next_cycle r) ≡ registers h r)
    unfolding repeat
    repeat-owed zero k r h quiet owed le = (owed ∙ omega arith, refl)
    repeat-owed (suc n) zero r h quiet owed le = absurd (omega arith)
    repeat-owed (suc n) (suc k) r h quiet owed le =
        let q = next_cycle-Owed k r h quiet owed in
        let rest = repeat-owed n k (next_cycle r) h q.quiet q.left (omega arith) in
        (rest.0 ∙ omega arith, rest.1 ∙ q.idle)
