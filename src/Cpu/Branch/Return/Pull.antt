-- ===== src/Cpu/Branch/Return/Pull.antt =====
-- The pull instructions of emulator/cpu_core.c against the pushes that they undo.
use workbench.Cpu.Branch.{pull8, pull_status}
use workbench.Common.{ap, ◌∙◌, ℕ, ◌+◌, ◌%◌, ◌<◌, ◌≡◌, true, arith}
use workbench.Cpu.Stack.Memory.{sp-push8, sp-pull8, IsStackMemory, peek-push8, pull8-value}
use workbench.Cpu.Valid.{IsValid}
use workbench.Cpu.Flags.{constant, break, has_flag, set_flag}
use workbench.Cpu.State.{Machine, Hooks}
use workbench.Cpu.Stack.{push8}
use workbench.Cpu.Branch.Return.{SameStack}
use workbench.Cpu.Branch.Return.Status.{restored_status, restored_status_lem, set_break-lt}
use workbench.Cpu.Transfer.{php, plp, pha, pla, phx, plx, phy, ply}

module _ {H : Type 0} (hooks : Hooks H) (peek : H → ℕ → ℕ) (memory : IsStackMemory hooks peek) where
  -- The top of the stack after a push, where `s` still has it.
  pushed :
      (v : ℕ) (m s : Machine H)
      → IsValid m
      → v < 256
      → SameStack hooks peek memory 1 (push8 hooks v m) s
      → (peek s.host ((s.sp + 1) % 256) ≡ v) × ((pull8 hooks s).1.sp ≡ m.sp)
  pushed v m s valid hv same = (
    ground (
      arith,
      same.pointer,
      same.bytes 0 (omega arith),
      sp-push8 hooks v m,
      peek-push8 hooks peek memory v (((push8 hooks v m).sp + 1 + 0) % 256) m,
      valid.sp_byte,
    ),
    omega (arith, same.pointer, sp-push8 hooks v m, sp-pull8 hooks s, valid.sp_byte),
  )

  -- PLA, PLX and PLY bring back what PHA, PHX and PHY pushed, and PLP the status that PHP pushed if
  -- the constant bit was set, where the stack is as the push left it; each brings the stack pointer
  -- back.
  pub pull-push :
      (m s t u w : Machine H)
      → IsValid m
      → has_flag constant m.status ≡ true
      → SameStack hooks peek memory 1 (pha hooks m) s
      → SameStack hooks peek memory 1 (phx hooks m) t
      → SameStack hooks peek memory 1 (phy hooks m) u
      → SameStack hooks peek memory 1 (php hooks m) w
      → (((pla hooks s).a ≡ m.a) × ((pla hooks s).sp ≡ m.sp))
        × (((plx hooks t).x ≡ m.x) × ((plx hooks t).sp ≡ m.sp))
        × (((ply hooks u).y ≡ m.y) × ((ply hooks u).sp ≡ m.sp))
        × (((plp hooks w).status ≡ m.status) × ((plp hooks w).sp ≡ m.sp))
  unfolding pha phx phy php pla plx ply plp pull_status restored_status
  pull-push m s t u w v set on_a on_x on_y on_p =
      let got_a = pushed m.a m s v v.a_byte on_a in
      let got_x = pushed m.x m t v v.x_byte on_x in
      let got_y = pushed m.y m u v v.y_byte on_y in
      let got_p =
        pushed (set_flag break m.status) m w v (set_break-lt m.status v.status_ok.byte) on_p in
      (
        (pull8-value hooks peek memory s ∙ got_a.0, got_a.1),
        (pull8-value hooks peek memory t ∙ got_x.0, got_x.1),
        (pull8-value hooks peek memory u ∙ got_y.0, got_y.1),
        (
          ap restored_status (pull8-value hooks peek memory w ∙ got_p.0)
              ∙ (restored_status_lem m.status v.status_ok set).1,
          got_p.1,
        ),
      )
