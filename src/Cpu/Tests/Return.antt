-- ===== src/Cpu/Tests/Return.antt =====
-- A call, an interrupt and a BRK that return at once.
use workbench.Cpu.Branch.Return.Pull.{pull-push}
use workbench.Cpu.Transfer.{pha, phx, phy, php, pla, plx, ply, plp}
use workbench.Common.{ℕ, ◌≡◌, refl, true}
use workbench.Cpu.Flags.{has_flag, constant}
use workbench.Cpu.Branch.{jsr, rts, rti, brk_insn, brk_insn_65c02}
use workbench.Cpu.Branch.Return.{SameStack, rts-jsr}
use workbench.Cpu.Branch.Return.Rti.{rti-interrupt_to, rti-brk}
use workbench.Cpu.Run.{interrupt_to}
use workbench.Cpu.State.{Machine}
use workbench.Cpu.Tests.{
  Memory, flat_hooks, page_one, flat_hooks-IsStackMemory, store_program, start, start-IsValid,
}

-- A called routine that does nothing.
same_stack :
    (n : ℕ) (m : Machine Memory) → SameStack flat_hooks page_one flat_hooks-IsStackMemory n m m
same_stack n m = record { pointer = refl; bytes = λ k hk. refl }

start_constant : has_flag constant 0x20 ≡ true
unfolding has_flag
start_constant = refl

rts-jsr_example :
    ((rts flat_hooks (jsr flat_hooks (start store_program))).pc ≡ 0x200)
    × ((rts flat_hooks (jsr flat_hooks (start store_program))).sp ≡ 0xfd)
rts-jsr_example =
    rts-jsr flat_hooks page_one flat_hooks-IsStackMemory (start store_program)
      (jsr flat_hooks (start store_program)) start-IsValid
      (same_stack 2 (jsr flat_hooks (start store_program)))

abbrev interrupted : Machine Memory
interrupted = interrupt_to flat_hooks 0xfffe (start store_program)

rti-interrupt_to_example :
    ((rti flat_hooks interrupted).pc ≡ 0x200)
    × ((rti flat_hooks interrupted).status ≡ 0x20)
    × ((rti flat_hooks interrupted).sp ≡ 0xfd)
rti-interrupt_to_example =
    rti-interrupt_to flat_hooks page_one flat_hooks-IsStackMemory 0xfffe (start store_program)
      interrupted start-IsValid start_constant (same_stack 3 interrupted)

abbrev broken : Machine Memory
broken = brk_insn flat_hooks (start store_program)

abbrev broken_65c02 : Machine Memory
broken_65c02 = brk_insn_65c02 flat_hooks (start store_program)

rti-brk_example :
    (((rti flat_hooks broken).pc ≡ 0x201)
      × ((rti flat_hooks broken).status ≡ 0x20)
      × ((rti flat_hooks broken).sp ≡ 0xfd))
    × (((rti flat_hooks broken_65c02).pc ≡ 0x201)
        × ((rti flat_hooks broken_65c02).status ≡ 0x20)
        × ((rti flat_hooks broken_65c02).sp ≡ 0xfd))
rti-brk_example =
    rti-brk flat_hooks page_one flat_hooks-IsStackMemory (start store_program) broken broken_65c02
      start-IsValid start_constant (same_stack 3 broken) (same_stack 3 broken_65c02)

-- Each pull at once after its push.
pull-push_example :
    (((pla flat_hooks (pha flat_hooks (start store_program))).a ≡ 0)
      × ((pla flat_hooks (pha flat_hooks (start store_program))).sp ≡ 0xfd))
    × (((plx flat_hooks (phx flat_hooks (start store_program))).x ≡ 0)
        × ((plx flat_hooks (phx flat_hooks (start store_program))).sp ≡ 0xfd))
    × (((ply flat_hooks (phy flat_hooks (start store_program))).y ≡ 0)
        × ((ply flat_hooks (phy flat_hooks (start store_program))).sp ≡ 0xfd))
    × (((plp flat_hooks (php flat_hooks (start store_program))).status ≡ 0x20)
        × ((plp flat_hooks (php flat_hooks (start store_program))).sp ≡ 0xfd))
pull-push_example =
    pull-push flat_hooks page_one flat_hooks-IsStackMemory (start store_program)
      (pha flat_hooks (start store_program)) (phx flat_hooks (start store_program))
      (phy flat_hooks (start store_program)) (php flat_hooks (start store_program)) start-IsValid
      start_constant (same_stack 1 (pha flat_hooks (start store_program)))
      (same_stack 1 (phx flat_hooks (start store_program)))
      (same_stack 1 (phy flat_hooks (start store_program)))
      (same_stack 1 (php flat_hooks (start store_program)))
