-- ===== src/Cpu/Branch/Return/Rti.antt =====
-- RTI of emulator/cpu_core.c against the interrupts and BRK that it ends.
use workbench.Common.{
  ap, ◌∙◌, ℕ, ◌+◌, ◌*◌, ◌/◌, ◌%◌, ◌<◌, ◌≡◌, true, false, ◌==◌, arith, u16, if◌then◌else◌,
}
use workbench.Cpu.Branch.{irq_vector, brk_push, rti, pull_status, brk_insn, brk_insn_65c02}
use workbench.Cpu.Stack.Memory.{
  peek-read_word, sp-push8, sp-read_word, status-push16, sp-pull8, status-pull16, sp-pull16,
  sp-push16, IsStackMemory, peek-push8, peek-push16, pull8-value, peek-pull8, pull16-value,
}
use workbench.Cpu.Valid.{IsValid}
use workbench.Cpu.Flags.{constant, break, has_flag, set_flag}
use workbench.Cpu.State.{Machine, Hooks}
use workbench.Cpu.Stack.{push16, push8}
use workbench.Cpu.Run.{interrupt_to}
use workbench.Cpu.Branch.Return.{SameStack}
use workbench.Cpu.Branch.Return.Status.{restored_status, restored_status_lem, set_break-lt}

module _ {H : Type 0} (hooks : Hooks H) (peek : H → ℕ → ℕ) (memory : IsStackMemory hooks peek) where
  -- What RTI takes from the stack of `s`.
  rti_lem :
      (s : Machine H)
      → s.sp < 256
      → ((rti hooks s).status ≡ restored_status (peek s.host ((s.sp + 1) % 256)))
        × ((rti hooks s).pc ≡ peek s.host ((s.sp + 2) % 256) + 256 * peek s.host ((s.sp + 3) % 256))
        × ((rti hooks s).sp ≡ (s.sp + 3) % 256)
  unfolding rti pull_status restored_status
  rti_lem s hs =
      let t = pull_status hooks s in
      let status_byte = pull8-value hooks peek memory s in
      (
        status-pull16 hooks t ∙ rw status_byte,
        ground (
          arith,
          pull16-value hooks peek memory t,
          sp-pull8 hooks s,
          peek-pull8 hooks peek memory ((t.sp + 1) % 256) s,
          peek-pull8 hooks peek memory ((t.sp + 2) % 256) s,
        ),
        omega (arith, sp-pull16 hooks t, sp-pull8 hooks s),
      )

  -- What a push of `pc` and of a status leaves on the stack.
  peek-pushed :
      (pc status j : ℕ) (m : Machine H)
      → m.sp < 256
      → pc < 65536
      → status < 256
      → j < 256
      → peek (push8 hooks status (push16 hooks pc m)).host j ≡ (
          if (m.sp + 254) % 256 == j
          then status
          else if (m.sp + 255) % 256 == j
          then pc % 256
          else if m.sp == j
          then pc / 256
          else peek m.host j)
  peek-pushed pc status j m hs hp hv hj = ground (
    arith,
    peek-push8 hooks peek memory status j (push16 hooks pc m),
    sp-push16 hooks pc m,
    peek-push16 hooks peek memory pc j m,
  )

  -- A handler that leaves the three pushed bytes in place comes back to where it was entered.
  back_from :
      (pc status : ℕ) (m t s : Machine H)
      → m.sp < 256
      → pc < 65536
      → status < 256
      → t.sp ≡ (m.sp + 253) % 256
      → ((j : ℕ) → j < 256 → peek t.host j ≡ peek (push8 hooks status (push16 hooks pc m)).host j)
      → SameStack hooks peek memory 3 t s
      → ((rti hooks s).pc ≡ pc)
        × ((rti hooks s).status ≡ restored_status status)
        × ((rti hooks s).sp ≡ m.sp)
  back_from pc status m t s hs hp hv sp_t host_t same = (
    ground (
      arith,
      frame.1,
      slot 1 (omega arith),
      slot 2 (omega arith),
      peek-pushed pc status ((m.sp + 255) % 256) m,
      peek-pushed pc status ((m.sp + 256) % 256) m,
    ),
    frame.0
        ∙ ap restored_status
            (ground (arith, slot 0 (omega arith), peek-pushed pc status ((m.sp + 254) % 256) m)),
    omega (arith, frame.2, same.pointer),
  )
    where
      frame :
          ((rti hooks s).status ≡ restored_status (peek s.host ((s.sp + 1) % 256)))
          × ((rti hooks s).pc
              ≡ peek s.host ((s.sp + 2) % 256) + 256 * peek s.host ((s.sp + 3) % 256))
          × ((rti hooks s).sp ≡ (s.sp + 3) % 256)
      frame = rti_lem s (omega (arith, same.pointer))

      slot :
          (k : ℕ)
          → k < 3
          → peek s.host ((s.sp + 1 + k) % 256)
            ≡ peek (push8 hooks status (push16 hooks pc m)).host ((m.sp + 254 + k) % 256)
      slot k hk = ground (arith, same.pointer, same.bytes k hk, host_t ((m.sp + 254 + k) % 256))

  -- An NMI or an IRQ whose handler comes to its RTI with the stack pointer and the three pushed
  -- bytes as it found them returns to the interrupted point with status and pointer restored, if
  -- the constant bit was set, as it is from the first instruction on.
  pub rti-interrupt_to :
      (vector : ℕ) (m s : Machine H)
      → IsValid m
      → has_flag constant m.status ≡ true
      → SameStack hooks peek memory 3 (interrupt_to hooks vector m) s
      → ((rti hooks s).pc ≡ m.pc) × ((rti hooks s).status ≡ m.status) × ((rti hooks s).sp ≡ m.sp)
  unfolding interrupt_to
  rti-interrupt_to vector m s v set same =
      let m1 : Machine H = record m { wai_pending = false } in
      let p = push16 hooks m.pc m1 in
      let status_p = status-push16 hooks m.pc m1 in
      let back =
        back_from m.pc p.status m1 (interrupt_to hooks vector m) s v.sp_byte v.pc_word
          (rw status_p v.status_ok.byte)
          (sp-read_word hooks vector (vector + 1) _
            ∙ omega (arith, sp-push8 hooks p.status p, sp-push16 hooks m.pc m1))
          (λ j hj. peek-read_word hooks peek memory vector (vector + 1) j _ hj) same in
      (
        back.0,
        back.1 ∙ ap restored_status status_p ∙ (restored_status_lem m.status v.status_ok set).0,
        back.2,
      )

  brk_push-sp : (m : Machine H) → (brk_push hooks m).sp ≡ (m.sp + 253) % 256
  unfolding brk_push
  brk_push-sp m =
      let m1 : Machine H = record m { pc = u16 (m.pc + 1) } in
      let m2 = push16 hooks m1.pc m1 in
      omega (arith, sp-push16 hooks m1.pc m1, sp-push8 hooks (set_flag break m2.status) m2)

  -- The common end of both variants, from a machine `u` with the pointer and the page of the push.
  rti_from_brk :
      (m u s : Machine H)
      → IsValid m
      → has_flag constant m.status ≡ true
      → u.sp ≡ (m.sp + 253) % 256
      → ((j : ℕ) → j < 256 → peek u.host j ≡ peek (brk_push hooks m).host j)
      → SameStack hooks peek memory 3 u s
      → ((rti hooks s).pc ≡ (m.pc + 1) % 65536)
        × ((rti hooks s).status ≡ m.status)
        × ((rti hooks s).sp ≡ m.sp)
  unfolding brk_push
  rti_from_brk m u s v set sp_u host_u same =
      let m1 : Machine H = record m { pc = u16 (m.pc + 1) } in
      let p = push16 hooks m1.pc m1 in
      let status_p = ap (set_flag break) (status-push16 hooks m1.pc m1) in
      let back =
        back_from m1.pc (set_flag break p.status) m1 u s v.sp_byte (omega arith)
          (rw status_p (set_break-lt m.status v.status_ok.byte)) sp_u host_u same in
      (
        back.0,
        back.1 ∙ ap restored_status status_p ∙ (restored_status_lem m.status v.status_ok set).1,
        back.2,
      )

  -- A BRK whose handler comes to its RTI with the stack pointer and the three pushed bytes as it
  -- found them returns behind the padding byte that follows the opcode, with status and pointer
  -- restored, if the constant bit was set; on both variants.
  pub rti-brk :
      (m s t : Machine H)
      → IsValid m
      → has_flag constant m.status ≡ true
      → SameStack hooks peek memory 3 (brk_insn hooks m) s
      → SameStack hooks peek memory 3 (brk_insn_65c02 hooks m) t
      → (((rti hooks s).pc ≡ (m.pc + 1) % 65536)
          × ((rti hooks s).status ≡ m.status)
          × ((rti hooks s).sp ≡ m.sp))
        × (((rti hooks t).pc ≡ (m.pc + 1) % 65536)
            × ((rti hooks t).status ≡ m.status)
            × ((rti hooks t).sp ≡ m.sp))
  unfolding brk_insn brk_insn_65c02 irq_vector
  rti-brk m s t v set same_s same_t = (
    rti_from_brk m _ s v set (sp-read_word hooks 0xfffe 0xffff _ ∙ brk_push-sp m)
        (λ j hj. peek-read_word hooks peek memory 0xfffe 0xffff j _ hj) same_s,
    rti_from_brk m _ t v set (sp-read_word hooks 0xfffe 0xffff _ ∙ brk_push-sp m)
        (λ j hj. peek-read_word hooks peek memory 0xfffe 0xffff j _ hj) same_t,
  )
