-- ===== src/Cpu/Stack/Memory.antt =====
-- What the stack functions do to a host whose page one is memory, as it is on every board.
use workbench.Common.{
  ◌>>>◌, ◌∙◌, ℕ, ◌+◌, ◌-◌, ◌*◌, ◌/◌, ◌%◌, ◌<◌, ◌≡◌, refl, ◌==◌, arith, u8, u16, if◌then◌else◌,
  bit_and_ff, bit_or_fields, bit_or_comm, bit_and,
}
use workbench.Cpu.Stack.{base_stack, push16, push8, pull16, pull8}
use workbench.Cpu.State.{Machine, Hooks, host_read, host_write, host_read-lt, cpu_read, cpu_write}
use workbench.Cpu.Access.{read_word}

-- The bytes of page one, by their offset, behave as memory: a read returns the byte and changes
-- none, a write changes that byte alone.
pub record IsStackMemory {H : Type 0} (hooks : Hooks H) (peek : H → ℕ → ℕ) : Type 0 where
  pub reads : (i : ℕ) (h : H) → i < 256 → (host_read hooks (0x100 + i) h).0 ≡ peek h i
  pub read_keeps : (addr j : ℕ) (h : H) → j < 256 → peek (host_read hooks addr h).1 j ≡ peek h j
  pub writes :
      (i v j : ℕ) (h : H)
      → i < 256
      → v < 256
      → j < 256
      → peek (host_write hooks (0x100 + i) v h) j ≡ (if i == j then v else peek h j)

module _ {H : Type 0} (hooks : Hooks H) (peek : H → ℕ → ℕ) (memory : IsStackMemory hooks peek) where
  -- The laws at an address and a byte as the program computes them.
  page_write :
      (x w i v j : ℕ) (h : H)
      → x ≡ 0x100 + i
      → w ≡ v
      → i < 256
      → v < 256
      → j < 256
      → peek (host_write hooks x w h) j ≡ (if i == j then v else peek h j)
  page_write x w i v j h ex ew hi hv hj = rw (ex, ew) (memory.writes i v j h hi hv hj)

  page_read : (x i : ℕ) (h : H) → x ≡ 0x100 + i → i < 256 → (host_read hooks x h).0 ≡ peek h i
  page_read x i h ex hi = rw ex (memory.reads i h hi)

  pub peek-push8 :
      (v j : ℕ) (m : Machine H)
      → m.sp < 256
      → v < 256
      → j < 256
      → peek (push8 hooks v m).host j ≡ (if m.sp == j then v else peek m.host j)
  unfolding push8 cpu_write
  peek-push8 v j m hs hv hj = page_write _ _ m.sp v j m.host (omega arith) (omega arith) hs hv hj

  pub peek-push16 :
      (v j : ℕ) (m : Machine H)
      → m.sp < 256
      → v < 65536
      → j < 256
      → peek (push16 hooks v m).host j ≡ (
          if (m.sp + 255) % 256 == j then v % 256 else if m.sp == j then v / 256 else peek m.host j)
  unfolding push16 cpu_write
  peek-push16 v j m hs hv hj =
      let x = u16 (base_stack + m.sp) in
      let w = u8 (bit_and (v >>> 8) 0xff) in
      let high =
        page_write x w m.sp (v / 256) j m.host (omega arith) (omega (arith, bit_and_ff (v / 256)))
          hs (omega arith) hj in
      let y = u16 (base_stack + bit_and (m.sp + 256 - 1) 0xff) in
      let low =
        page_write y (u8 (bit_and v 0xff)) ((m.sp + 255) % 256) (v % 256) j
          (host_write hooks x w m.host) (omega (arith, bit_and_ff (m.sp + 256 - 1)))
          (omega (arith, bit_and_ff v)) (omega arith) (omega arith) hj in
      low ∙ rw high

  pub pull8-value : (m : Machine H) → (pull8 hooks m).0 ≡ peek m.host ((m.sp + 1) % 256)
  unfolding pull8 cpu_read
  pull8-value m = page_read _ ((m.sp + 1) % 256) m.host (omega arith) (omega arith)

  pub peek-pull8 : (j : ℕ) (m : Machine H) → j < 256 → peek (pull8 hooks m).1.host j ≡ peek m.host j
  unfolding pull8 cpu_read
  peek-pull8 j m hj = memory.read_keeps _ j m.host hj

  pub pull16-value :
      (m : Machine H)
      → (pull16 hooks m).0 ≡ peek m.host ((m.sp + 1) % 256) + 256 * peek m.host ((m.sp + 2) % 256)
  unfolding pull16 read_word cpu_read
  pull16-value m =
      let lo = (m.sp + 1) % 256 in
      let hi = (m.sp + 2) % 256 in
      let x = u16 (base_stack + bit_and (m.sp + 1) 0xff) in
      let y = u16 (base_stack + bit_and (m.sp + 2) 0xff) in
      let h1 = (host_read hooks x m.host).1 in
      let low = page_read x lo m.host (omega (arith, bit_and_ff (m.sp + 1))) (omega arith) in
      let high = page_read y hi h1 (omega (arith, bit_and_ff (m.sp + 2))) (omega arith) in
      bit_or_comm _ _
      ∙ bit_or_fields 8 (host_read hooks y h1).0 (host_read hooks x m.host).0
          (host_read-lt hooks x m.host)
      ∙ omega (arith, low, high, memory.read_keeps x hi m.host (omega arith))

  pub peek-read_word :
      (lo hi j : ℕ) (m : Machine H)
      → j < 256
      → peek (read_word hooks lo hi m).1.host j ≡ peek m.host j
  unfolding read_word cpu_read
  peek-read_word lo hi j m hj = memory.read_keeps _ j _ hj ∙ memory.read_keeps _ j m.host hj

module _ {H : Type 0} (hooks : Hooks H) where
  pub sp-push16 : (v : ℕ) (m : Machine H) → (push16 hooks v m).sp ≡ (m.sp + 254) % 256
  unfolding push16
  sp-push16 v m = omega arith

  pub sp-push8 : (v : ℕ) (m : Machine H) → (push8 hooks v m).sp ≡ (m.sp + 255) % 256
  unfolding push8
  sp-push8 v m = omega arith

  pub sp-pull16 : (m : Machine H) → (pull16 hooks m).1.sp ≡ (m.sp + 2) % 256
  unfolding pull16
  sp-pull16 m = refl

  pub sp-pull8 : (m : Machine H) → (pull8 hooks m).1.sp ≡ (m.sp + 1) % 256
  unfolding pull8 cpu_read
  sp-pull8 m = refl

  pub status-pull16 : (m : Machine H) → (pull16 hooks m).1.status ≡ m.status
  unfolding pull16 read_word cpu_read
  status-pull16 m = refl

  pub status-push16 : (v : ℕ) (m : Machine H) → (push16 hooks v m).status ≡ m.status
  unfolding push16 cpu_write
  status-push16 v m = refl

  pub status-push8 : (v : ℕ) (m : Machine H) → (push8 hooks v m).status ≡ m.status
  unfolding push8 cpu_write
  status-push8 v m = refl

  pub sp-read_word : (lo hi : ℕ) (m : Machine H) → (read_word hooks lo hi m).1.sp ≡ m.sp
  unfolding read_word cpu_read
  sp-read_word lo hi m = refl
