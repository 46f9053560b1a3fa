-- ===== src/Chips/Cells.antt =====
-- Which bytes of the banked RAM of emulator/chips/ram_628128.c are the same cell.
use workbench.Common.{
  ap, ◌^◌, ℕ, ◌+◌, ◌*◌, ◌/◌, ◌%◌, ◌<◌, ◌≡◌, refl, ◌∙◌, Bool, true, false, ◌==◌, ◌&&◌, if◌then◌else◌,
  some, nonzero, bit_or, bit_and_0f, bit_and_1, bit_and_3fff, bit_or_fields, arith,
}
use workbench.Bus.{Bus}
use workbench.Chips.Memory.{Contents, store, physical_addr, ram_628128_read, ram_628128_write}

physical_addr_lem :
    (bus : Bus) (addr : ℕ)
    → addr < 65536
    → physical_addr bus addr ≡ bus.r_bits % 16 * 32768 + addr / 32768 * 16384 + addr % 16384
unfolding physical_addr
physical_addr_lem bus addr h =
    simp (bit_and_0f bus.r_bits, bit_and_1 (addr / 2 ^ 15), bit_and_3fff addr)
      (ap (λ (t : ℕ). bit_or t (addr % 16384))
          (bit_or_fields 15 (bus.r_bits % 16) (addr / 2 ^ 15 % 2 * 2 ^ 14) (omega arith) ∙ regroup)
        ∙ bit_or_fields 14 (bus.r_bits % 16 * 2 + addr / 2 ^ 15 % 2) (addr % 16384) (omega arith)
        ∙ omega arith)
  where
    regroup :
        bus.r_bits % 16 * 2 ^ 15 + addr / 2 ^ 15 % 2 * 2 ^ 14
        ≡ (bus.r_bits % 16 * 2 + addr / 2 ^ 15 % 2) * 2 ^ 14
    regroup = omega arith

-- Whether two accesses go to the same cell: the same bank, the same half of the address space and
-- the same lowest 14 bits; A14 does not reach the chip.
abbrev pub same_cell : Bus → ℕ → Bus → ℕ → Bool
same_cell w a r b =
    (w.r_bits % 16 == r.r_bits % 16) && (a / 32768 == b / 32768) && (a % 16384 == b % 16384)

cells :
    (w r : Bus) (a b : ℕ)
    → a < 65536
    → b < 65536
    → (physical_addr w a == physical_addr r b) ≡ same_cell w a r b
cells w r a b ha hb = ground (arith, physical_addr_lem w a ha, physical_addr_lem r b hb)

within : (c : Bool) (x y : ℕ) → some (if c then x else y) ≡ (if c then some x else some y)
within true x y = refl
within false x y = refl

-- A read of the RAM after a write gives the written byte if both go to the same cell, and what was
-- there before otherwise, where the RAM is selected for both.
pub ram-read-write :
    (contents : Contents) (w r : Bus) (a b v : ℕ)
    → a < 65536
    → b < 65536
    → nonzero w.ramcs ≡ true
    → nonzero w.rwb ≡ false
    → nonzero r.ramcs ≡ true
    → nonzero r.rwb ≡ true
    → ram_628128_read b ((ram_628128_write a v (contents, w)).1, r)
      ≡ (if same_cell w a r b then some v else ram_628128_read b (contents, r))
unfolding ram_628128_read ram_628128_write store
ram-read-write contents w r a b v ha hb ws ww rs rr =
    simp (ws, ww, rs, rr, cells w r a b ha hb)
      (within (same_cell w a r b) v (contents (physical_addr r b)))
