-- ===== src/Cpu/Arith/Compare.antt =====
-- CMP, CPX and CPY of emulator/cpu_core.c against the order of the compared bytes.
use workbench.Common.{ℕ, ◌+◌, ◌-◌, ◌%◌, ◌<◌, ◌≡◌, refl, ◌==◌, leb, arith, bit_and_ff}
use workbench.Cpu.Flags.{carry, zero, interrupt, decimal, overflow, sign, has_flag}
use workbench.Cpu.Flags.Laws.{flag_laws}
use workbench.Cpu.Valid.{IsValid, getvalue-lt}
use workbench.Cpu.State.{Machine, Hooks, cpu_read}
use workbench.Cpu.Access.{getvalue}
use workbench.Cpu.Arith.{cmp, cpx, cpy, compare_calc, set_penaltyop}
use workbench.Cpu.Arith.Binary.{operand_of, operand_of-lt}

-- What a comparison of the register `reg` with `operand` leaves of the status `before`.
pub record IsComparison (reg operand before after : ℕ) : Type 0 where
  pub carry_set : has_flag carry after ≡ leb operand reg
  pub zero_set : has_flag zero after ≡ (reg == operand)
  pub sign_set : has_flag sign after ≡ leb 128 ((reg + 256 - operand) % 256)
  pub overflow_kept : has_flag overflow after ≡ has_flag overflow before
  pub decimal_kept : has_flag decimal after ≡ has_flag decimal before
  pub interrupt_kept : has_flag interrupt after ≡ has_flag interrupt before

compare_calc-IsComparison :
    (reg operand s : ℕ)
    → reg < 256
    → operand < 256
    → IsComparison reg operand s (compare_calc reg operand s)
unfolding compare_calc
compare_calc-IsComparison reg operand s hr ho = record {
  carry_set = simp (flag_laws, bit_and_ff) (ground arith);
  zero_set = simp (flag_laws, bit_and_ff) (ground arith);
  sign_set = simp flag_laws (ground arith);
  overflow_kept = simp flag_laws refl;
  decimal_kept = simp flag_laws refl;
  interrupt_kept = simp flag_laws refl;
}

module _ {H : Type 0} (hooks : Hooks H) where
  kept_by_value :
      (m : Machine H)
      → let r = (getvalue hooks m).1 in
        (r.a ≡ m.a) × (r.x ≡ m.x) × (r.y ≡ m.y) × (r.status ≡ m.status)
  unfolding getvalue cpu_read
  kept_by_value m = ground arith

  -- CMP, CPX and CPY set C when the register is not below the operand, Z when they are equal and N
  -- by bit 7 of the difference, and keep V, D and I.
  pub compare-IsComparison :
      (m : Machine H)
      → IsValid m
      → IsComparison m.a (operand_of hooks m) m.status (cmp hooks m).status
        × IsComparison m.x (getvalue hooks m).0 m.status (cpx hooks m).status
        × IsComparison m.y (getvalue hooks m).0 m.status (cpy hooks m).status
  unfolding cmp cpx cpy set_penaltyop
  compare-IsComparison m v =
      let p = kept_by_value (set_penaltyop m) in
      let q = kept_by_value m in
      let paid = operand_of-lt hooks m v in
      let plain = getvalue-lt hooks m v in
      (
        rw (p.0, p.3) (compare_calc-IsComparison m.a _ m.status v.a_byte paid),
        rw (q.1, q.3) (compare_calc-IsComparison m.x _ m.status v.x_byte plain),
        rw (q.2, q.3) (compare_calc-IsComparison m.y _ m.status v.y_byte plain),
      )
