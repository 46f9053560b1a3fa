-- ===== src/Cpu/Branch/Return/Status.antt =====
-- A status that goes through the stack, by PHP and PLP or RTI of emulator/cpu_core.c.
use workbench.Common.{
  bit_or-lt, ◌&&◌, not, all_below_sound, bit_and, ◌||◌, all_below, bit_or, ℕ, ◌-◌, ◌<◌, ◌≡◌, refl,
  true, ◌==◌, arith,
}
use workbench.Cpu.Valid.{IsStatus}
use workbench.Cpu.Flags.{constant, break, has_flag, set_flag, flag_mask}

-- Every status with the constant bit and without B comes back from the stack as it was, also if B
-- was set in the pushed copy.
unfoldable pub restored_status : ℕ → ℕ
restored_status v = bit_or (bit_and v (255 - flag_mask break)) (flag_mask constant)

status_table :
    all_below 256 (λ s.
      has_flag break s
      || not (has_flag constant s)
      || (restored_status s == s && restored_status (set_flag break s) == s))
    ≡ true
unfolding all_below has_flag set_flag restored_status
status_table = refl

pub restored_status_lem :
    (s : ℕ)
    → IsStatus s
    → has_flag constant s ≡ true
    → (restored_status s ≡ s) × (restored_status (set_flag break s) ≡ s)
restored_status_lem s ok set =
    ground (arith, all_below_sound _ 256 s ok.byte status_table, ok.no_break)

pub set_break-lt : (s : ℕ) → s < 256 → set_flag break s < 256
unfolding set_flag
set_break-lt s h = bit_or-lt 8 s 0x10 h (omega arith)
