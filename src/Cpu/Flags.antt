-- ===== src/Cpu/Flags.antt =====
-- The status byte of emulator/cpu_core.c: the FLAG_ masks, the flag modifier macros and the
-- flag calculation macros.
pub mod Laws
use workbench.Common.{
  nonzero, ℕ, ◌-◌, ◌^◌, Bool, not, bit_and, bit_or, bit_xor, ◌==◌, if◌then◌else◌,
}

-- The bits of `status`, lowest first.
pub data Flag : Type 0 where
  carry zero interrupt decimal break constant overflow sign : Flag

-- FLAG_CARRY 0x01 to FLAG_SIGN 0x80, by the number of the bit.
abbrev pub flag_index : Flag → ℕ
flag_index carry = 0
flag_index zero = 1
flag_index interrupt = 2
flag_index decimal = 3
flag_index break = 4
flag_index constant = 5
flag_index overflow = 6
flag_index sign = 7

abbrev pub flag_mask : Flag → ℕ
flag_mask f = 2 ^ flag_index f

-- `status & FLAG_X`, as a condition.
unfoldable pub has_flag : Flag → ℕ → Bool
has_flag f status = nonzero (bit_and status (flag_mask f))

-- `setcarry()` and its like: `status |= FLAG_X`.
unfoldable pub set_flag : Flag → ℕ → ℕ
set_flag f status = bit_or status (flag_mask f)

-- `clearcarry()` and its like: `status &= ~FLAG_X`, on a byte.
unfoldable pub clear_flag : Flag → ℕ → ℕ
clear_flag f status = bit_and status (255 - flag_mask f)

-- `if (c) setX(); else clearX();`
unfoldable pub put_flag : Flag → Bool → ℕ → ℕ
unfolding set_flag clear_flag
put_flag f c status = if c then set_flag f status else clear_flag f status

unfoldable pub zero_calc : ℕ → ℕ → ℕ
zero_calc n = put_flag zero (not (nonzero (bit_and n 0x00ff)))

unfoldable pub sign_calc : ℕ → ℕ → ℕ
sign_calc n = put_flag sign (nonzero (bit_and n 0x0080))

unfoldable pub carry_calc : ℕ → ℕ → ℕ
carry_calc n = put_flag carry (nonzero (bit_and n 0xff00))

-- `n` is the result, `m` the accumulator, `o` the operand.
unfoldable pub overflow_calc : ℕ → ℕ → ℕ → ℕ → ℕ
overflow_calc n m o =
    put_flag overflow (nonzero (bit_and (bit_and (bit_xor n m) (bit_xor n o)) 0x0080))
