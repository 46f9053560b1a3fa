-- ===== src/Cpu/Valid/Status.antt =====
-- A well-formed status byte, and the flag macros and operations of the handlers that keep it so.
use workbench.Common.{
  ℕ, ◌-◌, ◌<◌, ◌≡◌, refl, Bool, true, false, arith, bit_and, bit_or, bit_and-le, bit_or-lt,
  bit_and_c0, u8,
}
use workbench.Cpu.Flags.{
  Flag, carry, zero, break, constant, overflow, sign, has_flag, put_flag, set_flag, clear_flag,
  flag_mask, zero_calc, sign_calc, carry_calc, overflow_calc,
}
use workbench.Cpu.Flags.Laws.{
  has_flag-put_flag, put_flag-lt, same_flag, has_flag-bit_and, has_flag-bit_or, has_flag-digit,
  set_flag-eq-put_flag, clear_flag-eq-put_flag,
}
use workbench.Cpu.Access.{nz_calc}
use workbench.Cpu.Arith.{compare_calc, decimal_overflow}

-- A status byte without the break flag.
pub record IsStatus (s : ℕ) : Type 0 where
  pub byte : s < 256
  pub no_break : has_flag break s ≡ false

pub put_flag-IsStatus :
    (f : Flag) (c : Bool) (s : ℕ)
    → same_flag break f ≡ false
    → IsStatus s
    → IsStatus (put_flag f c s)
put_flag-IsStatus f c s other ok = record {
  byte = put_flag-lt f c s ok.byte;
  no_break = ground (arith, has_flag-put_flag break f c s, ok.no_break);
}

pub nz_calc-IsStatus : (n s : ℕ) → IsStatus s → IsStatus (nz_calc n s)
unfolding nz_calc zero_calc sign_calc
nz_calc-IsStatus n s ok = put_flag-IsStatus sign _ _ refl (put_flag-IsStatus zero _ s refl ok)

pub carry_calc-IsStatus : (n s : ℕ) → IsStatus s → IsStatus (carry_calc n s)
unfolding carry_calc
carry_calc-IsStatus n s ok = put_flag-IsStatus carry _ s refl ok

pub set_flag-IsStatus :
    (f : Flag) (s : ℕ) → same_flag break f ≡ false → IsStatus s → IsStatus (set_flag f s)
set_flag-IsStatus f s other ok = rw set_flag-eq-put_flag (put_flag-IsStatus f true s other ok)

pub clear_flag-IsStatus :
    (f : Flag) (s : ℕ) → same_flag break f ≡ false → IsStatus s → IsStatus (clear_flag f s)
clear_flag-IsStatus f s other ok = rw clear_flag-eq-put_flag (put_flag-IsStatus f false s other ok)

pub zero_calc-IsStatus : (n s : ℕ) → IsStatus s → IsStatus (zero_calc n s)
unfolding zero_calc
zero_calc-IsStatus n s ok = put_flag-IsStatus zero _ s refl ok

-- The flags after ADC and SBC in binary.
pub sum_calc-IsStatus :
    (n a o s : ℕ)
    → IsStatus s
    → IsStatus (sign_calc n (overflow_calc n a o (zero_calc n (carry_calc n s))))
unfolding sign_calc overflow_calc zero_calc carry_calc
sum_calc-IsStatus n a o s ok = put_flag-IsStatus sign _ _ refl (
    put_flag-IsStatus overflow _ _ refl
      (put_flag-IsStatus zero _ _ refl (put_flag-IsStatus carry _ s refl ok)))

pub decimal_overflow-IsStatus : (a o bin s : ℕ) → IsStatus s → IsStatus (decimal_overflow a o bin s)
unfolding decimal_overflow
decimal_overflow-IsStatus a o bin s ok = put_flag-IsStatus overflow _ s refl ok

pub compare_calc-IsStatus : (r value s : ℕ) → IsStatus s → IsStatus (compare_calc r value s)
unfolding compare_calc sign_calc
compare_calc-IsStatus r value s ok =
    put_flag-IsStatus sign _ _ refl
      (put_flag-IsStatus zero _ _ refl (put_flag-IsStatus carry _ s refl ok))

-- BIT: two flags from the operand.
pub bit_flags-IsStatus :
    (s value : ℕ) → IsStatus s → IsStatus (bit_or (bit_and s 0x3f) (u8 (bit_and value 0xc0)))
bit_flags-IsStatus s value ok = record {
  byte = bit_or-lt 8 _ _ (omega (arith, bit_and-le s 0x3f, ok.byte)) (omega arith);
  no_break = ground (
    arith,
    has_flag-bit_or break (bit_and s 0x3f) (u8 (bit_and value 0xc0)),
    has_flag-bit_and break s 0x3f,
    has_flag-digit break (u8 (bit_and value 0xc0)),
    bit_and_c0 value,
    ok.no_break,
  );
}

-- PLP and RTI: the pulled byte without B and with the constant bit.
pub pulled-IsStatus :
    (v : ℕ) → v < 256 → IsStatus (bit_or (bit_and v (255 - flag_mask break)) (flag_mask constant))
pulled-IsStatus v h = record {
  byte = bit_or-lt 8 _ _ (omega (arith, bit_and-le v 0xef)) (omega arith);
  no_break = ground (
    arith,
    has_flag-bit_or break (bit_and v 0xef) 0x20,
    has_flag-bit_and break v 0xef,
    has_flag-digit break 0xef,
    has_flag-digit break 0x20,
  );
}
