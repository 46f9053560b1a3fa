-- ===== src/Cpu/Flags/Laws.antt =====
-- What the flag macros do to each flag, and that the status stays a byte.
use workbench.Common.{
  nonzero, ℕ, ◌-◌, ◌/◌, ◌%◌, ◌<◌, ◌≡◌, refl, ◌∙◌, Bool, true, false, not, ◌&&◌, ◌||◌, ◌==◌, leb,
  arith, if◌then◌else◌, bit_and, bit_or, bit_xor, digit, digit-bit_and, digit-bit_or, digit-bit_xor,
  bit_and_single, bit_and_ff, bit_and_ff00, bit_and-le, bit_or-lt,
}
use workbench.Cpu.Flags.{
  Flag, carry, zero, interrupt, decimal, break, constant, overflow, sign, flag_index, flag_mask,
  has_flag, set_flag, clear_flag, put_flag, zero_calc, sign_calc, carry_calc, overflow_calc,
}

-- A flag is set when its bit is one.
pub has_flag-digit : (f : Flag) (s : ℕ) → has_flag f s ≡ (digit s (flag_index f) == 1)
unfolding has_flag
has_flag-digit carry s = ground (arith, bit_and_single 0 s)
has_flag-digit zero s = ground (arith, bit_and_single 1 s)
has_flag-digit interrupt s = ground (arith, bit_and_single 2 s)
has_flag-digit decimal s = ground (arith, bit_and_single 3 s)
has_flag-digit break s = ground (arith, bit_and_single 4 s)
has_flag-digit constant s = ground (arith, bit_and_single 5 s)
has_flag-digit overflow s = ground (arith, bit_and_single 6 s)
has_flag-digit sign s = ground (arith, bit_and_single 7 s)

pub has_flag-bit_or :
    (f : Flag) (s t : ℕ) → has_flag f (bit_or s t) ≡ (has_flag f s || has_flag f t)
has_flag-bit_or f s t =
    rw (has_flag-digit f (bit_or s t), has_flag-digit f s, has_flag-digit f t)
      (ground (arith, digit-bit_or (flag_index f) s t))

pub has_flag-bit_and :
    (f : Flag) (s t : ℕ) → has_flag f (bit_and s t) ≡ (has_flag f s && has_flag f t)
has_flag-bit_and f s t =
    rw (has_flag-digit f (bit_and s t), has_flag-digit f s, has_flag-digit f t)
      (ground (arith, digit-bit_and (flag_index f) s t))

-- Whether two flags are the same bit.
abbrev pub same_flag : Flag → Flag → Bool
same_flag f g = flag_index f == flag_index g

has_flag-mask : (f g : Flag) → has_flag f (flag_mask g) ≡ same_flag f g
unfolding has_flag
has_flag-mask carry carry = refl
has_flag-mask zero carry = refl
has_flag-mask interrupt carry = refl
has_flag-mask decimal carry = refl
has_flag-mask break carry = refl
has_flag-mask constant carry = refl
has_flag-mask overflow carry = refl
has_flag-mask sign carry = refl
has_flag-mask _ _ = refl

has_flag-complement : (f g : Flag) → has_flag f (255 - flag_mask g) ≡ not (same_flag f g)
unfolding has_flag
has_flag-complement carry carry = refl
has_flag-complement zero carry = refl
has_flag-complement interrupt carry = refl
has_flag-complement decimal carry = refl
has_flag-complement break carry = refl
has_flag-complement constant carry = refl
has_flag-complement overflow carry = refl
has_flag-complement sign carry = refl
has_flag-complement _ _ = refl

-- Setting or clearing a flag gives it that value and leaves every other flag alone.
pub has_flag-put_flag :
    (f g : Flag) (c : Bool) (s : ℕ)
    → has_flag f (put_flag g c s) ≡ (if same_flag f g then c else has_flag f s)
unfolding put_flag
has_flag-put_flag f g true s = rw (has_flag-bit_or, has_flag-mask f g) (ground arith)
has_flag-put_flag f g false s = rw (has_flag-bit_and, has_flag-complement f g) (ground arith)

flag_mask-lt : (f : Flag) → flag_mask f < 256
flag_mask-lt carry = omega arith
flag_mask-lt _ = omega arith

pub put_flag-lt : (f : Flag) (c : Bool) (s : ℕ) → s < 256 → put_flag f c s < 256
unfolding put_flag
put_flag-lt f true s h = bit_or-lt 8 s (flag_mask f) h (flag_mask-lt f)
put_flag-lt f false s h = omega (arith, bit_and-le s (255 - flag_mask f))

pub set_flag-eq-put_flag : (f : Flag) (s : ℕ) → set_flag f s ≡ put_flag f true s
unfolding put_flag
set_flag-eq-put_flag f s = refl

pub clear_flag-eq-put_flag : (f : Flag) (s : ℕ) → clear_flag f s ≡ put_flag f false s
unfolding put_flag
clear_flag-eq-put_flag f s = refl

-- The conditions of the calculation macros, as arithmetic.
pub zero_test : (n : ℕ) → not (nonzero (bit_and n 0x00ff)) ≡ (n % 256 == 0)
zero_test n = ground (arith, bit_and_ff n)

pub sign_test : (n : ℕ) → nonzero (bit_and n 0x0080) ≡ leb 128 (n % 256)
sign_test n = ground (arith, bit_and_single 7 n)

pub carry_test : (n : ℕ) → n < 65536 → nonzero (bit_and n 0xff00) ≡ leb 256 n
carry_test n h = ground (arith, bit_and_ff00 n)

-- The two operands agree in bit 7, and the result does not.
pub overflow_test :
    (n m o : ℕ)
    → nonzero (bit_and (bit_and (bit_xor n m) (bit_xor n o)) 0x0080)
      ≡ ((m / 128 % 2 == o / 128 % 2) && not (n / 128 % 2 == m / 128 % 2))
overflow_test n m o = ground (
  arith,
  bit_and_single 7 (bit_and (bit_xor n m) (bit_xor n o)),
  digit-bit_and 7 (bit_xor n m) (bit_xor n o),
  digit-bit_xor 7 n m,
  digit-bit_xor 7 n o,
)

-- What each calculation macro does to each flag.
pub has_flag-zero_calc :
    (f : Flag) (n s : ℕ)
    → has_flag f (zero_calc n s) ≡ (if same_flag f zero then n % 256 == 0 else has_flag f s)
unfolding zero_calc
has_flag-zero_calc f n s = has_flag-put_flag f zero _ s ∙ rw (zero_test n)

pub has_flag-sign_calc :
    (f : Flag) (n s : ℕ)
    → has_flag f (sign_calc n s) ≡ (if same_flag f sign then leb 128 (n % 256) else has_flag f s)
unfolding sign_calc
has_flag-sign_calc f n s = has_flag-put_flag f sign _ s ∙ rw (sign_test n)

pub has_flag-carry_calc :
    (f : Flag) (n s : ℕ)
    → n < 65536
    → has_flag f (carry_calc n s) ≡ (if same_flag f carry then leb 256 n else has_flag f s)
unfolding carry_calc
has_flag-carry_calc f n s h = has_flag-put_flag f carry _ s ∙ rw (carry_test n h)

-- The operands agree in bit 7, and the result does not.
abbrev pub signs_differ : ℕ → ℕ → ℕ → Bool
signs_differ n m o = (m / 128 % 2 == o / 128 % 2) && not (n / 128 % 2 == m / 128 % 2)

pub has_flag-overflow_calc :
    (f : Flag) (n m o s : ℕ)
    → has_flag f (overflow_calc n m o s)
      ≡ (if same_flag f overflow then signs_differ n m o else has_flag f s)
unfolding overflow_calc
has_flag-overflow_calc f n m o s = has_flag-put_flag f overflow _ s ∙ rw (overflow_test n m o)

pub has_flag-set_flag :
    (f g : Flag) (s : ℕ)
    → has_flag f (set_flag g s) ≡ (if same_flag f g then true else has_flag f s)
has_flag-set_flag f g s = rw (set_flag-eq-put_flag g s) (has_flag-put_flag f g true s)

pub has_flag-clear_flag :
    (f g : Flag) (s : ℕ)
    → has_flag f (clear_flag g s) ≡ (if same_flag f g then false else has_flag f s)
has_flag-clear_flag f g s = rw (clear_flag-eq-put_flag g s) (has_flag-put_flag f g false s)

pub ruleset flag_laws = (
  has_flag-put_flag, has_flag-set_flag, has_flag-clear_flag, has_flag-zero_calc, has_flag-sign_calc,
  has_flag-carry_calc, has_flag-overflow_calc,
)
