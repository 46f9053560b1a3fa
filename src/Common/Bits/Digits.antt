-- ===== src/Common/Bits/Digits.antt =====
-- Each binary digit of `&`, `|` and `^` is that of the digits of the arguments.
use Prim.Native.Nat.{◌*◌, ℕ, zero, suc, ◌+◌, ◌/◌, ◌%◌, ◌^◌, min, max, bit_and, bit_or, bit_xor}
use workbench.Common.Bits.Step.{bit_and_step, bit_or_step, bit_xor_step}
use mathlib.Core.Path.{◌≡◌, refl, ap, sym, ◌∙◌}
use native.Mathlib.Nat.{pow-suc, div-div-eq-div-mul}
use native.Mathlib.Omega.{arith}

-- The binary digit of weight `2 ^ k`.
abbrev pub digit : ℕ → ℕ → ℕ
digit a k = a / 2 ^ k % 2

pub digit-suc : (a k : ℕ) → digit a (suc k) ≡ digit (a / 2) k
digit-suc a k =
    ap (λ (t : ℕ). t % 2)
      (ap (λ (t : ℕ). a / t) (omega (arith, pow-suc 2 k)) ∙ sym (div-div-eq-div-mul a 2 (2 ^ k)))

half_and : (a b : ℕ) → bit_and a b / 2 ≡ bit_and (a / 2) (b / 2)
half_and a b = omega (arith, bit_and_step a b)

half_or : (a b : ℕ) → bit_or a b / 2 ≡ bit_or (a / 2) (b / 2)
half_or a b = omega (arith, bit_or_step a b)

pub digit-bit_and : (k a b : ℕ) → digit (bit_and a b) k ≡ min (digit a k) (digit b k)
digit-bit_and zero a b = omega (arith, bit_and_step a b)
digit-bit_and (suc k) a b = simp (digit-suc, half_and) (digit-bit_and k (a / 2) (b / 2))

pub digit-bit_or : (k a b : ℕ) → digit (bit_or a b) k ≡ max (digit a k) (digit b k)
digit-bit_or zero a b = omega (arith, bit_or_step a b)
digit-bit_or (suc k) a b = simp (digit-suc, half_or) (digit-bit_or k (a / 2) (b / 2))

pub digit-bit_xor : (k a b : ℕ) → digit (bit_xor a b) k ≡ (digit a k + digit b k) % 2
digit-bit_xor zero a b = omega (arith, bit_xor_step a b)
digit-bit_xor (suc k) a b = simp (digit-suc, the_half) (digit-bit_xor k (a / 2) (b / 2))
  where
    the_half : bit_xor a b / 2 ≡ bit_xor (a / 2) (b / 2)
    the_half = omega (arith, bit_xor_step a b)

-- The lowest `k` digits.
low : ℕ → ℕ → ℕ
low zero a = 0
low (suc k) a = a % 2 + 2 * low k (a / 2)

low-bit_and :
    (k a b c d : ℕ)
    → low k a ≡ low k c
    → low k b ≡ low k d
    → low k (bit_and a b) ≡ low k (bit_and c d)
unfolding low
low-bit_and zero a b c d p q = refl
low-bit_and (suc k) a b c d p q = omega (
  arith,
  bit_and_step a b,
  bit_and_step c d,
  ap (low k) (half_and a b),
  ap (low k) (half_and c d),
  low-bit_and k (a / 2) (b / 2) (c / 2) (d / 2) (omega arith) (omega arith),
)

low-bit_or :
    (k a b c d : ℕ)
    → low k a ≡ low k c
    → low k b ≡ low k d
    → low k (bit_or a b) ≡ low k (bit_or c d)
unfolding low
low-bit_or zero a b c d p q = refl
low-bit_or (suc k) a b c d p q = omega (
  arith,
  bit_or_step a b,
  bit_or_step c d,
  ap (low k) (half_or a b),
  ap (low k) (half_or c d),
  low-bit_or k (a / 2) (b / 2) (c / 2) (d / 2) (omega arith) (omega arith),
)

low_seven : (a : ℕ) → low 7 a ≡ a % 128
unfolding low
low_seven a = omega arith

-- The lowest seven digits of `&` and `|` come from those of the arguments.
pub seven-bit_and :
    (a b c d : ℕ) → a % 128 ≡ c % 128 → b % 128 ≡ d % 128 → bit_and a b % 128 ≡ bit_and c d % 128
seven-bit_and a b c d p q =
    sym (low_seven _)
    ∙ low-bit_and 7 a b c d (low_seven a ∙ p ∙ sym (low_seven c))
        (low_seven b ∙ q ∙ sym (low_seven d))
    ∙ low_seven _

pub seven-bit_or :
    (a b c d : ℕ) → a % 128 ≡ c % 128 → b % 128 ≡ d % 128 → bit_or a b % 128 ≡ bit_or c d % 128
seven-bit_or a b c d p q =
    sym (low_seven _)
    ∙ low-bit_or 7 a b c d (low_seven a ∙ p ∙ sym (low_seven c))
        (low_seven b ∙ q ∙ sym (low_seven d))
    ∙ low_seven _
