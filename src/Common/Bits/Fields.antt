-- ===== src/Common/Bits/Fields.antt =====
-- `|` of fields that share no bit, as a sum.
use workbench.Common.Bits.Step.{bit_or_step}
use Prim.Native.Nat.{ℕ, zero, suc, ◌+◌, ◌*◌, ◌/◌, ◌^◌, ◌≤◌, ◌<◌, bit_or, bit_or-bitwise}
use mathlib.Core.Path.{◌≡◌, refl, ap}
use native.Mathlib.Nat.{pow-suc}
use native.Mathlib.Omega.{arith}

pub bit_or-zero : (a : ℕ) → bit_or a 0 ≡ a
bit_or-zero a = at_fuel a a (omega arith)
  where
    at_fuel : (n c : ℕ) → c ≤ n → bit_or c 0 ≡ c
    at_fuel n zero h = refl
    at_fuel zero (suc c) h = absurd (omega arith)
    at_fuel (suc n) (suc c) h =
        omega (arith, bit_or_step (suc c) 0, at_fuel n (suc c / 2) (omega arith))

-- `|` with a byte shifted up by `k` bits, in the order in which the program writes it.
pub bit_or_comm : (a b : ℕ) → bit_or a b ≡ bit_or b a
bit_or_comm a b = at_fuel (a + b) a b (omega arith)
  where
    at_fuel : (n c d : ℕ) → c + d ≤ n → bit_or c d ≡ bit_or d c
    at_fuel n zero d h = ground (arith, bit_or-zero d, bit_or-bitwise 0 d)
    at_fuel zero (suc c) d h = absurd (omega arith)
    at_fuel (suc n) (suc c) d h = omega (
      arith,
      bit_or_step (suc c) d,
      bit_or_step d (suc c),
      at_fuel n (suc c / 2) (d / 2) (omega arith),
    )

doubled : (q k : ℕ) → q * 2 ^ suc k ≡ 2 * (q * 2 ^ k)
doubled q k = omega (arith, ap (λ (t : ℕ). q * t) (pow-suc 2 k))

-- `|` of fields that share no bit is their sum.
pub bit_or_fields : (k q r : ℕ) → r < 2 ^ k → bit_or (q * 2 ^ k) r ≡ q * 2 ^ k + r
bit_or_fields zero q r h = ground (arith, bit_or-zero q)
bit_or_fields (suc k) q r h =
    ground
      (arith, bit_or_step (q * 2 ^ suc k) r, doubled q k, pow-suc 2 k, bit_or_fields k q (r / 2))
