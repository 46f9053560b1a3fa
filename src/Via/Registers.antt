-- ===== src/Via/Registers.antt =====
-- The VIA's flags, enables and port A, of emulator/chips/via_6522.c, bit by bit.
use workbench.Common.{
  ℕ, suc, ◌-◌, ◌<◌, ◌≡◌, refl, to_bit, zero, ==_iff, Bool-cases, inl, inr, bit_and_single, ◌∙◌, min,
  max, Bool, true, ◌==◌, if◌then◌else◌, nonzero, bit_and, bit_or, digit, digit-bit_and,
  digit-bit_or, bit_and_7f, u8, arith, all_below, all_below_sound, ◌&&◌,
}
use workbench.Bus.{Bus}
use workbench.Via.State.{Via, pending, porta_pin_value, update_irq}
use workbench.Via.Access.{Register, write_register}

complement_digit : ℕ → ℕ → Bool
complement_digit v k = digit (255 - v) k == 1 - digit v k

complement_checked : all_below 256 (λ v. all_below 8 (complement_digit v)) ≡ true
unfolding all_below complement_digit
complement_checked = refl

digit-complement : (v k : ℕ) → v < 256 → k < 8 → digit (255 - v) k ≡ 1 - digit v k
unfolding complement_digit
digit-complement v k hv hk = (==_iff _ _).0 (
    all_below_sound (complement_digit v) 8 k hk
      (all_below_sound (λ w. all_below 8 (complement_digit w)) 256 v hv complement_checked))

low_mask_digit : ℕ → Bool
low_mask_digit k = (digit 0x7f k == 1) && (digit 0x80 k == 0)

low_mask_checked : all_below 7 low_mask_digit ≡ true
unfolding all_below low_mask_digit
low_mask_checked = refl

digit-low_mask : (k : ℕ) → k < 7 → (digit 0x7f k ≡ 1) × (digit 0x80 k ≡ 0)
unfolding low_mask_digit
digit-low_mask k h =
    let both = all_below_sound low_mask_digit 7 k h low_mask_checked in (ground arith, ground arith)

-- A cast to a byte keeps its eight digits.
digit-u8 : (x k : ℕ) → k < 8 → digit (u8 x) k ≡ digit x k
digit-u8 x zero h = omega arith
digit-u8 x (suc zero) h = omega arith
digit-u8 x (suc (suc zero)) h = omega arith
digit-u8 x (suc (suc (suc zero))) h = omega arith
digit-u8 x (suc (suc (suc (suc zero)))) h = omega arith
digit-u8 x (suc (suc (suc (suc (suc zero))))) h = omega arith
digit-u8 x (suc (suc (suc (suc (suc (suc zero)))))) h = omega arith
digit-u8 x (suc (suc (suc (suc (suc (suc (suc zero))))))) h = omega arith
digit-u8 x (suc (suc (suc (suc (suc (suc (suc (suc k)))))))) h = absurd (omega arith)

digit-lt : (x k : ℕ) → digit x k < 2
digit-lt x k = omega arith

-- The digits of `(x & d) | (y & ~d)`.
chosen :
    (x y d : ℕ) → x < 2 → y < 2 → d < 2 → max (min x d) (min y (1 - d)) ≡ (if d == 1 then x else y)
chosen x y d hx hy hd = ground arith

digit-low_seven : (v k : ℕ) → k < 7 → digit (bit_and v 0x7f) k ≡ digit v k
digit-low_seven v k h = omega (arith, digit-bit_and k v 0x7f, (digit-low_mask k h).0, digit-lt v k)

cleared_bits :
    (x v k : ℕ)
    → k < 7
    → digit (bit_and x (255 - bit_and v 0x7f)) k ≡ (if digit v k == 1 then 0 else digit x k)
cleared_bits x v k h =
    let low = bit_and v 0x7f in
    ground (
      arith,
      digit-bit_and k x (255 - low),
      digit-complement low k (omega (arith, bit_and_7f v)) (omega arith),
      digit-low_seven v k h,
      digit-lt v k,
      digit-lt x k,
    )

set_bits :
    (x v k : ℕ)
    → k < 7
    → digit (bit_or x (bit_and v 0x7f)) k ≡ (if digit v k == 1 then 1 else digit x k)
set_bits x v k h =
    ground
      (arith, digit-bit_or k x (bit_and v 0x7f), digit-low_seven v k h, digit-lt v k, digit-lt x k)

top_bit : (v : ℕ) → to_bit (nonzero (bit_and v 0x80)) ≡ digit v 7
top_bit v = ground (arith, bit_and_single 7 v, digit-lt v 7)

module _ {C : Type 0} where
  -- Each of the pins PA0..PA7 has the level of ORA where DDRA makes it an output, and that of the
  -- external drive where it is an input.
  pub porta_pin_value-digit :
      (s : Via C) (k : ℕ)
      → k < 8
      → s.ddra < 256
      → digit (porta_pin_value s) k
        ≡ (if digit s.ddra k == 1 then digit s.ora k else digit s.porta_input k)
  unfolding porta_pin_value
  porta_pin_value-digit s k hk hd =
      simp
        (
          digit-u8 (bit_or (bit_and s.ora s.ddra) (bit_and s.porta_input (255 - s.ddra))) k hk,
          digit-bit_or,
          digit-bit_and,
          digit-complement s.ddra k hd hk,
        )
        (chosen (digit s.ora k) (digit s.porta_input k) (digit s.ddra k) (digit-lt s.ora k)
          (digit-lt s.porta_input k) (digit-lt s.ddra k))

  -- The seven flags do not notice the update of bit 7.
  digit-update_irq :
      (s : Via C) (bus : Bus) (k : ℕ) → k < 7 → digit (update_irq (s, bus)).0.ifr k ≡ digit s.ifr k
  unfolding update_irq
  digit-update_irq s bus k h =
      let masks = digit-low_mask k h in
      elim (Bool-cases (nonzero (pending s))) [
        | inl t ↦ rw t (omega (arith, digit-bit_or k s.ifr 0x80, masks.1, digit-lt s.ifr k))
        | inr t ↦ rw t (omega (arith, digit-bit_and k s.ifr 0x7f, masks.0, digit-lt s.ifr k))
      ]

  -- A write to IFR clears the flags whose bits are 1 in the written byte and keeps the others; a
  -- write to IER gives the enables whose bits are 1 the value of the byte's bit 7 and keeps the
  -- others.
  pub write_flags-digit :
      (s : Via C) (bus : Bus) (v k : ℕ)
      → k < 7
      → (digit (write_register Register.ifr v (s, bus)).0.ifr k
          ≡ (if digit v k == 1 then 0 else digit s.ifr k))
        × (digit (write_register Register.ier v (s, bus)).0.ier k
            ≡ (if digit v k == 1 then digit v 7 else digit s.ier k))
  unfolding write_register update_irq
  write_flags-digit s bus v k hk = (
    digit-update_irq (record s { ifr = bit_and s.ifr (255 - bit_and v 0x7f) }) bus k hk
        ∙ cleared_bits s.ifr v k hk,
    elim (Bool-cases (nonzero (bit_and v 0x80))) [
      | inl t ↦ rw t (ground (arith, set_bits s.ier v k hk, top_bit v))
      | inr t ↦ rw t (ground (arith, cleared_bits s.ier v k hk, top_bit v))
    ],
  )
