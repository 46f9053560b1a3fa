-- ===== src/Via/Line.antt =====
-- The interrupt line of emulator/chips/via_6522.c against the flags and their enables.
pub mod Operations
use workbench.Common.{
  ℕ, ◌+◌, ◌-◌, ◌%◌, ◌≡◌, refl, sym, ap, ◌∙◌, Bool, true, false, List, [], ◌∷◌, Option, none, some,
  ◌==◌, ◌&&◌, not, if◌then◌else◌, nonzero, to_bit, arith, bit_and, bit_or, digit, digit-bit_and,
  digit-bit_or, bit_and_7f, bit_or-zero, Bool-cases, inl, inr, seven-bit_and, seven-bit_or,
}
use workbench.Bus.{Bus}
use workbench.Via.State.{
  Via, pending, update_irq, via_set_ifr, via_clear_ifr, update_bank_config, ora_access,
}
use workbench.Via.Events.{Event, happens, run, powered}

-- The enabled flags do not see bit 7 of IFR.
raised : (i e : ℕ) → bit_and (bit_and (bit_or i 0x80) e) 0x7f ≡ bit_and (bit_and i e) 0x7f
raised i e =
    bit_and_7f _
    ∙ seven-bit_and (bit_or i 0x80) e i e
        (seven-bit_or i 0x80 i 0 refl refl ∙ ap (λ (t : ℕ). t % 128) (bit_or-zero i)) refl
    ∙ sym (bit_and_7f _)

lowered : (i e : ℕ) → bit_and (bit_and (bit_and i 0x7f) e) 0x7f ≡ bit_and (bit_and i e) 0x7f
lowered i e =
    bit_and_7f _
    ∙ seven-bit_and (bit_and i 0x7f) e i e (omega (arith, bit_and_7f i)) refl
    ∙ sym (bit_and_7f _)

module _ {C : Type 0} where
  -- The line and bit 7 of IFR both say whether an enabled flag is set.
  pub record IsLine (p : Via C × Bus) : Type 0 where
    pub line : p.1.irq ≡ to_bit (nonzero (pending p.0))
    pub flag : digit p.0.ifr 7 ≡ to_bit (nonzero (pending p.0))

  pub update_irq-IsLine : (s : Via C) (bus : Bus) → IsLine (update_irq (s, bus))
  unfolding update_irq
  update_irq-IsLine s bus = elim (Bool-cases (nonzero (pending s))) [
    | inl h ↦ rw h (record {
      line = simp (raised s.ifr s.ier, h) refl;
      flag = simp (raised s.ifr s.ier, h) (omega (arith, digit-bit_or 7 s.ifr 0x80));
    })
    | inr h ↦ rw h (record {
      line = simp (lowered s.ifr s.ier, h) refl;
      flag = simp (lowered s.ifr s.ier, h) (omega (arith, digit-bit_and 7 s.ifr 0x7f));
    })
  ]

  pub via_set_ifr-IsLine : (mask : ℕ) (s : Via C) (bus : Bus) → IsLine (via_set_ifr mask (s, bus))
  unfolding via_set_ifr
  via_set_ifr-IsLine mask s bus = update_irq-IsLine _ _

  pub via_clear_ifr-IsLine :
      (mask : ℕ) (s : Via C) (bus : Bus) → IsLine (via_clear_ifr mask (s, bus))
  unfolding via_clear_ifr
  via_clear_ifr-IsLine mask s bus = update_irq-IsLine _ _

  pub if-IsLine : (b : Bool) {p q : Via C × Bus} → IsLine p → IsLine q → IsLine (if b then p else q)
  if-IsLine true v w = v
  if-IsLine false v w = w

  -- What touches neither the flags, nor their enables, nor the line.
  pub kept-IsLine :
      (p q : Via C × Bus)
      → q.0.ifr ≡ p.0.ifr
      → q.0.ier ≡ p.0.ier
      → q.1.irq ≡ p.1.irq
      → IsLine p
      → IsLine q
  kept-IsLine p q f e l v = record { line = simp (f, e, l) v.line; flag = simp (f, e) v.flag }
