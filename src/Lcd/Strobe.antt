-- ===== src/Lcd/Strobe.antt =====
-- Strobes of E on the lines of the display, as lcd_hd44780_tick of lcd_hd44780.c takes them.
use workbench.Lcd.Latch.{
  low, rested, half_received, execute_byte-low, raised_e, latch_data-wide, latch_data-high,
  latch_data-low,
}
use workbench.Common.{
  ◌<<◌, u8, ◌>>>◌, ◌∙◌, ap, ℕ, ◌/◌, ◌%◌, ◌<◌, ◌≡◌, refl, true, false, some, arith, bit_or_fields,
  bit_or,
}
use workbench.Via.State.{Via}
use workbench.Lcd.State.{Lcd, Wiring}
use workbench.Lcd.Commands.{execute_byte, latch_data}
use workbench.Lcd.Pins.{
  e_pin, rs_pin, rw_pin, data_pins, floating, check_contention, latch, lcd_hd44780_tick,
}

module _ {C : Type 0} where
  -- E goes up and down for a write, over lines that are driven.
  pub record IsStrobe (w : Wiring) (up down : Via C) : Type 0 where
    pub raised : e_pin w up ≡ true
    pub not_reading : rw_pin w up ≡ false
    pub lowered : e_pin w down ≡ false
    pub writing : rw_pin w down ≡ false
    pub steady : floating w down ≡ false

  unfoldable pub strobe : Via C → Via C → Lcd → Lcd
  strobe up down s = lcd_hd44780_tick (some down) (lcd_hd44780_tick (some up) s)

  tick-up :
      (s : Lcd) (up down : Via C)
      → IsStrobe s.wiring up down
      → s.prev_e ≡ false
      → lcd_hd44780_tick (some up) s ≡ record s { prev_e = true; contending = false }
  unfolding lcd_hd44780_tick check_contention
  tick-up s up down v low = simp (v.raised, v.not_reading, low) refl

  -- What is latched when E falls.
  abbrev latched : Via C → Lcd → Lcd
  latched down s =
      latch_data (rs_pin s.wiring down) (data_pins s.wiring down)
        (record s { prev_e = true; contending = false })

  tick-down :
      (s : Lcd) (up down : Via C)
      → IsStrobe s.wiring up down
      → lcd_hd44780_tick (some down) (record s { prev_e = true; contending = false })
        ≡ record (latched down s) { prev_e = false }
  unfolding lcd_hd44780_tick check_contention latch
  tick-down s up down v = simp (v.lowered, v.writing, v.steady) refl

  strobe-latch :
      (s : Lcd) (up down : Via C)
      → IsStrobe s.wiring up down
      → s.prev_e ≡ false
      → strobe up down s ≡ record (latched down s) { prev_e = false }
  unfolding strobe
  strobe-latch s up down v low =
      ap (lcd_hd44780_tick (some down)) (tick-up s up down v low) ∙ tick-down s up down v

  -- In 8-bit mode one strobe executes the byte on the data lines.
  pub strobe-byte :
      (s : Lcd) (up down : Via C)
      → IsStrobe s.wiring up down
      → s.prev_e ≡ false
      → s.four_bit_mode ≡ false
      → strobe up down s ≡ execute_byte (rs_pin s.wiring down) (data_pins s.wiring down) (rested s)
  strobe-byte s up down v low_e wide =
      strobe-latch s up down v low_e
      ∙ ap low (latch_data-wide (rs_pin s.wiring down) (data_pins s.wiring down) (raised_e s) wide)
      ∙ execute_byte-low (rs_pin s.wiring down) (data_pins s.wiring down) (raised_e s)

  strobe-high :
      (s : Lcd) (up down : Via C)
      → IsStrobe s.wiring up down
      → s.prev_e ≡ false
      → s.four_bit_mode ≡ true
      → s.high_nibble_pending ≡ false
      → strobe up down s ≡ half_received (data_pins s.wiring down >>> 4) s
  strobe-high s up down v low_e narrow first =
      strobe-latch s up down v low_e
      ∙ ap low (
          latch_data-high (rs_pin s.wiring down) (data_pins s.wiring down) (raised_e s) narrow
            first)

  strobe-low :
      (s : Lcd) (nibble : ℕ) (up down : Via C)
      → IsStrobe s.wiring up down
      → s.four_bit_mode ≡ true
      → strobe up down (half_received nibble s)
        ≡ execute_byte
            (rs_pin s.wiring down)
            (u8 (bit_or (nibble << 4) (data_pins s.wiring down >>> 4)))
            (record (rested s) { high_nibble = nibble; high_nibble_pending = false })
  strobe-low s nibble up down v narrow =
      strobe-latch (half_received nibble s) up down v refl
      ∙ ap low (
          latch_data-low (rs_pin s.wiring down) (data_pins s.wiring down)
            (raised_e (half_received nibble s)) narrow refl)
      ∙ execute_byte-low (rs_pin s.wiring down)
          (u8 (bit_or (nibble << 4) (data_pins s.wiring down >>> 4)))
          (record (raised_e (half_received nibble s)) { high_nibble_pending = false })

byte_joined :
    (h l byte : ℕ) → byte < 256 → h ≡ byte / 16 → l ≡ byte % 16 → u8 (bit_or (h << 4) l) ≡ byte
byte_joined h l byte b p q = omega (arith, bit_or_fields 4 h l (omega arith))

-- In 4-bit mode two strobes, first with the upper half of a byte on the upper data lines and then
-- with the lower half, do what the byte does.
pub strobe-nibbles :
    {C : Type 0} (s : Lcd) (byte : ℕ) (up1 down1 up2 down2 : Via C)
    → IsStrobe s.wiring up1 down1
    → IsStrobe s.wiring up2 down2
    → s.prev_e ≡ false
    → s.four_bit_mode ≡ true
    → s.high_nibble_pending ≡ false
    → byte < 256
    → data_pins s.wiring down1 / 16 ≡ byte / 16
    → data_pins s.wiring down2 / 16 ≡ byte % 16
    → strobe up2 down2 (strobe up1 down1 s)
      ≡ execute_byte
          (rs_pin s.wiring down2)
          byte
          (record (rested s) { high_nibble = byte / 16; high_nibble_pending = false })
strobe-nibbles s byte up1 down1 up2 down2 v w low_e narrow first bound p q =
    ap (strobe up2 down2)
      (strobe-high s up1 down1 v low_e narrow first ∙ ap (λ (t : ℕ). half_received t s) p)
    ∙ strobe-low s (byte / 16) up2 down2 w narrow
    ∙ ap
        (λ (t : ℕ).
          execute_byte (rs_pin s.wiring down2) t
            (record (rested s) { high_nibble = byte / 16; high_nibble_pending = false }))
        (byte_joined (byte / 16) (data_pins s.wiring down2 / 16) byte bound refl q)
