-- ===== src/Lcd/Tests.antt =====
-- The theorems on the display at concrete states.
use workbench.Common.{
  ℕ, ◌*◌, ◌/◌, ◌≡◌, ◌≤◌, ◌<◌, ◌%◌, ◌+◌, refl, inl, arith, List, [], ◌∷◌, none, some, true, false,
  length, get_or,
}
use workbench.Via.State.{Via, portb_pin_value, porta_pin_value}
use workbench.Via.Pins.{via_6522_porta_pins, via_6522_portb_pins}
use workbench.Via.Timers.{via_6522_init}
use workbench.Lcd.State.{
  Lcd, lcd_hd44780_init, lcd_hd44780_set_wiring, wiring_wendy2c, wiring_michael,
}
use workbench.Lcd.Memory.{ddram_index}
use workbench.Lcd.Commands.{execute_byte, lcd_hd44780_instruction}
use workbench.Lcd.Pins.{
  rs_pin, e_pin, pin, port_pins, rw_pin, floating, driven, port_ddr, data_pins,
}
use workbench.Lcd.Panel.{lcd_hd44780_cursor, lcd_hd44780_visible_bytes}
use workbench.Lcd.Ring.{IsCanonical, ring, put_text, write_text, write_text-ring, write_text-cells}
use workbench.Lcd.Latch.{rested}
use workbench.Lcd.Strobe.{strobe, strobe-nibbles}
use workbench.Lcd.Cursor.{address, set_ddram-shown}
use workbench.Lcd.History.{Event, run, run-fits, run-IsValid}
use workbench.Lcd.Valid.{IsValid}

-- "HI!" at the end of the first line of two.
abbrev greeting : List ℕ
greeting = 0x48 ∷ 0x49 ∷ 0x21 ∷ []

abbrev two_lines : Lcd
two_lines = record lcd_hd44780_init { two_line_mode = true; ac = 0x27 }

write_text-ring_example :
    (ring (write_text greeting two_lines) ≡ put_text two_lines.entry_id greeting (ring two_lines))
    × IsCanonical (write_text greeting two_lines)
unfolding lcd_hd44780_init
write_text-ring_example =
    write_text-ring greeting two_lines (record { mode = refl; address = refl })

write_text-cells_example :
    (write_text greeting two_lines).ddram ((ddram_index two_lines two_lines.ac + 2) % 80)
    ≡ get_or greeting 2 0
unfolding lcd_hd44780_init
write_text-cells_example =
    write_text-cells greeting two_lines 2 (record { mode = refl; address = refl }) refl
      (omega arith) (omega arith)

-- The VIA of the first machine drives all lines: E up or down, and a nibble on PA4 to PA7.
abbrev lines : ℕ → ℕ → Via ℕ
lines e nibble = record (via_6522_init 0) {
  ddra = 0xff;
  ddrb = 0xff;
  orb = e * 0x20;
  ora = nibble * 16 + 1;
}

abbrev narrow : Lcd
narrow = record lcd_hd44780_init { four_bit_mode = true }

strobe-nibbles_example :
    strobe (lines 1 4) (lines 0 4) (strobe (lines 1 8) (lines 0 8) narrow)
    ≡ execute_byte
        (rs_pin narrow.wiring (lines 0 4))
        0x84
        (record (rested narrow) { high_nibble = 0x84 / 16; high_nibble_pending = false })
unfolding lcd_hd44780_init via_6522_init e_pin pin port_pins via_6522_portb_pins portb_pin_value
    rw_pin via_6522_porta_pins porta_pin_value floating driven port_ddr data_pins
strobe-nibbles_example =
    strobe-nibbles narrow 0x84 (lines 1 8) (lines 0 8) (lines 1 4) (lines 0 4)
      (record { raised = refl; not_reading = refl; lowered = refl; writing = refl; steady = refl })
      (record { raised = refl; not_reading = refl; lowered = refl; writing = refl; steady = refl })
      refl refl refl (omega arith) refl refl

set_ddram-shown_example :
    (lcd_hd44780_cursor (lcd_hd44780_instruction (128 + address two_lines 1 3) two_lines) ≡ (1, 3))
    × (get_or
          (lcd_hd44780_visible_bytes (
            execute_byte true 0x41
              (lcd_hd44780_instruction (128 + address two_lines 1 3) two_lines)))
          (1 * two_lines.cols + 3)
          0
        ≡ 0x41)
unfolding lcd_hd44780_init
set_ddram-shown_example = set_ddram-shown two_lines 1 3 0x41 (record {
  row = omega arith;
  col = omega arith;
  rows = omega arith;
  cols = omega arith;
  distinct = inl (omega arith);
})

-- A geometry that is clamped, two lines, the highest address, and clocks.
abbrev history : List (Event ℕ)
history =
    Event.set_geometry 9 40
    ∷ Event.instruct 0x28
    ∷ Event.instruct 0xff
    ∷ Event.tick (some (via_6522_init 0))
    ∷ Event.tick none
    ∷ Event.render
    ∷ Event.reset
    ∷ []

run-IsValid_example : IsValid (run history (lcd_hd44780_set_wiring wiring_michael lcd_hd44780_init))
run-IsValid_example = run-IsValid history wiring_michael (omega arith)

run-fits_example :
    (length (
        lcd_hd44780_visible_bytes
          (run history (lcd_hd44780_set_wiring wiring_wendy2c lcd_hd44780_init)))
      ≤ 80)
    × (ddram_index (run history (lcd_hd44780_set_wiring wiring_wendy2c lcd_hd44780_init)) 0xff < 80)
run-fits_example = run-fits history wiring_wendy2c 0xff (omega arith)
