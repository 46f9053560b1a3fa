-- ===== src/Lcd/History.antt =====
-- Histories of the display: the clock, the instructions, the setters and the reset in any order.
use workbench.Common.{
  length, ℕ, ◌+◌, ◌<◌, ◌≤◌, refl, Bool, true, false, ◌&&◌, not, Option, none, some, if◌then◌else◌,
  arith, List, [], ◌∷◌, u32, bit_and-le_mask,
}
use workbench.Lcd.Pins.{
  port_pins, e_pin, rs_pin, rw_pin, data_pins, floating, drives_data, check_contention, latch,
  lcd_hd44780_tick,
}
use workbench.Via.State.{Via}
use workbench.Lcd.State.{
  Lcd, Wiring, clamped, lcd_hd44780_reset, lcd_hd44780_init, lcd_hd44780_set_wiring,
  lcd_hd44780_set_geometry,
}
use workbench.Lcd.Memory.{advance_ac, ddram_index}
use workbench.Lcd.Commands.{execute_byte, latch_data, write_cell, lcd_hd44780_instruction}
use workbench.Lcd.Panel.{lcd_hd44780_render, lcd_hd44780_visible_bytes}
use workbench.Lcd.Bytes.{visible_bytes-length}
use workbench.Lcd.Ring.{ddram_index-lt}
use workbench.Lcd.Valid.{
  IsValid, if-IsValid, moved-IsValid, advance_ac-IsValid, command-IsValid, write_cell-IsValid,
}

pub data Event (C : Type 0) : Type 0 where
  tick : Option (Via C) → Event C
  instruct : ℕ → Event C
  set_geometry : ℕ → ℕ → Event C
  reset : Event C
  render : Event C

execute_byte-IsValid :
    (rs : Bool) (byte : ℕ) (s : Lcd) → byte < 256 → IsValid s → IsValid (execute_byte rs byte s)
unfolding execute_byte
execute_byte-IsValid true byte s h v =
    let w = advance_ac-IsValid (write_cell byte s) (write_cell-IsValid s byte h v) in
    moved-IsValid (advance_ac (write_cell byte s)) _ w w.ac w.cgram_ac w.font w.nibble refl refl
      refl refl refl
execute_byte-IsValid false byte s h v = command-IsValid s byte v

latch_data-IsValid :
    (rs : Bool) (byte : ℕ) (s : Lcd) → byte < 256 → IsValid s → IsValid (latch_data rs byte s)
unfolding latch_data
latch_data-IsValid rs byte s h v =
    if-IsValid s.four_bit_mode
      (if-IsValid (not s.high_nibble_pending)
        (moved-IsValid s _ v v.ac v.cgram_ac v.font (omega arith) refl refl refl refl refl)
        (execute_byte-IsValid rs _ _ (omega arith)
          (moved-IsValid s _ v v.ac v.cgram_ac v.font v.nibble refl refl refl refl refl)))
      (execute_byte-IsValid rs byte s h v)

clamped-bounds : (high n : ℕ) → 1 ≤ high → (1 ≤ clamped 1 high n) × (clamped 1 high n ≤ high)
clamped-bounds high n h = ground arith

module _ {C : Type 0} where
  unfoldable pub happens : Event C → Lcd → Lcd
  happens (Event.tick via) s = lcd_hd44780_tick via s
  happens (Event.instruct byte) s = lcd_hd44780_instruction byte s
  happens (Event.set_geometry rows cols) s = lcd_hd44780_set_geometry rows cols s
  happens Event.reset s = lcd_hd44780_reset s
  happens Event.render s = (lcd_hd44780_render s).1.1

  unfoldable pub run : List (Event C) → Lcd → Lcd
  run [] s = s
  run (e ∷ events) s = run events (happens e s)

  check_contention-IsValid : (via : Via C) (s : Lcd) → IsValid s → IsValid (check_contention via s)
  unfolding check_contention
  check_contention-IsValid via s v =
      if-IsValid ((e_pin s.wiring via && rw_pin s.wiring via) && drives_data s.wiring via)
        (moved-IsValid s _ v v.ac v.cgram_ac v.font v.nibble refl refl refl refl refl)
        (moved-IsValid s _ v v.ac v.cgram_ac v.font v.nibble refl refl refl refl refl)

  data_pins-lt : (w : Wiring) (via : Via C) → w.data_mask < 256 → data_pins w via < 256
  unfolding data_pins
  data_pins-lt w via h = omega (arith, bit_and-le_mask (port_pins w.data_port via) w.data_mask)

  latch-IsValid : (via : Via C) (s : Lcd) → IsValid s → IsValid (latch via s)
  unfolding latch
  latch-IsValid via s0 v =
      let s =
        if floating s0.wiring via
        then record s0 { undriven_strobes = u32 (s0.undriven_strobes + 1) }
        else s0 in
      let w : IsValid s =
        if-IsValid (floating s0.wiring via)
          (moved-IsValid s0 _ v v.ac v.cgram_ac v.font v.nibble refl refl refl refl refl) v in
      if-IsValid (rw_pin s0.wiring via)
        (if-IsValid (rs_pin s0.wiring via) (advance_ac-IsValid s w) w)
        (latch_data-IsValid (rs_pin s0.wiring via) _ s (data_pins-lt s0.wiring via v.mask) w)

  tick-IsValid : (via : Option (Via C)) (s : Lcd) → IsValid s → IsValid (lcd_hd44780_tick via s)
  unfolding lcd_hd44780_tick
  tick-IsValid none s v = v
  tick-IsValid (some via) s0 v =
      let s1 = check_contention via s0 in
      let v1 = check_contention-IsValid via s0 v in
      let falls = s1.prev_e && not (e_pin s0.wiring via) in
      let v2 = if-IsValid falls (latch-IsValid via s1 v1) v1 in
      moved-IsValid (if falls then latch via s1 else s1) _ v2 v2.ac v2.cgram_ac v2.font v2.nibble
        refl refl refl refl refl

  happens-IsValid : (e : Event C) (s : Lcd) → IsValid s → IsValid (happens e s)
  unfolding happens lcd_hd44780_instruction execute_byte lcd_hd44780_set_geometry lcd_hd44780_reset
      lcd_hd44780_render
  happens-IsValid (Event.tick via) s v = tick-IsValid via s v
  happens-IsValid (Event.instruct byte) s v = command-IsValid s byte v
  happens-IsValid (Event.set_geometry rows cols) s v = record {
    ac = v.ac;
    cgram_ac = v.cgram_ac;
    nibble = v.nibble;
    font = v.font;
    cells = v.cells;
    patterns = v.patterns;
    mask = v.mask;
    rows_low = (clamped-bounds 4 rows (omega arith)).0;
    rows_high = (clamped-bounds 4 rows (omega arith)).1;
    cols_low = (clamped-bounds 20 cols (omega arith)).0;
    cols_high = (clamped-bounds 20 cols (omega arith)).1;
  }
  happens-IsValid Event.reset s v = record {
    ac = omega arith;
    cgram_ac = λ h. omega arith;
    nibble = omega arith;
    font = λ h. refl;
    cells = λ i. omega arith;
    patterns = λ i. omega arith;
    mask = v.mask;
    rows_low = v.rows_low;
    rows_high = v.rows_high;
    cols_low = v.cols_low;
    cols_high = v.cols_high;
  }
  happens-IsValid Event.render s v =
      moved-IsValid s _ v v.ac v.cgram_ac v.font v.nibble refl refl refl refl refl

  -- From the initial state with a wiring of at most eight data lines, and over any sequence of
  -- clocks with any VIA or none, instructions, changes of the geometry, renderings and resets, the
  -- registers keep to their widths and the cells to bytes, an address in the character generator is
  -- below 64, the tall font is only on with one line, and there are 1 to 4 rows of 1 to 20 columns.
  pub run-IsValid :
      (events : List (Event C)) (w : Wiring)
      → w.data_mask < 256
      → IsValid (run events (lcd_hd44780_set_wiring w lcd_hd44780_init))
  unfolding run lcd_hd44780_init lcd_hd44780_set_wiring
  run-IsValid events w h = from events _ (record {
    ac = omega arith;
    cgram_ac = λ e. omega arith;
    nibble = omega arith;
    font = λ e. refl;
    cells = λ i. omega arith;
    patterns = λ i. omega arith;
    mask = h;
    rows_low = omega arith;
    rows_high = omega arith;
    cols_low = omega arith;
    cols_high = omega arith;
  })
    where
      from : (events : List (Event C)) (s : Lcd) → IsValid s → IsValid (run events s)
      from [] s v = v
      from (e ∷ events) s v = from events (happens e s) (happens-IsValid e s v)

  -- The panel's text fits a buffer of 80 bytes, and every address reads and writes one of the 80
  -- cells of the display memory, after any history from the initial state.
  pub run-fits :
      (events : List (Event C)) (w : Wiring) (addr : ℕ)
      → w.data_mask < 256
      → (length (lcd_hd44780_visible_bytes (run events (lcd_hd44780_set_wiring w lcd_hd44780_init)))
          ≤ 80)
        × (ddram_index (run events (lcd_hd44780_set_wiring w lcd_hd44780_init)) addr < 80)
  run-fits events w addr h =
      let s = run events (lcd_hd44780_set_wiring w lcd_hd44780_init) in
      let v = run-IsValid events w h in
      let fit = visible_bytes-length s v.rows_high v.cols_high in
      (omega (arith, fit.0, fit.1), ddram_index-lt s addr)
