-- ===== src/Lcd/Pins.antt =====
-- The display's lines on the ports of the VIA: lcd_hd44780_output and lcd_hd44780_tick of
-- lcd_hd44780.c. `none` is a display that is not hooked up to a VIA.
use workbench.Common.{
  ℕ, ◌+◌, ◌==◌, Bool, true, false, ◌&&◌, ◌||◌, not, Option, none, some, if◌then◌else◌, nonzero, u32,
  bit_and,
}
use workbench.Via.State.{Via}
use workbench.Via.Pins.{via_6522_porta_pins, via_6522_portb_pins}
use workbench.Lcd.State.{Lcd, Port, Wiring}
use workbench.Lcd.Memory.{read_value, advance_ac}
use workbench.Lcd.Commands.{latch_data}

module _ {C : Type 0} where
  unfoldable pub port_pins : Port → Via C → ℕ
  port_pins Port.port_a via = via_6522_porta_pins via
  port_pins Port.port_b via = via_6522_portb_pins via

  unfoldable pub pin : Port → ℕ → Via C → Bool
  pin port bit via = nonzero (bit_and (port_pins port via) bit)

  unfoldable pub port_ddr : Port → Via C → ℕ
  port_ddr Port.port_a via = via.ddra
  port_ddr Port.port_b via = via.ddrb

  unfoldable pub driven : Port → ℕ → Via C → Bool
  driven port bits via = bit_and (port_ddr port via) bits == bits

  -- The lines of the display, by its wiring.
  unfoldable pub e_pin : Wiring → Via C → Bool
  e_pin w via = pin w.e_port w.e_bit via

  unfoldable pub rs_pin : Wiring → Via C → Bool
  rs_pin w via = pin w.rs_port w.rs_bit via

  unfoldable pub rw_pin : Wiring → Via C → Bool
  rw_pin w via = pin w.rw_port w.rw_bit via

  unfoldable pub data_pins : Wiring → Via C → ℕ
  data_pins w via = bit_and (port_pins w.data_port via) w.data_mask

  unfoldable pub lcd_hd44780_output : Option (Via C) → Lcd → Option ℕ
  lcd_hd44780_output none s = none
  lcd_hd44780_output (some via) s =
      if not (e_pin s.wiring via) || not (rw_pin s.wiring via)
      then none
      else some (bit_and (read_value (rs_pin s.wiring via) s) s.wiring.data_mask)

  -- The VIA drives a data line that the display drives.
  unfoldable pub drives_data : Wiring → Via C → Bool
  drives_data w via = nonzero (bit_and (port_ddr w.data_port via) w.data_mask)

  -- A falling edge of E would latch a line that nothing drives.
  unfoldable pub floating : Wiring → Via C → Bool
  floating w via =
      not (driven w.rs_port w.rs_bit via)
      || not (driven w.rw_port w.rw_bit via)
      || (not (rw_pin w via) && not (driven w.data_port w.data_mask via))

  unfoldable pub check_contention : Via C → Lcd → Lcd
  check_contention via s =
      if (e_pin s.wiring via && rw_pin s.wiring via) && drives_data s.wiring via
      then record s {
        contention = if s.contending then s.contention else u32 (s.contention + 1);
        contending = true;
      }
      else record s { contending = false }

  unfoldable pub latch : Via C → Lcd → Lcd
  latch via s0 =
      let s =
        if floating s0.wiring via
        then record s0 { undriven_strobes = u32 (s0.undriven_strobes + 1) }
        else s0 in
      if rw_pin s0.wiring via
      then (if rs_pin s0.wiring via then advance_ac s else s)
      else latch_data (rs_pin s0.wiring via) (data_pins s0.wiring via) s

  unfoldable pub lcd_hd44780_tick : Option (Via C) → Lcd → Lcd
  lcd_hd44780_tick none s = s
  lcd_hd44780_tick (some via) s0 =
      let s1 = check_contention via s0 in
      let s2 = if s1.prev_e && not (e_pin s0.wiring via) then latch via s1 else s1 in
      record s2 { prev_e = e_pin s0.wiring via }
