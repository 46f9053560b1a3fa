-- ===== src/Via/Pins.antt =====
-- The VIA's pins as the other chips drive and watch them: via_6522_set_cb2, via_6522_set_ca2,
-- the drives of the ports and the inspectors of via_6522.c.
use workbench.Common.{
  ℕ, ◌-◌, ◌==◌, Bool, ◌&&◌, ◌||◌, not, Option, if◌then◌else◌, bit_and, bit_or, nonzero, to_bit,
}
use workbench.Bus.{Bus}
use workbench.Via.State.{
  Via, int_ca2, int_cb2, pcr_cb2_mask, pcr_cb2_ind_neg_e, pcr_ca2_mask, pcr_ca2_pos_e, via_set_ifr,
  porta_pin_value, portb_pin_value,
}

module _ {C : Type 0} where
  -- Whether PCR makes CB2 an input that flags negative edges.
  abbrev pub cb2_falls : Via C → Bool
  cb2_falls s = (bit_and s.pcr pcr_cb2_mask == pcr_cb2_ind_neg_e) || (bit_and s.pcr 0xc0 == 0x00)

  unfoldable pub via_6522_set_cb2 : ℕ → Via C × Bus → Via C × Bus
  via_6522_set_cb2 level (s, bus) =
      let s1 = record s { cb2_in = to_bit (nonzero level) } in
      if cb2_falls s1 && (nonzero s.cb2_in && not (nonzero s1.cb2_in))
      then via_set_ifr int_cb2 (s1, bus)
      else (s1, bus)

  -- Whether CA2 moves to `t` by the edge that PCR asks for.
  abbrev pub ca2_edge : Via C → Via C → Bool
  ca2_edge s t =
      if nonzero (bit_and (bit_and t.pcr pcr_ca2_mask) pcr_ca2_pos_e)
      then not (nonzero s.ca2_in) && nonzero t.ca2_in
      else nonzero s.ca2_in && not (nonzero t.ca2_in)

  unfoldable pub via_6522_set_ca2 : ℕ → Via C × Bus → Via C × Bus
  via_6522_set_ca2 level (s, bus) =
      let s1 : Via C = record s { ca2_in = to_bit (nonzero level) } in
      if nonzero (bit_and (bit_and s1.pcr pcr_ca2_mask) 0x08)
      then (s1, bus)
      else if ca2_edge s s1
      then via_set_ifr int_ca2 (s1, bus)
      else (s1, bus)

  unfoldable pub via_6522_set_portb_input : Option (C → ℕ) → C → Via C → Via C
  via_6522_set_portb_input input ctx s = record s { portb_input = input; portb_input_ctx = ctx }

  unfoldable pub via_6522_set_cb2_quiet : ℕ → Via C → Via C
  via_6522_set_cb2_quiet level s = record s { cb2_in = to_bit (nonzero level) }

  unfoldable pub via_6522_set_porta_input_bit : ℕ → ℕ → Via C → Via C
  via_6522_set_porta_input_bit bit_mask level s =
      if nonzero level
      then record s { porta_input = bit_or s.porta_input bit_mask }
      else record s { porta_input = bit_and s.porta_input (255 - bit_mask) }

  unfoldable pub via_6522_porta_pins : Via C → ℕ
  via_6522_porta_pins s = porta_pin_value s

  unfoldable pub via_6522_portb_pins : Via C → ℕ
  via_6522_portb_pins s = portb_pin_value s
