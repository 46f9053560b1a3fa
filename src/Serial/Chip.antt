-- ===== src/Serial/Chip.antt =====
-- The clock and the reset of the serial chip, emulator/chips/serial_usb.c. The VIA that it drives
-- is a part of the state; `none` is a chip that is not hooked up.
use workbench.Common.{
  ℕ, zero, suc, ◌+◌, ◌-◌, Bool, ◌&&◌, ◌||◌, not, Option, none, some, if◌then◌else◌, ltb, nonzero,
  u8, u32, ◌>>>◌, bit_and,
}
use workbench.Bus.{Bus}
use workbench.Via.State.{Via, int_cb2, int_sr}
use workbench.Via.Pins.{via_6522_set_cb2, via_6522_set_cb2_quiet}
use workbench.Serial.Queue.{SerialUsb, Phase, queue_empty, queue_pop}

-- Bit 0 is the lowest.
unfoldable pub byte_bit : ℕ → ℕ → ℕ
byte_bit byte bit_index = u8 (bit_and (byte >>> bit_index) 1)

module _ {C : Type 0} where
  -- Whether the program takes a byte: its interrupt is enabled and the last one is dealt with.
  unfoldable pub takes : Via C → Bool
  takes via =
      nonzero (bit_and via.ier int_cb2)
      && (not (nonzero (bit_and via.ifr int_cb2)) && not (nonzero (bit_and via.ifr int_sr)))

  -- The start bit, and the first bit of the byte behind it.
  unfoldable pub send_start : SerialUsb → Via C × Bus → SerialUsb × (Via C × Bus)
  send_start s (via, bus) =
      let (byte, s1) = queue_pop s in
      let (via1, bus1) = via_6522_set_cb2 0 (via, bus) in
      (
        record s1 {
          current_byte = byte;
          bit_index = 0;
          prev_shift_total = via.sr_shift_total;
          state = Phase.shifting;
        },
        (via_6522_set_cb2_quiet (byte_bit byte 0) via1, bus1),
      )

  -- One step for each shift of the VIA since the last tick, up to the end of the byte.
  unfoldable pub follow : ℕ → SerialUsb → Via C → SerialUsb × Via C
  follow zero s via = (s, via)
  follow (suc shifts) s via =
      let s1 = record s {
        prev_shift_total = u32 (s.prev_shift_total + 1);
        bit_index = u8 (s.bit_index + 1);
      } in
      let rest =
        follow shifts s1 (via_6522_set_cb2_quiet (byte_bit s.current_byte s1.bit_index) via) in
      if ltb s1.bit_index 8
      then rest
      else (record s1 { state = Phase.idle }, via_6522_set_cb2_quiet 1 via)

  unfoldable pub tick_phase : Phase → SerialUsb → Via C × Bus → SerialUsb × (Via C × Bus)
  tick_phase Phase.idle s (via, bus) =
      if queue_empty s || not (takes via) then (s, (via, bus)) else send_start s (via, bus)
  tick_phase Phase.start s (via, bus) = (record s { state = Phase.idle }, (via, bus))
  tick_phase Phase.shifting s (via, bus) =
      let (s1, via1) = follow (via.sr_shift_total - s.prev_shift_total) s via in (s1, (via1, bus))

  unfoldable pub hooked : SerialUsb × (Via C × Bus) → SerialUsb × (Option (Via C) × Bus)
  hooked (s, (via, bus)) = (s, (some via, bus))

  unfoldable pub serial_usb_tick :
      SerialUsb × (Option (Via C) × Bus) → SerialUsb × (Option (Via C) × Bus)
  serial_usb_tick (s, (none, bus)) = (s, (none, bus))
  serial_usb_tick (s, (some via, bus)) = hooked (tick_phase s.state s (via, bus))

  -- CB2 at its idle level.
  unfoldable pub idle_high : Option (Via C) → Option (Via C)
  idle_high none = none
  idle_high (some via) = some (via_6522_set_cb2_quiet 1 via)

  unfoldable pub serial_usb_reset : SerialUsb × Option (Via C) → SerialUsb × Option (Via C)
  serial_usb_reset (s, via) = (
    record s {
      head = 0;
      tail = 0;
      state = Phase.idle;
      current_byte = 0;
      bit_index = 0;
      prev_shift_total = 0;
    },
    idle_high via,
  )

  unfoldable pub serial_usb_init : Option (Via C) → SerialUsb × Option (Via C)
  serial_usb_init via = (
    record {
      buf = λ a. 0;
      head = 0;
      tail = 0;
      state = Phase.idle;
      current_byte = 0;
      bit_index = 0;
      prev_shift_total = 0;
    },
    idle_high via,
  )
