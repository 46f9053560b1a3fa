-- ===== src/Keyboard/Tick.antt =====
-- The tick, the output and the init of the keyboard board, emulator/chips/ps2_keyboard_board.c.
-- The VIA that the board is wired to is a part of the state.
use workbench.Common.{
  ℕ, ◌+◌, ◌-◌, ◌==◌, Bool, true, false, ◌||◌, ◌&&◌, not, Option, none, some, if◌then◌else◌, ltb,
  leb, u64, bit_and, nonzero,
}
use workbench.Bus.{Bus}
use workbench.Via.State.{Via}
use workbench.Via.Pins.{via_6522_set_ca2, via_6522_porta_pins, via_6522_portb_pins}
use workbench.Keyboard.Queue.{ByteQueue, queue_take}
use workbench.Keyboard.Board.{KeyboardBoard, Fault, us, start_frame, receive_command, key_interval}

abbrev pub solb : ℕ
solb = 0x08

abbrev pub soeb : ℕ
soeb = 0x10

abbrev pub start : ℕ
start = 0x20

abbrev pub detect_idle_us : ℕ
detect_idle_us = 150

abbrev pub start_delay_us : ℕ
start_delay_us = 1000

abbrev pub byte_gap_us : ℕ
byte_gap_us = 1000

-- The frame on the wire ends.
unfoldable pub tick_end : ℕ → KeyboardBoard → KeyboardBoard
tick_end now s =
    if s.active && leb s.frame_end now
    then (let s1 = record s {
      active = false;
      detector_until = u64 (now + us s detect_idle_us);
      shift_register = s.frame_byte;
    } in
        if s.from_host then receive_command s.frame_byte now s1 else record s1 {
          next_send =
              u64 (now + us s (if s.frame_last_of_key then s.key_interval_us else byte_gap_us));
        })
    else s

unfoldable pub detector_level : Fault → Bool → ℕ
detector_level Fault.no_edge busy = 1
detector_level Fault.no_fault busy = if busy then 0 else 1
detector_level Fault.no_ack busy = if busy then 0 else 1
detector_level Fault.resend busy = if busy then 0 else 1

module _ {C : Type 0} where
  -- A pin reads low where the VIA drives it low.
  unfoldable pub driven_low : Via C → ℕ → Bool
  driven_low via bit =
      nonzero (bit_and via.ddra bit) && not (nonzero (bit_and (via_6522_porta_pins via) bit))

  -- The host releases the clock.
  unfoldable pub tick_release : ℕ → Via C → KeyboardBoard → KeyboardBoard
  tick_release now via s =
      let solb_low = driven_low via solb in
      let s1 =
        if s.prev_solb_low && not solb_low
        then (let detected = record s { detector_until = u64 (now + us s detect_idle_us) } in
            if driven_low via start && not s.active
            then start_frame (u64 (now + us s start_delay_us)) (via_6522_portb_pins via) true
                detected
            else detected)
        else s in
      record s1 { prev_solb_low = solb_low }

  -- A frame from the keyboard: a reply first, or a key once the host has been quiet.
  unfoldable pub tick_send : ℕ → Via C → KeyboardBoard → KeyboardBoard
  tick_send now via s =
      if not s.active && (not (driven_low via solb) && leb s.next_send now)
      then (if nonzero s.replies.count
          then (let (entry, replies) = queue_take s.replies in
              start_frame now entry false (record s { replies = replies }))
          else if nonzero s.keys.count && (nonzero s.commands && leb s.keys_after now)
          then (let (entry, keys) = queue_take s.keys in
              start_frame now entry false (record s { keys = keys }))
          else s)
      else s

  unfoldable pub clock_busy : ℕ → Via C → KeyboardBoard → Bool
  clock_busy now via s =
      driven_low via solb || ((s.active && leb s.frame_start now) || ltb now s.detector_until)

  -- The frame detector drives CA2.
  unfoldable pub tick_detector : ℕ → KeyboardBoard × (Via C × Bus) → KeyboardBoard × (Via C × Bus)
  tick_detector now (s, (via, bus)) =
      let ca2 = detector_level s.fault (clock_busy now via s) in
      if ca2 == s.ca2
      then (s, (via, bus))
      else (record s { ca2 = ca2 }, via_6522_set_ca2 ca2 (via, bus))

  unfoldable pub ps2_keyboard_board_tick :
      KeyboardBoard × (Via C × Bus) → KeyboardBoard × (Via C × Bus)
  ps2_keyboard_board_tick (s, (via, bus)) =
      let now = bus.osc_ticks in
      tick_detector now (tick_send now via (tick_end now (tick_release now via s)), (via, bus))

  -- The byte on PORTB while SOEB is low.
  unfoldable pub ps2_board_output : Via C → KeyboardBoard → Option ℕ
  ps2_board_output via s = if driven_low via soeb then some (255 - s.shift_register) else none

  unfoldable pub ps2_keyboard_board_init : ℕ → Via C → KeyboardBoard × Via C
  ps2_keyboard_board_init ticks_per_us via =
      let queue : ByteQueue = record { entries = λ a. 0; head = 0; count = 0 } in
      (
        record {
          ticks_per_us = ticks_per_us;
          fault = Fault.no_fault;
          shift_register = 0;
          prev_solb_low = false;
          ca2 = 1;
          active = false;
          from_host = false;
          frame_byte = 0;
          frame_last_of_key = false;
          frame_start = 0;
          frame_end = 0;
          detector_until = 0;
          replies = queue;
          keys = queue;
          next_send = 0;
          keys_after = 0;
          key_interval_us = key_interval;
          awaiting_argument_for = 0;
          commands = 0;
        },
        record via { ca2_in = 1 },
      )
