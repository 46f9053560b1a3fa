-- ===== src/Via/Timers.antt =====
-- The clocking of the VIA: via_6522_tick with the timers and the shift register, and the reset.
use workbench.Common.{
  none, ◌+◌, ◌-◌, ◌^◌, ◌==◌, true, false, ◌&&◌, not, if◌then◌else◌, u8, u16, u32, ◌<<◌, bit_and,
  bit_or, bit_xor, nonzero, ltb,
}
use workbench.Bus.{Bus}
use workbench.Via.State.{
  Via, int_sr, int_t1, int_t2, acr_t1_cont, acr_t1_out, acr_has, shifts_in, via_set_ifr,
}

module _ {C : Type 0} where
  -- Everything but the external drives is cleared.
  abbrev cleared : Via C → Via C
  cleared s = record s {
    orb = 0;
    ora = 0;
    ddrb = 0;
    ddra = 0;
    t1c = 0;
    t1l = 0;
    t2c = 0;
    t2l_lo = 0;
    sr = 0;
    acr = 0;
    pcr = 0;
    ifr = 0;
    ier = 0;
    pb7 = 0;
    t1_running = false;
    t2_running = false;
    t1_loaded = false;
    t2_loaded = false;
    t1_reload = false;
    t1_armed = false;
    t2_armed = false;
    sr_bits_remaining = 0;
    sr_shift_total = 0;
    prev_cb2 = 0;
    prev_res = 0;
  }

  -- With a bus, as the tick calls it.
  unfoldable pub via_6522_apply_reset : Via C × Bus → Via C × Bus
  via_6522_apply_reset (s, bus) = (cleared s, record bus { bank_config = 0; irq = 0 })

  -- Without a bus.
  unfoldable pub via_6522_reset : Via C → Via C
  via_6522_reset s = cleared s

  -- All zero; `null` is the context that nothing reads.
  unfoldable pub via_6522_init : C → Via C
  via_6522_init null = record {
    orb = 0;
    ora = 0;
    ddrb = 0;
    ddra = 0;
    t1c = 0;
    t1l = 0;
    t2c = 0;
    t2l_lo = 0;
    sr = 0;
    acr = 0;
    pcr = 0;
    ifr = 0;
    ier = 0;
    pb7 = 0;
    t1_running = false;
    t2_running = false;
    t1_loaded = false;
    t2_loaded = false;
    t1_reload = false;
    t1_armed = false;
    t2_armed = false;
    sr_bits_remaining = 0;
    sr_shift_total = 0;
    cb2_in = 0;
    prev_cb2 = 0;
    ca2_in = 0;
    prev_res = 0;
    porta_input = 0;
    portb_input = none;
    portb_input_ctx = null;
  }

  -- T1 rolls over from 0.
  unfoldable pub t1_timeout : Via C × Bus → Via C × Bus
  t1_timeout (s0, bus0) =
      let s = record s0 { t1c = 0xffff; t1_reload = true } in
      if acr_has acr_t1_cont s
      then (let (s1, bus1) = via_set_ifr int_t1 (s, bus0) in
          if acr_has acr_t1_out s1
          then (record s1 { pb7 = bit_xor s1.pb7 1 }, bus1)
          else (s1, bus1))
      else if s.t1_armed
      then (let (s1, bus1) = via_set_ifr int_t1 (record s { t1_armed = false }, bus0) in
          if acr_has acr_t1_out s1 then (record s1 { pb7 = 1 }, bus1) else (s1, bus1))
      else (s, bus0)

  unfoldable pub tick_t1 : Via C × Bus → Via C × Bus
  tick_t1 (s, bus) =
      if not s.t1_running
      then (s, bus)
      else if s.t1_loaded
      then (record s { t1_loaded = false }, bus)
      else if s.t1_reload
      then (record s { t1c = s.t1l; t1_reload = false }, bus)
      else if s.t1c == 0
      then t1_timeout (s, bus)
      else (record s { t1c = s.t1c - 1 }, bus)

  -- One bit of CB2 into SR.
  abbrev pub shifted : Via C → Via C
  shifted s = record s {
    sr = u8 (bit_or (s.sr << 1) (bit_and s.cb2_in 1));
    sr_bits_remaining = s.sr_bits_remaining - 1;
    sr_shift_total = u32 (s.sr_shift_total + 1);
  }

  -- A shift while bits are expected, with the interrupt after the last.
  unfoldable pub shift_in : Via C × Bus → Via C × Bus
  shift_in (s, bus) =
      if ltb 0 s.sr_bits_remaining
      then (if (shifted s).sr_bits_remaining == 0
          then via_set_ifr int_sr (shifted s, bus)
          else (shifted s, bus))
      else (s, bus)

  -- T2 in shift-in mode: at 0 it flags, shifts and reloads.
  unfoldable pub t2_shifting : Via C × Bus → Via C × Bus
  t2_shifting (s, bus) =
      if s.t2c == 0
      then (let (s1, bus1) = shift_in (via_set_ifr int_t2 (s, bus)) in
          (record s1 { t2c = s1.t2l_lo }, bus1))
      else (record s { t2c = s.t2c - 1 }, bus)

  -- T2 as an interval timer: it flags once and counts on.
  unfoldable pub t2_counting : Via C × Bus → Via C × Bus
  t2_counting (s, bus) =
      let (s1, bus1) =
        if (s.t2c == 0) && s.t2_armed
        then via_set_ifr int_t2 (record s { t2_armed = false }, bus)
        else (s, bus) in
      (record s1 { t2c = u16 (s1.t2c + 2 ^ 16 - 1) }, bus1)

  unfoldable pub tick_t2 : Via C × Bus → Via C × Bus
  tick_t2 (s, bus) =
      if not s.t2_running
      then (s, bus)
      else if s.t2_loaded
      then (record s { t2_loaded = false }, bus)
      else if shifts_in s
      then t2_shifting (s, bus)
      else t2_counting (s, bus)

  -- The rising edge of RES, then one count of each timer on a CPU cycle.
  unfoldable pub via_6522_tick : Via C × Bus → Via C × Bus
  via_6522_tick (s, bus) =
      let (s1, bus1) =
        if nonzero bus.res && not (nonzero s.prev_res)
        then via_6522_apply_reset (s, bus)
        else (s, bus) in
      let s2 = record s1 { prev_res = bus1.res } in
      if nonzero bus1.cpu_cycle_due then tick_t2 (tick_t1 (s2, bus1)) else (s2, bus1)
