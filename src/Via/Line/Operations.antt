-- ===== src/Via/Line/Operations.antt =====
-- The operations of emulator/chips/via_6522.c and the interrupt line.
use workbench.Via.Timers.{
  shifted, via_6522_init, via_6522_apply_reset, t1_timeout, tick_t1, shift_in, t2_shifting,
  t2_counting, tick_t2, via_6522_tick,
}
use workbench.Via.State.{
  int_ca2, pcr_ca2_mask, int_cb2, update_bank_config, acr_t1_out, acr_t1_cont, acr_has, int_t2,
  int_sr, int_t1, shifts_in, Via, ora_access,
}
use workbench.Common.{
  ◌==◌, if◌then◌else◌, bit_and, ◌-◌, ltb, to_bit, ℕ, refl, Bool, true, false, List, [], ◌∷◌, ◌&&◌,
  not, nonzero,
}
use workbench.Via.Line.{
  update_irq-IsLine, via_clear_ifr, via_set_ifr, update_bank_config, IsLine, via_set_ifr-IsLine,
  via_clear_ifr-IsLine, if-IsLine, kept-IsLine,
}
use workbench.Via.Access.{
  register, start_t2, loaded_t1, start_t1, Register, read_register, write_register, via_6522_read,
  via_6522_write,
}
use workbench.Bus.{bus_init, Bus}
use workbench.Via.Pins.{
  via_6522_set_cb2, via_6522_set_ca2, via_6522_set_cb2_quiet, via_6522_set_porta_input_bit,
  cb2_falls, ca2_edge, via_6522_set_portb_input,
}
use workbench.Via.Events.{Event, happens, run, powered}

module _ {C : Type 0} where
  ora_access-IsLine : (s : Via C) (bus : Bus) → IsLine (s, bus) → IsLine (ora_access (s, bus))
  unfolding ora_access
  ora_access-IsLine s bus v = if-IsLine _ (via_clear_ifr-IsLine _ s bus) v

  read_register-IsLine :
      (r : Register) (s : Via C) (bus : Bus) → IsLine (s, bus) → IsLine (read_register r (s, bus)).1
  unfolding read_register
  read_register-IsLine Register.ora s bus v = ora_access-IsLine s bus v
  read_register-IsLine Register.t1cl s bus v = via_clear_ifr-IsLine _ s bus
  read_register-IsLine Register.t2cl s bus v = via_clear_ifr-IsLine _ s bus
  read_register-IsLine Register.sr s bus v =
      let cleared = via_clear_ifr-IsLine int_sr s bus in
      if-IsLine (shifts_in (via_clear_ifr int_sr (s, bus)).0)
        (kept-IsLine (via_clear_ifr int_sr (s, bus)) _ refl refl refl cleared) cleared
  read_register-IsLine _ s bus v = v

  start_t1-IsLine : (d : ℕ) (s : Via C) (bus : Bus) → IsLine (start_t1 d (s, bus))
  unfolding start_t1
  start_t1-IsLine d s bus =
      kept-IsLine (via_clear_ifr int_t1 (loaded_t1 d s, bus)) _ refl refl refl
        (via_clear_ifr-IsLine int_t1 (loaded_t1 d s) bus)

  write_register-IsLine :
      (r : Register) (d : ℕ) (s : Via C) (bus : Bus)
      → IsLine (s, bus)
      → IsLine (write_register r d (s, bus))
  unfolding write_register update_bank_config start_t2
  write_register-IsLine Register.ora d s bus v =
      kept-IsLine (ora_access (s, bus)) _ refl refl refl (ora_access-IsLine s bus v)
  write_register-IsLine Register.t1ch d s bus v = start_t1-IsLine d s bus
  write_register-IsLine Register.t1lh d s bus v = via_clear_ifr-IsLine _ _ _
  write_register-IsLine Register.t2ch d s bus v = via_clear_ifr-IsLine _ _ _
  write_register-IsLine Register.sr d s bus v = via_clear_ifr-IsLine _ _ _
  write_register-IsLine Register.ifr d s bus v = update_irq-IsLine _ _
  write_register-IsLine Register.ier d s bus v =
      if-IsLine _ (update_irq-IsLine _ _) (update_irq-IsLine _ _)
  write_register-IsLine _ d s bus v = kept-IsLine (s, bus) _ refl refl refl v

  apply_reset-IsLine : (s : Via C) (bus : Bus) → IsLine (via_6522_apply_reset (s, bus))
  unfolding via_6522_apply_reset
  apply_reset-IsLine s bus = record { line = refl; flag = refl }

  t1_timeout-IsLine : (s : Via C) (bus : Bus) → IsLine (s, bus) → IsLine (t1_timeout (s, bus))
  unfolding t1_timeout
  t1_timeout-IsLine s bus v =
      let s1 : Via C = record s { t1c = 0xffff; t1_reload = true } in
      let s2 : Via C = record s1 { t1_armed = false } in
      let first = via_set_ifr-IsLine int_t1 s1 bus in
      let last = via_set_ifr-IsLine int_t1 s2 bus in
      if-IsLine (acr_has acr_t1_cont s1)
        (if-IsLine (acr_has acr_t1_out (via_set_ifr int_t1 (s1, bus)).0)
          (kept-IsLine (via_set_ifr int_t1 (s1, bus)) _ refl refl refl first) first)
        (if-IsLine s1.t1_armed
          (if-IsLine (acr_has acr_t1_out (via_set_ifr int_t1 (s2, bus)).0)
            (kept-IsLine (via_set_ifr int_t1 (s2, bus)) _ refl refl refl last) last)
          (kept-IsLine (s, bus) _ refl refl refl v))

  tick_t1-IsLine : (s : Via C) (bus : Bus) → IsLine (s, bus) → IsLine (tick_t1 (s, bus))
  unfolding tick_t1
  tick_t1-IsLine s bus v = if-IsLine (not s.t1_running) v (
      if-IsLine s.t1_loaded (kept-IsLine (s, bus) _ refl refl refl v) (
        if-IsLine s.t1_reload (kept-IsLine (s, bus) _ refl refl refl v) (
          if-IsLine (s.t1c == 0) (t1_timeout-IsLine s bus v)
            (kept-IsLine (s, bus) _ refl refl refl v))))

  shift_in-IsLine : (s : Via C) (bus : Bus) → IsLine (s, bus) → IsLine (shift_in (s, bus))
  unfolding shift_in
  shift_in-IsLine s bus v =
      if-IsLine (ltb 0 s.sr_bits_remaining)
        (if-IsLine (s.sr_bits_remaining - 1 == 0) (via_set_ifr-IsLine int_sr (shifted s) bus)
          (kept-IsLine (s, bus) _ refl refl refl v))
        v

  t2_shifting-IsLine : (s : Via C) (bus : Bus) → IsLine (s, bus) → IsLine (t2_shifting (s, bus))
  unfolding t2_shifting
  t2_shifting-IsLine s bus v =
      let q = via_set_ifr int_t2 (s, bus) in
      if-IsLine (s.t2c == 0)
        (kept-IsLine (shift_in q) _ refl refl refl
          (shift_in-IsLine q.0 q.1 (via_set_ifr-IsLine int_t2 s bus)))
        (kept-IsLine (s, bus) _ refl refl refl v)

  t2_counting-IsLine : (s : Via C) (bus : Bus) → IsLine (s, bus) → IsLine (t2_counting (s, bus))
  unfolding t2_counting
  t2_counting-IsLine s bus v =
      let b = (s.t2c == 0) && s.t2_armed in
      let q = via_set_ifr int_t2 (record s { t2_armed = false }, bus) in
      kept-IsLine (if b then q else (s, bus)) _ refl refl refl
        (if-IsLine b (via_set_ifr-IsLine int_t2 (record s { t2_armed = false }) bus) v)

  tick_t2-IsLine : (s : Via C) (bus : Bus) → IsLine (s, bus) → IsLine (tick_t2 (s, bus))
  unfolding tick_t2
  tick_t2-IsLine s bus v = if-IsLine (not s.t2_running) v (
      if-IsLine s.t2_loaded (kept-IsLine (s, bus) _ refl refl refl v)
        (if-IsLine (shifts_in s) (t2_shifting-IsLine s bus v) (t2_counting-IsLine s bus v)))

  tick-IsLine : (s : Via C) (bus : Bus) → IsLine (s, bus) → IsLine (via_6522_tick (s, bus))
  unfolding via_6522_tick
  tick-IsLine s bus v =
      let b = nonzero bus.res && not (nonzero s.prev_res) in
      let q = if b then via_6522_apply_reset (s, bus) else (s, bus) in
      let s2 : Via C = record q.0 { prev_res = q.1.res } in
      let ready : IsLine (s2, q.1) =
        kept-IsLine q _ refl refl refl (if-IsLine b (apply_reset-IsLine s bus) v) in
      let t = tick_t1 (s2, q.1) in
      if-IsLine (nonzero q.1.cpu_cycle_due) (tick_t2-IsLine t.0 t.1 (tick_t1-IsLine s2 q.1 ready))
        ready

  set_cb2-IsLine :
      (level : ℕ) (s : Via C) (bus : Bus)
      → IsLine (s, bus)
      → IsLine (via_6522_set_cb2 level (s, bus))
  unfolding via_6522_set_cb2
  set_cb2-IsLine level s bus v =
      let s1 : Via C = record s { cb2_in = to_bit (nonzero level) } in
      if-IsLine (cb2_falls s1 && (nonzero s.cb2_in && not (nonzero s1.cb2_in)))
        (via_set_ifr-IsLine int_cb2 s1 bus) (kept-IsLine (s, bus) _ refl refl refl v)

  set_ca2-IsLine :
      (level : ℕ) (s : Via C) (bus : Bus)
      → IsLine (s, bus)
      → IsLine (via_6522_set_ca2 level (s, bus))
  unfolding via_6522_set_ca2
  set_ca2-IsLine level s bus v =
      let s1 : Via C = record s { ca2_in = to_bit (nonzero level) } in
      let kept : IsLine (s1, bus) = kept-IsLine (s, bus) _ refl refl refl v in
      if-IsLine (nonzero (bit_and (bit_and s1.pcr pcr_ca2_mask) 0x08)) kept
        (if-IsLine (ca2_edge s s1) (via_set_ifr-IsLine int_ca2 s1 bus) kept)

  -- Through the test for the select, and the one for the level of an input.
  answered-IsLine :
      {A : Type 0} (x y : A × (Via C × Bus)) (b : Bool)
      → IsLine x.1
      → IsLine y.1
      → IsLine (if b then x else y).1
  answered-IsLine x y true v w = v
  answered-IsLine x y false v w = w

  driven-IsLine :
      (b : Bool) {s t : Via C} {bus : Bus}
      → IsLine (s, bus)
      → IsLine (t, bus)
      → IsLine (if b then s else t, bus)
  driven-IsLine true v w = v
  driven-IsLine false v w = w

  happens-IsLine :
      (e : Event C) (s : Via C) (bus : Bus) → IsLine (s, bus) → IsLine (happens e (s, bus))
  unfolding happens via_6522_read via_6522_write via_6522_set_cb2_quiet via_6522_set_portb_input
      via_6522_set_porta_input_bit
  happens-IsLine (Event.read addr) s bus v =
      answered-IsLine _ _ (nonzero bus.viacs) (read_register-IsLine (register addr) s bus v) v
  happens-IsLine (Event.write addr d) s bus v =
      answered-IsLine _ _ (nonzero bus.viacs) (write_register-IsLine (register addr) d s bus v) v
  happens-IsLine Event.tick s bus v = tick-IsLine s bus v
  happens-IsLine (Event.set_cb2 level) s bus v = set_cb2-IsLine level s bus v
  happens-IsLine (Event.set_ca2 level) s bus v = set_ca2-IsLine level s bus v
  happens-IsLine (Event.set_porta_input_bit mask level) s bus v =
      driven-IsLine (nonzero level) (kept-IsLine (s, bus) _ refl refl refl v)
        (kept-IsLine (s, bus) _ refl refl refl v)
  happens-IsLine _ s bus v = kept-IsLine (s, bus) _ refl refl refl v

  -- From power-on, over any sequence of register accesses, clocks with or without a RES edge, and
  -- changes of the pins and the bus lines, the interrupt line is up exactly when an enabled
  -- interrupt is flagged, and bit 7 of IFR tells the same.
  pub run-IsLine : (events : List (Event C)) (null : C) → IsLine (run events (powered null))
  unfolding run via_6522_init bus_init
  run-IsLine events null = from events _ _ (record { line = refl; flag = refl })
    where
      from :
          (events : List (Event C)) (s : Via C) (bus : Bus)
          → IsLine (s, bus)
          → IsLine (run events (s, bus))
      from [] s bus v = v
      from (e ∷ events) s bus v = from events _ _ (happens-IsLine e s bus v)
