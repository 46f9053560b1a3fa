-- ===== src/Serial/Deliver.antt =====
-- A byte from the queue of emulator/chips/serial_usb.c into the shift register of the VIA.
use workbench.Via.Receiver.{Receiver, IsActive, view}
use workbench.Serial.Rounds.{sending, round, between, ended, rounds, reversed, levels_reversed}
use workbench.Common.{
  ◌*◌, to_bit, ◌||◌, subst, repeat, ap, ℕ, ◌+◌, ◌%◌, ◌^◌, ◌≡◌, ◌<◌, ◌∙◌, refl, sym, Bool, true,
  false, ◌&&◌, not, if◌then◌else◌, List, arith, passed, nonzero, digit,
}
use workbench.Bus.{Bus}
use workbench.Via.State.{Via, int_cb2, int_sr, update_irq, via_set_ifr, via_clear_ifr}
use workbench.Via.Access.{Register, read_register}
use workbench.Via.Pins.{cb2_falls, via_6522_set_cb2, via_6522_set_cb2_quiet}
use workbench.Via.Shift.{
  expecting, expecting-view, expecting-IsActive, primed, clock_in, byte_levels, clock_in-byte,
}
use workbench.Serial.Queue.{buf_size, SerialUsb, Phase, queue_empty, queue_pop}
use workbench.Serial.Chip.{byte_bit, takes, send_start, tick_phase}

-- The chip while it sends the byte at the tail.
abbrev taken : SerialUsb → SerialUsb
taken s = record s { tail = (s.tail + 1) % buf_size; current_byte = s.buf s.tail }

module _ {C : Type 0} where
  -- The chip has a byte to send, the program takes it, and T2 runs in shift-in mode.
  pub record IsReady (s : SerialUsb) (via : Via C) (bus : Bus) : Type 0 where
    pub state : s.state ≡ Phase.idle
    pub some_byte : queue_empty s ≡ false
    pub program : takes via ≡ true
    pub active : IsActive (view (via, bus))
    pub shifts : via.sr_shift_total + 8 < 2 ^ 32

  -- The chip is clocked, which sends the start bit, and the program reads SR.
  unfoldable pub started : SerialUsb × (Via C × Bus) → SerialUsb × (Via C × Bus)
  started (s, (via, bus)) =
      let (s1, p) = tick_phase s.state s (via, bus) in (s1, (read_register Register.sr p).1)

  -- The VIA with the start bit, and then with the first bit behind it.
  abbrev start_bit : SerialUsb → Via C × Bus → Via C × Bus
  start_bit s (via, bus) =
      let q = via_6522_set_cb2 0 (via, bus) in
      (via_6522_set_cb2_quiet (byte_bit (s.buf s.tail) 0) q.0, q.1)

  lowered-view :
      (via : Via C) (bus : Bus)
      → view (via_6522_set_cb2 0 (via, bus)) ≡ record (view (via, bus)) { cb2 = 0 }
  unfolding via_6522_set_cb2 via_set_ifr update_irq
  lowered-view via bus =
      either (cb2_falls (record via { cb2_in = 0 }) && (nonzero via.cb2_in && true))
    where
      lowered : Via C
      lowered = record via { cb2_in = 0 }

      either :
          (b : Bool)
          → view (if b then via_set_ifr int_cb2 (lowered, bus) else (lowered, bus))
            ≡ view (lowered, bus)
      either true = refl
      either false = refl

  start_bit-view :
      (s : SerialUsb) (via : Via C) (bus : Bus)
      → view (start_bit s (via, bus))
        ≡ record (view (via, bus)) { cb2 = to_bit (nonzero (byte_bit (s.buf s.tail) 0)) }
  unfolding via_6522_set_cb2_quiet
  start_bit-view s via bus =
      ap (λ (v : Receiver). record v { cb2 = to_bit (nonzero (byte_bit (s.buf s.tail) 0)) })
        (lowered-view via bus)

  start_bit-IsActive :
      (s : SerialUsb) (via : Via C) (bus : Bus)
      → IsActive (view (via, bus))
      → IsActive (view (start_bit s (via, bus)))
  start_bit-IsActive s via bus a =
      subst IsActive (sym (start_bit-view s via bus)) (at_bit (view (via, bus)) a)
    where
      at_bit :
          (v : Receiver)
          → IsActive v
          → IsActive (record v { cb2 = to_bit (nonzero (byte_bit (s.buf s.tail) 0)) })
      at_bit v a = assumption a

  -- The VIA after the program's read of SR.
  abbrev primed_bit : SerialUsb → Via C × Bus → Via C × Bus
  primed_bit s p = expecting (via_clear_ifr int_sr (start_bit s p))

  -- The ticks to the end of the eighth time-out of T2.
  unfoldable pub byte_cycles : Via C → ℕ
  byte_cycles via = via.t2c + 1 + 7 * (via.t2l_lo + 1)

  started_lem :
      (s : SerialUsb) (via : Via C) (bus : Bus)
      → IsReady s via bus
      → started (s, (via, bus)) ≡ between 0 via.sr_shift_total (taken s) (primed_bit s (via, bus))
  unfolding started tick_phase send_start queue_pop via_6522_set_cb2_quiet via_clear_ifr update_irq
  started_lem s via bus v =
      let q = start_bit s (via, bus) in
      ap (λ (f : Phase). next (tick_phase f s (via, bus))) v.state
      ∙ ap next (
          passed (queue_empty s || not (takes via)) (s, (via, bus)) (send_start s (via, bus))
            (ground (arith, v.some_byte, v.program)))
      ∙ ap (λ (p : Via C × Bus). (sending 0 via.sr_shift_total (taken s), p))
          (primed q.0 q.1 (start_bit-IsActive s via bus v.active).mode)
    where
      next : SerialUsb × (Via C × Bus) → SerialUsb × (Via C × Bus)
      next (t, p) = (t, (read_register Register.sr p).1)

  primed_bit-view :
      (s : SerialUsb) (via : Via C) (bus : Bus)
      → view (primed_bit s (via, bus)) ≡ record (view (via, bus)) {
        cb2 = to_bit (nonzero (byte_bit (s.buf s.tail) 0));
        remaining = 8;
      }
  primed_bit-view s via bus =
      expecting-view (start_bit s (via, bus))
      ∙ ap (λ (v : Receiver). record v { remaining = 8 }) (start_bit-view s via bus)

  delivered :
      (s : SerialUsb) (via : Via C) (bus : Bus)
      → IsReady s via bus
      → repeat (byte_cycles via) round (started (s, (via, bus)))
        ≡ ended (via.sr_shift_total + 8) (taken s) (
            clock_in
              (byte_levels (reversed (s.buf s.tail)))
              (read_register Register.sr (start_bit s (via, bus))).1)
  unfolding byte_cycles
  delivered s via bus v =
      let q = start_bit s (via, bus) in
      let a = primed_bit s (via, bus) in
      let same = primed_bit-view s via bus in
      let active = start_bit-IsActive s via bus v.active in
      ap (repeat (via.t2c + 1 + 7 * (via.t2l_lo + 1)) round) (started_lem s via bus v)
      ∙ ap
          (λ (w : Receiver).
            repeat (w.t2c + 1 + 7 * (w.t2l_lo + 1)) round
              (between 0 via.sr_shift_total (taken s) a))
          (sym same)
      ∙ rounds 7 0 via.sr_shift_total (taken s) a.0 a.1 refl (ap (λ (w : Receiver). w.total) same)
          (ap (λ (w : Receiver). w.remaining) same) (omega (arith, v.shifts))
          (expecting-IsActive q active)
      ∙ ap (λ (l : List ℕ). ended (via.sr_shift_total + 8) (taken s) (clock_in l a))
          (levels_reversed (s.buf s.tail))
      ∙ ap
          (λ (p : Via C × Bus).
            ended (via.sr_shift_total + 8) (taken s)
              (clock_in (byte_levels (reversed (s.buf s.tail))) p))
          (sym (primed q.0 q.1 active.mode))

  -- A byte of the queue is in SR, with no further bit expected and the flag of SR set, CB2 is high
  -- again, and the chip waits for the next byte, without this one.
  pub record IsDelivered (s : SerialUsb) (p : SerialUsb × (Via C × Bus)) : Type 0 where
    pub sr : p.1.0.sr ≡ reversed (s.buf s.tail)
    pub complete : p.1.0.sr_bits_remaining ≡ 0
    pub flagged : digit p.1.0.ifr 2 ≡ 1
    pub cb2 : p.1.0.cb2_in ≡ 1
    pub state : p.0.state ≡ Phase.idle
    pub tail : p.0.tail ≡ (s.tail + 1) % buf_size

  ended-IsDelivered :
      (total : ℕ) (s : SerialUsb) (q : Via C × Bus)
      → q.0.sr ≡ reversed (s.buf s.tail)
      → q.0.sr_bits_remaining ≡ 0
      → digit q.0.ifr 2 ≡ 1
      → IsDelivered s (ended total (taken s) q)
  unfolding via_6522_set_cb2_quiet
  ended-IsDelivered total s q h k m = record {
    sr = h;
    complete = k;
    flagged = m;
    cb2 = refl;
    state = refl;
    tail = refl;
  }

  -- A byte that waits in the queue reaches the VIA, with its bits in reverse order. The program
  -- has enabled the interrupt of CB2 and dealt with the last byte, T2 runs in shift-in mode with a
  -- CPU cycle at each tick and no edge of RES, and the count of shifts stays below 2^32. A tick of
  -- the chip, a read of SR, and then the ticks of the VIA and the chip through eight time-outs of
  -- T2, the first from where T2 stands and the others a latch and a cycle each, leave it in SR.
  pub round-IsDelivered :
      (s : SerialUsb) (via : Via C) (bus : Bus)
      → IsReady s via bus
      → IsDelivered s (repeat (byte_cycles via) round (started (s, (via, bus))))
  unfolding via_6522_set_cb2_quiet
  round-IsDelivered s via bus v =
      let b = s.buf s.tail in
      let q = start_bit s (via, bus) in
      let done =
        clock_in-byte (reversed b) q.0 q.1 (omega arith) (start_bit-IsActive s via bus v.active) in
      subst (IsDelivered s) (sym (delivered s via bus v)) (
        ended-IsDelivered (via.sr_shift_total + 8) s
          (clock_in (byte_levels (reversed b)) (read_register Register.sr q).1) done.0 done.1
          done.2)
