-- ===== src/Via/Events.antt =====
-- What can happen to a VIA between two instants of the machine, as the chips of the board drive
-- it through the operations of emulator/chips/via_6522.c and the lines of the bus.
use workbench.Common.{ℕ, Option, List, [], ◌∷◌}
use workbench.Bus.{Bus, bus_init}
use workbench.Via.State.{Via}
use workbench.Via.Access.{via_6522_read, via_6522_write}
use workbench.Via.Timers.{via_6522_tick, via_6522_init}
use workbench.Via.Pins.{
  via_6522_set_cb2, via_6522_set_ca2, via_6522_set_cb2_quiet, via_6522_set_porta_input_bit,
  via_6522_set_portb_input,
}

module _ (C : Type 0) where
  pub data Event : Type 0 where
    read : ℕ → Event
    write : ℕ → ℕ → Event
    tick : Event
    set_cb2 : ℕ → Event
    set_ca2 : ℕ → Event
    set_cb2_quiet : ℕ → Event
    set_porta_input_bit : ℕ → ℕ → Event
    set_portb_input : Option (C → ℕ) → C → Event
    -- The other chips drive RES, NMI, the select of the VIA and the CPU cycle.
    lines : ℕ → ℕ → ℕ → ℕ → Event

module _ {C : Type 0} where
  unfoldable pub happens : Event C → Via C × Bus → Via C × Bus
  happens (Event.read addr) (s, bus) = (via_6522_read addr (s, bus)).1
  happens (Event.write addr v) (s, bus) = (via_6522_write addr v (s, bus)).1
  happens Event.tick (s, bus) = via_6522_tick (s, bus)
  happens (Event.set_cb2 level) (s, bus) = via_6522_set_cb2 level (s, bus)
  happens (Event.set_ca2 level) (s, bus) = via_6522_set_ca2 level (s, bus)
  happens (Event.set_cb2_quiet level) (s, bus) = (via_6522_set_cb2_quiet level s, bus)
  happens (Event.set_porta_input_bit mask level) (s, bus) =
      (via_6522_set_porta_input_bit mask level s, bus)
  happens (Event.set_portb_input input ctx) (s, bus) = (via_6522_set_portb_input input ctx s, bus)
  happens (Event.lines res nmi viacs due) (s, bus) =
      (s, record bus { res = res; nmi = nmi; viacs = viacs; cpu_cycle_due = due })

  -- A history of the VIA from power-on, the oldest event first.
  unfoldable pub run : List (Event C) → Via C × Bus → Via C × Bus
  run [] (s, bus) = (s, bus)
  run (e ∷ events) (s, bus) = run events (happens e (s, bus))

  abbrev pub powered : C → Via C × Bus
  powered null = (via_6522_init null, bus_init)
