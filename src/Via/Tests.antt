-- ===== src/Via/Tests.antt =====
-- The VIA's theorems at concrete states.
use workbench.Common.{
  true, ℕ, ◌+◌, ◌-◌, ◌≡◌, ◌≤◌, refl, arith, List, [], ◌∷◌, repeat, digit, suc, ◌==◌, if◌then◌else◌,
}
use workbench.Bus.{Bus, bus_init}
use workbench.Via.State.{Via, int_t1, via_set_ifr, porta_pin_value}
use workbench.Via.Access.{Register, read_register, start_t1, write_register}
use workbench.Via.Timers.{tick_t1, via_6522_init}
use workbench.Via.Registers.{porta_pin_value-digit, write_flags-digit}
use workbench.Via.Events.{Event, run, powered}
use workbench.Via.Line.{IsLine}
use workbench.Via.Line.Operations.{run-IsLine}
use workbench.Via.Timing.{counting, rolled_over, toggled, disarmed, free_run, one_shot, flags_once}
use workbench.Via.Shift.{clock_in, byte_levels, clock_in-byte}

-- T1 is enabled and started for 2 cycles, and the clock runs six times.
abbrev timer_history : List (Event ℕ)
timer_history =
    Event.lines 0 0 1 1
    ∷ Event.write 0xf00e 0xc0
    ∷ Event.write 0xf004 0x02
    ∷ Event.write 0xf005 0x00
    ∷ Event.tick
    ∷ Event.tick
    ∷ Event.tick
    ∷ Event.tick
    ∷ []

run-IsLine_example : IsLine (run timer_history (powered 0))
run-IsLine_example = run-IsLine timer_history 0

-- A VIA with the latch at 2 and T1 in free-run mode, with PB7.
abbrev free_running : Via ℕ
free_running = record (via_6522_init 0) { acr = 0xc0; t1l = 2 }

free_run_example :
    ((n : ℕ)
      → n ≤ 2
      → repeat (suc n) tick_t1 (rolled_over free_running, bus_init)
        ≡ (counting (2 - n) free_running, bus_init))
    × (repeat 4 tick_t1 (rolled_over free_running, bus_init)
        ≡ toggled (via_set_ifr int_t1 (rolled_over free_running, bus_init)))
unfolding via_6522_init
free_run_example = free_run free_running bus_init refl

-- A write of 0 to T1CH after power-on.
abbrev started : Via ℕ × Bus
started = start_t1 0 (via_6522_init 0, bus_init)

one_shot_example :
    ((n : ℕ)
      → n ≤ started.0.t1l
      → repeat (suc n) tick_t1 started ≡ (counting (started.0.t1l - n) started.0, started.1))
    × (repeat (started.0.t1l + 2) tick_t1 started ≡ disarmed started)
unfolding via_6522_init
one_shot_example = one_shot 0 (via_6522_init 0) bus_init refl

-- T1 counts on after its time-out.
abbrev timed_out : Via ℕ
timed_out = rolled_over (via_6522_init 0)

flags_once_example :
    ((repeat 70000 tick_t1 (timed_out, bus_init)).0.ifr ≡ timed_out.ifr)
    × ((repeat 70000 tick_t1 (timed_out, bus_init)).1 ≡ bus_init)
unfolding via_6522_init
flags_once_example = flags_once 70000 timed_out bus_init refl refl

-- ACR in shift-in mode, with T2 running, and a bus on a CPU cycle.
abbrev receiving : Via ℕ
receiving = record (via_6522_init 0) { acr = 0x04; t2_running = true; t2c = 1; t2l_lo = 2 }

abbrev on_cycle : Bus
on_cycle = record bus_init { cpu_cycle_due = 1 }

clock_in-byte_example :
    ((clock_in (byte_levels 0xa5) (read_register Register.sr (receiving, on_cycle)).1).0.sr ≡ 0xa5)
    × ((clock_in
          (byte_levels 0xa5)
          (read_register Register.sr (receiving, on_cycle)).1).0.sr_bits_remaining
        ≡ 0)
    × (digit
          (clock_in (byte_levels 0xa5) (read_register Register.sr (receiving, on_cycle)).1).0.ifr
          2
        ≡ 1)
unfolding via_6522_init bus_init
clock_in-byte_example =
    clock_in-byte 0xa5 receiving on_cycle (omega arith)
      (record { running = refl; loaded = refl; mode = refl; due = refl; res = refl })

-- PA5 driven from outside, PA0..PA3 outputs.
abbrev ported : Via ℕ
ported = record (via_6522_init 0) { ora = 0x05; ddra = 0x0f; porta_input = 0x20 }

porta_pin_value-digit_example :
    digit (porta_pin_value ported) 5
    ≡ (if digit ported.ddra 5 == 1 then digit ported.ora 5 else digit ported.porta_input 5)
unfolding via_6522_init
porta_pin_value-digit_example = porta_pin_value-digit ported 5 (omega arith) (omega arith)

-- Two flags and two enables.
abbrev flagged : Via ℕ
flagged = record (via_6522_init 0) { ifr = 0x60; ier = 0x42 }

write_flags-digit_example :
    (digit (write_register Register.ifr 0x40 (flagged, bus_init)).0.ifr 6
      ≡ (if digit 0x40 6 == 1 then 0 else digit flagged.ifr 6))
    × (digit (write_register Register.ier 0x40 (flagged, bus_init)).0.ier 6
        ≡ (if digit 0x40 6 == 1 then digit 0x40 7 else digit flagged.ier 6))
write_flags-digit_example = write_flags-digit flagged bus_init 0x40 6 (omega arith)
