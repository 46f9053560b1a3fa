-- ===== src/Serial/Tests.antt =====
-- The theorems on the serial chip at a queue and a VIA.
use workbench.Common.{true, ℕ, ◌≡◌, refl, arith, List, [], ◌∷◌, repeat}
use workbench.Bus.{Bus, bus_init}
use workbench.Chips.Memory.{store}
use workbench.Via.State.{Via}
use workbench.Via.Timers.{via_6522_init}
use workbench.Serial.Queue.{SerialUsb, Phase, queue_empty}
use workbench.Serial.Chip.{takes}
use workbench.Serial.Fifo.{Request, answers, answers_list, waiting, answers-waiting}
use workbench.Serial.Rounds.{round}
use workbench.Serial.Deliver.{IsDelivered, byte_cycles, started, round-IsDelivered}

abbrev empty : SerialUsb
empty = record {
  buf = λ a. 0;
  head = 0;
  tail = 0;
  state = Phase.idle;
  current_byte = 0;
  bit_index = 0;
  prev_shift_total = 0;
}

abbrev requests : List Request
requests = Request.receive 7 ∷ Request.receive 9 ∷ Request.send ∷ Request.send ∷ Request.send ∷ []

answers-waiting_example : answers requests empty ≡ answers_list requests (waiting empty)
answers-waiting_example =
    answers-waiting requests empty (record { head = omega arith; tail = omega arith })

-- A queued byte, and a program that waits for a negative edge of CB2 with SR in shift-in mode.
abbrev queued : SerialUsb
queued = record empty { buf = store 0 0x53 (λ a. 0); head = 1 }

abbrev waiting_via : Via ℕ
waiting_via = record (via_6522_init 0) {
  ier = 0x08;
  acr = 0x04;
  pcr = 0x20;
  cb2_in = 1;
  t2_running = true;
  t2c = 3;
  t2l_lo = 2;
}

-- A bus on a CPU cycle.
abbrev on_cycle : Bus
on_cycle = record bus_init { cpu_cycle_due = 1 }

round-IsDelivered_example :
    IsDelivered queued
      (repeat (byte_cycles waiting_via) round (started (queued, (waiting_via, on_cycle))))
unfolding queue_empty takes via_6522_init bus_init
round-IsDelivered_example = round-IsDelivered queued waiting_via on_cycle (record {
  state = refl;
  some_byte = refl;
  program = refl;
  active = record { running = refl; loaded = refl; mode = refl; due = refl; res = refl };
  shifts = omega arith;
})
