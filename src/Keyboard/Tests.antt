-- ===== src/Keyboard/Tests.antt =====
-- Runs of the keyboard board, and the theorems on it at concrete boards.
use workbench.Keyboard.Tick.{
  clock_busy, detector_level, driven_low, ps2_board_output, ps2_keyboard_board_init,
  ps2_keyboard_board_tick, tick_detector, tick_end, tick_release, tick_send,
}
use workbench.Keyboard.Tick.{tick_detector}
use workbench.Keyboard.Tick.{tick_send}
use workbench.Keyboard.Tick.{tick_end}
use workbench.Keyboard.Tick.{tick_release}
use workbench.Common.{ℕ, ◌≡◌, refl, arith, List, [], ◌∷◌, ◌++◌, bit_or, some}
use workbench.Bus.{Bus, bus_init}
use workbench.Chips.Memory.{store}
use workbench.Via.State.{Via, porta_pin_value, portb_pin_value}
use workbench.Via.Timers.{via_6522_init}
use workbench.Via.Pins.{via_6522_porta_pins, via_6522_portb_pins, via_6522_set_ca2}
use workbench.Keyboard.Queue.{kept, last_of_key, queue_put, queue_take}
use workbench.Keyboard.Board.{
  KeyboardBoard, answer_command, ps2_board_queue_key, receive_by, receive_command, reply,
  start_frame, us,
}
use workbench.Keyboard.Tick.{ps2_keyboard_board_tick, ps2_keyboard_board_init, ps2_board_output}
use workbench.Keyboard.Fifo.{entries_from, held}
use workbench.Keyboard.Keys.{key_codes, held_keys, take_all, queue_key-held}
use workbench.Keyboard.Answers.{takes_argument, command_answers, argument_answers}
use workbench.Keyboard.Conversation.{receive_all, answers, replies-answers}

abbrev board : KeyboardBoard
board = (ps2_keyboard_board_init {C = ℕ} 1 (via_6522_init 0)).0

queue_key-held_example :
    held_keys (ps2_board_queue_key (key_codes (0xe0 ∷ 0xf0 ∷ []) 0x75) board)
    ≡ take_all (key_codes (0xe0 ∷ 0xf0 ∷ []) (bit_or 0x75 last_of_key)) (held board.keys)
unfolding ps2_keyboard_board_init
queue_key-held_example =
    queue_key-held (0xe0 ∷ 0xf0 ∷ []) 0x75 board
      (record { head = omega arith; count = omega arith })

-- Reset, the choice of the scan code set, and the query of the set.
abbrev bytes : List (ℕ × ℕ)
bytes = (0xff, 100) ∷ (0xf0, 200) ∷ (0x02, 300) ∷ (0xf0, 400) ∷ (0x00, 500) ∷ []

replies-answers_example :
    held (receive_all bytes board).replies ≡ held board.replies ++ answers bytes
unfolding ps2_keyboard_board_init
replies-answers_example =
    replies-answers bytes board refl refl (record { head = omega arith; count = omega arith })

answers_run : answers bytes ≡ 0xfa ∷ 0xaa ∷ 0xfa ∷ 0xfa ∷ 0xfa ∷ 0xfa ∷ 0x02 ∷ []
unfolding answers takes_argument command_answers argument_answers
answers_run = refl

-- The host holds the clock at one tick and releases it with START low at a later one; the byte
-- of PORTB arrives 1960 us later, and the reply is on the wire after 1000 us more, and in the
-- shift register after another 880.
abbrev bus_at : ℕ → Bus
bus_at now = record bus_init { osc_ticks = now }

abbrev holding : Via ℕ
holding = record (via_6522_init 0) { ddra = 0x38; ora = 0x10; ddrb = 0xff; orb = 0xee }

abbrev released : Via ℕ
released = record holding { ora = 0x18 }

abbrev listening : Via ℕ
listening = record holding { ora = 0x08 }

abbrev asked : KeyboardBoard
asked =
    let held_low = (ps2_keyboard_board_tick (board, (holding, bus_at 10))).0 in
    let sent = (ps2_keyboard_board_tick (held_low, (released, bus_at 20))).0 in
    (ps2_keyboard_board_tick (sent, (released, bus_at 1980))).0

abbrev answered : KeyboardBoard
answered =
    let replying = (ps2_keyboard_board_tick (asked, (listening, bus_at 2980))).0 in
    (ps2_keyboard_board_tick (replying, (listening, bus_at 3860))).0

command_run : held asked.replies ≡ 0xee ∷ []
unfolding ps2_keyboard_board_tick via_6522_init ps2_keyboard_board_init tick_release tick_end
    tick_send tick_detector driven_low via_6522_porta_pins via_6522_portb_pins porta_pin_value
    portb_pin_value start_frame us receive_command receive_by answer_command reply queue_put
    queue_take kept clock_busy detector_level via_6522_set_ca2 ps2_board_output held entries_from
    store
command_run = refl

echo_run : ps2_board_output listening answered ≡ some 0x11
unfolding ps2_keyboard_board_tick via_6522_init ps2_keyboard_board_init tick_release tick_end
    tick_send tick_detector driven_low via_6522_porta_pins via_6522_portb_pins porta_pin_value
    portb_pin_value start_frame us receive_command receive_by answer_command reply queue_put
    queue_take kept clock_busy detector_level via_6522_set_ca2 ps2_board_output held entries_from
    store
echo_run = refl
