-- ===== src/Lcd/Latch.antt =====
-- What the display of lcd_hd44780.c takes from its lines, apart from the state of E.
use workbench.Common.{
  passed, picked, bit_and, ◌<<◌, u8, ◌>>>◌, ◌∙◌, ap, ℕ, ◌≡◌, refl, Bool, true, false, not,
  if◌then◌else◌, bit_or,
}
use workbench.Lcd.Memory.{ddram_index, advance_ac}
use workbench.Lcd.State.{Lcd, blank}
use workbench.Lcd.Commands.{
  execute_byte, command, write_cell, function_set, latch_data, has, inst_set_ddram, inst_set_cgram,
  inst_function_set, inst_cursor_shift, inst_display_ctl, inst_entry_mode, inst_home, inst_clear,
}

-- E is low.
abbrev pub low : Lcd → Lcd
low s = record s { prev_e = false }

-- The detectors of the lines at rest, E being low.
abbrev pub rested : Lcd → Lcd
rested s = record s { prev_e = false; contending = false }

-- With the upper half of a byte received.
abbrev pub half_received : ℕ → Lcd → Lcd
half_received nibble s = record (rested s) { high_nibble = nibble; high_nibble_pending = true }

-- The choice of a command, by eight tests.
abbrev chosen :
    {A : Type 0}
    → Bool
    → Bool
    → Bool
    → Bool
    → Bool
    → Bool
    → Bool
    → Bool
    → A
    → A
    → A
    → A
    → A
    → A
    → A
    → A
    → A
    → A
chosen a b c d e f g h x0 x1 x2 x3 x4 x5 x6 x7 x8 =
    if a
    then x0
    else if b
    then x1
    else if c
    then x2
    else if d
    then x3
    else if e
    then x4
    else if f
    then x5
    else if g
    then x6
    else if h
    then x7
    else x8

chosen-ap :
    {A B : Type 0} (k : A → B) (a b c d e f g h : Bool) (x0 x1 x2 x3 x4 x5 x6 x7 x8 : A)
    → k (chosen a b c d e f g h x0 x1 x2 x3 x4 x5 x6 x7 x8)
      ≡ chosen a b c d e f g h (k x0) (k x1) (k x2) (k x3) (k x4) (k x5) (k x6) (k x7) (k x8)
chosen-ap k true b c d e f g h x0 x1 x2 x3 x4 x5 x6 x7 x8 = refl
chosen-ap k false true c d e f g h x0 x1 x2 x3 x4 x5 x6 x7 x8 = refl
chosen-ap k false false true d e f g h x0 x1 x2 x3 x4 x5 x6 x7 x8 = refl
chosen-ap k false false false true e f g h x0 x1 x2 x3 x4 x5 x6 x7 x8 = refl
chosen-ap k false false false false true f g h x0 x1 x2 x3 x4 x5 x6 x7 x8 = refl
chosen-ap k false false false false false true g h x0 x1 x2 x3 x4 x5 x6 x7 x8 = refl
chosen-ap k false false false false false false true h x0 x1 x2 x3 x4 x5 x6 x7 x8 = refl
chosen-ap k false false false false false false false true x0 x1 x2 x3 x4 x5 x6 x7 x8 = refl
chosen-ap k false false false false false false false false x0 x1 x2 x3 x4 x5 x6 x7 x8 = refl

command-low : (byte : ℕ) (s : Lcd) → low (command byte s) ≡ command byte (low s)
unfolding command function_set
command-low byte s =
    chosen-ap low (has byte inst_set_ddram) (has byte inst_set_cgram) (has byte inst_function_set)
      (has byte inst_cursor_shift) (has byte inst_display_ctl) (has byte inst_entry_mode)
      (has byte inst_home) (has byte inst_clear)
      (record s { ac = bit_and byte 0x7f; cgram_mode = false })
      (record s { ac = bit_and byte 0x3f; cgram_mode = true }) (function_set byte s) s
      (record s { display_on = has byte 0x04; cursor_on = has byte 0x02; blink_on = has byte 0x01 })
      (record s { entry_id = has byte 0x02; entry_s = has byte 0x01 })
      (record s { ac = 0; cgram_mode = false })
      (record s { ddram = blank; ac = 0; cgram_mode = false; dirty = true }) s

-- What a byte does does not depend on E.
pub execute_byte-low :
    (rs : Bool) (byte : ℕ) (s : Lcd) → low (execute_byte rs byte s) ≡ execute_byte rs byte (low s)
unfolding execute_byte write_cell advance_ac ddram_index
execute_byte-low true byte s = refl
execute_byte-low false byte s = command-low byte s

abbrev pub raised_e : Lcd → Lcd
raised_e s = record s { prev_e = true; contending = false }

-- The byte of two halves.
abbrev joined : Bool → ℕ → Lcd → Lcd
joined rs byte s =
    execute_byte rs (u8 (bit_or (s.high_nibble << 4) (byte >>> 4)))
      (record s { high_nibble_pending = false })

abbrev halved : ℕ → Lcd → Lcd
halved byte s = record s { high_nibble = byte >>> 4; high_nibble_pending = true }

pub latch_data-wide :
    (rs : Bool) (byte : ℕ) (s : Lcd)
    → s.four_bit_mode ≡ false
    → latch_data rs byte s ≡ execute_byte rs byte s
unfolding latch_data
latch_data-wide rs byte s wide =
    passed s.four_bit_mode (if not s.high_nibble_pending then halved byte s else joined rs byte s)
      (execute_byte rs byte s) wide

pub latch_data-high :
    (rs : Bool) (byte : ℕ) (s : Lcd)
    → s.four_bit_mode ≡ true
    → s.high_nibble_pending ≡ false
    → latch_data rs byte s ≡ halved byte s
unfolding latch_data
latch_data-high rs byte s narrow first =
    picked s.four_bit_mode (if not s.high_nibble_pending then halved byte s else joined rs byte s)
      (execute_byte rs byte s) narrow
    ∙ picked (not s.high_nibble_pending) (halved byte s) (joined rs byte s) (ap not first)

pub latch_data-low :
    (rs : Bool) (byte : ℕ) (s : Lcd)
    → s.four_bit_mode ≡ true
    → s.high_nibble_pending ≡ true
    → latch_data rs byte s ≡ joined rs byte s
unfolding latch_data
latch_data-low rs byte s narrow second =
    picked s.four_bit_mode (if not s.high_nibble_pending then halved byte s else joined rs byte s)
      (execute_byte rs byte s) narrow
    ∙ passed (not s.high_nibble_pending) (halved byte s) (joined rs byte s) (ap not second)
