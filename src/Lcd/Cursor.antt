-- ===== src/Lcd/Cursor.antt =====
-- Positions on the panel: lcd_hd44780_cursor and lcd_hd44780_visible_bytes of lcd_hd44780.c
-- against the addresses that SET_DDRAM takes.
use workbench.Lcd.Memory.{cell, advance_ac, ddram_index}
use workbench.Common.{
  passed, picked, Bool-cases, ap, ℕ, zero, suc, ◌+◌, ◌-◌, ◌*◌, ◌<◌, ◌≤◌, ◌==◌, ◌≡◌, ◌⊎◌, inl, inr,
  refl, ◌∙◌, Bool, true, false, ◌&&◌, Option, some, if◌then◌else◌, arith, bit_and, ltb, leb, u8,
  get_or, bit_and_1, bit_and_3, bit_and_7f, bit_and_single, digit,
}
use workbench.Chips.Memory.{store}
use workbench.Lcd.State.{Lcd}
use workbench.Lcd.Commands.{
  execute_byte, command, write_cell, has, inst_set_ddram, lcd_hd44780_instruction,
}
use workbench.Lcd.Bytes.{rows_bytes-get}
use workbench.Lcd.Panel.{
  line_base, bases_20x4, bases_16x2, visible_at, placed, off_panel, lcd_hd44780_cursor,
  lcd_hd44780_visible_bytes,
}

-- A row and a column of the panel, where no two rows show the same addresses: at most two rows, or
-- rows of 20.
pub record IsPosition (s : Lcd) (r c : ℕ) : Type 0 where
  pub row : r < s.rows
  pub col : c < s.cols
  pub rows : s.rows ≤ 4
  pub cols : s.cols ≤ 20
  pub distinct : (s.rows ≤ 2) ⊎ (s.cols ≡ 20)

-- The address that a position shows.
abbrev pub address : Lcd → ℕ → ℕ → ℕ
address s r c = line_base r s.cols + c

line_base-20 :
    (r : ℕ)
    → r < 4
    → line_base r 20 ≡ (if r == 0 then 0 else if r == 1 then 64 else if r == 2 then 20 else 84)
unfolding line_base bases_20x4
line_base-20 r h = ground (arith, bit_and_3 r)

line_base-2 : (r cols : ℕ) → r < 2 → line_base r cols ≡ (if r == 0 then 0 else 64)
unfolding line_base bases_20x4 bases_16x2
line_base-2 r cols h = ground (arith, bit_and_3 r, bit_and_1 r)

address-lt : (s : Lcd) (r c : ℕ) → IsPosition s r c → address s r c < 128
address-lt s r c v = elim v.distinct [
  | inl h ↦ ground (arith, v.row, v.col, v.cols, h, line_base-2 r s.cols (omega (arith, v.row, h)))
  | inr h ↦ ground (
    arith,
    v.row,
    v.col,
    v.rows,
    h,
    ap (line_base r) h,
    line_base-20 r (omega (arith, v.row, v.rows)),
  )
]

shows-own :
    (s : Lcd) (r c q : ℕ)
    → IsPosition s r c
    → q < s.rows
    → (leb (line_base q s.cols) (address s r c)
        && ltb (address s r c) (line_base q s.cols + s.cols))
      ≡ (q == r)
shows-own s r c q v hq = elim v.distinct [
  | inl h ↦ ground (
    arith,
    v.row,
    v.col,
    v.cols,
    h,
    line_base-2 r s.cols (omega (arith, v.row, h)),
    line_base-2 q s.cols (omega (arith, hq, h)),
  )
  | inr h ↦ ground (
    arith,
    v.row,
    v.col,
    v.rows,
    h,
    ap (line_base r) h,
    ap (line_base q) h,
    line_base-20 r (omega (arith, v.row, v.rows)),
    line_base-20 q (omega (arith, hq, v.rows)),
  )
]

visible_at-own :
    (s : Lcd) (n q r c : ℕ)
    → IsPosition s r c
    → q + n ≡ s.rows
    → q ≤ r
    → visible_at n q (address s r c) s ≡ some (r, c)
unfolding visible_at
visible_at-own s zero q r c v e h = absurd (omega (arith, v.row))
visible_at-own s (suc n) q r c v e h = elim (Bool-cases (q == r)) [
  | inl here ↦
      ap
        (λ (b : Bool).
          if b
          then some (q, address s r c - line_base q s.cols)
          else visible_at n (suc q) (address s r c) s)
        (shows-own s r c q v (omega arith) ∙ here)
      ∙ ap (λ (t : ℕ). some (t, address s r c - line_base t s.cols)) (ground (arith, here))
      ∙ ap (λ (t : ℕ). some (r, t)) (omega arith)
  | inr later ↦
      ap
        (λ (b : Bool).
          if b
          then some (q, address s r c - line_base q s.cols)
          else visible_at n (suc q) (address s r c) s)
        (shows-own s r c q v (omega arith) ∙ later)
      ∙ visible_at-own s n (suc q) r c v (omega arith) (ground (arith, later))
]

has_ddram : (a : ℕ) → a < 128 → has (128 + a) inst_set_ddram ≡ true
has_ddram a h = ground (arith, bit_and_single 7 (128 + a), top a h)
  where
    top : (a : ℕ) → a < 128 → digit (128 + a) 7 ≡ 1
    top a h = omega arith

abbrev at_address : ℕ → Lcd → Lcd
at_address a s = record s { ac = a; cgram_mode = false }

low_bits : (a : ℕ) → a < 128 → bit_and (128 + a) 0x7f ≡ a
low_bits a h = omega (arith, bit_and_7f (128 + a))

set_ddram : (s : Lcd) (a : ℕ) → a < 128 → lcd_hd44780_instruction (128 + a) s ≡ at_address a s
unfolding lcd_hd44780_instruction execute_byte command
set_ddram s a h =
    picked (has (128 + a) inst_set_ddram) (at_address (bit_and (128 + a) 0x7f) s) _ (has_ddram a h)
    ∙ ap (λ (t : ℕ). at_address t s) (low_bits a h)

cursor-own :
    (s : Lcd) (r c : ℕ)
    → IsPosition s r c
    → s.cgram_mode ≡ false
    → s.ac ≡ address s r c
    → lcd_hd44780_cursor s ≡ (r, c)
unfolding lcd_hd44780_cursor placed
cursor-own s r c v mode at =
    passed s.cgram_mode (0, 0)
      (placed (visible_at s.rows 0 (bit_and s.ac 0x7f) s) (off_panel (bit_and s.ac 0x7f) s)) mode
    ∙ ap (λ (a : ℕ). placed (visible_at s.rows 0 a s) (off_panel a s)) {y = address s r c}
        (omega (arith, at, bit_and_7f s.ac, address-lt s r c v))
    ∙ ap (λ (t : Option (ℕ × ℕ)). placed t (off_panel (address s r c) s))
        (visible_at-own s s.rows 0 r c v (omega arith) (omega arith))

moved : (s : Lcd) (r c : ℕ) → IsPosition s r c → IsPosition (at_address (address s r c) s) r c
moved s r c v = record {
  row = v.row;
  col = v.col;
  rows = v.rows;
  cols = v.cols;
  distinct = v.distinct;
}

-- After a SET_DDRAM of the address that a position shows, the cursor is there.
set_ddram-cursor :
    (s : Lcd) (r c : ℕ)
    → IsPosition s r c
    → lcd_hd44780_cursor (lcd_hd44780_instruction (128 + address s r c) s) ≡ (r, c)
set_ddram-cursor s r c v =
    ap lcd_hd44780_cursor (set_ddram s (address s r c) (address-lt s r c v))
    ∙ cursor-own (at_address (address s r c) s) r c (moved s r c v) refl refl

stored :
    (b two : Bool) (x y v : ℕ) (f : ℕ → ℕ)
    → b ≡ false
    → x ≡ y
    → (if b then f else store (cell two x) v f) (cell two y) ≡ v
unfolding store
stored b two x y v f h e = ground (arith, h, ap (cell two) e)

-- What a data write at a position shows there.
shown :
    (s : Lcd) (r c b : ℕ)
    → IsPosition s r c
    → s.cgram_mode ≡ false
    → s.ac ≡ address s r c
    → get_or (lcd_hd44780_visible_bytes (execute_byte true b s)) (r * s.cols + c) 0 ≡ b
unfolding lcd_hd44780_visible_bytes execute_byte write_cell advance_ac ddram_index
shown s r c b v mode at =
    rows_bytes-get s.rows 0 r c 0 (execute_byte true b s) v.row v.col
    ∙ stored s.cgram_mode s.two_line_mode s.ac (u8 (line_base (0 + r) s.cols + c)) b s.ddram mode
        (omega (arith, at, address-lt s r c v, ap (λ (t : ℕ). line_base t s.cols) zero_add))
  where
    zero_add : 0 + r ≡ r
    zero_add = omega arith

-- After a SET_DDRAM of the address that a position of the panel shows, the cursor is there, and a
-- data write shows its byte there, with at most two rows or with rows of 20 columns.
pub set_ddram-shown :
    (s : Lcd) (r c b : ℕ)
    → IsPosition s r c
    → (lcd_hd44780_cursor (lcd_hd44780_instruction (128 + address s r c) s) ≡ (r, c))
      × (get_or
            (lcd_hd44780_visible_bytes
              (execute_byte true b (lcd_hd44780_instruction (128 + address s r c) s)))
            (r * s.cols + c)
            0
          ≡ b)
set_ddram-shown s r c b v = (
  set_ddram-cursor s r c v,
  ap (λ (t : Lcd). get_or (lcd_hd44780_visible_bytes (execute_byte true b t)) (r * s.cols + c) 0)
        (set_ddram s (address s r c) (address-lt s r c v))
      ∙ shown (at_address (address s r c) s) r c b (moved s r c v) refl refl,
)
