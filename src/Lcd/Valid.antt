-- ===== src/Lcd/Valid.antt =====
-- The state of the display over any history, within the C types and the sizes of the arrays.
use workbench.Common.{
  sym, subst, ◌-◌, ◌%◌, ℕ, ◌+◌, ◌^◌, ◌<◌, ◌≤◌, ◌≡◌, refl, Bool, true, false, ◌&&◌, not,
  if◌then◌else◌, arith, bit_and_7f, bit_and_3f,
}
use workbench.Chips.Memory.{store}
use workbench.Lcd.State.{Lcd, Wiring, blank}
use workbench.Lcd.Memory.{advance_ac, next_cgram, next_ddram}
use workbench.Lcd.Commands.{
  command, write_cell, function_set, has, inst_set_ddram, inst_set_cgram, inst_function_set,
  inst_cursor_shift, inst_display_ctl, inst_entry_mode, inst_home, inst_clear,
}

-- The registers are bytes or nibbles, an address of the character generator is one of its 64, the
-- tall font is only on with one line, and the panel fits the display memory.
pub record IsValid (s : Lcd) : Type 0 where
  pub ac : s.ac < 256
  pub cgram_ac : s.cgram_mode ≡ true → s.ac < 64
  pub nibble : s.high_nibble < 16
  pub font : s.two_line_mode ≡ true → s.font_5x10 ≡ false
  pub cells : (i : ℕ) → s.ddram i < 256
  pub patterns : (i : ℕ) → s.cgram i < 256
  pub mask : s.wiring.data_mask < 256
  pub rows_low : 0 < s.rows
  pub rows_high : s.rows ≤ 4
  pub cols_low : 0 < s.cols
  pub cols_high : s.cols ≤ 20

pub if-IsValid : (b : Bool) {s t : Lcd} → IsValid s → IsValid t → IsValid (if b then s else t)
if-IsValid true v w = v
if-IsValid false v w = w

store-lt :
    (a v : ℕ) (contents : ℕ → ℕ)
    → v < 256
    → ((i : ℕ) → contents i < 256)
    → (i : ℕ) → store a v contents i < 256
unfolding store
store-lt a v contents h all i = ground (arith, all i)

next_cgram-lt : (forward : Bool) (ac : ℕ) → next_cgram forward ac < 64
next_cgram-lt true ac = omega (arith, bit_and_3f ((ac + 1) % 2 ^ 32))
next_cgram-lt false ac = omega (arith, bit_and_3f ((ac + (2 ^ 32 - 1)) % 2 ^ 32))

next_ddram-lt : (two forward : Bool) (ac : ℕ) → next_ddram two forward ac < 256
next_ddram-lt two forward ac = ground arith

if-lt : (n : ℕ) (b : Bool) (x y : ℕ) → (b ≡ true → x < n) → y < n → (if b then x else y) < n
if-lt n true x y p q = p refl
if-lt n false x y p q = q

if-within : (n : ℕ) (b : Bool) (x y : ℕ) → x < n → b ≡ true → (if b then x else y) < n
if-within n b x y p h = ground arith

pub advance_ac-IsValid : (s : Lcd) → IsValid s → IsValid (advance_ac s)
unfolding advance_ac
advance_ac-IsValid s v = record {
  ac =
      if-lt 256 s.cgram_mode (next_cgram s.entry_id s.ac)
        (next_ddram s.two_line_mode s.entry_id s.ac)
        (λ h. omega (arith, next_cgram-lt s.entry_id s.ac))
        (next_ddram-lt s.two_line_mode s.entry_id s.ac);
  cgram_ac = λ h.
      if-within 64 s.cgram_mode (next_cgram s.entry_id s.ac)
        (next_ddram s.two_line_mode s.entry_id s.ac) (next_cgram-lt s.entry_id s.ac) h;
  nibble = v.nibble;
  font = v.font;
  cells = v.cells;
  patterns = v.patterns;
  mask = v.mask;
  rows_low = v.rows_low;
  rows_high = v.rows_high;
  cols_low = v.cols_low;
  cols_high = v.cols_high;
}

written-lt :
    (b : Bool) (x y : ℕ → ℕ)
    → ((i : ℕ) → x i < 256)
    → ((i : ℕ) → y i < 256)
    → (i : ℕ) → (if b then x else y) i < 256
written-lt true x y p q = p
written-lt false x y p q = q

pub write_cell-IsValid : (s : Lcd) (byte : ℕ) → byte < 256 → IsValid s → IsValid (write_cell byte s)
unfolding write_cell
write_cell-IsValid s byte h v = record {
  ac = v.ac;
  cgram_ac = v.cgram_ac;
  nibble = v.nibble;
  font = v.font;
  cells = written-lt s.cgram_mode _ _ v.cells (store-lt _ byte s.ddram h v.cells);
  patterns = written-lt s.cgram_mode _ _ (store-lt _ byte s.cgram h v.patterns) v.patterns;
  mask = v.mask;
  rows_low = v.rows_low;
  rows_high = v.rows_high;
  cols_low = v.cols_low;
  cols_high = v.cols_high;
}

-- A new address, and other changes that leave the arrays and the sizes alone.
pub moved-IsValid :
    (s t : Lcd)
    → IsValid s
    → t.ac < 256
    → (t.cgram_mode ≡ true → t.ac < 64)
    → (t.two_line_mode ≡ true → t.font_5x10 ≡ false)
    → t.high_nibble < 16
    → t.ddram ≡ s.ddram
    → t.cgram ≡ s.cgram
    → t.wiring ≡ s.wiring
    → t.rows ≡ s.rows
    → t.cols ≡ s.cols
    → IsValid t
moved-IsValid s t v a c f n d g w r k = record {
  ac = a;
  cgram_ac = c;
  nibble = n;
  font = f;
  cells = subst (λ (m : ℕ → ℕ). (i : ℕ) → m i < 256) (sym d) v.cells;
  patterns = subst (λ (m : ℕ → ℕ). (i : ℕ) → m i < 256) (sym g) v.patterns;
  mask = subst (λ (m : Wiring). m.data_mask < 256) (sym w) v.mask;
  rows_low = subst (λ (m : ℕ). 0 < m) (sym r) v.rows_low;
  rows_high = subst (λ (m : ℕ). m ≤ 4) (sym r) v.rows_high;
  cols_low = subst (λ (m : ℕ). 0 < m) (sym k) v.cols_low;
  cols_high = subst (λ (m : ℕ). m ≤ 20) (sym k) v.cols_high;
}

one_line : (n f : Bool) → n ≡ true → (not n && f) ≡ false
one_line n f h = ground (arith, h)

pub command-IsValid : (s : Lcd) (byte : ℕ) → IsValid s → IsValid (command byte s)
unfolding command function_set
command-IsValid s byte v =
    if-IsValid (has byte inst_set_ddram)
      (moved-IsValid s _ v (omega (arith, bit_and_7f byte)) (λ h. absurd (ground (arith, h))) v.font
        v.nibble refl refl refl refl refl)
      (if-IsValid (has byte inst_set_cgram)
        (moved-IsValid s _ v (omega (arith, bit_and_3f byte)) (λ h. omega (arith, bit_and_3f byte))
          v.font v.nibble refl refl refl refl refl)
        (if-IsValid (has byte inst_function_set)
          (moved-IsValid s _ v v.ac v.cgram_ac (one_line (has byte 0x08) (has byte 0x04)) v.nibble
            refl refl refl refl refl)
          (if-IsValid (has byte inst_cursor_shift) v (
            if-IsValid (has byte inst_display_ctl)
              (moved-IsValid s _ v v.ac v.cgram_ac v.font v.nibble refl refl refl refl refl)
              (if-IsValid (has byte inst_entry_mode)
                (moved-IsValid s _ v v.ac v.cgram_ac v.font v.nibble refl refl refl refl refl)
                (if-IsValid (has byte inst_home)
                  (moved-IsValid s _ v (omega arith) (λ h. omega arith) v.font v.nibble refl refl
                    refl refl refl)
                  (if-IsValid (has byte inst_clear) (cleared-IsValid s v) v)))))))
  where
    cleared-IsValid :
        (s : Lcd)
        → IsValid s
        → IsValid (record s { ddram = blank; ac = 0; cgram_mode = false; dirty = true })
    cleared-IsValid s v = record {
      ac = omega arith;
      cgram_ac = λ h. omega arith;
      nibble = v.nibble;
      font = v.font;
      cells = λ i. omega arith;
      patterns = v.patterns;
      mask = v.mask;
      rows_low = v.rows_low;
      rows_high = v.rows_high;
      cols_low = v.cols_low;
      cols_high = v.cols_high;
    }
