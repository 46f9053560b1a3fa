-- ===== src/Lcd/Panel.antt =====
-- What the panel shows: line_base, lcd_hd44780_visible_bytes, lcd_hd44780_cursor and
-- lcd_hd44780_render of lcd_hd44780.c.
use workbench.Common.{
  ℕ, zero, suc, ◌+◌, ◌-◌, ◌==◌, Bool, false, ◌&&◌, if◌then◌else◌, to_bit, ltb, leb, u8, bit_and,
  List, [], ◌∷◌, ◌++◌, Option, none, some,
}
use workbench.Lcd.State.{Lcd}
use workbench.Lcd.Memory.{ddram_index}

unfoldable pub bases_20x4 : ℕ → ℕ
bases_20x4 i = if i == 0 then 0x00 else if i == 1 then 0x40 else if i == 2 then 0x14 else 0x54

unfoldable pub bases_16x2 : ℕ → ℕ
bases_16x2 i = if i == 0 then 0x00 else 0x40

unfoldable pub line_base : ℕ → ℕ → ℕ
line_base row cols = if cols == 20 then bases_20x4 (bit_and row 3) else bases_16x2 (bit_and row 1)

-- The cells of a row from a column on.
unfoldable pub row_bytes : ℕ → ℕ → ℕ → Lcd → List ℕ
row_bytes zero base c s = []
row_bytes (suc n) base c s = s.ddram (ddram_index s (u8 (base + c))) ∷ row_bytes n base (suc c) s

-- The rows from one on.
unfoldable pub rows_bytes : ℕ → ℕ → Lcd → List ℕ
rows_bytes zero r s = []
rows_bytes (suc n) r s = row_bytes s.cols (line_base r s.cols) 0 s ++ rows_bytes n (suc r) s

unfoldable pub lcd_hd44780_visible_bytes : Lcd → List ℕ
lcd_hd44780_visible_bytes s = rows_bytes s.rows 0 s

-- The first row from one on that shows the address.
unfoldable pub visible_at : ℕ → ℕ → ℕ → Lcd → Option (ℕ × ℕ)
visible_at zero r ac s = none
visible_at (suc n) r ac s =
    let base = line_base r s.cols in
    let rest = visible_at n (suc r) ac s in
    if leb base ac && ltb ac (base + s.cols) then some (r, ac - base) else rest

abbrev pub off_panel : ℕ → Lcd → ℕ × ℕ
off_panel ac s =
    let row = to_bit (leb 0x40 ac) in
    let col = if leb 0x40 ac then ac - 0x40 else ac in
    (row, if leb s.cols col then s.cols - 1 else col)

unfoldable pub placed : Option (ℕ × ℕ) → ℕ × ℕ → ℕ × ℕ
placed none else_at = else_at
placed (some at) else_at = at

unfoldable pub lcd_hd44780_cursor : Lcd → ℕ × ℕ
lcd_hd44780_cursor s =
    if s.cgram_mode
    then (0, 0)
    else (let ac = bit_and s.ac 0x7f in placed (visible_at s.rows 0 ac s) (off_panel ac s))

-- The character for a byte: the two custom ones, ASCII, a space for 0, or a question mark.
unfoldable pub glyph : ℕ → ℕ
glyph b =
    if b == 0x06
    then 0x7e
    else if b == 0x07
    then 0x5c
    else if leb 0x20 b && leb b 0x7e
    then b
    else if b == 0
    then 0x20
    else 0x3f

unfoldable pub glyphs : List ℕ → List ℕ
glyphs [] = []
glyphs (b ∷ bs) = glyph b ∷ glyphs bs

-- Whether the panel changed, the text with its terminator, and the state with the flag taken.
unfoldable pub lcd_hd44780_render : Lcd → Bool × (List ℕ × Lcd)
lcd_hd44780_render s =
    (s.dirty, (glyphs (lcd_hd44780_visible_bytes s) ++ (0 ∷ []), record s { dirty = false }))
