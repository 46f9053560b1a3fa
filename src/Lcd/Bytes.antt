-- ===== src/Lcd/Bytes.antt =====
-- The bytes that the panel shows, lcd_hd44780_visible_bytes of lcd_hd44780.c, by row and column.
use workbench.Common.{
  get_or-right, get_or-left, length-append, ap, ℕ, zero, suc, ◌+◌, ◌*◌, ◌<◌, ◌≤◌, ◌≡◌, refl, ◌∙◌,
  arith, ◌++◌, u8, length, get_or,
}
use workbench.Lcd.Memory.{ddram_index}
use workbench.Lcd.State.{Lcd}
use workbench.Lcd.Panel.{line_base, lcd_hd44780_visible_bytes, row_bytes, rows_bytes}

row_bytes-length : (n base c : ℕ) (s : Lcd) → length (row_bytes n base c s) ≡ n
unfolding row_bytes
row_bytes-length zero base c s = refl
row_bytes-length (suc n) base c s = ap suc (row_bytes-length n base (suc c) s)

row_bytes-get :
    (n base q c d : ℕ) (s : Lcd)
    → c < n
    → get_or (row_bytes n base q s) c d ≡ s.ddram (ddram_index s (u8 (base + (q + c))))
unfolding row_bytes
row_bytes-get zero base q c d s h = absurd (omega arith)
row_bytes-get (suc n) base q zero d s h =
    ap (λ (t : ℕ). s.ddram (ddram_index s (u8 (base + t)))) (omega arith)
row_bytes-get (suc n) base q (suc c) d s h =
    row_bytes-get n base (suc q) c d s (omega arith)
    ∙ ap (λ (t : ℕ). s.ddram (ddram_index s (u8 (base + t)))) (omega arith)

suc-mul : (r n : ℕ) → suc r * n ≡ n + r * n
suc-mul r n = omega arith

pub rows_bytes-get :
    (n q r c d : ℕ) (s : Lcd)
    → r < n
    → c < s.cols
    → get_or (rows_bytes n q s) (r * s.cols + c) d
      ≡ s.ddram (ddram_index s (u8 (line_base (q + r) s.cols + c)))
unfolding rows_bytes
rows_bytes-get zero q r c d s h k = absurd (omega arith)
rows_bytes-get (suc n) q zero c d s h k =
    ap (λ (t : ℕ). get_or (row_bytes s.cols (line_base q s.cols) 0 s ++ rows_bytes n (suc q) s) t d)
      {y = c} (omega arith)
    ∙ get_or-left (row_bytes s.cols (line_base q s.cols) 0 s) (rows_bytes n (suc q) s) c d
        (omega (arith, row_bytes-length s.cols (line_base q s.cols) 0 s))
    ∙ row_bytes-get s.cols (line_base q s.cols) 0 c d s k
    ∙ ap (λ (t : ℕ). s.ddram (ddram_index s (u8 (line_base q s.cols + t)))) {y = c} (omega arith)
    ∙ ap (λ (t : ℕ). s.ddram (ddram_index s (u8 (line_base t s.cols + c)))) {y = q + 0}
        (omega arith)
rows_bytes-get (suc n) q (suc r) c d s h k =
    ap (λ (t : ℕ). get_or (row_bytes s.cols (line_base q s.cols) 0 s ++ rows_bytes n (suc q) s) t d)
      (omega (arith, row_bytes-length s.cols (line_base q s.cols) 0 s))
    ∙ get_or-right (row_bytes s.cols (line_base q s.cols) 0 s) (rows_bytes n (suc q) s)
        (r * s.cols + c) d
    ∙ rows_bytes-get n (suc q) r c d s (omega arith) k
    ∙ ap (λ (t : ℕ). s.ddram (ddram_index s (u8 (line_base t s.cols + c)))) {y = q + suc r}
        (omega arith)

rows_bytes-length : (n q : ℕ) (s : Lcd) → length (rows_bytes n q s) ≡ n * s.cols
unfolding rows_bytes
rows_bytes-length zero q s = omega arith
rows_bytes-length (suc n) q s = omega (
  arith,
  length-append (row_bytes s.cols (line_base q s.cols) 0 s) (rows_bytes n (suc q) s),
  row_bytes-length s.cols (line_base q s.cols) 0 s,
  rows_bytes-length n (suc q) s,
)

panel-le : (r c : ℕ) → r ≤ 4 → c ≤ 20 → r * c ≤ 80
panel-le r c h k = omega (arith, rows_of_20 r c k)
  where
    rows_of_20 : (r c : ℕ) → c ≤ 20 → r * c ≤ r * 20
    rows_of_20 zero c k = omega arith
    rows_of_20 (suc r) c k = omega (arith, suc-mul r c, rows_of_20 r c k)

-- The text of a panel of up to 4 rows of 20 has a character for each position.
pub visible_bytes-length :
    (s : Lcd)
    → s.rows ≤ 4
    → s.cols ≤ 20
    → (length (lcd_hd44780_visible_bytes s) ≡ s.rows * s.cols) × (s.rows * s.cols ≤ 80)
unfolding lcd_hd44780_visible_bytes
visible_bytes-length s h k = (rows_bytes-length s.rows 0 s, panel-le s.rows s.cols h k)
