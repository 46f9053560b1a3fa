-- ===== src/Lcd/Ring.antt =====
-- The display memory of lcd_hd44780.c as a ring of 80 cells with a position.
use workbench.Common.{
  get_or, subst, all_below, ◌∙◌, ◌≤◌, all_below_sound, bit_and_3f, ap, ℕ, zero, suc, ◌+◌, ◌%◌, ◌<◌,
  ◌≡◌, refl, ◌==◌, Bool, true, false, if◌then◌else◌, leb, ltb, bit_and, bit_and_7f, arith, List, [],
  ◌∷◌, length,
}
use workbench.Lcd.Memory.{cell, next_ddram, ddram_index, advance_ac}
use workbench.Chips.Memory.{Contents, store}
use workbench.Lcd.State.{Lcd}
use workbench.Lcd.Commands.{write_cell, execute_byte}

-- An address that the display memory answers to under its own number: $00-$4F with one line,
-- $00-$27 and $40-$67 with two.
abbrev pub canonical : Bool → ℕ → Bool
canonical two ac = if two then (if leb 0x40 ac then ltb ac 0x68 else ltb ac 0x28) else ltb ac 0x50

-- The address is one of the display memory's.
pub record IsCanonical (s : Lcd) : Type 0 where
  pub mode : s.cgram_mode ≡ false
  pub address : canonical s.two_line_mode s.ac ≡ true

-- The ring: the cells and the position.
abbrev pub Ring : Type 0
Ring = Contents × ℕ

abbrev step : Bool → ℕ
step forward = if forward then 1 else 79

unfoldable pub put : Bool → ℕ → Ring → Ring
put forward b (cells, at) = (store at b cells, (at + step forward) % 80)

unfoldable pub ring : Lcd → Ring
ring s = (s.ddram, ddram_index s s.ac)

cell-lt : (two : Bool) (addr : ℕ) → cell two addr < 80
cell-lt two addr = ground (arith, bit_and_7f addr, bit_and_3f (bit_and addr 0x7f))

pub ddram_index-lt : (s : Lcd) (addr : ℕ) → ddram_index s addr < 80
unfolding ddram_index
ddram_index-lt s addr = cell-lt s.two_line_mode addr

-- The address after a canonical one is canonical and its cell is the next on the ring.
abbrev steps : Bool → Bool → ℕ → Bool
steps two forward ac =
    if canonical two ac
    then (if canonical two (next_ddram two forward ac)
        then cell two (next_ddram two forward ac) == (cell two ac + step forward) % 80
        else false)
    else true

canonical-lt : (two : Bool) (ac : ℕ) → canonical two ac ≡ true → ac < 104
canonical-lt two ac h = ground arith

steps_checked :
    (two forward : Bool) (ac : ℕ) → canonical two ac ≡ true → steps two forward ac ≡ true
unfolding all_below
steps_checked true true ac h =
    all_below_sound (steps true true) 104 ac (canonical-lt true ac h) refl
steps_checked true false ac h =
    all_below_sound (steps true false) 104 ac (canonical-lt true ac h) refl
steps_checked false true ac h =
    all_below_sound (steps false true) 104 ac (canonical-lt false ac h) refl
steps_checked false false ac h =
    all_below_sound (steps false false) 104 ac (canonical-lt false ac h) refl

cell-next :
    (two forward : Bool) (ac : ℕ)
    → canonical two ac ≡ true
    → (canonical two (next_ddram two forward ac) ≡ true)
      × (cell two (next_ddram two forward ac) ≡ (cell two ac + step forward) % 80)
cell-next two forward ac h = ground (arith, steps_checked two forward ac h)

execute_byte-IsCanonical : (s : Lcd) (b : ℕ) → IsCanonical s → IsCanonical (execute_byte true b s)
unfolding execute_byte write_cell advance_ac
execute_byte-IsCanonical s b v = record {
  mode = v.mode;
  address = simp (v.mode) (cell-next s.two_line_mode s.entry_id s.ac v.address).0;
}

execute_byte-ring :
    (s : Lcd) (b : ℕ) → IsCanonical s → ring (execute_byte true b s) ≡ put s.entry_id b (ring s)
unfolding ring put execute_byte write_cell advance_ac ddram_index
execute_byte-ring s b v =
    simp (v.mode, (cell-next s.two_line_mode s.entry_id s.ac v.address).1) refl

-- A text is written as data, byte by byte.
unfoldable pub write_text : List ℕ → Lcd → Lcd
write_text [] s = s
write_text (b ∷ bs) s = write_text bs (execute_byte true b s)

unfoldable pub put_text : Bool → List ℕ → Ring → Ring
put_text forward [] r = r
put_text forward (b ∷ bs) r = put_text forward bs (put forward b r)

execute_byte-entry_id : (s : Lcd) (b : ℕ) → (execute_byte true b s).entry_id ≡ s.entry_id
unfolding execute_byte write_cell advance_ac
execute_byte-entry_id s b = refl

-- Data writes from a canonical address on put the bytes on the ring of the 80 cells, one after
-- another, in the direction of the entry mode.
pub write_text-ring :
    (bs : List ℕ) (s : Lcd)
    → IsCanonical s
    → (ring (write_text bs s) ≡ put_text s.entry_id bs (ring s)) × IsCanonical (write_text bs s)
unfolding write_text put_text
write_text-ring [] s v = (refl, v)
write_text-ring (b ∷ bs) s v =
    let rest = write_text-ring bs (execute_byte true b s) (execute_byte-IsCanonical s b v) in
    (
      rest.0
          ∙ ap (λ (f : Bool). put_text f bs (ring (execute_byte true b s)))
              (execute_byte-entry_id s b)
          ∙ ap (put_text s.entry_id bs) (execute_byte-ring s b v),
      rest.1,
    )

put-elsewhere :
    (cells : Contents) (at b k : ℕ)
    → at < 80
    → 0 < k
    → k < 80
    → store at b cells ((at + k) % 80) ≡ cells ((at + k) % 80)
unfolding store
put-elsewhere cells at b k h0 h1 h2 = ground arith

put_text-elsewhere :
    (bs : List ℕ) (cells : Contents) (at k : ℕ)
    → at < 80
    → length bs ≤ k
    → k < 80
    → (put_text true bs (cells, at)).0 ((at + k) % 80) ≡ cells ((at + k) % 80)
unfolding put_text put
put_text-elsewhere [] cells at k h0 h1 h2 = refl
put_text-elsewhere (b ∷ bs) cells at zero h0 h1 h2 = absurd (omega arith)
put_text-elsewhere (b ∷ bs) cells at (suc k) h0 h1 h2 =
    subst (λ (t : ℕ). (put_text true bs (store at b cells, (at + 1) % 80)).0 t ≡ store at b cells t)
      (omega arith)
      (put_text-elsewhere bs (store at b cells) ((at + 1) % 80) k (omega arith) (omega arith)
        (omega arith))
    ∙ put-elsewhere cells at b (suc k) h0 (omega arith) h2

put_text-there :
    (bs : List ℕ) (cells : Contents) (at k : ℕ)
    → at < 80
    → length bs ≤ 80
    → k < length bs
    → (put_text true bs (cells, at)).0 ((at + k) % 80) ≡ get_or bs k 0
unfolding put_text put store
put_text-there [] cells at k h0 h1 h2 = absurd (omega arith)
put_text-there (b ∷ bs) cells at zero h0 h1 h2 =
    subst (λ (t : ℕ). (put_text true bs (store at b cells, (at + 1) % 80)).0 t ≡ store at b cells t)
      (omega arith)
      (put_text-elsewhere bs (store at b cells) ((at + 1) % 80) 79 (omega arith) (omega arith)
        (omega arith))
    ∙ ground arith
put_text-there (b ∷ bs) cells at (suc k) h0 h1 h2 =
    subst (λ (t : ℕ). (put_text true bs (store at b cells, (at + 1) % 80)).0 t ≡ get_or bs k 0)
      (omega arith)
      (put_text-there bs (store at b cells) ((at + 1) % 80) k (omega arith) (omega arith)
        (omega arith))

-- A text of up to 80 bytes that is written with increment from a canonical address on is in the
-- display memory, from the cell of that address on and around its end.
pub write_text-cells :
    (bs : List ℕ) (s : Lcd) (k : ℕ)
    → IsCanonical s
    → s.entry_id ≡ true
    → length bs ≤ 80
    → k < length bs
    → (write_text bs s).ddram ((ddram_index s s.ac + k) % 80) ≡ get_or bs k 0
unfolding ring
write_text-cells bs s k v forward short below =
    ap (λ (r : Ring). r.0 ((ddram_index s s.ac + k) % 80)) (write_text-ring bs s v).0
    ∙ ap (λ (f : Bool). (put_text f bs (ring s)).0 ((ddram_index s s.ac + k) % 80)) forward
    ∙ put_text-there bs s.ddram (ddram_index s s.ac) k (ddram_index-lt s s.ac) short below
