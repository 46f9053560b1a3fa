-- ===== src/Asm/Listing.antt =====
-- Source text as a programmer writes it for asm/00/asm.c: items, lines of them, and comments.
use workbench.Common.{
  ℕ, ◌+◌, ◌/◌, ◌%◌, ◌==◌, Bool, true, false, ◌&&◌, ◌||◌, not, if◌then◌else◌, List, [], ◌∷◌, ◌++◌,
  length, ltb, leb,
}
use workbench.Asm.Scan.{newline, dollar, quote, space, semicolon, backslash, letter_n}

-- A byte or a word in hexadecimal, and a string.
pub data Item : Type 0 where
  byte : ℕ → Item
  word : ℕ → Item
  text : List ℕ → Item

abbrev pub hex_char : ℕ → ℕ
hex_char d = if ltb d 10 then 0x30 + d else 0x37 + d

abbrev pub escape : ℕ → List ℕ → List ℕ
escape c rest =
    if c == newline
    then backslash ∷ letter_n ∷ rest
    else if (c == quote) || (c == backslash)
    then backslash ∷ c ∷ rest
    else c ∷ rest

-- With what follows.
abbrev pub print_text : List ℕ → List ℕ → List ℕ
print_text [] rest = quote ∷ rest
print_text (c ∷ cs) rest = escape c (print_text cs rest)

abbrev pub print_item : Item → List ℕ → List ℕ
print_item (Item.byte b) rest = dollar ∷ hex_char (b / 16) ∷ hex_char (b % 16) ∷ rest
print_item (Item.word w) rest =
    dollar
    ∷ hex_char (w / 4096)
    ∷ hex_char (w / 256 % 16)
    ∷ hex_char (w / 16 % 16)
    ∷ hex_char (w % 16)
    ∷ rest
print_item (Item.text cs) rest = quote ∷ print_text cs rest

abbrev pub print_items : List Item → List ℕ → List ℕ
print_items [] rest = rest
print_items (i ∷ is) rest = space ∷ print_item i (print_items is rest)

-- What an item stands for, the low byte of a word first.
abbrev pub item_bytes : Item → List ℕ
item_bytes (Item.byte b) = b ∷ []
item_bytes (Item.word w) = w % 256 ∷ w / 256 ∷ []
item_bytes (Item.text cs) = cs

abbrev pub items_bytes : List Item → List ℕ
items_bytes [] = []
items_bytes (i ∷ is) = item_bytes i ++ items_bytes is

abbrev pub is_chars : List ℕ → Bool
is_chars [] = true
is_chars (c ∷ cs) = ltb 0 c && is_chars cs

-- A byte, a word above $FF, or a string without a zero.
abbrev pub is_item : Item → Bool
is_item (Item.byte b) = ltb b 256
is_item (Item.word w) = leb 256 w && ltb w 65536
is_item (Item.text cs) = is_chars cs

abbrev pub are_items : List Item → Bool
are_items [] = true
are_items (i ∷ is) = is_item i && are_items is

-- A line: DATA with items, a comment, or nothing.
pub data Row : Type 0 where
  directive : List Item → Row
  comment : List ℕ → Row
  blank_row : Row

-- Without its newline.
abbrev pub print_row : Row → List ℕ
print_row (Row.directive is) = 0x44 ∷ 0x41 ∷ 0x54 ∷ 0x41 ∷ print_items is []
print_row (Row.comment cs) = semicolon ∷ cs
print_row Row.blank_row = []

abbrev pub row_output : Row → List ℕ
row_output (Row.directive is) = items_bytes is
row_output (Row.comment cs) = []
row_output Row.blank_row = []

abbrev pub no_newline : List ℕ → Bool
no_newline [] = true
no_newline (c ∷ cs) = not (c == newline) && no_newline cs

abbrev pub is_row : Row → Bool
is_row (Row.directive []) = false
is_row (Row.directive (i ∷ is)) =
    are_items (i ∷ is) && ltb (length (print_row (Row.directive (i ∷ is)))) 1023
is_row (Row.comment cs) = no_newline cs && ltb (length cs) 1022
is_row Row.blank_row = true

abbrev pub are_rows : List Row → Bool
are_rows [] = true
are_rows (r ∷ rs) = is_row r && are_rows rs

-- A source text with what follows it.
abbrev pub listing : List Row → List ℕ → List ℕ
listing [] rest = rest
listing (r ∷ rs) rest = print_row r ++ (newline ∷ listing rs rest)

abbrev pub listing_bytes : List Row → List ℕ
listing_bytes [] = []
listing_bytes (r ∷ rs) = row_output r ++ listing_bytes rs
