-- ===== src/Asm/Scan.antt =====
-- The scanner of asm/00/asm.c: hex_digit, parse_hex, skip_whitespace and process_data. A pointer
-- into a C string is the list of the characters from there on, without the terminator.
use workbench.Common.{
  ℕ, zero, suc, ◌+◌, ◌-◌, ◌==◌, Bool, true, false, ◌&&◌, ◌||◌, not, Option, none, some,
  if◌then◌else◌, ltb, leb, bit_and, bit_or, ◌<<◌, ◌>>>◌, List, [], ◌∷◌, ◌++◌, length,
}

-- Characters.
abbrev pub tab : ℕ
tab = 0x09

abbrev pub newline : ℕ
newline = 0x0a

abbrev pub space : ℕ
space = 0x20

abbrev pub quote : ℕ
quote = 0x22

abbrev pub dollar : ℕ
dollar = 0x24

abbrev pub semicolon : ℕ
semicolon = 0x3b

abbrev pub backslash : ℕ
backslash = 0x5c

abbrev pub letter_n : ℕ
letter_n = 0x6e

-- `*p`, and `p + n` within the string.
abbrev pub peek : List ℕ → ℕ
peek [] = 0
peek (c ∷ p) = c

abbrev pub skip : ℕ → List ℕ → List ℕ
skip zero p = p
skip (suc n) [] = []
skip (suc n) (c ∷ p) = skip n p

-- `none` is -1.
unfoldable pub hex_digit : ℕ → Option ℕ
hex_digit c =
    if leb 0x30 c && leb c 0x39
    then some (c - 0x30)
    else if leb 0x41 c && leb c 0x46
    then some (c - 0x41 + 10)
    else if leb 0x61 c && leb c 0x66
    then some (c - 0x61 + 10)
    else none

-- After the second digit, and the third.
unfoldable pub fourth_digit : ℕ → ℕ → List ℕ → Option ℕ → Option (ℕ × List ℕ)
fourth_digit value d3 p none = none
fourth_digit value d3 p (some d4) = some (bit_or (bit_or (value << 8) (d3 << 4)) d4, skip 1 p)

unfoldable pub third_digit : ℕ → List ℕ → Option ℕ → Option (ℕ × List ℕ)
third_digit value p none = some (value, p)
third_digit value p (some d3) = fourth_digit value d3 (skip 1 p) (hex_digit (peek (skip 1 p)))

unfoldable pub hex_digits : List ℕ → Option ℕ → Option ℕ → Option (ℕ × List ℕ)
hex_digits p none d2 = none
hex_digits p (some d1) none = none
hex_digits p (some d1) (some d2) =
    third_digit (bit_or (d1 << 4) d2) (skip 2 p) (hex_digit (peek (skip 2 p)))

-- The value and the pointer behind it.
unfoldable pub parse_hex : List ℕ → Option (ℕ × List ℕ)
parse_hex p =
    if not (peek p == dollar)
    then none
    else (let q = skip 1 p in hex_digits q (hex_digit (peek q)) (hex_digit (peek (skip 1 q))))

unfoldable pub skip_whitespace : List ℕ → List ℕ
skip_whitespace [] = []
skip_whitespace (c ∷ p) =
    let rest = skip_whitespace p in if (c == space) || (c == tab) then rest else c ∷ p

-- The end of a line, or a comment.
abbrev pub at_end : List ℕ → Bool
at_end p = (peek p == 0) || (peek p == newline) || (peek p == semicolon)

-- The bytes for a value.
unfoldable pub emit_value : ℕ → List ℕ
emit_value value =
    if ltb 0xff value then bit_and value 0xff ∷ bit_and (value >>> 8) 0xff ∷ [] else value ∷ []

abbrev pub escaped : ℕ → ℕ
escaped c = if c == letter_n then newline else c

-- The bytes of a string from behind its opening quote on, and the pointer behind its end. Whether
-- the character before was a backslash is a flag; one at the very end stands for itself.
unfoldable pub string_bytes : Bool → List ℕ → List ℕ × List ℕ
string_bytes escaping [] = (if escaping then backslash ∷ [] else [], [])
string_bytes escaping (c ∷ p) =
    let (bytes, rest) = string_bytes (not escaping && (c == backslash)) p in
    if escaping
    then (if c == 0 then (backslash ∷ [], c ∷ p) else (escaped c ∷ bytes, rest))
    else if c == 0
    then ([], c ∷ p)
    else if c == quote
    then ([], p)
    else if c == backslash
    then (bytes, rest)
    else (c ∷ bytes, rest)

unfoldable pub hex_item : Option (ℕ × List ℕ) → Option (List ℕ × List ℕ)
hex_item none = none
hex_item (some (value, p)) = some (emit_value value, p)

-- One item of a DATA line: its bytes and the pointer behind it, or an error.
unfoldable pub item : List ℕ → Option (List ℕ × List ℕ)
item p =
    if peek p == dollar
    then hex_item (parse_hex p)
    else if peek p == quote
    then some (string_bytes false (skip 1 p))
    else none

-- What a line or a file gives: whether it went through, and what was written until then.
abbrev pub Written : Type 0
Written = Bool × List ℕ

unfoldable pub emit : List ℕ → Option Written → Option Written
emit bytes none = none
emit bytes (some (ok, out)) = some (ok, bytes ++ out)

unfoldable pub after_item : Option (List ℕ × List ℕ) → (List ℕ → Option Written) → Option Written
after_item none go = some (false, [])
after_item (some (bytes, p)) go = emit bytes (go p)

-- The loop of process_data, on fuel; `none` says that it ran out.
unfoldable pub items : ℕ → List ℕ → Option Written
items zero p = none
items (suc fuel) p =
    let q = skip_whitespace p in
    if at_end q then some (true, []) else after_item (item q) (items fuel)

-- An item or the end takes at least one character of the line.
unfoldable pub process_data : List ℕ → Option Written
process_data p = items (suc (length p)) (skip 4 p)
