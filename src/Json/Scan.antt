-- ===== src/Json/Scan.antt =====
-- The scanner of emulator/web_json.c. The parser's position is the list of the bytes from there
-- to the end of the text.
use workbench.Common.{
  ℕ, zero, suc, ◌+◌, ◌-◌, ◌*◌, ◌==◌, Bool, true, false, ◌&&◌, ◌||◌, not, Option, none, some,
  if◌then◌else◌, leb, List, [], ◌∷◌,
}

-- What a parser returns: 0 with its results, -1, or that the fuel of the model ran out.
pub data Result (A : Type 0) : Type 0 where
  ok : A → Result A
  bad : Result A
  spent : Result A

unfoldable pub chain : {A B : Type 0} → Result A → (A → Result B) → Result B
chain (Result.ok x) go = go x
chain Result.bad go = Result.bad
chain Result.spent go = Result.spent

-- Of two results, by a test.
unfoldable pub unless : {A : Type 0} → Bool → Result A → Result A
unless true r = Result.bad
unless false r = r

abbrev pub is_ws : ℕ → Bool
is_ws c = ((c == 0x20) || (c == 0x09)) || ((c == 0x0a) || (c == 0x0d))

unfoldable pub skip_ws : List ℕ → List ℕ
skip_ws [] = []
skip_ws (c ∷ p) = let rest = skip_ws p in if is_ws c then rest else c ∷ p

-- Whether the byte at the position is the given one.
abbrev pub at : ℕ → List ℕ → Bool
at c [] = false
at c (d ∷ p) = d == c

abbrev pub skip_one : List ℕ → List ℕ
skip_one [] = []
skip_one (c ∷ p) = p

-- The character that an escape stands for.
unfoldable pub unescape : ℕ → Option ℕ
unescape e =
    if e == 0x22
    then some 0x22
    else if e == 0x5c
    then some 0x5c
    else if e == 0x2f
    then some 0x2f
    else if e == 0x6e
    then some 0x0a
    else if e == 0x72
    then some 0x0d
    else if e == 0x74
    then some 0x09
    else if e == 0x62
    then some 0x08
    else if e == 0x66
    then some 0x0c
    else none

-- A character in front of the rest of a string.
unfoldable pub with_char : Option ℕ → Result (List ℕ × List ℕ) → Result (List ℕ × List ℕ)
with_char none r = Result.bad
with_char (some c) (Result.ok (s, p)) = Result.ok (c ∷ s, p)
with_char (some c) Result.bad = Result.bad
with_char (some c) Result.spent = Result.spent

-- The characters up to the closing quote; the flag says that a backslash was read.
unfoldable pub string_chars : Bool → List ℕ → Result (List ℕ × List ℕ)
string_chars escaping [] = Result.bad
string_chars escaping (c ∷ p) =
    let rest = string_chars (not escaping && (c == 0x5c)) p in
    if escaping
    then with_char (unescape c) rest
    else if c == 0x22
    then Result.ok ([], p)
    else if c == 0x5c
    then rest
    else with_char (some c) rest

-- The string, whole, and the position behind it.
unfoldable pub parse_string : List ℕ → Result (List ℕ × List ℕ)
parse_string p = unless (not (at 0x22 p)) (string_chars false (skip_one p))

unfoldable pub take : ℕ → List ℕ → List ℕ
take zero s = []
take (suc n) [] = []
take (suc n) (c ∷ s) = c ∷ take n s

unfoldable pub buffered : ℕ → List ℕ × List ℕ → Result (List ℕ × List ℕ)
buffered out_cap (s, p) = Result.ok (take (out_cap - 1) s, p)

-- With a buffer: what it holds before its terminator.
unfoldable pub parse_string_into : ℕ → List ℕ → Result (List ℕ × List ℕ)
parse_string_into out_cap p = chain (parse_string p) (buffered out_cap)

-- A C long.
pub data ℤ : Type 0 where
  pos : ℕ → ℤ
  negsuc : ℕ → ℤ

abbrev pub signed : Bool → ℕ → ℤ
signed false v = ℤ.pos v
signed true zero = ℤ.pos 0
signed true (suc v) = ℤ.negsuc v

abbrev pub is_digit : ℕ → Bool
is_digit c = leb 0x30 c && leb c 0x39

-- The digits from a position on, of which so many are left to the cap.
unfoldable pub read_digits : ℕ → ℕ → List ℕ → Result (ℕ × List ℕ)
read_digits left v [] = Result.ok (v, [])
read_digits zero v (c ∷ p) = if is_digit c then Result.bad else Result.ok (v, c ∷ p)
read_digits (suc left) v (c ∷ p) =
    let rest = read_digits left (v * 10 + (c - 0x30)) p in
    if is_digit c then rest else Result.ok (v, c ∷ p)

abbrev pub starts_digit : List ℕ → Bool
starts_digit [] = false
starts_digit (c ∷ p) = is_digit c

abbrev pub fraction : List ℕ → Bool
fraction p = at 0x2e p || (at 0x65 p || at 0x45 p)

unfoldable pub whole : Bool → ℕ × List ℕ → Result (ℤ × List ℕ)
whole minus (v, p) = unless (fraction p) (Result.ok (signed minus v, p))

abbrev pub number_digits_cap : ℕ
number_digits_cap = 18

unfoldable pub parse_int : List ℕ → Result (ℤ × List ℕ)
parse_int p =
    let minus = at 0x2d p in
    let q = if minus then skip_one p else p in
    unless (not (starts_digit q)) (chain (read_digits number_digits_cap 0 q) (whole minus))

-- What stands behind an element: a comma, the closing bracket, or neither.
pub data Next : Type 0 where
  comma : Next
  close : Next
  other : Next

abbrev pub next : ℕ → List ℕ → Next
next bracket p = if at 0x2c p then Next.comma else if at bracket p then Next.close else Next.other
