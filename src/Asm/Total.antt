-- ===== src/Asm/Total.antt =====
-- The fuel of the assembler's loops in asm/00/asm.c against the length of the text.
use workbench.Common.{
  passed, picked, ap, ℕ, zero, suc, ◌==◌, ◌≡◌, ◌<◌, ◌≤◌, ◌∙◌, refl, Bool, true, false, ◌&&◌, ◌||◌,
  not, Option, none, some, if◌then◌else◌, List, [], ◌∷◌, length, ltb, arith, Bool-cases, inl, inr,
  bit_or, ◌<<◌,
}
use workbench.Asm.Scan.{
  newline, dollar, quote, space, tab, backslash, peek, skip, escaped, skip_whitespace, hex_digit,
  fourth_digit, third_digit, hex_digits, parse_hex, string_bytes, hex_item, item, emit, after_item,
  items, at_end, Written, process_data,
}
use workbench.Asm.Lines.{
  fgets, line_room, run_line, is_data, Ending, prepend, after_line, line_loop, assemble,
}

-- Whether a computation on fuel gave a result.
abbrev pub is_some {ℓ} : {A : Type ℓ} → Option A → Bool
is_some none = false
is_some (some x) = true

pub skip-le : (n : ℕ) (p : List ℕ) → length (skip n p) ≤ length p
skip-le zero p = omega arith
skip-le (suc n) [] = omega arith
skip-le (suc n) (c ∷ p) = omega (arith, skip-le n p)

if-le :
    (b : Bool) (x y : List ℕ) (n : ℕ)
    → length x ≤ n
    → length y ≤ n
    → length (if b then x else y) ≤ n
if-le true x y n p q = p
if-le false x y n p q = q

second-le :
    (b : Bool) (x y : List ℕ × List ℕ) (n : ℕ)
    → length x.1 ≤ n
    → length y.1 ≤ n
    → length (if b then x else y).1 ≤ n
second-le true x y n p q = p
second-le false x y n p q = q

skip_whitespace-le : (p : List ℕ) → length (skip_whitespace p) ≤ length p
unfolding skip_whitespace
skip_whitespace-le [] = omega arith
skip_whitespace-le (c ∷ p) =
    if-le ((c == space) || (c == tab)) (skip_whitespace p) (c ∷ p) (suc (length p))
      (omega (arith, skip_whitespace-le p)) (omega (arith, skip_whitespace-le p))

string_bytes-le : (e : Bool) (p : List ℕ) → length (string_bytes e p).1 ≤ length p
unfolding string_bytes
string_bytes-le e [] = omega arith
string_bytes-le e (c ∷ p) =
    let t = string_bytes (not e && (c == backslash)) p in
    let h = string_bytes-le (not e && (c == backslash)) p in
    second-le e (if c == 0 then (backslash ∷ [], c ∷ p) else (escaped c ∷ t.0, t.1)) _
      (suc (length p))
      (second-le (c == 0) (backslash ∷ [], c ∷ p) (escaped c ∷ t.0, t.1) (suc (length p))
        (omega arith) (omega (arith, h)))
      (second-le (c == 0) ([], c ∷ p) _ (suc (length p)) (omega arith)
        (second-le (c == quote) ([], p) _ (suc (length p)) (omega arith)
          (second-le (c == backslash) t (c ∷ t.0, t.1) (suc (length p)) (omega (arith, h))
            (omega (arith, h)))))

-- The text behind an item is shorter than a bound, if there is an item.
abbrev shorter : ℕ → Option (List ℕ × List ℕ) → Bool
shorter n none = true
shorter n (some (bytes, p)) = ltb (length p) n

if-shorter :
    (n : ℕ) (b : Bool) (x y : Option (List ℕ × List ℕ))
    → shorter n x ≡ true
    → shorter n y ≡ true
    → shorter n (if b then x else y) ≡ true
if-shorter n true x y p q = p
if-shorter n false x y p q = q

fourth_digit-shorter :
    (value d3 n : ℕ) (p : List ℕ) (d : Option ℕ)
    → length p < n
    → shorter n (hex_item (fourth_digit value d3 p d)) ≡ true
unfolding fourth_digit hex_item
fourth_digit-shorter value d3 n p none h = refl
fourth_digit-shorter value d3 n p (some d4) h = ground (arith, skip-le 1 p)

third_digit-shorter :
    (value n : ℕ) (p : List ℕ) (d : Option ℕ)
    → length p < n
    → shorter n (hex_item (third_digit value p d)) ≡ true
unfolding third_digit hex_item
third_digit-shorter value n p none h = ground arith
third_digit-shorter value n p (some d3) h =
    fourth_digit-shorter value d3 n (skip 1 p) (hex_digit (peek (skip 1 p)))
      (omega (arith, skip-le 1 p))

hex_digits-shorter :
    (n : ℕ) (p : List ℕ) (d1 d2 : Option ℕ)
    → length p < n
    → shorter n (hex_item (hex_digits p d1 d2)) ≡ true
unfolding hex_digits hex_item
hex_digits-shorter n p none d2 h = refl
hex_digits-shorter n p (some d1) none h = refl
hex_digits-shorter n p (some d1) (some d2) h =
    third_digit-shorter (bit_or (d1 << 4) d2) n (skip 2 p) (hex_digit (peek (skip 2 p)))
      (omega (arith, skip-le 2 p))

hex-shorter :
    (b : Bool) (n : ℕ) (p : List ℕ) (d1 d2 : Option ℕ)
    → length p < n
    → shorter n (hex_item (if b then none else hex_digits p d1 d2)) ≡ true
unfolding hex_item
hex-shorter true n p d1 d2 h = refl
hex-shorter false n p d1 d2 h = hex_digits-shorter n p d1 d2 h

item-shorter : (p : List ℕ) → at_end p ≡ false → shorter (length p) (item p) ≡ true
unfolding item parse_hex
item-shorter [] h = absurd (ground (arith, h))
item-shorter (c ∷ p) h =
    if-shorter (suc (length p)) (c == dollar) _ _
      (hex-shorter (not (c == dollar)) (suc (length p)) p (hex_digit (peek p))
        (hex_digit (peek (skip 1 p))) (omega arith))
      (if-shorter (suc (length p)) (c == quote) (some (string_bytes false p)) none
        (ground (arith, string_bytes-le false p)) refl)

emit-is_some :
    (bytes : List ℕ) (o : Option Written) → is_some o ≡ true → is_some (emit bytes o) ≡ true
unfolding emit
emit-is_some bytes none h = h
emit-is_some bytes (some w) h = refl

after_item-is_some :
    (n : ℕ) (o : Option (List ℕ × List ℕ)) (go : List ℕ → Option Written)
    → shorter n o ≡ true
    → ((p : List ℕ) → length p < n → is_some (go p) ≡ true)
    → is_some (after_item o go) ≡ true
unfolding after_item
after_item-is_some n none go h all = refl
after_item-is_some n (some (bytes, p)) go h all =
    emit-is_some bytes (go p) (all p (ground (arith, h)))

items-is_some : (fuel : ℕ) (p : List ℕ) → length p < fuel → is_some (items fuel p) ≡ true
unfolding items
items-is_some zero p h = absurd (omega arith)
items-is_some (suc fuel) p h = elim (Bool-cases (at_end (skip_whitespace p))) [
  | inl ends ↦ ap is_some (
      picked (at_end (skip_whitespace p)) (some (true, []))
        (after_item (item (skip_whitespace p)) (items fuel)) ends)
  | inr goes ↦
      ap is_some (
        passed (at_end (skip_whitespace p)) (some (true, []))
          (after_item (item (skip_whitespace p)) (items fuel)) goes)
      ∙ after_item-is_some (length (skip_whitespace p)) (item (skip_whitespace p)) (items fuel)
          (item-shorter (skip_whitespace p) goes)
          (λ q k. items-is_some fuel q (omega (arith, skip_whitespace-le p)))
]

if-is_some :
    {A : Type 0} (b : Bool) (x y : Option A)
    → is_some x ≡ true
    → is_some y ≡ true
    → is_some (if b then x else y) ≡ true
if-is_some true x y p q = p
if-is_some false x y p q = q

run_line-is_some : (line : List ℕ) → is_some (run_line line) ≡ true
unfolding run_line process_data
run_line-is_some line =
    let p = skip_whitespace line in
    if-is_some (at_end p) (some (true, [])) _ refl (
      if-is_some (is_data p) (items (suc (length p)) (skip 4 p)) (some (false, []))
        (items-is_some (suc (length p)) (skip 4 p) (omega (arith, skip-le 4 p))) refl)

fgets-le : (room : ℕ) (input : List ℕ) → length (fgets room input).1 ≤ length input
unfolding fgets
fgets-le zero input = omega arith
fgets-le (suc room) [] = omega arith
fgets-le (suc room) (c ∷ input) =
    second-le (c == newline) (c ∷ [], input) (c ∷ (fgets room input).0, (fgets room input).1)
      (suc (length input)) (omega arith) (omega (arith, fgets-le room input))

-- A line takes a character of the input.
pub fgets-lt :
    (room c : ℕ) (input : List ℕ) → length (fgets (suc room) (c ∷ input)).1 ≤ length input
unfolding fgets
fgets-lt room c input =
    second-le (c == newline) (c ∷ [], input) (c ∷ (fgets room input).0, (fgets room input).1)
      (length input) (omega arith) (fgets-le room input)

after_line-is_some :
    (n : ℕ) (o : Option Written) (go : Option (Ending × List ℕ))
    → is_some o ≡ true
    → is_some go ≡ true
    → is_some (after_line n o go) ≡ true
unfolding after_line prepend
after_line-is_some n none go h k = h
after_line-is_some n (some (false, out)) go h k = refl
after_line-is_some n (some (true, out)) none h k = k
after_line-is_some n (some (true, out)) (some r) h k = refl

line_loop-is_some :
    (fuel n : ℕ) (input : List ℕ) → length input ≤ fuel → is_some (line_loop fuel n input) ≡ true
unfolding line_loop
line_loop-is_some fuel n [] h = refl
line_loop-is_some zero n (c ∷ input) h = absurd (omega arith)
line_loop-is_some (suc fuel) n (c ∷ input) h =
    let t = fgets line_room (c ∷ input) in
    after_line-is_some (suc n) (run_line t.0) (line_loop fuel (suc n) t.1) (run_line-is_some t.0)
      (line_loop-is_some fuel (suc n) t.1 (omega (arith, fgets-lt 1022 c input)))

-- The assembler comes to an end on every input, within the fuel that the length of the text gives.
pub assemble-is_some : (input : List ℕ) → is_some (assemble input) ≡ true
unfolding assemble
assemble-is_some input = line_loop-is_some (length input) 0 input (omega arith)
