-- ===== src/Asm/Printed.antt =====
-- Printed items, as parts of the lines that asm/00/asm.c reads.
use workbench.Common.{
  Bool-cases, inl, inr, picked, passed, ap, ℕ, ◌/◌, ◌%◌, ◌==◌, ◌≡◌, ◌≤◌, ◌∙◌, refl, Bool, true,
  false, ◌||◌, if◌then◌else◌, List, [], ◌∷◌, ◌++◌, length, arith,
}
use workbench.Asm.Scan.{newline, quote, space, backslash, letter_n}
use workbench.Asm.Listing.{Item, hex_char, escape, print_text, print_item, print_items, no_newline}

-- The printed text by its parts.
if-append : (b : Bool) (x y t : List ℕ) → (if b then x else y) ++ t ≡ (if b then x ++ t else y ++ t)
if-append true x y t = refl
if-append false x y t = refl

escape-append : (c : ℕ) (rest t : List ℕ) → escape c rest ++ t ≡ escape c (rest ++ t)
escape-append c rest t =
    if-append (c == newline) (backslash ∷ letter_n ∷ rest)
      (if (c == quote) || (c == backslash) then backslash ∷ c ∷ rest else c ∷ rest) t
    ∙ ap (λ (x : List ℕ). if c == newline then backslash ∷ letter_n ∷ (rest ++ t) else x)
        (if-append ((c == quote) || (c == backslash)) (backslash ∷ c ∷ rest) (c ∷ rest) t)

print_text-append : (cs rest t : List ℕ) → print_text cs rest ++ t ≡ print_text cs (rest ++ t)
print_text-append [] rest t = refl
print_text-append (c ∷ cs) rest t =
    escape-append c (print_text cs rest) t ∙ ap (escape c) (print_text-append cs rest t)

print_item-append : (i : Item) (rest t : List ℕ) → print_item i rest ++ t ≡ print_item i (rest ++ t)
print_item-append (Item.byte b) rest t = refl
print_item-append (Item.word w) rest t = refl
print_item-append (Item.text cs) rest t =
    ap (λ (x : List ℕ). quote ∷ x) (print_text-append cs rest t)

pub print_items-append : (is : List Item) (t : List ℕ) → print_items is [] ++ t ≡ print_items is t
print_items-append [] t = refl
print_items-append (i ∷ is) t =
    ap (λ (x : List ℕ). space ∷ x)
      (print_item-append i (print_items is []) t ∙ ap (print_item i) (print_items-append is t))

-- No newline is printed within a line.
hex_char-no_newline : (d : ℕ) → (hex_char d == newline) ≡ false
hex_char-no_newline d = ground arith

escape-no_newline :
    (c : ℕ) (rest : List ℕ) → no_newline rest ≡ true → no_newline (escape c rest) ≡ true
escape-no_newline c rest h = elim (Bool-cases (c == newline)) [
  | inl n ↦ ap no_newline (picked (c == newline) (backslash ∷ letter_n ∷ rest) _ n) ∙ h
  | inr n ↦
      ap no_newline (
        passed (c == newline) (backslash ∷ letter_n ∷ rest)
          (if (c == quote) || (c == backslash) then backslash ∷ c ∷ rest else c ∷ rest) n)
      ∙ either ((c == quote) || (c == backslash)) n
]
  where
    either :
        (b : Bool)
        → (c == newline) ≡ false
        → no_newline (if b then backslash ∷ c ∷ rest else c ∷ rest) ≡ true
    either true n = ground (arith, n, h)
    either false n = ground (arith, n, h)

print_text-no_newline :
    (cs rest : List ℕ) → no_newline rest ≡ true → no_newline (print_text cs rest) ≡ true
print_text-no_newline [] rest h = h
print_text-no_newline (c ∷ cs) rest h =
    escape-no_newline c (print_text cs rest) (print_text-no_newline cs rest h)

print_item-no_newline :
    (i : Item) (rest : List ℕ) → no_newline rest ≡ true → no_newline (print_item i rest) ≡ true
print_item-no_newline (Item.byte b) rest h =
    ground (arith, h, hex_char-no_newline (b / 16), hex_char-no_newline (b % 16))
print_item-no_newline (Item.word w) rest h = ground (
  arith,
  h,
  hex_char-no_newline (w / 4096),
  hex_char-no_newline (w / 256 % 16),
  hex_char-no_newline (w / 16 % 16),
  hex_char-no_newline (w % 16),
)
print_item-no_newline (Item.text cs) rest h = print_text-no_newline cs rest h

pub print_items-no_newline : (is : List Item) → no_newline (print_items is []) ≡ true
print_items-no_newline [] = refl
print_items-no_newline (i ∷ is) =
    print_item-no_newline i (print_items is []) (print_items-no_newline is)

-- A line has room for as many characters as it has items.
escape-le : (c : ℕ) (rest : List ℕ) → length rest ≤ length (escape c rest)
escape-le c rest = elim (Bool-cases (c == newline)) [
  | inl n ↦ omega (
    arith,
    ap length (
        picked (c == newline) (backslash ∷ letter_n ∷ rest)
          (if (c == quote) || (c == backslash) then backslash ∷ c ∷ rest else c ∷ rest) n),
  )
  | inr n ↦ omega (
    arith,
    ap length (
        passed (c == newline) (backslash ∷ letter_n ∷ rest)
          (if (c == quote) || (c == backslash) then backslash ∷ c ∷ rest else c ∷ rest) n),
    either ((c == quote) || (c == backslash)),
  )
]
  where
    either : (b : Bool) → length rest ≤ length (if b then backslash ∷ c ∷ rest else c ∷ rest)
    either true = omega arith
    either false = omega arith

print_text-le : (cs rest : List ℕ) → length rest ≤ length (print_text cs rest)
print_text-le [] rest = omega arith
print_text-le (c ∷ cs) rest = omega (arith, escape-le c (print_text cs rest), print_text-le cs rest)

print_item-le : (i : Item) (rest : List ℕ) → length rest ≤ length (print_item i rest)
print_item-le (Item.byte b) rest = omega arith
print_item-le (Item.word w) rest = omega arith
print_item-le (Item.text cs) rest = omega (arith, print_text-le cs rest)

pub print_items-le : (is : List Item) (rest : List ℕ) → length is ≤ length (print_items is rest)
print_items-le [] rest = omega arith
print_items-le (i ∷ is) rest =
    omega (arith, print_item-le i (print_items is rest), print_items-le is rest)
