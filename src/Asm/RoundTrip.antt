-- ===== src/Asm/RoundTrip.antt =====
-- The scanner of asm/00/asm.c on printed items.
use workbench.Common.{
  Bool-cases, inl, inr, ==_iff, subst, sym, picked, passed, ap, ℕ, zero, suc, ◌*◌, ◌/◌, ◌%◌, ◌^◌,
  ◌==◌, ◌≡◌, ◌<◌, ◌≤◌, ◌∙◌, refl, Bool, true, false, ◌||◌, Option, none, some, if◌then◌else◌, List,
  [], ◌∷◌, length, arith, bit_or, bit_and_ff, bit_or_fields, ◌<<◌,
}
use workbench.Asm.Scan.{
  at_end, after_item, emit, newline, quote, space, backslash, letter_n, peek, hex_digit, hex_digits,
  third_digit, fourth_digit, parse_hex, hex_item, emit_value, string_bytes, item, items,
  skip_whitespace,
}
use workbench.Asm.Listing.{
  Item, hex_char, escape, print_text, print_item, print_items, item_bytes, items_bytes, is_chars,
  is_item, are_items,
}

hex_digit-hex_char : (d : ℕ) → d < 16 → hex_digit (hex_char d) ≡ some d
unfolding hex_digit
hex_digit-hex_char d h = ground arith

emit_value-byte : (b : ℕ) → b < 256 → emit_value b ≡ b ∷ []
unfolding emit_value
emit_value-byte b h = ground arith

emit_value-word : (w : ℕ) → 256 ≤ w → w < 65536 → emit_value w ≡ w % 256 ∷ w / 256 ∷ []
unfolding emit_value
emit_value-word w h k = ground (arith, bit_and_ff w, bit_and_ff (w / 2 ^ 8))

byte_value : (b : ℕ) → b < 256 → bit_or ((b / 16) << 4) (b % 16) ≡ b
byte_value b h = omega (arith, bit_or_fields 4 (b / 16) (b % 16) (omega arith))

item-byte :
    (b : ℕ) (rest : List ℕ)
    → b < 256
    → hex_digit (peek rest) ≡ none
    → item (print_item (Item.byte b) rest) ≡ some (b ∷ [], rest)
unfolding item parse_hex hex_digits third_digit hex_item
item-byte b rest h ends =
    ap
      (λ (d : Option ℕ). hex_item (
        hex_digits (hex_char (b / 16) ∷ hex_char (b % 16) ∷ rest) d
          (hex_digit (hex_char (b % 16)))))
      (hex_digit-hex_char (b / 16) (omega arith))
    ∙ ap
        (λ (d : Option ℕ).
          hex_item (hex_digits (hex_char (b / 16) ∷ hex_char (b % 16) ∷ rest) (some (b / 16)) d))
        (hex_digit-hex_char (b % 16) (omega arith))
    ∙ ap (λ (d : Option ℕ). hex_item (third_digit (bit_or ((b / 16) << 4) (b % 16)) rest d)) ends
    ∙ ap (λ (v : ℕ). some (emit_value v, rest)) (byte_value b h)
    ∙ ap (λ (e : List ℕ). some (e, rest)) (emit_value-byte b h)

word_value :
    (w : ℕ)
    → w < 65536
    → bit_or (bit_or ((bit_or ((w / 4096) << 4) (w / 256 % 16)) << 8) ((w / 16 % 16) << 4)) (w % 16)
      ≡ w
word_value w h =
    ap (λ (t : ℕ). bit_or (bit_or (t << 8) ((w / 16 % 16) << 4)) (w % 16)) high
    ∙ ap (λ (t : ℕ). bit_or t (w % 16)) middle
    ∙ omega (arith, bit_or_fields 4 (w / 16) (w % 16) (omega arith))
  where
    high : bit_or ((w / 4096) << 4) (w / 256 % 16) ≡ w / 256
    high = omega (arith, bit_or_fields 4 (w / 4096) (w / 256 % 16) (omega arith))

    middle : bit_or ((w / 256) << 8) ((w / 16 % 16) << 4) ≡ (w / 16) << 4
    middle = omega (arith, bit_or_fields 8 (w / 256) (w / 16 % 16 * 2 ^ 4) (omega arith))

item-word :
    (w : ℕ) (rest : List ℕ)
    → 256 ≤ w
    → w < 65536
    → item (print_item (Item.word w) rest) ≡ some (w % 256 ∷ w / 256 ∷ [], rest)
unfolding item parse_hex hex_digits third_digit fourth_digit hex_item
item-word w rest h k =
    ap
      (λ (d : Option ℕ).
        hex_item (hex_digits (print_digits rest) d (hex_digit (hex_char (w / 256 % 16)))))
      (hex_digit-hex_char (w / 4096) (omega arith))
    ∙ ap (λ (d : Option ℕ). hex_item (hex_digits (print_digits rest) (some (w / 4096)) d))
        (hex_digit-hex_char (w / 256 % 16) (omega arith))
    ∙ ap
        (λ (d : Option ℕ). hex_item (
          third_digit (bit_or ((w / 4096) << 4) (w / 256 % 16))
            (hex_char (w / 16 % 16) ∷ hex_char (w % 16) ∷ rest) d))
        (hex_digit-hex_char (w / 16 % 16) (omega arith))
    ∙ ap
        (λ (d : Option ℕ). hex_item (
          fourth_digit (bit_or ((w / 4096) << 4) (w / 256 % 16)) (w / 16 % 16)
            (hex_char (w % 16) ∷ rest) d))
        (hex_digit-hex_char (w % 16) (omega arith))
    ∙ ap (λ (v : ℕ). some (emit_value v, rest)) (word_value w k)
    ∙ ap (λ (e : List ℕ). some (e, rest)) (emit_value-word w h k)
  where
    print_digits : List ℕ → List ℕ
    print_digits r =
        hex_char (w / 4096)
        ∷ hex_char (w / 256 % 16)
        ∷ hex_char (w / 16 % 16)
        ∷ hex_char (w % 16)
        ∷ r

prefixed : ℕ → List ℕ × List ℕ → List ℕ × List ℕ
prefixed c (bytes, rest) = (c ∷ bytes, rest)

newline_bytes :
    (t : List ℕ)
    → string_bytes false (backslash ∷ letter_n ∷ t) ≡ prefixed newline (string_bytes false t)
unfolding string_bytes prefixed
newline_bytes t = refl

string_bytes-escaped :
    (c : ℕ) (t : List ℕ)
    → ((c == quote) || (c == backslash)) ≡ true
    → string_bytes false (backslash ∷ c ∷ t) ≡ prefixed c (string_bytes false t)
unfolding string_bytes prefixed
string_bytes-escaped c t h = elim (Bool-cases (c == quote)) [
  | inl q ↦
      subst (λ (k : ℕ). string_bytes false (backslash ∷ k ∷ t) ≡ prefixed k (string_bytes false t))
        {x = quote} {y = c} (sym ((==_iff c quote).0 q)) refl
  | inr q ↦
      subst (λ (k : ℕ). string_bytes false (backslash ∷ k ∷ t) ≡ prefixed k (string_bytes false t))
        {x = backslash} {y = c} (ground (arith, h, q)) refl
]

string_bytes-plain :
    (c : ℕ) (t : List ℕ)
    → (c == 0) ≡ false
    → (c == quote) ≡ false
    → (c == backslash) ≡ false
    → string_bytes false (c ∷ t) ≡ prefixed c (string_bytes false t)
unfolding string_bytes prefixed
string_bytes-plain c t h q k =
    ap (λ (b : Bool). choice b (c == quote) (c == backslash)) h
    ∙ ap (λ (b : Bool). choice false b (c == backslash)) q
    ∙ ap (choice false false) k
  where
    choice : Bool → Bool → Bool → List ℕ × List ℕ
    choice b0 bq bb =
        if b0
        then ([], c ∷ t)
        else if bq
        then ([], t)
        else if bb
        then ((string_bytes bb t).0, (string_bytes bb t).1)
        else (c ∷ (string_bytes bb t).0, (string_bytes bb t).1)

string_bytes-escape :
    (c : ℕ) (t : List ℕ)
    → 0 < c
    → string_bytes false (escape c t) ≡ prefixed c (string_bytes false t)
string_bytes-escape c t h = elim (Bool-cases (c == newline)) [
  | inl n ↦ at_newline c t n
  | inr n ↦ elim (Bool-cases ((c == quote) || (c == backslash))) [
    | inl e ↦
        ap (string_bytes false)
          (passed (c == newline) _ _ n ∙ picked ((c == quote) || (c == backslash)) _ _ e)
        ∙ string_bytes-escaped c t e
    | inr e ↦
        ap (string_bytes false)
          (passed (c == newline) _ _ n ∙ passed ((c == quote) || (c == backslash)) _ _ e)
        ∙ string_bytes-plain c t (ground arith) (ground (arith, e)) (ground (arith, e))
  ]
]
  where
    at_newline :
        (c : ℕ) (t : List ℕ)
        → (c == newline) ≡ true
        → string_bytes false (escape c t) ≡ prefixed c (string_bytes false t)
    at_newline c t n =
        subst (λ (k : ℕ). string_bytes false (escape k t) ≡ prefixed k (string_bytes false t))
          {x = newline} {y = c} (sym ((==_iff c newline).0 n)) (newline_bytes t)

string_bytes-text :
    (cs rest : List ℕ) → is_chars cs ≡ true → string_bytes false (print_text cs rest) ≡ (cs, rest)
unfolding string_bytes prefixed
string_bytes-text [] rest h = refl
string_bytes-text (c ∷ cs) rest h =
    string_bytes-escape c (print_text cs rest) (ground (arith, h))
    ∙ ap (prefixed c) (string_bytes-text cs rest (ground (arith, h)))

item-print_item :
    (i : Item) (rest : List ℕ)
    → is_item i ≡ true
    → hex_digit (peek rest) ≡ none
    → item (print_item i rest) ≡ some (item_bytes i, rest)
unfolding item
item-print_item (Item.byte b) rest h e = item-byte b rest (ground (arith, h)) e
item-print_item (Item.word w) rest h e = item-word w rest (ground (arith, h)) (ground (arith, h))
item-print_item (Item.text cs) rest h e = ap some (string_bytes-text cs rest h)

-- An item starts with a character that no white space and no end is.
skip_whitespace-item :
    (i : Item) (rest : List ℕ) → skip_whitespace (space ∷ print_item i rest) ≡ print_item i rest
unfolding skip_whitespace
skip_whitespace-item (Item.byte b) rest = refl
skip_whitespace-item (Item.word w) rest = refl
skip_whitespace-item (Item.text cs) rest = refl

item-at_end : (i : Item) (rest : List ℕ) → at_end (print_item i rest) ≡ false
item-at_end (Item.byte b) rest = refl
item-at_end (Item.word w) rest = refl
item-at_end (Item.text cs) rest = refl

no_digit : (is : List Item) → hex_digit (peek (print_items is (newline ∷ []))) ≡ none
unfolding hex_digit
no_digit [] = refl
no_digit (i ∷ is) = refl

-- The scanner on a line of items gives their bytes.
pub items-print_items :
    (is : List Item) (fuel : ℕ)
    → are_items is ≡ true
    → length is < fuel
    → items fuel (print_items is (newline ∷ [])) ≡ some (true, items_bytes is)
unfolding items skip_whitespace after_item emit
items-print_items is zero h k = absurd (omega arith)
items-print_items [] (suc fuel) h k = refl
items-print_items (i ∷ is) (suc fuel) h k =
    let rest = print_items is (newline ∷ []) in
    ap (λ (q : List ℕ). if at_end q then some (true, []) else after_item (item q) (items fuel))
      (skip_whitespace-item i rest)
    ∙ passed (at_end (print_item i rest)) (some (true, []))
        (after_item (item (print_item i rest)) (items fuel)) (item-at_end i rest)
    ∙ ap (λ (o : Option (List ℕ × List ℕ)). after_item o (items fuel))
        (item-print_item i rest (ground (arith, h)) (no_digit is))
    ∙ ap (emit (item_bytes i)) (items-print_items is fuel (ground (arith, h)) (omega arith))
