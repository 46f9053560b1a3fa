-- ===== src/Json/Decimal.antt =====
-- Bytes in decimal, through the number scanner of emulator/web_json.c.
use workbench.Common.{
  ap, ℕ, zero, suc, ◌+◌, ◌-◌, ◌*◌, ◌/◌, ◌%◌, ◌==◌, ◌≡◌, ◌<◌, ◌∙◌, refl, Bool, true, false, ◌||◌,
  not, if◌then◌else◌, ltb, List, ◌∷◌, arith, picked, passed, Bool-cases, inl, inr,
}
use workbench.Json.Scan.{
  is_ws, starts_digit, Result, ℤ, chain, unless, is_digit, skip_ws, read_digits, whole, parse_int,
}

-- A byte in decimal, with what follows.
abbrev pub print_byte : ℕ → List ℕ → List ℕ
print_byte b rest =
    if ltb b 10
    then (0x30 + b) ∷ rest
    else if ltb b 100
    then (0x30 + b / 10) ∷ (0x30 + b % 10) ∷ rest
    else (0x30 + b / 100) ∷ (0x30 + b / 10 % 10) ∷ (0x30 + b % 10) ∷ rest

-- A comma or a bracket.
abbrev pub is_end : ℕ → Bool
is_end e = (e == 0x2c) || (e == 0x5d)

read_digits-digit :
    (left v d : ℕ) (p : List ℕ)
    → d < 10
    → read_digits (suc left) v ((0x30 + d) ∷ p) ≡ read_digits left (v * 10 + d) p
unfolding read_digits
read_digits-digit left v d p h =
    picked (is_digit (0x30 + d)) (read_digits left (v * 10 + (0x30 + d - 0x30)) p) _ (ground arith)
    ∙ ap (λ (t : ℕ). read_digits left (v * 10 + t) p) (omega arith)

read_digits-end :
    (left v e : ℕ) (p : List ℕ)
    → is_end e ≡ true
    → read_digits left v (e ∷ p) ≡ Result.ok (v, e ∷ p)
unfolding read_digits
read_digits-end zero v e p h =
    passed (is_digit e) Result.bad (Result.ok (v, e ∷ p)) (ground (arith, h))
read_digits-end (suc left) v e p h =
    passed (is_digit e) (read_digits left (v * 10 + (e - 0x30)) p) (Result.ok (v, e ∷ p))
      (ground (arith, h))

read_digits-byte :
    (b e : ℕ) (p : List ℕ)
    → b < 256
    → is_end e ≡ true
    → read_digits 18 0 (print_byte b (e ∷ p)) ≡ Result.ok (b, e ∷ p)
read_digits-byte b e p h k = elim (Bool-cases (ltb b 10)) [
  | inl one ↦
      ap (read_digits 18 0) (picked (ltb b 10) ((0x30 + b) ∷ e ∷ p) _ one)
      ∙ read_digits-digit 17 0 b (e ∷ p) (ground (arith, one))
      ∙ read_digits-end 17 (0 * 10 + b) e p k
      ∙ ap (λ (t : ℕ). Result.ok (t, e ∷ p)) (omega arith)
  | inr more ↦ elim (Bool-cases (ltb b 100)) [
    | inl two ↦
        ap (read_digits 18 0) (
          passed (ltb b 10) ((0x30 + b) ∷ e ∷ p) _ more
          ∙ picked (ltb b 100) ((0x30 + b / 10) ∷ (0x30 + b % 10) ∷ e ∷ p) _ two)
        ∙ read_digits-digit 17 0 (b / 10) ((0x30 + b % 10) ∷ e ∷ p) (ground (arith, two))
        ∙ read_digits-digit 16 (0 * 10 + b / 10) (b % 10) (e ∷ p) (omega arith)
        ∙ read_digits-end 16 ((0 * 10 + b / 10) * 10 + b % 10) e p k
        ∙ ap (λ (t : ℕ). Result.ok (t, e ∷ p)) (omega arith)
    | inr three ↦
        ap (read_digits 18 0) (
          passed (ltb b 10) ((0x30 + b) ∷ e ∷ p) _ more
          ∙ passed (ltb b 100) ((0x30 + b / 10) ∷ (0x30 + b % 10) ∷ e ∷ p) _ three)
        ∙ read_digits-digit 17 0 (b / 100) ((0x30 + b / 10 % 10) ∷ (0x30 + b % 10) ∷ e ∷ p)
            (omega arith)
        ∙ read_digits-digit 16 (0 * 10 + b / 100) (b / 10 % 10) ((0x30 + b % 10) ∷ e ∷ p)
            (omega arith)
        ∙ read_digits-digit 15 ((0 * 10 + b / 100) * 10 + b / 10 % 10) (b % 10) (e ∷ p)
            (omega arith)
        ∙ read_digits-end 15 (((0 * 10 + b / 100) * 10 + b / 10 % 10) * 10 + b % 10) e p k
        ∙ ap (λ (t : ℕ). Result.ok (t, e ∷ p)) (omega arith)
  ]
]

digit_stays : (d : ℕ) (p : List ℕ) → d < 10 → skip_ws ((0x30 + d) ∷ p) ≡ (0x30 + d) ∷ p
unfolding skip_ws
digit_stays d p h = passed (is_ws (0x30 + d)) (skip_ws p) ((0x30 + d) ∷ p) (ground arith)

parse_int-digit :
    (d : ℕ) (p : List ℕ)
    → d < 10
    → parse_int ((0x30 + d) ∷ p) ≡ chain (read_digits 18 0 ((0x30 + d) ∷ p)) (whole false)
unfolding parse_int unless
parse_int-digit d p h =
    ap (λ (m : Bool). parsed m) (no_sign d h)
    ∙ ap (λ (m : Bool). unless (not m) (chain (read_digits 18 0 ((0x30 + d) ∷ p)) (whole false)))
        (digit d h)
  where
    parsed : Bool → Result (ℤ × List ℕ)
    parsed minus =
        let q = if minus then p else (0x30 + d) ∷ p in
        unless (not (starts_digit q)) (chain (read_digits 18 0 q) (whole minus))

    no_sign : (d : ℕ) → d < 10 → (0x30 + d == 0x2d) ≡ false
    no_sign d h = ground arith

    digit : (d : ℕ) → d < 10 → is_digit (0x30 + d) ≡ true
    digit d h = ground arith

whole_end :
    (b e : ℕ) (p : List ℕ)
    → is_end e ≡ true
    → chain (Result.ok (b, e ∷ p)) (whole false) ≡ Result.ok (ℤ.pos b, e ∷ p)
unfolding chain whole unless
whole_end b e p k =
    ap (λ (f : Bool). unless f (Result.ok (ℤ.pos b, e ∷ p))) {y = false} (ground (arith, k))

-- The first character of a printed byte is a digit.
pub starts :
    (b : ℕ) (rest : List ℕ) (motive : List ℕ → Type 0)
    → b < 256
    → ((d : ℕ) (p : List ℕ) → d < 10 → motive ((0x30 + d) ∷ p))
    → motive (print_byte b rest)
starts b rest motive h all =
    with_tests (ltb b 10) (ltb b 100) (λ e. all b rest (ground (arith, e)))
      (λ e. all (b / 10) ((0x30 + b % 10) ∷ rest) (ground (arith, e)))
      (all (b / 100) ((0x30 + b / 10 % 10) ∷ (0x30 + b % 10) ∷ rest) (omega arith))
  where
    with_tests :
        (t u : Bool) {x y z : List ℕ}
        → (t ≡ true → motive x)
        → (u ≡ true → motive y)
        → motive z
        → motive (if t then x else if u then y else z)
    with_tests true u f g m = f refl
    with_tests false true f g m = g refl
    with_tests false false f g m = m

pub skip_ws-byte :
    (b : ℕ) (rest : List ℕ) → b < 256 → skip_ws (print_byte b rest) ≡ print_byte b rest
skip_ws-byte b rest h = starts b rest (λ (p : List ℕ). skip_ws p ≡ p) h digit_stays

pub parse_int-byte :
    (b e : ℕ) (p : List ℕ)
    → b < 256
    → is_end e ≡ true
    → parse_int (print_byte b (e ∷ p)) ≡ Result.ok (ℤ.pos b, e ∷ p)
parse_int-byte b e p h k =
    starts b (e ∷ p) (λ (q : List ℕ). parse_int q ≡ chain (read_digits 18 0 q) (whole false)) h
      parse_int-digit
    ∙ ap (λ (r : Result (ℕ × List ℕ)). chain r (whole false)) (read_digits-byte b e p h k)
    ∙ whole_end b e p k
