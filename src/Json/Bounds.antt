-- ===== src/Json/Bounds.antt =====
-- What the scanner of emulator/web_json.c returns: how far it goes and how large its values are.
use workbench.Common.{
  ap, ℕ, zero, suc, ◌+◌, ◌-◌, ◌*◌, ◌^◌, ◌==◌, ◌≡◌, ◌<◌, ◌≤◌, refl, Bool, true, false, ◌&&◌, not,
  Option, none, some, if◌then◌else◌, ltb, leb, List, [], ◌∷◌, length, arith,
}
use native.Mathlib.Nat.{pow-suc}
use workbench.Json.Scan.{
  Result, chain, unless, is_ws, skip_ws, at, skip_one, unescape, with_char, string_chars,
  parse_string, take, buffered, parse_string_into, ℤ, signed, is_digit, read_digits, starts_digit,
  fraction, whole, number_digits_cap, parse_int,
}

-- Whether a result came out, and satisfies a test if it is one.
abbrev pub returns : {A : Type 0} → (A → Bool) → Result A → Bool
returns test (Result.ok x) = test x
returns test Result.bad = true
returns test Result.spent = false

pub returns-chain :
    {A B : Type 0} (test : A → Bool) (test2 : B → Bool) (r : Result A) (go : A → Result B)
    → returns test r ≡ true
    → ((x : A) → test x ≡ true → returns test2 (go x) ≡ true)
    → returns test2 (chain r go) ≡ true
unfolding chain
returns-chain test test2 (Result.ok x) go h k = k x h
returns-chain test test2 Result.bad go h k = refl
returns-chain test test2 Result.spent go h k = h

pub returns-unless :
    {A : Type 0} (test : A → Bool) (b : Bool) (r : Result A)
    → (b ≡ false → returns test r ≡ true)
    → returns test (unless b r) ≡ true
unfolding unless
returns-unless test true r h = refl
returns-unless test false r h = h refl

returns-if :
    {A : Type 0} (test : A → Bool) (b : Bool) (x y : Result A)
    → (b ≡ true → returns test x ≡ true)
    → (b ≡ false → returns test y ≡ true)
    → returns test (if b then x else y) ≡ true
returns-if test true x y h k = h refl
returns-if test false x y h k = k refl

-- A position that is no further from the end than so many characters.
abbrev pub within : ℕ → List ℕ → Bool
within n p = leb (length p) n

abbrev pub within_after : {A : Type 0} → ℕ → A × List ℕ → Bool
within_after n x = leb (length x.1) n

skipped-le :
    (b : Bool) (x y : List ℕ) (n : ℕ)
    → length x ≤ n
    → length y ≤ n
    → length (if b then x else y) ≤ n
skipped-le true x y n h k = h
skipped-le false x y n h k = k

pub skip_ws-le : (p : List ℕ) → length (skip_ws p) ≤ length p
unfolding skip_ws
skip_ws-le [] = omega arith
skip_ws-le (c ∷ p) =
    skipped-le (is_ws c) (skip_ws p) (c ∷ p) (suc (length p)) (omega (arith, skip_ws-le p))
      (omega arith)

pub skip_one-le : (p : List ℕ) → length (skip_one p) ≤ length p
skip_one-le [] = omega arith
skip_one-le (c ∷ p) = omega arith

-- There is a character to skip.
pub skip_one-lt : (c : ℕ) (p : List ℕ) → at c p ≡ true → length (skip_one p) + 1 ≤ length p
skip_one-lt c [] h = absurd (ground (arith, h))
skip_one-lt c (d ∷ p) h = omega arith

with_char-within :
    (n : ℕ) (c : Option ℕ) (r : Result (List ℕ × List ℕ))
    → returns (within_after n) r ≡ true
    → returns (within_after n) (with_char c r) ≡ true
unfolding with_char
with_char-within n none r h = refl
with_char-within n (some c) (Result.ok (s, p)) h = h
with_char-within n (some c) Result.bad h = refl
with_char-within n (some c) Result.spent h = h

pub returns-weaken :
    {A : Type 0} (test test2 : A → Bool) (r : Result A)
    → returns test r ≡ true
    → ((x : A) → test x ≡ true → test2 x ≡ true)
    → returns test2 r ≡ true
returns-weaken test test2 (Result.ok x) h k = k x h
returns-weaken test test2 Result.bad h k = refl
returns-weaken test test2 Result.spent h k = h

string_chars-within :
    (e : Bool) (p : List ℕ) → returns (within_after (length p)) (string_chars e p) ≡ true
unfolding string_chars
string_chars-within e [] = refl
string_chars-within e (c ∷ p) =
    let r = string_chars (not e && (c == 0x5c)) p in
    let n = suc (length p) in
    let h =
      returns-weaken (within_after (length p)) (within_after n) r
        (string_chars-within (not e && (c == 0x5c)) p) (λ x k. ground (arith, k)) in
    returns-if (within_after n) e (with_char (unescape c) r) _
      (λ b. with_char-within n (unescape c) r h)
      (λ b.
        returns-if (within_after n) (c == 0x22) (Result.ok ([], p)) _ (λ b. ground arith)
          (λ b.
            returns-if (within_after n) (c == 0x5c) r (with_char (some c) r) (λ b. h)
              (λ b. with_char-within n (some c) r h)))

-- A string takes at least its opening quote.
pub parse_string-within :
    (n : ℕ) (p : List ℕ) → length p ≤ suc n → returns (within_after n) (parse_string p) ≡ true
unfolding parse_string
parse_string-within n p h =
    returns-unless (within_after n) (not (at 0x22 p)) (string_chars false (skip_one p)) (λ b.
      returns-weaken (within_after (length (skip_one p))) (within_after n)
        (string_chars false (skip_one p)) (string_chars-within false (skip_one p))
        (λ x k. ground (arith, k, skip_one-lt 0x22 p (ground (arith, b)))))

take-length : (n : ℕ) (s : List ℕ) → length (take n s) ≤ n
unfolding take
take-length zero s = omega arith
take-length (suc n) [] = omega arith
take-length (suc n) (c ∷ s) = omega (arith, take-length n s)

-- A string in a buffer, with its terminator.
abbrev pub buffered_within : ℕ → ℕ → List ℕ × List ℕ → Bool
buffered_within cap n x = leb (length x.0) (cap - 1) && leb (length x.1) n

pub parse_string_into-within :
    (cap n : ℕ) (p : List ℕ)
    → length p ≤ suc n
    → returns (buffered_within cap n) (parse_string_into cap p) ≡ true
unfolding parse_string_into buffered
parse_string_into-within cap n p h =
    returns-chain (within_after n) (buffered_within cap n) (parse_string p) (buffered cap)
      (parse_string-within n p h) (λ x k. ground (arith, k, take-length (cap - 1) x.0))

-- A number of so many digits.
abbrev number_within : ℕ → ℕ → ℕ × List ℕ → Bool
number_within k n x = ltb x.0 (10 ^ k) && leb (length x.1) n

grown : (v c k : ℕ) → v < 10 ^ k → is_digit c ≡ true → v * 10 + (c - 0x30) < 10 ^ suc k
grown v c k h d = ground (arith, d, pow-suc 10 k)

grown_cap : (k left : ℕ) → suc k + left ≡ k + suc left
grown_cap k left = omega arith

wider : (k left : ℕ) → 10 ^ k ≤ 10 ^ (k + left)
wider k zero = omega (arith, ap (λ (t : ℕ). 10 ^ t) zero_right)
  where
    zero_right : k + 0 ≡ k
    zero_right = omega arith
wider k (suc left) =
    omega (arith, wider k left, pow-suc 10 (k + left), ap (λ (t : ℕ). 10 ^ t) suc_right)
  where
    suc_right : k + suc left ≡ suc (k + left)
    suc_right = omega arith

read_digits-within :
    (left k v : ℕ) (p : List ℕ)
    → v < 10 ^ k
    → returns (number_within (k + left) (length p)) (read_digits left v p) ≡ true
unfolding read_digits
read_digits-within zero k v [] h = ground (arith, wider k zero)
read_digits-within (suc left) k v [] h = ground (arith, wider k (suc left))
read_digits-within zero k v (c ∷ p) h =
    returns-if (number_within (k + 0) (suc (length p))) (is_digit c) Result.bad
      (Result.ok (v, c ∷ p)) (λ b. refl) (λ b. ground (arith, wider k zero))
read_digits-within (suc left) k v (c ∷ p) h =
    let r = read_digits left (v * 10 + (c - 0x30)) p in
    returns-if (number_within (k + suc left) (suc (length p))) (is_digit c) r (Result.ok (v, c ∷ p))
      (λ b.
        returns-weaken (number_within (suc k + left) (length p))
          (number_within (k + suc left) (suc (length p))) r
          (read_digits-within left (suc k) (v * 10 + (c - 0x30)) p (grown v c k h b))
          (λ x m. ground (arith, m, ap (λ (t : ℕ). 10 ^ t) (grown_cap k left))))
      (λ b. ground (arith, wider k (suc left)))

-- The magnitude of a C long.
abbrev pub magnitude : ℤ → ℕ
magnitude (ℤ.pos v) = v
magnitude (ℤ.negsuc v) = suc v

abbrev pub long_within : ℕ → ℤ × List ℕ → Bool
long_within n x = ltb (magnitude x.0) (10 ^ 18) && leb (length x.1) n

magnitude-signed : (m : Bool) (v : ℕ) → magnitude (signed m v) ≡ v
magnitude-signed false v = refl
magnitude-signed true zero = refl
magnitude-signed true (suc v) = refl

pub parse_int-within :
    (n : ℕ) (p : List ℕ) → length p ≤ n → returns (long_within n) (parse_int p) ≡ true
unfolding parse_int whole
parse_int-within n p h =
    let minus = at 0x2d p in
    let q = if minus then skip_one p else p in
    returns-unless (long_within n) (not (starts_digit q))
      (chain (read_digits number_digits_cap 0 q) (whole minus))
      (λ b.
        returns-chain (number_within 18 (length q)) (long_within n)
          (read_digits number_digits_cap 0 q) (whole minus)
          (read_digits-within 18 0 0 q (omega arith))
          (λ x k.
            returns-unless (long_within n) (fraction x.1) (Result.ok (signed minus x.0, x.1)) (λ f.
              ground (
                arith,
                k,
                magnitude-signed minus x.0,
                skipped-le minus (skip_one p) p n (omega (arith, skip_one-le p)) h,
              ))))
