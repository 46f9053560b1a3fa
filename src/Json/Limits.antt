-- ===== src/Json/Limits.antt =====
-- The size of what a message of emulator/web_json.c holds.
use workbench.Common.{
  ℕ, zero, suc, ◌+◌, ◌-◌, ◌*◌, ◌^◌, ◌≡◌, ◌<◌, ◌≤◌, refl, Bool, true, false, ◌&&◌, not, ltb, leb,
  List, [], ◌∷◌, length, arith,
}
use workbench.Json.Scan.{
  Result, chain, skip_ws, at, skip_one, parse_string_into, ℤ, parse_int, Next,
}
use workbench.Json.Value.{colon, parse_value}
use workbench.Json.Message.{
  Msg, empty_msg, key_max, byte_of, with_byte, after_byte, behind_byte, byte_elements, no_bytes_or,
  parse_byte_array, Key, key_of, set_type, set_down, set_bytes, keep, field, key_and_field,
  at_the_end, after_field, behind_field, message_pairs, no_pairs_or, web_json_parse,
}
use workbench.Json.Bounds.{
  returns, returns-chain, returns-unless, within, within_after, skip_ws-le, skip_one-le,
  skip_one-lt, parse_string_into-within, buffered_within, parse_int-within, long_within, magnitude,
}
use workbench.Json.Total.{colon-within, next-elim, parse_value-within}

abbrev pub all_bytes : List ℕ → Bool
all_bytes [] = true
all_bytes (b ∷ bs) = ltb b 256 && all_bytes bs

-- A type of at most 31 characters, a number of at most 18 digits, and at most 64 bytes.
abbrev pub is_bounded : Msg → Bool
is_bounded msg =
    (leb (length msg.type) 31 && ltb (magnitude msg.down) (10 ^ 18))
    && (leb (length msg.bytes) 64 && all_bytes msg.bytes)

-- The same of the bytes and of a position.
abbrev bytes_within : ℕ → ℕ → List ℕ × List ℕ → Bool
bytes_within room n x = (leb (length x.0) room && all_bytes x.0) && leb (length x.1) n

abbrev byte_within : ℕ → ℕ × List ℕ → Bool
byte_within n x = ltb x.0 256 && leb (length x.1) n

byte_of-within :
    (n : ℕ) (x : ℤ × List ℕ) → long_within n x ≡ true → returns (byte_within n) (byte_of x) ≡ true
unfolding byte_of
byte_of-within n (ℤ.pos v, p) h =
    returns-unless (byte_within n) (ltb 255 v) (Result.ok (v, p)) (λ b. ground (arith, h, b))
byte_of-within n (ℤ.negsuc v, p) h = refl

with_byte-within :
    (room n b : ℕ) (r : Result (List ℕ × List ℕ))
    → b < 256
    → returns (bytes_within room n) r ≡ true
    → returns (bytes_within (suc room) n) (with_byte b r) ≡ true
unfolding with_byte
with_byte-within room n b (Result.ok (bs, p)) h k = ground (arith, k)
with_byte-within room n b Result.bad h k = refl
with_byte-within room n b Result.spent h k = k

behind_byte-within :
    (room n : ℕ) (loop : List ℕ → Result (List ℕ × List ℕ)) (x : ℕ × List ℕ)
    → byte_within n x ≡ true
    → ((q : List ℕ) → length q ≤ n → returns (bytes_within room n) (loop q) ≡ true)
    → returns (bytes_within (suc room) n) (behind_byte loop x) ≡ true
unfolding behind_byte after_byte
behind_byte-within room n loop (b, p) h all =
    let q = skip_ws p in
    next-elim 0x5d q
      (λ (t : Next). returns (bytes_within (suc room) n) (after_byte t loop b (skip_one q)) ≡ true)
      (λ k.
        with_byte-within room n b (loop (skip_one q)) (ground (arith, h))
          (all (skip_one q) (ground (arith, k, h, skip_ws-le p))))
      (ground (arith, h, skip_one-le q, skip_ws-le p)) refl

byte_elements-within :
    (room n : ℕ) (p : List ℕ)
    → length p ≤ n
    → returns (bytes_within room n) (byte_elements room p) ≡ true
unfolding byte_elements
byte_elements-within zero n p h = refl
byte_elements-within (suc room) n p h =
    returns-chain (byte_within n) (bytes_within (suc room) n)
      (chain (parse_int (skip_ws p)) byte_of) (behind_byte (byte_elements room))
      (returns-chain (long_within n) (byte_within n) (parse_int (skip_ws p)) byte_of
        (parse_int-within n (skip_ws p) (omega (arith, skip_ws-le p))) (byte_of-within n))
      (λ x k. behind_byte-within room n (byte_elements room) x k (byte_elements-within room n))

parse_byte_array-within :
    (n : ℕ) (p : List ℕ) → length p ≤ n → returns (bytes_within 64 n) (parse_byte_array p) ≡ true
unfolding parse_byte_array no_bytes_or
parse_byte_array-within n p h =
    let q = skip_ws (skip_one p) in
    returns-unless (bytes_within 64 n) (not (at 0x5b p)) (no_bytes_or (at 0x5d q) q)
      (λ b. either (at 0x5d q) q (omega (arith, skip_ws-le (skip_one p), skip_one-le p)))
  where
    either :
        (b : Bool) (q : List ℕ)
        → length q ≤ n
        → returns (bytes_within 64 n) (no_bytes_or b q) ≡ true
    either true q k = ground (arith, skip_one-le q)
    either false q k = byte_elements-within 64 n q k

-- A bounded message and a position.
abbrev msg_within : ℕ → Msg × List ℕ → Bool
msg_within n x = is_bounded x.0 && leb (length x.1) n

field-within :
    (fuel n : ℕ) (k : Key) (msg : Msg) (p : List ℕ)
    → length p ≤ n
    → length p * 2 < fuel
    → is_bounded msg ≡ true
    → returns (msg_within n) (field fuel k msg p) ≡ true
unfolding field set_type set_down set_bytes keep
field-within fuel n Key.type msg p h f b =
    returns-chain (buffered_within 32 n) (msg_within n) (parse_string_into 32 p) (set_type msg)
      (parse_string_into-within 32 n p (omega arith)) (λ x k. ground (arith, k, b))
field-within fuel n Key.down msg p h f b =
    returns-chain (long_within n) (msg_within n) (parse_int p) (set_down msg)
      (parse_int-within n p h) (λ x k. ground (arith, k, b))
field-within fuel n Key.bytes msg p h f b =
    returns-chain (bytes_within 64 n) (msg_within n) (parse_byte_array p) (set_bytes msg)
      (parse_byte_array-within n p h) (λ x k. ground (arith, k, b))
field-within fuel n Key.unknown msg p h f b =
    returns-chain (within n) (msg_within n) (parse_value fuel 1 p) (keep msg)
      (parse_value-within fuel 1 n p h f) (λ x k. ground (arith, k, b))

key_and_field-within :
    (fuel n : ℕ) (msg : Msg) (x : List ℕ × List ℕ)
    → within_after n x ≡ true
    → n * 2 < fuel
    → is_bounded msg ≡ true
    → returns (msg_within n) (key_and_field fuel msg x) ≡ true
unfolding key_and_field
key_and_field-within fuel n msg (key, p) h f b =
    returns-chain (within n) (msg_within n) (colon p) (field fuel (key_of key) msg)
      (colon-within n p (ground (arith, h)))
      (λ q k. field-within fuel n (key_of key) msg q (ground (arith, k)) (ground (arith, k)) b)

at_the_end-bounded :
    (msg : Msg) (p : List ℕ) → is_bounded msg ≡ true → returns is_bounded (at_the_end msg p) ≡ true
unfolding at_the_end
at_the_end-bounded msg [] b = b
at_the_end-bounded msg (c ∷ p) b = refl

behind_field-bounded :
    (n : ℕ) (loop : Msg → List ℕ → Result Msg) (x : Msg × List ℕ)
    → msg_within n x ≡ true
    → ((msg : Msg) (q : List ℕ)
        → is_bounded msg ≡ true
        → length q + 1 ≤ n
        → returns is_bounded (loop msg q) ≡ true)
    → returns is_bounded (behind_field loop x) ≡ true
unfolding behind_field after_field
behind_field-bounded n loop (msg, p) h all =
    let q = skip_ws p in
    next-elim 0x7d q (λ (t : Next). returns is_bounded (after_field t loop msg (skip_one q)) ≡ true)
      (λ k. all msg (skip_one q) (ground (arith, h)) (ground (arith, k, h, skip_ws-le p)))
      (at_the_end-bounded msg (skip_ws (skip_one q)) (ground (arith, h))) refl

message_pairs-bounded :
    (fuel : ℕ) (msg : Msg) (p : List ℕ)
    → length p * 2 + 1 < fuel
    → is_bounded msg ≡ true
    → returns is_bounded (message_pairs fuel msg p) ≡ true
unfolding message_pairs
message_pairs-bounded zero msg p f b = absurd (omega arith)
message_pairs-bounded (suc fuel) msg p f b =
    let m = length p - 1 in
    returns-chain (msg_within m) is_bounded
      (chain (parse_string_into key_max (skip_ws p)) (key_and_field fuel msg))
      (behind_field (message_pairs fuel))
      (returns-chain (buffered_within key_max m) (msg_within m)
        (parse_string_into key_max (skip_ws p)) (key_and_field fuel msg)
        (parse_string_into-within key_max m (skip_ws p) (omega (arith, skip_ws-le p)))
        (λ x k. key_and_field-within fuel m msg x (ground (arith, k)) (omega arith) b))
      (λ x k.
        behind_field-bounded m (message_pairs fuel) x k
          (λ t q c e. message_pairs-bounded fuel t q (omega (arith, e)) c))

-- The parser comes to an end on every text, within the fuel that the length gives, and what it
-- returns has a type of at most 31 characters, a number below 10^18 in magnitude, and at most 64
-- bytes, each below 256.
pub web_json_parse-bounded : (text : List ℕ) → returns is_bounded (web_json_parse text) ≡ true
unfolding web_json_parse no_pairs_or
web_json_parse-bounded text =
    let p = skip_ws text in
    let q = skip_ws (skip_one p) in
    returns-unless is_bounded (not (at 0x7b p)) (no_pairs_or (at 0x7d q) (length text * 2) q) (λ b.
      either (at 0x7d q) q (
        omega (
          arith,
          skip_ws-le (skip_one p),
          skip_ws-le text,
          skip_one-lt 0x7b p (ground (arith, b)),
        )))
  where
    either :
        (b : Bool) (q : List ℕ)
        → length q * 2 + 1 < length text * 2
        → returns is_bounded (no_pairs_or b (length text * 2) q) ≡ true
    either true q k = at_the_end-bounded empty_msg (skip_ws (skip_one q)) refl
    either false q k = message_pairs-bounded (length text * 2) empty_msg q k refl
