-- ===== src/Json/RoundTrip.antt =====
-- The messages of key bytes as the browser writes them, through emulator/web_json.c.
use workbench.Json.Decimal.{print_byte, is_end, starts, skip_ws-byte, parse_int-byte}
use workbench.Common.{
  ap, ℕ, zero, suc, ◌+◌, ◌-◌, ◌*◌, ◌≡◌, ◌<◌, ◌≤◌, ◌∙◌, refl, Bool, true, false, List, [], ◌∷◌,
  length, arith, passed,
}
use workbench.Json.Scan.{
  is_ws, Result, ℤ, chain, unless, at, next, skip_ws, skip_one, with_char, string_chars,
  parse_string, take, buffered, parse_string_into, parse_int,
}
use workbench.Json.Value.{colon}
use workbench.Json.Message.{
  Msg, empty_msg, byte_of, with_byte, after_byte, behind_byte, byte_elements, no_bytes_or,
  parse_byte_array, same_key, key_of, set_type, set_bytes, field, key_and_field, at_the_end,
  after_field, behind_field, message_pairs, no_pairs_or, web_json_parse,
}
use workbench.Json.Limits.{all_bytes}

abbrev pub print_bytes : List ℕ → List ℕ → List ℕ
print_bytes [] rest = 0x5d ∷ rest
print_bytes (b ∷ []) rest = print_byte b (0x5d ∷ rest)
print_bytes (b ∷ c ∷ bs) rest = print_byte b (0x2c ∷ print_bytes (c ∷ bs) rest)

behind_end :
    (b : ℕ) (e : ℕ) (p : List ℕ) (loop : List ℕ → Result (List ℕ × List ℕ))
    → is_end e ≡ true
    → behind_byte loop (b, e ∷ p) ≡ after_byte (next 0x5d (e ∷ p)) loop b p
unfolding behind_byte skip_ws
behind_end b e p loop k =
    ap (λ (q : List ℕ). after_byte (next 0x5d q) loop b (skip_one q))
      (passed (is_ws e) (skip_ws p) (e ∷ p) (ground (arith, k)))

is_byte_lem :
    (b : ℕ) (q : List ℕ) (go : ℕ × List ℕ → Result (List ℕ × List ℕ))
    → b < 256
    → chain (chain (Result.ok (ℤ.pos b, q)) byte_of) go ≡ go (b, q)
unfolding chain byte_of unless
is_byte_lem b q go h =
    ap (λ (t : Bool). chain (unless t (Result.ok (b, q))) go) {y = false} (ground arith)

element :
    (room b e : ℕ) (p : List ℕ)
    → b < 256
    → is_end e ≡ true
    → byte_elements (suc room) (print_byte b (e ∷ p))
      ≡ after_byte (next 0x5d (e ∷ p)) (byte_elements room) b p
unfolding byte_elements
element room b e p h k =
    ap (λ (q : List ℕ). chain (chain (parse_int q) byte_of) (behind_byte (byte_elements room)))
      (skip_ws-byte b (e ∷ p) h)
    ∙ ap (λ (r : Result (ℤ × List ℕ)). chain (chain r byte_of) (behind_byte (byte_elements room)))
        (parse_int-byte b e p h k)
    ∙ is_byte_lem b (e ∷ p) (behind_byte (byte_elements room)) h
    ∙ behind_end b e p (byte_elements room) k

byte_elements-print :
    (room b : ℕ) (bs rest : List ℕ)
    → all_bytes (b ∷ bs) ≡ true
    → length bs < room
    → byte_elements room (print_bytes (b ∷ bs) rest) ≡ Result.ok (b ∷ bs, rest)
unfolding after_byte with_byte
byte_elements-print zero b bs rest h k = absurd (omega arith)
byte_elements-print (suc room) b [] rest h k = element room b 0x5d rest (ground (arith, h)) refl
byte_elements-print (suc room) b (c ∷ bs) rest h k =
    element room b 0x2c (print_bytes (c ∷ bs) rest) (ground (arith, h)) refl
    ∙ ap (with_byte b) (byte_elements-print room c bs rest (ground (arith, h)) (omega arith))

-- {"type":"keys","bytes":[...]}
abbrev pub keys_message : List ℕ → List ℕ
keys_message bs =
    0x7b
    ∷ 0x22
    ∷ 0x74
    ∷ 0x79
    ∷ 0x70
    ∷ 0x65
    ∷ 0x22
    ∷ 0x3a
    ∷ 0x22
    ∷ 0x6b
    ∷ 0x65
    ∷ 0x79
    ∷ 0x73
    ∷ 0x22
    ∷ 0x2c
    ∷ 0x22
    ∷ 0x62
    ∷ 0x79
    ∷ 0x74
    ∷ 0x65
    ∷ 0x73
    ∷ 0x22
    ∷ 0x3a
    ∷ 0x5b
    ∷ print_bytes bs (0x7d ∷ [])

not_empty :
    (b : ℕ) (r : List ℕ)
    → b < 256
    → no_bytes_or (at 0x5d (skip_ws (print_byte b r))) (skip_ws (print_byte b r))
      ≡ byte_elements 64 (print_byte b r)
unfolding no_bytes_or
not_empty b r h =
    ap (λ (q : List ℕ). no_bytes_or (at 0x5d q) q) (skip_ws-byte b r h)
    ∙ ap (λ (t : Bool). no_bytes_or t (print_byte b r))
        (starts b r (λ (q : List ℕ). at 0x5d q ≡ false) h no_bracket)
  where
    no_bracket : (d : ℕ) (p : List ℕ) → d < 10 → at 0x5d ((0x30 + d) ∷ p) ≡ false
    no_bracket d p h = ground arith

parse_byte_array-print :
    (bs rest : List ℕ)
    → all_bytes bs ≡ true
    → length bs ≤ 64
    → parse_byte_array (0x5b ∷ print_bytes bs rest) ≡ Result.ok (bs, rest)
unfolding parse_byte_array no_bytes_or unless skip_ws
parse_byte_array-print [] rest h k = refl
parse_byte_array-print (b ∷ []) rest h k =
    not_empty b (0x5d ∷ rest) (ground (arith, h)) ∙ byte_elements-print 64 b [] rest h (omega arith)
parse_byte_array-print (b ∷ c ∷ bs) rest h k =
    not_empty b (0x2c ∷ print_bytes (c ∷ bs) rest) (ground (arith, h))
    ∙ byte_elements-print 64 b (c ∷ bs) rest h (omega arith)

-- "bytes":[...]}
abbrev bytes_field : List ℕ → List ℕ
bytes_field bs =
    0x22 ∷ 0x62 ∷ 0x79 ∷ 0x74 ∷ 0x65 ∷ 0x73 ∷ 0x22 ∷ 0x3a ∷ 0x5b ∷ print_bytes bs (0x7d ∷ [])

bytes_field_lem :
    (fuel : ℕ) (msg : Msg) (bs : List ℕ)
    → all_bytes bs ≡ true
    → length bs ≤ 64
    → message_pairs (suc fuel) msg (bytes_field bs)
      ≡ Result.ok (record msg { has_bytes = true; bytes = bs })
unfolding message_pairs parse_string_into parse_string string_chars unless buffered take chain
    skip_ws key_and_field colon key_of same_key field set_bytes behind_field after_field at_the_end
    with_char
bytes_field_lem fuel msg bs h k =
    ap
      (λ (r : Result (List ℕ × List ℕ)).
        chain (chain r (set_bytes msg)) (behind_field (message_pairs fuel)))
      (parse_byte_array-print bs (0x7d ∷ []) h k)

abbrev keys : List ℕ
keys = 0x6b ∷ 0x65 ∷ 0x79 ∷ 0x73 ∷ []

type_field :
    (fuel : ℕ) (rest : List ℕ)
    → message_pairs (suc fuel) empty_msg (
        0x22 ∷ 0x74 ∷ 0x79 ∷ 0x70 ∷ 0x65 ∷ 0x22 ∷ 0x3a ∷ 0x22 ∷ 0x6b ∷ 0x65 ∷ 0x79 ∷ 0x73 ∷ 0x22
        ∷ 0x2c ∷ rest)
      ≡ message_pairs fuel (record empty_msg { has_type = true; type = keys }) rest
unfolding message_pairs parse_string_into parse_string string_chars unless buffered take chain
    skip_ws key_and_field colon key_of same_key field set_type behind_field after_field with_char
type_field fuel rest = refl

-- A message of type "keys" with up to 64 bytes, printed in decimal, is parsed to those bytes.
pub web_json_parse-keys :
    (bs : List ℕ)
    → all_bytes bs ≡ true
    → length bs ≤ 64
    → web_json_parse (keys_message bs)
      ≡ Result.ok (record empty_msg {
        has_type = true;
        type = 0x6b ∷ 0x65 ∷ 0x79 ∷ 0x73 ∷ [];
        has_bytes = true;
        bytes = bs;
      })
unfolding web_json_parse skip_ws unless no_pairs_or
web_json_parse-keys bs h k =
    let rest = bytes_field bs in
    let n = length (keys_message bs) * 2 - 2 in
    ap (λ (f : ℕ). message_pairs f empty_msg (skip_one (keys_message bs))) {y = suc (suc n)}
      (omega arith)
    ∙ type_field (suc n) rest
    ∙ bytes_field_lem n (record empty_msg { has_type = true; type = keys }) bs h k
