-- ===== src/Json/Message.antt =====
-- The messages of emulator/web_json.c: struct web_json_msg, parse_byte_array and web_json_parse.
use workbench.Common.{
  ℕ, zero, suc, ◌*◌, ◌==◌, Bool, true, false, ◌&&◌, not, if◌then◌else◌, ltb, List, [], ◌∷◌, length,
}
use workbench.Json.Scan.{
  Result, chain, unless, skip_ws, at, skip_one, parse_string_into, parse_int, Next, next, ℤ,
}
use workbench.Json.Value.{colon, parse_value}

-- `bytes` is the first n_bytes of the array.
pub record Msg : Type 0 where
  pub has_type : Bool
  pub type : List ℕ
  pub has_down : Bool
  pub down : ℤ
  pub has_bytes : Bool
  pub bytes : List ℕ

abbrev pub empty_msg : Msg
empty_msg = record {
  has_type = false;
  type = [];
  has_down = false;
  down = ℤ.pos 0;
  has_bytes = false;
  bytes = [];
}

abbrev pub type_max : ℕ
type_max = 32

abbrev pub bytes_max : ℕ
bytes_max = 64

abbrev pub key_max : ℕ
key_max = 24

-- A number that is a byte.
unfoldable pub byte_of : ℤ × List ℕ → Result (ℕ × List ℕ)
byte_of (ℤ.pos v, p) = unless (ltb 255 v) (Result.ok (v, p))
byte_of (ℤ.negsuc v, p) = Result.bad

unfoldable pub with_byte : ℕ → Result (List ℕ × List ℕ) → Result (List ℕ × List ℕ)
with_byte b (Result.ok (bytes, p)) = Result.ok (b ∷ bytes, p)
with_byte b Result.bad = Result.bad
with_byte b Result.spent = Result.spent

unfoldable pub after_byte :
    Next → (List ℕ → Result (List ℕ × List ℕ)) → ℕ → List ℕ → Result (List ℕ × List ℕ)
after_byte Next.comma loop b p = with_byte b (loop p)
after_byte Next.close loop b p = Result.ok (b ∷ [], p)
after_byte Next.other loop b p = Result.bad

unfoldable pub behind_byte :
    (List ℕ → Result (List ℕ × List ℕ)) → ℕ × List ℕ → Result (List ℕ × List ℕ)
behind_byte loop (b, p) = let q = skip_ws p in after_byte (next 0x5d q) loop b (skip_one q)

-- The loop, with room for so many more.
unfoldable pub byte_elements : ℕ → List ℕ → Result (List ℕ × List ℕ)
byte_elements zero p = Result.bad
byte_elements (suc room) p =
    chain (chain (parse_int (skip_ws p)) byte_of) (behind_byte (byte_elements room))

unfoldable pub no_bytes_or : Bool → List ℕ → Result (List ℕ × List ℕ)
no_bytes_or true p = Result.ok ([], skip_one p)
no_bytes_or false p = byte_elements bytes_max p

unfoldable pub parse_byte_array : List ℕ → Result (List ℕ × List ℕ)
parse_byte_array p =
    let q = skip_ws (skip_one p) in unless (not (at 0x5b p)) (no_bytes_or (at 0x5d q) q)

-- `strcmp(key, word) == 0`, where a zero in the buffer ends the key.
unfoldable pub same_key : List ℕ → List ℕ → Bool
same_key [] [] = true
same_key [] (w ∷ word) = false
same_key (k ∷ key) [] = k == 0
same_key (k ∷ key) (w ∷ word) = (k == w) && same_key key word

-- The keys that are extracted.
pub data Key : Type 0 where
  type : Key
  down : Key
  bytes : Key
  unknown : Key

unfoldable pub key_of : List ℕ → Key
key_of key =
    if same_key key (0x74 ∷ 0x79 ∷ 0x70 ∷ 0x65 ∷ [])
    then Key.type
    else if same_key key (0x64 ∷ 0x6f ∷ 0x77 ∷ 0x6e ∷ [])
    then Key.down
    else if same_key key (0x62 ∷ 0x79 ∷ 0x74 ∷ 0x65 ∷ 0x73 ∷ [])
    then Key.bytes
    else Key.unknown

unfoldable pub set_type : Msg → List ℕ × List ℕ → Result (Msg × List ℕ)
set_type msg (s, p) = Result.ok (record msg { has_type = true; type = s }, p)

unfoldable pub set_down : Msg → ℤ × List ℕ → Result (Msg × List ℕ)
set_down msg (v, p) = Result.ok (record msg { has_down = true; down = v }, p)

unfoldable pub set_bytes : Msg → List ℕ × List ℕ → Result (Msg × List ℕ)
set_bytes msg (bs, p) = Result.ok (record msg { has_bytes = true; bytes = bs }, p)

unfoldable pub keep : Msg → List ℕ → Result (Msg × List ℕ)
keep msg p = Result.ok (msg, p)

-- The value of a key. On an error the caller does not use the message.
unfoldable pub field : ℕ → Key → Msg → List ℕ → Result (Msg × List ℕ)
field fuel Key.type msg p = chain (parse_string_into type_max p) (set_type msg)
field fuel Key.down msg p = chain (parse_int p) (set_down msg)
field fuel Key.bytes msg p = chain (parse_byte_array p) (set_bytes msg)
field fuel Key.unknown msg p = chain (parse_value fuel 1 p) (keep msg)

unfoldable pub key_and_field : ℕ → Msg → List ℕ × List ℕ → Result (Msg × List ℕ)
key_and_field fuel msg (key, p) = chain (colon p) (field fuel (key_of key) msg)

-- Nothing but white space may follow.
unfoldable pub at_the_end : Msg → List ℕ → Result Msg
at_the_end msg [] = Result.ok msg
at_the_end msg (c ∷ p) = Result.bad

unfoldable pub after_field : Next → (Msg → List ℕ → Result Msg) → Msg → List ℕ → Result Msg
after_field Next.comma loop msg p = loop msg p
after_field Next.close loop msg p = at_the_end msg (skip_ws p)
after_field Next.other loop msg p = Result.bad

unfoldable pub behind_field : (Msg → List ℕ → Result Msg) → Msg × List ℕ → Result Msg
behind_field loop (msg, p) = let q = skip_ws p in after_field (next 0x7d q) loop msg (skip_one q)

-- The loop of web_json_parse, on fuel.
unfoldable pub message_pairs : ℕ → Msg → List ℕ → Result Msg
message_pairs zero msg p = Result.spent
message_pairs (suc fuel) msg p =
    chain (chain (parse_string_into key_max (skip_ws p)) (key_and_field fuel msg))
      (behind_field (message_pairs fuel))

unfoldable pub no_pairs_or : Bool → ℕ → List ℕ → Result Msg
no_pairs_or true fuel p = at_the_end empty_msg (skip_ws (skip_one p))
no_pairs_or false fuel p = message_pairs fuel empty_msg p

-- Every pair and every nested value takes a character of the text, and two steps of fuel.
unfoldable pub web_json_parse : List ℕ → Result Msg
web_json_parse text =
    let p = skip_ws text in
    let q = skip_ws (skip_one p) in
    unless (not (at 0x7b p)) (no_pairs_or (at 0x7d q) (length text * 2) q)
