-- ===== src/Json/Tests.antt =====
-- The theorems on the parser at texts, and runs of it.
use workbench.Common.{ℕ, ◌≡◌, refl, arith, true, List, [], ◌∷◌}
use workbench.Json.Scan.{
  Result, chain, unless, skip_ws, unescape, with_char, string_chars, parse_string, take, buffered,
  parse_string_into, read_digits, whole, parse_int,
}
use workbench.Json.Value.{colon}
use workbench.Json.Message.{
  empty_msg, byte_of, with_byte, after_byte, behind_byte, byte_elements, no_bytes_or,
  parse_byte_array, same_key, key_of, set_bytes, field, key_and_field, at_the_end, after_field,
  behind_field, message_pairs, no_pairs_or, web_json_parse,
}
use workbench.Json.Bounds.{returns}
use workbench.Json.Limits.{is_bounded, web_json_parse-bounded}
use workbench.Json.RoundTrip.{keys_message, web_json_parse-keys}
use workbench.Json.Depth.{Opening, opened, web_json_parse-opened}

-- {"bytes":[27,9]}
abbrev keys : List ℕ
keys =
    0x7b ∷ 0x22 ∷ 0x62 ∷ 0x79 ∷ 0x74 ∷ 0x65 ∷ 0x73 ∷ 0x22 ∷ 0x3a ∷ 0x5b ∷ 0x32 ∷ 0x37 ∷ 0x2c ∷ 0x39
    ∷ 0x5d ∷ 0x7d ∷ []

keys_parsed :
    web_json_parse keys ≡ Result.ok (record empty_msg { has_bytes = true; bytes = 27 ∷ 9 ∷ [] })
unfolding chain unless skip_ws unescape with_char string_chars parse_string take buffered
    parse_string_into read_digits whole parse_int colon byte_of with_byte after_byte behind_byte
    byte_elements no_bytes_or parse_byte_array same_key key_of set_bytes field key_and_field
    at_the_end after_field behind_field message_pairs no_pairs_or web_json_parse
keys_parsed = refl

web_json_parse-bounded_example : returns is_bounded (web_json_parse keys) ≡ true
web_json_parse-bounded_example = web_json_parse-bounded keys

-- Eight levels of arrays and objects.
abbrev deep : List Opening
deep =
    Opening.array ∷ Opening.array ∷ Opening.object ∷ Opening.array ∷ Opening.object ∷ Opening.array
    ∷ Opening.array ∷ Opening.array ∷ []

web_json_parse-opened_example : web_json_parse (opened (Opening.object ∷ deep) keys) ≡ Result.bad
web_json_parse-opened_example = web_json_parse-opened deep keys (omega arith)

web_json_parse-keys_example :
    web_json_parse (keys_message (27 ∷ 91 ∷ 165 ∷ []))
    ≡ Result.ok (record empty_msg {
      has_type = true;
      type = 0x6b ∷ 0x65 ∷ 0x79 ∷ 0x73 ∷ [];
      has_bytes = true;
      bytes = 27 ∷ 91 ∷ 165 ∷ [];
    })
web_json_parse-keys_example = web_json_parse-keys (27 ∷ 91 ∷ 165 ∷ []) refl (omega arith)
