-- ===== src/Json/Depth.antt =====
-- The cap of emulator/web_json.c on the nesting of objects and arrays.
use workbench.Common.{
  ℕ, zero, suc, ◌+◌, ◌*◌, ◌≡◌, ◌≤◌, refl, Bool, true, false, ltb, leb, List, [], ◌∷◌, length, arith,
}
use workbench.Json.Scan.{
  Result, chain, unless, skip_ws, at, string_chars, parse_string, parse_string_into, take, buffered,
}
use workbench.Json.Value.{
  depth_cap, kind, colon, behind_key, bracketed, empty_or, by_kind, after_element, parse_value,
  object_pairs, array_elements,
}
use workbench.Json.Message.{
  empty_msg, same_key, key_of, keep, field, key_and_field, behind_field, message_pairs, no_pairs_or,
  web_json_parse,
}
use workbench.Json.Bounds.{returns}
use workbench.Json.Limits.{is_bounded, web_json_parse-bounded}

-- An array or an object is opened; the object with an empty key.
pub data Opening : Type 0 where
  array : Opening
  object : Opening

abbrev pub opened : List Opening → List ℕ → List ℕ
opened [] rest = rest
opened (Opening.array ∷ os) rest = 0x5b ∷ opened os rest
opened (Opening.object ∷ os) rest = 0x7b ∷ 0x22 ∷ 0x22 ∷ 0x3a ∷ opened os rest

abbrev is_ok : {A : Type 0} → Result A → Bool
is_ok (Result.ok x) = true
is_ok Result.bad = false
is_ok Result.spent = false

fails-chain :
    {A B : Type 0} (r : Result A) (go : A → Result B) → is_ok r ≡ false → is_ok (chain r go) ≡ false
unfolding chain
fails-chain (Result.ok x) go h = absurd (ground (arith, h))
fails-chain Result.bad go h = refl
fails-chain Result.spent go h = refl

fails-unless :
    {A : Type 0} (b : Bool) (r : Result A)
    → (b ≡ false → is_ok r ≡ false)
    → is_ok (unless b r) ≡ false
unfolding unless
fails-unless true r h = refl
fails-unless false r h = h refl

unless-true : {A : Type 0} (b : Bool) (r : Result A) → b ≡ true → is_ok (unless b r) ≡ false
unfolding unless
unless-true true r h = refl
unless-true false r h = absurd (ground (arith, h))

-- Behind the bracket of an array, and behind that of an object.
array-opened :
    (fuel depth : ℕ) (os : List Opening) (rest : List ℕ)
    → 8 ≤ length os + depth
    → ((f : ℕ) → is_ok (parse_value f (depth + 1) (opened os rest)) ≡ false)
    → is_ok (
        unless (leb depth_cap depth) (
          empty_or
            (at 0x5d (skip_ws (opened os rest)))
            (array_elements fuel depth)
            (skip_ws (opened os rest))))
      ≡ false
unfolding skip_ws empty_or array_elements
array-opened fuel depth [] rest h deeper = unless-true (leb depth_cap depth) _ (ground (arith, h))
array-opened zero depth (Opening.array ∷ os) rest h deeper =
    fails-unless (leb depth_cap depth) Result.spent (λ b. refl)
array-opened zero depth (Opening.object ∷ os) rest h deeper =
    fails-unless (leb depth_cap depth) Result.spent (λ b. refl)
array-opened (suc fuel) depth (Opening.array ∷ os) rest h deeper =
    fails-unless (leb depth_cap depth) _ (λ b.
      fails-chain (parse_value fuel (depth + 1) (opened (Opening.array ∷ os) rest))
        (after_element 0x5d (array_elements fuel depth)) (deeper fuel))
array-opened (suc fuel) depth (Opening.object ∷ os) rest h deeper =
    fails-unless (leb depth_cap depth) _ (λ b.
      fails-chain (parse_value fuel (depth + 1) (opened (Opening.object ∷ os) rest))
        (after_element 0x5d (array_elements fuel depth)) (deeper fuel))

object-opened :
    (fuel depth : ℕ) (os : List Opening) (rest : List ℕ)
    → 8 ≤ length os + depth
    → ((f : ℕ) → is_ok (parse_value f (depth + 1) (opened os rest)) ≡ false)
    → is_ok (
        unless
          (leb depth_cap depth)
          (object_pairs fuel depth (0x22 ∷ 0x22 ∷ 0x3a ∷ opened os rest)))
      ≡ false
unfolding skip_ws parse_string string_chars chain unless behind_key colon object_pairs
object-opened fuel depth [] rest h deeper = unless-true (leb depth_cap depth) _ (ground (arith, h))
object-opened zero depth (o ∷ os) rest h deeper =
    fails-unless (leb depth_cap depth) Result.spent (λ b. refl)
object-opened (suc fuel) depth (Opening.array ∷ os) rest h deeper =
    fails-unless (leb depth_cap depth) _ (λ b.
      fails-chain (parse_value fuel (depth + 1) (opened (Opening.array ∷ os) rest))
        (after_element 0x7d (object_pairs fuel depth)) (deeper fuel))
object-opened (suc fuel) depth (Opening.object ∷ os) rest h deeper =
    fails-unless (leb depth_cap depth) _ (λ b.
      fails-chain (parse_value fuel (depth + 1) (opened (Opening.object ∷ os) rest))
        (after_element 0x7d (object_pairs fuel depth)) (deeper fuel))

parse_value-opened :
    (fuel depth : ℕ) (os : List Opening) (rest : List ℕ)
    → 9 ≤ length os + depth
    → is_ok (parse_value fuel depth (opened os rest)) ≡ false
unfolding parse_value by_kind bracketed kind skip_ws empty_or unless
parse_value-opened zero depth os rest h = refl
parse_value-opened (suc fuel) depth [] rest h = unless-true (ltb depth_cap depth) _ (ground arith)
parse_value-opened (suc fuel) depth (Opening.array ∷ os) rest h =
    fails-unless (ltb depth_cap depth) _ (λ b.
      array-opened fuel depth os rest (omega arith)
        (λ f. parse_value-opened f (depth + 1) os rest (omega arith)))
parse_value-opened (suc fuel) depth (Opening.object ∷ os) rest h =
    fails-unless (ltb depth_cap depth) _ (λ b.
      object-opened fuel depth os rest (omega arith)
        (λ f. parse_value-opened f (depth + 1) os rest (omega arith)))

is-bad :
    {A : Type 0} (test : A → Bool) (r : Result A)
    → returns test r ≡ true
    → is_ok r ≡ false
    → r ≡ Result.bad
is-bad test (Result.ok x) h k = absurd (ground (arith, k))
is-bad test Result.bad h k = refl
is-bad test Result.spent h k = absurd (ground (arith, h))

message_pairs-opened :
    (fuel : ℕ) (os : List Opening) (rest : List ℕ)
    → 8 ≤ length os
    → is_ok (message_pairs fuel empty_msg (0x22 ∷ 0x22 ∷ 0x3a ∷ opened os rest)) ≡ false
unfolding message_pairs parse_string_into parse_string string_chars unless buffered take chain
    skip_ws key_and_field colon key_of same_key field
message_pairs-opened zero os rest h = refl
message_pairs-opened (suc fuel) [] rest h = absurd (omega arith)
message_pairs-opened (suc fuel) (Opening.array ∷ os) rest h =
    fails-chain _ (behind_field (message_pairs fuel)) (
      fails-chain (parse_value fuel 1 (opened (Opening.array ∷ os) rest)) (keep empty_msg)
        (parse_value-opened fuel 1 (Opening.array ∷ os) rest (omega arith)))
message_pairs-opened (suc fuel) (Opening.object ∷ os) rest h =
    fails-chain _ (behind_field (message_pairs fuel)) (
      fails-chain (parse_value fuel 1 (opened (Opening.object ∷ os) rest)) (keep empty_msg)
        (parse_value-opened fuel 1 (Opening.object ∷ os) rest (omega arith)))

fails-opened :
    (os : List Opening) (rest : List ℕ)
    → 8 ≤ length os
    → is_ok (web_json_parse (opened (Opening.object ∷ os) rest)) ≡ false
unfolding web_json_parse skip_ws unless no_pairs_or
fails-opened os rest h =
    message_pairs-opened (length (opened (Opening.object ∷ os) rest) * 2) os rest h

-- A text that opens a message and within it eight more arrays or objects, one in the other and
-- each object with an empty key, is refused, whatever follows.
pub web_json_parse-opened :
    (os : List Opening) (rest : List ℕ)
    → 8 ≤ length os
    → web_json_parse (opened (Opening.object ∷ os) rest) ≡ Result.bad
web_json_parse-opened os rest h =
    is-bad is_bounded (web_json_parse (opened (Opening.object ∷ os) rest))
      (web_json_parse-bounded (opened (Opening.object ∷ os) rest)) (fails-opened os rest h)
