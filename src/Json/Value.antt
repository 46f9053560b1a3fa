-- ===== src/Json/Value.antt =====
-- Values that are parsed and discarded: parse_value, parse_object_skip, parse_array_skip and
-- match_keyword of emulator/web_json.c.
use workbench.Common.{
  ℕ, zero, suc, ◌+◌, ◌==◌, Bool, true, false, ◌||◌, not, if◌then◌else◌, ltb, leb, List, [], ◌∷◌,
}
use workbench.Json.Scan.{
  Result, chain, unless, skip_ws, at, skip_one, parse_string, parse_int, is_digit, Next, next,
}

abbrev pub depth_cap : ℕ
depth_cap = 8

-- The position behind a keyword.
unfoldable pub match_keyword : List ℕ → List ℕ → Result (List ℕ)
match_keyword [] p = Result.ok p
match_keyword (k ∷ kw) p = unless (not (at k p)) (match_keyword kw (skip_one p))

abbrev pub kw_true : List ℕ
kw_true = 0x74 ∷ 0x72 ∷ 0x75 ∷ 0x65 ∷ []

abbrev pub kw_false : List ℕ
kw_false = 0x66 ∷ 0x61 ∷ 0x6c ∷ 0x73 ∷ 0x65 ∷ []

abbrev pub kw_null : List ℕ
kw_null = 0x6e ∷ 0x75 ∷ 0x6c ∷ 0x6c ∷ []

-- Only the position.
unfoldable pub discard : {A : Type 0} → A × List ℕ → Result (List ℕ)
discard (x, p) = Result.ok p

-- What the first character says of a value.
pub data Kind : Type 0 where
  string : Kind
  object : Kind
  array : Kind
  keyword : List ℕ → Kind
  number : Kind
  unknown : Kind

unfoldable pub kind : List ℕ → Kind
kind [] = Kind.unknown
kind (c ∷ p) =
    if c == 0x22
    then Kind.string
    else if c == 0x7b
    then Kind.object
    else if c == 0x5b
    then Kind.array
    else if c == 0x74
    then Kind.keyword kw_true
    else if c == 0x66
    then Kind.keyword kw_false
    else if c == 0x6e
    then Kind.keyword kw_null
    else if (c == 0x2d) || is_digit c
    then Kind.number
    else Kind.unknown

-- Behind an element: the loop goes on at a comma and ends at its bracket.
unfoldable pub go_on : Next → (List ℕ → Result (List ℕ)) → List ℕ → Result (List ℕ)
go_on Next.comma loop p = loop p
go_on Next.close loop p = Result.ok p
go_on Next.other loop p = Result.bad

unfoldable pub after_element : ℕ → (List ℕ → Result (List ℕ)) → List ℕ → Result (List ℕ)
after_element bracket loop p = let q = skip_ws p in go_on (next bracket q) loop (skip_one q)

-- A colon behind a key, and white space.
unfoldable pub colon : List ℕ → Result (List ℕ)
colon p = let q = skip_ws p in unless (not (at 0x3a q)) (Result.ok (skip_ws (skip_one q)))

unfoldable pub behind_key : List ℕ × List ℕ → Result (List ℕ)
behind_key (key, p) = colon p

unfoldable pub empty_or : Bool → (List ℕ → Result (List ℕ)) → List ℕ → Result (List ℕ)
empty_or true loop p = Result.ok (skip_one p)
empty_or false loop p = loop p

-- An object or an array: its bracket, the cap of the depth, and the loop over its elements.
unfoldable pub bracketed : ℕ → ℕ → (List ℕ → Result (List ℕ)) → ℕ → List ℕ → Result (List ℕ)
bracketed opening closing loop depth p =
    let q = skip_ws (skip_one p) in
    unless (not (at opening p)) (unless (leb depth_cap depth) (empty_or (at closing q) loop q))

-- A value by its kind, with the loops over pairs and elements.
unfoldable pub by_kind :
    Kind → (List ℕ → Result (List ℕ)) → (List ℕ → Result (List ℕ)) → ℕ → List ℕ → Result (List ℕ)
by_kind Kind.string pairs elements depth p = chain (parse_string p) discard
by_kind Kind.object pairs elements depth p = bracketed 0x7b 0x7d pairs depth p
by_kind Kind.array pairs elements depth p = bracketed 0x5b 0x5d elements depth p
by_kind (Kind.keyword kw) pairs elements depth p = match_keyword kw p
by_kind Kind.number pairs elements depth p = chain (parse_int p) discard
by_kind Kind.unknown pairs elements depth p = Result.bad

unfoldable mutual
  pub parse_value : ℕ → ℕ → List ℕ → Result (List ℕ)
  parse_value zero depth p = Result.spent
  parse_value (suc fuel) depth p =
      let q = skip_ws p in
      unless (ltb depth_cap depth)
        (by_kind (kind q) (object_pairs fuel depth) (array_elements fuel depth) depth q)

  -- The loop of parse_object_skip.
  pub object_pairs : ℕ → ℕ → List ℕ → Result (List ℕ)
  object_pairs zero depth p = Result.spent
  object_pairs (suc fuel) depth p =
      chain (chain (chain (parse_string (skip_ws p)) behind_key) (parse_value fuel (depth + 1)))
        (after_element 0x7d (object_pairs fuel depth))

  -- The loop of parse_array_skip.
  pub array_elements : ℕ → ℕ → List ℕ → Result (List ℕ)
  array_elements zero depth p = Result.spent
  array_elements (suc fuel) depth p =
      chain (parse_value fuel (depth + 1) (skip_ws p))
        (after_element 0x5d (array_elements fuel depth))
