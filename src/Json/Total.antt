-- ===== src/Json/Total.antt =====
-- The loops of emulator/web_json.c on fuel, against the length of the text, and the size of what
-- a message holds.
use workbench.Common.{
  ℕ, zero, suc, ◌+◌, ◌-◌, ◌*◌, ◌≡◌, ◌<◌, ◌≤◌, refl, Bool, true, false, not, if◌then◌else◌, ltb, leb,
  List, [], ◌∷◌, length, arith,
}
use workbench.Json.Scan.{
  Result, chain, unless, skip_ws, at, skip_one, parse_string, parse_int, Next, next,
}
use workbench.Json.Value.{
  depth_cap, match_keyword, discard, Kind, kind, go_on, after_element, colon, behind_key, empty_or,
  bracketed, by_kind, parse_value, object_pairs, array_elements,
}
use workbench.Json.Bounds.{
  returns, returns-chain, returns-unless, returns-weaken, within, within_after, skip_ws-le,
  skip_one-le, skip_one-lt, parse_string-within, parse_int-within, long_within,
}

match_keyword-within :
    (n : ℕ) (kw p : List ℕ) → length p ≤ n → returns (within n) (match_keyword kw p) ≡ true
unfolding match_keyword
match_keyword-within n [] p h = ground arith
match_keyword-within n (k ∷ kw) p h =
    returns-unless (within n) (not (at k p)) (match_keyword kw (skip_one p))
      (λ b. match_keyword-within n kw (skip_one p) (omega (arith, skip_one-le p)))

discard-within :
    {A : Type 0} (n : ℕ) (x : A × List ℕ)
    → within n x.1 ≡ true
    → returns (within n) (discard x) ≡ true
unfolding discard
discard-within n x h = h

pub colon-within : (n : ℕ) (p : List ℕ) → length p ≤ n → returns (within n) (colon p) ≡ true
unfolding colon
colon-within n p h =
    returns-unless (within n) (not (at 0x3a (skip_ws p)))
      (Result.ok (skip_ws (skip_one (skip_ws p))))
      (λ b.
        ground (arith, skip_ws-le (skip_one (skip_ws p)), skip_one-le (skip_ws p), skip_ws-le p))

-- A property of what stands behind an element; a comma takes a character.
pub next-elim :
    (bracket : ℕ) (p : List ℕ) (motive : Next → Type 0)
    → (length (skip_one p) + 1 ≤ length p → motive Next.comma)
    → motive Next.close
    → motive Next.other
    → motive (next bracket p)
next-elim bracket p motive at_comma at_close at_other = with_comma (at 0x2c p) refl
  where
    with_close : (b : Bool) → motive (if b then Next.close else Next.other)
    with_close true = at_close
    with_close false = at_other

    with_comma :
        (b : Bool)
        → at 0x2c p ≡ b
        → motive (if b then Next.comma else if at bracket p then Next.close else Next.other)
    with_comma true e = at_comma (skip_one-lt 0x2c p e)
    with_comma false e = with_close (at bracket p)

after_element-within :
    (n bracket : ℕ) (loop : List ℕ → Result (List ℕ)) (p : List ℕ)
    → length p ≤ n
    → ((q : List ℕ) → length q + 1 ≤ n → returns (within n) (loop q) ≡ true)
    → returns (within n) (after_element bracket loop p) ≡ true
unfolding after_element go_on
after_element-within n bracket loop p h all =
    let q = skip_ws p in
    next-elim bracket q (λ (x : Next). returns (within n) (go_on x loop (skip_one q)) ≡ true)
      (λ k. all (skip_one q) (omega (arith, k, skip_ws-le p)))
      (ground (arith, skip_one-le q, skip_ws-le p)) refl

bracketed-within :
    (n opening closing depth : ℕ) (loop : List ℕ → Result (List ℕ)) (p : List ℕ)
    → length p ≤ n
    → ((q : List ℕ) → length q + 1 ≤ n → returns (within n) (loop q) ≡ true)
    → returns (within n) (bracketed opening closing loop depth p) ≡ true
unfolding bracketed empty_or
bracketed-within n opening closing depth loop p h all =
    let q = skip_ws (skip_one p) in
    returns-unless (within n) (not (at opening p))
      (unless (leb depth_cap depth) (empty_or (at closing q) loop q))
      (λ b. returns-unless (within n) (leb depth_cap depth) (empty_or (at closing q) loop q) (λ c.
        either (at closing q) q
          (omega (arith, skip_one-le q, skip_ws-le (skip_one p), skip_one-le p))
          (all q
            (omega (arith, skip_ws-le (skip_one p), skip_one-lt opening p (ground (arith, b)))))))
  where
    either :
        (b : Bool) (q : List ℕ)
        → length (skip_one q) ≤ n
        → returns (within n) (loop q) ≡ true
        → returns (within n) (empty_or b loop q) ≡ true
    either true q k m = ground (arith, k)
    either false q k m = m

by_kind-within :
    (n : ℕ) (k : Kind) (pairs elements : List ℕ → Result (List ℕ)) (depth : ℕ) (p : List ℕ)
    → length p ≤ n
    → ((q : List ℕ) → length q + 1 ≤ n → returns (within n) (pairs q) ≡ true)
    → ((q : List ℕ) → length q + 1 ≤ n → returns (within n) (elements q) ≡ true)
    → returns (within n) (by_kind k pairs elements depth p) ≡ true
unfolding by_kind
by_kind-within n Kind.string pairs elements depth p h f g =
    returns-chain (within_after n) (within n) (parse_string p) discard
      (parse_string-within n p (omega arith)) (discard-within n)
by_kind-within n Kind.object pairs elements depth p h f g =
    bracketed-within n 0x7b 0x7d depth pairs p h f
by_kind-within n Kind.array pairs elements depth p h f g =
    bracketed-within n 0x5b 0x5d depth elements p h g
by_kind-within n (Kind.keyword kw) pairs elements depth p h f g = match_keyword-within n kw p h
by_kind-within n Kind.number pairs elements depth p h f g =
    returns-chain (long_within n) (within n) (parse_int p) discard (parse_int-within n p h)
      (λ x k. discard-within n x (ground (arith, k)))
by_kind-within n Kind.unknown pairs elements depth p h f g = refl

behind_key-within :
    (n : ℕ) (x : List ℕ × List ℕ)
    → within_after n x ≡ true
    → returns (within n) (behind_key x) ≡ true
unfolding behind_key
behind_key-within n x h = colon-within n x.1 (ground (arith, h))

within_mono :
    (m n : ℕ) (r : Result (List ℕ))
    → m ≤ n
    → returns (within m) r ≡ true
    → returns (within n) r ≡ true
within_mono m n r h k = returns-weaken (within m) (within n) r k (λ x e. ground (arith, e))

mutual
  unfolding parse_value

  -- Two steps of fuel for each character are enough for a value.
  pub parse_value-within :
      (fuel depth n : ℕ) (p : List ℕ)
      → length p ≤ n
      → length p * 2 < fuel
      → returns (within n) (parse_value fuel depth p) ≡ true
  parse_value-within zero depth n p h k = absurd (omega arith)
  parse_value-within (suc fuel) depth n p h k =
      let q = skip_ws p in
      let m = length q in
      returns-unless (within n) (ltb depth_cap depth)
        (by_kind (kind q) (object_pairs fuel depth) (array_elements fuel depth) depth q)
        (λ b. within_mono m n _ (omega (arith, skip_ws-le p)) (
          by_kind-within m (kind q) (object_pairs fuel depth) (array_elements fuel depth) depth q
            (omega arith)
            (λ r e.
              object_pairs-within fuel depth m r (omega (arith, e))
                (omega (arith, e, skip_ws-le p)))
            (λ r e.
              array_elements-within fuel depth m r (omega (arith, e))
                (omega (arith, e, skip_ws-le p)))))

  object_pairs-within :
      (fuel depth n : ℕ) (p : List ℕ)
      → length p ≤ n
      → length p * 2 + 1 < fuel
      → returns (within n) (object_pairs fuel depth p) ≡ true
  object_pairs-within zero depth n p h k = absurd (omega arith)
  object_pairs-within (suc fuel) depth n p h k =
      let m = length p - 1 in
      let key = chain (parse_string (skip_ws p)) behind_key in
      within_mono m n
        (chain (chain key (parse_value fuel (depth + 1)))
          (after_element 0x7d (object_pairs fuel depth)))
        (omega arith)
        (returns-chain (within m) (within m) (chain key (parse_value fuel (depth + 1)))
          (after_element 0x7d (object_pairs fuel depth))
          (returns-chain (within m) (within m) key (parse_value fuel (depth + 1))
            (returns-chain (within_after m) (within m) (parse_string (skip_ws p)) behind_key
              (parse_string-within m (skip_ws p) (omega (arith, skip_ws-le p)))
              (behind_key-within m))
            (λ q e.
              parse_value-within fuel (depth + 1) m q (ground (arith, e)) (ground (arith, e))))
          (λ q e.
            after_element-within m 0x7d (object_pairs fuel depth) q (ground (arith, e))
              (λ r f. object_pairs-within fuel depth m r (omega arith) (omega arith))))

  array_elements-within :
      (fuel depth n : ℕ) (p : List ℕ)
      → length p ≤ n
      → length p * 2 + 1 < fuel
      → returns (within n) (array_elements fuel depth p) ≡ true
  array_elements-within zero depth n p h k = absurd (omega arith)
  array_elements-within (suc fuel) depth n p h k =
      let m = length p in
      within_mono m n
        (chain (parse_value fuel (depth + 1) (skip_ws p))
          (after_element 0x5d (array_elements fuel depth)))
        (omega arith)
        (returns-chain (within m) (within m) (parse_value fuel (depth + 1) (skip_ws p))
          (after_element 0x5d (array_elements fuel depth))
          (parse_value-within fuel (depth + 1) m (skip_ws p) (skip_ws-le p)
            (omega (arith, skip_ws-le p)))
          (λ q e.
            after_element-within m 0x5d (array_elements fuel depth) q (ground (arith, e))
              (λ r f. array_elements-within fuel depth m r (omega arith) (omega arith))))
