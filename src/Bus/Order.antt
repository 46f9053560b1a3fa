-- ===== src/Bus/Order.antt =====
-- The order in which emulator/bus.c asks the chips of a bus.
use workbench.Common.{ℕ, ◌≡◌, refl, Bool, true, false, Option, none, some, List, [], ◌∷◌, ◌++◌}
use workbench.Bus.{Bus, ChipOps, bus_read, bus_write, read_chip, write_chip}

module _ {World : Type 0} where
  -- What the chips behind answer when those before have not claimed a read, or a write.
  abbrev pub or_else :
      Option ℕ × (World × Bus) → (World × Bus → Option ℕ × (World × Bus)) → Option ℕ × (World × Bus)
  or_else (some v, s) behind = (some v, s)
  or_else (none, s) behind = behind s

  abbrev pub or_claim :
      Bool × (World × Bus) → (World × Bus → Bool × (World × Bus)) → Bool × (World × Bus)
  or_claim (true, s) behind = (true, s)
  or_claim (false, s) behind = behind s

  reads :
      (before behind : List (ChipOps World)) (addr : ℕ) (s : World × Bus)
      → bus_read (before ++ behind) addr s ≡ or_else (bus_read before addr s) (bus_read behind addr)
  unfolding bus_read
  reads [] behind addr s = refl
  reads (c ∷ before) behind addr s = first (read_chip c addr s) (λ t. reads before behind addr t)
    where
      first :
          (p : Option ℕ × (World × Bus))
          → ((t : World × Bus)
              → bus_read (before ++ behind) addr t
                ≡ or_else (bus_read before addr t) (bus_read behind addr))
          → (elim p.0 [ some v ↦ (some v, p.1) | none ↦ bus_read (before ++ behind) addr p.1 ])
            ≡ or_else
                (elim p.0 [ some v ↦ (some v, p.1) | none ↦ bus_read before addr p.1 ])
                (bus_read behind addr)
      first (some v, t) rest = refl
      first (none, t) rest = rest t

  writes :
      (before behind : List (ChipOps World)) (addr v : ℕ) (s : World × Bus)
      → bus_write (before ++ behind) addr v s
        ≡ or_claim (bus_write before addr v s) (bus_write behind addr v)
  unfolding bus_write
  writes [] behind addr v s = refl
  writes (c ∷ before) behind addr v s =
      first (write_chip c addr v s) (λ t. writes before behind addr v t)
    where
      first :
          (p : Bool × (World × Bus))
          → ((t : World × Bus)
              → bus_write (before ++ behind) addr v t
                ≡ or_claim (bus_write before addr v t) (bus_write behind addr v))
          → (elim p.0 [ true ↦ (true, p.1) | false ↦ bus_write (before ++ behind) addr v p.1 ])
            ≡ or_claim
                (elim p.0 [ true ↦ (true, p.1) | false ↦ bus_write before addr v p.1 ])
                (bus_write behind addr v)
      first (true, t) rest = refl
      first (false, t) rest = rest t

  -- A read that goes from chip to chip, with the answer and the state that it ends in: a chip
  -- without the operation is passed by, one that does not claim hands its state on, and the first
  -- that claims ends the read.
  pub data IsRead (addr : ℕ)
      : List (ChipOps World) → World × Bus → Option ℕ × (World × Bus) → Type 0 where
    unclaimed : (s : World × Bus) → IsRead addr [] s (none, s)
    unable :
        (c : ChipOps World) {chips : List (ChipOps World)} {s : World × Bus}
        {r : Option ℕ × (World × Bus)}
        → c.read ≡ none
        → IsRead addr chips s r
        → IsRead addr (c ∷ chips) s r
    passes :
        (c : ChipOps World) (read : ℕ → World × Bus → Option ℕ × (World × Bus))
        {chips : List (ChipOps World)} {s t : World × Bus} {r : Option ℕ × (World × Bus)}
        → c.read ≡ some read
        → read addr s ≡ (none, t)
        → IsRead addr chips t r
        → IsRead addr (c ∷ chips) s r
    claims :
        (c : ChipOps World) (read : ℕ → World × Bus → Option ℕ × (World × Bus))
        {chips : List (ChipOps World)} {s t : World × Bus} {v : ℕ}
        → c.read ≡ some read
        → read addr s ≡ (some v, t)
        → IsRead addr (c ∷ chips) s (some v, t)

  -- The same for a write.
  pub data IsWritten (addr value : ℕ)
      : List (ChipOps World) → World × Bus → Bool × (World × Bus) → Type 0 where
    unclaimed : (s : World × Bus) → IsWritten addr value [] s (false, s)
    unable :
        (c : ChipOps World) {chips : List (ChipOps World)} {s : World × Bus}
        {r : Bool × (World × Bus)}
        → c.write ≡ none
        → IsWritten addr value chips s r
        → IsWritten addr value (c ∷ chips) s r
    passes :
        (c : ChipOps World) (write : ℕ → ℕ → World × Bus → Bool × (World × Bus))
        {chips : List (ChipOps World)} {s t : World × Bus} {r : Bool × (World × Bus)}
        → c.write ≡ some write
        → write addr value s ≡ (false, t)
        → IsWritten addr value chips t r
        → IsWritten addr value (c ∷ chips) s r
    claims :
        (c : ChipOps World) (write : ℕ → ℕ → World × Bus → Bool × (World × Bus))
        {chips : List (ChipOps World)} {s t : World × Bus}
        → c.write ≡ some write
        → write addr value s ≡ (true, t)
        → IsWritten addr value (c ∷ chips) s (true, t)

  bus_read-IsRead :
      (chips : List (ChipOps World)) (addr : ℕ) (s : World × Bus)
      → IsRead addr chips s (bus_read chips addr s)
  unfolding bus_read
  bus_read-IsRead [] addr s = IsRead.unclaimed s
  bus_read-IsRead (c ∷ chips) addr s = by_read c.read refl (λ t. bus_read-IsRead chips addr t)
    where
      answered : Option ℕ × (World × Bus) → Option ℕ × (World × Bus)
      answered p = elim p.0 [ some v ↦ (some v, p.1) | none ↦ bus_read chips addr p.1 ]

      by_answer :
          (read : ℕ → World × Bus → Option ℕ × (World × Bus)) (p : Option ℕ × (World × Bus))
          → c.read ≡ some read
          → read addr s ≡ p
          → ((t : World × Bus) → IsRead addr chips t (bus_read chips addr t))
          → IsRead addr (c ∷ chips) s (answered p)
      by_answer read (some v, t) h k rest = IsRead.claims c read h k
      by_answer read (none, t) h k rest = IsRead.passes c read h k (rest t)

      by_read :
          (r : Option (ℕ → World × Bus → Option ℕ × (World × Bus)))
          → c.read ≡ r
          → ((t : World × Bus) → IsRead addr chips t (bus_read chips addr t))
          → IsRead addr
              (c ∷ chips)
              s
              (answered (elim r [ none ↦ (none, s) | some read ↦ read addr s ]))
      by_read none h rest = IsRead.unable c h (rest s)
      by_read (some read) h rest = by_answer read (read addr s) h refl rest

  bus_write-IsWritten :
      (chips : List (ChipOps World)) (addr value : ℕ) (s : World × Bus)
      → IsWritten addr value chips s (bus_write chips addr value s)
  unfolding bus_write
  bus_write-IsWritten [] addr value s = IsWritten.unclaimed s
  bus_write-IsWritten (c ∷ chips) addr value s =
      by_write c.write refl (λ t. bus_write-IsWritten chips addr value t)
    where
      answered : Bool × (World × Bus) → Bool × (World × Bus)
      answered p = elim p.0 [ true ↦ (true, p.1) | false ↦ bus_write chips addr value p.1 ]

      by_answer :
          (write : ℕ → ℕ → World × Bus → Bool × (World × Bus)) (p : Bool × (World × Bus))
          → c.write ≡ some write
          → write addr value s ≡ p
          → ((t : World × Bus) → IsWritten addr value chips t (bus_write chips addr value t))
          → IsWritten addr value (c ∷ chips) s (answered p)
      by_answer write (true, t) h k rest = IsWritten.claims c write h k
      by_answer write (false, t) h k rest = IsWritten.passes c write h k (rest t)

      by_write :
          (r : Option (ℕ → ℕ → World × Bus → Bool × (World × Bus)))
          → c.write ≡ r
          → ((t : World × Bus) → IsWritten addr value chips t (bus_write chips addr value t))
          → IsWritten addr value
              (c ∷ chips)
              s
              (answered (elim r [ none ↦ (false, s) | some write ↦ write addr value s ]))
      by_write none h rest = IsWritten.unable c h (rest s)
      by_write (some write) h rest = by_answer write (write addr value s) h refl rest

  -- A read and a write go from chip to chip in the order of their registration, until one claims:
  -- a chip without the operation is passed by, a chip that does not claim hands on the state that
  -- it leaves, the first that claims gives the answer and the state, and where none claims the
  -- access is unclaimed. On a list of chips followed by others, the others are asked only when the
  -- chips before have not claimed.
  pub bus_access-order :
      (before behind : List (ChipOps World)) (addr v : ℕ) (s : World × Bus)
      → IsRead addr before s (bus_read before addr s)
        × IsWritten addr v before s (bus_write before addr v s)
        × (bus_read (before ++ behind) addr s
            ≡ or_else (bus_read before addr s) (bus_read behind addr))
        × (bus_write (before ++ behind) addr v s
            ≡ or_claim (bus_write before addr v s) (bus_write behind addr v))
  bus_access-order before behind addr v s = (
    bus_read-IsRead before addr s,
    bus_write-IsWritten before addr v s,
    reads before behind addr s,
    writes before behind addr v s,
  )
