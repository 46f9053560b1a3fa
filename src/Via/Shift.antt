-- ===== src/Via/Shift.antt =====
-- The serial input of emulator/chips/via_6522.c: a read of SR and the ticks to eight time-outs of
-- T2 take a byte from CB2.
use workbench.Common.{
  repeat, repeat_add, ap, sym, subst, picked, ◌-◌, length, ltb, suc, ℕ, ◌+◌, ◌*◌, ◌/◌, ◌%◌, ◌^◌,
  ◌<◌, ◌≡◌, refl, ◌∙◌, true, List, [], ◌∷◌, u8, u32, ◌<<◌, bit_and, bit_or, digit, arith, to_bit,
  nonzero, bit_or_fields, bit_and_1,
}
use workbench.Bus.{Bus}
use workbench.Via.State.{Via, int_sr, shifts_in, via_clear_ifr, update_irq}
use workbench.Via.Access.{Register, read_register}
use workbench.Via.Timers.{via_6522_tick}
use workbench.Via.Receiver.{
  Receiver, IsActive, view, timed_out, shift_bit, tick-times_out, ticks-count, tick-flagged,
}
use workbench.Via.Pins.{via_6522_set_cb2_quiet}

module _ {C : Type 0} where
  -- The CPU cycles to the next time-out of T2, and the one on which it times out.
  unfoldable pub to_timeout : Via C × Bus → Via C × Bus
  to_timeout (s, bus) = repeat (s.t2c + 1) via_6522_tick (s, bus)

  -- The driver sets CB2 to each level in turn, and the VIA is clocked to the end of a time-out
  -- after each.
  unfoldable pub clock_in : List ℕ → Via C × Bus → Via C × Bus
  clock_in [] (s, bus) = (s, bus)
  clock_in (level ∷ levels) (s, bus) =
      clock_in levels (to_timeout (via_6522_set_cb2_quiet level s, bus))

-- The bits of a byte, the highest first.
unfoldable pub byte_levels : ℕ → List ℕ
byte_levels v =
    digit v 7
    ∷ digit v 6
    ∷ digit v 5
    ∷ digit v 4
    ∷ digit v 3
    ∷ digit v 2
    ∷ digit v 1
    ∷ digit v 0
    ∷ []

-- One bit moves into SR from below.
moved :
    (sr level : ℕ)
    → u8 (bit_or (sr << 1) (bit_and (to_bit (nonzero level)) 1))
      ≡ (2 * sr + to_bit (nonzero level)) % 256
moved sr level =
    ground
      (arith, bit_or_fields 1 sr (to_bit (nonzero level)) bit, bit_and_1 (to_bit (nonzero level)))
  where
    bit : to_bit (nonzero level) < 2 ^ 1
    bit = ground arith

-- What SR holds after the levels have moved in.
value : ℕ → List ℕ → ℕ
value sr [] = sr
value sr (level ∷ levels) = value ((2 * sr + to_bit (nonzero level)) % 256) levels

level_of : (q : ℕ) → to_bit (nonzero (q % 2)) ≡ q % 2
level_of q = ground arith

value-byte_levels : (sr v : ℕ) → v < 256 → value sr (byte_levels v) ≡ v
unfolding value byte_levels
value-byte_levels sr v h = rw (e7, e6, e5, e4, e3, e2, e1, e0) (omega arith)
  where
    e7 : (2 * sr + to_bit (nonzero (digit v 7))) % 256 ≡ (2 * sr + v / 128) % 256
    e7 = omega (arith, level_of (v / 128))

    e6 :
        (2 * ((2 * sr + v / 128) % 256) + to_bit (nonzero (digit v 6))) % 256
        ≡ (4 * sr + v / 64) % 256
    e6 = omega (arith, level_of (v / 64))

    e5 :
        (2 * ((4 * sr + v / 64) % 256) + to_bit (nonzero (digit v 5))) % 256
        ≡ (8 * sr + v / 32) % 256
    e5 = omega (arith, level_of (v / 32))

    e4 :
        (2 * ((8 * sr + v / 32) % 256) + to_bit (nonzero (digit v 4))) % 256
        ≡ (16 * sr + v / 16) % 256
    e4 = omega (arith, level_of (v / 16))

    e3 :
        (2 * ((16 * sr + v / 16) % 256) + to_bit (nonzero (digit v 3))) % 256
        ≡ (32 * sr + v / 8) % 256
    e3 = omega (arith, level_of (v / 8))

    e2 :
        (2 * ((32 * sr + v / 8) % 256) + to_bit (nonzero (digit v 2))) % 256
        ≡ (64 * sr + v / 4) % 256
    e2 = omega (arith, level_of (v / 4))

    e1 :
        (2 * ((64 * sr + v / 4) % 256) + to_bit (nonzero (digit v 1))) % 256
        ≡ (128 * sr + v / 2) % 256
    e1 = omega (arith, level_of (v / 2))

    e0 :
        (2 * ((128 * sr + v / 2) % 256) + to_bit (nonzero (digit v 0))) % 256 ≡ (256 * sr + v) % 256
    e0 = omega (arith, level_of (v / 2 ^ 0))

-- The receiver after one more expected bit, at a time-out.
abbrev pub received : ℕ → Receiver → Receiver
received level v = record v {
  sr = (2 * v.sr + to_bit (nonzero level)) % 256;
  remaining = v.remaining - 1;
  total = u32 (v.total + 1);
  cb2 = to_bit (nonzero level);
  t2c = v.t2l_lo;
}

pub received-IsActive : (level : ℕ) (v : Receiver) → IsActive v → IsActive (received level v)
received-IsActive level v a = assumption a

shift_bit-received :
    (level : ℕ) (v : Receiver)
    → ltb 0 v.remaining ≡ true
    → timed_out (record v { t2c = 0; cb2 = to_bit (nonzero level) }) ≡ received level v
unfolding timed_out shift_bit
shift_bit-received level v h =
    ap (λ (w : Receiver). record w { t2c = v.t2l_lo }) (picked (ltb 0 v.remaining) _ _ h)
    ∙ ap (λ (n : ℕ). record (received level v) { sr = n }) (moved v.sr level)

-- CB2 at a level, on the cycle of the time-out.
abbrev at_level : ℕ → Receiver → Receiver
at_level level v = record v { t2c = 0; cb2 = to_bit (nonzero level) }

at_level-IsActive : (level : ℕ) (v : Receiver) → IsActive v → IsActive (at_level level v)
at_level-IsActive level v a = assumption a

module _ {C : Type 0} where
  pub quiet-IsActive :
      (level : ℕ) (s : Via C) (bus : Bus)
      → IsActive (view (s, bus))
      → IsActive (view (via_6522_set_cb2_quiet level s, bus))
  unfolding via_6522_set_cb2_quiet
  quiet-IsActive level s bus a = assumption a

  before_timeout :
      (level : ℕ) (s : Via C) (bus : Bus)
      → IsActive (view (s, bus))
      → view (repeat s.t2c via_6522_tick (via_6522_set_cb2_quiet level s, bus))
        ≡ at_level level (view (s, bus))
  unfolding via_6522_set_cb2_quiet
  before_timeout level s bus a =
      ticks-count s.t2c (via_6522_set_cb2_quiet level s, bus) (quiet-IsActive level s bus a) refl

  pub to_timeout-last :
      (p : Via C × Bus) → to_timeout p ≡ via_6522_tick (repeat p.0.t2c via_6522_tick p)
  unfolding to_timeout repeat
  to_timeout-last p = repeat_add p.0.t2c 1 via_6522_tick p

  -- An expected bit moves in.
  pub bit-received :
      (level : ℕ) (s : Via C) (bus : Bus)
      → IsActive (view (s, bus))
      → ltb 0 s.sr_bits_remaining ≡ true
      → view (to_timeout (via_6522_set_cb2_quiet level s, bus)) ≡ received level (view (s, bus))
  unfolding via_6522_set_cb2_quiet
  bit-received level s bus a h =
      let r = repeat s.t2c via_6522_tick (via_6522_set_cb2_quiet level s, bus) in
      let before = before_timeout level s bus a in
      ap view (to_timeout-last (via_6522_set_cb2_quiet level s, bus))
      ∙ tick-times_out r (subst IsActive (sym before) (at_level-IsActive level (view (s, bus)) a))
          (ap (λ (v : Receiver). v.t2c) before)
      ∙ ap timed_out before
      ∙ shift_bit-received level (view (s, bus)) h

  last_bit-flagged :
      (level : ℕ) (s : Via C) (bus : Bus)
      → IsActive (view (s, bus))
      → s.sr_bits_remaining ≡ 1
      → digit (to_timeout (via_6522_set_cb2_quiet level s, bus)).0.ifr 2 ≡ 1
  unfolding via_6522_set_cb2_quiet
  last_bit-flagged level s bus a h =
      let r = repeat s.t2c via_6522_tick (via_6522_set_cb2_quiet level s, bus) in
      let before = before_timeout level s bus a in
      ap (λ (p : Via C × Bus). digit p.0.ifr 2)
        (to_timeout-last (via_6522_set_cb2_quiet level s, bus))
      ∙ tick-flagged r (subst IsActive (sym before) (at_level-IsActive level (view (s, bus)) a))
          (ap (λ (v : Receiver). v.t2c) before) (ap (λ (v : Receiver). v.remaining) before ∙ h)

  -- The whole of a nonempty list of levels, where as many bits are expected.
  record Taken (sr : ℕ) (levels : List ℕ) (p : Via C × Bus) : Type 0 where
    byte : p.0.sr ≡ value sr levels
    complete : p.0.sr_bits_remaining ≡ 0
    flagged : digit p.0.ifr 2 ≡ 1

  clock_in-Taken :
      (level : ℕ) (levels : List ℕ) (p : Via C × Bus)
      → IsActive (view p)
      → p.0.sr_bits_remaining ≡ suc (length levels)
      → Taken p.0.sr (level ∷ levels) (clock_in (level ∷ levels) p)
  unfolding clock_in value
  clock_in-Taken level [] (s, bus) a h =
      let next = bit-received level s bus a (ground (arith, h)) in
      record {
        byte = ap (λ (v : Receiver). v.sr) next;
        complete = ap (λ (v : Receiver). v.remaining) next ∙ omega (arith, h);
        flagged = last_bit-flagged level s bus a h;
      }
  clock_in-Taken level (second ∷ levels) (s, bus) a h =
      let next = bit-received level s bus a (ground (arith, h)) in
      let rest =
        clock_in-Taken second levels (to_timeout (via_6522_set_cb2_quiet level s, bus))
          (subst IsActive (sym next) (received-IsActive level (view (s, bus)) a))
          (ap (λ (v : Receiver). v.remaining) next ∙ omega (arith, h)) in
      record {
        byte = rest.byte ∙ ap (λ (v : Receiver). value v.sr (second ∷ levels)) next;
        complete = rest.complete;
        flagged = rest.flagged;
      }

  -- A VIA that expects eight bits.
  abbrev pub expecting : Via C × Bus → Via C × Bus
  expecting (s, bus) = (record s { sr_bits_remaining = 8 }, bus)

  pub primed :
      (s : Via C) (bus : Bus)
      → shifts_in s ≡ true
      → (read_register Register.sr (s, bus)).1 ≡ expecting (via_clear_ifr int_sr (s, bus))
  unfolding read_register via_clear_ifr update_irq
  primed s bus on = simp on refl

  pub expecting-view :
      (p : Via C × Bus)
      → view (expecting (via_clear_ifr int_sr p)) ≡ record (view p) { remaining = 8 }
  unfolding via_clear_ifr update_irq
  expecting-view (s, bus) = refl

  pub expecting-IsActive :
      (p : Via C × Bus) → IsActive (view p) → IsActive (view (expecting (via_clear_ifr int_sr p)))
  unfolding via_clear_ifr update_irq
  expecting-IsActive (s, bus) a = assumption a

  -- After a read of SR with T2 running in shift-in mode, a CPU cycle at each tick and no edge of
  -- RES: the bits of a byte on CB2 from the highest to the lowest, each while the VIA is ticked
  -- to the end of a time-out of T2, leave that byte in SR, no further bit expected, and the flag
  -- of the shift register set in IFR.
  pub clock_in-byte :
      (v : ℕ) (s : Via C) (bus : Bus)
      → v < 256
      → IsActive (view (s, bus))
      → ((clock_in (byte_levels v) (read_register Register.sr (s, bus)).1).0.sr ≡ v)
        × ((clock_in (byte_levels v) (read_register Register.sr (s, bus)).1).0.sr_bits_remaining
            ≡ 0)
        × (digit (clock_in (byte_levels v) (read_register Register.sr (s, bus)).1).0.ifr 2 ≡ 1)
  unfolding byte_levels
  clock_in-byte v s bus h a =
      let p = expecting (via_clear_ifr int_sr (s, bus)) in
      let taken =
        clock_in-Taken (digit v 7)
          (digit v 6 ∷ digit v 5 ∷ digit v 4 ∷ digit v 3 ∷ digit v 2 ∷ digit v 1 ∷ digit v 0 ∷ []) p
          (expecting-IsActive (s, bus) a)
          (ap (λ (w : Receiver). w.remaining) (expecting-view (s, bus))) in
      rw (primed s bus a.mode)
        (taken.byte ∙ value-byte_levels p.0.sr v h, taken.complete, taken.flagged)
