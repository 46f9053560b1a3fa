-- ===== src/Serial/Rounds.antt =====
-- The bits of a byte that the chip of emulator/chips/serial_usb.c sends, one for each time-out of
-- T2 in the VIA, tick by tick.
use workbench.Common.{
  repeat_add, subst, repeat, ap, ℕ, zero, suc, ◌+◌, ◌-◌, ◌*◌, ◌/◌, ◌%◌, ◌^◌, ◌≡◌, ◌<◌, ◌∙◌, refl,
  sym, if◌then◌else◌, ltb, List, [], ◌∷◌, arith, picked, u8, u32, bit_and_1,
}
use workbench.Bus.{Bus}
use workbench.Via.State.{Via}
use workbench.Via.Timers.{via_6522_tick}
use workbench.Via.Receiver.{Receiver, IsActive, view, tick-counts}
use workbench.Via.Pins.{via_6522_set_cb2_quiet}
use workbench.Via.Shift.{
  to_timeout, clock_in, byte_levels, received-IsActive, quiet-IsActive, to_timeout-last,
  bit-received,
}
use workbench.Serial.Queue.{SerialUsb, Phase}
use workbench.Serial.Chip.{byte_bit, follow, tick_phase}

-- The bits of a byte from one on upwards.
unfoldable pub bit_levels : ℕ → ℕ → ℕ → List ℕ
bit_levels zero i byte = []
bit_levels (suc n) i byte = byte_bit byte i ∷ bit_levels n (i + 1) byte

-- The chip while it sends a bit.
abbrev pub sending : ℕ → ℕ → SerialUsb → SerialUsb
sending i total s = record s { bit_index = i; prev_shift_total = total; state = Phase.shifting }

-- The chip after a byte.
abbrev sent : ℕ → SerialUsb → SerialUsb
sent total s = record s { bit_index = 8; prev_shift_total = total; state = Phase.idle }

module _ {C : Type 0} where
  -- One tick of the bus, in the order of emu_wendy2c.c: the VIA, then this chip.
  unfoldable pub round : SerialUsb × (Via C × Bus) → SerialUsb × (Via C × Bus)
  round (s, p) = tick_phase s.state s (via_6522_tick p)

  follow-inner :
      (i total : ℕ) (s : SerialUsb) (via : Via C)
      → i < 7
      → total + 1 < 2 ^ 32
      → follow (u32 (total + 1) - total) (sending i total s) via ≡ (
        sending (i + 1) (total + 1) s,
        via_6522_set_cb2_quiet (byte_bit s.current_byte (i + 1)) via,
      )
  unfolding follow
  follow-inner i total s via h k =
      ap (λ (n : ℕ). follow n (sending i total s) via) {y = 1} (omega arith)
      ∙ ap (λ (t : ℕ). stepped t (u8 (i + 1))) {y = total + 1} (omega arith)
      ∙ ap (stepped (total + 1)) {y = i + 1} (omega arith)
      ∙ picked (ltb (i + 1) 8)
          (
            sending (i + 1) (total + 1) s,
            via_6522_set_cb2_quiet (byte_bit s.current_byte (i + 1)) via,
          )
          _ (ground arith)
    where
      stepped : ℕ → ℕ → SerialUsb × Via C
      stepped t j =
          if ltb j 8
          then (sending j t s, via_6522_set_cb2_quiet (byte_bit s.current_byte j) via)
          else (record (sending j t s) { state = Phase.idle }, via_6522_set_cb2_quiet 1 via)

  follow-last :
      (total : ℕ) (s : SerialUsb) (via : Via C)
      → total + 1 < 2 ^ 32
      → follow (u32 (total + 1) - total) (sending 7 total s) via
        ≡ (sent (total + 1) s, via_6522_set_cb2_quiet 1 via)
  unfolding follow
  follow-last total s via k =
      ap (λ (n : ℕ). follow n (sending 7 total s) via) {y = 1} (omega arith)
      ∙ ap (λ (t : ℕ). (sent t s, via_6522_set_cb2_quiet 1 via)) {y = total + 1} (omega arith)

  -- The chip and the VIA at the start of a bit.
  abbrev pub between : ℕ → ℕ → SerialUsb → Via C × Bus → SerialUsb × (Via C × Bus)
  between i total s (via, bus) =
      (sending i total s, (via_6522_set_cb2_quiet (byte_bit s.current_byte i) via, bus))

  -- After the last bit.
  abbrev pub ended : ℕ → SerialUsb → Via C × Bus → SerialUsb × (Via C × Bus)
  ended total s (via, bus) = (sent total s, (via_6522_set_cb2_quiet 1 via, bus))

  -- The chip leaves a VIA alone that has not shifted.
  waits :
      (i total : ℕ) (s : SerialUsb) (p : Via C × Bus)
      → (via_6522_tick p).0.sr_shift_total ≡ total
      → round (sending i total s, p) ≡ (sending i total s, via_6522_tick p)
  unfolding round tick_phase follow
  waits i total s p h =
      let q = via_6522_tick p in
      ap
        (λ (n : ℕ).
          ((follow n (sending i total s) q.0).0, ((follow n (sending i total s) q.0).1, q.1)))
        {y = 0} (omega (arith, h))

  waits_on :
      (c i total : ℕ) (s : SerialUsb) (p : Via C × Bus)
      → IsActive (view p)
      → p.0.t2c ≡ c
      → p.0.sr_shift_total ≡ total
      → repeat c round (sending i total s, p) ≡ (sending i total s, repeat c via_6522_tick p)
  unfolding repeat
  waits_on zero i total s p a h t = refl
  waits_on (suc c) i total s p a h t =
      let next = tick-counts c p a h in
      ap (repeat c round) (waits i total s p (ap (λ (v : Receiver). v.total) next ∙ t))
      ∙ waits_on c i total s (via_6522_tick p) (subst IsActive (sym next) (counted (view p) a))
          (ap (λ (v : Receiver). v.t2c) next) (ap (λ (v : Receiver). v.total) next ∙ t)
    where
      counted : (v : Receiver) → IsActive v → IsActive (record v { t2c = c })
      counted v a = assumption a

  -- Up to the time-out, whose shift the chip then follows.
  to_shift :
      (i total : ℕ) (s : SerialUsb) (p : Via C × Bus)
      → IsActive (view p)
      → p.0.sr_shift_total ≡ total
      → repeat (p.0.t2c + 1) round (sending i total s, p)
        ≡ tick_phase Phase.shifting (sending i total s) (to_timeout p)
  unfolding round repeat
  to_shift i total s p a t =
      repeat_add p.0.t2c 1 round (sending i total s, p)
      ∙ ap round (waits_on p.0.t2c i total s p a refl t)
      ∙ ap (tick_phase Phase.shifting (sending i total s)) (sym (to_timeout-last p))

  -- A bit that is not the last.
  bit_sent :
      (i total : ℕ) (s : SerialUsb) (q : Via C × Bus)
      → i < 7
      → total + 1 < 2 ^ 32
      → q.0.sr_shift_total ≡ u32 (total + 1)
      → tick_phase Phase.shifting (sending i total s) q ≡ between (i + 1) (total + 1) s q
  unfolding tick_phase
  bit_sent i total s (via, bus) h k t =
      ap (λ (r : SerialUsb × Via C). (r.0, (r.1, bus)))
        (ap (λ (n : ℕ). follow (n - total) (sending i total s) via) t
          ∙ follow-inner i total s via h k)

  last_sent :
      (total : ℕ) (s : SerialUsb) (q : Via C × Bus)
      → total + 1 < 2 ^ 32
      → q.0.sr_shift_total ≡ u32 (total + 1)
      → tick_phase Phase.shifting (sending 7 total s) q ≡ ended (total + 1) s q
  unfolding tick_phase
  last_sent total s (via, bus) k t =
      ap (λ (r : SerialUsb × Via C). (r.0, (r.1, bus)))
        (ap (λ (n : ℕ). follow (n - total) (sending 7 total s) via) t ∙ follow-last total s via k)

  -- The ticks to the time-out that ends a bit, and the VIA then.
  bit_ended :
      (i total : ℕ) (s : SerialUsb) (via : Via C) (bus : Bus)
      → IsActive (view (via, bus))
      → via.sr_shift_total ≡ total
      → repeat (via.t2c + 1) round (between i total s (via, bus))
        ≡ tick_phase Phase.shifting
            (sending i total s)
            (to_timeout (via_6522_set_cb2_quiet (byte_bit s.current_byte i) via, bus))
  unfolding via_6522_set_cb2_quiet
  bit_ended i total s via bus a t =
      let level = byte_bit s.current_byte i in
      to_shift i total s (via_6522_set_cb2_quiet level via, bus) (quiet-IsActive level via bus a) t

  pub rounds :
      (n i total : ℕ) (s : SerialUsb) (via : Via C) (bus : Bus)
      → i + n ≡ 7
      → via.sr_shift_total ≡ total
      → via.sr_bits_remaining ≡ suc n
      → total + suc n < 2 ^ 32
      → IsActive (view (via, bus))
      → repeat (via.t2c + 1 + n * (via.t2l_lo + 1)) round (between i total s (via, bus))
        ≡ ended (total + suc n) s (clock_in (bit_levels (suc n) i s.current_byte) (via, bus))
  unfolding clock_in bit_levels
  rounds zero i total s via bus e t r k a =
      let level = byte_bit s.current_byte i in
      let q = to_timeout (via_6522_set_cb2_quiet level via, bus) in
      let next = bit-received level via bus a (ground (arith, r)) in
      ap (λ (m : ℕ). repeat m round (between i total s (via, bus))) {y = via.t2c + 1} (omega arith)
      ∙ bit_ended i total s via bus a t
      ∙ ap (λ (j : ℕ). tick_phase Phase.shifting (sending j total s) q) {y = 7} (omega arith)
      ∙ last_sent total s q (omega arith) (omega (arith, ap (λ (v : Receiver). v.total) next))
  rounds (suc n) i total s via bus e t r k a =
      let level = byte_bit s.current_byte i in
      let q = to_timeout (via_6522_set_cb2_quiet level via, bus) in
      let next = bit-received level via bus a (ground (arith, r)) in
      let more = n * (via.t2l_lo + 1) in
      ap (λ (m : ℕ). repeat m round (between i total s (via, bus)))
        {y = via.t2c + 1 + (via.t2l_lo + 1 + more)} (omega arith)
      ∙ repeat_add (via.t2c + 1) (via.t2l_lo + 1 + more) round (between i total s (via, bus))
      ∙ ap (repeat (via.t2l_lo + 1 + more) round) (
          bit_ended i total s via bus a t
          ∙ bit_sent i total s q (omega arith) (omega arith)
              (omega (arith, ap (λ (v : Receiver). v.total) next)))
      ∙ ap
          (λ (v : Receiver).
            repeat (v.t2c + 1 + n * (v.t2l_lo + 1)) round (between (i + 1) (total + 1) s q))
          (sym next)
      ∙ rounds n (i + 1) (total + 1) s q.0 q.1 (omega arith)
          (omega (arith, ap (λ (v : Receiver). v.total) next))
          (omega (arith, ap (λ (v : Receiver). v.remaining) next)) (omega arith)
          (subst IsActive (sym next) (received-IsActive level (view (via, bus)) a))
      ∙ ap (λ (x : ℕ). ended x s (clock_in (bit_levels (suc n) (i + 1) s.current_byte) q))
          {y = total + suc (suc n)} (omega arith)

-- A byte with its bits in reverse order.
abbrev pub reversed : ℕ → ℕ
reversed b =
    b % 2 * 128
    + b / 2 % 2 * 64
    + b / 4 % 2 * 32
    + b / 8 % 2 * 16
    + b / 16 % 2 * 8
    + b / 32 % 2 * 4
    + b / 64 % 2 * 2
    + b / 128 % 2

byte_bit_lem : (b k : ℕ) → byte_bit b k ≡ b / 2 ^ k % 2
unfolding byte_bit
byte_bit_lem b k = omega (arith, bit_and_1 (b / 2 ^ k))

with_head : {x y : ℕ} {xs ys : List ℕ} → x ≡ y → xs ≡ ys → x ∷ xs ≡ y ∷ ys
with_head {x} {y} {xs} {ys} p q = ap (λ (t : ℕ). t ∷ xs) p ∙ ap (λ (t : List ℕ). y ∷ t) q

pub levels_reversed : (b : ℕ) → bit_levels 8 0 b ≡ byte_levels (reversed b)
unfolding bit_levels byte_levels
levels_reversed b = with_head (omega (arith, byte_bit_lem b 0)) (
    with_head (omega (arith, byte_bit_lem b 1)) (
      with_head (omega (arith, byte_bit_lem b 2)) (
        with_head (omega (arith, byte_bit_lem b 3)) (
          with_head (omega (arith, byte_bit_lem b 4)) (
            with_head (omega (arith, byte_bit_lem b 5)) (
              with_head (omega (arith, byte_bit_lem b 6))
                (with_head (omega (arith, byte_bit_lem b 7)) refl)))))))
