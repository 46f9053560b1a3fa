-- ===== src/Via/Receiver.antt =====
-- What the ticks of emulator/chips/via_6522.c do to T2 and the shift register in shift-in mode,
-- while T1 and the interrupt line go their own way.
use workbench.Common.{digit-bit_and}
use workbench.Common.{inr}
use workbench.Common.{digit-bit_or}
use workbench.Common.{inl}
use workbench.Common.{Bool-cases}
use workbench.Common.{
  ℕ, zero, suc, ◌+◌, ◌-◌, ◌≡◌, ◌∙◌, refl, ap, sym, subst, Bool, true, false, ◌==◌, ◌&&◌, not, ltb,
  if◌then◌else◌, u8, u32, ◌<<◌, bit_and, bit_or, nonzero, digit, arith, repeat, picked, passed,
}
use workbench.Bus.{Bus}
use workbench.Via.State.{
  Via, int_t2, int_sr, acr_t1_cont, acr_t1_out, acr_has, acr_sr_mode, acr_sr_in_t2, shifts_in,
  via_set_ifr, update_irq,
}
use workbench.Via.Timers.{
  via_6522_tick, tick_t1, t1_timeout, tick_t2, t2_shifting, shift_in, shifted,
}

-- The part of the VIA and the bus that the reception of a bit depends on.
pub record Receiver : Type 0 where
  pub running : Bool
  pub loaded : Bool
  pub acr : ℕ
  pub t2c : ℕ
  pub t2l_lo : ℕ
  pub sr : ℕ
  pub remaining : ℕ
  pub total : ℕ
  pub cb2 : ℕ
  pub due : ℕ
  pub res : ℕ
  pub prev_res : ℕ

-- T2 counts CPU cycles in shift-in mode, at least a cycle after its load and with no edge of RES.
pub record IsActive (v : Receiver) : Type 0 where
  pub running : v.running ≡ true
  pub loaded : v.loaded ≡ false
  pub mode : (bit_and v.acr acr_sr_mode == acr_sr_in_t2) ≡ true
  pub due : nonzero v.due ≡ true
  pub res : v.res ≡ v.prev_res

-- A shift where a bit is expected.
unfoldable pub shift_bit : Receiver → Receiver
shift_bit v =
    if ltb 0 v.remaining
    then record v {
      sr = u8 (bit_or (v.sr << 1) (bit_and v.cb2 1));
      remaining = v.remaining - 1;
      total = u32 (v.total + 1);
    }
    else v

-- The time-out of T2.
unfoldable pub timed_out : Receiver → Receiver
timed_out v = record (shift_bit v) { t2c = v.t2l_lo }

no_edge : (a b : ℕ) → a ≡ b → (nonzero a && not (nonzero b)) ≡ false
no_edge a b h = ground (arith, h)

module _ {C : Type 0} where
  abbrev pub view : Via C × Bus → Receiver
  view (s, bus) = record {
    running = s.t2_running;
    loaded = s.t2_loaded;
    acr = s.acr;
    t2c = s.t2c;
    t2l_lo = s.t2l_lo;
    sr = s.sr;
    remaining = s.sr_bits_remaining;
    total = s.sr_shift_total;
    cb2 = s.cb2_in;
    due = bus.cpu_cycle_due;
    res = bus.res;
    prev_res = s.prev_res;
  }

  if-view :
      (b : Bool) (v : Receiver) (p q : Via C × Bus)
      → view p ≡ v
      → view q ≡ v
      → view (if b then p else q) ≡ v
  if-view true v p q h k = h
  if-view false v p q h k = k

  t1_timeout-view : (p : Via C × Bus) → view (t1_timeout p) ≡ view p
  unfolding t1_timeout via_set_ifr update_irq
  t1_timeout-view (s, bus) =
      if-view (acr_has acr_t1_cont s) (view (s, bus)) _ _
        (if-view (acr_has acr_t1_out s) (view (s, bus)) _ _ refl refl)
        (if-view s.t1_armed (view (s, bus)) _ _
          (if-view (acr_has acr_t1_out s) (view (s, bus)) _ _ refl refl) refl)

  tick_t1-view : (p : Via C × Bus) → view (tick_t1 p) ≡ view p
  unfolding tick_t1
  tick_t1-view (s, bus) = if-view (not s.t1_running) (view (s, bus)) _ _ refl (
      if-view s.t1_loaded (view (s, bus)) _ _ refl (
        if-view s.t1_reload (view (s, bus)) _ _ refl
          (if-view (s.t1c == 0) (view (s, bus)) _ _ (t1_timeout-view (s, bus)) refl)))

  shift_in-view : (p : Via C × Bus) → view (shift_in p) ≡ shift_bit (view p)
  unfolding shift_in shift_bit via_set_ifr update_irq
  shift_in-view (s, bus) = by_expected (ltb 0 s.sr_bits_remaining)
    where
      by_expected :
          (b : Bool)
          → view (
              if b
              then (if (shifted s).sr_bits_remaining == 0
                  then via_set_ifr int_sr (shifted s, bus)
                  else (shifted s, bus))
              else (s, bus))
            ≡ (if b then view (shifted s, bus) else view (s, bus))
      by_expected true =
          if-view ((shifted s).sr_bits_remaining == 0) (view (shifted s, bus)) _ _ refl refl
      by_expected false = refl

  -- A cycle of T2 while it counts, and the one on which it times out.
  t2_counts :
      (c : ℕ) (s : Via C) (bus : Bus)
      → s.t2c ≡ suc c
      → view (t2_shifting (s, bus)) ≡ record (view (s, bus)) { t2c = c }
  unfolding t2_shifting
  t2_counts c s bus h =
      ap view (passed (s.t2c == 0) _ (record s { t2c = s.t2c - 1 }, bus) (ground (arith, h)))
      ∙ ap (λ (n : ℕ). record (view (s, bus)) { t2c = n }) {y = c} (omega (arith, h))

  t2_times_out :
      (s : Via C) (bus : Bus) → s.t2c ≡ 0 → view (t2_shifting (s, bus)) ≡ timed_out (view (s, bus))
  unfolding t2_shifting timed_out via_set_ifr update_irq shift_bit
  t2_times_out s bus h =
      let p = shift_in (via_set_ifr int_t2 (s, bus)) in
      let shifts = shift_in-view (via_set_ifr int_t2 (s, bus)) in
      ap view (picked (s.t2c == 0) (record p.0 { t2c = p.0.t2l_lo }, p.1) _ (ground (arith, h)))
      ∙ ap (λ (v : Receiver). record v { t2c = v.t2l_lo }) shifts
      ∙ reload (ltb 0 s.sr_bits_remaining) _ (view (s, bus)) refl
    where
      reload :
          (b : Bool) (v w : Receiver)
          → v.t2l_lo ≡ w.t2l_lo
          → record (if b then v else w) { t2c = (if b then v else w).t2l_lo }
            ≡ record (if b then v else w) { t2c = w.t2l_lo }
      reload true v w e = ap (λ (n : ℕ). record v { t2c = n }) e
      reload false v w e = refl

  -- A tick on a CPU cycle is one of T1 and one of T2.
  tick-t2 : (p : Via C × Bus) → IsActive (view p) → via_6522_tick p ≡ t2_shifting (tick_t1 p)
  unfolding via_6522_tick tick_t2
  tick-t2 (s, bus) a =
      ap clocked
        (passed (nonzero bus.res && not (nonzero s.prev_res)) _ (s, bus) (no_edge _ _ a.res))
      ∙ picked (nonzero bus.cpu_cycle_due) _ _ a.due
      ∙ ap (λ (r : ℕ). tick_t2 (tick_t1 (record s { prev_res = r }, bus))) a.res
      ∙ passed (not q.0.t2_running) _ _
          (ap (λ (v : Receiver). not v.running) same ∙ ap not a.running)
      ∙ passed q.0.t2_loaded _ _ (ap (λ (v : Receiver). v.loaded) same ∙ a.loaded)
      ∙ picked (shifts_in q.0) _ _
          (ap (λ (v : Receiver). bit_and v.acr acr_sr_mode == acr_sr_in_t2) same ∙ a.mode)
    where
      q : Via C × Bus
      q = tick_t1 (s, bus)

      same : view q ≡ view (s, bus)
      same = tick_t1-view (s, bus)

      clocked : Via C × Bus → Via C × Bus
      clocked (s1, bus1) =
          let s2 = record s1 { prev_res = bus1.res } in
          if nonzero bus1.cpu_cycle_due then tick_t2 (tick_t1 (s2, bus1)) else (s2, bus1)

  pub tick-counts :
      (c : ℕ) (p : Via C × Bus)
      → IsActive (view p)
      → p.0.t2c ≡ suc c
      → view (via_6522_tick p) ≡ record (view p) { t2c = c }
  tick-counts c p a h =
      let q = tick_t1 p in
      ap view (tick-t2 p a)
      ∙ t2_counts c q.0 q.1 (ap (λ (v : Receiver). v.t2c) (tick_t1-view p) ∙ h)
      ∙ ap (λ (v : Receiver). record v { t2c = c }) (tick_t1-view p)

  pub tick-times_out :
      (p : Via C × Bus)
      → IsActive (view p)
      → p.0.t2c ≡ 0
      → view (via_6522_tick p) ≡ timed_out (view p)
  tick-times_out p a h =
      let q = tick_t1 p in
      ap view (tick-t2 p a)
      ∙ t2_times_out q.0 q.1 (ap (λ (v : Receiver). v.t2c) (tick_t1-view p) ∙ h)
      ∙ ap timed_out (tick_t1-view p)

  -- The cycles before the time-out.
  pub ticks-count :
      (c : ℕ) (p : Via C × Bus)
      → IsActive (view p)
      → p.0.t2c ≡ c
      → view (repeat c via_6522_tick p) ≡ record (view p) { t2c = 0 }
  unfolding repeat
  ticks-count zero p a h = ap (λ (n : ℕ). record (view p) { t2c = n }) h
  ticks-count (suc c) p a h =
      let first = tick-counts c p a h in
      ticks-count c (via_6522_tick p) (subst IsActive (sym first) (assumption a))
        (ap (λ (v : Receiver). v.t2c) first)
      ∙ ap (λ (v : Receiver). record v { t2c = 0 }) first

  int_sr-flagged : (s : Via C) (bus : Bus) → digit (via_set_ifr int_sr (s, bus)).0.ifr 2 ≡ 1
  unfolding via_set_ifr update_irq
  int_sr-flagged s bus =
      let flags = bit_or s.ifr int_sr in
      elim (Bool-cases (nonzero (bit_and (bit_and flags s.ier) 0x7f))) [
        | inl h ↦ rw h (omega (arith, digit-bit_or 2 s.ifr 4, digit-bit_or 2 flags 0x80))
        | inr h ↦ rw h (omega (arith, digit-bit_or 2 s.ifr 4, digit-bit_and 2 flags 0x7f))
      ]

  shift_in-flagged :
      (s : Via C) (bus : Bus) → s.sr_bits_remaining ≡ 1 → digit (shift_in (s, bus)).0.ifr 2 ≡ 1
  unfolding shift_in
  shift_in-flagged s bus h =
      ap (λ (p : Via C × Bus). digit p.0.ifr 2)
        (picked (ltb 0 s.sr_bits_remaining) _ _ (ground (arith, h))
          ∙ picked ((shifted s).sr_bits_remaining == 0) _ _ (ground (arith, h)))
      ∙ int_sr-flagged (shifted s) bus

  -- The time-out with the last expected bit sets the flag of SR.
  pub tick-flagged :
      (p : Via C × Bus)
      → IsActive (view p)
      → p.0.t2c ≡ 0
      → p.0.sr_bits_remaining ≡ 1
      → digit (via_6522_tick p).0.ifr 2 ≡ 1
  unfolding t2_shifting via_set_ifr update_irq
  tick-flagged p a h k =
      let q = tick_t1 p in
      let flagged = via_set_ifr int_t2 q in
      ap (λ (r : Via C × Bus). digit r.0.ifr 2)
        (tick-t2 p a
          ∙ picked (q.0.t2c == 0) _ _
              (ap (λ (v : Receiver). v.t2c == 0) (tick_t1-view p) ∙ ap (λ (n : ℕ). n == 0) h))
      ∙ shift_in-flagged flagged.0 flagged.1
          (ap (λ (v : Receiver). v.remaining) (tick_t1-view p) ∙ k)
