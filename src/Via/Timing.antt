-- ===== src/Via/Timing.antt =====
-- When timer 1 of emulator/chips/via_6522.c times out, in clock cycles.
use workbench.Common.{
  ℕ, zero, suc, ◌+◌, ◌-◌, ◌≤◌, ◌≡◌, refl, ap, ◌∙◌, Bool, true, false, ◌==◌, not, if◌then◌else◌,
  nonzero, arith, repeat, repeat_add, bit_xor, bit_and,
}
use workbench.Bus.{Bus}
use workbench.Via.State.{
  Via, int_t1, acr_has, acr_t1_cont, acr_t1_out, via_set_ifr, via_clear_ifr, update_irq,
}
use workbench.Via.Access.{start_t1}
use workbench.Via.Timers.{tick_t1, t1_timeout}

sub_self : (n : ℕ) → n - n ≡ 0
sub_self n = omega arith

module _ {C : Type 0} where
  -- T1 counting, at `c`.
  abbrev pub counting : ℕ → Via C → Via C
  counting c s = record s { t1_running = true; t1_loaded = false; t1_reload = false; t1c = c }

  -- T1 on the cycle on which it has rolled over.
  abbrev pub rolled_over : Via C → Via C
  rolled_over s = record s { t1_running = true; t1_loaded = false; t1_reload = true; t1c = 0xffff }

  counts : (c : ℕ) (s : Via C) (bus : Bus) → tick_t1 (counting (suc c) s, bus) ≡ (counting c s, bus)
  unfolding tick_t1
  counts c s bus = simp (positive, before) refl
    where
      positive : (suc c == 0) ≡ false
      positive = ground arith

      before : suc c - 1 ≡ c
      before = omega arith

  counts_down :
      (n c : ℕ) (s : Via C) (bus : Bus)
      → n ≤ c
      → repeat n tick_t1 (counting c s, bus) ≡ (counting (c - n) s, bus)
  unfolding repeat
  counts_down zero c s bus h = simp less refl
    where
      less : c - 0 ≡ c
      less = omega arith
  counts_down (suc n) zero s bus h = absurd (omega arith)
  counts_down (suc n) (suc c) s bus h =
      simp (counts c s bus, less) (counts_down n c s bus (omega arith))
    where
      less : suc c - suc n ≡ c - n
      less = omega arith

  -- From the roll-over, the latch is loaded and counted down to 0.
  reloads :
      (n : ℕ) (s : Via C) (bus : Bus)
      → n ≤ s.t1l
      → repeat (suc n) tick_t1 (rolled_over s, bus) ≡ (counting (s.t1l - n) s, bus)
  unfolding repeat tick_t1
  reloads n s bus h = counts_down n s.t1l s bus h

  at_zero : (s : Via C) (bus : Bus) → tick_t1 (counting 0 s, bus) ≡ t1_timeout (counting 0 s, bus)
  unfolding tick_t1
  at_zero s bus = refl

  -- One cycle after the count has come to 0 the timer times out.
  timeout_after :
      (c : ℕ) (s : Via C) (bus : Bus) (p : Via C × Bus)
      → repeat (suc c) tick_t1 p ≡ (counting 0 s, bus)
      → repeat (c + 2) tick_t1 p ≡ t1_timeout (counting 0 s, bus)
  unfolding repeat
  timeout_after c s bus p h =
      ap (λ (t : ℕ). repeat t tick_t1 p) one_more
      ∙ repeat_add (suc c) 1 tick_t1 p
      ∙ ap (λ (q : Via C × Bus). repeat 1 tick_t1 q) h
      ∙ at_zero s bus
    where
      one_more : c + 2 ≡ suc c + 1
      one_more = omega arith

  -- PB7 toggles with the flag where ACR puts T1 on it.
  abbrev pub toggled : Via C × Bus → Via C × Bus
  toggled (s, bus) =
      if acr_has acr_t1_out s then (record s { pb7 = bit_xor s.pb7 1 }, bus) else (s, bus)

  continuous :
      (s : Via C) (bus : Bus)
      → acr_has acr_t1_cont s ≡ true
      → t1_timeout (counting 0 s, bus) ≡ toggled (via_set_ifr int_t1 (rolled_over s, bus))
  unfolding t1_timeout
  continuous s bus cont = simp cont refl

  -- The single time-out of one-shot mode.
  abbrev pub disarmed : Via C × Bus → Via C × Bus
  disarmed (s, bus) =
      let (s1, bus1) = via_set_ifr int_t1 (record (rolled_over s) { t1_armed = false }, bus) in
      if acr_has acr_t1_out s1 then (record s1 { pb7 = 1 }, bus1) else (s1, bus1)

  single :
      (s : Via C) (bus : Bus)
      → acr_has acr_t1_cont s ≡ false
      → s.t1_armed ≡ true
      → t1_timeout (counting 0 s, bus) ≡ disarmed (s, bus)
  unfolding t1_timeout
  single s bus once armed = simp (once, armed) refl

  -- A counter that has just been written holds for a cycle.
  abbrev written : Via C → Via C
  written s = record s { t1_running = true; t1_loaded = true; t1_reload = false; t1c = s.t1l }

  released :
      (n : ℕ) (s : Via C) (bus : Bus)
      → n ≤ s.t1l
      → repeat (suc n) tick_t1 (written s, bus) ≡ (counting (s.t1l - n) s, bus)
  unfolding repeat tick_t1
  released n s bus h = counts_down n s.t1l s bus h

  -- In free-run mode T1 repeats itself every latch + 2 cycles: nothing but the counter changes on
  -- the first latch + 1 cycles after a roll-over, which count the latch down to 0, and the next
  -- cycle rolls over again, sets the flag of T1, and toggles PB7 if ACR puts T1 there.
  pub free_run :
      (s : Via C) (bus : Bus)
      → acr_has acr_t1_cont s ≡ true
      → ((n : ℕ)
          → n ≤ s.t1l
          → repeat (suc n) tick_t1 (rolled_over s, bus) ≡ (counting (s.t1l - n) s, bus))
        × (repeat (s.t1l + 2) tick_t1 (rolled_over s, bus)
            ≡ toggled (via_set_ifr int_t1 (rolled_over s, bus)))
  free_run s bus cont = ((λ n h. reloads n s bus h), period)
    where
      period :
          repeat (s.t1l + 2) tick_t1 (rolled_over s, bus)
          ≡ toggled (via_set_ifr int_t1 (rolled_over s, bus))
      period =
          timeout_after s.t1l s bus (rolled_over s, bus)
            (reloads s.t1l s bus (omega arith)
              ∙ ap (λ (c : ℕ). (counting c s, bus)) (sub_self s.t1l))
          ∙ continuous s bus cont

  -- After a write to T1CH in one-shot mode, with the latch at `N`: nothing but the counter changes
  -- on the first N + 1 cycles, which hold it for one and count it down to 0; the next cycle sets
  -- the flag of T1, disarms the timer, and raises PB7 if ACR puts T1 there.
  pub one_shot :
      (d : ℕ) (s : Via C) (bus : Bus)
      → acr_has acr_t1_cont s ≡ false
      → ((n : ℕ)
          → n ≤ (start_t1 d (s, bus)).0.t1l
          → repeat (suc n) tick_t1 (start_t1 d (s, bus)) ≡ (
            counting ((start_t1 d (s, bus)).0.t1l - n) (start_t1 d (s, bus)).0,
            (start_t1 d (s, bus)).1,
          ))
        × (repeat ((start_t1 d (s, bus)).0.t1l + 2) tick_t1 (start_t1 d (s, bus))
            ≡ disarmed (start_t1 d (s, bus)))
  unfolding start_t1 via_clear_ifr update_irq
  one_shot d s bus once =
      let q = start_t1 d (s, bus) in
      (
        (λ n h. released n q.0 q.1 h),
        timeout_after q.0.t1l q.0 q.1 q (
              released q.0.t1l q.0 q.1 (omega arith)
              ∙ ap (λ (c : ℕ). (counting c q.0, q.1)) (sub_self q.0.t1l))
            ∙ single q.0 q.1 once refl,
      )

  -- What a cycle leaves alone when T1 is not armed.
  record Silent (s : Via C) (bus : Bus) (p : Via C × Bus) : Type 0 where
    flags : p.0.ifr ≡ s.ifr
    control : p.0.acr ≡ s.acr
    unarmed : p.0.t1_armed ≡ false
    line : p.1 ≡ bus

  if-Silent :
      (b : Bool) (s : Via C) (bus : Bus) (p q : Via C × Bus)
      → Silent s bus p
      → Silent s bus q
      → Silent s bus (if b then p else q)
  if-Silent true s bus p q v w = v
  if-Silent false s bus p q v w = w

  t1_timeout-Silent :
      (s : Via C) (bus : Bus)
      → acr_has acr_t1_cont s ≡ false
      → s.t1_armed ≡ false
      → Silent s bus (t1_timeout (s, bus))
  unfolding t1_timeout
  t1_timeout-Silent s bus once unarmed =
      simp (once, unarmed) (record { flags = refl; control = refl; unarmed = refl; line = refl })

  tick_t1-Silent :
      (s : Via C) (bus : Bus)
      → acr_has acr_t1_cont s ≡ false
      → s.t1_armed ≡ false
      → Silent s bus (tick_t1 (s, bus))
  unfolding tick_t1
  tick_t1-Silent s bus once unarmed = if-Silent (not s.t1_running) s bus _ _ same (
      if-Silent s.t1_loaded s bus _ _ same (
        if-Silent s.t1_reload s bus _ _ same
          (if-Silent (s.t1c == 0) s bus _ _ (t1_timeout-Silent s bus once unarmed) same)))
    where
      same :
          {c : ℕ} {loaded reload : Bool}
          → Silent s bus (record s { t1c = c; t1_loaded = loaded; t1_reload = reload }, bus)
      same = record { flags = refl; control = refl; unarmed = unarmed; line = refl }

  -- In one-shot mode a timer that is not armed, as it is after its time-out, raises no further
  -- interrupt however long it counts on.
  pub flags_once :
      (k : ℕ) (s : Via C) (bus : Bus)
      → acr_has acr_t1_cont s ≡ false
      → s.t1_armed ≡ false
      → ((repeat k tick_t1 (s, bus)).0.ifr ≡ s.ifr) × ((repeat k tick_t1 (s, bus)).1 ≡ bus)
  unfolding repeat
  flags_once zero s bus once unarmed = (refl, refl)
  flags_once (suc k) s bus once unarmed =
      let p = tick_t1 (s, bus) in
      let v = tick_t1-Silent s bus once unarmed in
      let rest =
        flags_once k p.0 p.1 (ap (λ (acr : ℕ). nonzero (bit_and acr acr_t1_cont)) v.control ∙ once)
          v.unarmed in
      (rest.0 ∙ v.flags, rest.1 ∙ v.line)
