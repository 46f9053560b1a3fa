-- ===== src/Via/Access.antt =====
-- Reads and writes of the VIA's registers: via_6522_read and via_6522_write.
use workbench.Common.{
  ℕ, ◌-◌, Bool, true, false, Option, none, some, List, [], ◌∷◌, if◌then◌else◌, u8, u16, ◌<<◌, ◌>>>◌,
  bit_and, bit_or, nonzero, get_or,
}
use workbench.Bus.{Bus}
use workbench.Via.State.{
  Via, int_sr, int_t1, int_t2, acr_t1_out, acr_has, shifts_in, update_bank_config, update_irq,
  via_clear_ifr, portb_pin_value, porta_pin_value, ora_access,
}

pub data Register : Type 0 where
  orb : Register
  ora : Register
  ddrb : Register
  ddra : Register
  t1cl : Register
  t1ch : Register
  t1ll : Register
  t1lh : Register
  t2cl : Register
  t2ch : Register
  sr : Register
  acr : Register
  pcr : Register
  ifr : Register
  ier : Register
  oranh : Register

-- The registers by the numbers that `VIA_REG_*` give them.
abbrev registers : List Register
registers =
    orb ∷ ora ∷ ddrb ∷ ddra ∷ t1cl ∷ t1ch ∷ t1ll ∷ t1lh ∷ t2cl ∷ t2ch ∷ sr ∷ acr ∷ pcr ∷ ifr ∷ ier
    ∷ []

-- `addr & 0xF`
unfoldable pub register : ℕ → Register
register addr = get_or registers (bit_and addr 0xf) oranh

-- The low and the high byte of a word, as the reads give them.
abbrev low : ℕ → ℕ
low n = u8 (bit_and n 0xff)

abbrev high : ℕ → ℕ
high n = u8 (bit_and (n >>> 8) 0xff)

module _ {C : Type 0} where
  -- A read of SR in shift-in mode primes the next 8 bits.
  abbrev prime : Via C × Bus → Via C × Bus
  prime (s, bus) = if shifts_in s then (record s { sr_bits_remaining = 8 }, bus) else (s, bus)

  unfoldable pub read_register : Register → Via C × Bus → ℕ × (Via C × Bus)
  read_register orb (s, bus) = (portb_pin_value s, (s, bus))
  read_register ora (s, bus) =
      let (s1, bus1) = ora_access (s, bus) in (porta_pin_value s1, (s1, bus1))
  read_register oranh (s, bus) = (porta_pin_value s, (s, bus))
  read_register ddrb (s, bus) = (s.ddrb, (s, bus))
  read_register ddra (s, bus) = (s.ddra, (s, bus))
  read_register t1cl (s, bus) = (low s.t1c, via_clear_ifr int_t1 (s, bus))
  read_register t1ch (s, bus) = (high s.t1c, (s, bus))
  read_register t1ll (s, bus) = (low s.t1l, (s, bus))
  read_register t1lh (s, bus) = (high s.t1l, (s, bus))
  read_register t2cl (s, bus) = (low s.t2c, via_clear_ifr int_t2 (s, bus))
  read_register t2ch (s, bus) = (high s.t2c, (s, bus))
  read_register sr (s, bus) = (s.sr, prime (via_clear_ifr int_sr (s, bus)))
  read_register acr (s, bus) = (s.acr, (s, bus))
  read_register pcr (s, bus) = (s.pcr, (s, bus))
  read_register ifr (s, bus) = (s.ifr, (s, bus))
  read_register ier (s, bus) = (u8 (bit_or s.ier 0x80), (s, bus))

  -- `none` when the chip does not claim the access.
  unfoldable pub via_6522_read : ℕ → Via C × Bus → Option ℕ × (Via C × Bus)
  via_6522_read addr (s, bus) =
      if nonzero bus.viacs
      then (let (v, after) = read_register (register addr) (s, bus) in (some v, after))
      else (none, (s, bus))

  -- T1CH: the counter is loaded and armed, and PB7 starts low.
  abbrev pub loaded_t1 : ℕ → Via C → Via C
  loaded_t1 v s =
      let t1l = u16 (bit_or (bit_and s.t1l 0x00ff) (v << 8)) in
      record s {
        t1l = t1l;
        t1c = t1l;
        t1_running = true;
        t1_loaded = true;
        t1_armed = true;
        t1_reload = false;
      }

  unfoldable pub start_t1 : ℕ → Via C × Bus → Via C × Bus
  start_t1 v (s, bus) =
      let (s1, bus1) = via_clear_ifr int_t1 (loaded_t1 v s, bus) in
      (record s1 { pb7 = if acr_has acr_t1_out s1 then 0 else s1.pb7 }, bus1)

  -- T2CH: the counter is loaded from the latch and the written byte, and armed.
  unfoldable pub start_t2 : ℕ → Via C × Bus → Via C × Bus
  start_t2 v (s, bus) = via_clear_ifr int_t2 (
    record s {
      t2c = u16 (bit_or s.t2l_lo (v << 8));
      t2_running = true;
      t2_loaded = true;
      t2_armed = true;
    },
    bus,
  )

  unfoldable pub write_register : Register → ℕ → Via C × Bus → Via C × Bus
  write_register orb v (s, bus) = update_bank_config (record s { orb = v }, bus)
  write_register ora v (s, bus) =
      let (s1, bus1) = ora_access (s, bus) in (record s1 { ora = v }, bus1)
  write_register oranh v (s, bus) = (record s { ora = v }, bus)
  write_register ddrb v (s, bus) = update_bank_config (record s { ddrb = v }, bus)
  write_register ddra v (s, bus) = (record s { ddra = v }, bus)
  write_register t1cl v (s, bus) = (record s { t1l = u16 (bit_or (bit_and s.t1l 0xff00) v) }, bus)
  write_register t1ll v (s, bus) = (record s { t1l = u16 (bit_or (bit_and s.t1l 0xff00) v) }, bus)
  write_register t1ch v (s, bus) = start_t1 v (s, bus)
  write_register t1lh v (s, bus) =
      via_clear_ifr int_t1 (record s { t1l = u16 (bit_or (bit_and s.t1l 0x00ff) (v << 8)) }, bus)
  write_register t2cl v (s, bus) = (record s { t2l_lo = v }, bus)
  write_register t2ch v (s, bus) = start_t2 v (s, bus)
  write_register sr v (s, bus) = via_clear_ifr int_sr (record s { sr = v }, bus)
  write_register acr v (s, bus) = (record s { acr = v }, bus)
  write_register pcr v (s, bus) = (record s { pcr = v }, bus)
  write_register ifr v (s, bus) =
      update_irq (record s { ifr = bit_and s.ifr (255 - bit_and v 0x7f) }, bus)
  write_register ier v (s, bus) =
      if nonzero (bit_and v 0x80)
      then update_irq (record s { ier = bit_or s.ier (bit_and v 0x7f) }, bus)
      else update_irq (record s { ier = bit_and s.ier (255 - bit_and v 0x7f) }, bus)

  -- Whether the chip claims the write.
  unfoldable pub via_6522_write : ℕ → ℕ → Via C × Bus → Bool × (Via C × Bus)
  via_6522_write addr v (s, bus) =
      if nonzero bus.viacs
      then (true, write_register (register addr) v (s, bus))
      else (false, (s, bus))
