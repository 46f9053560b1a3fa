-- ===== src/Via/State.antt =====
-- The state of the VIA, struct via_6522_state of emulator/chips/via_6522.h, and the helpers of
-- via_6522.c that its operations share. `C` is what the driver of the PORTB inputs points to.
use workbench.Common.{
  ℕ, ◌-◌, ◌==◌, Bool, Option, none, some, if◌then◌else◌, u8, bit_and, bit_or, nonzero,
}
use workbench.Bus.{Bus}

pub record Via (C : Type 0) : Type 0 where
  pub orb : ℕ
  pub ora : ℕ
  pub ddrb : ℕ
  pub ddra : ℕ
  pub t1c : ℕ
  pub t1l : ℕ
  pub t2c : ℕ
  pub t2l_lo : ℕ
  pub sr : ℕ
  pub acr : ℕ
  pub pcr : ℕ
  pub ifr : ℕ
  pub ier : ℕ
  pub pb7 : ℕ
  pub t1_running : Bool
  pub t2_running : Bool
  pub t1_loaded : Bool
  pub t2_loaded : Bool
  pub t1_reload : Bool
  pub t1_armed : Bool
  pub t2_armed : Bool
  pub sr_bits_remaining : ℕ
  pub sr_shift_total : ℕ
  pub cb2_in : ℕ
  pub prev_cb2 : ℕ
  pub ca2_in : ℕ
  pub prev_res : ℕ
  pub porta_input : ℕ
  pub portb_input : Option (C → ℕ)
  pub portb_input_ctx : C

-- The bits of IFR and IER.
abbrev pub int_ca2 : ℕ
int_ca2 = 0x01

abbrev pub int_sr : ℕ
int_sr = 0x04

abbrev pub int_cb2 : ℕ
int_cb2 = 0x08

abbrev pub int_t2 : ℕ
int_t2 = 0x20

abbrev pub int_t1 : ℕ
int_t1 = 0x40

-- The bits of ACR.
abbrev pub acr_t1_cont : ℕ
acr_t1_cont = 0x40

abbrev pub acr_t1_out : ℕ
acr_t1_out = 0x80

abbrev pub acr_sr_mode : ℕ
acr_sr_mode = 0x1c

abbrev pub acr_sr_in_t2 : ℕ
acr_sr_in_t2 = 0x04

-- The fields of PCR.
abbrev pub pcr_cb2_mask : ℕ
pcr_cb2_mask = 0xe0

abbrev pub pcr_cb2_ind_neg_e : ℕ
pcr_cb2_ind_neg_e = 0x20

abbrev pub pcr_ca2_mask : ℕ
pcr_ca2_mask = 0x0e

abbrev pub pcr_ca2_pos_e : ℕ
pcr_ca2_pos_e = 0x04

module _ {C : Type 0} where
  -- `acr & bit` as a condition.
  abbrev pub acr_has : ℕ → Via C → Bool
  acr_has b s = nonzero (bit_and s.acr b)

  abbrev pub shifts_in : Via C → Bool
  shifts_in s = bit_and s.acr acr_sr_mode == acr_sr_in_t2

  unfoldable pub update_bank_config : Via C × Bus → Via C × Bus
  update_bank_config (s, bus) =
      (s, record bus { bank_config = bit_and (bit_and s.orb s.ddrb) 0x1f })

  -- The enabled interrupts that are flagged.
  abbrev pub pending : Via C → ℕ
  pending s = bit_and (bit_and s.ifr s.ier) 0x7f

  unfoldable pub update_irq : Via C × Bus → Via C × Bus
  update_irq (s, bus) =
      let high = nonzero (pending s) in
      (
        record s { ifr = if high then bit_or s.ifr 0x80 else bit_and s.ifr 0x7f },
        record bus { irq = if high then 1 else 0 },
      )

  unfoldable pub via_set_ifr : ℕ → Via C × Bus → Via C × Bus
  via_set_ifr mask (s, bus) = update_irq (record s { ifr = bit_or s.ifr mask }, bus)

  unfoldable pub via_clear_ifr : ℕ → Via C × Bus → Via C × Bus
  via_clear_ifr mask (s, bus) = update_irq (record s { ifr = bit_and s.ifr (255 - mask) }, bus)

  -- The levels on PORTB's inputs, where something drives them.
  abbrev with_driven : Option (C → ℕ) → Via C → ℕ → ℕ
  with_driven none s v = v
  with_driven (some input) s v = bit_or v (u8 (bit_and (input s.portb_input_ctx) (255 - s.ddrb)))

  unfoldable pub portb_pin_value : Via C → ℕ
  portb_pin_value s =
      let v = with_driven s.portb_input s (bit_and s.orb s.ddrb) in
      if acr_has acr_t1_out s
      then u8 (bit_or (bit_and v 0x7f) (if nonzero s.pb7 then 0x80 else 0))
      else v

  unfoldable pub porta_pin_value : Via C → ℕ
  porta_pin_value s = u8 (bit_or (bit_and s.ora s.ddra) (bit_and s.porta_input (255 - s.ddra)))

  unfoldable pub ora_access : Via C × Bus → Via C × Bus
  ora_access (s, bus) = if bit_and s.pcr 0x0a == 0 then via_clear_ifr int_ca2 (s, bus) else (s, bus)
