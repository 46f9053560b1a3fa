-- ===== src/Cpu/Valid/Transfer.antt =====
-- The loads, stores, transfers, stack and flag handlers of emulator/cpu_core.c and the validity of
-- the machine.
use workbench.Common.{refl, arith}
use workbench.Cpu.Flags.{carry, interrupt, decimal, overflow}
use workbench.Cpu.State.{Machine, Hooks}
use workbench.Cpu.Valid.Status.{set_flag-IsStatus, clear_flag-IsStatus, nz_calc-IsStatus}
use workbench.Cpu.Valid.Defs.{
  IsValid, with_status, with_a, with_x, with_y, paid_value-IsValid, putvalue-IsValid,
}
use workbench.Cpu.Transfer
use workbench.Cpu.Valid.Stack.{push8-IsValid, pull8-IsValid, pull8-lt, pull_status-IsValid}

module _ {H : Type 0} where
  pub clc-IsValid : (m : Machine H) → IsValid m → IsValid (Transfer.clc m)
  unfolding Transfer.clc
  clc-IsValid m v = with_status _ m (clear_flag-IsStatus carry _ refl v.status_ok) v

  pub cld-IsValid : (m : Machine H) → IsValid m → IsValid (Transfer.cld m)
  unfolding Transfer.cld
  cld-IsValid m v = with_status _ m (clear_flag-IsStatus decimal _ refl v.status_ok) v

  pub cli-IsValid : (m : Machine H) → IsValid m → IsValid (Transfer.cli m)
  unfolding Transfer.cli
  cli-IsValid m v = with_status _ m (clear_flag-IsStatus interrupt _ refl v.status_ok) v

  pub clv-IsValid : (m : Machine H) → IsValid m → IsValid (Transfer.clv m)
  unfolding Transfer.clv
  clv-IsValid m v = with_status _ m (clear_flag-IsStatus overflow _ refl v.status_ok) v

  pub sec-IsValid : (m : Machine H) → IsValid m → IsValid (Transfer.sec m)
  unfolding Transfer.sec
  sec-IsValid m v = with_status _ m (set_flag-IsStatus carry _ refl v.status_ok) v

  pub sed-IsValid : (m : Machine H) → IsValid m → IsValid (Transfer.sed m)
  unfolding Transfer.sed
  sed-IsValid m v = with_status _ m (set_flag-IsStatus decimal _ refl v.status_ok) v

  pub sei-IsValid : (m : Machine H) → IsValid m → IsValid (Transfer.sei m)
  unfolding Transfer.sei
  sei-IsValid m v = with_status _ m (set_flag-IsStatus interrupt _ refl v.status_ok) v

  pub tax-IsValid : (m : Machine H) → IsValid m → IsValid (Transfer.tax m)
  unfolding Transfer.tax
  tax-IsValid m v = with_x _ _ m v.a_byte (nz_calc-IsStatus _ _ v.status_ok) v

  pub tay-IsValid : (m : Machine H) → IsValid m → IsValid (Transfer.tay m)
  unfolding Transfer.tay
  tay-IsValid m v = with_y _ _ m v.a_byte (nz_calc-IsStatus _ _ v.status_ok) v

  pub tsx-IsValid : (m : Machine H) → IsValid m → IsValid (Transfer.tsx m)
  unfolding Transfer.tsx
  tsx-IsValid m v = with_x _ _ m v.sp_byte (nz_calc-IsStatus _ _ v.status_ok) v

  pub txa-IsValid : (m : Machine H) → IsValid m → IsValid (Transfer.txa m)
  unfolding Transfer.txa
  txa-IsValid m v = with_a _ _ m v.x_byte (nz_calc-IsStatus _ _ v.status_ok) v

  pub tya-IsValid : (m : Machine H) → IsValid m → IsValid (Transfer.tya m)
  unfolding Transfer.tya
  tya-IsValid m v = with_a _ _ m v.y_byte (nz_calc-IsStatus _ _ v.status_ok) v

  pub txs-IsValid : (m : Machine H) → IsValid m → IsValid (Transfer.txs m)
  unfolding Transfer.txs
  txs-IsValid m v = assumption v

  pub nop-IsValid : (m : Machine H) → IsValid m → IsValid (Transfer.nop m)
  unfolding Transfer.nop
  nop-IsValid m v = assumption v

  pub wai-IsValid : (m : Machine H) → IsValid m → IsValid (Transfer.wai m)
  unfolding Transfer.wai
  wai-IsValid m v = assumption v

  pub stp-IsValid : (m : Machine H) → IsValid m → IsValid (Transfer.stp m)
  unfolding Transfer.stp
  stp-IsValid m v = assumption v

module _ {H : Type 0} (hooks : Hooks H) where
  pub lda-IsValid : (m : Machine H) → IsValid m → IsValid (Transfer.lda hooks m)
  unfolding Transfer.lda
  lda-IsValid m v =
      let w = paid_value-IsValid hooks m v in
      with_a _ _ _ (omega arith) (nz_calc-IsStatus _ _ w.status_ok) w

  pub ldx-IsValid : (m : Machine H) → IsValid m → IsValid (Transfer.ldx hooks m)
  unfolding Transfer.ldx
  ldx-IsValid m v =
      let w = paid_value-IsValid hooks m v in
      with_x _ _ _ (omega arith) (nz_calc-IsStatus _ _ w.status_ok) w

  pub ldy-IsValid : (m : Machine H) → IsValid m → IsValid (Transfer.ldy hooks m)
  unfolding Transfer.ldy
  ldy-IsValid m v =
      let w = paid_value-IsValid hooks m v in
      with_y _ _ _ (omega arith) (nz_calc-IsStatus _ _ w.status_ok) w

  pub sta-IsValid : (m : Machine H) → IsValid m → IsValid (Transfer.sta hooks m)
  unfolding Transfer.sta
  sta-IsValid m v = putvalue-IsValid hooks _ m v

  pub stx-IsValid : (m : Machine H) → IsValid m → IsValid (Transfer.stx hooks m)
  unfolding Transfer.stx
  stx-IsValid m v = putvalue-IsValid hooks _ m v

  pub sty-IsValid : (m : Machine H) → IsValid m → IsValid (Transfer.sty hooks m)
  unfolding Transfer.sty
  sty-IsValid m v = putvalue-IsValid hooks _ m v

  pub stz-IsValid : (m : Machine H) → IsValid m → IsValid (Transfer.stz hooks m)
  unfolding Transfer.stz
  stz-IsValid m v = putvalue-IsValid hooks _ m v

  pub pha-IsValid : (m : Machine H) → IsValid m → IsValid (Transfer.pha hooks m)
  unfolding Transfer.pha
  pha-IsValid m v = push8-IsValid hooks _ m v

  pub phx-IsValid : (m : Machine H) → IsValid m → IsValid (Transfer.phx hooks m)
  unfolding Transfer.phx
  phx-IsValid m v = push8-IsValid hooks _ m v

  pub phy-IsValid : (m : Machine H) → IsValid m → IsValid (Transfer.phy hooks m)
  unfolding Transfer.phy
  phy-IsValid m v = push8-IsValid hooks _ m v

  pub php-IsValid : (m : Machine H) → IsValid m → IsValid (Transfer.php hooks m)
  unfolding Transfer.php
  php-IsValid m v = push8-IsValid hooks _ m v

  pub pla-IsValid : (m : Machine H) → IsValid m → IsValid (Transfer.pla hooks m)
  unfolding Transfer.pla
  pla-IsValid m v =
      let w = pull8-IsValid hooks m v in
      with_a _ _ _ (pull8-lt hooks m) (nz_calc-IsStatus _ _ w.status_ok) w

  pub plx-IsValid : (m : Machine H) → IsValid m → IsValid (Transfer.plx hooks m)
  unfolding Transfer.plx
  plx-IsValid m v =
      let w = pull8-IsValid hooks m v in
      with_x _ _ _ (pull8-lt hooks m) (nz_calc-IsStatus _ _ w.status_ok) w

  pub ply-IsValid : (m : Machine H) → IsValid m → IsValid (Transfer.ply hooks m)
  unfolding Transfer.ply
  ply-IsValid m v =
      let w = pull8-IsValid hooks m v in
      with_y _ _ _ (pull8-lt hooks m) (nz_calc-IsStatus _ _ w.status_ok) w

  pub plp-IsValid : (m : Machine H) → IsValid m → IsValid (Transfer.plp hooks m)
  unfolding Transfer.plp
  plp-IsValid m v = pull_status-IsValid hooks m v
