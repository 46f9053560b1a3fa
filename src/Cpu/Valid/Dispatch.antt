-- ===== src/Cpu/Valid/Dispatch.antt =====
-- The handlers of the dispatch tables of emulator/cpu_core.c and the validity of the machine.
use workbench.Common.{arith}
use workbench.Cpu.State.{Machine, Hooks}
use workbench.Cpu.Tables.{
  Op, adc, adc_65c02, sbc, sbc_65c02, cmp, cpx, cpy, inx, iny, dex, dey, and, ora, eor, asl, rol,
  lsr, ror, inc, dec, bit, bit_imm, trb, tsb, rmb, smb, bcc, bcs, bne, beq, bpl, bmi, bvc, bvs, bra,
  jmp, bbr, bbs, jsr, rts, brk_insn, brk_insn_65c02, rti, clc, cld, cli, clv, sec, sed, sei, tax,
  tay, tsx, txa, txs, tya, nop, wai, stp, lda, ldx, ldy, sta, stx, sty, stz, pha, phx, phy, php,
  pla, plx, ply, plp, lax, sax, dcp, isb, slo, rla, sre, rra,
}
use workbench.Cpu.Undocumented
use workbench.Cpu.Undocumented.{refund}
use workbench.Cpu.Dispatch.{run_op}
use workbench.Cpu.Valid.Defs.{IsValid, putvalue-IsValid}
use workbench.Cpu.Valid.Arith
use workbench.Cpu.Valid.Logic
use workbench.Cpu.Valid.Branch
use workbench.Cpu.Valid.Transfer

module _ {H : Type 0} where
  refund-IsValid : (m : Machine H) → IsValid m → IsValid (refund m)
  unfolding refund
  refund-IsValid m v = ground (arith, v)

module _ {H : Type 0} (hooks : Hooks H) where
  lax-IsValid : (m : Machine H) → IsValid m → IsValid (Undocumented.lax hooks m)
  unfolding Undocumented.lax
  lax-IsValid m v = Transfer.ldx-IsValid hooks _ (Transfer.lda-IsValid hooks m v)

  sax-IsValid : (m : Machine H) → IsValid m → IsValid (Undocumented.sax hooks m)
  unfolding Undocumented.sax
  sax-IsValid m v =
      refund-IsValid _
        (putvalue-IsValid hooks _ _ (Transfer.stx-IsValid hooks _ (Transfer.sta-IsValid hooks m v)))

  dcp-IsValid : (m : Machine H) → IsValid m → IsValid (Undocumented.dcp hooks m)
  unfolding Undocumented.dcp
  dcp-IsValid m v = refund-IsValid _ (Arith.cmp-IsValid hooks _ (Logic.dec-IsValid hooks m v))

  isb-IsValid : (m : Machine H) → IsValid m → IsValid (Undocumented.isb hooks m)
  unfolding Undocumented.isb
  isb-IsValid m v = refund-IsValid _ (Arith.sbc-IsValid hooks _ (Logic.inc-IsValid hooks m v))

  slo-IsValid : (m : Machine H) → IsValid m → IsValid (Undocumented.slo hooks m)
  unfolding Undocumented.slo
  slo-IsValid m v = refund-IsValid _ (Logic.ora-IsValid hooks _ (Logic.asl-IsValid hooks m v))

  rla-IsValid : (m : Machine H) → IsValid m → IsValid (Undocumented.rla hooks m)
  unfolding Undocumented.rla
  rla-IsValid m v = refund-IsValid _ (Logic.and-IsValid hooks _ (Logic.rol-IsValid hooks m v))

  sre-IsValid : (m : Machine H) → IsValid m → IsValid (Undocumented.sre hooks m)
  unfolding Undocumented.sre
  sre-IsValid m v = refund-IsValid _ (Logic.eor-IsValid hooks _ (Logic.lsr-IsValid hooks m v))

  rra-IsValid : (m : Machine H) → IsValid m → IsValid (Undocumented.rra hooks m)
  unfolding Undocumented.rra
  rra-IsValid m v = refund-IsValid _ (Arith.adc-IsValid hooks _ (Logic.ror-IsValid hooks m v))

  pub run_op-IsValid : (op : Op) (m : Machine H) → IsValid m → IsValid (run_op hooks op m)
  unfolding run_op
  run_op-IsValid adc = Arith.adc-IsValid hooks
  run_op-IsValid adc_65c02 = Arith.adc_65c02-IsValid hooks
  run_op-IsValid sbc = Arith.sbc-IsValid hooks
  run_op-IsValid sbc_65c02 = Arith.sbc_65c02-IsValid hooks
  run_op-IsValid cmp = Arith.cmp-IsValid hooks
  run_op-IsValid cpx = Arith.cpx-IsValid hooks
  run_op-IsValid cpy = Arith.cpy-IsValid hooks
  run_op-IsValid inx = Logic.inx-IsValid
  run_op-IsValid iny = Logic.iny-IsValid
  run_op-IsValid dex = Logic.dex-IsValid
  run_op-IsValid dey = Logic.dey-IsValid
  run_op-IsValid and = Logic.and-IsValid hooks
  run_op-IsValid ora = Logic.ora-IsValid hooks
  run_op-IsValid eor = Logic.eor-IsValid hooks
  run_op-IsValid asl = Logic.asl-IsValid hooks
  run_op-IsValid rol = Logic.rol-IsValid hooks
  run_op-IsValid lsr = Logic.lsr-IsValid hooks
  run_op-IsValid ror = Logic.ror-IsValid hooks
  run_op-IsValid inc = Logic.inc-IsValid hooks
  run_op-IsValid dec = Logic.dec-IsValid hooks
  run_op-IsValid bit = Logic.bit-IsValid hooks
  run_op-IsValid bit_imm = Logic.bit_imm-IsValid hooks
  run_op-IsValid trb = Logic.trb-IsValid hooks
  run_op-IsValid tsb = Logic.tsb-IsValid hooks
  run_op-IsValid rmb = Logic.rmb-IsValid hooks
  run_op-IsValid smb = Logic.smb-IsValid hooks
  run_op-IsValid bcc = Branch.bcc-IsValid
  run_op-IsValid bcs = Branch.bcs-IsValid
  run_op-IsValid bne = Branch.bne-IsValid
  run_op-IsValid beq = Branch.beq-IsValid
  run_op-IsValid bpl = Branch.bpl-IsValid
  run_op-IsValid bmi = Branch.bmi-IsValid
  run_op-IsValid bvc = Branch.bvc-IsValid
  run_op-IsValid bvs = Branch.bvs-IsValid
  run_op-IsValid bra = Branch.bra-IsValid
  run_op-IsValid jmp = Branch.jmp-IsValid
  run_op-IsValid bbr = Branch.bbr-IsValid hooks
  run_op-IsValid bbs = Branch.bbs-IsValid hooks
  run_op-IsValid jsr = Branch.jsr-IsValid hooks
  run_op-IsValid rts = Branch.rts-IsValid hooks
  run_op-IsValid brk_insn = Branch.brk_insn-IsValid hooks
  run_op-IsValid brk_insn_65c02 = Branch.brk_insn_65c02-IsValid hooks
  run_op-IsValid rti = Branch.rti-IsValid hooks
  run_op-IsValid clc = Transfer.clc-IsValid
  run_op-IsValid cld = Transfer.cld-IsValid
  run_op-IsValid cli = Transfer.cli-IsValid
  run_op-IsValid clv = Transfer.clv-IsValid
  run_op-IsValid sec = Transfer.sec-IsValid
  run_op-IsValid sed = Transfer.sed-IsValid
  run_op-IsValid sei = Transfer.sei-IsValid
  run_op-IsValid tax = Transfer.tax-IsValid
  run_op-IsValid tay = Transfer.tay-IsValid
  run_op-IsValid tsx = Transfer.tsx-IsValid
  run_op-IsValid txa = Transfer.txa-IsValid
  run_op-IsValid txs = Transfer.txs-IsValid
  run_op-IsValid tya = Transfer.tya-IsValid
  run_op-IsValid nop = Transfer.nop-IsValid
  run_op-IsValid wai = Transfer.wai-IsValid
  run_op-IsValid stp = Transfer.stp-IsValid
  run_op-IsValid lda = Transfer.lda-IsValid hooks
  run_op-IsValid ldx = Transfer.ldx-IsValid hooks
  run_op-IsValid ldy = Transfer.ldy-IsValid hooks
  run_op-IsValid sta = Transfer.sta-IsValid hooks
  run_op-IsValid stx = Transfer.stx-IsValid hooks
  run_op-IsValid sty = Transfer.sty-IsValid hooks
  run_op-IsValid stz = Transfer.stz-IsValid hooks
  run_op-IsValid pha = Transfer.pha-IsValid hooks
  run_op-IsValid phx = Transfer.phx-IsValid hooks
  run_op-IsValid phy = Transfer.phy-IsValid hooks
  run_op-IsValid php = Transfer.php-IsValid hooks
  run_op-IsValid pla = Transfer.pla-IsValid hooks
  run_op-IsValid plx = Transfer.plx-IsValid hooks
  run_op-IsValid ply = Transfer.ply-IsValid hooks
  run_op-IsValid plp = Transfer.plp-IsValid hooks
  run_op-IsValid lax = lax-IsValid
  run_op-IsValid sax = sax-IsValid
  run_op-IsValid dcp = dcp-IsValid
  run_op-IsValid isb = isb-IsValid
  run_op-IsValid slo = slo-IsValid
  run_op-IsValid rla = rla-IsValid
  run_op-IsValid sre = sre-IsValid
  run_op-IsValid rra = rra-IsValid
