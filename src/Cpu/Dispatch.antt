-- ===== src/Cpu/Dispatch.antt =====
-- `(*optable[opcode])()` of emulator/cpu_core.c: the handler behind each table entry.
use workbench.Cpu.State.{Machine, Hooks}
use workbench.Cpu.Tables.{
  Op, adc, adc_65c02, sbc, sbc_65c02, cmp, cpx, cpy, inx, iny, dex, dey, and, ora, eor, asl, rol,
  lsr, ror, inc, dec, bit, bit_imm, trb, tsb, rmb, smb, bcc, bcs, bne, beq, bpl, bmi, bvc, bvs, bra,
  jmp, bbr, bbs, jsr, rts, brk_insn, brk_insn_65c02, rti, clc, cld, cli, clv, sec, sed, sei, tax,
  tay, tsx, txa, txs, tya, nop, wai, stp, lda, ldx, ldy, sta, stx, sty, stz, pha, phx, phy, php,
  pla, plx, ply, plp, lax, sax, dcp, isb, slo, rla, sre, rra,
}
use workbench.Cpu.Arith
use workbench.Cpu.Logic
use workbench.Cpu.Branch
use workbench.Cpu.Transfer
use workbench.Cpu.Undocumented

module _ {H : Type 0} (hooks : Hooks H) where
  unfoldable pub run_op : Op → Machine H → Machine H
  run_op adc = Arith.adc hooks
  run_op adc_65c02 = Arith.adc_65c02 hooks
  run_op sbc = Arith.sbc hooks
  run_op sbc_65c02 = Arith.sbc_65c02 hooks
  run_op cmp = Arith.cmp hooks
  run_op cpx = Arith.cpx hooks
  run_op cpy = Arith.cpy hooks
  run_op inx = Logic.inx
  run_op iny = Logic.iny
  run_op dex = Logic.dex
  run_op dey = Logic.dey
  run_op and = Logic.and hooks
  run_op ora = Logic.ora hooks
  run_op eor = Logic.eor hooks
  run_op asl = Logic.asl hooks
  run_op rol = Logic.rol hooks
  run_op lsr = Logic.lsr hooks
  run_op ror = Logic.ror hooks
  run_op inc = Logic.inc hooks
  run_op dec = Logic.dec hooks
  run_op bit = Logic.bit hooks
  run_op bit_imm = Logic.bit_imm hooks
  run_op trb = Logic.trb hooks
  run_op tsb = Logic.tsb hooks
  run_op rmb = Logic.rmb hooks
  run_op smb = Logic.smb hooks
  run_op bcc = Branch.bcc
  run_op bcs = Branch.bcs
  run_op bne = Branch.bne
  run_op beq = Branch.beq
  run_op bpl = Branch.bpl
  run_op bmi = Branch.bmi
  run_op bvc = Branch.bvc
  run_op bvs = Branch.bvs
  run_op bra = Branch.bra
  run_op jmp = Branch.jmp
  run_op bbr = Branch.bbr hooks
  run_op bbs = Branch.bbs hooks
  run_op jsr = Branch.jsr hooks
  run_op rts = Branch.rts hooks
  run_op brk_insn = Branch.brk_insn hooks
  run_op brk_insn_65c02 = Branch.brk_insn_65c02 hooks
  run_op rti = Branch.rti hooks
  run_op clc = Transfer.clc
  run_op cld = Transfer.cld
  run_op cli = Transfer.cli
  run_op clv = Transfer.clv
  run_op sec = Transfer.sec
  run_op sed = Transfer.sed
  run_op sei = Transfer.sei
  run_op tax = Transfer.tax
  run_op tay = Transfer.tay
  run_op tsx = Transfer.tsx
  run_op txa = Transfer.txa
  run_op txs = Transfer.txs
  run_op tya = Transfer.tya
  run_op nop = Transfer.nop
  run_op wai = Transfer.wai
  run_op stp = Transfer.stp
  run_op lda = Transfer.lda hooks
  run_op ldx = Transfer.ldx hooks
  run_op ldy = Transfer.ldy hooks
  run_op sta = Transfer.sta hooks
  run_op stx = Transfer.stx hooks
  run_op sty = Transfer.sty hooks
  run_op stz = Transfer.stz hooks
  run_op pha = Transfer.pha hooks
  run_op phx = Transfer.phx hooks
  run_op phy = Transfer.phy hooks
  run_op php = Transfer.php hooks
  run_op pla = Transfer.pla hooks
  run_op plx = Transfer.plx hooks
  run_op ply = Transfer.ply hooks
  run_op plp = Transfer.plp hooks
  run_op lax = Undocumented.lax hooks
  run_op sax = Undocumented.sax hooks
  run_op dcp = Undocumented.dcp hooks
  run_op isb = Undocumented.isb hooks
  run_op slo = Undocumented.slo hooks
  run_op rla = Undocumented.rla hooks
  run_op sre = Undocumented.sre hooks
  run_op rra = Undocumented.rra hooks
