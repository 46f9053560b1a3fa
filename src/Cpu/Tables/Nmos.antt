-- ===== src/Cpu/Tables/Nmos.antt =====
-- The NMOS dispatch tables of emulator/cpu_core.c.
use workbench.Common.{ℕ, List, [], ◌∷◌}
use workbench.Cpu.Tables.Defs.{
  Mode, Op, abso, absx, absy, acc, imm, imp, ind, indx, indy, rel, zp, zpx, zpy, adc, and, asl, bcc,
  bcs, beq, bit, bmi, bne, bpl, brk_insn, bvc, bvs, clc, cld, cli, clv, cmp, cpx, cpy, dcp, dec,
  dex, dey, eor, inc, inx, iny, isb, jmp, jsr, lax, lda, ldx, ldy, lsr, nop, ora, pha, php, pla,
  plp, rla, rol, ror, rra, rti, rts, sax, sbc, sec, sed, sei, slo, sre, sta, stx, sty, tax, tay,
  tsx, txa, txs, tya,
}

unfoldable pub addrtable_nmos : List (List Mode)
addrtable_nmos =
    (imp ∷ indx ∷ imp ∷ indx ∷ zp ∷ zp ∷ zp ∷ zp ∷ imp ∷ imm ∷ acc ∷ imm ∷ abso ∷ abso ∷ abso ∷ abso
      ∷ [])
    ∷ (rel ∷ indy ∷ imp ∷ indy ∷ zpx ∷ zpx ∷ zpx ∷ zpx ∷ imp ∷ absy ∷ imp ∷ absy ∷ absx ∷ absx
        ∷ absx ∷ absx ∷ [])
    ∷ (abso ∷ indx ∷ imp ∷ indx ∷ zp ∷ zp ∷ zp ∷ zp ∷ imp ∷ imm ∷ acc ∷ imm ∷ abso ∷ abso ∷ abso
        ∷ abso ∷ [])
    ∷ (rel ∷ indy ∷ imp ∷ indy ∷ zpx ∷ zpx ∷ zpx ∷ zpx ∷ imp ∷ absy ∷ imp ∷ absy ∷ absx ∷ absx
        ∷ absx ∷ absx ∷ [])
    ∷ (imp ∷ indx ∷ imp ∷ indx ∷ zp ∷ zp ∷ zp ∷ zp ∷ imp ∷ imm ∷ acc ∷ imm ∷ abso ∷ abso ∷ abso
        ∷ abso ∷ [])
    ∷ (rel ∷ indy ∷ imp ∷ indy ∷ zpx ∷ zpx ∷ zpx ∷ zpx ∷ imp ∷ absy ∷ imp ∷ absy ∷ absx ∷ absx
        ∷ absx ∷ absx ∷ [])
    ∷ (imp ∷ indx ∷ imp ∷ indx ∷ zp ∷ zp ∷ zp ∷ zp ∷ imp ∷ imm ∷ acc ∷ imm ∷ ind ∷ abso ∷ abso
        ∷ abso ∷ [])
    ∷ (rel ∷ indy ∷ imp ∷ indy ∷ zpx ∷ zpx ∷ zpx ∷ zpx ∷ imp ∷ absy ∷ imp ∷ absy ∷ absx ∷ absx
        ∷ absx ∷ absx ∷ [])
    ∷ (imm ∷ indx ∷ imm ∷ indx ∷ zp ∷ zp ∷ zp ∷ zp ∷ imp ∷ imm ∷ imp ∷ imm ∷ abso ∷ abso ∷ abso
        ∷ abso ∷ [])
    ∷ (rel ∷ indy ∷ imp ∷ indy ∷ zpx ∷ zpx ∷ zpy ∷ zpy ∷ imp ∷ absy ∷ imp ∷ absy ∷ absx ∷ absx
        ∷ absy ∷ absy ∷ [])
    ∷ (imm ∷ indx ∷ imm ∷ indx ∷ zp ∷ zp ∷ zp ∷ zp ∷ imp ∷ imm ∷ imp ∷ imm ∷ abso ∷ abso ∷ abso
        ∷ abso ∷ [])
    ∷ (rel ∷ indy ∷ imp ∷ indy ∷ zpx ∷ zpx ∷ zpy ∷ zpy ∷ imp ∷ absy ∷ imp ∷ absy ∷ absx ∷ absx
        ∷ absy ∷ absy ∷ [])
    ∷ (imm ∷ indx ∷ imm ∷ indx ∷ zp ∷ zp ∷ zp ∷ zp ∷ imp ∷ imm ∷ imp ∷ imm ∷ abso ∷ abso ∷ abso
        ∷ abso ∷ [])
    ∷ (rel ∷ indy ∷ imp ∷ indy ∷ zpx ∷ zpx ∷ zpx ∷ zpx ∷ imp ∷ absy ∷ imp ∷ absy ∷ absx ∷ absx
        ∷ absx ∷ absx ∷ [])
    ∷ (imm ∷ indx ∷ imm ∷ indx ∷ zp ∷ zp ∷ zp ∷ zp ∷ imp ∷ imm ∷ imp ∷ imm ∷ abso ∷ abso ∷ abso
        ∷ abso ∷ [])
    ∷ (rel ∷ indy ∷ imp ∷ indy ∷ zpx ∷ zpx ∷ zpx ∷ zpx ∷ imp ∷ absy ∷ imp ∷ absy ∷ absx ∷ absx
        ∷ absx ∷ absx ∷ [])
    ∷ []

unfoldable pub optable_nmos : List (List Op)
optable_nmos =
    (brk_insn ∷ ora ∷ nop ∷ slo ∷ nop ∷ ora ∷ asl ∷ slo ∷ php ∷ ora ∷ asl ∷ nop ∷ nop ∷ ora ∷ asl
      ∷ slo ∷ [])
    ∷ (bpl ∷ ora ∷ nop ∷ slo ∷ nop ∷ ora ∷ asl ∷ slo ∷ clc ∷ ora ∷ nop ∷ slo ∷ nop ∷ ora ∷ asl ∷ slo
        ∷ [])
    ∷ (jsr ∷ and ∷ nop ∷ rla ∷ bit ∷ and ∷ rol ∷ rla ∷ plp ∷ and ∷ rol ∷ nop ∷ bit ∷ and ∷ rol ∷ rla
        ∷ [])
    ∷ (bmi ∷ and ∷ nop ∷ rla ∷ nop ∷ and ∷ rol ∷ rla ∷ sec ∷ and ∷ nop ∷ rla ∷ nop ∷ and ∷ rol ∷ rla
        ∷ [])
    ∷ (rti ∷ eor ∷ nop ∷ sre ∷ nop ∷ eor ∷ lsr ∷ sre ∷ pha ∷ eor ∷ lsr ∷ nop ∷ jmp ∷ eor ∷ lsr ∷ sre
        ∷ [])
    ∷ (bvc ∷ eor ∷ nop ∷ sre ∷ nop ∷ eor ∷ lsr ∷ sre ∷ cli ∷ eor ∷ nop ∷ sre ∷ nop ∷ eor ∷ lsr ∷ sre
        ∷ [])
    ∷ (rts ∷ adc ∷ nop ∷ rra ∷ nop ∷ adc ∷ ror ∷ rra ∷ pla ∷ adc ∷ ror ∷ nop ∷ jmp ∷ adc ∷ ror ∷ rra
        ∷ [])
    ∷ (bvs ∷ adc ∷ nop ∷ rra ∷ nop ∷ adc ∷ ror ∷ rra ∷ sei ∷ adc ∷ nop ∷ rra ∷ nop ∷ adc ∷ ror ∷ rra
        ∷ [])
    ∷ (nop ∷ sta ∷ nop ∷ sax ∷ sty ∷ sta ∷ stx ∷ sax ∷ dey ∷ nop ∷ txa ∷ nop ∷ sty ∷ sta ∷ stx ∷ sax
        ∷ [])
    ∷ (bcc ∷ sta ∷ nop ∷ nop ∷ sty ∷ sta ∷ stx ∷ sax ∷ tya ∷ sta ∷ txs ∷ nop ∷ nop ∷ sta ∷ nop ∷ nop
        ∷ [])
    ∷ (ldy ∷ lda ∷ ldx ∷ lax ∷ ldy ∷ lda ∷ ldx ∷ lax ∷ tay ∷ lda ∷ tax ∷ nop ∷ ldy ∷ lda ∷ ldx ∷ lax
        ∷ [])
    ∷ (bcs ∷ lda ∷ nop ∷ lax ∷ ldy ∷ lda ∷ ldx ∷ lax ∷ clv ∷ lda ∷ tsx ∷ lax ∷ ldy ∷ lda ∷ ldx ∷ lax
        ∷ [])
    ∷ (cpy ∷ cmp ∷ nop ∷ dcp ∷ cpy ∷ cmp ∷ dec ∷ dcp ∷ iny ∷ cmp ∷ dex ∷ nop ∷ cpy ∷ cmp ∷ dec ∷ dcp
        ∷ [])
    ∷ (bne ∷ cmp ∷ nop ∷ dcp ∷ nop ∷ cmp ∷ dec ∷ dcp ∷ cld ∷ cmp ∷ nop ∷ dcp ∷ nop ∷ cmp ∷ dec ∷ dcp
        ∷ [])
    ∷ (cpx ∷ sbc ∷ nop ∷ isb ∷ cpx ∷ sbc ∷ inc ∷ isb ∷ inx ∷ sbc ∷ nop ∷ sbc ∷ cpx ∷ sbc ∷ inc ∷ isb
        ∷ [])
    ∷ (beq ∷ sbc ∷ nop ∷ isb ∷ nop ∷ sbc ∷ inc ∷ isb ∷ sed ∷ sbc ∷ nop ∷ isb ∷ nop ∷ sbc ∷ inc ∷ isb
        ∷ [])
    ∷ []

unfoldable pub ticktable_nmos : List (List ℕ)
ticktable_nmos =
    (7 ∷ 6 ∷ 2 ∷ 8 ∷ 3 ∷ 3 ∷ 5 ∷ 5 ∷ 3 ∷ 2 ∷ 2 ∷ 2 ∷ 4 ∷ 4 ∷ 6 ∷ 6 ∷ [])
    ∷ (2 ∷ 5 ∷ 2 ∷ 8 ∷ 4 ∷ 4 ∷ 6 ∷ 6 ∷ 2 ∷ 4 ∷ 2 ∷ 7 ∷ 4 ∷ 4 ∷ 7 ∷ 7 ∷ [])
    ∷ (6 ∷ 6 ∷ 2 ∷ 8 ∷ 3 ∷ 3 ∷ 5 ∷ 5 ∷ 4 ∷ 2 ∷ 2 ∷ 2 ∷ 4 ∷ 4 ∷ 6 ∷ 6 ∷ [])
    ∷ (2 ∷ 5 ∷ 2 ∷ 8 ∷ 4 ∷ 4 ∷ 6 ∷ 6 ∷ 2 ∷ 4 ∷ 2 ∷ 7 ∷ 4 ∷ 4 ∷ 7 ∷ 7 ∷ [])
    ∷ (6 ∷ 6 ∷ 2 ∷ 8 ∷ 3 ∷ 3 ∷ 5 ∷ 5 ∷ 3 ∷ 2 ∷ 2 ∷ 2 ∷ 3 ∷ 4 ∷ 6 ∷ 6 ∷ [])
    ∷ (2 ∷ 5 ∷ 2 ∷ 8 ∷ 4 ∷ 4 ∷ 6 ∷ 6 ∷ 2 ∷ 4 ∷ 2 ∷ 7 ∷ 4 ∷ 4 ∷ 7 ∷ 7 ∷ [])
    ∷ (6 ∷ 6 ∷ 2 ∷ 8 ∷ 3 ∷ 3 ∷ 5 ∷ 5 ∷ 4 ∷ 2 ∷ 2 ∷ 2 ∷ 5 ∷ 4 ∷ 6 ∷ 6 ∷ [])
    ∷ (2 ∷ 5 ∷ 2 ∷ 8 ∷ 4 ∷ 4 ∷ 6 ∷ 6 ∷ 2 ∷ 4 ∷ 2 ∷ 7 ∷ 4 ∷ 4 ∷ 7 ∷ 7 ∷ [])
    ∷ (2 ∷ 6 ∷ 2 ∷ 6 ∷ 3 ∷ 3 ∷ 3 ∷ 3 ∷ 2 ∷ 2 ∷ 2 ∷ 2 ∷ 4 ∷ 4 ∷ 4 ∷ 4 ∷ [])
    ∷ (2 ∷ 6 ∷ 2 ∷ 6 ∷ 4 ∷ 4 ∷ 4 ∷ 4 ∷ 2 ∷ 5 ∷ 2 ∷ 5 ∷ 5 ∷ 5 ∷ 5 ∷ 5 ∷ [])
    ∷ (2 ∷ 6 ∷ 2 ∷ 6 ∷ 3 ∷ 3 ∷ 3 ∷ 3 ∷ 2 ∷ 2 ∷ 2 ∷ 2 ∷ 4 ∷ 4 ∷ 4 ∷ 4 ∷ [])
    ∷ (2 ∷ 5 ∷ 2 ∷ 5 ∷ 4 ∷ 4 ∷ 4 ∷ 4 ∷ 2 ∷ 4 ∷ 2 ∷ 4 ∷ 4 ∷ 4 ∷ 4 ∷ 4 ∷ [])
    ∷ (2 ∷ 6 ∷ 2 ∷ 8 ∷ 3 ∷ 3 ∷ 5 ∷ 5 ∷ 2 ∷ 2 ∷ 2 ∷ 2 ∷ 4 ∷ 4 ∷ 6 ∷ 6 ∷ [])
    ∷ (2 ∷ 5 ∷ 2 ∷ 8 ∷ 4 ∷ 4 ∷ 6 ∷ 6 ∷ 2 ∷ 4 ∷ 2 ∷ 7 ∷ 4 ∷ 4 ∷ 7 ∷ 7 ∷ [])
    ∷ (2 ∷ 6 ∷ 2 ∷ 8 ∷ 3 ∷ 3 ∷ 5 ∷ 5 ∷ 2 ∷ 2 ∷ 2 ∷ 2 ∷ 4 ∷ 4 ∷ 6 ∷ 6 ∷ [])
    ∷ (2 ∷ 5 ∷ 2 ∷ 8 ∷ 4 ∷ 4 ∷ 6 ∷ 6 ∷ 2 ∷ 4 ∷ 2 ∷ 7 ∷ 4 ∷ 4 ∷ 7 ∷ 7 ∷ [])
    ∷ []
