-- ===== src/Cpu/Tables/Cmos.antt =====
-- The 65C02 dispatch tables of emulator/cpu_core.c.
use workbench.Common.{ℕ, List, [], ◌∷◌}
use workbench.Cpu.Tables.Defs.{
  Mode, Op, abso, absx, absy, acc, imm, imp, ind_65c02, ind_absx, ind_zp, indx, indy, rel, zp, zpx,
  zpy, adc_65c02, and, asl, bbr, bbs, bcc, bcs, beq, bit, bit_imm, bmi, bne, bpl, bra,
  brk_insn_65c02, bvc, bvs, clc, cld, cli, clv, cmp, cpx, cpy, dec, dex, dey, eor, inc, inx, iny,
  jmp, jsr, lda, ldx, ldy, lsr, nop, ora, pha, php, phx, phy, pla, plp, plx, ply, rmb, rol, ror,
  rti, rts, sbc_65c02, sec, sed, sei, smb, sta, stp, stx, sty, stz, tax, tay, trb, tsb, tsx, txa,
  txs, tya, wai,
}

unfoldable pub addrtable_65c02 : List (List Mode)
addrtable_65c02 =
    (imp ∷ indx ∷ imm ∷ imp ∷ zp ∷ zp ∷ zp ∷ zp ∷ imp ∷ imm ∷ acc ∷ imp ∷ abso ∷ abso ∷ abso ∷ zp
      ∷ [])
    ∷ (rel ∷ indy ∷ ind_zp ∷ imp ∷ zp ∷ zpx ∷ zpx ∷ zp ∷ imp ∷ absy ∷ acc ∷ imp ∷ abso ∷ absx ∷ absx
        ∷ zp ∷ [])
    ∷ (abso ∷ indx ∷ imm ∷ imp ∷ zp ∷ zp ∷ zp ∷ zp ∷ imp ∷ imm ∷ acc ∷ imp ∷ abso ∷ abso ∷ abso ∷ zp
        ∷ [])
    ∷ (rel ∷ indy ∷ ind_zp ∷ imp ∷ zpx ∷ zpx ∷ zpx ∷ zp ∷ imp ∷ absy ∷ acc ∷ imp ∷ absx ∷ absx
        ∷ absx ∷ zp ∷ [])
    ∷ (imp ∷ indx ∷ imm ∷ imp ∷ zp ∷ zp ∷ zp ∷ zp ∷ imp ∷ imm ∷ acc ∷ imp ∷ abso ∷ abso ∷ abso ∷ zp
        ∷ [])
    ∷ (rel ∷ indy ∷ ind_zp ∷ imp ∷ zpx ∷ zpx ∷ zpx ∷ zp ∷ imp ∷ absy ∷ imp ∷ imp ∷ abso ∷ absx
        ∷ absx ∷ zp ∷ [])
    ∷ (imp ∷ indx ∷ imm ∷ imp ∷ zp ∷ zp ∷ zp ∷ zp ∷ imp ∷ imm ∷ acc ∷ imp ∷ ind_65c02 ∷ abso ∷ abso
        ∷ zp ∷ [])
    ∷ (rel ∷ indy ∷ ind_zp ∷ imp ∷ zpx ∷ zpx ∷ zpx ∷ zp ∷ imp ∷ absy ∷ imp ∷ imp ∷ ind_absx ∷ absx
        ∷ absx ∷ zp ∷ [])
    ∷ (rel ∷ indx ∷ imm ∷ imp ∷ zp ∷ zp ∷ zp ∷ zp ∷ imp ∷ imm ∷ imp ∷ imp ∷ abso ∷ abso ∷ abso ∷ zp
        ∷ [])
    ∷ (rel ∷ indy ∷ ind_zp ∷ imp ∷ zpx ∷ zpx ∷ zpy ∷ zp ∷ imp ∷ absy ∷ imp ∷ imp ∷ abso ∷ absx
        ∷ absx ∷ zp ∷ [])
    ∷ (imm ∷ indx ∷ imm ∷ imp ∷ zp ∷ zp ∷ zp ∷ zp ∷ imp ∷ imm ∷ imp ∷ imp ∷ abso ∷ abso ∷ abso ∷ zp
        ∷ [])
    ∷ (rel ∷ indy ∷ ind_zp ∷ imp ∷ zpx ∷ zpx ∷ zpy ∷ zp ∷ imp ∷ absy ∷ imp ∷ imp ∷ absx ∷ absx
        ∷ absy ∷ zp ∷ [])
    ∷ (imm ∷ indx ∷ imm ∷ imp ∷ zp ∷ zp ∷ zp ∷ zp ∷ imp ∷ imm ∷ imp ∷ imp ∷ abso ∷ abso ∷ abso ∷ zp
        ∷ [])
    ∷ (rel ∷ indy ∷ ind_zp ∷ imp ∷ zpx ∷ zpx ∷ zpx ∷ zp ∷ imp ∷ absy ∷ imp ∷ imp ∷ abso ∷ absx
        ∷ absx ∷ zp ∷ [])
    ∷ (imm ∷ indx ∷ imm ∷ imp ∷ zp ∷ zp ∷ zp ∷ zp ∷ imp ∷ imm ∷ imp ∷ imp ∷ abso ∷ abso ∷ abso ∷ zp
        ∷ [])
    ∷ (rel ∷ indy ∷ ind_zp ∷ imp ∷ zpx ∷ zpx ∷ zpx ∷ zp ∷ imp ∷ absy ∷ imp ∷ imp ∷ abso ∷ absx
        ∷ absx ∷ zp ∷ [])
    ∷ []

unfoldable pub optable_65c02 : List (List Op)
optable_65c02 =
    (brk_insn_65c02 ∷ ora ∷ nop ∷ nop ∷ tsb ∷ ora ∷ asl ∷ rmb ∷ php ∷ ora ∷ asl ∷ nop ∷ tsb ∷ ora
      ∷ asl ∷ bbr ∷ [])
    ∷ (bpl ∷ ora ∷ ora ∷ nop ∷ trb ∷ ora ∷ asl ∷ rmb ∷ clc ∷ ora ∷ inc ∷ nop ∷ trb ∷ ora ∷ asl ∷ bbr
        ∷ [])
    ∷ (jsr ∷ and ∷ nop ∷ nop ∷ bit ∷ and ∷ rol ∷ rmb ∷ plp ∷ and ∷ rol ∷ nop ∷ bit ∷ and ∷ rol ∷ bbr
        ∷ [])
    ∷ (bmi ∷ and ∷ and ∷ nop ∷ bit ∷ and ∷ rol ∷ rmb ∷ sec ∷ and ∷ dec ∷ nop ∷ bit ∷ and ∷ rol ∷ bbr
        ∷ [])
    ∷ (rti ∷ eor ∷ nop ∷ nop ∷ nop ∷ eor ∷ lsr ∷ rmb ∷ pha ∷ eor ∷ lsr ∷ nop ∷ jmp ∷ eor ∷ lsr ∷ bbr
        ∷ [])
    ∷ (bvc ∷ eor ∷ eor ∷ nop ∷ nop ∷ eor ∷ lsr ∷ rmb ∷ cli ∷ eor ∷ phy ∷ nop ∷ nop ∷ eor ∷ lsr ∷ bbr
        ∷ [])
    ∷ (rts ∷ adc_65c02 ∷ nop ∷ nop ∷ stz ∷ adc_65c02 ∷ ror ∷ rmb ∷ pla ∷ adc_65c02 ∷ ror ∷ nop ∷ jmp
        ∷ adc_65c02 ∷ ror ∷ bbr ∷ [])
    ∷ (bvs ∷ adc_65c02 ∷ adc_65c02 ∷ nop ∷ stz ∷ adc_65c02 ∷ ror ∷ rmb ∷ sei ∷ adc_65c02 ∷ ply ∷ nop
        ∷ jmp ∷ adc_65c02 ∷ ror ∷ bbr ∷ [])
    ∷ (bra ∷ sta ∷ nop ∷ nop ∷ sty ∷ sta ∷ stx ∷ smb ∷ dey ∷ bit_imm ∷ txa ∷ nop ∷ sty ∷ sta ∷ stx
        ∷ bbs ∷ [])
    ∷ (bcc ∷ sta ∷ sta ∷ nop ∷ sty ∷ sta ∷ stx ∷ smb ∷ tya ∷ sta ∷ txs ∷ nop ∷ stz ∷ sta ∷ stz ∷ bbs
        ∷ [])
    ∷ (ldy ∷ lda ∷ ldx ∷ nop ∷ ldy ∷ lda ∷ ldx ∷ smb ∷ tay ∷ lda ∷ tax ∷ nop ∷ ldy ∷ lda ∷ ldx ∷ bbs
        ∷ [])
    ∷ (bcs ∷ lda ∷ lda ∷ nop ∷ ldy ∷ lda ∷ ldx ∷ smb ∷ clv ∷ lda ∷ tsx ∷ nop ∷ ldy ∷ lda ∷ ldx ∷ bbs
        ∷ [])
    ∷ (cpy ∷ cmp ∷ nop ∷ nop ∷ cpy ∷ cmp ∷ dec ∷ smb ∷ iny ∷ cmp ∷ dex ∷ wai ∷ cpy ∷ cmp ∷ dec ∷ bbs
        ∷ [])
    ∷ (bne ∷ cmp ∷ cmp ∷ nop ∷ nop ∷ cmp ∷ dec ∷ smb ∷ cld ∷ cmp ∷ phx ∷ stp ∷ nop ∷ cmp ∷ dec ∷ bbs
        ∷ [])
    ∷ (cpx ∷ sbc_65c02 ∷ nop ∷ nop ∷ cpx ∷ sbc_65c02 ∷ inc ∷ smb ∷ inx ∷ sbc_65c02 ∷ nop ∷ nop ∷ cpx
        ∷ sbc_65c02 ∷ inc ∷ bbs ∷ [])
    ∷ (beq ∷ sbc_65c02 ∷ sbc_65c02 ∷ nop ∷ nop ∷ sbc_65c02 ∷ inc ∷ smb ∷ sed ∷ sbc_65c02 ∷ plx ∷ nop
        ∷ nop ∷ sbc_65c02 ∷ inc ∷ bbs ∷ [])
    ∷ []

unfoldable pub ticktable_65c02 : List (List ℕ)
ticktable_65c02 =
    (7 ∷ 6 ∷ 2 ∷ 1 ∷ 5 ∷ 3 ∷ 5 ∷ 5 ∷ 3 ∷ 2 ∷ 2 ∷ 1 ∷ 6 ∷ 4 ∷ 6 ∷ 5 ∷ [])
    ∷ (2 ∷ 5 ∷ 5 ∷ 1 ∷ 5 ∷ 4 ∷ 6 ∷ 5 ∷ 2 ∷ 4 ∷ 2 ∷ 1 ∷ 6 ∷ 4 ∷ 7 ∷ 5 ∷ [])
    ∷ (6 ∷ 6 ∷ 2 ∷ 1 ∷ 3 ∷ 3 ∷ 5 ∷ 5 ∷ 4 ∷ 2 ∷ 2 ∷ 1 ∷ 4 ∷ 4 ∷ 6 ∷ 5 ∷ [])
    ∷ (2 ∷ 5 ∷ 5 ∷ 1 ∷ 4 ∷ 4 ∷ 6 ∷ 5 ∷ 2 ∷ 4 ∷ 2 ∷ 1 ∷ 4 ∷ 4 ∷ 7 ∷ 5 ∷ [])
    ∷ (6 ∷ 6 ∷ 2 ∷ 1 ∷ 3 ∷ 3 ∷ 5 ∷ 5 ∷ 3 ∷ 2 ∷ 2 ∷ 1 ∷ 3 ∷ 4 ∷ 6 ∷ 5 ∷ [])
    ∷ (2 ∷ 5 ∷ 5 ∷ 1 ∷ 4 ∷ 4 ∷ 6 ∷ 5 ∷ 2 ∷ 4 ∷ 3 ∷ 1 ∷ 8 ∷ 4 ∷ 7 ∷ 5 ∷ [])
    ∷ (6 ∷ 6 ∷ 2 ∷ 1 ∷ 3 ∷ 3 ∷ 5 ∷ 5 ∷ 4 ∷ 2 ∷ 2 ∷ 1 ∷ 5 ∷ 4 ∷ 6 ∷ 5 ∷ [])
    ∷ (2 ∷ 5 ∷ 5 ∷ 1 ∷ 4 ∷ 4 ∷ 6 ∷ 5 ∷ 2 ∷ 4 ∷ 4 ∷ 1 ∷ 6 ∷ 4 ∷ 7 ∷ 5 ∷ [])
    ∷ (2 ∷ 6 ∷ 2 ∷ 1 ∷ 3 ∷ 3 ∷ 3 ∷ 5 ∷ 2 ∷ 2 ∷ 2 ∷ 1 ∷ 4 ∷ 4 ∷ 4 ∷ 5 ∷ [])
    ∷ (2 ∷ 6 ∷ 5 ∷ 1 ∷ 4 ∷ 4 ∷ 4 ∷ 5 ∷ 2 ∷ 5 ∷ 2 ∷ 1 ∷ 4 ∷ 5 ∷ 5 ∷ 5 ∷ [])
    ∷ (2 ∷ 6 ∷ 2 ∷ 1 ∷ 3 ∷ 3 ∷ 3 ∷ 5 ∷ 2 ∷ 2 ∷ 2 ∷ 1 ∷ 4 ∷ 4 ∷ 4 ∷ 5 ∷ [])
    ∷ (2 ∷ 5 ∷ 5 ∷ 1 ∷ 4 ∷ 4 ∷ 4 ∷ 5 ∷ 2 ∷ 4 ∷ 2 ∷ 1 ∷ 4 ∷ 4 ∷ 4 ∷ 5 ∷ [])
    ∷ (2 ∷ 6 ∷ 2 ∷ 1 ∷ 3 ∷ 3 ∷ 5 ∷ 5 ∷ 2 ∷ 2 ∷ 2 ∷ 3 ∷ 4 ∷ 4 ∷ 6 ∷ 5 ∷ [])
    ∷ (2 ∷ 5 ∷ 5 ∷ 1 ∷ 4 ∷ 4 ∷ 6 ∷ 5 ∷ 2 ∷ 4 ∷ 3 ∷ 3 ∷ 4 ∷ 4 ∷ 7 ∷ 5 ∷ [])
    ∷ (2 ∷ 6 ∷ 2 ∷ 1 ∷ 3 ∷ 3 ∷ 5 ∷ 5 ∷ 2 ∷ 2 ∷ 2 ∷ 1 ∷ 4 ∷ 4 ∷ 6 ∷ 5 ∷ [])
    ∷ (2 ∷ 5 ∷ 5 ∷ 1 ∷ 4 ∷ 4 ∷ 6 ∷ 5 ∷ 2 ∷ 4 ∷ 4 ∷ 1 ∷ 4 ∷ 4 ∷ 7 ∷ 5 ∷ [])
    ∷ []
