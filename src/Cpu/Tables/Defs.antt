-- ===== src/Cpu/Tables/Defs.antt =====
-- The functions that the dispatch tables of emulator/cpu_core.c point to.

-- The addressing modes.
pub data Mode : Type 0 where
  imp acc imm zp zpx zpy rel abso absx absy ind ind_65c02 ind_zp ind_absx indx indy : Mode

-- The instruction handlers.
pub data Op : Type 0 where
  adc adc_65c02 and asl bbr bbs bcc bcs beq bit bit_imm bmi bne bpl bra brk_insn brk_insn_65c02 bvc
        bvs clc cld cli clv cmp cpx cpy dcp dec dex dey eor inc inx iny isb jmp jsr lax lda ldx
        ldy :
      Op
  lsr nop ora pha php phx phy pla plp plx ply rla rmb rol ror rra rti rts sax sbc sbc_65c02 sec sed
        sei slo smb sre sta stp stx sty stz tax tay trb tsb tsx txa txs tya wai :
      Op
