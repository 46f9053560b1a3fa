-- ===== src/Cpu/Logic.antt =====
-- The logic, shift, increment and bit handlers of emulator/cpu_core.c.
use workbench.Common.{
  nonzero, ℕ, ◌+◌, ◌-◌, ◌^◌, ◌==◌, true, u8, u16, ◌<<◌, ◌>>>◌, bit_and, bit_or, bit_xor,
}
use workbench.Cpu.Flags.{carry, zero, put_flag, zero_calc, carry_calc}
use workbench.Cpu.State.{Machine, Hooks, cpu_read, cpu_write}
use workbench.Cpu.Access.{nz_calc, getvalue, putvalue}

module _ {H : Type 0} where
  -- `zerocalc(result); signcalc(result); saveaccum(result);`
  unfoldable pub save_result : ℕ → Machine H → Machine H
  save_result result m = record m {
    status = nz_calc result m.status;
    a = u8 (bit_and result 0x00ff);
  }

  -- The bit that RMB, SMB, BBR and BBS name: `1u << ((opcode >> 4) & 7)`.
  unfoldable pub opcode_bit : Machine H → ℕ
  opcode_bit m = u8 (2 ^ bit_and (m.opcode >>> 4) 7)

  unfoldable pub inx : Machine H → Machine H
  inx m = let v = u8 (m.x + 1) in record m { x = v; status = nz_calc v m.status }

  unfoldable pub iny : Machine H → Machine H
  iny m = let v = u8 (m.y + 1) in record m { y = v; status = nz_calc v m.status }

  unfoldable pub dex : Machine H → Machine H
  dex m = let v = u8 (m.x + 256 - 1) in record m { x = v; status = nz_calc v m.status }

  unfoldable pub dey : Machine H → Machine H
  dey m = let v = u8 (m.y + 256 - 1) in record m { y = v; status = nz_calc v m.status }

module _ {H : Type 0} (hooks : Hooks H) where
  unfoldable pub and : Machine H → Machine H
  and m =
      let (value, m1) = getvalue hooks (record m { penaltyop = true }) in
      save_result (bit_and m1.a value) m1

  unfoldable pub ora : Machine H → Machine H
  ora m =
      let (value, m1) = getvalue hooks (record m { penaltyop = true }) in
      save_result (bit_or m1.a value) m1

  unfoldable pub eor : Machine H → Machine H
  eor m =
      let (value, m1) = getvalue hooks (record m { penaltyop = true }) in
      save_result (bit_xor m1.a value) m1

  unfoldable pub asl : Machine H → Machine H
  asl m =
      let (value, m1) = getvalue hooks m in
      let result = u16 (value << 1) in
      putvalue hooks result (record m1 { status = nz_calc result (carry_calc result m1.status) })

  unfoldable pub rol : Machine H → Machine H
  rol m =
      let (value, m1) = getvalue hooks m in
      let result = u16 (bit_or (value << 1) (bit_and m1.status 0x01)) in
      putvalue hooks result (record m1 { status = nz_calc result (carry_calc result m1.status) })

  unfoldable pub lsr : Machine H → Machine H
  lsr m =
      let (value, m1) = getvalue hooks m in
      let result = value >>> 1 in
      putvalue hooks result (record m1 {
        status = nz_calc result (put_flag carry (nonzero (bit_and value 1)) m1.status);
      })

  unfoldable pub ror : Machine H → Machine H
  ror m =
      let (value, m1) = getvalue hooks m in
      let result = u16 (bit_or (value >>> 1) (bit_and m1.status 0x01 << 7)) in
      putvalue hooks result (record m1 {
        status = nz_calc result (put_flag carry (nonzero (bit_and value 1)) m1.status);
      })

  unfoldable pub inc : Machine H → Machine H
  inc m =
      let (value, m1) = getvalue hooks m in
      let result = u16 (value + 1) in
      putvalue hooks result (record m1 { status = nz_calc result m1.status })

  unfoldable pub dec : Machine H → Machine H
  dec m =
      let (value, m1) = getvalue hooks m in
      let result = u16 (value + 2 ^ 16 - 1) in
      putvalue hooks result (record m1 { status = nz_calc result m1.status })

  unfoldable pub bit : Machine H → Machine H
  bit m =
      let (value, m1) = getvalue hooks m in
      let status' = zero_calc (bit_and m1.a value) m1.status in
      record m1 { status = bit_or (bit_and status' 0x3f) (u8 (bit_and value 0xc0)) }

  unfoldable pub bit_imm : Machine H → Machine H
  bit_imm m =
      let (value, m1) = getvalue hooks m in
      record m1 { status = zero_calc (bit_and m1.a value) m1.status }

  unfoldable pub trb : Machine H → Machine H
  trb m =
      let (value, m1) = getvalue hooks m in
      putvalue hooks (bit_and value (255 - m1.a))
        (record m1 { status = put_flag zero (bit_and m1.a value == 0) m1.status })

  unfoldable pub tsb : Machine H → Machine H
  tsb m =
      let (value, m1) = getvalue hooks m in
      putvalue hooks (bit_or value m1.a)
        (record m1 { status = put_flag zero (bit_and m1.a value == 0) m1.status })

  unfoldable pub rmb : Machine H → Machine H
  rmb m =
      let (v, m1) = cpu_read hooks m.ea m in
      cpu_write hooks m1.ea (bit_and v (255 - opcode_bit m)) m1

  unfoldable pub smb : Machine H → Machine H
  smb m = let (v, m1) = cpu_read hooks m.ea m in cpu_write hooks m1.ea (bit_or v (opcode_bit m)) m1
