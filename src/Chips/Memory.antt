-- ===== src/Chips/Memory.antt =====
-- The ROM of emulator/chips/rom_28c256.c and the banked RAM of emulator/chips/ram_628128.c.
use workbench.Common.{
  ℕ, ◌==◌, Bool, true, false, ◌&&◌, ◌||◌, not, Option, none, some, if◌then◌else◌, ◌<<◌, ◌>>>◌,
  bit_and, bit_or, nonzero,
}
use workbench.Bus.{Bus}

-- The contents of a memory chip.
abbrev pub Contents : Type 0
Contents = ℕ → ℕ

-- `contents[a] = v`
unfoldable pub store : ℕ → ℕ → Contents → Contents
store a v contents = λ b. if a == b then v else contents b

-- An erased EEPROM.
abbrev pub rom_28c256_init : Contents
rom_28c256_init = λ a. 0xff

unfoldable pub rom_28c256_read : ℕ → Contents × Bus → Option ℕ
rom_28c256_read addr (contents, bus) =
    if not (nonzero bus.romcs) || not (nonzero bus.rwb)
    then none
    else some (contents (bit_and addr 0x7fff))

-- Whether the write is swallowed.
unfoldable pub rom_28c256_write : Bus → Bool
rom_28c256_write bus = nonzero bus.romcs && not (nonzero bus.rwb)

unfoldable pub physical_addr : Bus → ℕ → ℕ
physical_addr bus addr =
    let cpu_a15 = bit_and (addr >>> 15) 1 in
    bit_or (bit_or (bit_and bus.r_bits 0x0f << 15) (cpu_a15 << 14)) (bit_and addr 0x3fff)

abbrev pub ram_628128_init : Contents
ram_628128_init = λ a. 0

unfoldable pub ram_628128_read : ℕ → Contents × Bus → Option ℕ
ram_628128_read addr (contents, bus) =
    if not (nonzero bus.ramcs) || not (nonzero bus.rwb)
    then none
    else some (contents (physical_addr bus addr))

-- Whether the RAM claims the write, and what it holds then.
unfoldable pub ram_628128_write : ℕ → ℕ → Contents × Bus → Bool × Contents
ram_628128_write addr v (contents, bus) =
    if not (nonzero bus.ramcs) || nonzero bus.rwb
    then (false, contents)
    else (true, store (physical_addr bus addr) v contents)
