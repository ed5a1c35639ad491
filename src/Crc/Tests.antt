-- ===== src/Crc/Tests.antt =====
-- repository/src/util.c: `crc32` on the nine digits, the usual check of a CRC-32.
use Prim.Native.Nat.{bit_xor}
use inc_emulation.Base.{ℕ, ◌+◌, ◌%◌, ◌<◌, ◌≡◌, refl, arith}
use inc_emulation.Crc.{
  crc_step, crc_steps, crc32_table, crc_block, crc_blocks, crc_byte, crc_bytes, crc32,
}
use inc_emulation.Crc.Rounds.{reference}
use inc_emulation.Crc.Reference.{crc32-reference}

-- "123456789" and on
abbrev digits : ℕ → ℕ
digits i = 0x31 + i % 9

digits-lt : (i : ℕ) → digits i < 256
digits-lt i = omega arith

crc32-digits : crc32 digits 9 ≡ 0xCBF4_3926
unfolding crc32 crc_blocks crc_block crc32_table crc_steps crc_step crc_bytes crc_byte
crc32-digits = refl

crc32-reference_example : crc32 digits 9 ≡ bit_xor (reference digits 9) 0xFFFF_FFFF
crc32-reference_example = crc32-reference digits digits-lt 9
