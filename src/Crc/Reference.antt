-- ===== src/Crc/Reference.antt =====
-- repository/src/util.c, `crc32`: the whole of it against the checksum of the bits.
use Prim.Native.Nat.{bit_xor}
use inc_emulation.Base.{ℕ, zero, suc, ◌+◌, ◌*◌, ◌/◌, ◌%◌, ◌<◌, ◌≡◌, refl, sym, ap, ◌∙◌, arith}
use inc_emulation.Crc.{crc_blocks, crc_byte, crc_bytes, crc32}
use inc_emulation.Crc.Rounds.{
  reference, reference-suc, reference-lt, crc_block-reference, crc_byte-next,
}

module _ (buf : ℕ → ℕ) (bytes : (i : ℕ) → buf i < 256) where
  crc_blocks-reference :
      (rounds at : ℕ)
      → crc_blocks rounds buf (reference buf at) at ≡ reference buf (at + rounds * 8)
  unfolding crc_blocks
  crc_blocks-reference zero at = ap (reference buf) (omega arith)
  crc_blocks-reference (suc rounds) at =
      ap (λ c. crc_blocks rounds buf c (at + 8))
        (crc_block-reference buf at (reference-lt buf at bytes))
      ∙ crc_blocks-reference rounds (at + 8)
      ∙ ap (reference buf) (omega arith)

  crc_bytes-reference :
      (rounds at : ℕ) → crc_bytes rounds buf (reference buf at) at ≡ reference buf (at + rounds)
  unfolding crc_bytes
  crc_bytes-reference zero at = ap (reference buf) (omega arith)
  crc_bytes-reference (suc rounds) at =
      ap (λ c. crc_bytes rounds buf c (at + 1)) one
      ∙ crc_bytes-reference rounds (at + 1)
      ∙ ap (reference buf) (omega arith)
    where
      one : crc_byte (reference buf at) (buf at) ≡ reference buf (at + 1)
      one =
          crc_byte-next (reference buf at) (buf at) (bytes at)
          ∙ sym (reference-suc buf at)
          ∙ ap (reference buf) (omega arith)

  -- On any run of bytes of any length, the function that takes eight bytes a round through the eight
  -- tables, and the rest one byte a round, returns what the textbook's CRC-32 returns, which takes in
  -- one byte at a time and shifts out one bit at a time: the register begins with all its bits set
  -- and is complemented at the end.
  pub crc32-reference : (length : ℕ) → crc32 buf length ≡ bit_xor (reference buf length) 0xFFFF_FFFF
  unfolding crc32
  crc32-reference length =
      ap (λ c. bit_xor c 0xFFFF_FFFF)
        (ap (λ c. crc_bytes (length % 8) buf c (length / 8 * 8)) blocks
          ∙ crc_bytes-reference (length % 8) (length / 8 * 8)
          ∙ ap (reference buf) (omega arith))
    where
      empty : reference buf 0 ≡ 0xFFFF_FFFF
      empty = unfold reference in refl

      blocks : crc_blocks (length / 8) buf 0xFFFF_FFFF 0 ≡ reference buf (length / 8 * 8)
      blocks =
          ap (λ c. crc_blocks (length / 8) buf c 0) (sym empty)
          ∙ crc_blocks-reference (length / 8) 0
          ∙ ap (reference buf) (omega arith)
