-- ===== src/Crc.antt =====
-- repository/src/util.c: `init_crc32_table` and `crc32`. The eight tables are one function of the
-- number of the table and the index, the data is a function from the index to the byte; the two loops
-- over the data run on the number of their rounds.
pub mod Xor
pub mod Slicing
pub mod Rounds
pub mod Reference
pub mod Tests
use Prim.Native.Nat.{bit_and, bit_xor}
use inc_emulation.Base.{ℕ, zero, suc, ◌+◌, ◌*◌, ◌/◌, ◌%◌, ◌^◌, ◌==◌, if◌then◌else◌}

abbrev pub poly : ℕ
poly = 0xEDB8_8320

-- One round of the loop over the bits
unfoldable pub crc_step : ℕ → ℕ
crc_step crc = bit_xor (crc / 2) (if bit_and crc 1 == 0 then 0 else poly)

unfoldable pub crc_steps : ℕ → ℕ → ℕ
crc_steps zero crc = crc
crc_steps (suc n) crc = crc_steps n (crc_step crc)

-- `crc32_table[t][i]`, after `init_crc32_table`; `crc_steps 8` is the first table.
unfoldable pub crc32_table : (t i : ℕ) → ℕ
crc32_table zero i = crc_steps 8 i
crc32_table (suc t) i =
    let entry = crc32_table t i in bit_xor (entry / 256) (crc_steps 8 (bit_and entry 0xFF))

-- The first loop's round over the eight bytes from `at` on
unfoldable pub crc_block : (buf : ℕ → ℕ) → (crc at : ℕ) → ℕ
crc_block buf crc at =
    let b0 = bit_xor (buf at) (bit_and crc 0xFF) in
    let b1 = bit_xor (buf (at + 1)) (bit_and (crc / 2 ^ 8) 0xFF) in
    let b2 = bit_xor (buf (at + 2)) (bit_and (crc / 2 ^ 16) 0xFF) in
    let b3 = bit_xor (buf (at + 3)) (bit_and (crc / 2 ^ 24) 0xFF) in
    bit_xor
      (bit_xor
        (bit_xor
          (bit_xor
            (bit_xor
              (bit_xor (bit_xor (crc32_table 0 (buf (at + 7))) (crc32_table 1 (buf (at + 6))))
                (crc32_table 2 (buf (at + 5))))
              (crc32_table 3 (buf (at + 4))))
            (crc32_table 4 b3))
          (crc32_table 5 b2))
        (crc32_table 6 b1))
      (crc32_table 7 b0)

unfoldable pub crc_blocks : (rounds : ℕ) → (buf : ℕ → ℕ) → (crc at : ℕ) → ℕ
crc_blocks zero buf crc at = crc
crc_blocks (suc rounds) buf crc at = crc_blocks rounds buf (crc_block buf crc at) (at + 8)

-- The second loop's round over one byte
unfoldable pub crc_byte : (crc byte : ℕ) → ℕ
crc_byte crc byte = bit_xor (crc / 256) (crc32_table 0 (bit_and (bit_xor crc byte) 0xFF))

unfoldable pub crc_bytes : (rounds : ℕ) → (buf : ℕ → ℕ) → (crc at : ℕ) → ℕ
crc_bytes zero buf crc at = crc
crc_bytes (suc rounds) buf crc at = crc_bytes rounds buf (crc_byte crc (buf at)) (at + 1)

unfoldable pub crc32 : (buf : ℕ → ℕ) → (length : ℕ) → ℕ
crc32 buf length =
    let blocks = crc_blocks (length / 8) buf 0xFFFF_FFFF 0 in
    bit_xor (crc_bytes (length % 8) buf blocks (length / 8 * 8)) 0xFFFF_FFFF
