-- ===== src/Crc/Rounds.antt =====
-- repository/src/util.c, `crc32`: the rounds of its two loops against the checksum of the bits.
use Prim.Native.Nat.{bit_and, bit_xor}
use mathlib.Core.Path.{ap₂}
use inc_emulation.Base.{
  ℕ, zero, suc, ◌+◌, ◌*◌, ◌/◌, ◌%◌, ◌^◌, ◌<◌, ◌≡◌, refl, sym, ap, ◌∙◌, arith, ◌==◌, if◌then◌else◌,
}
use inc_emulation.Bits.{bit_and_ones}
use inc_emulation.Crc.{poly, crc_step, crc_steps, crc32_table, crc_block, crc_byte}
use inc_emulation.Crc.Xor.{zero-bit_xor, bit_xor-zero, bit_xor_assoc, bit_xor-lt, bit_xor_apart}
use inc_emulation.Crc.Slicing.{chosen, table_zero, peel, absorb, crc_steps-apart, crc_step-chosen}

-- The textbook's checksum: a byte enters at the low end, and eight bits leave.
unfoldable pub bits_out : ℕ → ℕ → ℕ
bits_out zero crc = crc
bits_out (suc n) crc = bits_out n (if crc % 2 == 0 then crc / 2 else bit_xor (crc / 2) poly)

unfoldable pub reference : (buf : ℕ → ℕ) → (length : ℕ) → ℕ
reference buf zero = 0xFFFF_FFFF
reference buf (suc n) = bits_out 8 (bit_xor (reference buf n) (buf n))

crc_steps-bits_out : (n c : ℕ) → bits_out n c ≡ crc_steps n c
unfolding bits_out crc_steps
crc_steps-bits_out zero c = refl
crc_steps-bits_out (suc n) c =
    crc_steps-bits_out n (if c % 2 == 0 then c / 2 else bit_xor (c / 2) poly)
    ∙ ap (crc_steps n) (pick (c % 2) ∙ sym (crc_step-chosen c))
  where
    pick : (d : ℕ) → (if d == 0 then c / 2 else bit_xor (c / 2) poly) ≡ bit_xor (c / 2) (chosen d)
    pick zero = sym (bit_xor-zero (c / 2))
    pick (suc d) = ground arith

abbrev next : (crc byte : ℕ) → ℕ
next crc byte = crc_steps 8 (bit_xor crc byte)

pub reference-suc : (buf : ℕ → ℕ) (n : ℕ) → reference buf (suc n) ≡ next (reference buf n) (buf n)
unfolding reference
reference-suc buf n = crc_steps-bits_out 8 (bit_xor (reference buf n) (buf n))

-- Eight bytes that enter an empty checksum are the sum of their tables.
eight :
    (c0 c1 c2 c3 c4 c5 c6 c7 : ℕ)
    → next (next (next (next (next (next (next (next 0 c0) c1) c2) c3) c4) c5) c6) c7
      ≡ bit_xor (crc32_table 0 c7) (
          bit_xor (crc32_table 1 c6) (
            bit_xor (crc32_table 2 c5) (
              bit_xor (crc32_table 3 c4) (
                bit_xor
                  (crc32_table 4 c3)
                  (bit_xor (crc32_table 5 c2) (bit_xor (crc32_table 6 c1) (crc32_table 7 c0)))))))
eight c0 c1 c2 c3 c4 c5 c6 c7 =
    sym (table_zero _)
    ∙ peel 0 _ c7
    ∙ ap (bit_xor _) (
        peel 1 _ c6
        ∙ ap (bit_xor _) (
            peel 2 _ c5
            ∙ ap (bit_xor _) (
                peel 3 _ c4
                ∙ ap (bit_xor _) (
                    peel 4 _ c3
                    ∙ ap (bit_xor _) (
                        peel 5 _ c2
                        ∙ ap (bit_xor _) (
                            peel 6 _ c1
                            ∙ ap (bit_xor _) (ap (crc32_table 7) (zero-bit_xor c0))))))))

-- The first four bytes take up the old checksum.
four :
    (crc b0 b1 b2 b3 : ℕ)
    → crc < 2 ^ 32
    → next (next (next (next crc b0) b1) b2) b3
      ≡ next
          (next
            (next
              (next 0 (bit_xor b0 (bit_and crc 0xFF)))
              (bit_xor b1 (bit_and (crc / 2 ^ 8) 0xFF)))
            (bit_xor b2 (bit_and (crc / 2 ^ 16) 0xFF)))
          (bit_xor b3 (bit_and (crc / 2 ^ 24) 0xFF))
four crc b0 b1 b2 b3 h =
    ap (λ t. next (next (next t b1) b2) b3)
      (ap (λ t. next t b0) (sym (bit_xor-zero crc)) ∙ meet crc (crc / 2 ^ 8) 0 b0 (omega arith))
    ∙ ap (λ t. next (next t b2) b3) (meet (crc / 2 ^ 8) (crc / 2 ^ 16) _ b1 (omega arith))
    ∙ ap (λ t. next t b3) (meet (crc / 2 ^ 16) (crc / 2 ^ 24) _ b2 (omega arith))
    ∙ meet (crc / 2 ^ 24) 0 _ b3 (omega (arith, h))
    ∙ zero-bit_xor _
  where
    meet :
        (q p z b : ℕ)
        → q / 256 ≡ p
        → next (bit_xor q z) b ≡ bit_xor p (next z (bit_xor b (bit_and q 0xFF)))
    meet q p z b e =
        absorb q z b
        ∙ ap₂ (λ s t. bit_xor s (crc_steps 8 (bit_xor z (bit_xor b t)))) e (sym (bit_and_ones 8 q))

crc_block-next :
    (buf : ℕ → ℕ) (crc at : ℕ)
    → crc < 2 ^ 32
    → crc_block buf crc at
      ≡ next
          (next
            (next
              (next
                (next
                  (next (next (next crc (buf at)) (buf (at + 1))) (buf (at + 2)))
                  (buf (at + 3)))
                (buf (at + 4)))
              (buf (at + 5)))
            (buf (at + 6)))
          (buf (at + 7))
unfolding crc_block
crc_block-next buf crc at h =
    simp bit_xor_assoc refl
    ∙ sym (eight _ _ _ _ (buf (at + 4)) (buf (at + 5)) (buf (at + 6)) (buf (at + 7)))
    ∙ ap
        (λ t.
          next (next (next (next t (buf (at + 4))) (buf (at + 5))) (buf (at + 6))) (buf (at + 7)))
        (sym (four crc (buf at) (buf (at + 1)) (buf (at + 2)) (buf (at + 3)) h))

pub crc_block-reference :
    (buf : ℕ → ℕ) (at : ℕ)
    → reference buf at < 2 ^ 32
    → crc_block buf (reference buf at) at ≡ reference buf (at + 8)
crc_block-reference buf at h =
    crc_block-next buf (reference buf at) at h
    ∙ sym (after 7 (after 6 (after 5 (after 4 (after 3 (after 2 (after 1 (after_first))))))))
  where
    after :
        (n : ℕ) {c : ℕ}
        → reference buf (at + n) ≡ c
        → reference buf (at + suc n) ≡ next c (buf (at + n))
    after n e =
        ap (reference buf) (omega arith)
        ∙ reference-suc buf (at + n)
        ∙ ap (λ c. next c (buf (at + n))) e

    after_first : reference buf (at + 1) ≡ next (reference buf at) (buf at)
    after_first = ap (reference buf) (omega arith) ∙ reference-suc buf at

pub crc_byte-next : (crc b : ℕ) → b < 256 → crc_byte crc b ≡ next crc b
unfolding crc_byte
crc_byte-next crc b h =
    ap₂ bit_xor high (
      table_zero (bit_and (bit_xor crc b) 0xFF) ∙ ap (crc_steps 8) (bit_and_ones 8 (bit_xor crc b)))
    ∙ sym (crc_steps-apart (bit_xor crc b))
  where
    low : bit_xor (crc % 256) b < 256
    low = bit_xor-lt 8 (crc % 256) b (omega arith) h

    split : crc ≡ bit_xor (crc / 256 * 256) (crc % 256)
    split = omega (arith, bit_xor_apart 8 (crc / 256) (crc % 256) (omega arith))

    joined : bit_xor crc b ≡ crc / 256 * 256 + bit_xor (crc % 256) b
    joined =
        ap (λ c. bit_xor c b) split
        ∙ bit_xor_assoc (crc / 256 * 256) (crc % 256) b
        ∙ bit_xor_apart 8 (crc / 256) (bit_xor (crc % 256) b) low

    high : crc / 256 ≡ bit_xor crc b / 256
    high = omega (arith, joined, low)

crc_steps-lt : (n c : ℕ) → c < 2 ^ 32 → crc_steps n c < 2 ^ 32
unfolding crc_steps
crc_steps-lt zero c h = h
crc_steps-lt (suc n) c h = crc_steps-lt n (crc_step c) (
    rw (crc_step-chosen c)
      (bit_xor-lt 32 (c / 2) (chosen (c % 2)) (omega (arith, h)) (bound (c % 2))))
  where
    bound : (d : ℕ) → chosen d < 2 ^ 32
    bound zero = omega arith
    bound (suc d) = omega arith

pub reference-lt : (buf : ℕ → ℕ) (n : ℕ) → ((i : ℕ) → buf i < 256) → reference buf n < 2 ^ 32
reference-lt buf zero bytes = unfold reference in omega arith
reference-lt buf (suc n) bytes = rw (reference-suc buf n) (
    crc_steps-lt 8 _
      (bit_xor-lt 32 (reference buf n) (buf n) (reference-lt buf n bytes) (omega (arith, bytes n))))
