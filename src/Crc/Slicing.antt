-- ===== src/Crc/Slicing.antt =====
-- repository/src/util.c, `crc32`: the eight tables against the checksum of the bits.
use Prim.Native.Nat.{bit_xor, differ}
use mathlib.Core.Path.{ap₂}
use inc_emulation.Base.{
  ℕ, zero, suc, ◌+◌, ◌*◌, ◌/◌, ◌%◌, ◌<◌, ◌≡◌, refl, sym, ap, ◌∙◌, arith, ◌==◌, if◌then◌else◌,
}
use inc_emulation.Bits.{bit_and_ones}
use inc_emulation.Crc.{poly, crc_step, crc_steps, crc32_table}
use inc_emulation.Crc.Xor.{
  bit_xor-half, bit_xor-odd, zero-bit_xor, bit_xor-zero, bit_xor_comm, bit_xor_assoc, bit_xor_swap,
  bit_xor_apart,
}

abbrev pub chosen : ℕ → ℕ
chosen zero = 0
chosen (suc _) = poly

chosen-differ : (d e : ℕ) → d < 2 → e < 2 → chosen (differ d e) ≡ bit_xor (chosen d) (chosen e)
chosen-differ zero e h k = sym (zero-bit_xor (chosen e))
chosen-differ (suc zero) zero h k = refl
chosen-differ (suc zero) (suc zero) h k = refl
chosen-differ (suc zero) (suc (suc e)) h k = absurd (omega (arith, k))
chosen-differ (suc (suc d)) e h k = absurd (omega (arith, h))

pub crc_step-chosen : (c : ℕ) → crc_step c ≡ bit_xor (c / 2) (chosen (c % 2))
unfolding crc_step
crc_step-chosen c = rw (bit_and_ones 1 c) (ap (bit_xor (c / 2)) (pick (c % 2)))
  where
    pick : (d : ℕ) → (if d == 0 then 0 else poly) ≡ chosen d
    pick zero = refl
    pick (suc d) = ground arith

crc_step-bit_xor : (a b : ℕ) → crc_step (bit_xor a b) ≡ bit_xor (crc_step a) (crc_step b)
crc_step-bit_xor a b =
    crc_step-chosen (bit_xor a b)
    ∙ ap₂ bit_xor (bit_xor-half a b)
        (ap chosen (bit_xor-odd a b) ∙ chosen-differ (a % 2) (b % 2) (omega arith) (omega arith))
    ∙ bit_xor_swap (a / 2) (b / 2) (chosen (a % 2)) (chosen (b % 2))
    ∙ sym (ap₂ bit_xor (crc_step-chosen a) (crc_step-chosen b))

crc_steps-bit_xor :
    (n a b : ℕ) → crc_steps n (bit_xor a b) ≡ bit_xor (crc_steps n a) (crc_steps n b)
unfolding crc_steps
crc_steps-bit_xor zero a b = refl
crc_steps-bit_xor (suc n) a b =
    ap (crc_steps n) (crc_step-bit_xor a b) ∙ crc_steps-bit_xor n (crc_step a) (crc_step b)

crc_step-double : (m : ℕ) → crc_step (m * 2) ≡ m
crc_step-double m =
    crc_step-chosen (m * 2) ∙ ap₂ (λ h d. bit_xor h (chosen d)) half odd ∙ bit_xor-zero m
  where
    half : m * 2 / 2 ≡ m
    half = omega arith

    odd : m * 2 % 2 ≡ 0
    odd = omega arith

crc_steps-shift : (m : ℕ) → crc_steps 8 (m * 256) ≡ m
unfolding crc_steps
crc_steps-shift m =
    down 7 (m * 128) (omega arith)
    ∙ down 6 (m * 64) (omega arith)
    ∙ down 5 (m * 32) (omega arith)
    ∙ down 4 (m * 16) (omega arith)
    ∙ down 3 (m * 8) (omega arith)
    ∙ down 2 (m * 4) (omega arith)
    ∙ down 1 (m * 2) (omega arith)
    ∙ down 0 m refl
  where
    down : (n k : ℕ) {c : ℕ} → c ≡ k * 2 → crc_steps (suc n) c ≡ crc_steps n k
    down n k e = ap (λ c. crc_steps n (crc_step c)) e ∙ ap (crc_steps n) (crc_step-double k)

-- One byte of the checksum, and its high part apart
pub crc_steps-apart : (c : ℕ) → crc_steps 8 c ≡ bit_xor (c / 256) (crc_steps 8 (c % 256))
crc_steps-apart c =
    ap (crc_steps 8) (split ∙ sym (bit_xor_apart 8 (c / 256) (c % 256) (omega arith)))
    ∙ crc_steps-bit_xor 8 (c / 256 * 256) (c % 256)
    ∙ ap (λ t. bit_xor t (crc_steps 8 (c % 256))) (crc_steps-shift (c / 256))
  where
    split : c ≡ c / 256 * 256 + c % 256
    split = omega arith

pub table_zero : (i : ℕ) → crc32_table 0 i ≡ crc_steps 8 i
unfolding crc32_table
table_zero i = refl

crc32_table-suc : (t i : ℕ) → crc32_table (suc t) i ≡ crc_steps 8 (crc32_table t i)
unfolding crc32_table
crc32_table-suc t i =
    ap (λ b. bit_xor (crc32_table t i / 256) (crc_steps 8 b)) (bit_and_ones 8 (crc32_table t i))
    ∙ sym (crc_steps-apart (crc32_table t i))

crc32_table-bit_xor :
    (t a b : ℕ) → crc32_table t (bit_xor a b) ≡ bit_xor (crc32_table t a) (crc32_table t b)
crc32_table-bit_xor zero a b = unfold crc32_table in crc_steps-bit_xor 8 a b
crc32_table-bit_xor (suc t) a b =
    crc32_table-suc t (bit_xor a b)
    ∙ ap (crc_steps 8) (crc32_table-bit_xor t a b)
    ∙ crc_steps-bit_xor 8 (crc32_table t a) (crc32_table t b)
    ∙ sym (ap₂ bit_xor (crc32_table-suc t a) (crc32_table-suc t b))

crc32_table-crc_steps : (t c : ℕ) → crc32_table t (crc_steps 8 c) ≡ crc32_table (suc t) c
crc32_table-crc_steps zero c =
    table_zero (crc_steps 8 c) ∙ ap (crc_steps 8) (sym (table_zero c)) ∙ sym (crc32_table-suc 0 c)
crc32_table-crc_steps (suc t) c =
    crc32_table-suc t (crc_steps 8 c)
    ∙ ap (crc_steps 8) (crc32_table-crc_steps t c)
    ∙ sym (crc32_table-suc (suc t) c)

-- What one more byte does to a table's sum
pub peel :
    (t y v : ℕ)
    → crc32_table t (bit_xor (crc_steps 8 y) v) ≡ bit_xor (crc32_table t v) (crc32_table (suc t) y)
peel t y v =
    crc32_table-bit_xor t (crc_steps 8 y) v
    ∙ bit_xor_comm (crc32_table t (crc_steps 8 y)) (crc32_table t v)
    ∙ ap (bit_xor (crc32_table t v)) (crc32_table-crc_steps t y)

-- A byte that meets what is left of the old checksum
pub absorb :
    (q z b : ℕ)
    → crc_steps 8 (bit_xor (bit_xor q z) b)
      ≡ bit_xor (q / 256) (crc_steps 8 (bit_xor z (bit_xor b (q % 256))))
absorb q z b =
    ap (crc_steps 8) (bit_xor_assoc q z b)
    ∙ crc_steps-bit_xor 8 q (bit_xor z b)
    ∙ ap (λ t. bit_xor t (crc_steps 8 (bit_xor z b))) (crc_steps-apart q)
    ∙ bit_xor_assoc (q / 256) (crc_steps 8 (q % 256)) (crc_steps 8 (bit_xor z b))
    ∙ ap (bit_xor (q / 256)) (
        bit_xor_comm (crc_steps 8 (q % 256)) (crc_steps 8 (bit_xor z b))
        ∙ sym (crc_steps-bit_xor 8 (bit_xor z b) (q % 256))
        ∙ ap (crc_steps 8) (bit_xor_assoc z b (q % 256)))
