-- ===== src/Imm/RoundTrip.antt =====
-- What the switch reads back from the immediate data that a host built.
use Prim.Native.Nat.{bit_or}
use inc_emulation.Base.{ℕ, ◌+◌, ◌*◌, ◌%◌, ◌^◌, ◌≡◌, ◌∙◌, arith}
use inc_emulation.Bits.{bit_and_ones, bit_or_apart}
use inc_emulation.Imm.{
  build_imm_data, get_imm_dest_rank, get_imm_primitive, get_imm_operator, get_imm_datatype,
}

-- The four fields stand apart, so `|` adds them.
build_imm_data_sum :
    (d p o t : ℕ)
    → build_imm_data d p o t
      ≡ d % 2 ^ 16 * 2 ^ 16 + p % 4 * 2 ^ 14 + o % 4 * 2 ^ 12 + t % 16 * 2 ^ 8
unfolding build_imm_data
build_imm_data_sum d p o t =
    rw (bit_and_ones 16 d, bit_and_ones 2 p, bit_and_ones 2 o, bit_and_ones 4 t) joined
  where
    two : bit_or (d % 2 ^ 16 * 2 ^ 16) (p % 4 * 2 ^ 14) ≡ (d % 2 ^ 16 * 4 + p % 4) * 2 ^ 14
    two = omega (arith, bit_or_apart 16 (d % 2 ^ 16) (p % 4 * 2 ^ 14) (omega arith))

    three :
        bit_or ((d % 2 ^ 16 * 4 + p % 4) * 2 ^ 14) (o % 4 * 2 ^ 12)
        ≡ (d % 2 ^ 16 * 16 + p % 4 * 4 + o % 4) * 2 ^ 12
    three = omega (arith, bit_or_apart 14 (d % 2 ^ 16 * 4 + p % 4) (o % 4 * 2 ^ 12) (omega arith))

    joined :
        bit_or
          (bit_or (bit_or (d % 2 ^ 16 * 2 ^ 16) (p % 4 * 2 ^ 14)) (o % 4 * 2 ^ 12))
          (t % 16 * 2 ^ 8)
        ≡ d % 2 ^ 16 * 2 ^ 16 + p % 4 * 2 ^ 14 + o % 4 * 2 ^ 12 + t % 16 * 2 ^ 8
    joined =
        rw (two, three)
          (omega (
            arith,
            bit_or_apart 12 (d % 2 ^ 16 * 16 + p % 4 * 4 + o % 4) (t % 16 * 2 ^ 8) (omega arith),
          ))

-- Whatever values a host puts in, the switch reads each field back modulo the field's width: no
-- field disturbs another one.
pub get_imm-build_imm_data :
    (d p o t : ℕ)
    → (get_imm_dest_rank (build_imm_data d p o t) ≡ d % 2 ^ 16)
      × (get_imm_primitive (build_imm_data d p o t) ≡ p % 4)
      × (get_imm_operator (build_imm_data d p o t) ≡ o % 4)
      × (get_imm_datatype (build_imm_data d p o t) ≡ t % 16)
unfolding get_imm_dest_rank get_imm_primitive get_imm_operator get_imm_datatype
get_imm-build_imm_data d p o t = rw (build_imm_data_sum d p o t) (
  bit_and_ones 16 _ ∙ omega arith,
  bit_and_ones 2 _ ∙ omega arith,
  bit_and_ones 2 _ ∙ omega arith,
  bit_and_ones 4 _ ∙ omega arith,
)
