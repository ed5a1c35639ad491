-- ===== src/Imm.antt =====
-- repository/include/util.h: the 32 bits of immediate data that name the operation of a message,
-- [dest_rank:16][primitive:2][operator:2][datatype:4][reserved:8]. The macro BUILD_IMM_DATA
-- packs them on the host (src/api.c), the GET_IMM_* macros read them in the switch.
pub mod RoundTrip
mod Tests
use Prim.Native.Nat.{bit_and, bit_or}
use inc_emulation.Base.{ℕ, ◌*◌, ◌/◌, ◌^◌}

abbrev pub ctl_primitive_allreduce : ℕ
ctl_primitive_allreduce = 0x00

abbrev pub ctl_primitive_reduce : ℕ
ctl_primitive_reduce = 0x01

abbrev pub ctl_primitive_broadcast : ℕ
ctl_primitive_broadcast = 0x02

abbrev pub ctl_operator_sum : ℕ
ctl_operator_sum = 0x01

abbrev pub ctl_datatype_int32 : ℕ
ctl_datatype_int32 = 0x00

abbrev pub ctl_dest_rank_all : ℕ
ctl_dest_rank_all = 0xFFFF

unfoldable pub build_imm_data : (dest_rank primitive operator datatype : ℕ) → ℕ
build_imm_data dest_rank primitive operator datatype =
    bit_or
      (bit_or (bit_or (bit_and dest_rank 0xFFFF * 2 ^ 16) (bit_and primitive 0x03 * 2 ^ 14))
        (bit_and operator 0x03 * 2 ^ 12))
      (bit_and datatype 0x0F * 2 ^ 8)

unfoldable pub get_imm_dest_rank : ℕ → ℕ
get_imm_dest_rank imm = bit_and (imm / 2 ^ 16) 0xFFFF

unfoldable pub get_imm_primitive : ℕ → ℕ
get_imm_primitive imm = bit_and (imm / 2 ^ 14) 0x03

unfoldable pub get_imm_operator : ℕ → ℕ
get_imm_operator imm = bit_and (imm / 2 ^ 12) 0x03

unfoldable pub get_imm_datatype : ℕ → ℕ
get_imm_datatype imm = bit_and (imm / 2 ^ 8) 0x0F
