-- ===== src/Imm/Tests.antt =====
-- Runs of the macros, and the round trip at the values of an AllReduce.
use inc_emulation.Base.{◌≡◌, refl}
use inc_emulation.Imm.{
  build_imm_data, get_imm_dest_rank, get_imm_primitive, get_imm_operator, get_imm_datatype,
}
use inc_emulation.Imm.RoundTrip.{get_imm-build_imm_data}

allreduce_imm : build_imm_data 0xFFFF 0 1 0 ≡ 0xFFFF_1000
unfolding build_imm_data
allreduce_imm = refl

get_imm-build_imm_data_example :
    (get_imm_dest_rank (build_imm_data 3 1 1 0) ≡ 3)
    × (get_imm_primitive (build_imm_data 3 1 1 0) ≡ 1)
    × (get_imm_operator (build_imm_data 3 1 1 0) ≡ 1)
    × (get_imm_datatype (build_imm_data 3 1 1 0) ≡ 0)
get_imm-build_imm_data_example = get_imm-build_imm_data 3 1 1 0
