-- ===== src/Pipeline/Tests.antt =====
-- A pipelined switch with two children, on one PSN.
use inc_emulation.Base.{
  ℕ, ◌+◌, ◌%◌, ◌≡◌, ap, arith, refl, true, false, some, none, List, [], ◌∷◌, bswap32, bswap16,
  u32_mod,
}
use inc_emulation.Packet.{
  Frame, data_packet, build_eth_packet, total_len, extra_len, bth_opcode, bth_apsn, packet_body,
  frame_psn, frame_udp_len,
}
use inc_emulation.Switch.State.{Sent}
use inc_emulation.Switch.Examples.{switch_link, host_link}
use inc_emulation.Switch.Send.Gapless.{targets, Carry}
use inc_emulation.Pipeline.Parts.{Pipe, payload_words, count_packet}
use inc_emulation.Pipeline.Step.{up_ack, classify, pipeline}
use inc_emulation.Pipeline.Phase.{
  Child, left, right, port_of, idle, done, next_phase, answered, phase_after, all_answered,
  phase_bits, phase_sum,
}
use inc_emulation.Pipeline.Slot.{Simulates}
use inc_emulation.Pipeline.Refine.{pipeline_all, IsUp, ports, pipeline_all-Phase}
use inc_emulation.Pipeline.Stale.{pipeline-stale}

abbrev empty_root : Pipe
empty_root = record {
  aggregator = λ _ _. 0;
  reth_keeper = λ _ _ _. 0;
  arrival_state = λ _. 0;
  degree = λ _. 0;
  conns = switch_link;
  root = true;
}

abbrev numbers : Child → ℕ → ℕ
numbers c i = bswap32 (i + port_of c)

-- The data packet of a child for the PSN 5
abbrev child_frame : Child → ℕ → Frame
child_frame c psn =
    build_eth_packet data_packet (λ i. i + port_of c) 1024 (host_link (port_of c)) psn (psn + 1) 4
      none

abbrev three : List (Child × Frame)
three = (left, child_frame left 5) ∷ (left, child_frame left 5) ∷ (right, child_frame right 5) ∷ []

child_frame-IsUp : (c : Child) → IsUp 5 numbers c (child_frame c 5)
unfolding classify build_eth_packet bth_opcode bth_apsn packet_body total_len extra_len frame_psn
    frame_udp_len bswap16 bswap32
child_frame-IsUp left = record {
  class = λ old. refl;
  psn_is = refl;
  len = refl;
  numbers = λ i k. ap bswap32 (ground (arith, k));
}
child_frame-IsUp right = record {
  class = λ old. refl;
  psn_is = refl;
  len = refl;
  numbers = λ i k. ap bswap32 (ground (arith, k));
}

empty_root-Simulates : Simulates 5 numbers empty_root idle
unfolding phase_bits phase_sum
empty_root-Simulates = record { is_root = refl; bits = refl; sums = λ _ _. refl }

pipeline_all-Phase_example :
    (last : Pipe) × (sent : List Sent) × (pipeline_all empty_root up_ack (ports three)
      ≡ some (last, sent))
    × Simulates 5 numbers last done
    × (targets sent ≡ 0 ∷ 1 ∷ [])
    × Carry payload_words (λ i. (numbers left i + numbers right i) % u32_mod) sent
unfolding phase_after all_answered next_phase answered
pipeline_all-Phase_example =
    pipeline_all-Phase 5 numbers empty_root up_ack idle three
      (child_frame-IsUp left, (child_frame-IsUp left, (child_frame-IsUp right, tt)))
      empty_root-Simulates

abbrev full_inner : Pipe
full_inner = record empty_root { root = false; arrival_state = λ _. 7; aggregator = λ _ i. i + 1 }

pipeline-stale_example :
    (sent : List Sent) × (pipeline full_inner up_ack 0 (child_frame left 21)
      ≡ some (count_packet full_inner (frame_psn (child_frame left 21)), sent))
    × (targets sent ≡ 0 ∷ [])
    × Carry payload_words (λ i. i + 1) sent
    × ((count_packet full_inner (frame_psn (child_frame left 21))).aggregator 5 ≡ λ i. i + 1)
    × ((count_packet full_inner (frame_psn (child_frame left 21))).arrival_state 5 ≡ 7)
unfolding classify build_eth_packet bth_opcode bth_apsn total_len extra_len frame_psn frame_udp_len
    bswap16 bswap32
pipeline-stale_example =
    pipeline-stale full_inner up_ack left (child_frame left 21) 5 refl refl refl refl refl
