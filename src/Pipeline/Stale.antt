-- ===== src/Pipeline/Stale.antt =====
-- repository/src/non_termination_switch.c: a slot of a switch that is not the root, once it is complete.
use inc_emulation.Base.{ℕ, ◌+◌, ◌≡◌, ap, ◌∙◌, refl, arith, true, false, some, List, [], ◌∷◌}
use inc_emulation.Packet.{Frame, frame_psn, frame_udp_len}
use inc_emulation.Switch.State.{Sent}
use inc_emulation.Switch.Send.Gapless.{targets, Carry}
use inc_emulation.Pipeline.Parts.{
  Pipe, payload_words, fan_in, slots, idx, recv_from_port, count_packet, send_roce_data,
}
use inc_emulation.Pipeline.Step.{PacketClass, up_data, classify, inner_up_data, send_slot, pipeline}
use inc_emulation.Pipeline.Phase.{Child, left, right, port_of}
use inc_emulation.Pipeline.Slot.{slot_body}

sent_before :
    (s : Pipe) (c : Child) (psn : ℕ)
    → s.arrival_state (idx psn) ≡ 7
    → recv_from_port s (port_of c) psn ≡ true
unfolding recv_from_port
sent_before s left psn e = rw e refl
sent_before s right psn e = rw e refl

parent_before :
    (s : Pipe) (psn : ℕ) → s.arrival_state (idx psn) ≡ 7 → recv_from_port s fan_in psn ≡ true
unfolding recv_from_port
parent_before s psn e = rw e refl

-- On a switch that is not the root, a slot that has all its bits answers a data packet of a child with
-- the PSN 16 further on at once: one frame goes to that child, with the sum that the slot holds. The
-- packet is not added, and the slot keeps its sum and its bits. The packet has the length that the switch
-- asserts.
pub pipeline-stale :
    (s : Pipe) (old : PacketClass) (c : Child) (f : Frame) (psn : ℕ)
    → s.root ≡ false
    → s.arrival_state (idx psn) ≡ 7
    → frame_psn f ≡ psn + slots
    → classify f.bth.opcode (port_of c) old ≡ up_data
    → frame_udp_len f ≡ 1048
    → (sent : List Sent) × (pipeline s old (port_of c) f
        ≡ some (count_packet s (frame_psn f), sent))
      × (targets sent ≡ port_of c ∷ [])
      × Carry payload_words (s.aggregator (idx psn)) sent
      × ((count_packet s (frame_psn f)).aggregator (idx psn) ≡ s.aggregator (idx psn))
      × ((count_packet s (frame_psn f)).arrival_state (idx psn) ≡ 7)
unfolding pipeline inner_up_data count_packet Carry targets send_roce_data
pipeline-stale s old c f psn inner full next class len = (
  send_slot counted (port_of c) (frame_psn f) f.bth.opcode ∷ [],
  ground (
    arith,
    inner,
    class,
    len,
    sent_before counted c (frame_psn f) full',
    parent_before counted (frame_psn f) full',
  ),
  refl,
  (
    λ i k.
        slot_body (frame_psn f) (λ _ _. 0) counted (port_of c) f.bth.opcode i k
        ∙ ap (λ n. s.aggregator n i) same,
    tt,
  ),
  refl,
  full,
)
  where
    same : idx (frame_psn f) ≡ idx psn
    same = omega (arith, next)

    counted : Pipe
    counted = count_packet s (frame_psn f)

    full' : counted.arrival_state (idx (frame_psn f)) ≡ 7
    full' = rw same full
