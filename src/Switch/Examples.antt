-- ===== src/Switch/Examples.antt =====
-- A switch with two hosts, at the root of its tree, and frames that the hosts send it.
use inc_emulation.Base.{ℕ, ◌+◌, true, none, some, [], ◌∷◌, pos, minus_one, bswap32}
use inc_emulation.Rule.{Rule, RuleTable, allreduce, up}
use inc_emulation.Imm.{build_imm_data}
use inc_emulation.Packet.{Connection, Frame, data_packet, build_eth_packet}
use inc_emulation.Switch.State.{Context, SwitchState}
use inc_emulation.Switch.Context.{init_psn_state}

-- The link of host c to the switch, as the host and as the switch see it
abbrev pub host_link : ℕ → Connection
host_link c = record {
  my_mac = 1 + c;
  peer_mac = 101 + c;
  my_ip = 11 + c;
  peer_ip = 111 + c;
  my_port = 4791;
  peer_port = 4791;
  my_qp = 17;
  peer_qp = 18;
}

abbrev pub switch_link : ℕ → Connection
switch_link c = record {
  my_mac = 101 + c;
  peer_mac = 1 + c;
  my_ip = 111 + c;
  peer_ip = 11 + c;
  my_port = 4791;
  peer_port = 4791;
  my_qp = 18;
  peer_qp = 17;
}

abbrev pub host_rule : ℕ → Rule
host_rule c = record {
  src_ip = 11 + c;
  dst_ip = 111 + c;
  primitive = allreduce;
  primitive_param = minus_one;
  conn_id = pos c;
  direction = up;
  root = true;
  ack_conn = some c;
  out_conns = 0 ∷ 1 ∷ [];
}

abbrev pub two_rules : RuleTable
two_rules = host_rule 0 ∷ host_rule 1 ∷ []

abbrev pub two_hosts : Context
two_hosts = record {
  psn_states = λ _. init_psn_state;
  conns = switch_link;
  fan_in = 2;
  is_root = true;
  agg_epsn = λ _. 0;
  down_epsn = 0;
  latest_ack = λ _. 0;
  down_ack = 0;
  send_psn = λ _. 0;
  routing_table = two_rules;
  rank_to_conn = λ rank. pos rank;
  operation_type = allreduce;
  root_rank = minus_one;
  ctrl_psn = minus_one;
  switch_id = pos 1;
  controller_fd = minus_one;
  state = SwitchState.running;
  num_receivers = 2;
}

-- The words 7, 8, ... in network order
abbrev pub counting : ℕ → ℕ
counting i = bswap32 (i + 7)

-- A data frame of four words from host c, in the middle of a message
abbrev pub host_data : (c psn : ℕ) → Frame
host_data c psn = build_eth_packet data_packet counting 16 (host_link c) psn (psn + 1) 1 none

-- The control message of host c for an AllReduce of all ranks
abbrev pub host_control : (c psn : ℕ) → Frame
host_control c psn =
    build_eth_packet data_packet (λ _. bswap32 (build_imm_data 0xFFFF 0 1 0)) 4 (host_link c) psn
      (psn + 1) 5 none
