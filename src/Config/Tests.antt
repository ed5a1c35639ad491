-- ===== src/Config/Tests.antt =====
-- The way from the topology to the switch at concrete values: two ports and two ranks.
use inc_emulation.Base.{
  none, ℕ, ◌+◌, ◌*◌, ◌≡◌, ◌<◌, refl, arith, false, zero, suc, pos, minus_one, some, [], ◌∷◌, length,
  u32_mod,
}
use inc_emulation.External.{External}
use inc_emulation.External.Tree.{trees, Tree, absent}
use inc_emulation.Switch.State.{Context}
use inc_emulation.Switch.Examples.{two_hosts as two_hosts_context}
use inc_emulation.Controller.{
  ConnectionConfig, SwitchConfig, generate_rules, get_host_conns, get_host_conns_except,
  get_conn_for_rank, generate_allreduce_rules, generate_reduce_rules, generate_broadcast_rules,
  reduce_rules, broadcast_rules, sender_rules, host_rules,
}
use inc_emulation.Controller.Route.{
  SwitchPort, SwitchInfo, Communicator, calculate_route, add_switch, port_connections, fill_peers,
  fill_peer,
}
use inc_emulation.Controller.Encode.{
  encode_switch, encode_connection, encode_rule, switch_document, generate_yaml_for_switch,
}
use inc_emulation.Controller.Generated.{generate_rules-length}
use inc_emulation.Config.{done, or_else, parse_yaml_config}
use inc_emulation.Config.Rules.{IsKnown, none_left}
use inc_emulation.Config.Applied.{IsApplied, parse_yaml_config-switch_document}
use inc_emulation.Config.TwoHosts.{IsDeployed, two_hosts, two_hosts-AllConnected}
use inc_emulation.Config.Deployed.{calculate_route-IsDeployed}

abbrev blank : ConnectionConfig
blank = record {
  conn_id = 0;
  is_switch = false;
  peer_id = minus_one;
  my_ip = [];
  my_mac = [];
  my_name = [];
  my_port = 0;
  my_qp = 0;
  peer_ip = [];
  peer_mac = [];
  peer_port = 0;
  peer_qp = pos 0;
}

abbrev port_at : ℕ → SwitchPort
port_at ip = record { name = 101 ∷ []; ip = ip ∷ []; mac = 250 ∷ [] }

abbrev info : SwitchInfo
info = record { fd = pos 5; id = 0; control_ip = []; ports = port_at 31 ∷ port_at 32 ∷ [] }

abbrev comm : Communicator
comm = record {
  group = record { id = 1; world_size = 2; ip_list = λ r. 41 + r };
  id = 11;
  qp_list = λ r. 51 + r;
  switches = [];
  rank_to_conn = λ _. none;
}

-- What is built before any document is read
abbrev blind : External
blind = trees absent

abbrev start : SwitchConfig
start = record {
  id = 0;
  connections = two_hosts blind blank comm (port_at 31) (port_at 32);
  rules = [];
}

abbrev the_switch : SwitchConfig
the_switch = or_else (generate_rules 2 start) start

abbrev document : Tree
document = switch_document blind 2 the_switch

abbrev routed_comm : Communicator
routed_comm = or_else (calculate_route (trees document) blank info comm) comm

generate_rules-length_example :
    (sw' : SwitchConfig) × (generate_rules 2 start ≡ some sw')
    × (length sw'.rules ≡ 2 + 2 * 2 + 2)
    × IsKnown sw'.rules
    × (sw'.id ≡ 0)
    × (sw'.connections ≡ start.connections)
unfolding get_host_conns
generate_rules-length_example =
    generate_rules-length 2 start refl
      (two_hosts-AllConnected blind blank comm (port_at 31) (port_at 32))

below_two : (f : ℕ → ℕ) → f 0 < u32_mod → f 1 < u32_mod → (rank : ℕ) → rank < 2 → f rank < u32_mod
below_two f a b zero h = a
below_two f a b (suc zero) h = b
below_two f a b (suc (suc r)) h = absurd (omega (arith, h))

parse_yaml_config-switch_document_example :
    (ctx' : Context) × (parse_yaml_config
        (trees (switch_document blind 2 start))
        two_hosts_context
        []
      ≡ some (ctx', done))
    × IsApplied (trees (switch_document blind 2 start)) start two_hosts_context ctx'
unfolding switch_document encode_switch encode_connection
parse_yaml_config-switch_document_example =
    parse_yaml_config-switch_document (trees (switch_document blind 2 start)) two_hosts_context [] 2
      start refl (omega arith) none_left

calculate_route-IsDeployed_example :
    (ctx' : Context) × (parse_yaml_config
        (trees document)
        two_hosts_context
        (generate_yaml_for_switch (trees document) routed_comm (pos 0))
      ≡ some (ctx', done))
    × IsDeployed (trees document) blank comm (port_at 31) (port_at 32) info ctx'
unfolding generate_rules generate_allreduce_rules generate_reduce_rules generate_broadcast_rules
    reduce_rules broadcast_rules sender_rules host_rules get_host_conns get_conn_for_rank
    get_host_conns_except calculate_route add_switch port_connections fill_peers fill_peer
    switch_document encode_switch encode_connection encode_rule
calculate_route-IsDeployed_example =
    calculate_route-IsDeployed (trees document) blank info (port_at 31) (port_at 32) comm
      routed_comm the_switch two_hosts_context refl refl refl
      (below_two comm.group.ip_list (omega arith) (omega arith))
      (below_two comm.qp_list (omega arith) (omega arith)) (λ e. cc e) refl refl refl
