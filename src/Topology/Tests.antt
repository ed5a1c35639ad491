-- ===== src/Topology/Tests.antt =====
-- A switch with two hosts, and the host of rank 1.
use inc_emulation.Base.{ℕ, ◌+◌, ◌≡◌, refl, arith, true, false, pos, none, some, [], ◌∷◌}
use inc_emulation.External.{External}
use inc_emulation.External.Tree.{absent, trees, two_trees}
use inc_emulation.Switch.State.{Context}
use inc_emulation.Switch.Examples.{two_hosts}
use inc_emulation.Controller.{ConnectionConfig, SwitchConfig}
use inc_emulation.Controller.Route.{Communicator}
use inc_emulation.Controller.Encode.{
  switch_document, generate_yaml_for_switch, encode_switch, encode_connection,
}
use inc_emulation.Config.{done, parse_yaml_config, to_u16, to_u32}
use inc_emulation.Config.Rules.{none_left}
use inc_emulation.Topology.{topology_document, generate_yaml, get_switch_info, get_ip}
use inc_emulation.Topology.Parse.{
  Port, Ports, parse_config, find_switch, read_ports, read_port, parse_mac,
}
use inc_emulation.Topology.Unread.{parse_config-generate_yaml}
use inc_emulation.Topology.Placed.{get_switch_info-parse_yaml_config}

abbrev link_to : ℕ → ConnectionConfig
link_to rank = record {
  conn_id = rank;
  is_switch = false;
  peer_id = pos rank;
  my_ip = (31 + rank) ∷ [];
  my_mac = [];
  my_name = [];
  my_port = 4791;
  my_qp = 11 + rank;
  peer_ip = (41 + rank) ∷ [];
  peer_mac = [];
  peer_port = 4791;
  peer_qp = pos (51 + rank);
}

abbrev the_switch : SwitchConfig
the_switch = record { id = 0; connections = link_to 0 ∷ link_to 1 ∷ []; rules = [] }

abbrev comm : Communicator
comm = record {
  group = record { id = 1; world_size = 2; ip_list = λ r. 41 + r };
  id = 11;
  qp_list = λ r. 51 + r;
  switches = the_switch ∷ [];
  rank_to_conn = λ _. none;
}

-- What is built before any document is read
abbrev blind : External
blind = trees absent

abbrev world : External
world = two_trees (switch_document blind 2 the_switch) (topology_document blind 2 (the_switch ∷ []))

get_switch_info-parse_yaml_config_example :
    (ctx' : Context) × (parse_yaml_config world two_hosts
        (generate_yaml_for_switch world comm (pos 0))
      ≡ some (ctx', done))
    × (get_switch_info world (generate_yaml world comm) 1
        ≡ some (some ((ctx'.conns 1).my_ip, (ctx'.conns 1).my_qp)))
unfolding generate_yaml topology_document generate_yaml_for_switch switch_document encode_switch
    encode_connection
get_switch_info-parse_yaml_config_example =
    get_switch_info-parse_yaml_config world comm the_switch two_hosts 1 1 32 (link_to 1) refl refl
      refl refl (omega arith) (omega arith, (omega arith, tt)) none_left refl refl

abbrev unset : Port
unset = record {
  device = λ _. 0;
  link = record {
    my_mac = 0;
    peer_mac = 0;
    my_ip = 0;
    peer_ip = 0;
    my_port = 0;
    peer_port = 0;
    my_qp = 0;
    peer_qp = 0;
  };
}

abbrev no_ports : Ports
no_ports = record { root = false; conns = λ _. unset }

parse_config-generate_yaml_example :
    parse_config world (generate_yaml world comm) 10 (pos 0) no_ports ≡ none
unfolding generate_yaml topology_document encode_switch encode_connection
parse_config-generate_yaml_example = parse_config-generate_yaml world 10 no_ports comm (pos 0) refl

-- A file with the field, and a name of three letters
abbrev rooted : External
rooted =
    let named = record (link_to 1) { my_name = 101 ∷ 116 ∷ 104 ∷ [] } in
    trees (
      blind.mapping (
        (
          "switches",
          blind.sequence (
              blind.mapping (
                ("root", blind.of_bool true)
                ∷ ("id", blind.of_int (pos 0))
                ∷ ("connections", blind.sequence (encode_connection blind named ∷ []))
                ∷ [])
              ∷ []),
        )
        ∷ []))

parse_config-rooted :
    (o : Ports) × (parse_config rooted [] 10 (pos 0) no_ports ≡ some (pos 1, o))
    × (o.root ≡ true)
    × ((o.conns 0).link.my_qp ≡ 12)
    × ((o.conns 0).device 2 ≡ 104)
unfolding parse_config find_switch read_ports read_port parse_mac get_ip to_u16 to_u32
    encode_connection
parse_config-rooted = (_, refl, refl, refl, refl)
