-- ===== src/Session/Tests.antt =====
-- A session with two ranks, and requests that end early.
use inc_emulation.Base.{ℕ, ◌+◌, ◌≡◌, refl, arith, false, zero, ℤ, pos, none, some, List, [], ◌∷◌}
use inc_emulation.External.{Text, External}
use inc_emulation.External.Tree.{absent, trees, two_trees}
use inc_emulation.Controller.{
  get_elem?, generate_rules, generate_allreduce_rules, generate_reduce_rules,
  generate_broadcast_rules, reduce_rules, broadcast_rules, sender_rules, host_rules, get_host_conns,
  get_host_conns_except, get_conn_for_rank,
}
use inc_emulation.Controller.Route.{
  SwitchPort, Communicator, new_group, new_communicator, calculate_route, add_switch,
  port_connections, fill_peers, fill_peer,
}
use inc_emulation.Controller.Encode.{encode_switch, encode_connection, encode_rule}
use inc_emulation.Config.{or_else}
use inc_emulation.Topology.{topology_document, generate_yaml}
use inc_emulation.Link.{send}
use inc_emulation.Session.{
  State, Memory, group_session, create_group, read_group, create_communicator, recv_word,
  recv_words, le_bytes,
}
use inc_emulation.Session.Served.{coming}
use inc_emulation.Session.Requests.{IsOpen}
use inc_emulation.Session.TwoRanks.{IsAsked, IsServed, group_session-two_ranks}
use inc_emulation.Session.Connected.{IsConnected, group_session-IsConnected}
use inc_emulation.Host.Setup.{register_group, register_communicator, send_words}

abbrev world : External
world = trees absent

abbrev port_at : ℕ → SwitchPort
port_at ip = record { name = 101 ∷ []; ip = ip ∷ []; mac = 250 ∷ [] }

abbrev memory : Memory
memory = record {
  room = 4;
  words = λ _. 0;
  conn = record {
    conn_id = 0;
    is_switch = false;
    peer_id = pos 0;
    my_ip = [];
    my_mac = [];
    my_name = [];
    my_port = 0;
    my_qp = 0;
    peer_ip = [];
    peer_mac = [];
    peer_port = 0;
    peer_qp = pos 0;
  };
}

abbrev opened : List ℤ
opened = pos 4 ∷ pos 4 ∷ pos 4 ∷ pos 4 ∷ pos 4 ∷ pos 4 ∷ pos 4 ∷ []

abbrev start : State
start = record {
  group = none;
  world_size = 0;
  comms = [];
  group_num = 0;
  communicator_num = 10;
  info = record { fd = pos 5; id = 0; control_ip = []; ports = port_at 31 ∷ port_at 32 ∷ [] };
  switch = record { results = opened; wire = [] };
  client = record { results = opened; wire = [] };
  file = none;
}

opened-IsOpen : IsOpen 7 opened
opened-IsOpen = (
  omega arith,
  (omega arith, (omega arith, (omega arith, (omega arith, (omega arith, (omega arith, tt)))))),
)

group_session-two_ranks_example :
    (asked : Communicator) × (comm : Communicator) × (st' : State) × (group_session world 2 memory
        start
        (coming
          (register_communicator 2
            (λ rank. 51 + rank)
            (register_group 2 (λ rank. 41 + rank) (record { results = opened; wire = [] }))).wire)
      ≡ some (st', coming []))
    × IsAsked (λ rank. 41 + rank) (λ rank. 51 + rank) asked
    × IsServed world memory start (port_at 31) (port_at 32) asked comm st'
group_session-two_ranks_example =
    group_session-two_ranks world zero memory start (port_at 31) (port_at 32) (λ rank. 41 + rank)
      (λ rank. 51 + rank) opened refl (omega arith) opened-IsOpen (λ rank h. omega (arith, h))
      (λ rank h. omega (arith, h))

-- A communicator before any group
group_session-no_group : group_session world 1 memory start (coming (67 ∷ [])) ≡ none
unfolding group_session create_communicator
group_session-no_group = refl

-- An unknown request is passed over.
group_session-unknown :
    group_session world 2 memory start (coming (82 ∷ 33 ∷ [])) ≡ some (start, coming [])
unfolding group_session
group_session-unknown = refl

-- What rank 0 sends, and the state that a session with it leaves
abbrev asked_for : Text
asked_for =
    (register_communicator 2 (λ rank. 51 + rank)
      (register_group 2 (λ rank. 41 + rank) (record { results = opened; wire = [] }))).wire

abbrev session_end : External → State
session_end x = (or_else (group_session x 2 memory start (coming asked_for)) (start, coming [])).0

abbrev no_comm : Communicator
no_comm = new_communicator 0 (new_group 0 2 (λ _. 0)) (λ _. 0)

abbrev comm_of : External → Communicator
comm_of x = or_else (get_elem? (session_end x).comms 0) no_comm

-- A world in which the file of that session can be read
abbrev with_file : External
with_file = two_trees absent (topology_document world 2 (comm_of world).switches)

group_session-IsConnected_example :
    IsConnected with_file start
      (session_end with_file)
      (comm_of with_file)
      0
      (4 ∷ 4 ∷ 4 ∷ 4 ∷ [])
      1
      (port_at 32)
unfolding group_session create_group read_group create_communicator recv_word recv_words le_bytes
    register_group register_communicator send_words send new_group new_communicator calculate_route
    add_switch port_connections fill_peers fill_peer generate_rules generate_allreduce_rules
    generate_reduce_rules generate_broadcast_rules reduce_rules broadcast_rules sender_rules
    host_rules get_host_conns get_host_conns_except get_conn_for_rank topology_document
    generate_yaml encode_switch encode_connection encode_rule
group_session-IsConnected_example =
    group_session-IsConnected with_file zero memory start (session_end with_file) (port_at 31)
      (port_at 32) (port_at 32) (λ rank. 41 + rank) (λ rank. 51 + rank) opened
      (pos 4 ∷ pos 4 ∷ pos 4 ∷ pos 4 ∷ pos 4 ∷ pos 4 ∷ []) (4 ∷ 4 ∷ 4 ∷ 4 ∷ []) (comm_of with_file)
      0 4 1 refl (omega arith) opened-IsOpen (λ rank h. omega (arith, h))
      (λ rank h. omega (arith, h)) refl (omega arith) tt
      (omega arith, (omega arith, (omega arith, (omega arith, tt)))) (omega arith) (omega arith)
      (omega arith) (omega arith) (omega arith) refl refl refl (omega arith) refl
