-- ===== src/Topology.antt =====
-- How a host learns its place: `generate_yaml` of repository/include/controller.h writes the file
-- topology.yaml with the switches of a communicator, and `get_switch_info` of
-- repository/src/topo_parser.cpp, which inccl_communicator_create of repository/src/api.c calls, finds
-- in it the address and the QP of the switch's connection to a rank.
pub mod Found
pub mod Placed
mod Parse
mod Unread
mod Tests
use inc_emulation.Base.{
  ℕ, Bool, true, false, if◌then◌else◌, ℤ, pos, minus_one, eq_ℤ, Option, none, some, List, [], ◌∷◌,
  map, ◌>>=◌,
}
use inc_emulation.External.{Text, External}
use inc_emulation.Controller.{SwitchConfig}
use inc_emulation.Controller.Encode.{encode_switch}
use inc_emulation.Controller.Route.{Communicator}
use inc_emulation.Config.{to_u32}

module _ (x : External) where
  open x use {Node, load, emit, get, is_defined, items, as_int, as_text, of_int, sequence, mapping}

  -- The root node of the file
  unfoldable pub topology_document : (world_size : ℕ) → List SwitchConfig → Node
  topology_document world_size switches = mapping (
      ("world_size", of_int (pos world_size))
      ∷ ("switches", sequence (map (encode_switch x) switches))
      ∷ [])

  -- `generate_yaml`, as the content of the file
  unfoldable pub generate_yaml : Communicator → Text
  generate_yaml comm = emit (topology_document comm.group.world_size comm.switches)

  -- `peer_id`, or `host_id` in the older form of the file; `none` where a subscript or a conversion
  -- throws.
  unfoldable pub peer_of : (conn : Node) → Option ℤ
  peer_of conn = get conn "peer_id" >>= λ peer.
      if is_defined peer
      then as_int peer
      else (get conn "host_id" >>= λ host. if is_defined host then as_int host else some minus_one)

  -- `get_ip` of repository/src/util.c: 0 for a text that is no address
  unfoldable pub get_ip : Text → ℕ
  get_ip t = elim (x.inet_pton t) [ none ↦ 0 | some ip ↦ ip ]

  -- The two numbers that are stored for a connection
  unfoldable pub info_of : (conn : Node) → Option (ℕ × ℕ)
  info_of conn = do
    ip_node ← get conn "my_ip"
    ip ← as_text ip_node
    qp_node ← get conn "my_qp"
    qp ← x.as_uint qp_node
    some (get_ip ip, qp)

  -- The loop over the connections of one switch, up to the first one to that rank: the inner `none` if
  -- there is none
  unfoldable pub search_connections : List Node → (rank : ℕ) → Option (Option (ℕ × ℕ))
  search_connections [] rank = some none
  search_connections (conn ∷ conns) rank =
      let rest = search_connections conns rank in
      peer_of conn >>= λ peer.
      if eq_ℤ peer (pos rank) then (info_of conn >>= λ info. some (some info)) else rest

  unfoldable pub search_switches : List Node → (rank : ℕ) → Option (Option (ℕ × ℕ))
  search_switches [] rank = some none
  search_switches (sw ∷ sws) rank =
      let rest = search_switches sws rank in
      get sw "connections" >>= λ conns. search_connections (items conns) rank >>= λ found.
      elim found [ some info ↦ some (some info) | none ↦ rest ]

  -- `get_switch_info`: the outer `none` where yaml-cpp throws, which ends the program; the inner for
  -- the return value -1.
  unfoldable pub get_switch_info : (file : Text) → (rank : ℕ) → Option (Option (ℕ × ℕ))
  get_switch_info file rank = do
    config ← load file
    switches ← get config "switches"
    search_switches (items switches) rank
