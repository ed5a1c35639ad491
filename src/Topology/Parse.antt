-- ===== src/Topology/Parse.antt =====
-- repository/src/topo_parser.cpp, `parse_config`: how the pipelined switch reads the same file, and
-- what it makes of the one that the controller writes. A port leaves out the fields of connection_t
-- that the function does not touch.
use inc_emulation.Base.{
  ℕ, zero, suc, ◌+◌, Bool, ltb, leb, if◌then◌else◌, ℤ, pos, minus_one, eq_ℤ, Option, none, some,
  List, [], ◌∷◌, ◌>>=◌, length, update, overwrite,
}
use inc_emulation.External.{Text, External}
use inc_emulation.Packet.{Connection}
use inc_emulation.Config.{to_u16, to_u32}
use inc_emulation.Topology.{get_ip}

pub record Port : Type 0 where
  pub device : ℕ → ℕ
  pub link : Connection

-- The globals that `parse_config` sets
pub record Ports : Type 0 where
  pub root : Bool
  pub conns : ℕ → Port

-- The byte i of a C string
abbrev pub char_at : Text → ℕ → ℕ
char_at [] i = 0
char_at (c ∷ cs) zero = c
char_at (c ∷ cs) (suc i) = char_at cs i

module _ (x : External) where
  open x use {Node, load, get, items, as_int, as_bool, as_text, scan_hex}

  -- `parse_mac`, by what the address is after it
  unfoldable pub parse_mac : Text → (mac : ℕ) → ℕ
  parse_mac t mac = elim (scan_hex t) [ none ↦ mac | some mac' ↦ mac' ]

  -- The assignments for one connection; `none` where yaml-cpp throws, and where the copy of four bytes
  -- reads behind the name and its NUL.
  unfoldable pub read_port : Node → Port → Option Port
  read_port conn port = do
    my_mac ← get conn "my_mac" >>= as_text
    peer_mac ← get conn "peer_mac" >>= as_text
    my_ip ← get conn "my_ip" >>= as_text
    peer_ip ← get conn "peer_ip" >>= as_text
    my_port ← get conn "my_port" >>= as_int
    peer_port ← get conn "peer_port" >>= as_int
    my_qp ← get conn "my_qp" >>= as_int
    peer_qp ← get conn "peer_qp" >>= as_int
    my_name ← get conn "my_name" >>= as_text
    let port' : Port = record {
      device = overwrite 4 (char_at my_name) port.device;
      link = record {
        my_mac = parse_mac my_mac port.link.my_mac;
        peer_mac = parse_mac peer_mac port.link.peer_mac;
        my_ip = get_ip x my_ip;
        peer_ip = get_ip x peer_ip;
        my_port = to_u16 my_port;
        peer_port = to_u16 peer_port;
        my_qp = to_u32 my_qp;
        peer_qp = to_u32 peer_qp;
      };
    }
    if ltb (length my_name) 3 then none else some port'

  -- The loop over the connections from place `index` on: the return value and the globals
  unfoldable pub read_ports : (max_count index : ℕ) → List Node → Ports → Option (ℤ × Ports)
  read_ports max_count index [] ports = some (pos index, ports)
  read_ports max_count index (conn ∷ conns) ports =
      if leb max_count index
      then some (minus_one, ports)
      else (read_port conn (ports.conns index) >>= λ port.
          read_ports max_count (index + 1) conns
            (record ports { conns = update ports.conns index port }))

  -- What follows once the switch has been found
  abbrev pub read_switch : (max_count : ℕ) → Node → Ports → Option (ℤ × Ports)
  read_switch max_count sw ports = do
    root ← get sw "root" >>= as_bool
    conns ← get sw "connections"
    read_ports max_count 0 (items conns) (record ports { root = root })

  -- The loop over the switches
  unfoldable pub find_switch :
      (max_count : ℕ) → (switch_id : ℤ) → List Node → Ports → Option (ℤ × Ports)
  find_switch max_count switch_id [] ports = some (minus_one, ports)
  find_switch max_count switch_id (sw ∷ sws) ports =
      let rest = find_switch max_count switch_id sws ports in
      get sw "id" >>= as_int >>= λ id.
      if eq_ℤ id switch_id then read_switch max_count sw ports else rest

  -- `parse_config`: `none` where yaml-cpp throws, which ends the program
  unfoldable pub parse_config :
      (file : Text) → (max_count : ℕ) → (switch_id : ℤ) → Ports → Option (ℤ × Ports)
  parse_config file max_count switch_id ports = do
    config ← load file
    switches ← get config "switches"
    find_switch max_count switch_id (items switches) ports
