-- ===== src/Controller/Route.antt =====
-- repository/include/controller.h: `controller_group`, `controller_communicator` and
-- `calculate_route`. The two arrays are memory from a pointer on. The source asks for one word for
-- each, whatever the number of ranks; how many words there are is the `room` of Session, outside of
-- which no word is written.
use inc_emulation.Base.{
  ℕ, ◌+◌, ◌-◌, ◌^◌, false, ltb, if◌then◌else◌, ℤ, pos, negsuc, Option, none, some, List, [], ◌∷◌,
  ◌++◌, ◌>>=◌, update, u32_mod,
}
use inc_emulation.External.{Text, External}
use inc_emulation.Controller.{ConnectionConfig, SwitchConfig, generate_rules}
use Prim.Native.Char.{code}
use Prim.Native.String.{String}

-- The bytes of a literal
abbrev pub codes : String → Text
codes String.[] = []
codes (String.◌∷◌ c s) = code c ∷ codes s

pub record SwitchPort : Type 0 where
  pub name : Text
  pub ip : Text
  pub mac : Text

pub record SwitchInfo : Type 0 where
  pub fd : ℤ
  pub id : ℕ
  pub control_ip : Text
  pub ports : List SwitchPort

pub record Group : Type 0 where
  pub id : ℕ
  pub world_size : ℕ
  pub ip_list : ℕ → ℕ

-- The map `rank_to_conn` is a function of the rank.
pub record Communicator : Type 0 where
  pub group : Group
  pub id : ℕ
  pub qp_list : ℕ → ℕ
  pub switches : List SwitchConfig
  pub rank_to_conn : ℕ → Option (ℕ × ℕ)

-- The constructors: the next number of each kind, and arrays that hold what the memory held
unfoldable pub new_group : (group_num world_size : ℕ) (memory : ℕ → ℕ) → Group
new_group group_num world_size memory = record {
  id = group_num + 1;
  world_size = world_size;
  ip_list = update memory 0 world_size;
}

unfoldable pub new_communicator : (communicator_num : ℕ) → Group → (memory : ℕ → ℕ) → Communicator
new_communicator communicator_num group memory = record {
  group = group;
  id = communicator_num + 1;
  qp_list = update memory 0 group.world_size;
  switches = [];
  rank_to_conn = λ _. none;
}

-- A uint32_t as an int
abbrev pub to_int : ℕ → ℤ
to_int w = if ltb w (2 ^ 31) then pos w else negsuc (u32_mod - 1 - w)

-- One connection per port. The fields that a fresh `ConnectionConfig` leaves uninitialised are those
-- of `raw`.
unfoldable pub port_connections :
    (raw : ConnectionConfig) (id conn_id : ℕ) → List SwitchPort → List ConnectionConfig
port_connections raw id conn_id [] = []
port_connections raw id conn_id (port ∷ ports) =
    record raw {
      conn_id = conn_id;
      my_ip = port.ip;
      my_mac = port.mac;
      my_name = port.name;
      my_port = 4791;
      my_qp = id + conn_id;
      peer_ip = [];
      peer_mac = [];
    }
    ∷ port_connections raw id (conn_id + 1) ports

module _ (x : External) where
  -- The assignments for one rank
  unfoldable pub fill_peer : Communicator → ℕ → Text → ConnectionConfig → ConnectionConfig
  fill_peer comm rank mac conn = record conn {
    is_switch = false;
    peer_id = pos rank;
    peer_ip = x.inet_ntop (comm.group.ip_list rank);
    peer_mac = mac;
    peer_port = 4791;
    peer_qp = to_int (comm.qp_list rank);
  }

  -- Ranks 0 and 1 on the first two connections; `none` where there are fewer.
  unfoldable pub fill_peers : Communicator → List ConnectionConfig → Option (List ConnectionConfig)
  fill_peers comm (first ∷ second ∷ rest) = some (
      fill_peer comm 0 (codes "fa:16:3e:87:09:4c") first
      ∷ fill_peer comm 1 (codes "fa:16:3e:7b:25:36") second
      ∷ rest)
  fill_peers comm _ = none

  unfoldable pub add_switch :
      (raw : ConnectionConfig) → SwitchInfo → Communicator → List SwitchConfig
  add_switch raw info comm =
      comm.switches
      ++ (record {
        id = info.id;
        connections = port_connections raw comm.id 0 info.ports;
        rules = [];
      }
          ∷ [])

  -- What follows once the switch is in the vector; the switches behind the first stay.
  abbrev pub route_first : Communicator → List SwitchConfig → Option Communicator
  route_first comm [] = none
  route_first comm (sw ∷ others) = do
    connections ← fill_peers comm sw.connections
    sw' ← generate_rules comm.group.world_size (record sw { connections = connections })
    some (record comm {
      switches = sw' ∷ others;
      rank_to_conn = update (update comm.rank_to_conn 0 (some (0, 0))) 1 (some (0, 1));
    })

  -- `calculate_route`, for the one switch of the topology; the file that `generate_yaml` writes at
  -- the end is not part of the state.
  unfoldable pub calculate_route :
      (raw : ConnectionConfig) → SwitchInfo → Communicator → Option Communicator
  calculate_route raw info comm = route_first comm (add_switch raw info comm)
