-- ===== src/Controller.antt =====
-- repository/include/controller.h: what the controller works out for a communicator: the switch's
-- connections and its rules. TOPOLOGY_SIZE is 1, so a loop over the switches is one pass over
-- `switches[0]`. Numbers of type int that are never negative are ℕ.
pub mod Route
pub mod Encode
pub mod Found
pub mod Served
pub mod Generated
use inc_emulation.Base.{
  ℕ, zero, suc, ◌+◌, ◌-◌, ◌<◌, ◌^◌, Bool, true, false, not, ◌&&◌, ◌||◌, ltb, if◌then◌else◌, ℤ, pos,
  negsuc, eq_ℤ, minus_one, Option, none, some, List, [], ◌∷◌, ◌++◌, ◌>>=◌, u32_mod,
}
use inc_emulation.External.{Text}

pub record ConnectionConfig : Type 0 where
  pub conn_id : ℕ
  pub is_switch : Bool
  pub peer_id : ℤ
  pub my_ip : Text
  pub my_mac : Text
  pub my_name : Text
  pub my_port : ℕ
  pub my_qp : ℕ
  pub peer_ip : Text
  pub peer_mac : Text
  pub peer_port : ℕ
  pub peer_qp : ℤ

pub record RuleConfig : Type 0 where
  pub src_ip : Text
  pub dst_ip : Text
  pub primitive : ℕ
  pub primitive_param : ℤ
  pub conn_id : ℕ
  pub direction : ℕ
  pub root : Bool
  pub ack_conn : ℕ
  pub out_conns : List ℤ

pub record SwitchConfig : Type 0 where
  pub id : ℕ
  pub connections : List ConnectionConfig
  pub rules : List RuleConfig

-- The connections of a switch that lead to hosts
unfoldable pub get_host_conns : List ConnectionConfig → List ℤ
get_host_conns [] = []
get_host_conns (conn ∷ conns) =
    let rest = get_host_conns conns in if conn.is_switch then rest else pos conn.conn_id ∷ rest

unfoldable pub get_conn_for_rank : List ConnectionConfig → ℕ → ℤ
get_conn_for_rank [] rank = minus_one
get_conn_for_rank (conn ∷ conns) rank =
    let rest = get_conn_for_rank conns rank in
    if not conn.is_switch && eq_ℤ conn.peer_id (pos rank) then pos conn.conn_id else rest

unfoldable pub get_host_conns_except : List ConnectionConfig → ℕ → List ℤ
get_host_conns_except [] except_rank = []
get_host_conns_except (conn ∷ conns) except_rank =
    let rest = get_host_conns_except conns except_rank in
    if not conn.is_switch && not (eq_ℤ conn.peer_id (pos except_rank))
    then pos conn.conn_id ∷ rest
    else rest

-- The rule for what a host sends up one connection, in the three functions below
abbrev pub up_rule :
    (primitive : ℕ) (param : ℤ) (out_conns : List ℤ) → ConnectionConfig → RuleConfig
up_rule primitive param out_conns conn = record {
  src_ip = conn.peer_ip;
  dst_ip = conn.my_ip;
  primitive = primitive;
  primitive_param = param;
  conn_id = conn.conn_id;
  direction = 0;
  root = true;
  ack_conn = conn.conn_id;
  out_conns = out_conns;
}

-- The inner loop of the first two: one rule for each connection to a host
unfoldable pub host_rules :
    (ConnectionConfig → RuleConfig) → List ConnectionConfig → List RuleConfig
host_rules f [] = []
host_rules f (conn ∷ conns) =
    let rest = host_rules f conns in if conn.is_switch then rest else f conn ∷ rest

unfoldable pub generate_allreduce_rules : SwitchConfig → SwitchConfig
generate_allreduce_rules sw =
    let host_conns = get_host_conns sw.connections in
    record sw { rules = sw.rules ++ host_rules (up_rule 1 minus_one host_conns) sw.connections }

-- The rules for the root ranks below the first argument
unfoldable pub reduce_rules : ℕ → List ConnectionConfig → List RuleConfig
reduce_rules zero conns = []
reduce_rules (suc root_rank) conns =
    let root_conn = get_conn_for_rank conns root_rank in
    reduce_rules root_rank conns ++ host_rules (up_rule 2 (pos root_rank) (root_conn ∷ [])) conns

unfoldable pub generate_reduce_rules : (world_size : ℕ) → SwitchConfig → SwitchConfig
generate_reduce_rules world_size sw = record sw {
  rules = sw.rules ++ reduce_rules world_size sw.connections;
}

-- `sw.connections[i]`; `none` out of range.
abbrev pub get_elem? {ℓ} : {A : Type ℓ} → List A → ℕ → Option A
get_elem? [] i = none
get_elem? (x ∷ xs) zero = some x
get_elem? (x ∷ xs) (suc i) = get_elem? xs i

-- The rules for one sender: none where it has no connection, and `none` where its connection is not
-- an element of the vector.
abbrev pub rules_from : ℕ → List ℤ → List ConnectionConfig → ℤ → Option (List RuleConfig)
rules_from sender_rank receivers conns (negsuc _) = some []
rules_from sender_rank receivers conns (pos sender_conn) = do
  conn ← get_elem? conns sender_conn
  some (up_rule 3 (pos sender_rank) receivers conn ∷ [])

unfoldable pub sender_rules : ℕ → List ConnectionConfig → Option (List RuleConfig)
sender_rules sender_rank conns =
    let receivers = get_host_conns_except conns sender_rank in
    rules_from sender_rank receivers conns (get_conn_for_rank conns sender_rank)

-- The rules for the sender ranks below the first argument
unfoldable pub broadcast_rules : ℕ → List ConnectionConfig → Option (List RuleConfig)
broadcast_rules zero conns = some []
broadcast_rules (suc sender_rank) conns = do
  before ← broadcast_rules sender_rank conns
  rules ← sender_rules sender_rank conns
  some (before ++ rules)

unfoldable pub generate_broadcast_rules : (world_size : ℕ) → SwitchConfig → Option SwitchConfig
generate_broadcast_rules world_size sw = do
  rules ← broadcast_rules world_size sw.connections
  some (record sw { rules = sw.rules ++ rules })

-- All three, as `calculate_route` calls them
unfoldable pub generate_rules : (world_size : ℕ) → SwitchConfig → Option SwitchConfig
generate_rules world_size sw =
    generate_broadcast_rules world_size
      (generate_reduce_rules world_size (generate_allreduce_rules sw))
