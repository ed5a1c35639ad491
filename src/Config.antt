-- ===== src/Config.antt =====
-- repository/termination_switch/src/controller_comm.cpp: how a switch reads the configuration that
-- the controller sends. `none` is undefined behaviour, as for every step of the switch: here the
-- cast of a number that is no enumerator to `primitive_type_t`. The device name, the counters and
-- the flag of a connection, which the handler does not use, have no field.
pub mod ReadBack
pub mod Connections
pub mod Rules
pub mod Applied
pub mod TwoHosts
pub mod Deployed
mod Tests
use Prim.Native.String.{String}
use inc_emulation.Base.{
  ℕ, zero, suc, ◌+◌, ◌-◌, ◌%◌, ◌==◌, Bool, true, false, not, ◌&&◌, ◌||◌, ltb, leb, if◌then◌else◌, ℤ,
  pos, negsuc, eq_ℤ, minus_one, Option, none, some, List, [], ◌∷◌, ◌++◌, ◌>>=◌, length, update,
  u16_mod, u32_mod,
}
use inc_emulation.External.{Text, External}
use inc_emulation.Packet.{Connection}
use inc_emulation.Rule.{
  Primitive, null, allreduce, reduce, broadcast, Direction, up, down, Rule, RuleTable, max_rules,
}
use inc_emulation.Switch.State.{Context, max_connections_num, max_ranks}
use inc_emulation.Switch.Context.{zero_connection, switch_context_reset_psn_states}

abbrev pub max_port_num : ℕ
max_port_num = 10

-- The returns 0 and -1
pub data Status : Type 0 where
  done failed : Status

-- An int as an uint32_t or an uint16_t
unfoldable pub to_u32 : ℤ → ℕ
to_u32 (pos n) = n % u32_mod
to_u32 (negsuc n) = u32_mod - 1 - n % u32_mod

unfoldable pub to_u16 : ℤ → ℕ
to_u16 (pos n) = n % u16_mod
to_u16 (negsuc n) = u16_mod - 1 - n % u16_mod

-- The cast to `primitive_type_t`
unfoldable pub to_primitive : ℤ → Option Primitive
to_primitive (negsuc _) = none
to_primitive (pos n) =
    if n == 0
    then some null
    else if n == 1
    then some allreduce
    else if n == 2
    then some reduce
    else if n == 3
    then some broadcast
    else none

-- The switch only asks whether a direction is DIR_DOWN.
abbrev pub to_direction : ℤ → Direction
to_direction z = if eq_ℤ z (pos 1) then down else up

-- An index of `conns`, from a number that may be out of range
unfoldable pub to_conn : ℤ → Option ℕ
to_conn (pos c) = if ltb c max_connections_num then some c else none
to_conn (negsuc _) = none

abbrev pub or_else {ℓ} : {A : Type ℓ} → Option A → A → A
or_else (some a) b = a
or_else none b = b

-- What the body of the loop over the connections reads from a node
pub record Link : Type 0 where
  pub conn_id : ℤ
  pub is_switch : Bool
  pub peer_id : ℤ
  pub conn : Connection

-- `ctx->rank_to_conn[peer_id] = conn_id`, for a host whose rank is in range
unfoldable pub map_rank : (ℕ → ℤ) → Link → ℕ → ℤ
map_rank ranks link = by_rank link.peer_id
  where
    by_rank : ℤ → ℕ → ℤ
    by_rank (negsuc _) = ranks
    by_rank (pos r) =
        if not link.is_switch && ltb r max_ranks then update ranks r link.conn_id else ranks

unfoldable pub store_connection : Context → ℕ → Link → Context
store_connection ctx conn_idx link = record ctx {
  conns = update ctx.conns conn_idx link.conn;
  rank_to_conn = map_rank ctx.rank_to_conn link;
}

-- A subscript or a conversion that throws ends the parsing with -1 and leaves the state as it is.
abbrev pub or_fail {ℓ} :
    {A : Type ℓ} → Option A → Context → (A → Option (Context × Status)) → Option (Context × Status)
or_fail none ctx f = some (ctx, failed)
or_fail (some a) ctx f = f a

-- What the second step clears
unfoldable pub clear_config : Context → Context
clear_config ctx = switch_context_reset_psn_states (record ctx {
  conns = λ _. zero_connection;
  fan_in = 0;
  routing_table = [];
  rank_to_conn = λ _. minus_one;
})

module _ (x : External) where
  open x use {
    Node, load, get, is_defined, is_sequence, items, as_int, as_bool, as_text, inet_addr, scan_mac,
  }

  -- `node[key].as<T>(fallback)`
  unfoldable pub int_or : Node → String → ℤ → Option ℤ
  int_or node key fallback = do n ← get node key; some (or_else (as_int n) fallback)

  unfoldable pub bool_or : Node → String → Bool → Option Bool
  bool_or node key fallback = do n ← get node key; some (or_else (as_bool n) fallback)

  unfoldable pub text_or : Node → String → Text → Option Text
  text_or node key fallback = do n ← get node key; some (or_else (as_text n) fallback)

  -- `if (!mac.empty()) sscanf(...)`
  abbrev pub mac_of : Text → ℕ → ℕ
  mac_of [] old = old
  mac_of (c ∷ cs) old = scan_mac (c ∷ cs) old

  -- One connection; `none` where a subscript throws, which is before anything is stored.
  unfoldable pub read_connection : Node → (conn_idx : ℕ) → (old : Connection) → Option Link
  read_connection node conn_idx old = do
    conn_id ← int_or node "conn_id" (pos conn_idx)
    is_switch ← bool_or node "is_switch" false
    peer_id ← int_or node "peer_id" minus_one
    my_ip ← text_or node "my_ip" []
    my_mac ← text_or node "my_mac" []
    my_name ← text_or node "my_name" []
    my_port ← int_or node "my_port" (pos 4791)
    my_qp ← int_or node "my_qp" (pos 0)
    peer_ip ← text_or node "peer_ip" []
    peer_mac ← text_or node "peer_mac" []
    peer_port ← int_or node "peer_port" (pos 4791)
    peer_qp ← int_or node "peer_qp" (pos 0)
    some (record {
      conn_id = conn_id;
      is_switch = is_switch;
      peer_id = peer_id;
      conn = record {
        my_mac = mac_of my_mac old.my_mac;
        peer_mac = mac_of peer_mac old.peer_mac;
        my_ip = inet_addr my_ip;
        peer_ip = inet_addr peer_ip;
        my_port = to_u16 my_port;
        peer_port = to_u16 peer_port;
        my_qp = to_u32 my_qp;
        peer_qp = to_u32 peer_qp;
      };
    })

  -- The loop over the nodes, from index `conn_idx` on, and the `fan_in` behind it
  unfoldable pub parse_each_connection : Context → (conn_idx : ℕ) → List Node → Context × Status
  parse_each_connection ctx conn_idx [] = (record ctx { fan_in = conn_idx }, done)
  parse_each_connection ctx conn_idx (node ∷ nodes) =
      let read = read_connection node conn_idx (ctx.conns conn_idx) in
      elim (leb max_connections_num conn_idx) [
        | true ↦ (record ctx { fan_in = conn_idx }, done)
        | false ↦ elim read [
          | none ↦ (ctx, failed)
          | some link ↦
              parse_each_connection (store_connection ctx conn_idx link) (conn_idx + 1) nodes
        ]
      ]

  unfoldable pub parse_connections : Context → Node → Context × Status
  parse_connections ctx connections =
      if not (is_defined connections) || not (is_sequence connections)
      then (ctx, failed)
      else parse_each_connection ctx 0 (items connections)

  -- The loop over `out_conns`, from index `out_idx` on
  unfoldable pub read_out_conns : (out_idx : ℕ) → List Node → List ℕ
  read_out_conns out_idx [] = []
  read_out_conns out_idx (node ∷ nodes) = elim (leb max_port_num out_idx) [
    | true ↦ []
    | false ↦ elim (to_conn (or_else (as_int node) minus_one)) [
      | none ↦ read_out_conns out_idx nodes
      | some c ↦ c ∷ read_out_conns (out_idx + 1) nodes
    ]
  ]

  -- One rule: the outer `none` where a subscript throws, the inner where the cast is undefined
  unfoldable pub read_rule : Node → Option (Option Rule)
  read_rule node = do
    src_ip ← text_or node "src_ip" []
    dst_ip ← text_or node "dst_ip" []
    primitive ← int_or node "primitive" (pos 0)
    primitive_param ← int_or node "primitive_param" minus_one
    conn_id ← int_or node "conn_id" (pos 0)
    direction ← int_or node "direction" (pos 0)
    root ← bool_or node "root" false
    ack_conn ← int_or node "ack_conn" minus_one
    out ← get node "out_conns"
    let outs = if is_defined out && is_sequence out then read_out_conns 0 (items out) else []
    some (do
      p ← to_primitive primitive
      some (record {
        src_ip = inet_addr src_ip;
        dst_ip = inet_addr dst_ip;
        primitive = p;
        primitive_param = primitive_param;
        conn_id = conn_id;
        direction = to_direction direction;
        root = root;
        ack_conn = to_conn ack_conn;
        out_conns = outs;
      }))

  -- The loop over the rules
  unfoldable pub parse_each_rule : RuleTable → List Node → Option (RuleTable × Status)
  parse_each_rule table [] = some (table, done)
  parse_each_rule table (node ∷ nodes) = elim (leb max_rules (length table)) [
    | true ↦ some (table, done)
    | false ↦ elim (read_rule node) [
      | none ↦ some (table, failed)
      | some none ↦ none
      | some (some rule) ↦ parse_each_rule (table ++ (rule ∷ [])) nodes
    ]
  ]

  -- No rules are no error.
  unfoldable pub parse_rules : Context → Node → Option (Context × Status)
  parse_rules ctx rules =
      if not (is_defined rules) || not (is_sequence rules) then some (ctx, done) else do
        parsed ← parse_each_rule ctx.routing_table (items rules)
        some (record ctx { routing_table = parsed.0 }, parsed.1)

  -- What follows the connections
  abbrev pub then_rules : (switch_node : Node) → Context × Status → Option (Context × Status)
  then_rules switch_node (ctx, failed) = some (ctx, failed)
  then_rules switch_node (ctx, done) = or_fail (get switch_node "rules") ctx (parse_rules ctx)

  -- The two parts, once everything is cleared
  unfoldable pub parse_parts : Context → (switch_node : Node) → Option (Context × Status)
  parse_parts ctx switch_node =
      or_fail (get switch_node "connections") ctx
        (λ connections. then_rules switch_node (parse_connections ctx connections))

  -- The id that is stored, if there is one
  abbrev pub with_id : Context → Node → (is_defined : Bool) → Option Context
  with_id ctx id false = some ctx
  with_id ctx id true = do z ← as_int id; some (record ctx { switch_id = z })

  -- `if (switch_node["id"]) ctx->switch_id = ...`; `none` where one of the two throws.
  unfoldable pub store_id : Context → (switch_node : Node) → Option Context
  store_id ctx switch_node = do id ← get switch_node "id"; with_id ctx id (is_defined id)

  unfoldable pub parse_switch : Context → (switch_node : Node) → Option (Context × Status)
  parse_switch ctx switch_node =
      if not (is_defined switch_node)
      then some (ctx, failed)
      else or_fail (store_id ctx switch_node) ctx
          (λ ctx'. parse_parts (clear_config ctx') switch_node)

  unfoldable pub parse_yaml_config : Context → (yaml_buffer : Text) → Option (Context × Status)
  parse_yaml_config ctx yaml_buffer =
      or_fail (load yaml_buffer) ctx (λ root. or_fail (get root "switch") ctx (parse_switch ctx))
