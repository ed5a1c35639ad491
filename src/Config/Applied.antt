-- ===== src/Config/Applied.antt =====
-- repository/termination_switch/src/controller_comm.cpp: the state of a switch after it has read a
-- configuration that the controller (repository/include/controller.h) has encoded.
use inc_emulation.Base.{
  ℕ, ◌≤◌, ◌<◌, ◌≡◌, refl, ◌∙◌, arith, true, pos, minus_one, some, List, [], ◌∷◌, length, map, first,
}
use mathlib.Core.Path.{subst}
use inc_emulation.External.{Text, External}
use inc_emulation.Rule.{max_rules}
use inc_emulation.Switch.State.{Context, max_connections_num, max_ranks}
use inc_emulation.Switch.Context.{zero_connection, switch_context_reset_psn_states}
use inc_emulation.Switch.Context.Reset.{IsFresh, switch_context_reset_psn_states_lem}
use inc_emulation.Controller.{
  ConnectionConfig, RuleConfig, SwitchConfig, get_conn_for_rank, get_elem?,
}
use inc_emulation.Controller.Encode.{
  encode_connection, encode_rule, switch_fields, encode_switch, switch_document,
}
use inc_emulation.Config.{
  done, parse_each_connection, parse_connections, parse_rules, clear_config, parse_parts, store_id,
  parse_switch, parse_yaml_config,
}
use inc_emulation.Config.ReadBack.{link_of, rule_of}
use inc_emulation.Config.Connections.{
  HasDistinctRanks, conns_from, ranks_from, configured, parse_each_connection-encode, conns_from-at,
  ranks_from-once,
}
use inc_emulation.Config.Rules.{IsKnown, parse_each_rule-encode}

module _ (x : External) where
  -- What the switch takes over from a configuration, and what it keeps
  pub record IsApplied (sw : SwitchConfig) (ctx ctx' : Context) : Type 0 where
    pub switch_id : ctx'.switch_id ≡ pos sw.id
    pub fan_in : ctx'.fan_in ≡ length sw.connections
    pub conns :
        (k : ℕ) (c : ConnectionConfig)
        → get_elem? sw.connections k ≡ some c
        → ctx'.conns k ≡ (link_of x c zero_connection).conn
    pub ranks :
        HasDistinctRanks sw.connections
        → (r : ℕ) → r < max_ranks
        → ctx'.rank_to_conn r ≡ get_conn_for_rank sw.connections r
    pub routing_table : ctx'.routing_table ≡ first max_rules (map (rule_of x) sw.rules)
    pub fresh : IsFresh ctx'
    pub is_root : ctx'.is_root ≡ ctx.is_root
    pub send_psn : (c : ℕ) → ctx'.send_psn c ≡ ctx.send_psn c

  -- The state after `parse_yaml_config`
  applied : Context → SwitchConfig → Context
  applied ctx sw =
      let cleared = clear_config (record ctx { switch_id = pos sw.id }) in
      record cleared {
        fan_in = length sw.connections;
        conns = conns_from x cleared.conns 0 sw.connections;
        rank_to_conn = ranks_from x cleared.rank_to_conn sw.connections;
        routing_table = first max_rules (map (rule_of x) sw.rules);
      }

  applied-IsApplied : (ctx : Context) (sw : SwitchConfig) → IsApplied sw ctx (applied ctx sw)
  unfolding applied clear_config switch_context_reset_psn_states
  applied-IsApplied ctx sw = record {
    switch_id = refl;
    fan_in = refl;
    conns = λ k c h.
        subst
          (λ j.
            conns_from x (λ _. zero_connection) 0 sw.connections j
            ≡ (link_of x c zero_connection).conn)
          (omega arith) (conns_from-at x (λ _. zero_connection) 0 k sw.connections c h);
    ranks = λ d r lt. ranks_from-once x (λ _. minus_one) r sw.connections lt refl d;
    routing_table = refl;
    fresh =
        let f = (switch_context_reset_psn_states_lem (record ctx { switch_id = pos sw.id })).0 in
        record {
          slots = f.slots;
          unused = f.unused;
          epsn = f.epsn;
          down_epsn = f.down_epsn;
          acks = f.acks;
          down_ack = f.down_ack;
          operation = f.operation;
          root = f.root;
        };
    is_root = refl;
    send_psn = λ c. refl;
  }

  is_defined-encode : (sw : SwitchConfig) → x.is_defined (encode_switch x sw) ≡ true
  unfolding encode_switch
  is_defined-encode sw = x.is_defined-mapping (switch_fields x sw)

  store_id-encode :
      (ctx : Context) (sw : SwitchConfig)
      → store_id x ctx (encode_switch x sw) ≡ some (record ctx { switch_id = pos sw.id })
  unfolding store_id encode_switch
  store_id-encode ctx sw = rw (
    x.get-mapping (switch_fields x sw) "id" (x.of_int (pos sw.id)) refl,
    x.is_defined-int (pos sw.id),
    x.as_int-of_int (pos sw.id),
  )

  parse_connections-sequence :
      (ctx : Context) (ns : List x.Node)
      → parse_connections x ctx (x.sequence ns) ≡ parse_each_connection x ctx 0 ns
  unfolding parse_connections
  parse_connections-sequence ctx ns =
      rw (x.is_defined-sequence ns, x.is_sequence-sequence ns, x.items-sequence ns)

  parse_rules-sequence :
      (ctx : Context) (rs : List RuleConfig)
      → ctx.routing_table ≡ []
      → IsKnown rs
      → parse_rules x ctx (x.sequence (map (encode_rule x) rs))
        ≡ some (record ctx { routing_table = first max_rules (map (rule_of x) rs) }, done)
  unfolding parse_rules
  parse_rules-sequence ctx rs empty k =
      let ns = map (encode_rule x) rs in
      rw (
        x.is_defined-sequence ns,
        x.is_sequence-sequence ns,
        x.items-sequence ns,
        empty,
        parse_each_rule-encode x max_rules [] rs refl k,
      )

  parse_parts-encode :
      (ctx : Context) (sw : SwitchConfig)
      → length sw.connections ≤ max_connections_num
      → IsKnown sw.rules
      → parse_parts x (clear_config (record ctx { switch_id = pos sw.id })) (encode_switch x sw)
        ≡ some (applied ctx sw, done)
  unfolding parse_parts encode_switch applied clear_config switch_context_reset_psn_states
      configured
  parse_parts-encode ctx sw few k =
      let fs = switch_fields x sw in
      let conns = map (encode_connection x) sw.connections in
      rw
        (
          x.get-mapping fs "connections" (x.sequence conns) refl,
          parse_connections-sequence (clear_config (record ctx { switch_id = pos sw.id })) conns,
          parse_each_connection-encode x (clear_config (record ctx { switch_id = pos sw.id })) 0
              (length sw.connections) sw.connections (omega arith) few,
          x.get-mapping fs "rules" (x.sequence (map (encode_rule x) sw.rules)) refl,
        )
        (parse_rules-sequence _ sw.rules refl k)

  -- A switch that receives the document that the controller has made for it ends with its id, its
  -- connections, their number and its rules, the first 100 of them, each as configured. Its slots
  -- are free (no counts and arrivals, states and lengths 0, PSNs -1 in both buffers), its expected and
  -- acknowledged PSNs are 0, and its operation and root rank are those of a new context, but its place
  -- in the tree and its next PSNs to send stay.
  -- If no two connections lead to the same rank, every rank below 128 leads to the connection that
  -- the controller has for it. The document reads back as it was written, there are at most ten
  -- connections, and the primitives of the rules are enumerators.
  pub parse_yaml_config-switch_document :
      (ctx : Context) (text : Text) (world_size : ℕ) (sw : SwitchConfig)
      → x.load text ≡ some (switch_document x world_size sw)
      → length sw.connections ≤ max_connections_num
      → IsKnown sw.rules
      → (ctx' : Context) × (parse_yaml_config x ctx text ≡ some (ctx', done))
        × IsApplied sw ctx ctx'
  parse_yaml_config-switch_document ctx text world_size sw h few k =
      (applied ctx sw, read_document ∙ parsed, applied-IsApplied ctx sw)
    where
      read_document : parse_yaml_config x ctx text ≡ parse_switch x ctx (encode_switch x sw)
      read_document =
          unfold parse_yaml_config switch_document in
          rw (
            h,
            x.get-mapping
                (("world_size", x.of_int (pos world_size)) ∷ ("switch", encode_switch x sw) ∷ [])
                "switch" (encode_switch x sw) refl,
          )

      parsed : parse_switch x ctx (encode_switch x sw) ≡ some (applied ctx sw, done)
      parsed =
          unfold parse_switch in
          rw (is_defined-encode sw, store_id-encode ctx sw) (parse_parts-encode ctx sw few k)
