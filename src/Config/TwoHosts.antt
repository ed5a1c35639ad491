-- ===== src/Config/TwoHosts.antt =====
-- repository/include/controller.h, `calculate_route` with two ports, and what a switch does that has
-- taken over its result.
use mathlib.Core.Path.{subst}
use inc_emulation.Base.{
  ℕ, zero, suc, ◌+◌, ◌≤◌, ◌<◌, ◌≡◌, ◌≢◌, refl, sym, ap, ◌∙◌, arith, ==_refl, false, ℤ, pos,
  minus_one, some, List, [], ◌∷◌, ◌>>=◌, length, map, first, first-all, length-map, update, u32_mod,
}
use inc_emulation.External.{Text, External}
use inc_emulation.Rule.{allreduce, reduce, broadcast, up, Rule, lookup_rule}
use inc_emulation.Switch.State.{Context}
use inc_emulation.Switch.Context.Reset.{IsFresh}
use inc_emulation.Controller.{
  ConnectionConfig, SwitchConfig, get_host_conns, get_conn_for_rank, get_elem?, generate_rules,
  get_host_conns_except, up_rule,
}
use inc_emulation.Controller.Route.{
  codes, SwitchPort, SwitchInfo, Communicator, to_int, port_connections, fill_peer, fill_peers,
  add_switch, calculate_route,
}
use inc_emulation.Controller.Found.{find_host}
use inc_emulation.Controller.Served.{generate_rules-found}
use inc_emulation.Controller.Generated.{AllConnected}
use inc_emulation.Config.{to_u32, to_conn}
use inc_emulation.Config.ReadBack.{in_range, rule_of}
use inc_emulation.Config.Connections.{HasDistinctRanks}
use inc_emulation.Config.Applied.{IsApplied}

to_u32-to_int : (w : ℕ) → w < u32_mod → to_u32 (to_int w) ≡ w
unfolding to_u32
to_u32-to_int w h = ground (arith, h)

to_conn-rank : (rank : ℕ) → rank < 2 → to_conn (pos rank) ≡ some rank
unfolding to_conn
to_conn-rank rank h = ground (arith, h)

module _ (x : External) (raw : ConnectionConfig) (comm : Communicator) (p0 p1 : SwitchPort) where
  open comm use {group, qp_list}

  -- The connection that `calculate_route` makes of a port for the rank with the same number
  abbrev pub host_at : ℕ → Text → SwitchPort → ConnectionConfig
  host_at rank mac port = record {
    conn_id = rank;
    is_switch = false;
    peer_id = pos rank;
    my_ip = port.ip;
    my_mac = port.mac;
    my_name = port.name;
    my_port = 4791;
    my_qp = comm.id + rank;
    peer_ip = x.inet_ntop (group.ip_list rank);
    peer_mac = mac;
    peer_port = 4791;
    peer_qp = to_int (qp_list rank);
  }

  abbrev pub host_0 : ConnectionConfig
  host_0 = host_at 0 (codes "fa:16:3e:87:09:4c") p0

  abbrev pub host_1 : ConnectionConfig
  host_1 = host_at 1 (codes "fa:16:3e:7b:25:36") p1

  abbrev pub two_hosts : List ConnectionConfig
  two_hosts = host_0 ∷ host_1 ∷ []

  pub two_hosts-AllConnected : AllConnected 2 two_hosts
  unfolding get_conn_for_rank
  two_hosts-AllConnected zero h = (0, host_0, refl, refl)
  two_hosts-AllConnected (suc zero) h = (1, host_1, refl, refl)
  two_hosts-AllConnected (suc (suc s)) h = absurd (omega (arith, h))

  two_hosts-HasDistinctRanks : HasDistinctRanks two_hosts
  unfolding get_conn_for_rank
  two_hosts-HasDistinctRanks = (λ r _ e. not_one r e, (λ _ _ _. refl, tt))
    where
      not_one : (r : ℕ) → pos 0 ≡ pos r → get_conn_for_rank (host_1 ∷ []) r ≡ minus_one
      not_one r e = ground (arith, e)

  pub calculate_route-two :
      (info : SwitchInfo)
      → info.ports ≡ p0 ∷ p1 ∷ []
      → comm.switches ≡ []
      → calculate_route x raw info comm ≡ (
          generate_rules group.world_size
            (record { id = info.id; connections = two_hosts; rules = [] })
          >>= λ sw'. some (record comm {
            switches = sw' ∷ [];
            rank_to_conn = update (update comm.rank_to_conn 0 (some (0, 0))) 1 (some (0, 1));
          }))
  unfolding calculate_route add_switch port_connections fill_peers fill_peer
  calculate_route-two info ports none_before = rw (none_before, ports)

  -- What a switch does for the rank behind a port: its link leads to the host's address and QP, and
  -- packets from the host to the port find a rule whose ACKs go back to it. The rule of an AllReduce
  -- leads to both hosts, that of a Reduce to the root, and that of the rank's Broadcast to `other`.
  pub record IsServed (ctx : Context) (rank other : ℕ) (port : SwitchPort) : Type 0 where
    pub peer_ip : (ctx.conns rank).peer_ip ≡ group.ip_list rank
    pub peer_qp : (ctx.conns rank).peer_qp ≡ qp_list rank
    pub rank_to_conn : ctx.rank_to_conn rank ≡ pos rank
    pub allreduce_rule :
        (q : ℤ)
        → (rule : Rule) × (lookup_rule ctx.routing_table
              (group.ip_list rank)
              (x.inet_addr port.ip)
              allreduce
              q
            ≡ some rule)
          × (rule.ack_conn ≡ some rank)
          × (rule.out_conns ≡ 0 ∷ 1 ∷ [])
          × (rule.direction ≡ up)
    pub reduce_rule :
        (root : ℕ)
        → root < 2
        → (rule : Rule) × (lookup_rule ctx.routing_table
              (group.ip_list rank)
              (x.inet_addr port.ip)
              reduce
              (pos root)
            ≡ some rule)
          × (rule.ack_conn ≡ some rank)
          × (rule.out_conns ≡ root ∷ [])
          × (rule.direction ≡ up)
    pub broadcast_rule :
        (rule : Rule) × (lookup_rule ctx.routing_table
            (group.ip_list rank)
            (x.inet_addr port.ip)
            broadcast
            (pos rank)
          ≡ some rule)
        × (rule.ack_conn ≡ some rank)
        × (rule.out_conns ≡ other ∷ [])
        × (rule.direction ≡ up)

  pub record IsDeployed (info : SwitchInfo) (ctx' : Context) : Type 0 where
    pub switch_id : ctx'.switch_id ≡ pos info.id
    pub fan_in : ctx'.fan_in ≡ 2
    pub fresh : IsFresh ctx'
    pub rank_0 : IsServed ctx' 0 1 p0
    pub rank_1 : IsServed ctx' 1 0 p1

  module _ (ip0 : group.ip_list 0 < u32_mod) (ip1 : group.ip_list 1 < u32_mod) where
    pub find_host_0 : find_host x (group.ip_list 0) (x.inet_addr p0.ip) two_hosts ≡ some host_0
    find_host_0 = ground (
      arith,
      x.inet_addr-inet_ntop (group.ip_list 0) ip0,
      ==_refl (group.ip_list 0),
      ==_refl (x.inet_addr p0.ip),
    )

    pub find_host_1 :
        group.ip_list 0 ≢ group.ip_list 1
        → find_host x (group.ip_list 1) (x.inet_addr p1.ip) two_hosts ≡ some host_1
    find_host_1 ne = ground (
      arith,
      ne,
      x.inet_addr-inet_ntop (group.ip_list 0) ip0,
      x.inet_addr-inet_ntop (group.ip_list 1) ip1,
      ==_refl (group.ip_list 1),
      ==_refl (x.inet_addr p1.ip),
    )

  root_conn :
      (root : ℕ)
      → root < 2
      → (rule_of x (up_rule 2 (pos root) (get_conn_for_rank two_hosts root ∷ []) host_0)).out_conns
        ≡ root ∷ []
  unfolding get_conn_for_rank to_conn
  root_conn zero h = refl
  root_conn (suc zero) h = refl
  root_conn (suc (suc r)) h = absurd (omega (arith, h))

  -- The switch before and after the rules are generated, and the state that has taken them over
  module _ (info : SwitchInfo) (sw' : SwitchConfig) (ctx ctx' : Context)
      (generated : generate_rules 2 (record { id = info.id; connections = two_hosts; rules = [] })
        ≡ some sw')
      (same_conns : sw'.connections ≡ two_hosts) (small : length sw'.rules ≤ 100)
      (applied : IsApplied x sw' ctx ctx') where
    table : ctx'.routing_table ≡ map (rule_of x) sw'.rules
    table =
        applied.routing_table
        ∙ first-all 100 (map (rule_of x) sw'.rules)
            (subst (λ n. n ≤ 100) (sym (length-map (rule_of x) sw'.rules)) small)

    pub served :
        (rank other : ℕ) (mac : Text) (port : SwitchPort)
        → rank < 2
        → find_host x (group.ip_list rank) (x.inet_addr port.ip) two_hosts
          ≡ some (host_at rank mac port)
        → get_elem? two_hosts rank ≡ some (host_at rank mac port)
        → get_conn_for_rank two_hosts rank ≡ pos rank
        → first 10 (in_range x (get_host_conns_except two_hosts rank)) ≡ other ∷ []
        → group.ip_list rank < u32_mod
        → qp_list rank < u32_mod
        → IsServed ctx' rank other port
    served rank other mac port small_rank at place to others ip qp =
        let host = host_at rank mac port in
        let (all, red, bc) =
          generate_rules-found x 2 (record { id = info.id; connections = two_hosts; rules = [] })
            sw' (group.ip_list rank) (x.inet_addr port.ip) host refl generated at in
        let placed = applied.conns rank host (ap (λ cs. get_elem? cs rank) same_conns ∙ place) in
        record {
          peer_ip = ap (λ c. c.peer_ip) placed ∙ x.inet_addr-inet_ntop (group.ip_list rank) ip;
          peer_qp = ap (λ c. c.peer_qp) placed ∙ to_u32-to_int (qp_list rank) qp;
          rank_to_conn =
              applied.ranks (subst HasDistinctRanks (sym same_conns) two_hosts-HasDistinctRanks)
                rank (omega (arith, small_rank))
              ∙ ap (λ cs. get_conn_for_rank cs rank) same_conns
              ∙ to;
          allreduce_rule = λ q. (
            rule_of x (up_rule 1 minus_one (get_host_conns two_hosts) host),
            rw table (all q),
            to_conn-rank rank small_rank,
            unfold get_host_conns to_conn in refl,
            refl,
          );
          reduce_rule = λ root lt. (
            rule_of x (up_rule 2 (pos root) (get_conn_for_rank two_hosts root ∷ []) host),
            rw table (red root lt),
            to_conn-rank rank small_rank,
            root_conn root lt,
            refl,
          );
          broadcast_rule = (
            rule_of x (up_rule 3 (pos rank) (get_host_conns_except two_hosts rank) host),
            rw table (bc rank rank small_rank to place),
            to_conn-rank rank small_rank,
            others,
            refl,
          );
        }
