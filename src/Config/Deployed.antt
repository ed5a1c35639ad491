-- ===== src/Config/Deployed.antt =====
-- repository/include/controller.h, repository/termination_switch/src/controller_comm.cpp and
-- repository/src/rule.c together: from the topology and the ranks' addresses to the rules that a
-- switch finds for their packets.
use mathlib.Core.Path.{subst}
use inc_emulation.Base.{
  ℕ, ◌<◌, ◌≡◌, ◌≢◌, refl, sym, ap, ◌∙◌, arith, pos, some, [], ◌∷◌, ◌>>=◌, length, update, u32_mod,
}
use inc_emulation.External.{External}
use inc_emulation.Switch.State.{Context}
use inc_emulation.Controller.{
  ConnectionConfig, SwitchConfig, get_host_conns, get_conn_for_rank, generate_rules,
  get_host_conns_except,
}
use inc_emulation.Controller.Route.{SwitchPort, SwitchInfo, Communicator, calculate_route}
use inc_emulation.Controller.Encode.{switch_document, generate_yaml_for_switch}
use inc_emulation.Controller.Generated.{generate_rules-length}
use inc_emulation.Config.{done, to_conn, parse_yaml_config}
use inc_emulation.Config.Rules.{IsKnown}
use inc_emulation.Config.Applied.{parse_yaml_config-switch_document}
use inc_emulation.Config.TwoHosts.{
  two_hosts, IsDeployed, two_hosts-AllConnected, calculate_route-two, find_host_0, find_host_1,
  served,
}

abbrev with_switch : Communicator → SwitchConfig → Communicator
with_switch comm sw = record comm {
  switches = sw ∷ [];
  rank_to_conn = update (update comm.rank_to_conn 0 (some (0, 0))) 1 (some (0, 1));
}

-- All that is known of the switch that `calculate_route` adds
routed :
    (x : External) (raw : ConnectionConfig) (info : SwitchInfo) (p0 p1 : SwitchPort)
    (comm : Communicator)
    → info.ports ≡ p0 ∷ p1 ∷ []
    → comm.switches ≡ []
    → comm.group.world_size ≡ 2
    → (sw : SwitchConfig) × (generate_rules 2
          (record { id = info.id; connections = two_hosts x raw comm p0 p1; rules = [] })
        ≡ some sw)
      × (calculate_route x raw info comm ≡ some (with_switch comm sw))
      × (length sw.rules ≡ 8)
      × IsKnown sw.rules
      × (sw.id ≡ info.id)
      × (sw.connections ≡ two_hosts x raw comm p0 p1)
routed x raw info p0 p1 comm ports before two =
    let start : SwitchConfig = record {
      id = info.id;
      connections = two_hosts x raw comm p0 p1;
      rules = [];
    } in
    let (sw, generated, n, k, id, conns) =
      generate_rules-length 2 start refl (two_hosts-AllConnected x raw comm p0 p1) in
    (
      sw,
      generated,
      calculate_route-two x raw comm p0 p1 info ports before
          ∙ subst
              (λ w.
                (generate_rules w start >>= λ sw'. some (with_switch comm sw'))
                ≡ some (with_switch comm sw))
              (sym two) (rw generated refl),
      n ∙ (unfold get_host_conns in refl),
      k,
      id,
      conns,
    )

-- With two ports, two ranks and no switch before, `calculate_route` goes through: the switch that it
-- adds has the two ports' connections and eight rules, two for AllReduce, four for Reduce and two for
-- Broadcast.
pub calculate_route-two_ranks :
    (x : External) (raw : ConnectionConfig) (info : SwitchInfo) (p0 p1 : SwitchPort)
    (comm : Communicator)
    → info.ports ≡ p0 ∷ p1 ∷ []
    → comm.switches ≡ []
    → comm.group.world_size ≡ 2
    → (comm' : Communicator) × (sw : SwitchConfig) × (calculate_route x raw info comm ≡ some comm')
      × (comm'.switches ≡ sw ∷ [])
      × (comm'.group ≡ comm.group)
      × (sw.id ≡ info.id)
      × (sw.connections ≡ two_hosts x raw comm p0 p1)
      × (length sw.rules ≡ 8)
calculate_route-two_ranks x raw info p0 p1 comm ports before two =
    let (sw, _, goes, n, _, id, conns) = routed x raw info p0 p1 comm ports before two in
    (with_switch comm sw, sw, goes, refl, refl, id, conns, n)

-- From the topology to the packets: the document that the controller makes for a switch with two ports
-- and two ranks configures the switch so that both ranks are served. The switch's slots are free and
-- its expected and acknowledged PSNs 0, each link leads to the rank's address and QP, and each packet from a rank finds a rule that acknowledges
-- it to the rank and leads to both ranks (AllReduce), to the root (Reduce) or to the other rank
-- (Broadcast). The two addresses differ, addresses and QPs have 32 bits, and the document reads back as
-- it was written.
pub calculate_route-IsDeployed :
    (x : External) (raw : ConnectionConfig) (info : SwitchInfo) (p0 p1 : SwitchPort)
    (comm comm' : Communicator) (sw : SwitchConfig) (ctx : Context)
    → info.ports ≡ p0 ∷ p1 ∷ []
    → comm.switches ≡ []
    → comm.group.world_size ≡ 2
    → ((rank : ℕ) → rank < 2 → comm.group.ip_list rank < u32_mod)
    → ((rank : ℕ) → rank < 2 → comm.qp_list rank < u32_mod)
    → comm.group.ip_list 0 ≢ comm.group.ip_list 1
    → calculate_route x raw info comm ≡ some comm'
    → comm'.switches ≡ sw ∷ []
    → x.load (generate_yaml_for_switch x comm' (pos 0)) ≡ some (switch_document x 2 sw)
    → (ctx' : Context) × (parse_yaml_config x ctx (generate_yaml_for_switch x comm' (pos 0))
        ≡ some (ctx', done))
      × IsDeployed x raw comm p0 p1 info ctx'
calculate_route-IsDeployed x raw info p0 p1 comm comm' sw ctx ports before two ips qps ne went one
      read =
    let (sw', generated, goes, n, all_known, id, conns) =
      routed x raw info p0 p1 comm ports before two in
    let text = generate_yaml_for_switch x comm' (pos 0) in
    let same = same_switch (sym goes ∙ went) one in
    let (ctx', parsed, applied) =
      parse_yaml_config-switch_document x ctx text 2 sw'
        (subst (λ s. x.load text ≡ some (switch_document x 2 s)) (sym same) read)
        (omega (arith, ap length conns)) all_known in
    let serve =
      served x raw comm p0 p1 info sw' ctx ctx' generated conns (omega (arith, n)) applied in
    (
      ctx',
      parsed,
      record {
        switch_id = applied.switch_id ∙ ap pos id;
        fan_in = applied.fan_in ∙ ap length conns;
        fresh = applied.fresh;
        rank_0 =
            serve 0 1 _ p0 (omega arith)
              (find_host_0 x raw comm p0 p1 (ips 0 (omega arith)) (ips 1 (omega arith))) refl
              (unfold get_conn_for_rank in refl) (unfold get_host_conns_except to_conn in refl)
              (ips 0 (omega arith)) (qps 0 (omega arith));
        rank_1 =
            serve 1 0 _ p1 (omega arith)
              (find_host_1 x raw comm p0 p1 (ips 0 (omega arith)) (ips 1 (omega arith)) ne) refl
              (unfold get_conn_for_rank in refl) (unfold get_host_conns_except to_conn in refl)
              (ips 1 (omega arith)) (qps 1 (omega arith));
      },
    )
  where
    same_switch :
        {sw' : SwitchConfig}
        → some (with_switch comm sw') ≡ some comm'
        → comm'.switches ≡ sw ∷ []
        → sw' ≡ sw
    same_switch e o = head_of (ap Communicator.switches (inner e) ∙ o)
      where
        inner : {a b : Communicator} → some a ≡ some b → a ≡ b
        inner e = cc e

        head_of : {a b : SwitchConfig} → a ∷ [] ≡ b ∷ [] → a ≡ b
        head_of e = cc e
