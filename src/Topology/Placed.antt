-- ===== src/Topology/Placed.antt =====
-- The host and the switch at the two ends of a link: what inccl_communicator_create of
-- repository/src/api.c finds out about the switch, and what the switch has been configured with.
use mathlib.Core.Path.{subst, ap₂}
use inc_emulation.Base.{
  ℕ, ◌<◌, ◌≤◌, ◌≡◌, sym, ap, ◌∙◌, arith, pos, zero, suc, Option, none, some, List, [], ◌∷◌,
  append-nil, length, u32_mod,
}
use inc_emulation.External.{External}
use inc_emulation.Switch.State.{Context, max_connections_num}
use inc_emulation.Packet.{Connection}
use inc_emulation.Controller.{ConnectionConfig, SwitchConfig, get_elem?}
use inc_emulation.Controller.Route.{Communicator}
use inc_emulation.Controller.Encode.{switch_document, generate_yaml_for_switch}
use inc_emulation.Config.{done, to_u32, parse_yaml_config}
use inc_emulation.Config.Rules.{IsKnown}
use inc_emulation.Config.Applied.{parse_yaml_config-switch_document}
use inc_emulation.Topology.{topology_document, generate_yaml, get_ip, get_switch_info}
use inc_emulation.Topology.Found.{
  all_connections, find_peer, AllQps, places, get_switch_info-generate_yaml,
}

module _ (x : External) where
  AllQps-at :
      (conns : List ConnectionConfig) (k : ℕ) (c : ConnectionConfig)
      → AllQps conns
      → get_elem? conns k ≡ some c
      → c.my_qp < u32_mod
  AllQps-at [] k c h e = cc
  AllQps-at (conn ∷ conns) zero c (small, h) e =
      subst (λ (q : ℕ). q < u32_mod) (ap my_qp_of e) small
    where
      my_qp_of : Option ConnectionConfig → ℕ
      my_qp_of none = 0
      my_qp_of (some c) = c.my_qp
  AllQps-at (conn ∷ conns) (suc k) c (small, h) e = AllQps-at conns k c h e

  get_ip-inet_pton :
      (c : ConnectionConfig) (ip : ℕ)
      → x.inet_pton c.my_ip ≡ some ip
      → get_ip x c.my_ip ≡ x.inet_addr c.my_ip
  unfolding get_ip
  get_ip-inet_pton c ip e = rw (get_ip, e) (sym (x.inet_addr-inet_pton c.my_ip ip e))

  -- A host connects to what the switch expects it on: the address and the QP that a rank finds in the
  -- file from the controller are those that the switch, configured with the controller's document,
  -- has for the connection to that rank. There is one switch, the connection is the first of it to that
  -- rank and its address is one, there are at most ten connections, their QPs have 32 bits, the
  -- primitives of the rules are enumerators, and the file and the document read back as written.
  pub get_switch_info-parse_yaml_config :
      (comm : Communicator) (sw : SwitchConfig) (ctx : Context) (rank k ip : ℕ)
      (c : ConnectionConfig)
      → comm.switches ≡ sw ∷ []
      → get_elem? sw.connections k ≡ some c
      → find_peer sw.connections rank ≡ some c
      → x.inet_pton c.my_ip ≡ some ip
      → length sw.connections ≤ max_connections_num
      → AllQps sw.connections
      → IsKnown sw.rules
      → x.load (generate_yaml x comm)
        ≡ some (topology_document x comm.group.world_size comm.switches)
      → x.load (generate_yaml_for_switch x comm (pos 0))
        ≡ some (switch_document x comm.group.world_size sw)
      → (ctx' : Context) × (parse_yaml_config x ctx (generate_yaml_for_switch x comm (pos 0))
          ≡ some (ctx', done))
        × (get_switch_info x (generate_yaml x comm) rank
            ≡ some (some ((ctx'.conns k).my_ip, (ctx'.conns k).my_qp)))
  get_switch_info-parse_yaml_config comm sw ctx rank k ip c one at first address few qps all_known
        file document =
      let (ctx', parsed, applied) =
        parse_yaml_config-switch_document x ctx (generate_yaml_for_switch x comm (pos 0))
          comm.group.world_size sw document few all_known in
      (
        ctx',
        parsed,
        get_switch_info-generate_yaml x comm rank file (subst AllQps (sym all) qps)
            ∙ ap (λ conns. some (places x (find_peer conns rank))) all
            ∙ ap (λ found. some (places x found)) first
            ∙ ap some (
                ap some (
                  ap₂ (λ a q. (a, q))
                    (get_ip-inet_pton c ip address
                      ∙ ap Connection.my_ip (sym (applied.conns k c at)))
                    (small ∙ ap Connection.my_qp (sym (applied.conns k c at))))),
      )
    where
      all : all_connections comm.switches ≡ sw.connections
      all = ap all_connections one ∙ append-nil sw.connections

      small : c.my_qp ≡ to_u32 (pos c.my_qp)
      small = unfold to_u32 in omega (arith, AllQps-at sw.connections k c qps at)
