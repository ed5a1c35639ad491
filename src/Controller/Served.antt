-- ===== src/Controller/Served.antt =====
-- repository/include/controller.h with repository/src/rule.c: what a switch finds for a packet in the
-- rules that the controller generates for it.
use inc_emulation.Base.{
  ℕ, ◌<◌, ◌≡◌, refl, sym, ap, ◌∙◌, arith, ℤ, pos, minus_one, Option, some, none, List, [], ◌∷◌,
  ◌++◌, ◌>>=◌, map,
}
use inc_emulation.External.{External}
use inc_emulation.Rule.{Primitive, allreduce, reduce, broadcast, lookup_rule}
use inc_emulation.Controller.{
  ConnectionConfig, RuleConfig, SwitchConfig, up_rule, host_rules, get_host_conns,
  get_conn_for_rank, get_host_conns_except, generate_allreduce_rules, reduce_rules,
  generate_reduce_rules, get_elem?, broadcast_rules, generate_broadcast_rules, generate_rules,
}
use inc_emulation.Config.{to_primitive}
use inc_emulation.Config.ReadBack.{rule_of}
use inc_emulation.Controller.Found.{
  either_of, find_host, found, found-append, found-host_rules, found-other_reduce,
  found-reduce_rules, found-broadcast_rules, find_host-has, broadcast_rule,
}

module _ (x : External) (src dst : ℕ) where
  cast_one : to_primitive (pos 1) ≡ some allreduce
  unfolding to_primitive
  cast_one = refl

  -- A search in all the rules
  module _ (w : ℕ) (cs : List ConnectionConfig) (bs : List RuleConfig) where
    abbrev all_rules : List RuleConfig
    all_rules = (host_rules (up_rule 1 minus_one (get_host_conns cs)) cs ++ reduce_rules w cs) ++ bs

    found-all_rules :
        (prim : Primitive) (param : ℤ)
        → found x src dst prim param all_rules
          ≡ either_of
              (either_of
                (found x src dst prim param
                  (host_rules (up_rule 1 minus_one (get_host_conns cs)) cs))
                (found x src dst prim param (reduce_rules w cs)))
              (found x src dst prim param bs)
    found-all_rules prim param =
        let ups = host_rules (up_rule 1 minus_one (get_host_conns cs)) cs in
        found-append x src dst prim param (ups ++ reduce_rules w cs) bs
        ∙ ap (λ o. either_of o (found x src dst prim param bs))
            (found-append x src dst prim param ups (reduce_rules w cs))

    module _ (c : ConnectionConfig) (at : find_host x src dst cs ≡ some c) where
      all_rules-allreduce :
          (q : ℤ)
          → found x src dst allreduce q all_rules
            ≡ some (rule_of x (up_rule 1 minus_one (get_host_conns cs) c))
      all_rules-allreduce q =
          found-all_rules allreduce q
          ∙ ground (
            arith,
            at,
            found-host_rules x src dst allreduce q 1 allreduce minus_one (get_host_conns cs) cs
                cast_one,
          )

      all_rules-reduce :
          (r : ℕ)
          → r < w
          → found x src dst reduce (pos r) all_rules
            ≡ some (rule_of x (up_rule 2 (pos r) (get_conn_for_rank cs r ∷ []) c))
      all_rules-reduce r lt =
          found-all_rules reduce (pos r)
          ∙ ground (
            arith,
            at,
            lt,
            found-reduce_rules x src dst r w cs,
            found-host_rules x src dst reduce (pos r) 1 allreduce minus_one (get_host_conns cs) cs
                cast_one,
          )

      all_rules-broadcast :
          (s k : ℕ)
          → broadcast_rules w cs ≡ some bs
          → s < w
          → get_conn_for_rank cs s ≡ pos k
          → get_elem? cs k ≡ some c
          → found x src dst broadcast (pos s) all_rules ≡ some (broadcast_rule x src dst s cs c)
      all_rules-broadcast s k b lt h g =
          found-all_rules broadcast (pos s)
          ∙ ground (
            arith,
            found-other_reduce x src dst broadcast (pos s) w cs (λ e. cc e),
            found-host_rules x src dst broadcast (pos s) 1 allreduce minus_one (get_host_conns cs)
                cs cast_one,
            found-broadcast_rules x src dst s k w cs c bs b lt h g
                (find_host-has x src dst cs c at),
          )

generate_rules-some :
    (w : ℕ) (sw sw' : SwitchConfig)
    → sw.rules ≡ []
    → generate_rules w sw ≡ some sw'
    → (bs : List RuleConfig) × (broadcast_rules w sw.connections ≡ some bs)
      × (sw'.rules
          ≡ (host_rules (up_rule 1 minus_one (get_host_conns sw.connections)) sw.connections
              ++ reduce_rules w sw.connections)
            ++ bs)
unfolding generate_rules generate_broadcast_rules generate_reduce_rules generate_allreduce_rules
generate_rules-some w sw sw' empty e = from (broadcast_rules w sw.connections) refl e
  where
    from :
        (o : Option (List RuleConfig))
        → broadcast_rules w sw.connections ≡ o
        → (o >>= λ bs. some (record sw {
          rules =
              ((sw.rules
                  ++ host_rules
                      (up_rule 1 minus_one (get_host_conns sw.connections))
                      sw.connections)
                ++ reduce_rules w sw.connections)
              ++ bs;
        }))
          ≡ some sw'
        → (bs : List RuleConfig) × (broadcast_rules w sw.connections ≡ some bs)
          × (sw'.rules
              ≡ (host_rules (up_rule 1 minus_one (get_host_conns sw.connections)) sw.connections
                  ++ reduce_rules w sw.connections)
                ++ bs)
    from none b e = cc
    from (some bs) b e = (bs, b, sym (ap SwitchConfig.rules (same e)) ∙ rw empty refl)
      where
        same : {a b : SwitchConfig} → some a ≡ some b → a ≡ b
        same e = cc e

-- What a search finds in all the rules that are generated
pub generate_rules-found :
    (x : External) (world_size : ℕ) (sw sw' : SwitchConfig) (src dst : ℕ) (c : ConnectionConfig)
    → sw.rules ≡ []
    → generate_rules world_size sw ≡ some sw'
    → find_host x src dst sw.connections ≡ some c
    → let table = map (rule_of x) sw'.rules in
      let conns = sw.connections in
      ((q : ℤ)
        → lookup_rule table src dst allreduce q
          ≡ some (rule_of x (up_rule 1 minus_one (get_host_conns conns) c)))
      × ((r : ℕ)
          → r < world_size
          → lookup_rule table src dst reduce (pos r)
            ≡ some (rule_of x (up_rule 2 (pos r) (get_conn_for_rank conns r ∷ []) c)))
      × ((s k : ℕ)
          → s < world_size
          → get_conn_for_rank conns s ≡ pos k
          → get_elem? conns k ≡ some c
          → lookup_rule table src dst broadcast (pos s)
            ≡ some (rule_of x (up_rule 3 (pos s) (get_host_conns_except conns s) c)))
generate_rules-found x world_size sw sw' src dst c empty e at =
    let (bs, b, all) = generate_rules-some world_size sw sw' empty e in
    let cs = sw.connections in
    (
      λ q. rw all (all_rules-allreduce x src dst world_size cs bs c at q),
      λ r lt. rw all (all_rules-reduce x src dst world_size cs bs c at r lt),
      λ s k lt h g. rw all (
          unfold broadcast_rule in
          all_rules-broadcast x src dst world_size cs bs c at s k b lt h g),
    )
