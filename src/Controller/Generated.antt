-- ===== src/Controller/Generated.antt =====
-- repository/include/controller.h: how many rules the controller generates, that their primitives are
-- enumerators, and when the generation goes through.
use inc_emulation.Base.{
  ℕ, zero, suc, ◌+◌, ◌*◌, ◌≤◌, ◌<◌, ◌≡◌, refl, ap, arith, Bool, true, false, if◌then◌else◌, ℤ, pos,
  minus_one, some, List, [], ◌∷◌, ◌++◌, length, length-append,
}
use inc_emulation.Controller.{
  ConnectionConfig, RuleConfig, SwitchConfig, up_rule, host_rules, get_host_conns,
  get_conn_for_rank, get_host_conns_except, generate_allreduce_rules, reduce_rules,
  generate_reduce_rules, get_elem?, sender_rules, broadcast_rules, generate_broadcast_rules,
  generate_rules,
}
use inc_emulation.Config.Rules.{IsKnown, none_left, known}

length-host_rules :
    (f : ConnectionConfig → RuleConfig) (cs : List ConnectionConfig)
    → length (host_rules f cs) ≡ length (get_host_conns cs)
unfolding host_rules get_host_conns
length-host_rules f [] = refl
length-host_rules f (c ∷ cs) = ground (arith, length-host_rules f cs)

length-reduce_rules :
    (w : ℕ) (cs : List ConnectionConfig)
    → length (reduce_rules w cs) ≡ w * length (get_host_conns cs)
unfolding reduce_rules
length-reduce_rules zero cs = omega arith
length-reduce_rules (suc w) cs =
    let block = host_rules (up_rule 2 (pos w) (get_conn_for_rank cs w ∷ [])) cs in
    omega (
      arith,
      length-append (reduce_rules w cs) block,
      length-reduce_rules w cs,
      length-host_rules (up_rule 2 (pos w) (get_conn_for_rank cs w ∷ [])) cs,
    )

IsKnown-append : {rs ss : List RuleConfig} → IsKnown rs → IsKnown ss → IsKnown (rs ++ ss)
IsKnown-append none_left k = k
IsKnown-append (known p h) k = known p (IsKnown-append h k)

-- Every rank below w has a connection in the vector.
abbrev pub AllConnected : ℕ → List ConnectionConfig → Type 0
AllConnected w cs =
    (s : ℕ)
    → s < w
    → (k : ℕ) × (c : ConnectionConfig) × (get_conn_for_rank cs s ≡ pos k)
      × (get_elem? cs k ≡ some c)

broadcast_rules-some :
    (w : ℕ) (cs : List ConnectionConfig)
    → AllConnected w cs
    → (bs : List RuleConfig) × (broadcast_rules w cs ≡ some bs) × (length bs ≡ w) × IsKnown bs
unfolding broadcast_rules sender_rules
broadcast_rules-some zero cs h = ([], refl, refl, none_left)
broadcast_rules-some (suc w) cs h =
    let (bs, b, n, all_known) = broadcast_rules-some w cs (λ s l. h s (omega (arith, l))) in
    let (k, c, to, at) = h w (omega arith) in
    let last = up_rule 3 (pos w) (get_host_conns_except cs w) c ∷ [] in
    (
      bs ++ last,
      rw (b, to, at),
      omega (arith, n, length-append bs last),
      IsKnown-append all_known (known (omega arith) none_left),
    )

IsKnown-host_rules :
    (n : ℕ) (q : ℤ) (outs : List ℤ) (cs : List ConnectionConfig)
    → n ≤ 3
    → IsKnown (host_rules (up_rule n q outs) cs)
unfolding host_rules
IsKnown-host_rules n q outs [] h = none_left
IsKnown-host_rules n q outs (c ∷ cs) h = pick c.is_switch (IsKnown-host_rules n q outs cs h)
  where
    pick :
        (b : Bool) {rs : List RuleConfig}
        → IsKnown rs
        → IsKnown (if b then rs else up_rule n q outs c ∷ rs)
    pick true k = k
    pick false k = known h k

IsKnown-reduce_rules : (w : ℕ) (cs : List ConnectionConfig) → IsKnown (reduce_rules w cs)
unfolding reduce_rules
IsKnown-reduce_rules zero cs = none_left
IsKnown-reduce_rules (suc w) cs =
    IsKnown-append (IsKnown-reduce_rules w cs) (IsKnown-host_rules 2 (pos w) _ cs (omega arith))

-- If every rank of the group has a connection, the controller goes through and generates, for h
-- connections to hosts and w ranks, h rules for AllReduce, w * h for Reduce and w for Broadcast. The
-- switch has no rules before; its id and its connections stay.
pub generate_rules-length :
    (w : ℕ) (sw : SwitchConfig)
    → sw.rules ≡ []
    → AllConnected w sw.connections
    → let h = length (get_host_conns sw.connections) in
      (sw' : SwitchConfig) × (generate_rules w sw ≡ some sw')
      × (length sw'.rules ≡ h + w * h + w)
      × IsKnown sw'.rules
      × (sw'.id ≡ sw.id)
      × (sw'.connections ≡ sw.connections)
unfolding generate_rules generate_broadcast_rules generate_reduce_rules generate_allreduce_rules
generate_rules-length w sw empty h =
    let (bs, b, n, k) = broadcast_rules-some w sw.connections h in
    let cs = sw.connections in
    let ups = host_rules (up_rule 1 minus_one (get_host_conns cs)) cs in
    (
      record sw { rules = ((sw.rules ++ ups) ++ reduce_rules w cs) ++ bs },
      rw b refl,
      omega (
        arith,
        n,
        ap length empty,
        length-append ((sw.rules ++ ups) ++ reduce_rules w cs) bs,
        length-append (sw.rules ++ ups) (reduce_rules w cs),
        length-append sw.rules ups,
        length-host_rules (up_rule 1 minus_one (get_host_conns cs)) cs,
        length-reduce_rules w cs,
      ),
      IsKnown-append
          (IsKnown-append
            (IsKnown-append (rw empty none_left)
              (IsKnown-host_rules 1 minus_one (get_host_conns cs) cs (omega arith)))
            (IsKnown-reduce_rules w cs))
          k,
      refl,
      refl,
    )
