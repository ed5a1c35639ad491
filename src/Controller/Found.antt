-- ===== src/Controller/Found.antt =====
-- repository/include/controller.h with repository/src/rule.c: what a search finds in the rules of
-- each of the three generators, for packets with given addresses.
use native.Mathlib.Decide.{ℕ_discrete}
use mathlib.Core.Path.{subst}
use inc_emulation.Base.{
  ℕ, zero, suc, ◌<◌, ◌≡◌, ◌≢◌, ◌⊎◌, refl, sym, ap, ◌∙◌, arith, Bool, true, false, not, ◌&&◌, ◌||◌,
  ◌==◌, if◌then◌else◌, ℤ, pos, negsuc, eq_ℤ, ltb, Option, some, none, List, [], ◌∷◌, ◌++◌, ◌>>=◌,
  map, inl, inr, Bool-cases,
}
use inc_emulation.External.{External}
use inc_emulation.Rule.{
  Primitive, allreduce, reduce, broadcast, Rule, eq_primitive, match_rule, lookup_rule,
}
use inc_emulation.Controller.{
  ConnectionConfig, RuleConfig, up_rule, host_rules, get_conn_for_rank, get_host_conns_except,
  reduce_rules, get_elem?, rules_from, sender_rules, broadcast_rules,
}
use inc_emulation.Config.{to_primitive}
use inc_emulation.Config.ReadBack.{rule_of}

abbrev pub map_option {ℓ κ} : {A : Type ℓ} {B : Type κ} → (A → B) → Option A → Option B
map_option f none = none
map_option f (some a) = some (f a)

-- The first that is found
cast_two : to_primitive (pos 2) ≡ some reduce
unfolding to_primitive
cast_two = refl

cast_three : to_primitive (pos 3) ≡ some broadcast
unfolding to_primitive
cast_three = refl

rules_from-some :
    (s : ℕ) (outs : List ℤ) (cs : List ConnectionConfig) (z : ℤ) (rs : List RuleConfig)
    → rules_from s outs cs z ≡ some rs
    → (rs ≡ []) ⊎ ((c : ConnectionConfig) × (rs ≡ up_rule 3 (pos s) outs c ∷ []))
rules_from-some s outs cs (negsuc _) rs e = inl cc
rules_from-some s outs cs (pos k) rs e = from (get_elem? cs k) e
  where
    from :
        (o : Option ConnectionConfig)
        → (o >>= λ c. some (up_rule 3 (pos s) outs c ∷ [])) ≡ some rs
        → (rs ≡ []) ⊎ ((c : ConnectionConfig) × (rs ≡ up_rule 3 (pos s) outs c ∷ []))
    from none e = cc
    from (some c) e = inr (c, cc)

-- What a `do` block that joins two lists has read
both :
    (p q : Option (List RuleConfig)) (rs : List RuleConfig)
    → (p >>= λ xs. q >>= λ ys. some (xs ++ ys)) ≡ some rs
    → (xs : List RuleConfig) × (p ≡ some xs)
      × (ys : List RuleConfig) × (q ≡ some ys)
      × (xs ++ ys ≡ rs)
both none q rs e = cc
both (some xs) none rs e = cc
both (some xs) (some ys) rs e = (xs, refl, ys, refl, cc)

abbrev pub either_of {ℓ} : {A : Type ℓ} → Option A → Option A → Option A
either_of (some a) o = some a
either_of none o = o

module _ (x : External) (src dst : ℕ) where
  abbrev pub has_addresses : ConnectionConfig → Bool
  has_addresses c = x.inet_addr c.peer_ip == src && x.inet_addr c.my_ip == dst

  -- The connection to a host that packets with these addresses come in on
  abbrev pub find_host : List ConnectionConfig → Option ConnectionConfig
  find_host [] = none
  find_host (c ∷ cs) = if not c.is_switch && has_addresses c then some c else find_host cs

  module _ (prim : Primitive) (param : ℤ) where
    abbrev pub found : List RuleConfig → Option Rule
    found rules = lookup_rule (map (rule_of x) rules) src dst prim param

    found-nil : found [] ≡ none
    unfolding lookup_rule
    found-nil = refl

    pub found-append :
        (rs ss : List RuleConfig) → found (rs ++ ss) ≡ either_of (found rs) (found ss)
    unfolding lookup_rule
    found-append [] ss = refl
    found-append (r ∷ rs) ss = ground (arith, found-append rs ss)

    -- Whether the rules of one loop are about the operation
    abbrev pub concerns : Primitive → ℤ → Bool
    concerns p q = eq_primitive p prim && (eq_primitive prim allreduce || eq_ℤ q param)

    match_rule-up :
        (n : ℕ) (p : Primitive) (q : ℤ) (outs : List ℤ) (c : ConnectionConfig)
        → to_primitive (pos n) ≡ some p
        → match_rule (rule_of x (up_rule n q outs c)) src dst prim param
          ≡ has_addresses c && concerns p q
    unfolding match_rule
    match_rule-up n p q outs c e = ground (arith, e)

    pub found-host_rules :
        (n : ℕ) (p : Primitive) (q : ℤ) (outs : List ℤ) (cs : List ConnectionConfig)
        → to_primitive (pos n) ≡ some p
        → found (host_rules (up_rule n q outs) cs) ≡ (
            if concerns p q
            then map_option (λ c. rule_of x (up_rule n q outs c)) (find_host cs)
            else none)
    unfolding host_rules lookup_rule
    found-host_rules n p q outs [] e = ground arith
    found-host_rules n p q outs (c ∷ cs) e =
        ground (arith, match_rule-up n p q outs c e, found-host_rules n p q outs cs e)

    pub found-other_reduce :
        (w : ℕ) (cs : List ConnectionConfig) → prim ≢ reduce → found (reduce_rules w cs) ≡ none
    unfolding reduce_rules
    found-other_reduce zero cs h = unfold lookup_rule in refl
    found-other_reduce (suc w) cs h =
        let outs = get_conn_for_rank cs w ∷ [] in
        found-append (reduce_rules w cs) (host_rules (up_rule 2 (pos w) outs) cs)
        ∙ ground (
          arith,
          h,
          found-other_reduce w cs h,
          found-host_rules 2 reduce (pos w) outs cs cast_two,
        )

    found-from :
        (s : ℕ) (outs : List ℤ) (cs : List ConnectionConfig) (z : ℤ) (rs : List RuleConfig)
        → rules_from s outs cs z ≡ some rs
        → concerns broadcast (pos s) ≡ false
        → found rs ≡ none
    found-from s outs cs z rs e h = elim (rules_from-some s outs cs z rs e) [
      | inl empty ↦ rw empty found-nil
      | inr (c, one) ↦ rw one (
          unfold lookup_rule in
          ground (arith, match_rule-up 3 broadcast (pos s) outs c cast_three, h))
    ]

    found-sender_rules :
        (s : ℕ) (cs : List ConnectionConfig) (rs : List RuleConfig)
        → sender_rules s cs ≡ some rs
        → concerns broadcast (pos s) ≡ false
        → found rs ≡ none
    unfolding sender_rules
    found-sender_rules s cs rs e h =
        found-from s (get_host_conns_except cs s) cs (get_conn_for_rank cs s) rs e h

    found-other_broadcast :
        (w : ℕ) (cs : List ConnectionConfig) (rs : List RuleConfig)
        → broadcast_rules w cs ≡ some rs
        → ((s : ℕ) → s < w → concerns broadcast (pos s) ≡ false)
        → found rs ≡ none
    unfolding broadcast_rules
    found-other_broadcast zero cs rs e h = subst (λ rs. found rs ≡ none) (nothing e) found-nil
      where
        nothing : some [] ≡ some rs → [] ≡ rs
        nothing e = cc
    found-other_broadcast (suc w) cs rs e h =
        let (before, b, after, a, joined) = both (broadcast_rules w cs) (sender_rules w cs) rs e in
        subst (λ rs. found rs ≡ none) joined
          (found-append before after
            ∙ rw (found-other_broadcast w cs before b (λ s l. h s (omega (arith, l))))
                (found-sender_rules w cs after a (h w (omega arith))))

  -- The rules of a Reduce towards rank r
  pub found-reduce_rules :
      (r w : ℕ) (cs : List ConnectionConfig)
      → found reduce (pos r) (reduce_rules w cs) ≡ (
          if ltb r w
          then map_option
              (λ c. rule_of x (up_rule 2 (pos r) (get_conn_for_rank cs r ∷ []) c))
              (find_host cs)
          else none)
  unfolding reduce_rules
  found-reduce_rules r zero cs = unfold lookup_rule in ground arith
  found-reduce_rules r (suc w) cs =
      let outs = get_conn_for_rank cs w ∷ [] in
      found-append reduce (pos r) (reduce_rules w cs) (host_rules (up_rule 2 (pos w) outs) cs)
      ∙ (elim (ℕ_discrete r w) [
        | yes e ↦
            subst
              (λ v.
                either_of (found reduce (pos r) (reduce_rules v cs)) (
                  found reduce (pos r)
                    (host_rules (up_rule 2 (pos v) (get_conn_for_rank cs v ∷ [])) cs))
                ≡ (if ltb r (suc v)
                    then map_option
                        (λ c. rule_of x (up_rule 2 (pos r) (get_conn_for_rank cs r ∷ []) c))
                        (find_host cs)
                    else none))
              e
              (ground (
                arith,
                found-reduce_rules r w cs,
                e,
                found-host_rules reduce (pos r) 2 reduce (pos r) (get_conn_for_rank cs r ∷ []) cs
                    cast_two,
              ))
        | no n ↦ ground (
          arith,
          n,
          found-reduce_rules r w cs,
          found-host_rules reduce (pos r) 2 reduce (pos w) outs cs cast_two,
        )
      ])

  sender_rules-some :
      (s k : ℕ) (cs : List ConnectionConfig) (c : ConnectionConfig)
      → get_conn_for_rank cs s ≡ pos k
      → get_elem? cs k ≡ some c
      → sender_rules s cs ≡ some (up_rule 3 (pos s) (get_host_conns_except cs s) c ∷ [])
  unfolding sender_rules
  sender_rules-some s k cs c h e = rw (h, e)

  -- The rule of a Broadcast from rank s
  unfoldable pub broadcast_rule : ℕ → List ConnectionConfig → ConnectionConfig → Rule
  broadcast_rule s cs c = rule_of x (up_rule 3 (pos s) (get_host_conns_except cs s) c)

  found-only :
      (s k : ℕ) (cs : List ConnectionConfig) (c : ConnectionConfig) (rs : List RuleConfig)
      → get_conn_for_rank cs s ≡ pos k
      → get_elem? cs k ≡ some c
      → has_addresses c ≡ true
      → sender_rules s cs ≡ some rs
      → found broadcast (pos s) rs ≡ some (broadcast_rule s cs c)
  unfolding broadcast_rule
  found-only s k cs c rs h g a e =
      let outs = get_host_conns_except cs s in
      subst (λ rs. found broadcast (pos s) rs ≡ some (rule_of x (up_rule 3 (pos s) outs c)))
        (same (sym (sender_rules-some s k cs c h g) ∙ e))
        (unfold lookup_rule in
          ground (arith, match_rule-up broadcast (pos s) 3 broadcast (pos s) outs c cast_three, a))
    where
      same : {a b : List RuleConfig} → some a ≡ some b → a ≡ b
      same e = cc e

  pub found-broadcast_rules :
      (s k w : ℕ) (cs : List ConnectionConfig) (c : ConnectionConfig) (rs : List RuleConfig)
      → broadcast_rules w cs ≡ some rs
      → s < w
      → get_conn_for_rank cs s ≡ pos k
      → get_elem? cs k ≡ some c
      → has_addresses c ≡ true
      → found broadcast (pos s) rs ≡ some (broadcast_rule s cs c)
  unfolding broadcast_rules
  found-broadcast_rules s k zero cs c rs e lt h g a = absurd (omega (arith, lt))
  found-broadcast_rules s k (suc w) cs c rs e lt h g a =
      let (before, b, after, f, joined) = both (broadcast_rules w cs) (sender_rules w cs) rs e in
      subst (λ rs. found broadcast (pos s) rs ≡ some (broadcast_rule s cs c)) joined
        (found-append broadcast (pos s) before after ∙ (elim (ℕ_discrete s w) [
          | yes same ↦
              rw (found-other_broadcast broadcast (pos s) w cs before b (others same))
                (found-only s k cs c after h g a (ap (λ v. sender_rules v cs) same ∙ f))
          | no n ↦ rw (found-broadcast_rules s k w cs c before b (omega (arith, lt, n)) h g a)
        ]))
    where
      others : s ≡ w → (v : ℕ) → v < w → concerns broadcast (pos s) broadcast (pos v) ≡ false
      others same v l = ground (arith, same, l)

  pub find_host-has :
      (cs : List ConnectionConfig) (c : ConnectionConfig)
      → find_host cs ≡ some c
      → has_addresses c ≡ true
  find_host-has [] c e = cc
  find_host-has (d ∷ cs) c e = elim (Bool-cases (not d.is_switch && has_addresses d)) [
    | inl hit ↦ subst (λ c. has_addresses c ≡ true) (first_is hit) (ground (arith, hit))
    | inr miss ↦ find_host-has cs c (ground (arith, e, miss))
  ]
    where
      first_is : not d.is_switch && has_addresses d ≡ true → d ≡ c
      first_is hit = same (sym (rw hit refl) ∙ e)
        where
          same : {a b : ConnectionConfig} → some a ≡ some b → a ≡ b
          same e = cc e
