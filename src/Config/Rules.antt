-- ===== src/Config/Rules.antt =====
-- repository/termination_switch/src/controller_comm.cpp, `parse_rules`: what the loop over the rules
-- that the controller has encoded makes of the routing table.
use inc_emulation.Base.{
  ℕ, zero, suc, ◌+◌, ◌≤◌, ◌<◌, ◌≡◌, ap, ◌∙◌, arith, some, List, [], ◌∷◌, ◌++◌, length,
  length-append, map, append-nil, append_assoc, first,
}
use inc_emulation.External.{External}
use inc_emulation.Rule.{Rule, RuleTable, max_rules}
use inc_emulation.Controller.{RuleConfig}
use inc_emulation.Controller.Encode.{encode_rule}
use inc_emulation.Config.{read_rule, done, parse_each_rule}
use inc_emulation.Config.ReadBack.{rule_of, read_rule-encode}

-- Rules whose primitives are enumerators
pub data IsKnown : List RuleConfig → Type 0 where
  none_left : IsKnown []
  known : {r : RuleConfig} {rs : List RuleConfig} → r.primitive ≤ 3 → IsKnown rs → IsKnown (r ∷ rs)

module _ (x : External) where
  step_rule :
      (table : RuleTable) (n : x.Node) (ns : List x.Node) (rule : Rule)
      → length table < max_rules
      → read_rule x n ≡ some (some rule)
      → parse_each_rule x table (n ∷ ns) ≡ parse_each_rule x (table ++ (rule ∷ [])) ns
  unfolding parse_each_rule
  step_rule table n ns rule h e = ground (arith, h, e)

  full_table :
      (table : RuleTable) (n : x.Node) (ns : List x.Node)
      → max_rules ≤ length table
      → parse_each_rule x table (n ∷ ns) ≡ some (table, done)
  unfolding parse_each_rule
  full_table table n ns h = ground (arith, h)

  pub parse_each_rule-encode :
      (n : ℕ) (table : RuleTable) (rs : List RuleConfig)
      → length table + n ≡ max_rules
      → IsKnown rs
      → parse_each_rule x table (map (encode_rule x) rs)
        ≡ some (table ++ first n (map (rule_of x) rs), done)
  parse_each_rule-encode zero table [] h k = unfold parse_each_rule in rw append-nil
  parse_each_rule-encode (suc n) table [] h k = unfold parse_each_rule in rw append-nil
  parse_each_rule-encode zero table (r ∷ rs) h k =
      full_table table _ _ (omega (arith, h)) ∙ rw append-nil
  parse_each_rule-encode (suc n) table (r ∷ rs) h (known p k) =
      step_rule table _ _ (rule_of x r) (omega (arith, h)) (read_rule-encode x r p)
      ∙ parse_each_rule-encode n (table ++ (rule_of x r ∷ [])) rs
          (omega (arith, h, length-append table (rule_of x r ∷ []))) k
      ∙ ap (λ t. some (t, done)) (append_assoc table (rule_of x r ∷ []) _)
