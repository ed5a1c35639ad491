-- ===== src/Rule/Tests.antt =====
-- The routing table at concrete values.
use inc_emulation.Base.{◌≡◌, ◌↔◌, true, some, [], ◌∷◌, pos}
use inc_emulation.Rule.{Rule, RuleTable, allreduce, reduce, up, lookup_rule}
use inc_emulation.Rule.Lookup.{IsFirst, lookup_rule_iff}

abbrev to_root : Rule
to_root = record {
  src_ip = 1;
  dst_ip = 2;
  primitive = reduce;
  primitive_param = pos 3;
  conn_id = pos 0;
  direction = up;
  root = true;
  ack_conn = some 0;
  out_conns = [];
}

abbrev to_other_root : Rule
to_other_root = record to_root { primitive_param = pos 4; conn_id = pos 1 }

abbrev to_all : Rule
to_all = record to_root { primitive = allreduce; conn_id = pos 2 }

abbrev table : RuleTable
table = to_root ∷ to_other_root ∷ to_all ∷ []

lookup_rule_iff_example :
    (lookup_rule table 1 2 reduce (pos 4) ≡ some to_other_root)
    ↔ IsFirst 1 2 reduce (pos 4) table to_other_root
lookup_rule_iff_example = lookup_rule_iff 1 2 reduce (pos 4) table to_other_root
