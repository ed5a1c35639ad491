-- ===== src/Rule.antt =====
-- repository/src/rule.c and repository/include/rule.h: the routing table. A pointer to a connection
-- is the connection's index in the switch's `conns`; `out_conns` is the list of the first
-- `out_conns_cnt` pointers, and the table the list of its first `count` rules.
pub mod Lookup
mod Tests
use inc_emulation.Base.{
  ℕ, suc, ◌+◌, Bool, true, false, not, ◌&&◌, ◌||◌, ◌==◌, leb, if◌then◌else◌, ℤ, eq_ℤ, minus_one,
  Option, none, some, List, [], ◌∷◌, ◌++◌, length,
}

-- `primitive_type_t`
pub data Primitive : Type 0 where
  null allreduce reduce broadcast : Primitive

abbrev pub eq_primitive : Primitive → Primitive → Bool
eq_primitive null null = true
eq_primitive allreduce allreduce = true
eq_primitive reduce reduce = true
eq_primitive broadcast broadcast = true
eq_primitive _ _ = false

-- `rule_direction_t`
pub data Direction : Type 0 where
  up down : Direction

-- `rule_t`; `ack_conn` is `none` where the pointer is NULL.
pub record Rule : Type 0 where
  pub src_ip : ℕ
  pub dst_ip : ℕ
  pub primitive : Primitive
  pub primitive_param : ℤ
  pub conn_id : ℤ
  pub direction : Direction
  pub root : Bool
  pub ack_conn : Option ℕ
  pub out_conns : List ℕ

-- `rule_table_t`
abbrev pub RuleTable : Type 0
RuleTable = List Rule

abbrev pub max_rules : ℕ
max_rules = 100

unfoldable pub match_rule : Rule → (src_ip dst_ip : ℕ) → Primitive → ℤ → Bool
match_rule rule src_ip dst_ip primitive primitive_param =
    if not (rule.src_ip == src_ip) || not (rule.dst_ip == dst_ip)
    then false
    else if not (eq_primitive rule.primitive primitive)
    then false
    else if eq_primitive primitive allreduce
    then true
    else eq_ℤ rule.primitive_param primitive_param

-- The loop as the file indents it: a closing brace too many ends the function behind the loop.
unfoldable pub lookup_rule : RuleTable → (src_ip dst_ip : ℕ) → Primitive → ℤ → Option Rule
lookup_rule [] src_ip dst_ip primitive primitive_param = none
lookup_rule (rule ∷ table) src_ip dst_ip primitive primitive_param =
    if match_rule rule src_ip dst_ip primitive primitive_param
    then some rule
    else lookup_rule table src_ip dst_ip primitive primitive_param

-- The new table, or `none` for the -1 of a full one.
unfoldable pub add_rule : RuleTable → Rule → Option RuleTable
add_rule table rule = if leb max_rules (length table) then none else some (table ++ (rule ∷ []))
