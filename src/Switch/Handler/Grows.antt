-- ===== src/Switch/Handler/Grows.antt =====
-- repository/termination_switch/src/switch_main.c: what no step of the switch changes, and the PSNs
-- that no step sets back.
pub mod Sending
pub mod Acks
pub mod Handling
pub mod Ints
use inc_emulation.Base.{
  ℕ, zero, suc, ◌+◌, ◌≤◌, ◌<◌, ◌≡◌, refl, ◌∙◌, arith, Bool, true, false, ◌==◌, if◌then◌else◌,
  Option, none, some, List, [], ◌∷◌, ◌-◌, eq_ℤ, not, ◌&&◌, ◌⊎◌, ◌++◌, Option-cases, Bool-cases, inl,
  inr, ℤ, pos, negsuc, update, ltb, leb,
}
use inc_emulation.Rule.{
  eq_primitive, Primitive, null, allreduce, reduce, broadcast, up, down, Rule, RuleTable,
  lookup_rule,
}
use inc_emulation.Packet.{PacketType, data_packet, Connection, Frame}
use inc_emulation.Switch.State.{
  buffer_words, max_ranks, Context, PsnState, Sent, Outcome, slot, put_slot,
}
use inc_emulation.Switch.Send.{
  cached_slot, strip_immediate_opcode, send_packet, send_next, and_then, find_conn, broadcast_to,
  broadcast_from, handle_broadcast, cache_and_broadcast, forwarding,
}
use inc_emulation.Switch.Aggregate.{then_clear, reduce_to_root, complete, accumulate, aggregate}
use inc_emulation.Switch.Handler.{
  release_slot, release_slots, handle_downstream_ack, handle_upstream_ack, store_metadata,
  reply_then, stay, with_payload, downstream_data, upstream_data, control_message, dispatch,
  packet_handler, run,
}

-- From one state to a later one: the routing stays, and no PSN goes back.
pub record Grows (a b : Context) : Type 0 where
  pub rules : b.routing_table ≡ a.routing_table
  pub fan : b.fan_in ≡ a.fan_in
  pub root : b.is_root ≡ a.is_root
  pub ranks : b.rank_to_conn ≡ a.rank_to_conn
  pub links : b.conns ≡ a.conns
  pub epsn : (c : ℕ) → a.agg_epsn c ≤ b.agg_epsn c
  pub down_psn : a.down_epsn ≤ b.down_epsn
  pub sends : (c : ℕ) → a.send_psn c ≤ b.send_psn c
  pub acks : (c : ℕ) → a.latest_ack c ≤ b.latest_ack c
  pub downs : a.down_ack ≤ b.down_ack

abbrev pub GrowsTo : Context → Outcome → Type 0
GrowsTo a none = Unit {0}
GrowsTo a (some (b, sent)) = Grows a b

pub Grows-refl : (a : Context) → Grows a a
Grows-refl a = record {
  rules = refl;
  fan = refl;
  root = refl;
  ranks = refl;
  links = refl;
  epsn = λ c. omega arith;
  down_psn = omega arith;
  sends = λ c. omega arith;
  acks = λ c. omega arith;
  downs = omega arith;
}

pub Grows-trans : (a b c : Context) → Grows a b → Grows b c → Grows a c
Grows-trans a b c h k = record {
  rules = k.rules ∙ h.rules;
  fan = k.fan ∙ h.fan;
  root = k.root ∙ h.root;
  ranks = k.ranks ∙ h.ranks;
  links = k.links ∙ h.links;
  epsn = λ i. omega (arith, h.epsn i, k.epsn i);
  down_psn = omega (arith, h.down_psn, k.down_psn);
  sends = λ i. omega (arith, h.sends i, k.sends i);
  acks = λ i. omega (arith, h.acks i, k.acks i);
  downs = omega (arith, h.downs, k.downs);
}

pub GrowsTo-trans : (a b : Context) (o : Outcome) → Grows a b → GrowsTo b o → GrowsTo a o
GrowsTo-trans a b none h k = tt
GrowsTo-trans a b (some (c, sent)) h k = Grows-trans a b c h k

pub and_then-GrowsTo :
    (a : Context) (o : Outcome) (k : Context → Outcome)
    → GrowsTo a o
    → ((b : Context) → GrowsTo b (k b))
    → GrowsTo a (and_then o k)
and_then-GrowsTo a none k h step = tt
and_then-GrowsTo a (some (b, sent)) k h step = prepended (k b) (GrowsTo-trans a b (k b) h (step b))
  where
    prepended :
        (o : Outcome)
        → GrowsTo a o
        → GrowsTo a (elim o [ none ↦ none | some (c, more) ↦ some (c, sent ++ more) ])
    prepended none r = tt
    prepended (some (c, more)) r = r

-- A change of the fields that a run may change freely
module _ (a : Context) where
  pub sent-Grows :
      (conn : ℕ) → Grows a (record a { send_psn = update a.send_psn conn (a.send_psn conn + 1) })
  sent-Grows conn = record {
    rules = refl;
    fan = refl;
    root = refl;
    ranks = refl;
    links = refl;
    epsn = λ c. omega arith;
    down_psn = omega arith;
    sends = λ c. ground arith;
    acks = λ c. omega arith;
    downs = omega arith;
  }

  pub put_slot-Grows : (psn : ℕ) (s : PsnState) → Grows a (put_slot a psn s)
  put_slot-Grows psn s = record {
    rules = refl;
    fan = refl;
    root = refl;
    ranks = refl;
    links = refl;
    epsn = λ c. omega arith;
    down_psn = omega arith;
    sends = λ c. omega arith;
    acks = λ c. omega arith;
    downs = omega arith;
  }

pub if-GrowsTo :
    (a : Context) (b : Bool) (x y : Outcome)
    → GrowsTo a x
    → GrowsTo a y
    → GrowsTo a (if b then x else y)
if-GrowsTo a true x y h k = h
if-GrowsTo a false x y h k = k
