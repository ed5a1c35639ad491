-- ===== src/Switch/Handler/Safe.antt =====
-- repository/termination_switch/src/switch_main.c: frames that never make the switch leave an array
-- or follow a NULL pointer.
pub mod Sending
pub mod Acks
pub mod Handling
pub mod Run
use inc_emulation.Base.{
  ℕ, ◌+◌, ◌-◌, ◌*◌, ◌/◌, ◌≤◌, ◌<◌, ◌≡◌, refl, ◌∙◌, Bool, true, false, if◌then◌else◌, Option, none,
  some, List, [], ◌∷◌, ◌++◌, ℤ, pos, negsuc,
}
use inc_emulation.Rule.{reduce, Rule, RuleTable}
use inc_emulation.Packet.{Frame, frame_udp_len}
use inc_emulation.Switch.State.{Context, Sent, Outcome, max_ranks, max_connections_num}
use inc_emulation.Switch.Send.{and_then}
use inc_emulation.Switch.Handler.{
  has_imm_data, imm_primitive, imm_param, is_data_opcode, overhead, Captured,
}

-- The rule has a connection for its acknowledgements.
abbrev pub HasAck : Rule → Type 0
HasAck rule = (c : ℕ) × (rule.ack_conn ≡ some c)

abbrev pub AllHaveAck : RuleTable → Type 0
AllHaveAck [] = Unit {0}
AllHaveAck (rule ∷ table) = HasAck rule × AllHaveAck table

-- A rank that `rank_to_conn` has a place for
abbrev pub IsRank : ℤ → Type 0
IsRank (pos rank) = rank < max_ranks
IsRank (negsuc _) = ⊥

-- A state whose next step cannot fail, whatever is in its slots
pub record IsReady (ctx : Context) : Type 0 where
  pub acks : AllHaveAck ctx.routing_table
  pub rank : ctx.operation_type ≡ reduce → IsRank ctx.root_rank

-- A frame that names a rank inside of the array if it names a Reduce, and that has a payload, of at
-- most 1009 words, if its opcode is one of data
pub record Fits (f : Frame) : Type 0 where
  pub rank : has_imm_data f ≡ true → imm_primitive f ≡ reduce → IsRank (imm_param f)
  pub headers : is_data_opcode (f.bth.opcode) ≡ true → overhead f ≤ frame_udp_len f
  pub payload : is_data_opcode (f.bth.opcode) ≡ true → (frame_udp_len f - overhead f) / 4 ≤ 1009

-- A frame that fits, from one of the connections that there are places for, captured whole
abbrev pub AllFit : List Captured → Type 0
AllFit [] = Unit {0}
AllFit (c ∷ rest) =
    Fits c.frame
    × (c.conn_id < max_connections_num)
    × (34 + overhead c.frame ≤ c.caplen)
    × (34 + frame_udp_len c.frame ≤ c.caplen)
    × AllFit rest

-- What a step keeps of what the next one needs
abbrev pub Keeps : Context → Context → Type 0
Keeps a b =
    (b.routing_table ≡ a.routing_table)
    × (b.operation_type ≡ a.operation_type)
    × (b.root_rank ≡ a.root_rank)

abbrev pub Succeeds : Context → Outcome → Type 0
Succeeds a none = ⊥
Succeeds a (some (b, sent)) = Keeps a b

pub Succeeds-trans : (a b : Context) (o : Outcome) → Keeps a b → Succeeds b o → Succeeds a o
Succeeds-trans a b none h k = k
Succeeds-trans a b (some (c, sent)) h k = (k.0 ∙ h.0, k.1 ∙ h.1, k.2 ∙ h.2)

pub prepended :
    (a : Context) (sent : List Sent) (o : Outcome)
    → Succeeds a o
    → Succeeds a (elim o [ none ↦ none | some (c, more) ↦ some (c, sent ++ more) ])
prepended a sent none r = r
prepended a sent (some (c, more)) r = r

pub and_then-Succeeds :
    (a : Context) (o : Outcome) (k : Context → Outcome)
    → Succeeds a o
    → ((b : Context) → Succeeds b (k b))
    → Succeeds a (and_then o k)
and_then-Succeeds a none k h step = h
and_then-Succeeds a (some (b, sent)) k h step =
    prepended a sent (k b) (Succeeds-trans a b (k b) h (step b))

pub if-Succeeds :
    (a : Context) (b : Bool) (x y : Outcome)
    → (b ≡ true → Succeeds a x)
    → (b ≡ false → Succeeds a y)
    → Succeeds a (if b then x else y)
if-Succeeds a true x y h k = h refl
if-Succeeds a false x y h k = k refl
