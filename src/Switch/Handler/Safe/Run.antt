-- ===== src/Switch/Handler/Safe/Run.antt =====
-- Runs of switch_main.c on frames that fit.
use mathlib.Core.Path.{subst}
use inc_emulation.Base.{
  ℕ, ◌+◌, ◌≤◌, ◌<◌, ◌≡◌, refl, sym, ◌∙◌, arith, if◌then◌else◌, Option, none, some, List, [], ◌∷◌,
  ◌++◌, Bool-cases, inl, inr, ℤ,
}
use inc_emulation.Rule.{Rule, RuleTable, Primitive, lookup_rule, match_rule}
use inc_emulation.Packet.{Frame, frame_udp_len}
use inc_emulation.Switch.State.{Context, Sent, Outcome, max_connections_num}
use inc_emulation.Switch.Send.{and_then}
use inc_emulation.Switch.Handler.{
  store_metadata, stay, control_message, dispatch, packet_handler, has_imm_data, imm_primitive,
  imm_param, is_control_message, Captured, handle_captured, run_captured, overhead,
}
use inc_emulation.Switch.Handler.Grows.{GrowsTo}
use inc_emulation.Switch.Handler.Grows.Handling.{packet_handler-GrowsTo}
use inc_emulation.Switch.Handler.Safe.{
  HasAck, AllHaveAck, IsReady, Fits, AllFit, Succeeds, if-Succeeds,
}
use inc_emulation.Switch.Handler.Safe.Handling.{control_message-Succeeds, dispatch-Succeeds}

lookup_rule-HasAck :
    (table : RuleTable) (src dst : ℕ) (prim : Primitive) (param : ℤ) (rule : Rule)
    → AllHaveAck table
    → lookup_rule table src dst prim param ≡ some rule
    → HasAck rule
unfolding lookup_rule
lookup_rule-HasAck [] src dst prim param rule h e = cc
lookup_rule-HasAck (r ∷ table) src dst prim param rule (ha, h) e =
    elim (Bool-cases (match_rule r src dst prim param)) [
      | inl hit ↦ (let same : r ≡ rule = ground arith in subst HasAck same ha)
      | inr miss ↦ lookup_rule-HasAck table src dst prim param rule h (ground arith)
    ]

abbrev EndsReady : Outcome → Type 0
EndsReady none = ⊥
EndsReady (some (b, sent)) = IsReady b

Succeeds-EndsReady : (a : Context) (o : Outcome) → IsReady a → Succeeds a o → EndsReady o
Succeeds-EndsReady a none r s = s
Succeeds-EndsReady a (some (b, sent)) r (table, op, root) = record {
  acks = rw table (r.acks);
  rank = λ e. rw root (r.rank (sym op ∙ e));
}

store_metadata-IsReady :
    (a : Context) (f : Frame) → IsReady a → Fits f → IsReady (store_metadata a f)
unfolding store_metadata
store_metadata-IsReady a f r fits = elim (Bool-cases (has_imm_data f)) [
  | inl e ↦ rw (store_metadata, e) (record { acks = r.acks; rank = fits.rank e })
  | inr e ↦ rw (store_metadata, e) r
]

packet_handler-EndsReady :
    (a : Context) (conn : ℕ) (f : Frame) → IsReady a → Fits f → EndsReady (packet_handler a conn f)
unfolding packet_handler
packet_handler-EndsReady a conn f r fits =
    handled (lookup_rule a.routing_table f.ip.src_ip f.ip.dst_ip prim param) (λ rule e.
      lookup_rule-HasAck a.routing_table f.ip.src_ip f.ip.dst_ip prim param rule r.acks e)
  where
    prim : Primitive
    prim = if has_imm_data f then imm_primitive f else a.operation_type

    param : ℤ
    param = if has_imm_data f then imm_param f else a.root_rank

    b : Context
    b = store_metadata a f

    ready : IsReady b
    ready = store_metadata-IsReady a f r fits

    handled :
        (found : Option Rule)
        → ((rule : Rule) → found ≡ some rule → HasAck rule)
        → EndsReady (elim found [
          | none ↦ stay b
          | some rule ↦
              if is_control_message f then control_message b rule conn f else dispatch b rule conn f
        ])
    handled none h = ready
    handled (some rule) h = Succeeds-EndsReady b _ ready (
        if-Succeeds b (is_control_message f) _ _
          (λ e. control_message-Succeeds b rule (h rule refl) conn f)
          (λ e. dispatch-Succeeds b rule (h rule refl) conn f fits ready.rank))

-- Ready, and with no more connections than there are places for
abbrev pub IsSafe : Context → Type 0
IsSafe a = IsReady a × (a.fan_in ≤ max_connections_num)

abbrev EndsSafe : Outcome → Type 0
EndsSafe none = ⊥
EndsSafe (some (b, sent)) = IsSafe b

EndsReady-EndsSafe :
    (a : Context) (o : Outcome)
    → a.fan_in ≤ max_connections_num
    → EndsReady o
    → GrowsTo a o
    → EndsSafe o
EndsReady-EndsSafe a none fan r g = r
EndsReady-EndsSafe a (some (b, sent)) fan r g = (r, rw g.fan fan)

handle_captured-EndsSafe :
    (a : Context) (c : Captured)
    → IsSafe a
    → Fits c.frame
    → c.conn_id < max_connections_num
    → 34 + overhead c.frame ≤ c.caplen
    → 34 + frame_udp_len c.frame ≤ c.caplen
    → EndsSafe (handle_captured a c)
unfolding handle_captured
handle_captured-EndsSafe a c (r, fan) fits conn headers whole = subst EndsSafe (sym inside) (
    EndsReady-EndsSafe a (packet_handler a c.conn_id c.frame) fan
      (packet_handler-EndsReady a c.conn_id c.frame r fits)
      (packet_handler-GrowsTo a c.conn_id c.frame))
  where
    inside : handle_captured a c ≡ packet_handler a c.conn_id c.frame
    inside = ground (arith, fan, conn, headers, whole)

and_then-EndsSafe :
    (o : Outcome) (k : Context → Outcome)
    → EndsSafe o
    → ((b : Context) → IsSafe b → EndsSafe (k b))
    → EndsSafe (and_then o k)
and_then-EndsSafe none k h step = h
and_then-EndsSafe (some (b, sent)) k h step = joined (k b) (step b h)
  where
    joined :
        (o : Outcome)
        → EndsSafe o
        → EndsSafe (elim o [ none ↦ none | some (c, more) ↦ some (c, sent ++ more) ])
    joined none r = r
    joined (some (c, more)) r = r

run_captured-EndsSafe :
    (a : Context) (frames : List Captured)
    → IsSafe a
    → AllFit frames
    → EndsSafe (run_captured a frames)
unfolding run_captured
run_captured-EndsSafe a [] r fits = r
run_captured-EndsSafe a (c ∷ rest) r (fits, conn, headers, whole, more) =
    and_then-EndsSafe (handle_captured a c) (λ b. run_captured b rest)
      (handle_captured-EndsSafe a c r fits conn headers whole)
      (λ b safe. run_captured-EndsSafe b rest safe more)

-- A switch of at most ten connections, whose rules all have a connection for acknowledgements, and whose
-- stored operation, if it is a Reduce, names a rank below 128, goes through any run of captured frames
-- without leaving an array or following NULL, and is such a switch again, whatever is in its slots: if each
-- frame comes in on a connection below ten, is captured whole, with its headers and all that its UDP
-- length says, names a rank below 128 where it names a Reduce, and has, if its opcode is one of data, a
-- UDP length that covers the headers and at most 1009 words more.
pub run_captured-IsReady :
    (a : Context) (frames : List Captured)
    → IsReady a
    → a.fan_in ≤ max_connections_num
    → AllFit frames
    → (b : Context) × (sent : List Sent) × (run_captured a frames ≡ some (b, sent))
      × IsReady b
      × (b.fan_in ≤ max_connections_num)
run_captured-IsReady a frames r fan fits =
    ended (run_captured a frames) refl (run_captured-EndsSafe a frames (r, fan) fits)
  where
    ended :
        (o : Outcome)
        → run_captured a frames ≡ o
        → EndsSafe o
        → (b : Context) × (sent : List Sent) × (run_captured a frames ≡ some (b, sent))
          × IsReady b
          × (b.fan_in ≤ max_connections_num)
    ended none e h = absurd h
    ended (some (b, sent)) e (h, k) = (b, sent, e, h, k)
