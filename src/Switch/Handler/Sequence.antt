-- ===== src/Switch/Handler/Sequence.antt =====
-- repository/termination_switch/src/switch_main.c: a data frame that comes again.
use inc_emulation.Base.{
  ◌%◌, ℕ, ◌+◌, ◌-◌, ◌<◌, ◌≡◌, Option, u32_mod, arith, true, false, some, none, List, [], ◌∷◌,
}
use inc_emulation.Rule.{Rule, up, lookup_rule}
use inc_emulation.Packet.{Frame, ack, build_eth_packet, frame_psn, extra_len}
use inc_emulation.Switch.State.{Context, Sent}
use inc_emulation.Switch.Send.{opcode_ack, send_packet, forwarding, forward_ack}
use inc_emulation.Switch.Handler.{
  has_imm_data, is_data_opcode, is_control_message, store_metadata, no_data, dispatch,
  upstream_data, packet_handler, run,
}
use inc_emulation.Switch.Handler.Grows.{Grows}

-- An ACK that the switch sends on a connection
abbrev pub ack_frame : Context → (conn psn : ℕ) → Sent
ack_frame ctx conn psn = record {
  conn = conn;
  frame = build_eth_packet ack no_data 0 (ctx.conns conn) psn ((psn + 1) % u32_mod) opcode_ack none;
}

-- The rule under which a frame without immediate data is handled
abbrev pub rule_of : Context → Frame → Option Rule
rule_of ctx f =
    lookup_rule ctx.routing_table f.ip.src_ip f.ip.dst_ip ctx.operation_type ctx.root_rank

-- A frame with data for the aggregation and without immediate data
pub record IsData (f : Frame) : Type 0 where
  pub plain : has_imm_data f ≡ false
  pub data_opcode : is_data_opcode (f.bth.opcode) ≡ true

pub forwarding-ack :
    (ctx : Context) (rule : Rule) (psn conn : ℕ)
    → rule.ack_conn ≡ some conn
    → forwarding ctx rule psn ack no_data 0 opcode_ack ≡ some (ack_frame ctx conn psn ∷ [])
unfolding forwarding forward_ack send_packet extra_len
forwarding-ack ctx rule psn conn e = ground (arith, e)

pub packet_handler-old :
    (ctx : Context) (conn : ℕ) (f : Frame) (rule : Rule) (link : ℕ)
    → IsData f
    → rule_of ctx f ≡ some rule
    → rule.direction ≡ up
    → rule.ack_conn ≡ some link
    → frame_psn f < ctx.agg_epsn conn
    → packet_handler ctx conn f ≡ some (ctx, ack_frame ctx link (ctx.agg_epsn conn - 1) ∷ [])
unfolding packet_handler store_metadata is_control_message dispatch upstream_data
packet_handler-old ctx conn f rule link is_data found dir back old = ground (
  arith,
  is_data.plain,
  is_data.data_opcode,
  found,
  dir,
  old,
  forwarding-ack ctx rule (ctx.agg_epsn conn - 1) link back,
)

-- The first step of a run, and the rest
record Step (ctx now : Context) (conn : ℕ) (f : Frame) (rest : List (ℕ × Frame)) : Type 0 where
  mid : Context
  first : List Sent
  more : List Sent
  handled : packet_handler ctx conn f ≡ some (mid, first)
  ran : run mid rest ≡ some (now, more)
