-- ===== src/Switch/Handler/Control.antt =====
-- repository/termination_switch/src/switch_main.c: what the expected PSN of a connection means for the
-- frames that follow a control message, and for the frames after 2 ^ 24 of them.
use mathlib.Core.Path.{subst}
use inc_emulation.Base.{
  bswap32, ℕ, ◌+◌, ◌-◌, ◌≤◌, ◌<◌, ◌≡◌, ◌^◌, ◌∙◌, sym, arith, true, Option, pos, some, List, [], ◌∷◌,
}
use inc_emulation.Bits.{bit_and_ones}
use inc_emulation.Rule.{Rule, up, lookup_rule}
use inc_emulation.Packet.{Frame, frame_psn}
use inc_emulation.Switch.State.{Context, Sent}
use inc_emulation.Switch.Handler.{
  has_imm_data, imm_primitive, imm_param, is_control_message, store_metadata, control_message,
  packet_handler, run, Captured, in_arrays, handle_captured, run_captured,
}
use inc_emulation.Switch.Handler.Grows.Acks.{taken}
use inc_emulation.Switch.Handler.Grows.Ints.{HasInts, run_captured-keeps}
use inc_emulation.Switch.Handler.Sequence.{
  ack_frame, IsData, rule_of, forwarding-ack, packet_handler-old,
}

-- The rule under which a control message is handled
abbrev pub control_rule : Context → Frame → Option Rule
control_rule ctx f =
    lookup_rule ctx.routing_table f.ip.src_ip f.ip.dst_ip (imm_primitive f) (imm_param f)

-- The state after a control message
abbrev pub announced : Context → (conn : ℕ) → Frame → Context
announced ctx conn f = record (taken ctx conn) {
  operation_type = imm_primitive f;
  root_rank = imm_param f;
  ctrl_psn = pos (frame_psn f);
}

control_has_imm : (f : Frame) → is_control_message f ≡ true → has_imm_data f ≡ true
unfolding is_control_message
control_has_imm f control = ground (arith, control)

-- A control message with a rule that has a way back sets the operation and its root, is acknowledged
-- under its own PSN, and counts the expected PSN of its connection by one. Its PSN is not compared
-- with the expected one.
packet_handler-control :
    (ctx : Context) (conn : ℕ) (f : Frame) (rule : Rule) (link : ℕ)
    → is_control_message f ≡ true
    → control_rule ctx f ≡ some rule
    → rule.ack_conn ≡ some link
    → packet_handler ctx conn f ≡ some (announced ctx conn f, ack_frame ctx link (frame_psn f) ∷ [])
unfolding packet_handler store_metadata control_message
packet_handler-control ctx conn f rule link control found back = ground (
  arith,
  control,
  control_has_imm f control,
  found,
  forwarding-ack (announced ctx conn f) rule (frame_psn f) link back,
)

run-twice :
    (ctx : Context) (conn : ℕ) (f : Frame) (rule : Rule) (link : ℕ)
    → is_control_message f ≡ true
    → control_rule ctx f ≡ some rule
    → rule.ack_conn ≡ some link
    → run ctx ((conn, f) ∷ (conn, f) ∷ [])
      ≡ some (
        announced (announced ctx conn f) conn f,
        ack_frame ctx link (frame_psn f) ∷ ack_frame ctx link (frame_psn f) ∷ [],
      )
unfolding run
run-twice ctx conn f rule link control found back = ground (
  arith,
  packet_handler-control ctx conn f rule link control found back,
  packet_handler-control (announced ctx conn f) conn f rule link control found back,
)

-- When a control message with the expected PSN comes twice, as after a lost ACK, the data frame with the
-- next PSN is acknowledged and dropped: the state stays as it is. The control message has a rule with
-- a way back, and the data frame, which carries no immediate data, an upstream one.
pub packet_handler-control_twice :
    (ctx now : Context) (conn : ℕ) (f g : Frame) (rule rule' : Rule) (link link' : ℕ)
    (sent : List Sent)
    → is_control_message f ≡ true
    → control_rule ctx f ≡ some rule
    → rule.ack_conn ≡ some link
    → frame_psn f ≡ ctx.agg_epsn conn
    → run ctx ((conn, f) ∷ (conn, f) ∷ []) ≡ some (now, sent)
    → IsData g
    → frame_psn g ≡ frame_psn f + 1
    → rule_of now g ≡ some rule'
    → rule'.direction ≡ up
    → rule'.ack_conn ≡ some link'
    → packet_handler now conn g ≡ some (now, ack_frame now link' (frame_psn g) ∷ [])
packet_handler-control_twice ctx now conn f g rule rule' link link' sent control found back same ran
      is_data next found' dir back' =
    rw (sym last) (
      packet_handler-old now conn g rule' link' is_data found' dir back'
        (omega (arith, counted, next, same)))
  where
    now_is : announced (announced ctx conn f) conn f ≡ now
    now_is = ground (arith, sym (run-twice ctx conn f rule link control found back) ∙ ran)

    counted : now.agg_epsn conn ≡ ctx.agg_epsn conn + 2
    counted = subst (λ (c : Context). c.agg_epsn conn ≡ ctx.agg_epsn conn + 2) now_is (ground arith)

    last : now.agg_epsn conn - 1 ≡ frame_psn g
    last = omega (arith, counted, next, same)

frame_psn-lt : (f : Frame) → frame_psn f < 2 ^ 24
unfolding frame_psn
frame_psn-lt f = omega (arith, bit_and_ones 24 (bswap32 f.bth.apsn))

-- Once a connection's expected PSN has come to 2 ^ 24, and whatever frames follow without a counter that
-- passes 2 ^ 31, every data frame on it that carries no immediate data and has an upstream rule with a way
-- back is acknowledged and dropped: the PSN of a frame has 24 bits, and the expected one is not wrapped
-- there.
pub packet_handler-psn_wrap :
    (ctx now : Context) (frames : List Captured) (sent : List Sent) (c : Captured) (rule : Rule)
    (link : ℕ)
    → 2 ^ 24 ≤ ctx.agg_epsn c.conn_id
    → run_captured ctx frames ≡ some (now, sent)
    → HasInts now
    → in_arrays now c ≡ true
    → IsData c.frame
    → rule_of now c.frame ≡ some rule
    → rule.direction ≡ up
    → rule.ack_conn ≡ some link
    → handle_captured now c ≡ some (now, ack_frame now link (now.agg_epsn c.conn_id - 1) ∷ [])
unfolding handle_captured
packet_handler-psn_wrap ctx now frames sent c rule link wrapped ran ints inside is_data found dir
      back =
    rw inside (
      packet_handler-old now c.conn_id c.frame rule link is_data found dir back (
        omega (
          arith,
          wrapped,
          (run_captured-keeps ctx now frames sent ran).epsn c.conn_id,
          frame_psn-lt c.frame,
        )))
