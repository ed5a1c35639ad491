-- ===== src/Switch/Handler.antt =====
-- repository/termination_switch/src/switch_main.c: the acknowledgements and the handler of a
-- received frame. One call of the handler is one step of the switch, and a run is a list of steps in
-- any order of the connections; the interleavings inside of one call are not modelled.
pub mod Grows
pub mod Sequence
pub mod Control
pub mod Safe
pub mod Released
mod Tests
use inc_emulation.Base.{
  ℕ, zero, suc, ◌+◌, ◌-◌, ◌*◌, ◌/◌, Bool, true, false, not, ◌&&◌, ◌||◌, ◌==◌, ltb, leb,
  if◌then◌else◌, Option, none, some, List, [], ◌∷◌, ◌++◌, ℤ, pos, minus_one, eq_ℤ, update, bswap32,
}
use inc_emulation.Imm.{
  ctl_primitive_allreduce, ctl_primitive_reduce, ctl_primitive_broadcast, ctl_dest_rank_all,
  get_imm_dest_rank, get_imm_primitive,
}
use inc_emulation.Rule.{Primitive, null, allreduce, reduce, broadcast, up, down, Rule, lookup_rule}
use inc_emulation.Packet.{PacketType, ack, nak, Frame, frame_psn, frame_udp_len, frame_syndrome}
use inc_emulation.Switch.State.{
  AggBuffer, PsnState, Context, Sent, Outcome, idx, slot, put_slot, max_connections_num,
}
use inc_emulation.Switch.Send.{
  opcode_send_first, opcode_send_middle, opcode_send_last, opcode_send_last_with_imm,
  opcode_send_only, opcode_send_only_with_imm, opcode_ack, and_then, forwarding,
  cache_and_broadcast,
}
use inc_emulation.Switch.Aggregate.{clear_aggregation, aggregate}

-- The body of the loop of `handle_downstream_ack` for the PSN p
unfoldable pub release_slot : Context → ℕ → Context
release_slot ctx p =
    let s = slot ctx p in
    if s.agg_buffer.state == 1 && eq_ℤ (s.agg_buffer.psn) (pos p)
    then put_slot ctx p (clear_aggregation s)
    else ctx

-- The loop from the PSN p on, for n PSNs
unfoldable pub release_slots : Context → (p n : ℕ) → Context
release_slots ctx p zero = ctx
release_slots ctx p (suc n) = release_slots (release_slot ctx p) (suc p) n

unfoldable pub handle_downstream_ack : Context → (psn : ℕ) → (is_nak : Bool) → Context
handle_downstream_ack ctx psn true = ctx
handle_downstream_ack ctx psn false =
    if ltb ctx.down_ack psn
    then record (release_slots ctx (ctx.down_ack + 1) (psn - ctx.down_ack)) { down_ack = psn }
    else ctx

-- The part of `handle_upstream_ack` under the slot's lock
unfoldable pub count_ack : PsnState → (conn_id fan_in : ℕ) → PsnState
count_ack s conn_id fan_in =
    let counted : PsnState = record s {
      r_arrival = update s.r_arrival conn_id 1;
      r_degree = s.r_degree + 1;
    } in
    let over : PsnState = record s {
      r_arrival = λ _. 0;
      r_degree = 0;
      bcast_buffer = record (s.bcast_buffer) { state = 0 };
    } in
    if s.r_arrival conn_id == 0 then (if s.r_degree + 1 == fan_in then over else counted) else s

unfoldable pub handle_upstream_ack : Context → (conn_id psn : ℕ) → (is_nak : Bool) → Context
handle_upstream_ack ctx conn_id psn true = ctx
handle_upstream_ack ctx conn_id psn false =
    if ltb (ctx.latest_ack conn_id) psn
    then record (put_slot ctx psn (count_ack (slot ctx psn) conn_id ctx.fan_in)) {
      latest_ack = update ctx.latest_ack conn_id psn;
    }
    else ctx

abbrev pub has_imm_data : Frame → Bool
has_imm_data f =
    f.bth.opcode == opcode_send_only_with_imm || f.bth.opcode == opcode_send_last_with_imm

-- In 32-bit words; the code counts bytes.
abbrev pub imm_words : Frame → ℕ
imm_words f = if has_imm_data f then 1 else 0

-- The bytes in front of the payload in the UDP datagram, and the ICRC behind it
abbrev pub overhead : Frame → ℕ
overhead f = 24 + 4 * imm_words f

-- `payload_len <= 4`; a frame shorter than its headers has a negative `payload_len`.
unfoldable pub is_control_message : Frame → Bool
is_control_message f =
    f.bth.opcode == opcode_send_only_with_imm && leb (frame_udp_len f) (overhead f + 4)

unfoldable pub imm_data : Frame → ℕ
imm_data f = bswap32 (f.body 0)

-- The `switch` over the primitive in the immediate data
unfoldable pub imm_primitive : Frame → Primitive
imm_primitive f =
    let primitive = get_imm_primitive (imm_data f) in
    if primitive == ctl_primitive_allreduce
    then allreduce
    else if primitive == ctl_primitive_reduce
    then reduce
    else if primitive == ctl_primitive_broadcast
    then broadcast
    else null

unfoldable pub imm_param : Frame → ℤ
imm_param f =
    let dest_rank = get_imm_dest_rank (imm_data f) in
    if dest_rank == ctl_dest_rank_all then minus_one else pos dest_rank

-- The operation that the immediate data of a frame, if it has any, leaves in the context
unfoldable pub store_metadata : Context → Frame → Context
store_metadata ctx f =
    if has_imm_data f
    then record ctx {
      operation_type = imm_primitive f;
      root_rank = imm_param f;
      ctrl_psn = if is_control_message f then pos (frame_psn f) else ctx.ctrl_psn;
    }
    else ctx

abbrev pub no_data : ℕ → ℕ
no_data _ = 0

-- An ACK or NAK in front of what follows
abbrev pub reply_then : Context → Rule → PacketType → (psn : ℕ) → (Context → Outcome) → Outcome
reply_then ctx rule type psn k = elim (forwarding ctx rule psn type no_data 0 opcode_ack) [
  | none ↦ none
  | some sent ↦ elim (k ctx) [ none ↦ none | some (ctx', more) ↦ some (ctx', sent ++ more) ]
]

abbrev pub stay : Context → Outcome
stay ctx = some (ctx, [])

-- The payload of a data frame, its length in words from `payload_len`; `none` where that is negative
abbrev pub with_payload : Frame → ((ℕ → ℕ) → ℕ → Outcome) → Outcome
with_payload f k =
    if ltb (frame_udp_len f) (overhead f)
    then none
    else k (λ i. f.body (i + imm_words f)) ((frame_udp_len f - overhead f) / 4)

unfoldable pub downstream_data : Context → Rule → Frame → Outcome
downstream_data ctx rule f =
    let psn = frame_psn f in
    if ltb psn ctx.down_epsn
    then reply_then ctx rule ack (ctx.down_epsn - 1) stay
    else if ltb ctx.down_epsn psn
    then reply_then ctx rule nak ctx.down_epsn stay
    else reply_then ctx rule ack psn (λ c.
      with_payload f (λ payload len. cache_and_broadcast c rule psn payload len (f.bth.opcode)))

unfoldable pub upstream_data : Context → Rule → (conn_id : ℕ) → Frame → Outcome
upstream_data ctx rule conn_id f =
    let psn = frame_psn f in
    let epsn = ctx.agg_epsn conn_id in
    let ctx' = record ctx { agg_epsn = update ctx.agg_epsn conn_id (epsn + 1) } in
    if ltb psn epsn
    then reply_then ctx rule ack (epsn - 1) stay
    else if ltb epsn psn
    then reply_then ctx rule nak epsn stay
    else reply_then ctx' rule ack psn (λ c.
      with_payload f (λ payload len. aggregate c rule conn_id psn payload len (f.bth.opcode)))

unfoldable pub is_data_opcode : ℕ → Bool
is_data_opcode opcode =
    opcode == opcode_send_only_with_imm
    || opcode == opcode_send_last_with_imm
    || opcode == opcode_send_only
    || opcode == opcode_send_first
    || opcode == opcode_send_middle
    || opcode == opcode_send_last

-- A control message under a rule: the ACK, and one more expected PSN whatever the message's PSN is
unfoldable pub control_message : Context → Rule → (conn_id : ℕ) → Frame → Outcome
control_message ctx rule conn_id f =
    reply_then (record ctx { agg_epsn = update ctx.agg_epsn conn_id (ctx.agg_epsn conn_id + 1) })
      rule ack (frame_psn f) stay

-- A frame that is no control message, under a rule
unfoldable pub dispatch : Context → Rule → (conn_id : ℕ) → Frame → Outcome
dispatch ctx rule conn_id f =
    let is_nak = not (frame_syndrome f == 0) in
    if is_data_opcode (f.bth.opcode)
    then elim rule.direction [
      | down ↦ downstream_data ctx rule f
      | up ↦ upstream_data ctx rule conn_id f
    ]
    else if f.bth.opcode == opcode_ack
    then elim rule.direction [
      | down ↦ stay (handle_downstream_ack ctx (frame_psn f) is_nak)
      | up ↦ stay (handle_upstream_ack ctx conn_id (frame_psn f) is_nak)
    ]
    else stay ctx

-- `packet_handler`, for a frame received on the connection `conn_id`
unfoldable pub packet_handler : Context → (conn_id : ℕ) → Frame → Outcome
packet_handler ctx conn_id f =
    let prim = if has_imm_data f then imm_primitive f else ctx.operation_type in
    let prim_param = if has_imm_data f then imm_param f else ctx.root_rank in
    let ctx' = store_metadata ctx f in
    elim (lookup_rule ctx.routing_table f.ip.src_ip f.ip.dst_ip prim prim_param) [
      | none ↦ stay ctx'
      | some rule ↦
          if is_control_message f
          then control_message ctx' rule conn_id f
          else dispatch ctx' rule conn_id f
    ]

-- The frames of a run, each with the connection that it came in on
unfoldable pub run : Context → List (ℕ × Frame) → Outcome
run ctx [] = some (ctx, [])
run ctx ((conn_id, f) ∷ rest) = and_then (packet_handler ctx conn_id f) (λ ctx'. run ctx' rest)

-- A frame as pcap hands it over: `atoi` of the connection's name, and the bytes that were captured
pub record Captured : Type 0 where
  pub conn_id : ℕ
  pub caplen : ℕ
  pub frame : Frame

-- What `packet_handler` indexes and reads is there: the connection has a place in the arrays of
-- MAX_CONNECTIONS_NUM, and so has each that the loops over `fan_in` come to; the Ethernet and IPv4
-- headers, the bytes in front of the payload with the four behind it, and as many as the UDP length
-- says have been captured.
abbrev pub in_arrays : Context → Captured → Bool
in_arrays ctx c =
    ltb c.conn_id max_connections_num
    && leb ctx.fan_in max_connections_num
    && leb (34 + overhead c.frame) c.caplen
    && leb (34 + frame_udp_len c.frame) c.caplen

-- `packet_handler` as the callback of `pcap_loop`; `none` where an array or the captured bytes end
-- before what it indexes or reads
unfoldable pub handle_captured : Context → Captured → Outcome
handle_captured ctx c = if in_arrays ctx c then packet_handler ctx c.conn_id c.frame else none

unfoldable pub run_captured : Context → List Captured → Outcome
run_captured ctx [] = some (ctx, [])
run_captured ctx (c ∷ rest) = and_then (handle_captured ctx c) (λ ctx'. run_captured ctx' rest)
