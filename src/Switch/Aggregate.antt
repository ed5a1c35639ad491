-- ===== src/Switch/Aggregate.antt =====
-- repository/termination_switch/src/switch_main.c: the aggregation of the packets of one PSN.
pub mod Sum
pub mod Allreduce
pub mod Reduced
mod Tests
use inc_emulation.Base.{
  ℕ, zero, suc, ◌+◌, ◌-◌, ◌/◌, ◌%◌, ◌^◌, Bool, true, false, not, ◌&&◌, ◌||◌, ◌==◌, ltb, leb,
  if◌then◌else◌, Option, none, some, List, [], ◌∷◌, ◌++◌, ℤ, pos, negsuc, minus_one, eq_ℤ, update,
  overwrite, add32, bswap32,
}
use inc_emulation.Imm.{
  ctl_primitive_allreduce, ctl_primitive_reduce, ctl_primitive_broadcast, ctl_dest_rank_all,
  get_imm_dest_rank, get_imm_primitive,
}
use inc_emulation.Rule.{
  Primitive, null, allreduce, reduce, broadcast, eq_primitive, up, down, Rule, lookup_rule,
}
use inc_emulation.Packet.{data_packet, ack, nak, Frame, frame_psn, frame_udp_len, frame_syndrome}
use inc_emulation.Switch.State.{
  AggBuffer, PsnState, Context, Sent, Outcome, idx, slot, put_slot, buffer_words, max_ranks,
}
use inc_emulation.Switch.Send.{
  opcode_send_first, opcode_send_middle, opcode_send_last, opcode_send_last_with_imm,
  opcode_send_only, opcode_send_only_with_imm, opcode_ack, strip_immediate_opcode, forwarding,
  send_next, and_then, cache_and_broadcast, handle_broadcast,
}

-- `htonl(ntohl(dst) + ntohl(src))`
unfoldable pub add_net : ℕ → ℕ → ℕ
add_net dst src = bswap32 (add32 (bswap32 dst) (bswap32 src))

-- The part of `aggregate` under the slot's lock
unfoldable pub accumulate :
    PsnState → Primitive → ℤ → (conn_id psn : ℕ) → (ℕ → ℕ) → (len packet_type : ℕ) → PsnState
accumulate s op_type root_rank conn_id psn payload len packet_type =
    let old = s.agg_buffer in
    let first = s.degree == 0 in
    record s {
      agg_buffer = record {
        len = len;
        packet_type = packet_type;
        state = 1;
        psn = pos psn;
        operation_type = if first then op_type else old.operation_type;
        root_rank = if first then root_rank else old.root_rank;
        buffer =
            if first
            then overwrite len payload old.buffer
            else overwrite len (λ i. add_net (old.buffer i) (payload i)) old.buffer;
      };
      arrival = update s.arrival conn_id 1;
      degree = s.degree + 1;
    }

-- `degree = 0`, `arrival` zeroed, `agg_buffer.state = 0`
unfoldable pub clear_aggregation : PsnState → PsnState
clear_aggregation s = record s {
  degree = 0;
  arrival = λ _. 0;
  agg_buffer = record (s.agg_buffer) { state = 0 };
}

-- The last steps of a completed AllReduce or Reduce on the root
abbrev pub then_clear : ℕ → Outcome → Outcome
then_clear psn o =
    and_then o (λ ctx. some (put_slot ctx psn (clear_aggregation (slot ctx psn)), []))

-- `rank_to_conn[root_rank]`, then the frame to that connection if the switch has it. A rank outside
-- the array of 128 is a read outside of it.
unfoldable pub reduce_to_root : Context → ℤ → (ℕ → ℕ) → (len opcode : ℕ) → Outcome
reduce_to_root ctx (negsuc _) payload len opcode = none
reduce_to_root ctx (pos rank) payload len opcode =
    let target = ctx.rank_to_conn rank in
    if ltb rank max_ranks
    then elim target [
      | negsuc _ ↦ some (ctx, [])
      | pos conn ↦
          if ltb conn ctx.fan_in then send_next ctx conn payload len opcode else some (ctx, [])
    ]
    else none

-- What follows when the last contribution has arrived
unfoldable pub complete :
    Context → Rule → Primitive → ℤ → (psn : ℕ) → (len packet_type : ℕ) → Outcome
complete ctx rule op_type root_rank psn len packet_type =
    let payload = (slot ctx psn).agg_buffer.buffer in
    let opcode = strip_immediate_opcode packet_type in
    if ctx.is_root
    then elim op_type [
      | allreduce ↦ then_clear psn (cache_and_broadcast ctx rule psn payload len packet_type)
      | reduce ↦ then_clear psn (reduce_to_root ctx root_rank payload len opcode)
      | _ ↦ some (ctx, [])
    ]
    else elim (forwarding ctx rule psn data_packet payload len opcode) [
      | none ↦ none
      | some sent ↦ some (ctx, sent)
    ]

-- `aggregate`; the buffer has 1024 words.
unfoldable pub aggregate :
    Context → Rule → (conn_id psn : ℕ) → (ℕ → ℕ) → (len packet_type : ℕ) → Outcome
aggregate ctx rule conn_id psn payload len packet_type =
    let s =
      accumulate (slot ctx psn) ctx.operation_type ctx.root_rank conn_id psn payload len
        packet_type in
    let ctx' = put_slot ctx psn s in
    if eq_primitive ctx.operation_type broadcast
    then handle_broadcast ctx conn_id payload len packet_type
    else if not (leb len buffer_words)
    then none
    else if s.degree == ctx.fan_in
    then complete ctx' rule ctx.operation_type ctx.root_rank psn len packet_type
    else some (ctx', [])
