-- ===== src/Switch/Send.antt =====
-- repository/termination_switch/src/switch_main.c: how the switch sends.
mod Tests
pub mod Gapless
use inc_emulation.Base.{
  ℕ, zero, suc, ◌+◌, ◌*◌, ◌%◌, Bool, ◌==◌, leb, if◌then◌else◌, Option, none, some, List, [], ◌∷◌,
  ◌++◌, update, u32_mod, overwrite, pos, true, false,
}
use inc_emulation.Rule.{Rule}
use inc_emulation.Packet.{
  PacketType, data_packet, ack, nak, data_single, with_reth, control, Connection, Frame, extra_len,
  build_eth_packet,
}
use inc_emulation.Switch.State.{
  Context, Sent, Outcome, PsnState, AggBuffer, slot, put_slot, buffer_words,
}

abbrev pub opcode_send_first : ℕ
opcode_send_first = 0x00

abbrev pub opcode_send_middle : ℕ
opcode_send_middle = 0x01

abbrev pub opcode_send_last : ℕ
opcode_send_last = 0x02

abbrev pub opcode_send_last_with_imm : ℕ
opcode_send_last_with_imm = 0x03

abbrev pub opcode_send_only : ℕ
opcode_send_only = 0x04

abbrev pub opcode_send_only_with_imm : ℕ
opcode_send_only_with_imm = 0x05

abbrev pub opcode_ack : ℕ
opcode_ack = 0x11

unfoldable pub strip_immediate_opcode : ℕ → ℕ
strip_immediate_opcode opcode =
    if opcode == opcode_send_only_with_imm
    then opcode_send_only
    else if opcode == opcode_send_last_with_imm
    then opcode_send_last
    else opcode

-- The frame is built in `uint8_t packet[4096]`; `none` is a write behind it. An error of
-- `pcap_sendpacket` is only printed.
unfoldable pub send_packet :
    Context → (conn : ℕ) → PacketType → (ℕ → ℕ) → (len psn opcode : ℕ) → Option Sent
send_packet ctx conn type payload len psn opcode =
    if leb (58 + extra_len type + len * 4) 4096
    then some (record {
      conn = conn;
      frame =
          build_eth_packet type payload (len * 4) (ctx.conns conn) psn ((psn + 1) % u32_mod) opcode
            none;
    })
    else none

-- The loop of `forwarding` over `out_conns`
unfoldable pub send_to_all : Context → List ℕ → (ℕ → ℕ) → (len psn opcode : ℕ) → Option (List Sent)
send_to_all ctx [] payload len psn opcode = some []
send_to_all ctx (c ∷ cs) payload len psn opcode =
    elim (send_packet ctx c data_packet payload len psn opcode) [
      | none ↦ none
      | some s ↦ elim (send_to_all ctx cs payload len psn opcode) [
        | none ↦ none
        | some rest ↦ some (s ∷ rest)
      ]
    ]

-- `forwarding`: an ACK or NAK goes to the rule's `ack_conn`, data to its `out_conns`.
unfoldable pub forward_ack :
    Context → Rule → PacketType → (ℕ → ℕ) → (len psn opcode : ℕ) → Option (List Sent)
forward_ack ctx rule type payload len psn opcode = elim rule.ack_conn [
  | none ↦ none
  | some c ↦ elim (send_packet ctx c type payload len psn opcode) [
    | none ↦ none
    | some s ↦ some (s ∷ [])
  ]
]

unfoldable pub forwarding :
    Context → Rule → (psn : ℕ) → PacketType → (ℕ → ℕ) → (len opcode : ℕ) → Option (List Sent)
forwarding ctx rule psn ack payload len opcode = forward_ack ctx rule ack payload len psn opcode
forwarding ctx rule psn nak payload len opcode = forward_ack ctx rule nak payload len psn opcode
forwarding ctx rule psn data_packet payload len opcode =
    send_to_all ctx rule.out_conns payload len psn opcode
forwarding ctx rule psn data_single payload len opcode =
    send_to_all ctx rule.out_conns payload len psn opcode
forwarding ctx rule psn with_reth payload len opcode = some []
forwarding ctx rule psn control payload len opcode = some []

-- The search for `&ctx->conns[j] == conn` from j on, with n connections left; `none` is the -1.
unfoldable pub find_conn : (conn j n : ℕ) → Option ℕ
find_conn conn j zero = none
find_conn conn j (suc n) = if j == conn then some j else find_conn conn (suc j) n

-- Send one data frame on a connection under the connection's own next PSN, and count it. The counter
-- is an int, which the code would overflow after 2 ^ 31 frames.
unfoldable pub send_next : Context → (conn : ℕ) → (ℕ → ℕ) → (len opcode : ℕ) → Outcome
send_next ctx conn payload len opcode =
    elim (send_packet ctx conn data_packet payload len (ctx.send_psn conn) opcode) [
      | none ↦ none
      | some s ↦
          some (record ctx { send_psn = update ctx.send_psn conn (ctx.send_psn conn + 1) }, s ∷ [])
    ]

-- One step after another: the frames of the first come first.
abbrev pub and_then : Outcome → (Context → Outcome) → Outcome
and_then none k = none
and_then (some (ctx, sent)) k = elim (k ctx) [
  | none ↦ none
  | some (ctx', more) ↦ some (ctx', sent ++ more)
]

-- The loop of `cache_and_broadcast` over the rule's `out_conns`
unfoldable pub broadcast_to : Context → List ℕ → (ℕ → ℕ) → (len opcode : ℕ) → Outcome
broadcast_to ctx [] payload len opcode = some (ctx, [])
broadcast_to ctx (c ∷ cs) payload len opcode = elim (find_conn c 0 ctx.fan_in) [
  | none ↦ broadcast_to ctx cs payload len opcode
  | some conn_id ↦
      and_then (send_next ctx conn_id payload len opcode)
        (λ ctx'. broadcast_to ctx' cs payload len opcode)
]

unfoldable pub cached_slot : PsnState → (psn : ℕ) → (ℕ → ℕ) → (len packet_type : ℕ) → PsnState
cached_slot s psn payload len packet_type = record s {
  bcast_buffer = record (s.bcast_buffer) {
    buffer = overwrite len payload (s.bcast_buffer.buffer);
    len = len;
    packet_type = packet_type;
    state = 1;
    psn = pos psn;
  };
}

-- Copy the payload into the slot's broadcast buffer, of 1024 words, and send it to the children.
unfoldable pub cache_and_broadcast :
    Context → Rule → (psn : ℕ) → (ℕ → ℕ) → (len packet_type : ℕ) → Outcome
cache_and_broadcast ctx rule psn payload len packet_type =
    let cached = cached_slot (slot ctx psn) psn payload len packet_type in
    let ctx' = record (put_slot ctx psn cached) { down_epsn = ctx.down_epsn + 1 } in
    if leb len buffer_words
    then broadcast_to ctx' rule.out_conns (cached.bcast_buffer.buffer) len
        (strip_immediate_opcode packet_type)
    else none

-- The loop of `handle_broadcast` from connection i on, with n connections left
unfoldable pub broadcast_from : Context → (sender i n : ℕ) → (ℕ → ℕ) → (len opcode : ℕ) → Outcome
broadcast_from ctx sender i zero payload len opcode = some (ctx, [])
broadcast_from ctx sender i (suc n) payload len opcode = elim (i == sender) [
  | true ↦ broadcast_from ctx sender (suc i) n payload len opcode
  | false ↦
      and_then (send_next ctx i payload len opcode)
        (λ ctx'. broadcast_from ctx' sender (suc i) n payload len opcode)
]

unfoldable pub handle_broadcast :
    Context → (conn_id : ℕ) → (ℕ → ℕ) → (len packet_type : ℕ) → Outcome
handle_broadcast ctx conn_id payload len packet_type =
    broadcast_from ctx conn_id 0 ctx.fan_in payload len (strip_immediate_opcode packet_type)
