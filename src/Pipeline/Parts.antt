-- ===== src/Pipeline/Parts.antt =====
-- repository/src/non_termination_switch.c: the state of the switch and the operations on one slot.
use Prim.Native.Nat.{bit_and, bit_or}
use inc_emulation.Base.{
  ℕ, ◌+◌, ◌%◌, ◌^◌, Bool, not, ◌==◌, Option, none, update, overwrite, add32, bswap32, u32_mod,
}
use inc_emulation.Packet.{Connection, data_packet, with_reth, ack, build_eth_packet}
use inc_emulation.Switch.State.{Sent}

abbrev pub window_size : ℕ
window_size = 8

-- `N`, the slots
abbrev pub slots : ℕ
slots = 16

-- The ports below `FAN_IN` lead to the children, the port `FAN_IN` to the parent.
abbrev pub fan_in : ℕ
fan_in = 2

-- `PAYLOAD_LEN` in bytes, and in words
abbrev pub payload_len : ℕ
payload_len = 1024

abbrev pub payload_words : ℕ
payload_words = 256

abbrev pub idx : ℕ → ℕ
idx psn = psn % slots

abbrev pub mask_port : ℕ → ℕ
mask_port port = 2 ^ port

-- `0xffffffff >> (32 - FAN_IN)`
abbrev pub mask_all_fan_in : ℕ
mask_all_fan_in = 3

-- The globals: slot by slot the sums in host order, the four words of a RETH for each port, the
-- bitmap of the ports that have sent, and the count of packets.
pub record Pipe : Type 0 where
  pub aggregator : ℕ → ℕ → ℕ
  pub reth_keeper : ℕ → ℕ → ℕ → ℕ
  pub arrival_state : ℕ → ℕ
  pub degree : ℕ → ℕ
  pub conns : ℕ → Connection
  pub root : Bool

unfoldable pub set_arrive_state : Pipe → (port psn : ℕ) → Pipe
set_arrive_state s port psn =
    let a = bit_or (s.arrival_state (idx psn)) (mask_port port) in
    record s { arrival_state = update s.arrival_state (idx psn) a }

unfoldable pub clear_state_data : Pipe → (psn : ℕ) → Pipe
clear_state_data s psn = record s {
  arrival_state = update s.arrival_state (idx psn) 0;
  degree = update s.degree (idx psn) 0;
  reth_keeper =
      update s.reth_keeper (idx psn) (overwrite fan_in (λ _ _. 0) (s.reth_keeper (idx psn)));
  aggregator =
      update s.aggregator (idx psn) (overwrite payload_words (λ _. 0) (s.aggregator (idx psn)));
}

unfoldable pub recv_from_all_fan_in : Pipe → (psn : ℕ) → Bool
recv_from_all_fan_in s psn = bit_and (s.arrival_state (idx psn)) mask_all_fan_in == mask_all_fan_in

unfoldable pub recv_from_port : Pipe → (port psn : ℕ) → Bool
recv_from_port s port psn = not (bit_and (s.arrival_state (idx psn)) (mask_port port) == 0)

-- The three senders; an error of `pcap_sendpacket` is only printed.
unfoldable pub send_roce_data : Pipe → (port : ℕ) → (ℕ → ℕ) → (psn opcode : ℕ) → Sent
send_roce_data s port payload psn opcode = record {
  conn = port;
  frame =
      build_eth_packet data_packet payload payload_len (s.conns port) psn ((psn + 1) % u32_mod)
        opcode none;
}

unfoldable pub send_roce_data_with_reth :
    Pipe → (port : ℕ) → Option (ℕ → ℕ) → (ℕ → ℕ) → (psn opcode : ℕ) → Sent
send_roce_data_with_reth s port reth payload psn opcode = record {
  conn = port;
  frame =
      build_eth_packet with_reth payload payload_len (s.conns port) psn ((psn + 1) % u32_mod) opcode
        reth;
}

unfoldable pub send_roce_ack : Pipe → (port psn : ℕ) → Sent
send_roce_ack s port psn = record {
  conn = port;
  frame = build_eth_packet ack (λ _. 0) 0 (s.conns port) psn ((psn + 1) % u32_mod) 0x11 none;
}

-- `aggregator[Idx(psn)][i] += ntohl(data[i])`
unfoldable pub add_data : Pipe → (psn : ℕ) → (ℕ → ℕ) → Pipe
add_data s psn words =
    let slot = s.aggregator (idx psn) in
    record s {
      aggregator =
          update s.aggregator (idx psn)
            (overwrite payload_words (λ i. add32 (slot i) (bswap32 (words i))) slot);
    }

-- `memcpy(aggregator[Idx(psn)], data, PAYLOAD_LEN)`
unfoldable pub copy_data : Pipe → (psn : ℕ) → (ℕ → ℕ) → Pipe
copy_data s psn words = record s {
  aggregator =
      update s.aggregator (idx psn) (overwrite payload_words words (s.aggregator (idx psn)));
}

-- `memcpy` of the RETH of a packet into the keeper of its port
unfoldable pub keep_reth : Pipe → (port psn : ℕ) → (ℕ → ℕ) → Pipe
keep_reth s port psn reth =
    let kept = s.reth_keeper (idx psn) in
    record s {
      reth_keeper =
          update s.reth_keeper (idx psn) (update kept port (overwrite 4 reth (kept port)));
    }

unfoldable pub count_packet : Pipe → (psn : ℕ) → Pipe
count_packet s psn = record s { degree = update s.degree (idx psn) (s.degree (idx psn) + 1) }
