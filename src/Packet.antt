-- ===== src/Packet.antt =====
-- repository/src/util.c, `build_eth_packet`, and the headers of repository/include/util.h: the
-- RoCEv2 frames that hosts and switches exchange. A field holds the number that its memory holds,
-- so a field in network order holds the swapped value. What stands behind the BTH is `body`, 32-bit
-- words of memory: the AETH of an ACK, the RETH of a write, or the payload. The ICRC at
-- the end, which the hosts' network cards check and compute_icrc of Icrc computes, is left out.
pub mod RoundTrip
mod Tests
use Prim.Native.Nat.{bit_and, bit_or}
use inc_emulation.Base.{
  ℕ, zero, suc, ◌+◌, ◌-◌, ◌*◌, ◌/◌, ◌%◌, ◌^◌, Option, none, some, if◌then◌else◌, ltb, overwrite,
  bswap16, bswap32, u16_mod,
}
use inc_emulation.Checksum.{Ipv4Header, ipv4_checksum}

pub record EthHeader : Type 0 where
  pub dst_mac : ℕ
  pub src_mac : ℕ
  pub ether_type : ℕ

pub record UdpHeader : Type 0 where
  pub src_port : ℕ
  pub dst_port : ℕ
  pub length : ℕ
  pub checksum : ℕ

pub record BthHeader : Type 0 where
  pub opcode : ℕ
  pub se_m_pad : ℕ
  pub pkey : ℕ
  pub qpn : ℕ
  pub apsn : ℕ

pub record Frame : Type 0 where
  pub eth : EthHeader
  pub ip : Ipv4Header
  pub udp : UdpHeader
  pub bth : BthHeader
  pub body : ℕ → ℕ
  pub size : ℕ

-- `packet_type_t`
pub data PacketType : Type 0 where
  data_packet ack nak data_single with_reth control : PacketType

-- `connection_t`, without the pcap handle
pub record Connection : Type 0 where
  pub my_mac : ℕ
  pub peer_mac : ℕ
  pub my_ip : ℕ
  pub peer_ip : ℕ
  pub my_port : ℕ
  pub peer_port : ℕ
  pub my_qp : ℕ
  pub peer_qp : ℕ

-- The bytes of the header that a packet of this type has behind the BTH.
unfoldable pub extra_len : PacketType → ℕ
extra_len ack = 4
extra_len nak = 4
extra_len with_reth = 16
extra_len control = 4
extra_len _ = 0

-- sizeof the Ethernet, IPv4, UDP and BTH headers, the data, and 4 for the ICRC; an uint16_t
unfoldable pub total_len : PacketType → ℕ → ℕ
total_len type data_len = (14 + 20 + 8 + 12 + data_len + 4 + extra_len type) % u16_mod

unfoldable pub bth_opcode : PacketType → ℕ → ℕ
bth_opcode data_packet opcode = opcode % 256
bth_opcode with_reth opcode = opcode % 256
bth_opcode _ opcode = 0x11

unfoldable pub bth_apsn : PacketType → ℕ → ℕ
bth_apsn data_packet psn = bswap32 (bit_or psn 0x8000_0000)
bth_apsn with_reth psn = bswap32 (bit_or psn 0x8000_0000)
bth_apsn _ psn = bswap32 psn

-- The words behind the BTH. `payload` is the caller's data, `data_len` its bytes, `reth` the four
-- words behind the caller's RETH pointer, if it is not NULL; words that the code does not write are
-- the `old` ones of the buffer.
unfoldable pub packet_body : PacketType → (ℕ → ℕ) → ℕ → ℕ → Option (ℕ → ℕ) → (ℕ → ℕ) → ℕ → ℕ
packet_body ack payload data_len msn reth old =
    overwrite 1 (λ _. bswap32 (bit_or msn 0x1f00_0000)) old
packet_body nak payload data_len msn reth old =
    overwrite 1 (λ _. bswap32 (bit_or msn 0x6000_0000)) old
packet_body data_packet payload data_len msn reth old = overwrite (data_len / 4) payload old
packet_body with_reth payload data_len msn reth old =
    let header : ℕ → ℕ = elim reth [ none ↦ λ _. 0 | some r ↦ r ] in
    overwrite 4 header (overwrite (4 + data_len / 4) (λ i. bswap32 (payload (i - 4))) old)
packet_body control payload data_len msn reth old =
    overwrite 1 (λ _. bswap16 (payload 0 % 2 ^ 16) + payload 0 / 2 ^ 16 * 2 ^ 16) old
packet_body data_single payload data_len msn reth old = old

-- `build_eth_packet`, over the connection whose fields every caller passes. The frame's buffer is
-- fresh stack memory; the words that are not written are taken for 0. This is the code for payloads of
-- up to 5507 bytes, with which the frame fits the copy that compute_icrc makes for the last four bytes
-- (in Icrc it is `none` for longer ones); no caller sends more.
unfoldable pub build_eth_packet :
    PacketType → (ℕ → ℕ) → ℕ → Connection → (psn msn opcode : ℕ) → Option (ℕ → ℕ) → Frame
build_eth_packet type payload data_len conn psn msn opcode reth =
    let size = total_len type data_len in
    let unstamped : Ipv4Header = record {
      version_ihl = 0x45;
      tos = 0x00;
      total_length = bswap16 ((size + u16_mod - 14) % u16_mod);
      id = 0x1111;
      flags_frag_off = bswap16 0x4000;
      ttl = 0x40;
      protocol = 0x11;
      checksum = 0;
      src_ip = conn.my_ip;
      dst_ip = conn.peer_ip;
    } in
    record {
      eth = record { dst_mac = conn.peer_mac; src_mac = conn.my_mac; ether_type = bswap16 0x0800 };
      ip = record unstamped { checksum = ipv4_checksum unstamped (λ _. 0) };
      udp = record {
        src_port = bswap16 conn.my_port;
        dst_port = bswap16 conn.peer_port;
        length = bswap16 ((size + u16_mod - 14 - 20) % u16_mod);
        checksum = 0x0000;
      };
      bth = record {
        opcode = bth_opcode type opcode;
        se_m_pad = 0x00;
        pkey = 0xffff;
        qpn = bswap32 (bit_and conn.peer_qp 0x00FF_FFFF);
        apsn = bth_apsn type psn;
      };
      body = packet_body type payload data_len msn reth (λ _. 0);
      size = size;
    }

-- How a receiver reads a frame: `ntohl(bth->apsn) & 0x00FFFFFF`, and so on.
unfoldable pub frame_psn : Frame → ℕ
frame_psn f = bit_and (bswap32 f.bth.apsn) 0x00FF_FFFF

unfoldable pub frame_udp_len : Frame → ℕ
frame_udp_len f = bswap16 f.udp.length

-- `(ntohl(aeth->syn_msn) >> 29) != 0`, and the number 0 for an ACK
unfoldable pub frame_syndrome : Frame → ℕ
frame_syndrome f = bswap32 (f.body 0) / 2 ^ 29
