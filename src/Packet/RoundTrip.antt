-- ===== src/Packet/RoundTrip.antt =====
-- What a receiver reads in a frame that `build_eth_packet` built.
use Prim.Native.Nat.{bit_and, bit_or}
use inc_emulation.Base.{
  ℕ, ◌+◌, ◌-◌, ◌*◌, ◌/◌, ◌%◌, ◌^◌, ◌≤◌, ◌<◌, ◌≡◌, ◌∙◌, refl, arith, none, bswap32, bswap32-bswap32,
  bswap16-bswap16, u16_mod, u32_mod,
}
use inc_emulation.Bits.{bit_and_ones, bit_or-mod, bit_or-zero, bit_or_apart, bit_or_comm, bit_or-lt}
use inc_emulation.Packet.{
  PacketType, data_packet, ack, nak, Connection, build_eth_packet, frame_psn, frame_udp_len,
  frame_syndrome, total_len, extra_len, bth_apsn, bth_opcode, packet_body,
}

flagged_low : (psn : ℕ) → bit_or psn 0x8000_0000 % 2 ^ 24 ≡ psn % 2 ^ 24
flagged_low psn = bit_or-mod 24 psn 0x8000_0000 ∙ bit_or-zero (psn % 2 ^ 24)

read_apsn : (w : ℕ) → w < u32_mod → bit_and (bswap32 (bswap32 w)) 0x00FF_FFFF ≡ w % 2 ^ 24
read_apsn w h = rw (bswap32-bswap32 w h) (bit_and_ones 24 w)

udp_len :
    (type : PacketType) (data_len : ℕ)
    → extra_len type ≤ 16
    → data_len ≤ 65000
    → (total_len type data_len + u16_mod - 14 - 20) % u16_mod ≡ 24 + data_len + extra_len type
unfolding total_len
udp_len type data_len h k = omega arith

-- A receiver of a data frame reads what the sender put in: the low 24 bits of the PSN, the opcode,
-- the sender's and the receiver's address, a UDP length of 24 more than the payload's, and each word
-- of the payload unchanged. The PSN has 32 bits, the opcode 8, and
-- the payload at most 5507 bytes, as much as `compute_icrc` copies within its array.
pub read-build_data :
    (payload : ℕ → ℕ) (data_len : ℕ) (conn : Connection) (psn msn opcode : ℕ)
    → psn < u32_mod
    → opcode < 256
    → data_len ≤ 5507
    → let f = build_eth_packet data_packet payload data_len conn psn msn opcode none in
      (frame_psn f ≡ psn % 2 ^ 24)
      × (f.bth.opcode ≡ opcode)
      × (f.ip.src_ip ≡ conn.my_ip)
      × (f.ip.dst_ip ≡ conn.peer_ip)
      × (frame_udp_len f ≡ 24 + data_len)
      × ((i : ℕ) → i < data_len / 4 → f.body i ≡ payload i)
unfolding build_eth_packet frame_psn frame_udp_len bth_apsn bth_opcode packet_body extra_len
read-build_data payload data_len conn psn msn opcode hp ho hd = (
  read_apsn (bit_or psn 0x8000_0000) (bit_or-lt 32 psn 0x8000_0000 hp (omega arith))
      ∙ flagged_low psn,
  omega arith,
  refl,
  refl,
  bswap16-bswap16 _ (omega arith)
      ∙ udp_len data_packet data_len (omega arith) (omega (arith, hd))
      ∙ omega arith,
  λ i h. ground arith,
)

-- An ACK and a NAK for a PSN are read with that PSN's low 24 bits and the opcode 0x11, and differ in
-- the top three bits of the AETH: 0 for the ACK, 3 for the NAK. The sequence number in the AETH has
-- at most 29 bits.
read-build_ack :
    (payload : ℕ → ℕ) (conn : Connection) (psn msn opcode : ℕ)
    → psn < u32_mod
    → msn < 2 ^ 29
    → let a = build_eth_packet ack payload 0 conn psn msn opcode none in
      let n = build_eth_packet nak payload 0 conn psn msn opcode none in
      (frame_psn a ≡ psn % 2 ^ 24)
      × (frame_psn n ≡ psn % 2 ^ 24)
      × (a.bth.opcode ≡ 0x11)
      × (n.bth.opcode ≡ 0x11)
      × (frame_syndrome a ≡ 0)
      × (frame_syndrome n ≡ 3)
unfolding build_eth_packet frame_psn frame_syndrome bth_apsn bth_opcode packet_body
read-build_ack payload conn psn msn opcode hp hm = (
  read_apsn psn hp,
  read_apsn psn hp,
  refl,
  refl,
  rw (bswap32-bswap32 (bit_or msn 0x1f00_0000) (omega (arith, low))) (omega (arith, low)),
  rw (bswap32-bswap32 (bit_or msn 0x6000_0000) (omega (arith, high))) (omega (arith, high)),
)
  where
    low : bit_or msn 0x1f00_0000 < 2 ^ 29
    low = bit_or-lt 29 msn 0x1f00_0000 hm (omega arith)

    high : bit_or msn 0x6000_0000 ≡ 3 * 2 ^ 29 + msn
    high = bit_or_comm msn 0x6000_0000 ∙ bit_or_apart 29 3 msn hm
