-- ===== src/Packet/Tests.antt =====
-- Frames at concrete values.
use inc_emulation.Base.{ℕ, ◌+◌, ◌<◌, ◌≡◌, refl, arith, none}
use inc_emulation.Packet.{
  Connection, data_packet, total_len, extra_len, build_eth_packet, frame_psn, frame_udp_len,
}
use inc_emulation.Packet.RoundTrip.{read-build_data}

abbrev link : Connection
link = record {
  my_mac = 1;
  peer_mac = 2;
  my_ip = 0x0100_000A;
  peer_ip = 0x0200_000A;
  my_port = 4791;
  peer_port = 4791;
  my_qp = 17;
  peer_qp = 18;
}

abbrev counting : ℕ → ℕ
counting i = i + 7

built_size : (build_eth_packet data_packet counting 1024 link 5 6 4 none).size ≡ 1082
unfolding build_eth_packet total_len extra_len
built_size = refl

read-build_data_example :
    let f = build_eth_packet data_packet counting 1024 link 5 6 4 none in
    (frame_psn f ≡ 5)
    × (f.bth.opcode ≡ 4)
    × (f.ip.src_ip ≡ 0x0100_000A)
    × (f.ip.dst_ip ≡ 0x0200_000A)
    × (frame_udp_len f ≡ 1048)
    × ((i : ℕ) → i < 256 → f.body i ≡ i + 7)
read-build_data_example =
    read-build_data counting 1024 link 5 6 4 (omega arith) (omega arith) (omega arith)
