-- ===== src/Checksum/Tests.antt =====
-- Runs of the checksum on the header of an acknowledgement, and the theorems at that header.
use inc_emulation.Base.{ℕ, ◌/◌, ◌%◌, ◌≡◌, ◌↔◌, refl, true, false, bswap16, add32}
use inc_emulation.Checksum.{
  Ipv4Header, header_word, sum_words, fold_carries, header_words, ipv4_checksum,
  is_ipv4_checksum_valid,
}
use inc_emulation.Checksum.Stamped.{with_checksum, is_ipv4_checksum_valid-stamped_iff}

-- From 10.0.0.1 to 10.0.0.2, 48 bytes.
abbrev ack_header : Ipv4Header
ack_header = record {
  version_ihl = 0x45;
  tos = 0;
  total_length = 0x3000;
  id = 0x1111;
  flags_frag_off = 0x0040;
  ttl = 0x40;
  protocol = 0x11;
  checksum = 0;
  src_ip = 0x0100_000A;
  dst_ip = 0x0200_000A;
}

abbrev no_memory : ℕ → ℕ
no_memory _ = 0

ack_checksum : ipv4_checksum ack_header no_memory ≡ 0xAA15
unfolding ipv4_checksum header_words header_word sum_words fold_carries add32 bswap16
ack_checksum = refl

-- The program's own check refuses the header that the program just stamped.
own_check_refuses :
    is_ipv4_checksum_valid (with_checksum ack_header (ipv4_checksum ack_header no_memory)) no_memory
    ≡ false
unfolding is_ipv4_checksum_valid ipv4_checksum header_words header_word sum_words fold_carries add32
    bswap16
own_check_refuses = refl

is_ipv4_checksum_valid-stamped_iff_example :
    (is_ipv4_checksum_valid
        (with_checksum ack_header (ipv4_checksum ack_header no_memory))
        no_memory
      ≡ true)
    ↔ (ipv4_checksum ack_header no_memory / 256 ≡ ipv4_checksum ack_header no_memory % 256)
is_ipv4_checksum_valid-stamped_iff_example = is_ipv4_checksum_valid-stamped_iff ack_header no_memory
