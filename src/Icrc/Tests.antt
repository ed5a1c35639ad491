-- ===== src/Icrc/Tests.antt =====
-- repository/src/util.c: `compute_icrc` on a packet of 60 bytes, before and behind a router.
use inc_emulation.Base.{ℕ, ◌%◌, ◌<◌, ◌≤◌, ◌≡◌, refl, arith, false, some, ◌==◌, if◌then◌else◌}
use inc_emulation.Icrc.{compute_icrc, total_length, masked, set_ones, pseudo_packet}
use inc_emulation.Crc.{
  crc32, crc_blocks, crc_block, crc32_table, crc_steps, crc_step, crc_bytes, crc_byte,
}
use inc_emulation.Icrc.Travel.{mem, changing, compute_icrc-travels}

abbrev sent : ℕ → ℕ
sent i = if i == 16 then 0 else if i == 17 then 60 else i % 256

-- One hop further, with the header's checksum of the new time to live
abbrev routed : ℕ → ℕ
routed i = if i == 22 then 0x3f else if i == 24 then 0xab else if i == 25 then 0xcd else sent i

sent-bytes : (i : ℕ) → sent i < 256
sent-bytes i = ground arith

routed-bytes : (i : ℕ) → routed i < 256
routed-bytes i = ground arith

routed-same : (i : ℕ) → 14 ≤ i → mem i changing ≡ false → sent i ≡ routed i
routed-same i h e = ground (arith, e)

compute_icrc-travels_example : compute_icrc sent ≡ compute_icrc routed
compute_icrc-travels_example = compute_icrc-travels sent routed sent-bytes routed-bytes routed-same

-- The first byte of the payload does enter.
abbrev damaged : ℕ → ℕ
damaged i = if i == 54 then 0 else sent i

compute_icrc-sent : compute_icrc sent ≡ some 640193641
unfolding compute_icrc total_length masked set_ones pseudo_packet crc32 crc_blocks crc_block
    crc32_table crc_steps crc_step crc_bytes crc_byte
compute_icrc-sent = refl

compute_icrc-damaged : compute_icrc damaged ≡ some 2225191022
unfolding compute_icrc total_length masked set_ones pseudo_packet crc32 crc_blocks crc_block
    crc32_table crc_steps crc_step crc_bytes crc_byte
compute_icrc-damaged = refl
