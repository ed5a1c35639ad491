-- ===== src/Icrc.antt =====
-- repository/src/util.c, `compute_icrc`: the checksum of a RoCEv2 frame. The packet is the memory
-- behind the pointer, byte by byte; the fields are where the headers of repository/include/util.h
-- have them.
mod Travel
mod Tests
use Prim.Native.Nat.{bit_or}
use inc_emulation.Base.{
  ℕ, zero, suc, ◌+◌, ◌-◌, ◌*◌, Bool, true, false, List, [], ◌∷◌, Option, none, some, ◌==◌, ltb,
  ◌||◌, if◌then◌else◌,
}
use inc_emulation.Crc.{crc32}

-- `ntohs(iip->total_length)`
unfoldable pub total_length : (packet : ℕ → ℕ) → ℕ
total_length packet = packet 16 * 256 + packet 17

-- Eight bytes of ones in place of the link's header, and the packet from its IP header on
unfoldable pub pseudo_packet : (packet : ℕ → ℕ) → ℕ → ℕ
pseudo_packet packet i = if ltb i 8 then 0xFF else packet (14 + (i - 8))

-- `|= 0xFF` on one byte of the memory
unfoldable pub set_ones : (at : ℕ) → (pack : ℕ → ℕ) → ℕ → ℕ
set_ones at pack i = if i == at then bit_or (pack i) 0xFF else pack i

-- tos, ttl, the two bytes of each checksum, and the byte of the queue pair's number that is lowest
-- in memory
unfoldable pub masked : (pack : ℕ → ℕ) → ℕ → ℕ
masked pack =
    set_ones 40
      (set_ones 35 (set_ones 34 (set_ones 19 (set_ones 18 (set_ones 16 (set_ones 9 pack))))))

-- `none`: the length wraps below 0, or the packet is larger than the array of 5555 bytes
unfoldable pub compute_icrc : (packet : ℕ → ℕ) → Option ℕ
compute_icrc packet =
    let total = total_length packet in
    if ltb total 4 || ltb 5555 (total - 4 + 8)
    then none
    else some (crc32 (masked (pseudo_packet packet)) (total - 4 + 8))
