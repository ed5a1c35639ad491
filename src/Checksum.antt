-- ===== src/Checksum.antt =====
-- repository/src/util.c: the IPv4 header checksum. The header is in memory as the program stores it,
-- so a 16-bit read of it on the little-endian host takes the first byte as the low one.
pub mod Folding
pub mod Stamped
mod Tests
use Prim.Native.Nat.{bit_and}
use inc_emulation.Base.{
  ℕ, zero, suc, ◌+◌, ◌-◌, ◌*◌, ◌/◌, ◌%◌, ◌^◌, Bool, ◌==◌, ltb, if◌then◌else◌, bswap16, add32,
  u16_mod,
}

-- `ipv4_header_t`; each field is the number that the field's memory holds.
pub record Ipv4Header : Type 0 where
  pub version_ihl : ℕ
  pub tos : ℕ
  pub total_length : ℕ
  pub id : ℕ
  pub flags_frag_off : ℕ
  pub ttl : ℕ
  pub protocol : ℕ
  pub checksum : ℕ
  pub src_ip : ℕ
  pub dst_ip : ℕ

-- `((const uint16_t *)ip)[i]`. From the tenth word on the memory behind the header is read, `behind`.
unfoldable pub header_word : Ipv4Header → (ℕ → ℕ) → ℕ → ℕ
header_word ip behind zero = ip.version_ihl + ip.tos * 256
header_word ip behind (suc zero) = ip.total_length
header_word ip behind (suc (suc zero)) = ip.id
header_word ip behind (suc (suc (suc zero))) = ip.flags_frag_off
header_word ip behind (suc (suc (suc (suc zero)))) = ip.ttl + ip.protocol * 256
header_word ip behind (suc (suc (suc (suc (suc zero))))) = ip.checksum
header_word ip behind (suc (suc (suc (suc (suc (suc zero)))))) = ip.src_ip % 2 ^ 16
header_word ip behind (suc (suc (suc (suc (suc (suc (suc zero))))))) = ip.src_ip / 2 ^ 16
header_word ip behind (suc (suc (suc (suc (suc (suc (suc (suc zero)))))))) = ip.dst_ip % 2 ^ 16
header_word ip behind (suc (suc (suc (suc (suc (suc (suc (suc (suc zero))))))))) =
    ip.dst_ip / 2 ^ 16
header_word ip behind (suc (suc (suc (suc (suc (suc (suc (suc (suc (suc i)))))))))) = behind i

-- `sum += ntohs(ptr[i])` for the first n words.
unfoldable pub sum_words : ℕ → (ℕ → ℕ) → ℕ
sum_words zero ptr = 0
sum_words (suc n) ptr = add32 (sum_words n ptr) (bswap16 (ptr n))

-- `while (sum >> 16) sum = (sum & 0xFFFF) + (sum >> 16);` with fuel
unfoldable pub fold_carries : ℕ → ℕ → ℕ
fold_carries zero sum = sum
fold_carries (suc fuel) sum =
    let folded = fold_carries fuel (add32 (bit_and sum 0xFFFF) (sum / 2 ^ 16)) in
    if sum / 2 ^ 16 == 0 then sum else folded

-- Three rounds fold any 32-bit sum (Folding).
abbrev pub fold_fuel : ℕ
fold_fuel = 3

-- The length of the header in 16-bit words, `ihl / 2`.
unfoldable pub header_words : Ipv4Header → ℕ
header_words ip = bit_and ip.version_ihl 0x0F * 4 % 256 / 2

-- The complement of the folded sum, taken with the checksum field set to zero.
unfoldable pub ipv4_checksum : Ipv4Header → (ℕ → ℕ) → ℕ
ipv4_checksum ip behind =
    let sum = sum_words (header_words ip) (header_word (record ip { checksum = 0 }) behind) in
    bswap16 (u16_mod - 1 - fold_carries fold_fuel sum % u16_mod)

unfoldable pub is_ipv4_checksum_valid : Ipv4Header → (ℕ → ℕ) → Bool
is_ipv4_checksum_valid ip behind = ipv4_checksum ip behind == bswap16 ip.checksum
