-- ===== src/Checksum/Stamped.antt =====
-- A header that carries the checksum of `ipv4_checksum`, as a receiver sees it.
use inc_emulation.Base.{
  ℕ, suc, ◌*◌, ◌/◌, ◌%◌, ◌<◌, ◌≡◌, ◌↔◌, true, ◌==◌, refl, arith, bswap16, bswap16-lt, u16_mod,
}
use inc_emulation.Bits.{bit_and_ones}
use inc_emulation.Checksum.{
  Ipv4Header, header_word, sum_words, header_words, ipv4_checksum, is_ipv4_checksum_valid,
}

-- The header with a checksum put in.
abbrev pub with_checksum : Ipv4Header → ℕ → Ipv4Header
with_checksum ip c = record ip { checksum = c }

-- The words behind the checksum have indices from 6 on.
abbrev six+ : ℕ → ℕ
six+ k = suc (suc (suc (suc (suc (suc k)))))

module _ (ip : Ipv4Header) (behind : ℕ → ℕ) (c : ℕ) where
  abbrev cleared : ℕ → ℕ
  cleared = header_word (with_checksum ip 0) behind

  abbrev stamped : ℕ → ℕ
  stamped = header_word (with_checksum ip c) behind

-- How many words of 16 bits a header has, by its length field, which counts words of 32 bits
abbrev pub length_field_words : Ipv4Header → ℕ
length_field_words ip = ip.version_ihl % 16 * 2

pub header_words-length_field : (ip : Ipv4Header) → header_words ip ≡ length_field_words ip
unfolding header_words
header_words-length_field ip = omega (arith, bit_and_ones 4 ip.version_ihl)

-- What `IsHeader` asks: a length field that covers the checksum, and bytes for the first word.
pub record IsHeader (ip : Ipv4Header) : Type 0 where
  pub covers : 5 < length_field_words ip
  pub version_byte : ip.version_ihl < 256
  pub tos_byte : ip.tos < 256

module _ (ip : Ipv4Header) (behind : ℕ → ℕ) (h : IsHeader ip) where
  part : ℕ
  part = sum_words (header_words ip) (header_word (with_checksum ip 0) behind)

swap_fixed_iff : (c : ℕ) → c < u16_mod → ((c == bswap16 c) ≡ true) ↔ (c / 256 ≡ c % 256)
unfolding bswap16
swap_fixed_iff c h = ground arith

ipv4_checksum-restamped :
    (ip : Ipv4Header) (behind : ℕ → ℕ) (c : ℕ)
    → ipv4_checksum (with_checksum ip c) behind ≡ ipv4_checksum ip behind
unfolding ipv4_checksum header_words
ipv4_checksum-restamped ip behind c = refl

ipv4_checksum-lt : (ip : Ipv4Header) (behind : ℕ → ℕ) → ipv4_checksum ip behind < u16_mod
unfolding ipv4_checksum
ipv4_checksum-lt ip behind = bswap16-lt _

-- The debugging check `is_ipv4_checksum_valid` accepts a header that carries the checksum of
-- `ipv4_checksum` exactly if the two bytes of that checksum are equal: it compares the value in
-- network order with the field in host order.
pub is_ipv4_checksum_valid-stamped_iff :
    (ip : Ipv4Header) (behind : ℕ → ℕ)
    → (is_ipv4_checksum_valid (with_checksum ip (ipv4_checksum ip behind)) behind ≡ true)
      ↔ (ipv4_checksum ip behind / 256 ≡ ipv4_checksum ip behind % 256)
unfolding is_ipv4_checksum_valid
is_ipv4_checksum_valid-stamped_iff ip behind =
    rw (ipv4_checksum-restamped ip behind (ipv4_checksum ip behind))
      (swap_fixed_iff (ipv4_checksum ip behind) (ipv4_checksum-lt ip behind))
