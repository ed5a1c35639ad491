-- ===== src/Base/Words.antt =====
-- Machine words: 32-bit wrap-around, and the byte order conversions of a little-endian host.
use Prim.Native.Nat.{ℕ, ◌+◌, ◌*◌, ◌/◌, ◌%◌, ◌^◌, ◌<◌}
use mathlib.Core.Path.{◌≡◌, refl, ap, ◌∙◌}
use native.Mathlib.Omega.{arith}

abbrev pub u16_mod : ℕ
u16_mod = 2 ^ 16

abbrev pub u32_mod : ℕ
u32_mod = 2 ^ 32

-- uint32_t addition
unfoldable pub add32 : ℕ → ℕ → ℕ
add32 a b = (a + b) % u32_mod

-- `htonl` and `ntohl` swap the four bytes, `htons` and `ntohs` the two.
unfoldable pub bswap32 : ℕ → ℕ
bswap32 w = w % 256 * 2 ^ 24 + w / 256 % 256 * 2 ^ 16 + w / 2 ^ 16 % 256 * 256 + w / 2 ^ 24 % 256

unfoldable pub bswap16 : ℕ → ℕ
bswap16 w = w % 256 * 256 + w / 256 % 256

pub bswap32-lt : (w : ℕ) → bswap32 w < u32_mod
unfolding bswap32
bswap32-lt w = omega arith

pub bswap16-lt : (w : ℕ) → bswap16 w < u16_mod
unfolding bswap16
bswap16-lt w = omega arith

pub bswap16-bswap16 : (w : ℕ) → w < u16_mod → bswap16 (bswap16 w) ≡ w
unfolding bswap16
bswap16-bswap16 w h = omega arith

bswap32_bytes :
    (a b c d : ℕ)
    → a < 256
    → b < 256
    → c < 256
    → d < 256
    → bswap32 (a * 2 ^ 24 + b * 2 ^ 16 + c * 256 + d) ≡ d * 2 ^ 24 + c * 2 ^ 16 + b * 256 + a
unfolding bswap32
bswap32_bytes a b c d ha hb hc hd = omega arith

four_bytes :
    (w : ℕ)
    → w < u32_mod
    → w / 2 ^ 24 % 256 * 2 ^ 24 + w / 2 ^ 16 % 256 * 2 ^ 16 + w / 256 % 256 * 256 + w % 256 ≡ w
four_bytes w h = omega arith

pub bswap32-bswap32 : (w : ℕ) → w < u32_mod → bswap32 (bswap32 w) ≡ w
bswap32-bswap32 w h =
    ap bswap32 (opened w)
    ∙ bswap32_bytes (w % 256) (w / 256 % 256) (w / 2 ^ 16 % 256) (w / 2 ^ 24 % 256) (omega arith)
        (omega arith) (omega arith) (omega arith)
    ∙ four_bytes w h
  where
    opened :
        (w : ℕ)
        → bswap32 w
          ≡ w % 256 * 2 ^ 24 + w / 256 % 256 * 2 ^ 16 + w / 2 ^ 16 % 256 * 256 + w / 2 ^ 24 % 256
    opened w = unfold bswap32 in refl

pub add32-lt : (a b : ℕ) → add32 a b < u32_mod
unfolding add32
add32-lt a b = omega arith
