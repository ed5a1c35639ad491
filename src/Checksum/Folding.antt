-- ===== src/Checksum/Folding.antt =====
-- The carry loop of `ipv4_checksum`: it ends, and computes the one's complement sum.
use inc_emulation.Base.{
  ℕ, suc, ◌+◌, ◌/◌, ◌%◌, ◌^◌, ◌<◌, ◌≡◌, arith, add32, u16_mod, u32_mod, ◌==◌, if◌then◌else◌,
}
use inc_emulation.Bits.{bit_and_ones}
use inc_emulation.Checksum.{fold_carries, fold_fuel}

abbrev pub fold_once : ℕ → ℕ
fold_once s = s % u16_mod + s / u16_mod

-- What one round of the loop keeps: the sum modulo 2 ^ 16 - 1, and whether it is zero.
Kept : ℕ → ℕ → Type 0
Kept s r = (r % 65535 ≡ s % 65535) × (r ≡ 0 → s ≡ 0)

fold_once-Kept : (s : ℕ) → Kept s (fold_once s)
unfolding Kept
fold_once-Kept s = (omega arith, λ h. omega arith)

fold_carries-suc :
    (fuel s : ℕ)
    → s < u32_mod
    → fold_carries (suc fuel) s ≡ (if s / 2 ^ 16 == 0 then s else fold_carries fuel (fold_once s))
unfolding fold_carries add32
fold_carries-suc fuel s h = rw (bit_and_ones 16 s, in_range)
  where
    in_range : (s % 2 ^ 16 + s / 2 ^ 16) % u32_mod ≡ s % 2 ^ 16 + s / 2 ^ 16
    in_range = omega arith

-- The carry loop ends within three rounds for every 32-bit sum s: the result has 16 bits, equals s
-- modulo 2 ^ 16 - 1, and is zero only if s is zero.
pub fold_carries_lem :
    (s : ℕ)
    → s < u32_mod
    → (fold_carries fold_fuel s < u16_mod)
      × (fold_carries fold_fuel s % 65535 ≡ s % 65535)
      × (fold_carries fold_fuel s ≡ 0 → s ≡ 0)
unfolding fold_carries Kept
fold_carries_lem s h =
    rw (fold_carries-suc 2 s h, fold_carries-suc 1 (fold_once s) (omega arith))
      (rw (fold_carries-suc 0 (fold_once (fold_once s)) (omega arith))
        (ground arith, ground (arith, k1.0, k2.0), ground (arith, k1.1, k2.1)))
  where
    k1 : Kept s (fold_once s)
    k1 = fold_once-Kept s

    k2 : Kept (fold_once s) (fold_once (fold_once s))
    k2 = fold_once-Kept (fold_once s)
