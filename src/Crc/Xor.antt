-- ===== src/Crc/Xor.antt =====
-- The laws of `^` that the table driven checksum rests on.
use native.Mathlib.Nat.{pow-suc}
use Prim.Native.Nat.{bit_xor, differ, bit_xor-bitwise}
use inc_emulation.Base.{
  ℕ, zero, suc, ◌+◌, ◌*◌, ◌/◌, ◌%◌, ◌^◌, ◌≤◌, ◌<◌, ◌≡◌, refl, sym, ap, ◌∙◌, arith,
}
use inc_emulation.Bits.{bit_xor_digit}

differ-lt : (d e : ℕ) → d < 2 → e < 2 → differ d e < 2
differ-lt zero e h k = k
differ-lt (suc zero) zero h k = h
differ-lt (suc zero) (suc zero) h k = omega arith
differ-lt (suc zero) (suc (suc e)) h k = absurd (omega (arith, k))
differ-lt (suc (suc d)) e h k = absurd (omega (arith, h))

pub bit_xor-half : (a b : ℕ) → bit_xor a b / 2 ≡ bit_xor (a / 2) (b / 2)
bit_xor-half a b =
    omega (arith, bit_xor_digit a b, differ-lt (a % 2) (b % 2) (omega arith) (omega arith))

pub bit_xor-odd : (a b : ℕ) → bit_xor a b % 2 ≡ differ (a % 2) (b % 2)
bit_xor-odd a b =
    omega (arith, bit_xor_digit a b, differ-lt (a % 2) (b % 2) (omega arith) (omega arith))

pub zero-bit_xor : (b : ℕ) → bit_xor 0 b ≡ b
zero-bit_xor b = bit_xor-bitwise 0 b

differ_comm : (d e : ℕ) → d < 2 → e < 2 → differ d e ≡ differ e d
differ_comm zero zero h k = refl
differ_comm zero (suc e) h k = refl
differ_comm (suc d) zero h k = refl
differ_comm (suc zero) (suc zero) h k = refl
differ_comm (suc zero) (suc (suc e)) h k = absurd (omega (arith, k))
differ_comm (suc (suc d)) (suc e) h k = absurd (omega (arith, h))

differ_assoc : (d e f : ℕ) → d < 2 → e < 2 → f < 2 → differ (differ d e) f ≡ differ d (differ e f)
differ_assoc zero e f h k l = refl
differ_assoc (suc d) zero f h k l = refl
differ_assoc (suc zero) (suc zero) zero h k l = refl
differ_assoc (suc zero) (suc zero) (suc zero) h k l = refl
differ_assoc (suc zero) (suc zero) (suc (suc f)) h k l = absurd (omega (arith, l))
differ_assoc (suc zero) (suc (suc e)) f h k l = absurd (omega (arith, k))
differ_assoc (suc (suc d)) (suc e) f h k l = absurd (omega (arith, h))

xor_comm_up_to : (n a b : ℕ) → a ≤ n → b ≤ n → bit_xor a b ≡ bit_xor b a
xor_comm_up_to zero zero zero h k = refl
xor_comm_up_to zero (suc a) b h k = absurd (omega (arith, h))
xor_comm_up_to zero zero (suc b) h k = absurd (omega (arith, k))
xor_comm_up_to (suc n) a b h k = omega (
  arith,
  bit_xor_digit a b,
  bit_xor_digit b a,
  xor_comm_up_to n (a / 2) (b / 2) (omega (arith, h)) (omega (arith, k)),
  differ_comm (a % 2) (b % 2) (omega arith) (omega arith),
)

pub bit_xor_comm : (a b : ℕ) → bit_xor a b ≡ bit_xor b a
bit_xor_comm a b = xor_comm_up_to (a + b) a b (omega arith) (omega arith)

pub bit_xor-zero : (a : ℕ) → bit_xor a 0 ≡ a
bit_xor-zero a = bit_xor_comm a 0 ∙ zero-bit_xor a

xor_assoc_up_to : (n a b c : ℕ) → a ≤ n → bit_xor (bit_xor a b) c ≡ bit_xor a (bit_xor b c)
xor_assoc_up_to n zero b c h = rw (zero-bit_xor b, zero-bit_xor (bit_xor b c)) refl
xor_assoc_up_to zero (suc a) b c h = absurd (omega (arith, h))
xor_assoc_up_to (suc n) (suc a) b c h =
    bit_xor_digit (bit_xor (suc a) b) c
    ∙ rw (bit_xor-half (suc a) b, bit_xor-odd (suc a) b)
        (omega (
          arith,
          xor_assoc_up_to n (suc a / 2) (b / 2) (c / 2) (omega (arith, h)),
          differ_assoc (suc a % 2) (b % 2) (c % 2) (omega arith) (omega arith) (omega arith),
          bit_xor_digit (suc a) (bit_xor b c),
          ap (λ t. bit_xor (suc a / 2) t) (bit_xor-half b c),
          ap (λ t. differ (suc a % 2) t) (bit_xor-odd b c),
        ))

pub bit_xor_assoc : (a b c : ℕ) → bit_xor (bit_xor a b) c ≡ bit_xor a (bit_xor b c)
bit_xor_assoc a b c = xor_assoc_up_to a a b c (omega arith)

-- Two sums of two, taken crosswise
pub bit_xor_swap :
    (a b c d : ℕ) → bit_xor (bit_xor a b) (bit_xor c d) ≡ bit_xor (bit_xor a c) (bit_xor b d)
bit_xor_swap a b c d =
    bit_xor_assoc a b (bit_xor c d)
    ∙ ap (bit_xor a)
        (sym (bit_xor_assoc b c d) ∙ ap (λ t. bit_xor t d) (bit_xor_comm b c) ∙ bit_xor_assoc c b d)
    ∙ sym (bit_xor_assoc a c (bit_xor b d))

pub bit_xor-lt : (k a b : ℕ) → a < 2 ^ k → b < 2 ^ k → bit_xor a b < 2 ^ k
bit_xor-lt zero a b h l = rw (below_one a h, below_one b l) (omega arith)
  where
    below_one : (n : ℕ) → n < 2 ^ 0 → n ≡ 0
    below_one n h = omega (arith, h)
bit_xor-lt (suc k) a b h l = omega (
  arith,
  h,
  l,
  pow-suc 2 k,
  bit_xor_digit a b,
  differ-lt (a % 2) (b % 2) (omega arith) (omega arith),
  bit_xor-lt k (a / 2) (b / 2) (omega (arith, h, pow-suc 2 k)) (omega (arith, l, pow-suc 2 k)),
)

-- The low byte and the rest, apart
pub bit_xor_apart : (k q r : ℕ) → r < 2 ^ k → bit_xor (q * 2 ^ k) r ≡ q * 2 ^ k + r
bit_xor_apart zero q r h = rw (r_zero) (bit_xor-zero (q * 1) ∙ omega arith)
  where
    r_zero : r ≡ 0
    r_zero = omega (arith, h)
bit_xor_apart (suc k) q r h = omega (
  arith,
  bit_xor_digit (q * 2 ^ suc k) r,
  ap (λ t. bit_xor t (r / 2)) q_half,
  bit_xor_apart k q (r / 2) (omega (arith, h, pow-suc 2 k)),
  q_double,
  even r,
)
  where
    q_double : q * 2 ^ suc k ≡ q * 2 ^ k * 2
    q_double = omega (arith, ap (λ (t : ℕ). q * t) (pow-suc 2 k))

    q_half : q * 2 ^ suc k / 2 ≡ q * 2 ^ k
    q_half = omega (arith, q_double)

    even_q : q * 2 ^ suc k % 2 ≡ 0
    even_q = omega (arith, q_double)

    even : (r : ℕ) → differ (q * 2 ^ suc k % 2) (r % 2) ≡ r % 2
    even r = ap (λ t. differ t (r % 2)) even_q
