-- ===== src/Bits.antt =====
-- Masks and disjoint fields, as arithmetic: what `&` with ones and `|` of separate fields compute.
mod Digits
pub use Digits.{bit_and_digit, bit_or_digit, bit_xor_digit}
use native.Mathlib.Nat.{
  pow-suc, one-le-pow, mul-add-mod_self_left, mod-eq_of_lt, mod-lt, div-add-mod,
}
use Prim.Native.Nat.{bit_and, bit_or, max, bit_and-bitwise, bit_or-bitwise}
use mathlib.Core.Path.{ap₂}
use inc_emulation.Base.{
  ℕ, zero, suc, ◌+◌, ◌-◌, ◌*◌, ◌/◌, ◌%◌, ◌^◌, ◌≤◌, ◌<◌, ◌≡◌, refl, sym, ap, ◌∙◌, arith,
}

-- Reading one more low digit of a remainder.
mod_double : (p x d : ℕ) → 0 < p → d < 2 → (x * 2 + d) % (p * 2) ≡ x % p * 2 + d
mod_double p x d hp hd =
    ap (λ (t : ℕ). t % (p * 2)) split
    ∙ mul-add-mod_self_left (p * 2) (x / p) (x % p * 2 + d)
    ∙ mod-eq_of_lt (omega arith)
  where
    split : x * 2 + d ≡ p * 2 * (x / p) + (x % p * 2 + d)
    split = omega (arith, div-add-mod x p)

mod_digit : (k a : ℕ) → a % 2 ^ suc k ≡ a / 2 % 2 ^ k * 2 + a % 2
mod_digit k a = rw (pow-suc 2 k) (
    ap (λ (t : ℕ). t % (2 ^ k * 2)) halves
    ∙ mod_double (2 ^ k) (a / 2) (a % 2) (one-le-pow k 2 (omega arith)) (omega arith))
  where
    halves : a ≡ a / 2 * 2 + a % 2
    halves = omega arith

pub zero-bit_or : (b : ℕ) → bit_or 0 b ≡ b
zero-bit_or b = bit_or-bitwise 0 b

zero-bit_and : (b : ℕ) → bit_and 0 b ≡ 0
zero-bit_and b = bit_and-bitwise 0 b

bit_and-zero_up_to : (n a : ℕ) → a ≤ n → bit_and a 0 ≡ 0
bit_and-zero_up_to n zero h = zero-bit_and 0
bit_and-zero_up_to zero (suc a) h = absurd (omega arith)
bit_and-zero_up_to (suc n) (suc a) h =
    omega (arith, bit_and_digit (suc a) 0, bit_and-zero_up_to n (suc a / 2) (omega arith))

pub bit_and-zero : (a : ℕ) → bit_and a 0 ≡ 0
bit_and-zero a = bit_and-zero_up_to a a (omega arith)

bit_or-zero_up_to : (n a : ℕ) → a ≤ n → bit_or a 0 ≡ a
bit_or-zero_up_to n zero h = zero-bit_or 0
bit_or-zero_up_to zero (suc a) h = absurd (omega arith)
bit_or-zero_up_to (suc n) (suc a) h =
    omega (arith, bit_or_digit (suc a) 0, bit_or-zero_up_to n (suc a / 2) (omega arith))

pub bit_or-zero : (a : ℕ) → bit_or a 0 ≡ a
bit_or-zero a = bit_or-zero_up_to a a (omega arith)

ones_half : (k : ℕ) → (2 ^ suc k - 1) / 2 ≡ 2 ^ k - 1
ones_half k = omega (arith, pow-suc 2 k, one-le-pow k 2 (omega arith))

-- `a & (2 ^ k - 1)` keeps the k low digits.
pub bit_and_ones : (k a : ℕ) → bit_and a (2 ^ k - 1) ≡ a % 2 ^ k
bit_and_ones zero a = bit_and-zero a ∙ omega arith
bit_and_ones (suc k) a =
    rw (bit_and_digit a (2 ^ suc k - 1), ones_half k, bit_and_ones k (a / 2), mod_digit k a)
      (omega (arith, pow-suc 2 k, one-le-pow k 2 (omega arith)))

-- The low digits of a `|` are the `|` of the low digits.
pub bit_or-mod : (k a b : ℕ) → bit_or a b % 2 ^ k ≡ bit_or (a % 2 ^ k) (b % 2 ^ k)
bit_or-mod zero a b = omega (arith, ap₂ bit_or (one a) (one b), zero-bit_or 0)
  where
    one : (x : ℕ) → x % 2 ^ 0 ≡ 0
    one x = omega arith
bit_or-mod (suc k) a b =
    rw (bit_or_digit (a % 2 ^ suc k) (b % 2 ^ suc k), mod_digit k (bit_or a b))
      (rw (half a, half b, odd a, odd b, ← bit_or-mod k (a / 2) (b / 2), half_or, odd_or))
  where
    half : (x : ℕ) → x % 2 ^ suc k / 2 ≡ x / 2 % 2 ^ k
    half x = omega (arith, mod_digit k x)

    odd : (x : ℕ) → x % 2 ^ suc k % 2 ≡ x % 2
    odd x = omega (arith, mod_digit k x)

    half_or : bit_or a b / 2 ≡ bit_or (a / 2) (b / 2)
    half_or = omega (arith, bit_or_digit a b)

    odd_or : bit_or a b % 2 ≡ max (a % 2) (b % 2)
    odd_or = omega (arith, bit_or_digit a b)

-- `(q << k) | r` is a sum when r has at most k digits.
pub bit_or_apart : (k q r : ℕ) → r < 2 ^ k → bit_or (q * 2 ^ k) r ≡ q * 2 ^ k + r
bit_or_apart zero q r h = rw (r_zero) (bit_or-zero (q * 1) ∙ omega arith)
  where
    r_zero : r ≡ 0
    r_zero = omega arith
bit_or_apart (suc k) q r h =
    rw (bit_or_digit (q * 2 ^ suc k) r, q_half)
      (omega (arith, bit_or_apart k q (r / 2) (omega (arith, pow-suc 2 k)), q_double))
  where
    q_double : q * 2 ^ suc k ≡ q * 2 ^ k * 2
    q_double = omega (arith, ap (λ (t : ℕ). q * t) (pow-suc 2 k))

    q_half : q * 2 ^ suc k / 2 ≡ q * 2 ^ k
    q_half = omega (arith, q_double)

bit_or_comm_up_to : (n a b : ℕ) → a + b ≤ n → bit_or a b ≡ bit_or b a
bit_or_comm_up_to n zero b h = zero-bit_or b ∙ sym (bit_or-zero b)
bit_or_comm_up_to n (suc a) zero h = bit_or-zero (suc a) ∙ sym (zero-bit_or (suc a))
bit_or_comm_up_to zero (suc a) (suc b) h = absurd (omega arith)
bit_or_comm_up_to (suc n) (suc a) (suc b) h = omega (
  arith,
  bit_or_digit (suc a) (suc b),
  bit_or_digit (suc b) (suc a),
  bit_or_comm_up_to n (suc a / 2) (suc b / 2) (omega arith),
)

pub bit_or_comm : (a b : ℕ) → bit_or a b ≡ bit_or b a
bit_or_comm a b = bit_or_comm_up_to (a + b) a b (omega arith)

-- A `|` of numbers of k digits has k digits.
pub bit_or-lt : (k a b : ℕ) → a < 2 ^ k → b < 2 ^ k → bit_or a b < 2 ^ k
bit_or-lt k a b ha hb =
    let low = bit_or-mod k a b in
    omega (
      arith,
      rw (mod-eq_of_lt ha, mod-eq_of_lt hb) at low,
      mod-lt (bit_or a b) (one-le-pow k 2 (omega arith)),
    )
