-- ===== src/Bits/Digits.antt =====
-- The three bit operations of C, one binary digit at a time.
use Prim.Native.Nat.{
  bit_and, bit_or, bit_xor, min, max, differ, digits, bit_and-bitwise, bit_or-bitwise,
  bit_xor-bitwise,
}
use inc_emulation.Base.{ℕ, zero, suc, ◌+◌, ◌*◌, ◌/◌, ◌%◌, ◌≤◌, ◌≡◌, refl, arith}

-- The definition of the operations counts digits down; any count from the first number up will do.
module _ (rest : ℕ → ℕ) (digit : ℕ → ℕ → ℕ) where
  digits_count : (m n a b : ℕ) → a ≤ m → a ≤ n → digits rest digit m a b ≡ digits rest digit n a b
  digits_count m n zero b p q = both m n
    where
      both : (m n : ℕ) → digits rest digit m zero b ≡ digits rest digit n zero b
      both zero zero = refl
      both zero (suc n) = refl
      both (suc m) zero = refl
      both (suc m) (suc n) = refl
  digits_count zero n (suc a) b p q = absurd (omega arith)
  digits_count (suc m) zero (suc a) b p q = absurd (omega arith)
  digits_count (suc m) (suc n) (suc a) b p q =
      rw (digits_count m n (suc a / 2) (b / 2) (omega arith) (omega arith))

  pub digits_lowest :
      (a b : ℕ)
      → digits rest digit (suc a) (suc a) b
        ≡ digits rest digit (suc a / 2) (suc a / 2) (b / 2) * 2 + digit (suc a % 2) (b % 2)
  digits_lowest a b =
      rw (digits_count a (suc a / 2) (suc a / 2) (b / 2) (omega arith) (omega arith))

pub bit_and_digit : (a b : ℕ) → bit_and a b ≡ bit_and (a / 2) (b / 2) * 2 + min (a % 2) (b % 2)
bit_and_digit zero b = simp bit_and-bitwise (omega arith)
bit_and_digit (suc a) b = simp bit_and-bitwise (digits_lowest (λ _. 0) min a b)

pub bit_or_digit : (a b : ℕ) → bit_or a b ≡ bit_or (a / 2) (b / 2) * 2 + max (a % 2) (b % 2)
bit_or_digit zero b = simp bit_or-bitwise (omega arith)
bit_or_digit (suc a) b = simp bit_or-bitwise (digits_lowest (λ y. y) max a b)

pub bit_xor_digit : (a b : ℕ) → bit_xor a b ≡ bit_xor (a / 2) (b / 2) * 2 + differ (a % 2) (b % 2)
bit_xor_digit zero b = simp bit_xor-bitwise (omega arith)
bit_xor_digit (suc a) b = simp bit_xor-bitwise (digits_lowest (λ y. y) differ a b)
