-- ===== src/Base/Arrays.antt =====
-- C arrays as functions from the index. The program's own bounds are kept by its callers: an index
-- that the program forms is below the array's length wherever the model reads or writes it.
use Prim.Native.Nat.{ℕ, zero, suc, ◌+◌, ◌≤◌}
use mathlib.Core.Path.{◌≡◌, refl}
use mathlib.Core.List.{List, [], ◌∷◌, ◌++◌, map}
use native.Mathlib.Omega.{arith}
use inc_emulation.Base.Tests.{◌==◌, ltb, if◌then◌else◌}

module _ {ℓ} {A : Type ℓ} where
  -- a[i] = v
  abbrev pub update : (ℕ → A) → ℕ → A → ℕ → A
  update f i v j = if i == j then v else f j

  -- the first n entries come from g
  abbrev pub overwrite : ℕ → (ℕ → A) → (ℕ → A) → ℕ → A
  overwrite n g f j = if ltb j n then g j else f j

module _ {ℓ} {A : Type ℓ} where
  abbrev pub length : List A → ℕ
  length [] = 0
  length (x ∷ xs) = suc (length xs)

  pub length-append : (xs ys : List A) → length (xs ++ ys) ≡ length xs + length ys
  length-append [] ys = omega arith
  length-append (x ∷ xs) ys = omega (arith, length-append xs ys)

  -- At most the first n elements
  abbrev pub first : ℕ → List A → List A
  first zero xs = []
  first (suc n) [] = []
  first (suc n) (x ∷ xs) = x ∷ first n xs

  pub first-all : (n : ℕ) (xs : List A) → length xs ≤ n → first n xs ≡ xs
  first-all zero [] h = refl
  first-all zero (x ∷ xs) h = absurd (omega (arith, h))
  first-all (suc n) [] h = refl
  first-all (suc n) (x ∷ xs) h = rw (first-all n xs (omega (arith, h)))

  -- What follows the first n elements
  abbrev pub rest_from : ℕ → List A → List A
  rest_from zero xs = xs
  rest_from (suc n) [] = []
  rest_from (suc n) (x ∷ xs) = rest_from n xs

  pub first-rest_from : (n : ℕ) (xs : List A) → first n xs ++ rest_from n xs ≡ xs
  first-rest_from zero xs = refl
  first-rest_from (suc n) [] = refl
  first-rest_from (suc n) (x ∷ xs) = rw (first-rest_from n xs)

  pub first-append : (xs ys : List A) → first (length xs) (xs ++ ys) ≡ xs
  first-append [] ys = refl
  first-append (x ∷ xs) ys = rw (first-append xs ys)

  pub rest_from-append : (xs ys : List A) → rest_from (length xs) (xs ++ ys) ≡ ys
  rest_from-append [] ys = refl
  rest_from-append (x ∷ xs) ys = rest_from-append xs ys

  pub length-rest_from : (n : ℕ) (xs : List A) → length (rest_from n xs) ≤ length xs
  length-rest_from zero xs = omega arith
  length-rest_from (suc n) [] = omega arith
  length-rest_from (suc n) (x ∷ xs) = omega (arith, length-rest_from n xs)

module _ {ℓ κ} {A : Type ℓ} {B : Type κ} where
  pub length-map : (f : A → B) (xs : List A) → length (map f xs) ≡ length xs
  length-map f [] = refl
  length-map f (x ∷ xs) = rw (length-map f xs)
