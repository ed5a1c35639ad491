-- ===== src/Transfer/Came.antt =====
-- repository/src/util.c, `receive_file`: what comes in.
use Prim.Native.Nat.{min}
use inc_emulation.Base.{
  ℕ, zero, suc, ◌+◌, ◌-◌, ◌≤◌, ◌<◌, ◌≡◌, refl, ap, ◌∙◌, arith, Bool, false, ◌==◌, if◌then◌else◌,
  List, [], ◌∷◌, ◌++◌, length, first, rest_from, first-rest_from,
}
use mathlib.Core.Path.{ap₂}
use inc_emulation.External.{Text}
use inc_emulation.Transfer.{Stream, receive_loop}
use inc_emulation.Transfer.Sent.{first-and-rest}

-- Calls of `recv` that all may give something
abbrev pub AllTake : List ℕ → Type 0
AllTake [] = Unit {0}
AllTake (t ∷ takes) = (0 < t) × AllTake takes

length-first : (k : ℕ) (xs : Text) → k ≤ length xs → length (first k xs) ≡ k
length-first zero xs h = refl
length-first (suc k) [] h = absurd (omega (arith, h))
length-first (suc k) (x ∷ xs) h = omega (arith, length-first k xs (omega (arith, h)))

first-within : (k : ℕ) (xs ys : Text) → k ≤ length xs → first k (xs ++ ys) ≡ first k xs
first-within zero xs ys h = refl
first-within (suc k) [] ys h = absurd (omega (arith, h))
first-within (suc k) (x ∷ xs) ys h =
    ap (λ (t : Text). x ∷ t) (first-within k xs ys (omega (arith, h)))

rest_from-within :
    (k : ℕ) (xs ys : Text) → k ≤ length xs → rest_from k (xs ++ ys) ≡ rest_from k xs ++ ys
rest_from-within zero xs ys h = refl
rest_from-within (suc k) [] ys h = absurd (omega (arith, h))
rest_from-within (suc k) (x ∷ xs) ys h = rest_from-within k xs ys (omega (arith, h))

-- What `receive_loop` comes to when all bytes that it asks for come
pub record Came (want rest : Text) (takes : List ℕ) (o : Text × ℕ × Stream) : Type 0 where
  pub left : List ℕ
  pub outcome : o ≡ (want, 0, record { bytes = rest; takes = left })
  pub all : AllTake left
  pub enough : length takes ≤ length left + length want

pub receive_loop-Came :
    (limit : ℕ) (takes : List ℕ) (want rest : Text) (n : ℕ)
    → 0 < limit
    → AllTake takes
    → length want ≡ n
    → n ≤ length takes
    → Came want rest takes (receive_loop limit takes (want ++ rest) n)
unfolding receive_loop
receive_loop-Came limit takes [] rest zero c h e l = record {
  left = takes;
  outcome = refl;
  all = h;
  enough = omega arith;
}
receive_loop-Came limit takes (b ∷ bs) rest zero c h e l = absurd (omega (arith, e))
receive_loop-Came limit [] want rest (suc n) c h e l = absurd (omega (arith, l))
receive_loop-Came limit (t ∷ takes) want rest (suc n) c (ht, h) e l =
    let parts : length (first k want) + length (rest_from k want) ≡ length want =
      first-and-rest k want in
    let r =
      receive_loop-Came limit takes (rest_from k want) rest (length (rest_from k want)) c h refl
        (omega (arith, parts, taken, e, l, some)) in
    record {
      left = r.left;
      outcome =
          ap₂ round (first-within k want rest within) (rest_from-within k want rest within)
          ∙ ap
              (λ (b : Bool).
                if b
                then ([], suc n, record { bytes = want ++ rest; takes = takes })
                else joined (receive_loop limit takes tail (suc n - length (first k want))))
              not_none
          ∙ ap (λ m. joined (receive_loop limit takes tail m)) still
          ∙ ap joined r.outcome
          ∙ ap (λ t. (t, 0, record { bytes = rest; takes = r.left })) (first-rest_from k want);
      all = r.all;
      enough = omega (arith, r.enough, parts, taken, some);
    }
  where
    k : ℕ
    k = min t (min limit (suc n))

    some : 0 < k
    some = omega (arith, ht, c)

    tail : Text
    tail = rest_from k want ++ rest

    still : suc n - length (first k want) ≡ length (rest_from k want)
    still = omega (arith, e, first-and-rest k want)

    within : k ≤ length want
    within = omega (arith, e)

    taken : length (first k want) ≡ k
    taken = length-first k want within

    not_none : (length (first k want) == 0) ≡ false
    not_none = ground (arith, taken, some)

    joined : Text × ℕ × Stream → Text × ℕ × Stream
    joined (more, left, s) = (first k want ++ more, left, s)

    round : (came tail : Text) → Text × ℕ × Stream
    round came tail =
        let (more, left, s) = receive_loop limit takes tail (suc n - length came) in
        if length came == 0
        then ([], suc n, record { bytes = want ++ rest; takes = takes })
        else (came ++ more, left, s)
