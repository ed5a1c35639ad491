-- ===== src/Network/Allreduce.antt =====
-- An AllReduce from the arrays of the hosts to the array that each of them ends with.
use mathlib.Core.List.{Permᴰ}
use mathlib.Core.Path.{subst}
use native.Mathlib.Nat.{mod-lt, div-add-mod', div-lt_iff_lt-mul}
use inc_emulation.Base.{
  ℕ, zero, suc, ◌+◌, ◌*◌, ◌/◌, ◌%◌, ◌^◌, ◌≤◌, ◌<◌, ◌≡◌, ◌≢◌, inl, inr, refl, sym, ap, ◌∙◌, arith,
  true, some, List, [], ◌∷◌, length, map, bswap32, bswap32-lt, u32_mod, none,
}
use inc_emulation.Host.Allreduce.{
  payload_count, message_size, message_num, prepared, Wc, Loop, finished, batch,
  inccl_allreduce_sendrecv,
}
use inc_emulation.Host.Window.{occurs, ids_all, PollsGood}
use inc_emulation.Host.Result.{inccl_allreduce_sendrecv_lem, prepared_lem}
use inc_emulation.Switch.State.{Sent, Outcome}
use inc_emulation.Switch.Send.Gapless.{Fits, Carry}
use inc_emulation.Switch.Aggregate.Sum.{Contribution, sum_host, AreWords}
use inc_emulation.Switch.Aggregate.Allreduce.{aggregate_all_allreduce}
use inc_emulation.Network.{sum_sources, AreParts, IsAmong, Round}

AreWords-Permᴰ :
    (len : ℕ) (cs ds : List Contribution) → Permᴰ cs ds → AreWords len ds → AreWords len cs
AreWords-Permᴰ len _ _ Permᴰ.nil h = tt
AreWords-Permᴰ len _ _ (Permᴰ.cons {l₁ = l} {l₂ = l'} e p) (w, h) =
    (λ i k. rw (ap (λ (c : Contribution). c.payload i) e) (w i k), AreWords-Permᴰ len l l' p h)
AreWords-Permᴰ len _ _ (Permᴰ.swap e e') (w, (w', h)) = (
  λ i k. rw (ap (λ (c : Contribution). c.payload i) e) (w' i k),
  (λ i k. rw (ap (λ (c : Contribution). c.payload i) e') (w i k), h),
)
AreWords-Permᴰ len _ _ (Permᴰ.trans p q) h = AreWords-Permᴰ len _ _ p (AreWords-Permᴰ len _ _ q h)

prepared-lt : (src : ℕ → ℕ) (len i j : ℕ) → prepared src len i j < u32_mod
unfolding prepared
prepared-lt src len i j = ground (arith, bswap32-lt (src (i * payload_count + j)))

AreParts-AreWords :
    (len mtu i p : ℕ) (srcs : List (ℕ → ℕ)) (cs : List Contribution)
    → AreParts len mtu i p srcs cs
    → AreWords mtu cs
AreParts-AreWords len mtu i p [] [] h = tt
AreParts-AreWords len mtu i p [] (c ∷ cs) h = absurd h
AreParts-AreWords len mtu i p (src ∷ srcs) [] h = absurd h
AreParts-AreWords len mtu i p (src ∷ srcs) (c ∷ cs) (own, h) = (
  λ j k. rw (own j k) (prepared-lt src len i (p * mtu + j)),
  AreParts-AreWords len mtu i p srcs cs h,
)

IsAmong-Carry :
    (len : ℕ) (words : ℕ → ℕ) (s : Sent) (sent : List Sent)
    → Carry len words sent
    → IsAmong s sent
    → (j : ℕ) → j < len
    → s.frame.body j ≡ words j
unfolding Carry
IsAmong-Carry len words s [] h m j k = absurd m
IsAmong-Carry len words s (t ∷ ts) (own, h) (inl e) j k =
    ap (λ (u : Sent). u.frame.body j) (sym e) ∙ own j k
IsAmong-Carry len words s (t ∷ ts) (own, h) (inr m) j k = IsAmong-Carry len words s ts h m j k

-- The numbers of a source have 32 bits.
abbrev pub AllNumbers : ℕ → List (ℕ → ℕ) → Type 0
AllNumbers len [] = Unit {0}
AllNumbers len (src ∷ srcs) = ((k : ℕ) → k < len → src k < u32_mod) × AllNumbers len srcs

sum_parts :
    (len mtu p j k : ℕ) (srcs : List (ℕ → ℕ)) (cs : List Contribution)
    → len < 2 ^ 31
    → AllNumbers len srcs
    → k < len
    → j < mtu
    → p * mtu + j ≡ k % payload_count
    → AreParts len mtu (k / payload_count) p srcs cs
    → sum_host cs j ≡ sum_sources srcs k
unfolding sum_host
sum_parts len mtu p j k [] [] small words h l e parts = refl
sum_parts len mtu p j k [] (c ∷ cs) small words h l e parts = absurd parts
sum_parts len mtu p j k (src ∷ srcs) [] small words h l e parts = absurd parts
sum_parts len mtu p j k (src ∷ srcs) (c ∷ cs) small (word, words) h l e (own, parts) = omega (
  arith,
  ap bswap32 (own j l ∙ ap (prepared src len (k / payload_count)) e)
      ∙ ((prepared_lem src len small word).0 k h).1,
  sum_parts len mtu p j k srcs cs small words h l e parts,
)

length-Permᴰ : (cs ds : List Contribution) → Permᴰ cs ds → length cs ≡ length ds
length-Permᴰ _ _ Permᴰ.nil = refl
length-Permᴰ _ _ (Permᴰ.cons {l₁ = l} {l₂ = l'} e p) = omega (arith, length-Permᴰ l l' p)
length-Permᴰ _ _ (Permᴰ.swap e e') = refl
length-Permᴰ _ _ (Permᴰ.trans p q) = length-Permᴰ _ _ p ∙ length-Permᴰ _ _ q

length-AreParts :
    (len mtu i p : ℕ) (srcs : List (ℕ → ℕ)) (cs : List Contribution)
    → AreParts len mtu i p srcs cs
    → length cs ≡ length srcs
length-AreParts len mtu i p [] [] h = refl
length-AreParts len mtu i p [] (c ∷ cs) h = absurd h
length-AreParts len mtu i p (src ∷ srcs) [] h = absurd h
length-AreParts len mtu i p (src ∷ srcs) (c ∷ cs) h =
    omega (arith, length-AreParts len mtu i p srcs cs h.1)

sent_in : Outcome → List Sent
sent_in none = []
sent_in (some (ctx, sent)) = sent

module _ (len mtu : ℕ) (srcs : List (ℕ → ℕ)) (x : ℕ → ℕ → ℕ) where
  -- One word of the message that comes back
  word_back :
      (p j k : ℕ)
      → len < 2 ^ 31
      → 0 < length srcs
      → AllNumbers len srcs
      → Fits mtu
      → k < len
      → j < mtu
      → p * mtu + j ≡ k % payload_count
      → Round len mtu srcs x (k / payload_count) p
      → bswap32 (x (k / payload_count) (k % payload_count)) ≡ sum_sources srcs k % u32_mod
  unfolding sent_in
  word_back p j k small some_srcs numbers fits h l e r =
      let (last, sent, words, outcome, reached, carried, sums, freed) =
        aggregate_all_allreduce r.ctx r.rule r.psn mtu r.hosts r.arrived r.order some_arrived r.full
          (AreWords-Permᴰ mtu r.arrived r.hosts r.order
            (AreParts-AreWords len mtu (k / payload_count) p srcs r.hosts r.parts))
          fits r.below r.free r.op r.is_root in
      let same : sent ≡ r.sent = ap sent_in (sym outcome ∙ r.outcome) in
      ap bswap32 (
        ap (x (k / payload_count)) (sym e)
        ∙ r.comes_back j l
        ∙ IsAmong-Carry mtu words r.frame r.sent (subst (Carry mtu words) same carried) r.is_sent j
            l)
      ∙ sums j l
      ∙ ap (λ n. n % u32_mod) (sum_parts len mtu p j k srcs r.hosts small numbers h l e r.parts)
    where
      some_arrived : r.arrived ≢ []
      some_arrived none_arrived = omega (
        arith,
        some_srcs,
        ap length none_arrived,
        length-Permᴰ r.arrived r.hosts r.order,
        length-AreParts len mtu (k / payload_count) p srcs r.hosts r.parts,
      )

-- An AllReduce of the hosts ends, at each of them, with the sum of all arrays: the function returns
-- with success, each number of its result is the sum of the numbers that the hosts have at that place,
-- modulo 2 ^ 32, and the memory behind the length is untouched. For every part of every message
-- the packets of the hosts reach the root in some order, under a PSN whose slot is free, and one of
-- the frames that the switch sends comes back to the host as that part. A part has at most 1009 words
-- and a message a whole number of parts; all messages come, in any order and any batches, and all
-- completions succeed. There are less than 2 ^ 31 numbers.
pub allreduce_all :
    (window_size len mtu parts : ℕ) (srcs : List (ℕ → ℕ)) (x : ℕ → ℕ → ℕ) (dst : ℕ → ℕ)
    (polls : List (List Wc))
    → 0 < length srcs
    → len < 2 ^ 31
    → AllNumbers len srcs
    → Fits mtu
    → parts * mtu ≡ payload_count
    → ((i p : ℕ) → i < message_num len → p < parts → Round len mtu srcs x i p)
    → PollsGood len (window_size / message_size) x dst polls
    → length (ids_all polls []) ≡ message_num len
    → ((i : ℕ) → i < message_num len → occurs i (ids_all polls []) ≡ true)
    → (last : Loop) × (inccl_allreduce_sendrecv window_size len dst (map batch polls)
        ≡ finished last)
      × ((k : ℕ) → k < len → last.dst_data k ≡ sum_sources srcs k % u32_mod)
      × ((k : ℕ) → len ≤ k → last.dst_data k ≡ dst k)
allreduce_all window_size len mtu parts srcs x dst polls some_srcs small numbers fits whole rounds
      good full come =
    let (last, outcome, count, posts, copied, kept) =
      inccl_allreduce_sendrecv_lem window_size len x dst polls small good full in
    (last, outcome, λ k h. copied k h (come _ (message k h)) ∙ number k h, kept)
  where
    positive : (mtu : ℕ) → parts * mtu ≡ payload_count → 0 < mtu
    positive zero e = omega (arith, e)
    positive (suc mtu) e = omega arith

    message : (k : ℕ) → k < len → k / payload_count < message_num len
    message k h = unfold message_num in omega (arith, h)

    part : (k : ℕ) → k % payload_count / mtu < parts
    part k = (div-lt_iff_lt-mul (positive mtu whole)).1 (omega (arith, whole))

    number :
        (k : ℕ)
        → k < len
        → bswap32 (x (k / payload_count) (k % payload_count)) ≡ sum_sources srcs k % u32_mod
    number k h =
        word_back len mtu srcs x (k % payload_count / mtu) (k % payload_count % mtu) k small
          some_srcs numbers fits h (mod-lt (k % payload_count) (positive mtu whole))
          (div-add-mod' (k % payload_count) mtu)
          (rounds (k / payload_count) (k % payload_count / mtu) (message k h) (part k))
