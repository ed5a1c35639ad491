-- ===== src/Switch/Aggregate/Allreduce.antt =====
-- repository/termination_switch/src/switch_main.c: an AllReduce on the root, from the first
-- contribution of a PSN to the frames with the sums.
use mathlib.Core.List.{Permᴰ}
use inc_emulation.Base.{
  ℕ, ◌+◌, ◌%◌, ◌<◌, ◌≡◌, ◌≢◌, refl, ap, ◌∙◌, arith, true, some, List, [], ◌∷◌, u32_mod, bswap32,
  length,
}
use inc_emulation.Rule.{Rule, allreduce}
use inc_emulation.Switch.State.{Context, Sent, slot}
use inc_emulation.Switch.Send.Gapless.{Fits, targets, Carry, AllBelow}
use inc_emulation.Switch.Aggregate.Sum.{
  Contribution, aggregate_all, sum_host, AreWords, Summed, collect,
}

pub sum_host-Permᴰ :
    (i : ℕ) (cs ds : List Contribution) → Permᴰ cs ds → sum_host cs i ≡ sum_host ds i
unfolding sum_host
sum_host-Permᴰ i _ _ Permᴰ.nil = refl
sum_host-Permᴰ i _ _ (Permᴰ.cons {l₁ = l} {l₂ = l'} e p) =
    omega (arith, ap (λ c. bswap32 (c.payload i)) e, sum_host-Permᴰ i l l' p)
sum_host-Permᴰ i _ _ (Permᴰ.swap e e') =
    omega (arith, ap (λ c. bswap32 (c.payload i)) e, ap (λ c. bswap32 (c.payload i)) e')
sum_host-Permᴰ i _ _ (Permᴰ.trans p q) = sum_host-Permᴰ i _ _ p ∙ sum_host-Permᴰ i _ _ q

free-Summed :
    (ctx : Context) (rule : Rule) (psn len : ℕ) (fits : Fits len) (cs : List Contribution)
    → (slot ctx psn).degree ≡ 0
    → cs ≢ []
    → length cs ≡ ctx.fan_in
    → ctx.operation_type ≡ allreduce
    → ctx.is_root ≡ true
    → AllBelow ctx.fan_in rule.out_conns
    → AreWords len cs
    → Summed rule psn len fits (aggregate_all ctx rule psn len cs) (λ i. 0 + sum_host cs i)
free-Summed ctx rule psn len fits [] free some_cs full op is_root below words =
    absurd (some_cs refl)
free-Summed ctx rule psn len fits (c ∷ cs) free some_cs full op is_root below words =
    collect rule psn len fits ctx 0 (λ _. 0) c cs
      (record { count = free; empty = λ _ _. refl; sums = λ e. absurd (e refl) })
      (omega (arith, full)) op is_root below words

-- When the packets of all connections for one PSN have come in, in any order, an AllReduce switch at
-- the root has sent one frame to each connection of the rule, in the rule's order. The word i of every
-- frame is, read in host order, the sum of the hosts' numbers i modulo 2 ^ 32. The slot of the PSN
-- is free again. The slot must be free before, the payload must fit the frame buffer, its words have
-- 32 bits, and the rule's connections exist.
pub aggregate_all_allreduce :
    (ctx : Context) (rule : Rule) (psn len : ℕ) (hosts arrived : List Contribution)
    → Permᴰ arrived hosts
    → arrived ≢ []
    → length arrived ≡ ctx.fan_in
    → AreWords len arrived
    → Fits len
    → AllBelow ctx.fan_in rule.out_conns
    → (slot ctx psn).degree ≡ 0
    → ctx.operation_type ≡ allreduce
    → ctx.is_root ≡ true
    → (last : Context) × (sent : List Sent) × (words : ℕ → ℕ) × (aggregate_all ctx rule psn len
          arrived
        ≡ some (last, sent))
      × (targets sent ≡ rule.out_conns)
      × Carry len words sent
      × ((i : ℕ) → i < len → bswap32 (words i) ≡ sum_host hosts i % u32_mod)
      × ((slot last psn).degree ≡ 0)
aggregate_all_allreduce ctx rule psn len hosts arrived order some_cs full words fits below free op
      is_root =
    (
      r.last,
      r.sent,
      r.words,
      r.outcome,
      r.reached,
      r.carried,
      λ i k. omega (arith, r.added i k, sum_host-Permᴰ i arrived hosts order),
      r.freed,
    )
  where
    r :
        Summed rule psn len fits
          (aggregate_all ctx rule psn len arrived)
          (λ i. 0 + sum_host arrived i)
    r = free-Summed ctx rule psn len fits arrived free some_cs full op is_root below words
