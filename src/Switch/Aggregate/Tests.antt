-- ===== src/Switch/Aggregate/Tests.antt =====
-- An AllReduce of two hosts.
use mathlib.Core.List.{Permᴰ}
use inc_emulation.Base.{
  pos, ℕ, ◌+◌, ◌%◌, ◌<◌, ◌≡◌, refl, arith, some, List, [], ◌∷◌, bswap32, bswap32-lt, u32_mod,
}
use inc_emulation.Switch.State.{Context, Sent, slot}
use inc_emulation.Switch.Context.{init_psn_state}
use inc_emulation.Switch.Send.Gapless.{targets, Carry}
use inc_emulation.Switch.Aggregate.Sum.{Contribution, aggregate_all, sum_host, AreWords}
use inc_emulation.Switch.Aggregate.Allreduce.{aggregate_all_allreduce}
use inc_emulation.Switch.Aggregate.Reduced.{aggregate_all_reduce}
use inc_emulation.Rule.{reduce}
use inc_emulation.Switch.Examples.{two_hosts, host_rule, counting}

abbrev from_host : ℕ → Contribution
from_host c = record { conn_id = c; payload = counting; packet_type = 4 }

abbrev late_first : List Contribution
late_first = from_host 1 ∷ from_host 0 ∷ []

both_sums : sum_host late_first 0 ≡ 14
unfolding sum_host bswap32
both_sums = refl

aggregate_all_allreduce_example :
    (last : Context) × (sent : List Sent) × (words : ℕ → ℕ) × (aggregate_all two_hosts
        (host_rule 0)
        0
        4
        late_first
      ≡ some (last, sent))
    × (targets sent ≡ 0 ∷ 1 ∷ [])
    × Carry 4 words sent
    × ((i : ℕ) → i < 4 → bswap32 (words i) ≡ sum_host (from_host 0 ∷ from_host 1 ∷ []) i % u32_mod)
    × ((slot last 0).degree ≡ 0)
unfolding init_psn_state
aggregate_all_allreduce_example =
    aggregate_all_allreduce two_hosts (host_rule 0) 0 4 (from_host 0 ∷ from_host 1 ∷ []) late_first
      (Permᴰ.swap refl refl) (λ e. absurd (ground (arith, e))) refl words (omega arith)
      (omega arith, (omega arith, tt)) refl refl refl
  where
    words : AreWords 4 late_first
    words = (λ i _. bswap32-lt (i + 7), (λ i _. bswap32-lt (i + 7), tt))

abbrev reducing : Context
reducing = record two_hosts { operation_type = reduce; root_rank = pos 1 }

aggregate_all_reduce_example :
    (last : Context) × (sent : List Sent) × (words : ℕ → ℕ) × (aggregate_all reducing
        (host_rule 0)
        0
        4
        late_first
      ≡ some (last, sent))
    × (targets sent ≡ 1 ∷ [])
    × Carry 4 words sent
    × ((i : ℕ) → i < 4 → bswap32 (words i) ≡ sum_host (from_host 0 ∷ from_host 1 ∷ []) i % u32_mod)
    × ((slot last 0).degree ≡ 0)
unfolding init_psn_state
aggregate_all_reduce_example =
    aggregate_all_reduce reducing (host_rule 0) 0 4 1 1 (from_host 0 ∷ from_host 1 ∷ []) late_first
      (Permᴰ.swap refl refl) (λ e. absurd (ground (arith, e))) refl
      (λ i _. bswap32-lt (i + 7), (λ i _. bswap32-lt (i + 7), tt)) (omega arith) refl refl refl refl
      (omega arith) refl (omega arith)
