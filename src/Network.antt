-- ===== src/Network.antt =====
-- Hosts and a switch together: repository/src/api.c prepares the messages and takes the results,
-- repository/termination_switch/src/switch_main.c adds the frames up. Between the two stand the
-- network cards: a card cuts a message into frames of the path's MTU, `mtu` words each and `parts` of
-- them, and puts the frames that come back together again.
pub mod Allreduce
mod Tests
use mathlib.Core.List.{Permᴰ}
use inc_emulation.Base.{ℕ, zero, suc, ◌+◌, ◌*◌, ◌<◌, ◌≡◌, ◌⊎◌, true, some, List, [], ◌∷◌, length}
use inc_emulation.Rule.{Rule, allreduce}
use inc_emulation.Host.Allreduce.{prepared}
use inc_emulation.Switch.State.{Context, Sent, slot}
use inc_emulation.Switch.Send.Gapless.{AllBelow}
use inc_emulation.Switch.Aggregate.Sum.{Contribution, aggregate_all}

-- The sum of what the hosts have at one place of their arrays
abbrev pub sum_sources : List (ℕ → ℕ) → ℕ → ℕ
sum_sources [] k = 0
sum_sources (src ∷ srcs) k = src k + sum_sources srcs k

-- One packet of each host, with the part p of its message i
abbrev pub AreParts : (len mtu i p : ℕ) → List (ℕ → ℕ) → List Contribution → Type 0
AreParts len mtu i p [] [] = Unit {0}
AreParts len mtu i p (src ∷ srcs) (c ∷ cs) =
    ((j : ℕ) → j < mtu → c.payload j ≡ prepared src len i (p * mtu + j))
    × AreParts len mtu i p srcs cs
AreParts len mtu i p _ _ = ⊥

abbrev pub IsAmong : Sent → List Sent → Type 0
IsAmong s [] = ⊥
IsAmong s (t ∷ ts) = (t ≡ s) ⊎ IsAmong s ts

-- What becomes of the part p of the message i: the packets of the hosts come to the root in some order,
-- under a PSN whose slot is free, and of the frames that the switch sends one comes back as that part of
-- the received message, whose words are `x i`.
pub record Round (len mtu : ℕ) (srcs : List (ℕ → ℕ)) (x : ℕ → ℕ → ℕ) (i p : ℕ) : Type 0 where
  pub ctx : Context
  pub rule : Rule
  pub psn : ℕ
  pub hosts : List Contribution
  pub arrived : List Contribution
  pub last : Context
  pub sent : List Sent
  pub frame : Sent
  pub parts : AreParts len mtu i p srcs hosts
  pub order : Permᴰ arrived hosts
  pub full : length arrived ≡ ctx.fan_in
  pub below : AllBelow ctx.fan_in rule.out_conns
  pub free : (slot ctx psn).degree ≡ 0
  pub op : ctx.operation_type ≡ allreduce
  pub is_root : ctx.is_root ≡ true
  pub outcome : aggregate_all ctx rule psn mtu arrived ≡ some (last, sent)
  pub is_sent : IsAmong frame sent
  pub comes_back : (j : ℕ) → j < mtu → x i (p * mtu + j) ≡ frame.frame.body j
