-- ===== src/Host/Setup/Tests.antt =====
-- Three ranks; the last one connects first.
use inc_emulation.Base.{◌≡◌, refl, arith, none, List, [], ◌∷◌, ◌++◌, map}
use inc_emulation.Session.{le_bytes}
use inc_emulation.Host.Setup.{
  Ranks, Accepting, accept_ranks, accept_rank, save_rank, own_rank, exchange_info,
}
use inc_emulation.Host.Setup.Arrived.{Arrival, arriving, AreKept, accept_ranks-any_order}

abbrev arrivals : List Arrival
arrivals = record { rankfd = 5; rank = 2; ip = 42 } ∷ record { rankfd = 6; rank = 1; ip = 41 } ∷ []

accept_ranks-any_order_example :
    (ranks : Ranks) × (accept_ranks 3 1 (map arriving arrivals ++ (none ∷ [])) (own_rank 40 [])
      ≡ Accepting.ended ranks)
    × AreKept ranks arrivals
    × (ranks.group_ip_list 0 ≡ 40)
accept_ranks-any_order_example =
    accept_ranks-any_order 3 40 [] arrivals (none ∷ []) (omega arith) refl (
      omega arith,
      omega arith,
      omega arith,
      ((λ e. omega (arith, e)), tt),
      (omega arith, omega arith, omega arith, tt, tt),
    )

-- A rank outside of the group is written behind the arrays.
accept_ranks-outside :
    accept_ranks 2 1 (map arriving (record { rankfd = 5; rank = 2; ip = 42 } ∷ [])) (own_rank 40 [])
    ≡ Accepting.outside
unfolding accept_ranks accept_rank save_rank exchange_info own_rank le_bytes
accept_ranks-outside = refl

-- Before the other ranks have come, the loop waits.
accept_ranks-waiting : accept_ranks 3 1 [] (own_rank 40 []) ≡ Accepting.waiting (own_rank 40 [])
unfolding accept_ranks
accept_ranks-waiting = refl
