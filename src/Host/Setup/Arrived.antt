-- ===== src/Host/Setup/Arrived.antt =====
-- repository/src/api.c, `inccl_group_create`: the ranks, in whatever order they connect to rank 0.
use inc_emulation.Base.{
  ℕ, ◌+◌, ◌<◌, ◌^◌, ◌≡◌, ◌≢◌, refl, ap, ◌∙◌, arith, ltb, if◌then◌else◌, pos, Option, none, some,
  List, [], ◌∷◌, ◌++◌, map, length, rest_from, update, u32_mod,
}
use inc_emulation.External.{Text}
use inc_emulation.Link.{Incoming}
use inc_emulation.Session.{le_bytes, le_number}
use inc_emulation.Session.Served.{coming}
use inc_emulation.Host.Setup.{
  exchange_info, Ranks, Accepting, save_rank, accept_rank, accept_ranks, own_rank,
}

-- A rank that connects
pub record Arrival : Type 0 where
  pub rankfd : ℕ
  pub rank : ℕ
  pub ip : ℕ

-- Its connection, with what it sends
abbrev pub arriving : Arrival → Option (ℕ × Incoming)
arriving a = some (a.rankfd, coming (exchange_info a.rank a.ip))

-- A rank that is none of these
abbrev pub IsNew : ℕ → List Arrival → Type 0
IsNew rank [] = Unit {0}
IsNew rank (a ∷ rest) = (rank ≢ a.rank) × IsNew rank rest

-- Different ranks of the group, none of them 0, with addresses of 32 bits
abbrev pub AreRanks : (world_size : ℕ) → List Arrival → Type 0
AreRanks world_size [] = Unit {0}
AreRanks world_size (a ∷ rest) =
    (0 < a.rank)
    × (a.rank < world_size)
    × (a.ip < u32_mod)
    × IsNew a.rank rest
    × AreRanks world_size rest

-- What is kept of each
abbrev pub AreKept : Ranks → List Arrival → Type 0
AreKept ranks [] = Unit {0}
AreKept ranks (a ∷ rest) =
    (ranks.group_fd_list a.rank ≡ pos a.rankfd)
    × (ranks.group_ip_list a.rank ≡ a.ip)
    × AreKept ranks rest

abbrev saved : Arrival → Ranks → Ranks
saved a ranks = record {
  group_fd_list = update ranks.group_fd_list a.rank (pos a.rankfd);
  group_ip_list = update ranks.group_ip_list a.rank a.ip;
  info_buf = exchange_info a.rank a.ip ++ rest_from 8 ranks.info_buf;
}

accept_rank-arriving :
    (world_size : ℕ) (a : Arrival) (ranks : Ranks)
    → world_size < 2 ^ 31
    → a.rank < world_size
    → a.ip < u32_mod
    → accept_rank world_size (arriving a) ranks ≡ some (saved a ranks)
unfolding accept_rank save_rank exchange_info le_bytes
accept_rank-arriving world_size a ranks n r i =
    ap (λ rank. if ltb rank world_size then some (placed rank (number (a.ip))) else none)
      (number_lem a.rank (omega (arith, n, r)))
    ∙ ap (λ ip. if ltb a.rank world_size then some (placed a.rank ip) else none) (number_lem a.ip i)
    ∙ ground (arith, r)
  where
    placed : ℕ → ℕ → Ranks
    placed rank ip = record {
      group_fd_list = update ranks.group_fd_list rank (pos a.rankfd);
      group_ip_list = update ranks.group_ip_list rank ip;
      info_buf = exchange_info a.rank a.ip ++ rest_from 8 ranks.info_buf;
    }

    number : ℕ → ℕ
    number w = le_number (le_bytes w)

    number_lem : (w : ℕ) → w < u32_mod → number w ≡ w
    number_lem w h = omega (arith, h)

-- A round inside of the loop's bound
accept_ranks-round :
    (world_size i : ℕ) (arrival : Option (ℕ × Incoming)) (arrivals : List (Option (ℕ × Incoming)))
    (ranks ranks' : Ranks)
    → i < world_size
    → accept_rank world_size arrival ranks ≡ some ranks'
    → accept_ranks world_size i (arrival ∷ arrivals) ranks
      ≡ accept_ranks world_size (i + 1) arrivals ranks'
unfolding accept_ranks
accept_ranks-round world_size i arrival arrivals ranks ranks' lt e = ground (arith, lt, e)

accept_ranks-end :
    (world_size : ℕ) (later : List (Option (ℕ × Incoming))) (ranks : Ranks)
    → accept_ranks world_size world_size later ranks ≡ Accepting.ended ranks
unfolding accept_ranks
accept_ranks-end world_size [] ranks = ground arith
accept_ranks-end world_size (arrival ∷ later) ranks = ground arith

-- The loop leaves alone the places of ranks that do not come, and the connections that come later.
record Kept (world_size i : ℕ) (ranks : Ranks) (arrivals : List Arrival)
    (later : List (Option (ℕ × Incoming))) : Type 0 where
  pub after : Ranks
  pub goes :
      accept_ranks world_size i (map arriving arrivals ++ later) ranks ≡ Accepting.ended after
  pub kept : AreKept after arrivals
  pub others :
      (rank : ℕ)
      → IsNew rank arrivals
      → (after.group_fd_list rank ≡ ranks.group_fd_list rank)
        × (after.group_ip_list rank ≡ ranks.group_ip_list rank)

accept_ranks-Kept :
    (world_size i : ℕ) (ranks : Ranks) (arrivals : List Arrival)
    (later : List (Option (ℕ × Incoming)))
    → world_size < 2 ^ 31
    → i + length arrivals ≡ world_size
    → AreRanks world_size arrivals
    → Kept world_size i ranks arrivals later
accept_ranks-Kept world_size i ranks [] later n all h = record {
  after = ranks;
  goes =
      ap (λ j. accept_ranks world_size j later ranks) (omega (arith, all))
      ∙ accept_ranks-end world_size later ranks;
  kept = tt;
  others = λ rank new. (refl, refl);
}
accept_ranks-Kept world_size i ranks (a ∷ rest) later n all (_, small, ip, new, h) =
    let k =
      accept_ranks-Kept world_size (i + 1) (saved a ranks) rest later n (omega (arith, all)) h in
    let (fd, address) = k.others a.rank new in
    record {
      after = k.after;
      goes =
          accept_ranks-round world_size i (arriving a) (map arriving rest ++ later) ranks
            (saved a ranks) (omega (arith, all))
            (accept_rank-arriving world_size a ranks n small ip)
          ∙ k.goes;
      kept = (fd ∙ ground arith, address ∙ ground arith, k.kept);
      others = λ rank (d, new').
          let (fd', address') = k.others rank new' in
          (fd' ∙ ground (arith, d), address' ∙ ground (arith, d));
    }

-- Whatever the order in which the other ranks of the group connect to rank 0, its loop ends once all of
-- them have, with each one's connection and address in the place of its rank, and with its own address
-- in place 0, and it accepts none of the connections that come later. The group has fewer than 2 ^ 31 ranks; those that
-- connect are different, as many as the group has besides rank 0, none is 0 or outside of the group,
-- each sends its number and its address, which has 32 bits, and their calls of `accept` succeed.
pub accept_ranks-any_order :
    (world_size own_ip : ℕ) (memory : Text) (arrivals : List Arrival)
    (later : List (Option (ℕ × Incoming)))
    → world_size < 2 ^ 31
    → 1 + length arrivals ≡ world_size
    → AreRanks world_size arrivals
    → (ranks : Ranks) × (accept_ranks world_size 1
          (map arriving arrivals ++ later)
          (own_rank own_ip memory)
        ≡ Accepting.ended ranks)
      × AreKept ranks arrivals
      × (ranks.group_ip_list 0 ≡ own_ip)
unfolding own_rank
accept_ranks-any_order world_size own_ip memory arrivals later n all h =
    let k = accept_ranks-Kept world_size 1 (own_rank own_ip memory) arrivals later n all h in
    (k.after, k.goes, k.kept, (k.others 0 (zero_new arrivals h)).1 ∙ ground arith)
  where
    zero_new : (arrivals : List Arrival) → AreRanks world_size arrivals → IsNew 0 arrivals
    zero_new [] h = tt
    zero_new (a ∷ rest) (p, _, _, _, h) = (λ e. omega (arith, e, p), zero_new rest h)
