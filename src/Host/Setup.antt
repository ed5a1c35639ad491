-- ===== src/Host/Setup.antt =====
-- repository/src/api.c, `inccl_group_create` and `inccl_communicator_create`: how rank 0 learns of the
-- other ranks, and what it sends to the controller. What `accept` returns, and what comes over the
-- connections that it makes, are arguments.
pub mod Arrived
mod Tests
use inc_emulation.Base.{
  ℕ, zero, suc, ◌+◌, true, false, ltb, if◌then◌else◌, ℤ, pos, Option, none, some, List, [], ◌∷◌,
  ◌++◌, length, rest_from, update,
}
use inc_emulation.External.{Text}
use inc_emulation.Link.{Incoming, recv, Socket, send}
use inc_emulation.Session.{le_bytes, le_number}

-- `inccl_rank_exchange_info` of a rank that is not 0, as it has it in memory and sends it
unfoldable pub exchange_info : (rank ip : ℕ) → Text
exchange_info rank ip = le_bytes rank ++ le_bytes ip

-- What rank 0 has of the others, and the eight bytes of `info_buf`
pub record Ranks : Type 0 where
  pub group_fd_list : ℕ → ℤ
  pub group_ip_list : ℕ → ℕ
  pub info_buf : Text

-- A rank's number, its address and its connection into the two arrays; `none` where the number is
-- outside of them
unfoldable pub save_rank : (world_size : ℕ) → (rankfd : ℕ) → Ranks → Option Ranks
save_rank world_size rankfd ranks =
    let rank = le_number ranks.info_buf in
    let ip = le_number (rest_from 4 ranks.info_buf) in
    if ltb rank world_size
    then some (record ranks {
      group_fd_list = update ranks.group_fd_list rank (pos rankfd);
      group_ip_list = update ranks.group_ip_list rank ip;
    })
    else none

-- One round: the bytes that come replace the first of `info_buf`; a call of `accept` that fails
-- changes nothing.
unfoldable pub accept_rank : (world_size : ℕ) → Option (ℕ × Incoming) → Ranks → Option Ranks
accept_rank world_size none ranks = some ranks
accept_rank world_size (some (rankfd, s)) ranks =
    let came = (recv 8 s).0 in
    save_rank world_size rankfd
      (record ranks { info_buf = came ++ rest_from (length came) ranks.info_buf })

-- How the loop goes: to its end, or to a call of `accept` for which no connection has come and which
-- waits, or outside of the arrays
pub data Accepting : Type 0 where
  ended : Ranks → Accepting
  waiting : Ranks → Accepting
  outside : Accepting

-- The loop from the round i on, with what `accept` returns in its rounds
unfoldable pub accept_ranks : (world_size i : ℕ) → List (Option (ℕ × Incoming)) → Ranks → Accepting
accept_ranks world_size i [] ranks =
    if ltb i world_size then Accepting.waiting ranks else Accepting.ended ranks
accept_ranks world_size i (arrival ∷ arrivals) ranks = elim (ltb i world_size) [
  | true ↦ elim (accept_rank world_size arrival ranks) [
    | none ↦ Accepting.outside
    | some ranks' ↦ accept_ranks world_size (i + 1) arrivals ranks'
  ]
  | false ↦ Accepting.ended ranks
]

-- Before the loop: zeros, and the own address in the place of rank 0
unfoldable pub own_rank : (ip : ℕ) → (memory : Text) → Ranks
own_rank ip memory = record {
  group_fd_list = λ _. pos 0;
  group_ip_list = update (λ _. 0) 0 ip;
  info_buf = memory;
}

-- The loop that sends n words of an array, from the place i on
unfoldable pub send_words : (n i : ℕ) → (ℕ → ℕ) → Socket → Socket
send_words zero i list s = s
send_words (suc n) i list s = send_words n (i + 1) list (send s (le_bytes (list i))).1

-- What rank 0 sends to the controller for a group and for a communicator
unfoldable pub register_group : (world_size : ℕ) → (group_ip_list : ℕ → ℕ) → Socket → Socket
register_group world_size group_ip_list s =
    send_words world_size 0 group_ip_list (send (send s (71 ∷ [])).1 (le_bytes world_size)).1

unfoldable pub register_communicator :
    (world_size : ℕ) → (group_qp_num_list : ℕ → ℕ) → Socket → Socket
register_communicator world_size group_qp_num_list s =
    send_words world_size 0 group_qp_num_list (send s (67 ∷ [])).1
