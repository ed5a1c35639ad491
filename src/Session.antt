-- ===== src/Session.antt =====
-- repository/src/controller.cpp, `group_session`: how the controller serves rank 0. A request is one
-- byte and what follows it; a number comes as the four bytes that it has in memory, least significant
-- first. The switches are the one of the topology, and what is sent to it and to rank 0 is on two
-- sockets of Link. `none` is a NULL group, a negative number of ranks, a word behind the block of an
-- array, and what calculate_route leaves undefined.
pub mod Served
pub mod Requests
pub mod TwoRanks
mod Outside
mod Connected
mod Tests
use inc_emulation.Base.{
  ℕ, zero, suc, ◌+◌, ◌*◌, ◌/◌, ◌%◌, ◌^◌, Bool, true, false, ltb, ◌==◌, if◌then◌else◌, ℤ, pos,
  negsuc, Option, none, some, List, [], ◌∷◌, ◌++◌, ◌>>=◌, length, rest_from, update,
}
use inc_emulation.External.{Text, External}
use inc_emulation.Controller.{ConnectionConfig}
use inc_emulation.Controller.Route.{
  SwitchInfo, Group, Communicator, new_group, new_communicator, calculate_route,
}
use inc_emulation.Controller.Encode.{generate_yaml_for_switch}
use inc_emulation.Topology.{generate_yaml}
use inc_emulation.Link.{Incoming, recv, Socket, send, send_yaml_to_switch}
use inc_emulation.Transfer.{send_file_with_length}

-- A word in memory, and the word that bytes stand for
unfoldable pub le_bytes : ℕ → Text
le_bytes w = w % 256 ∷ w / 256 % 256 ∷ w / 2 ^ 16 % 256 ∷ w / 2 ^ 24 % 256 ∷ []

abbrev pub le_number : Text → ℕ
le_number (a ∷ b ∷ c ∷ d ∷ _) = a + b * 256 + c * 2 ^ 16 + d * 2 ^ 24
le_number _ = 0

-- `recv(client_fd, &word, 4, MSG_WAITALL)`: the bytes that come replace the first of `old`.
unfoldable pub recv_word : (old : ℕ) → Incoming → ℕ × Incoming
recv_word old s =
    let (came, s') = recv 4 s in (le_number (came ++ rest_from (length came) (le_bytes old)), s')

-- The loop over the places i, i + 1, ... of an array, n of them; `none` where it comes to a place
-- behind the block
unfoldable pub recv_words : (room n i : ℕ) → (ℕ → ℕ) → Incoming → Option ((ℕ → ℕ) × Incoming)
recv_words room zero i list s = some (list, s)
recv_words room (suc n) i list s =
    let (word, s') = recv_word (list i) s in
    elim (ltb i room) [ true ↦ recv_words room n (i + 1) (update list i word) s' | false ↦ none ]

-- The variables of the session, the counters of the two classes, the topology with the two sockets, and
-- the file /root/topology.yaml
pub record State : Type 0 where
  pub group : Option Group
  pub world_size : ℕ
  pub comms : List Communicator
  pub group_num : ℕ
  pub communicator_num : ℕ
  pub info : SwitchInfo
  pub switch : Socket
  pub client : Socket
  pub file : Option Text

-- What a fresh array or struct holds, and for how many words the block of `new uint32_t(n)` has room.
-- The expression asks for one word, with the value n; how much more the allocator's blocks hold, for
-- their alignment, is not in the source.
pub record Memory : Type 0 where
  pub room : ℕ
  pub words : ℕ → ℕ
  pub conn : ConnectionConfig

-- Request 'G', once the number of ranks has come
unfoldable pub read_group : Memory → State → ℕ × Incoming → Option (State × Incoming)
read_group memory st (world_size, s') = do
  let group = new_group st.group_num world_size memory.words
  received ←
      (if ltb world_size (2 ^ 31)
        then recv_words memory.room world_size 0 group.ip_list s'
        else none)
  some (
    record st {
      group = some (record group { ip_list = received.0 });
      world_size = world_size;
      group_num = group.id;
      client = (send st.client (le_bytes group.id)).1;
    },
    received.1,
  )

unfoldable pub create_group : Memory → State → Incoming → Option (State × Incoming)
create_group memory st s = read_group memory st (recv_word st.world_size s)

-- A text that is not empty, to a switch that is connected
abbrev pub send_to_switch : ℤ → Text → Socket → Socket
send_to_switch (negsuc _) yaml_content s = s
send_to_switch (pos fd) [] s = s
send_to_switch (pos fd) (c ∷ cs) s = (send_yaml_to_switch s (c ∷ cs)).1

module _ (x : External) where
  -- What follows the route: the file, the switch's document, and the file to rank 0
  abbrev pub distribute : State → Communicator → State
  distribute st comm = record st {
    comms = st.comms ++ (comm ∷ []);
    communicator_num = comm.id;
    switch = send_to_switch st.info.fd (generate_yaml_for_switch x comm (pos 0)) st.switch;
    file = some (generate_yaml x comm);
    client = (send_file_with_length st.client (some (generate_yaml x comm))).1;
  }

  -- Request 'C'
  unfoldable pub create_communicator : Memory → State → Incoming → Option (State × Incoming)
  create_communicator memory st s = do
    group ← st.group
    let comm = new_communicator st.communicator_num group memory.words
    received ← recv_words memory.room st.world_size 0 comm.qp_list s
    routed ← calculate_route x memory.conn st.info (record comm { qp_list = received.0 })
    some (distribute st routed, received.1)

  abbrev pub handle_request : Memory → (req_type : ℕ) → State → Incoming → Option (State × Incoming)
  handle_request memory req_type st s =
      if req_type == 71
      then create_group memory st s
      else if req_type == 67
      then create_communicator memory st s
      else some (st, s)

  -- The loop, for at most n requests; it ends when the connection does.
  unfoldable pub group_session : (n : ℕ) → Memory → State → Incoming → Option (State × Incoming)
  group_session zero memory st s = some (st, s)
  group_session (suc n) memory st s =
      let (came, s') = recv 1 s in
      elim came [
        | [] ↦ some (st, s)
        | req_type ∷ _ ↦ handle_request memory req_type st s' >>= λ next.
            group_session n memory (next.0) (next.1)
      ]
