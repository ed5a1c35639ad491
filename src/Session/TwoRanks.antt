-- ===== src/Session/TwoRanks.antt =====
-- repository/src/api.c and repository/src/controller.cpp together: what rank 0 sends for a group of two
-- and a communicator, and what the controller makes of it.
use inc_emulation.Base.{
  ℕ, zero, suc, ◌+◌, ◌^◌, ◌≤◌, ◌<◌, ◌≡◌, refl, sym, ap, ◌∙◌, arith, ℤ, pos, none, some, List, [],
  ◌∷◌, ◌++◌, append-nil, ◌>>=◌, u32_mod,
}
use inc_emulation.External.{External}
use inc_emulation.Controller.{SwitchConfig}
use inc_emulation.Controller.Route.{SwitchPort, Communicator, new_communicator, calculate_route}
use inc_emulation.Config.TwoHosts.{two_hosts}
use inc_emulation.Config.Deployed.{calculate_route-two_ranks}
use inc_emulation.Controller.Encode.{generate_yaml_for_switch}
use inc_emulation.Topology.{generate_yaml}
use inc_emulation.Link.{send}
use inc_emulation.Transfer.{send_file_with_length}
use inc_emulation.Session.{
  le_bytes, State, Memory, send_to_switch, create_communicator, distribute, group_session,
}
use inc_emulation.Session.Served.{
  coming, words_bytes, made_group, create_group-coming, create_communicator-coming,
}
use inc_emulation.Host.Setup.{register_group, register_communicator}
use inc_emulation.Session.Requests.{IsOpen, group_request, communicator_request, both_requests}

module _ (x : External) where
  group_session-end :
      (k : ℕ) (memory : Memory) (st : State)
      → group_session x k memory st (coming []) ≡ some (st, coming [])
  unfolding group_session
  group_session-end zero memory st = refl
  group_session-end (suc k) memory st = refl

  -- The state after both requests
  abbrev served : State → (n : ℕ) → (ips : ℕ → ℕ) → Communicator → State
  served st n ips routed = distribute x (made_group st n ips) routed

  -- The communicator that the second request leads to, before its route
  abbrev made_communicator : Memory → State → (n : ℕ) → (ips qps : ℕ → ℕ) → Communicator
  made_communicator memory st n ips qps = record {
    group = record { id = st.group_num + 1; world_size = n; ip_list = ips };
    id = st.communicator_num + 1;
    qp_list = qps;
    switches = [];
    rank_to_conn = λ _. none;
  }

  group_session-both :
      (k n : ℕ) (memory : Memory) (st : State) (ips qps : ℕ → ℕ)
      → n < 2 ^ 31
      → n ≤ memory.room
      → ((j : ℕ) → j < n → ips j < u32_mod)
      → ((j : ℕ) → j < n → qps j < u32_mod)
      → (ips' : ℕ → ℕ) × (qps' : ℕ → ℕ) × ((j : ℕ) → j < n → ips' j ≡ ips j)
        × ((j : ℕ) → j < n → qps' j ≡ qps j)
        × ((routed : Communicator)
            → calculate_route x memory.conn st.info (made_communicator memory st n ips' qps')
              ≡ some routed
            → group_session x
                (suc (suc k))
                memory
                st
                (coming (group_request n ips ++ communicator_request n qps))
              ≡ some (served st n ips' routed, coming []))
  unfolding group_session new_communicator
  group_session-both k n memory st ips qps small fits hi hq =
      let (ips', same, made) =
        create_group-coming memory st n ips (communicator_request n qps) small fits hi in
      let st' = made_group st n ips' in
      let (qps', same', routes) =
        create_communicator-coming x memory st'
          (record { id = st.group_num + 1; world_size = n; ip_list = ips' }) qps [] refl fits hq in
      (
        ips',
        qps',
        same,
        same',
        λ routed goes.
            ap (λ o. o >>= λ next. group_session x (suc k) memory (next.0) (next.1)) made
            ∙ ap (λ o. o >>= λ next. group_session x k memory (next.0) (next.1))
                (ap (λ t. create_communicator x memory st' (coming t))
                    (sym (append-nil (words_bytes n 0 qps)))
                  ∙ routes routed goes)
            ∙ group_session-end k memory (distribute x st' routed),
      )

-- A communicator for two ranks with these addresses and QPs
pub record IsAsked (ips qps : ℕ → ℕ) (comm : Communicator) : Type 0 where
  pub two : comm.group.world_size ≡ 2
  pub addresses : (rank : ℕ) → rank < 2 → comm.group.ip_list rank ≡ ips rank
  pub numbers : (rank : ℕ) → rank < 2 → comm.qp_list rank ≡ qps rank
  pub no_switch : comm.switches ≡ []

module _ (x : External) (memory : Memory) (st : State) where
  -- What a session leaves for a communicator: its route over the switch, which goes to the switch and
  -- to rank 0
  pub record IsServed (p0 p1 : SwitchPort) (asked comm : Communicator) (st' : State) : Type 0 where
    pub switch_config : SwitchConfig
    pub group_id : asked.group.id ≡ st.group_num + 1
    pub id : asked.id ≡ st.communicator_num + 1
    pub route : calculate_route x memory.conn st.info asked ≡ some comm
    pub switches : comm.switches ≡ switch_config ∷ []
    pub connections : switch_config.connections ≡ two_hosts x memory.conn asked p0 p1
    pub comms : st'.comms ≡ st.comms ++ (comm ∷ [])
    pub file : st'.file ≡ some (generate_yaml x comm)
    pub switch :
        st'.switch ≡ send_to_switch st.info.fd (generate_yaml_for_switch x comm (pos 0)) st.switch
    pub client :
        st'.client
        ≡ (send_file_with_length
            (send st.client (le_bytes (st.group_num + 1))).1
            (some (generate_yaml x comm))).1

-- Rank 0 and the controller together: rank 0 sends the request for a group of two ranks and the one for
-- a communicator, each call of `send` taking its bytes whole. The controller, over a topology of one
-- switch with two ports and an allocator
-- whose blocks for one word have room for two, reads from these bytes exactly the two ranks' addresses and QPs, which have 32
-- bits, finds a route, and ends when the connection does. It has then kept the communicator, written
-- the topology's file, sent the switch its document, and sent rank 0 the group's number and the file. The
-- switch's connections are the two ports', with rank 0 and rank 1 behind them.
pub group_session-two_ranks :
    (x : External) (k : ℕ) (memory : Memory) (st : State) (p0 p1 : SwitchPort) (ips qps : ℕ → ℕ)
    (results : List ℤ)
    → st.info.ports ≡ p0 ∷ p1 ∷ []
    → 2 ≤ memory.room
    → IsOpen 7 results
    → ((rank : ℕ) → rank < 2 → ips rank < u32_mod)
    → ((rank : ℕ) → rank < 2 → qps rank < u32_mod)
    → (asked : Communicator) × (comm : Communicator) × (st' : State) × (group_session x
          (suc (suc k))
          memory
          st
          (coming
            (register_communicator 2 qps
              (register_group 2 ips (record { results = results; wire = [] }))).wire)
        ≡ some (st', coming []))
      × IsAsked ips qps asked
      × IsServed x memory st p0 p1 asked comm st'
group_session-two_ranks x k memory st p0 p1 ips qps results ports room h hi hq =
    let (ips', qps', same, same', goes) =
      group_session-both x k 2 memory st ips qps (omega arith) room hi hq in
    let asked = made_communicator x memory st 2 ips' qps' in
    let (comm, sw, route, switches, _, _, conns, _) =
      calculate_route-two_ranks x memory.conn st.info p0 p1 asked ports refl refl in
    (
      asked,
      comm,
      served x st 2 ips' comm,
      ap (λ t. group_session x (suc (suc k)) memory st (coming t))
            (both_requests 2 ips qps results h)
          ∙ goes comm route,
      record { two = refl; addresses = same; numbers = same'; no_switch = refl },
      record {
        switch_config = sw;
        group_id = refl;
        id = refl;
        route = route;
        switches = switches;
        connections = conns;
        comms = refl;
        file = refl;
        switch = refl;
        client = refl;
      },
    )
