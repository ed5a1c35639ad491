-- ===== src/Session/Connected.antt =====
-- repository/src/controller.cpp, repository/src/util.c and repository/src/topo_parser.cpp together: from
-- rank 0's requests to the place that each rank finds in the file that comes back.
use mathlib.Core.List.{append_cancel_left}
use mathlib.Core.Path.{subst}
use inc_emulation.Base.{
  ℕ, zero, suc, ◌+◌, ◌≤◌, ◌<◌, ◌≡◌, sym, ap, ◌∙◌, arith, true, ℤ, pos, some, List, [], ◌∷◌, ◌++◌,
  length, first-all, append-nil, u32_mod,
}
use inc_emulation.External.{Text, External}
use inc_emulation.Controller.{ConnectionConfig, SwitchConfig, get_elem?}
use inc_emulation.Controller.Route.{SwitchPort, Communicator}
use inc_emulation.Config.TwoHosts.{two_hosts}
use inc_emulation.Topology.{topology_document, generate_yaml, get_ip, get_switch_info}
use inc_emulation.Topology.Found.{
  all_connections, find_peer, AllQps, places, get_switch_info-generate_yaml,
}
use inc_emulation.Transfer.{receive_file, send_file_with_length}
use inc_emulation.Transfer.Sent.{AllSend}
use inc_emulation.Transfer.Came.{AllTake}
use inc_emulation.Transfer.Whole.{receive_file-send_file_with_length}
use inc_emulation.Config.{Status}
use inc_emulation.Link.{Incoming, Socket, send}
use inc_emulation.Session.{le_bytes, recv_word, State, Memory, group_session}
use inc_emulation.Session.Served.{coming, recv_word-le_bytes}
use inc_emulation.Session.Requests.{IsOpen, length-le_bytes}
use inc_emulation.Session.TwoRanks.{group_session-two_ranks}
use inc_emulation.Host.Setup.{register_group, register_communicator}

module _ (x : External) (raw : ConnectionConfig) (asked : Communicator) (p0 p1 : SwitchPort) where
  two_hosts-AllQps : asked.id + 2 < u32_mod → AllQps (two_hosts x raw asked p0 p1 ++ [])
  two_hosts-AllQps h = (omega (arith, h), (omega (arith, h), tt))

  two_hosts-place :
      (rank : ℕ) (port : SwitchPort)
      → rank < 2
      → get_elem? (p0 ∷ p1 ∷ []) rank ≡ some port
      → places x (find_peer (two_hosts x raw asked p0 p1 ++ []) rank)
        ≡ some (get_ip x port.ip, asked.id + rank)
  two_hosts-place zero port small e = cc e
  two_hosts-place (suc zero) port small e = cc e
  two_hosts-place (suc (suc _)) port small e = absurd (omega (arith, small))

  -- What a rank finds in the file of a communicator for these two hosts
  file-place :
      (comm : Communicator) (sw : SwitchConfig) (rank : ℕ) (port : SwitchPort)
      → comm.switches ≡ sw ∷ []
      → sw.connections ≡ two_hosts x raw asked p0 p1
      → asked.id + 2 < u32_mod
      → x.load (generate_yaml x comm)
        ≡ some (topology_document x comm.group.world_size comm.switches)
      → rank < 2
      → get_elem? (p0 ∷ p1 ∷ []) rank ≡ some port
      → get_switch_info x (generate_yaml x comm) rank
        ≡ some (some (get_ip x port.ip, asked.id + rank))
  file-place comm sw rank port one conns small read h e =
      let same : all_connections comm.switches ≡ two_hosts x raw asked p0 p1 ++ [] =
        ap all_connections one ∙ ap (λ cs. cs ++ []) conns in
      get_switch_info-generate_yaml x comm rank read
        (subst AllQps (sym same) (two_hosts-AllQps small))
      ∙ ap (λ cs. some (places x (find_peer cs rank))) same
      ∙ ap some (two_hosts-place rank port h e)

inner {ℓ} : {A : Type ℓ} {a b : A} → some a ≡ some b → a ≡ b
inner e = cc e

same_end :
    (front : List Communicator) (c d : Communicator) → front ++ (c ∷ []) ≡ front ++ (d ∷ []) → c ≡ d
same_end front c d e = head_of (append_cancel_left front (c ∷ []) (d ∷ []) e)
  where
    head_of : c ∷ [] ≡ d ∷ [] → c ≡ d
    head_of e = cc e

-- The number of the group goes out first.
sent_id :
    (client : Socket) (id k : ℕ) (results : List ℤ)
    → client ≡ record { results = pos k ∷ results; wire = [] }
    → 4 ≤ k
    → (send client (le_bytes id)).1 ≡ record { results = results; wire = le_bytes id }
unfolding send
sent_id client id k results e h =
    ap (λ (s : Socket). (send s (le_bytes id)).1) e
    ∙ ap (λ w. record { results = results; wire = w }) (first-all k (le_bytes id) (four h))
  where
    four : 4 ≤ k → length (le_bytes id) ≤ k
    four h = omega (arith, h, length-le_bytes id)

-- What comes back to rank 0, and what a rank finds in it
pub record IsConnected (x : External) (st st' : State) (comm : Communicator) (old : ℕ)
    (takes : List ℕ) (rank : ℕ) (port : SwitchPort) : Type 0 where
  behind : Text
  left : List ℕ
  group_id : recv_word old (coming st'.client.wire) ≡ (st.group_num + 1, coming behind)
  file :
      receive_file true (record { bytes = behind; takes = takes })
      ≡ (some (generate_yaml x comm), record { bytes = []; takes = left })
  place :
      get_switch_info x (generate_yaml x comm) rank
      ≡ some (some (get_ip x port.ip, st.communicator_num + 1 + rank))

-- From the requests of rank 0 to a rank's place: once the controller's session with rank 0 has ended, for
-- a group of two ranks and a communicator over a switch with two ports, rank 0 reads from what has come
-- back the group's number and then the whole file, and each rank finds in that file the address of its
-- port of the switch and the communicator's number plus its own as the QP. The
-- controller's blocks for one word have room for two. The calls of `send` of rank 0 take their bytes whole, as does the controller's of the group's number; the file goes in any
-- pieces of at least one byte, with at least as many calls as bytes, is shorter than 2 ^ 32 bytes and reads
-- back as it was written. Addresses, QPs and numbers have 32 bits.
pub group_session-IsConnected :
    (x : External) (k : ℕ) (memory : Memory) (st st' : State) (p0 p1 port : SwitchPort)
    (ips qps : ℕ → ℕ) (results sends : List ℤ) (takes : List ℕ) (comm : Communicator)
    (old first_send rank : ℕ)
    → st.info.ports ≡ p0 ∷ p1 ∷ []
    → 2 ≤ memory.room
    → IsOpen 7 results
    → ((rank : ℕ) → rank < 2 → ips rank < u32_mod)
    → ((rank : ℕ) → rank < 2 → qps rank < u32_mod)
    → st.client ≡ record { results = pos first_send ∷ sends; wire = [] }
    → 4 ≤ first_send
    → AllSend sends
    → AllTake takes
    → length (generate_yaml x comm) < u32_mod
    → 4 + length (generate_yaml x comm) ≤ length sends
    → 4 + length (generate_yaml x comm) ≤ length takes
    → st.group_num + 1 < u32_mod
    → st.communicator_num + 3 < u32_mod
    → group_session x (suc (suc k)) memory st (
        coming
          (register_communicator 2 qps
            (register_group 2 ips (record { results = results; wire = [] }))).wire)
      ≡ some (st', coming [])
    → st'.comms ≡ st.comms ++ (comm ∷ [])
    → x.load (generate_yaml x comm) ≡ some (topology_document x comm.group.world_size comm.switches)
    → rank < 2
    → get_elem? (p0 ∷ p1 ∷ []) rank ≡ some port
    → IsConnected x st st' comm old takes rank port
group_session-IsConnected x k memory st st' p0 p1 port ips qps results sends takes comm old
      first_send rank ports block h hi hq client room hs ht small es et group_small comm_small went
      made read lt at =
    let (asked, comm0, st0, goes, _, s) =
      group_session-two_ranks x k memory st p0 p1 ips qps results ports block h hi hq in
    let same_state : st0 ≡ st' = ap (λ (o : State × Incoming). o.0) (inner (sym goes ∙ went)) in
    let same : comm0 ≡ comm =
      same_end st.comms comm0 comm (sym s.comms ∙ ap (λ (t : State). t.comms) same_state ∙ made) in
    let (left, left', wire, sent, came) =
      receive_file-send_file_with_length sends takes (le_bytes (st.group_num + 1))
        (generate_yaml x comm) [] hs ht small es et in
    record {
      behind = wire;
      left = left';
      group_id =
          ap (λ (t : State). recv_word old (coming t.client.wire)) (sym same_state)
          ∙ ap (λ (c : Socket). recv_word old (coming c.wire))
              (s.client
                ∙ ap
                    (λ (c : Communicator).
                      (send_file_with_length (send st.client (le_bytes (st.group_num + 1))).1
                        (some (generate_yaml x c))).1)
                    same
                ∙ ap (λ (c : Socket). (send_file_with_length c (some (generate_yaml x comm))).1)
                    (sent_id st.client (st.group_num + 1) first_send sends client room)
                ∙ ap (λ (o : Status × Socket). o.1) sent)
          ∙ recv_word-le_bytes old (st.group_num + 1) wire group_small;
      file =
          ap (λ t. receive_file true (record { bytes = t; takes = takes })) (sym (append-nil wire))
          ∙ came;
      place =
          file-place x memory.conn asked p0 p1 comm s.switch_config rank port
            (ap (λ (c : Communicator). c.switches) (sym same) ∙ s.switches) s.connections
            (omega (arith, s.id, comm_small)) read lt at
          ∙ ap (λ id. some (some (get_ip x port.ip, id + rank))) s.id;
    }
