-- ===== src/Pipeline/Step.antt =====
-- repository/src/non_termination_switch.c: `pipeline`, what the switch does with one packet.
use inc_emulation.Base.{
  ℕ, ◌+◌, ◌%◌, not, ◌&&◌, ◌||◌, ◌==◌, ltb, if◌then◌else◌, Option, none, some, List, [], ◌∷◌, map,
}
use inc_emulation.Packet.{Frame, frame_psn, frame_udp_len}
use inc_emulation.Switch.State.{Sent}
use inc_emulation.Pipeline.Parts.{
  Pipe, window_size, fan_in, idx, set_arrive_state, clear_state_data, recv_from_all_fan_in,
  recv_from_port, send_roce_data, send_roce_data_with_reth, send_roce_ack, add_data, copy_data,
  keep_reth, count_packet,
}

-- `enum packet_type`
pub data PacketClass : Type 0 where
  up_data up_ack up_write_first_only down_data down_write_first_only down_ack : PacketClass

-- The parser's `switch`: an opcode that it does not name leaves the type of the packet before.
unfoldable pub classify : (opcode port : ℕ) → PacketClass → PacketClass
classify opcode port old =
    if opcode == 0x00
      || opcode == 0x01
      || opcode == 0x02
      || opcode == 0x04
      || opcode == 0x07
      || opcode == 0x08
    then (if ltb port fan_in then up_data else down_data)
    else if opcode == 0x06 || opcode == 0x0A
    then (if ltb port fan_in then up_write_first_only else down_write_first_only)
    else if opcode == 0x11
    then (if ltb port fan_in then up_ack else down_ack)
    else old

-- The new globals and the frames that were sent; `none` where an `assert` ends the program.
abbrev pub Effect : Type 0
Effect = Option (Pipe × List Sent)

abbrev pub child_ports : List ℕ
child_ports = 0 ∷ 1 ∷ []

-- The aggregated slot, to one port or to the children. With a RETH, each child's is its own.
abbrev pub send_slot : Pipe → (port psn opcode : ℕ) → Sent
send_slot s port psn opcode = send_roce_data s port (s.aggregator (idx psn)) psn opcode

abbrev pub send_slot_with_reth : Pipe → (port psn opcode : ℕ) → Sent
send_slot_with_reth s port psn opcode =
    send_roce_data_with_reth s port (some (s.reth_keeper (idx psn) port)) (s.aggregator (idx psn))
      psn opcode

abbrev pub send_parent_with_reth : Pipe → (psn opcode : ℕ) → Sent
send_parent_with_reth s psn opcode =
    send_roce_data_with_reth s fan_in none (s.aggregator (idx psn)) psn opcode

-- The branch of UP_DATA on the root, behind the count
unfoldable pub root_up_data : Pipe → (port psn opcode : ℕ) → (ℕ → ℕ) → Pipe × List Sent
root_up_data s port psn opcode words =
    let added = add_data (set_arrive_state s port psn) psn words in
    let over = clear_state_data (set_arrive_state added fan_in psn) (psn + window_size) in
    if recv_from_port s port psn
    then (if recv_from_port s fan_in psn then (s, send_slot s port psn opcode ∷ []) else (s, []))
    else if recv_from_all_fan_in added psn
    then (over, map (λ i. send_slot over i psn opcode) child_ports)
    else (added, [])

-- The branch of UP_DATA on the other switches, behind the count
unfoldable pub inner_up_data : Pipe → (port psn opcode : ℕ) → (ℕ → ℕ) → Pipe × List Sent
inner_up_data s port psn opcode words =
    let added = add_data (set_arrive_state s port psn) psn words in
    if recv_from_port s port psn
    then (if recv_from_port s fan_in psn
        then (s, send_slot s port psn opcode ∷ [])
        else if recv_from_all_fan_in s psn && (s.degree (idx psn) % fan_in == 0)
        then (s, send_slot s fan_in psn opcode ∷ [])
        else (s, []))
    else if recv_from_all_fan_in added psn
    then (added, send_slot added fan_in psn opcode ∷ [])
    else (added, [])

unfoldable pub root_up_write :
    Pipe → (port psn opcode : ℕ) → (reth words : ℕ → ℕ) → Pipe × List Sent
root_up_write s port psn opcode reth words =
    let added = add_data (keep_reth (set_arrive_state s port psn) port psn reth) psn words in
    let over = clear_state_data (set_arrive_state added fan_in psn) (psn + window_size) in
    if recv_from_port s port psn
    then (if recv_from_port s fan_in psn
        then (s, send_slot_with_reth s port psn opcode ∷ [])
        else (s, []))
    else if recv_from_all_fan_in added psn
    then (over, map (λ i. send_slot_with_reth over i psn opcode) child_ports)
    else (added, [])

unfoldable pub inner_up_write :
    Pipe → (port psn opcode : ℕ) → (reth words : ℕ → ℕ) → Pipe × List Sent
inner_up_write s port psn opcode reth words =
    let added = add_data (keep_reth (set_arrive_state s port psn) port psn reth) psn words in
    if recv_from_port s port psn
    then (if recv_from_port s fan_in psn
        then (s, send_slot_with_reth s port psn opcode ∷ [])
        else if recv_from_all_fan_in s psn && (s.degree (idx psn) % fan_in == 0)
        then (s, send_parent_with_reth s psn opcode ∷ [])
        else (s, []))
    else if recv_from_all_fan_in added psn
    then (added, send_parent_with_reth added psn opcode ∷ [])
    else (added, [])

unfoldable pub down_data_branch : Pipe → (psn opcode : ℕ) → (ℕ → ℕ) → Pipe × List Sent
down_data_branch s psn opcode words =
    let copied = set_arrive_state (copy_data s psn words) fan_in psn in
    if not (recv_from_port s fan_in psn) && recv_from_all_fan_in s psn
    then (copied, map (λ i. send_slot copied i psn opcode) child_ports)
    else (s, [])

unfoldable pub down_write_branch : Pipe → (psn opcode : ℕ) → (ℕ → ℕ) → Pipe × List Sent
down_write_branch s psn opcode words =
    let copied = set_arrive_state (copy_data s psn words) fan_in psn in
    if not (recv_from_port s fan_in psn) && recv_from_all_fan_in s psn
    then (copied, map (λ i. send_slot_with_reth copied i psn opcode) child_ports)
    else (s, [])

-- `assert(data_len == PAYLOAD_LEN)`: the UDP datagram has 24 bytes of headers and ICRC, and 16 more
-- for a RETH.
abbrev pub assert_len : Frame → (udp_len : ℕ) → Pipe × List Sent → Effect
assert_len f udp_len e = if frame_udp_len f == udp_len then some e else none

-- The words behind a RETH
abbrev pub behind_reth : Frame → ℕ → ℕ
behind_reth f i = f.body (i + 4)

-- `pipeline`, for a packet on a port, behind a packet of the type `old`
unfoldable pub pipeline : Pipe → PacketClass → (port : ℕ) → Frame → Effect
pipeline s old port f =
    let psn = frame_psn f in
    let opcode = f.bth.opcode in
    let counted = count_packet s psn in
    elim (classify opcode port old) [
      | up_data ↦ assert_len f 1048 (
          if s.root
          then root_up_data counted port psn opcode f.body
          else inner_up_data counted port psn opcode f.body)
      | up_ack ↦ some (s, send_roce_ack s port psn ∷ [])
      | down_data ↦ assert_len f 1048 (down_data_branch s psn opcode f.body)
      | down_ack ↦ some (s, [])
      | up_write_first_only ↦ assert_len f 1064 (
          if s.root
          then root_up_write counted port psn opcode f.body (behind_reth f)
          else inner_up_write counted port psn opcode f.body (behind_reth f))
      | down_write_first_only ↦ assert_len f 1064 (down_write_branch s psn opcode (behind_reth f))
    ]
