-- ===== src/Switch/State.antt =====
-- repository/termination_switch/include/switch_context.h: the state of the switch. Arrays are
-- functions from the index. The mutexes, the thread pool, the pcap handles and the receiver threads
-- have no field.
use inc_emulation.Base.{ℕ, ◌%◌, Bool, ℤ, List, Option, update}
use inc_emulation.Rule.{Primitive, RuleTable}
use inc_emulation.Packet.{Connection, Frame}

abbrev pub max_connections_num : ℕ
max_connections_num = 10

abbrev pub switch_array_length : ℕ
switch_array_length = 300

abbrev pub max_ranks : ℕ
max_ranks = 128

-- `Idx(psn)` of switch_main.c
abbrev pub idx : ℕ → ℕ
idx psn = psn % switch_array_length

-- `switch_state_t`
pub data SwitchState : Type 0 where
  init stalled running : SwitchState

-- `agg_buffer_t`; the words of the buffer are in network order.
pub record AggBuffer : Type 0 where
  pub len : ℕ
  pub packet_type : ℕ
  pub state : ℕ
  pub psn : ℤ
  pub operation_type : Primitive
  pub root_rank : ℤ
  pub buffer : ℕ → ℕ

-- The words of `buffer[1024]`
abbrev pub buffer_words : ℕ
buffer_words = 1024

-- `psn_state_t`
pub record PsnState : Type 0 where
  pub degree : ℕ
  pub arrival : ℕ → ℕ
  pub agg_buffer : AggBuffer
  pub r_degree : ℕ
  pub r_arrival : ℕ → ℕ
  pub bcast_buffer : AggBuffer

-- `switch_context_t`. The expected PSNs and the acknowledged ones are never negative in this switch.
pub record Context : Type 0 where
  pub psn_states : ℕ → PsnState
  pub conns : ℕ → Connection
  pub fan_in : ℕ
  pub is_root : Bool
  pub agg_epsn : ℕ → ℕ
  pub down_epsn : ℕ
  pub latest_ack : ℕ → ℕ
  pub down_ack : ℕ
  pub send_psn : ℕ → ℕ
  pub routing_table : RuleTable
  pub rank_to_conn : ℕ → ℤ
  pub operation_type : Primitive
  pub root_rank : ℤ
  pub ctrl_psn : ℤ
  pub switch_id : ℤ
  pub controller_fd : ℤ
  pub state : SwitchState
  pub num_receivers : ℕ

-- A frame handed to `pcap_sendpacket`, with the index of its connection.
pub record Sent : Type 0 where
  pub conn : ℕ
  pub frame : Frame

-- What a step of the switch comes to: the new state and the frames sent, in order, or `none` where
-- the code reads or writes outside an array or follows a NULL pointer.
abbrev pub Outcome : Type 0
Outcome = Option (Context × List Sent)

-- The slot of a PSN, and the state with that slot replaced.
abbrev pub slot : Context → ℕ → PsnState
slot ctx psn = ctx.psn_states (idx psn)

abbrev pub put_slot : Context → ℕ → PsnState → Context
put_slot ctx psn s = record ctx { psn_states = update ctx.psn_states (idx psn) s }
