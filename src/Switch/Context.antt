-- ===== src/Switch/Context.antt =====
-- repository/termination_switch/src/switch_context.c: the first state of a switch, the reset before
-- a new topology, and the release.
mod Tests
pub mod Reset
use inc_emulation.Base.{
  ℕ, zero, suc, ◌+◌, Bool, true, false, ◌==◌, ◌||◌, not, ltb, if◌then◌else◌, ℤ, pos, negsuc,
  minus_one, Option, none, some, List, [], eq_ℤ,
}
use inc_emulation.Rule.{Primitive, null, allreduce, reduce, broadcast}
use inc_emulation.Packet.{Connection}
use inc_emulation.Switch.State.{switch_array_length, SwitchState, AggBuffer, PsnState, Context}

unfoldable pub empty_buffer : AggBuffer
empty_buffer = record {
  len = 0;
  packet_type = 0;
  state = 0;
  psn = minus_one;
  operation_type = null;
  root_rank = minus_one;
  buffer = λ _. 0;
}

unfoldable pub init_psn_state : PsnState
init_psn_state = record {
  degree = 0;
  arrival = λ _. 0;
  agg_buffer = empty_buffer;
  r_degree = 0;
  r_arrival = λ _. 0;
  bcast_buffer = empty_buffer;
}

-- `memset(conn, 0, sizeof conn)`
unfoldable pub zero_connection : Connection
zero_connection = record {
  my_mac = 0;
  peer_mac = 0;
  my_ip = 0;
  peer_ip = 0;
  my_port = 0;
  peer_port = 0;
  my_qp = 0;
  peer_qp = 0;
}

-- `switch_context_init` on a context that is not NULL. `pool` says whether `thpool_init` returned a
-- pool; without one the function fails with -1, `none` here.
unfoldable pub switch_context_init : (switch_id : ℤ) (pool : Bool) → Option Context
switch_context_init switch_id false = none
switch_context_init switch_id true = some (record {
  psn_states = λ _. init_psn_state;
  conns = λ _. zero_connection;
  fan_in = 0;
  is_root = false;
  agg_epsn = λ _. 0;
  down_epsn = 0;
  latest_ack = λ _. 0;
  down_ack = 0;
  send_psn = λ _. 0;
  routing_table = [];
  rank_to_conn = λ _. minus_one;
  operation_type = allreduce;
  root_rank = minus_one;
  ctrl_psn = minus_one;
  switch_id = switch_id;
  controller_fd = minus_one;
  state = SwitchState.init;
  num_receivers = 0;
})

-- The body of the loop of `switch_context_reset_psn_states`: the words of the two buffers, their
-- packet types and their operations stay.
unfoldable pub reset_psn_state : PsnState → PsnState
reset_psn_state s = record s {
  degree = 0;
  arrival = λ _. 0;
  agg_buffer = record (s.agg_buffer) { len = 0; state = 0; psn = minus_one };
  r_degree = 0;
  r_arrival = λ _. 0;
  bcast_buffer = record (s.bcast_buffer) { len = 0; state = 0; psn = minus_one };
}

unfoldable pub switch_context_reset_psn_states : Context → Context
switch_context_reset_psn_states ctx = record ctx {
  psn_states = λ i.
      if ltb i switch_array_length then reset_psn_state (ctx.psn_states i) else ctx.psn_states i;
  agg_epsn = λ _. 0;
  down_epsn = 0;
  latest_ack = λ _. 0;
  down_ack = 0;
  operation_type = allreduce;
  root_rank = minus_one;
}

-- `switch_context_cleanup`: what it does to the fields, after the pool has gone.
unfoldable pub switch_context_cleanup : Context → Context
switch_context_cleanup ctx =
    if is_open ctx.controller_fd then record ctx { controller_fd = minus_one } else ctx
  where
    is_open : ℤ → Bool
    is_open (pos _) = true
    is_open (negsuc _) = false

-- The count of used slots that `switch_context_print` prints, over the first n slots.
unfoldable pub active_psn : ℕ → (ℕ → PsnState) → ℕ
active_psn zero states = 0
active_psn (suc n) states =
    let rest = active_psn n states in
    let s = states n in
    if not (s.agg_buffer.state == 0) || not (s.bcast_buffer.state == 0) then rest + 1 else rest
