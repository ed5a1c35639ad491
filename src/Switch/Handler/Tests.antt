-- ===== src/Switch/Handler/Tests.antt =====
-- Frames of two hosts, handled one after another.
use inc_emulation.Base.{
  ℕ, ◌-◌, ◌≤◌, ◌≡◌, ◌^◌, refl, arith, true, some, none, List, [], ◌∷◌, bswap32, bswap16, false, pos,
  update,
}
use inc_emulation.Imm.{build_imm_data, get_imm_primitive, get_imm_dest_rank}
use inc_emulation.Rule.{match_rule, lookup_rule}
use inc_emulation.Packet.{
  Frame, frame_psn, frame_udp_len, build_eth_packet, total_len, extra_len, bth_opcode, bth_apsn,
  packet_body, frame_syndrome,
}
use inc_emulation.Switch.State.{Context, Sent, Outcome, slot}
use inc_emulation.Switch.Context.{init_psn_state, empty_buffer}
use inc_emulation.Switch.Send.{forwarding, forward_ack, send_packet}
use inc_emulation.Switch.Aggregate.{aggregate, accumulate}
use inc_emulation.Switch.Handler.{
  packet_handler, run, is_control_message, imm_data, imm_primitive, imm_param, is_data_opcode,
  store_metadata, dispatch, upstream_data, control_message, handle_downstream_ack, Captured,
  handle_captured, run_captured,
}
use inc_emulation.Switch.Handler.Grows.{Grows}
use inc_emulation.Switch.Handler.Grows.Ints.{HasInts, StaysInt, run_captured-Grows}
use inc_emulation.Switch.Handler.Sequence.{ack_frame, IsData}
use inc_emulation.Switch.Handler.Control.{
  announced, packet_handler-control_twice, packet_handler-psn_wrap,
}
use inc_emulation.Switch.Handler.Safe.{IsReady, Fits, AllFit}
use inc_emulation.Switch.Handler.Safe.Run.{run_captured-IsReady}
use inc_emulation.Switch.Handler.Released.{ack_all, completed, handle_upstream_ack-all}
use inc_emulation.Switch.Handler.Released.Down.{freed_if, handle_downstream_ack_lem}
use inc_emulation.Switch.Examples.{two_hosts, host_rule, host_data, host_control}

is_control : is_control_message (host_control 0 0) ≡ true
unfolding is_control_message build_eth_packet bth_opcode frame_udp_len bswap16 total_len extra_len
is_control = refl

host_data-IsData : IsData (host_data 0 0)
unfolding is_data_opcode build_eth_packet bth_opcode
host_data-IsData = record { plain = refl; data_opcode = refl }

-- The state and the frames of a run from `two_hosts`
abbrev state_of : Outcome → Context
state_of none = two_hosts
state_of (some (ctx, sent)) = ctx

abbrev sent_of : Outcome → List Sent
sent_of none = []
sent_of (some (ctx, sent)) = sent

abbrev one_data : List (ℕ × Frame)
one_data = (0, host_data 0 0) ∷ []

abbrev two_controls : List (ℕ × Frame)
two_controls = (0, host_control 0 0) ∷ (0, host_control 0 0) ∷ []

one_data-run :
    run two_hosts one_data
    ≡ some (state_of (run two_hosts one_data), sent_of (run two_hosts one_data))
unfolding run packet_handler lookup_rule match_rule store_metadata dispatch upstream_data
    is_data_opcode forwarding forward_ack send_packet aggregate accumulate is_control_message
    imm_primitive imm_param imm_data control_message build_eth_packet packet_body total_len
    extra_len bth_opcode bth_apsn frame_psn frame_udp_len frame_syndrome get_imm_primitive
    get_imm_dest_rank build_imm_data bswap32 bswap16 init_psn_state empty_buffer
one_data-run = refl

one_data_counted : (state_of (run two_hosts one_data)).agg_epsn 0 ≡ 1
unfolding run packet_handler lookup_rule match_rule store_metadata dispatch upstream_data
    is_data_opcode forwarding forward_ack send_packet aggregate accumulate is_control_message
    imm_primitive imm_param imm_data control_message build_eth_packet packet_body total_len
    extra_len bth_opcode bth_apsn frame_psn frame_udp_len frame_syndrome get_imm_primitive
    get_imm_dest_rank build_imm_data bswap32 bswap16 init_psn_state empty_buffer
one_data_counted = refl

abbrev one_captured : List Captured
one_captured = record { conn_id = 0; caplen = 74; frame = host_data 0 0 } ∷ []

one_captured-run :
    run_captured two_hosts one_captured
    ≡ some (
      state_of (run_captured two_hosts one_captured),
      sent_of (run_captured two_hosts one_captured),
    )
unfolding run_captured handle_captured packet_handler lookup_rule match_rule store_metadata dispatch
    upstream_data is_data_opcode forwarding forward_ack send_packet aggregate accumulate
    is_control_message imm_primitive imm_param imm_data control_message build_eth_packet packet_body
    total_len extra_len bth_opcode bth_apsn frame_psn frame_udp_len frame_syndrome get_imm_primitive
    get_imm_dest_rank build_imm_data bswap32 bswap16 init_psn_state empty_buffer
one_captured-run = refl

one_captured-HasInts : HasInts (state_of (run_captured two_hosts one_captured))
unfolding run_captured handle_captured packet_handler lookup_rule match_rule store_metadata dispatch
    upstream_data is_data_opcode forwarding forward_ack send_packet aggregate accumulate
    is_control_message imm_primitive imm_param imm_data control_message build_eth_packet packet_body
    total_len extra_len bth_opcode bth_apsn frame_psn frame_udp_len frame_syndrome get_imm_primitive
    get_imm_dest_rank build_imm_data bswap32 bswap16 init_psn_state empty_buffer
one_captured-HasInts = record {
  epsn = λ c. ground arith;
  down_epsn = omega arith;
  sends = λ c. ground arith;
  acks = λ c. omega arith;
  down_ack = omega arith;
}

run_captured-Grows_example :
    Grows two_hosts (state_of (run_captured two_hosts one_captured))
    × StaysInt two_hosts one_captured
run_captured-Grows_example =
    run_captured-Grows two_hosts (state_of (run_captured two_hosts one_captured)) one_captured
      (sent_of (run_captured two_hosts one_captured)) one_captured-run one_captured-HasInts

abbrev announced_twice : Context
announced_twice = announced (announced two_hosts 0 (host_control 0 0)) 0 (host_control 0 0)

packet_handler-control_twice_example :
    packet_handler announced_twice 0 (host_data 0 1)
    ≡ some (announced_twice, ack_frame announced_twice 0 (frame_psn (host_data 0 1)) ∷ [])
unfolding run packet_handler lookup_rule match_rule store_metadata dispatch upstream_data
    is_data_opcode forwarding forward_ack send_packet aggregate accumulate is_control_message
    imm_primitive imm_param imm_data control_message build_eth_packet packet_body total_len
    extra_len bth_opcode bth_apsn frame_psn frame_udp_len frame_syndrome get_imm_primitive
    get_imm_dest_rank build_imm_data bswap32 bswap16 init_psn_state empty_buffer
packet_handler-control_twice_example =
    packet_handler-control_twice two_hosts announced_twice 0 (host_control 0 0) (host_data 0 1)
      (host_rule 0) (host_rule 0) 0 0 (ack_frame two_hosts 0 0 ∷ ack_frame two_hosts 0 0 ∷ [])
      is_control refl refl refl refl (record { plain = refl; data_opcode = refl }) refl refl refl
      refl

abbrev long_running : Context
long_running = record two_hosts { agg_epsn = λ _. 2 ^ 24 }

long_running-HasInts : HasInts long_running
long_running-HasInts = record {
  epsn = λ c. omega arith;
  down_epsn = omega arith;
  sends = λ c. omega arith;
  acks = λ c. omega arith;
  down_ack = omega arith;
}

packet_handler-psn_wrap_example :
    handle_captured long_running (record { conn_id = 0; caplen = 74; frame = host_data 0 0 })
    ≡ some (long_running, ack_frame long_running 0 (2 ^ 24 - 1) ∷ [])
unfolding run_captured lookup_rule match_rule build_eth_packet bth_opcode frame_udp_len bswap16
    total_len extra_len
packet_handler-psn_wrap_example =
    packet_handler-psn_wrap long_running long_running [] []
      (record { conn_id = 0; caplen = 74; frame = host_data 0 0 }) (host_rule 0) 0 (omega arith)
      refl long_running-HasInts refl host_data-IsData refl refl refl

two_hosts-IsReady : IsReady two_hosts
two_hosts-IsReady = record { acks = ((0, refl), ((1, refl), tt)); rank = λ e. cc }

host_data-Fits : Fits (host_data 0 0)
unfolding build_eth_packet bth_opcode frame_udp_len bswap16 total_len extra_len is_data_opcode
host_data-Fits = record { rank = λ e. cc; headers = λ e. omega arith; payload = λ e. omega arith }

host_control-Fits : Fits (host_control 0 0)
unfolding build_eth_packet bth_opcode frame_udp_len bswap16 total_len extra_len is_data_opcode
    imm_primitive imm_data packet_body bswap32 get_imm_primitive build_imm_data
host_control-Fits = record {
  rank = λ e k. cc;
  headers = λ e. omega arith;
  payload = λ e. omega arith;
}

-- The second message comes in on another connection, and the first once more.
abbrev mixed : List Captured
mixed =
    record { conn_id = 0; caplen = 66; frame = host_control 0 0 }
    ∷ record { conn_id = 1; caplen = 74; frame = host_data 0 0 }
    ∷ record { conn_id = 0; caplen = 66; frame = host_control 0 0 }
    ∷ record { conn_id = 0; caplen = 74; frame = host_data 0 0 }
    ∷ []

mixed-AllFit : AllFit mixed
unfolding build_eth_packet bth_opcode frame_udp_len bswap16 total_len extra_len
mixed-AllFit = (
  host_control-Fits,
  omega arith,
  omega arith,
  omega arith,
  (
    host_data-Fits,
    omega arith,
    omega arith,
    omega arith,
    (
      host_control-Fits,
      omega arith,
      omega arith,
      omega arith,
      (host_data-Fits, omega arith, omega arith, omega arith, tt),
    ),
  ),
)

run_captured-IsReady_example :
    (b : Context) × (sent : List Sent) × (run_captured two_hosts mixed ≡ some (b, sent))
    × IsReady b
    × (b.fan_in ≤ 10)
run_captured-IsReady_example =
    run_captured-IsReady two_hosts mixed two_hosts-IsReady (omega arith) mixed-AllFit

-- A frame on a connection that the arrays have no place for, and one that was captured in part
packet_handler_no_place :
    handle_captured two_hosts (record { conn_id = 10; caplen = 74; frame = host_data 0 0 }) ≡ none
unfolding handle_captured
packet_handler_no_place = refl

packet_handler_cut :
    handle_captured two_hosts (record { conn_id = 0; caplen = 73; frame = host_data 0 0 }) ≡ none
unfolding handle_captured build_eth_packet bth_opcode frame_udp_len bswap16 total_len extra_len
packet_handler_cut = refl

-- Slot 3 is in use, for the PSN 303, and both hosts have to acknowledge it.
abbrev in_use : Context
in_use = record two_hosts {
  psn_states =
      update (λ _. init_psn_state) 3
        (record init_psn_state {
          degree = 2;
          agg_buffer = record empty_buffer { state = 1; psn = pos 303 };
          bcast_buffer = record empty_buffer { state = 1; psn = pos 303 };
        });
}

handle_upstream_ack-all_example :
    (slot (ack_all in_use 303 (1 ∷ 0 ∷ [])) 303 ≡ completed (slot in_use 303))
    × ((slot (ack_all in_use 303 (1 ∷ 0 ∷ [])) 303).bcast_buffer.state ≡ 0)
    × ((slot (ack_all in_use 303 (1 ∷ 0 ∷ [])) 303).r_degree ≡ 0)
    × ((ack_all in_use 303 (1 ∷ 0 ∷ [])).psn_states 4 ≡ in_use.psn_states 4)
unfolding init_psn_state empty_buffer
handle_upstream_ack-all_example =
    handle_upstream_ack-all in_use 303 4 (1 ∷ 0 ∷ [])
      (omega arith, refl, ((λ e. omega (arith, e)), tt), (omega arith, refl, tt, tt)) refl
      (omega arith) (omega arith) (λ e. omega (arith, e))

handle_downstream_ack_lem_example :
    ((handle_downstream_ack in_use 310 false).psn_states 3 ≡ freed_if true (in_use.psn_states 3))
    × ((handle_downstream_ack in_use 310 false).down_ack ≡ 310)
unfolding init_psn_state empty_buffer
handle_downstream_ack_lem_example = handle_downstream_ack_lem in_use 310 3
