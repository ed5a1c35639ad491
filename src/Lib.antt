-- ===== src/Lib.antt =====
-- In-network computing on emulated switches: hosts reduce and broadcast arrays of 32-bit numbers over
-- RoCE frames, and switches on the way add the frames up (AllReduce, Reduce) or copy them
-- (Broadcast). A controller works out the rules of each switch and sends them to it. This library
-- models both kinds of switch, the frames, the loops of the host library, and the controller's way
-- from a topology to the rules that a switch looks up.
--
-- The parts and their files:
-- - Base: numbers, words of 32 bits, byte order, arrays as functions from the index; Bits: `&`, `|`
--   and `^` on digits.
-- - Imm (repository/include/util.h): BUILD_IMM_DATA and the GET_IMM_* macros, by which a host names
--   the operation of a message. Imm.RoundTrip reads back what was packed.
-- - Checksum (repository/src/util.c): ipv4_checksum and is_ipv4_checksum_valid. A header is a record,
--   its ten words are read as the C code reads them through a pointer.
-- - Crc (repository/src/util.c): init_crc32_table and crc32. Crc.Xor has the laws of `^`, Crc.Slicing
--   what a table's entry stands for, Crc.Rounds the rounds of the two loops against the bitwise
--   checksum, and Crc.Reference the whole function.
-- - Icrc (the same file): compute_icrc over the bytes of a packet; Icrc.Travel is about the fields that
--   change on the way.
-- - Packet (repository/src/util.c, repository/include/util.h): build_eth_packet and the fields that
--   the switch reads from a frame. The ICRC at the end of a frame is left out.
-- - Rule (repository/src/rule.c, repository/include/rule.h): the routing table of a switch. The
--   pointers of a rule to its connections are the indices of the connections.
-- - Switch.State, Switch.Context (repository/termination_switch/include/switch_context.h and
--   src/switch_context.c): switch_context_t as a record, its first state and its reset.
-- - Switch.Send (repository/termination_switch/src/switch_main.c): send_packet, forwarding,
--   cache_and_broadcast and handle_broadcast.
-- - Switch.Aggregate (the same file): aggregate, with its part under the lock and its completion.
-- - Switch.Handler (the same file): handle_downstream_ack, handle_upstream_ack and packet_handler.
--   Switch.Handler.Grows is about what every run keeps, Switch.Handler.Sequence about frames that
--   come again, Switch.Handler.Control about control messages, Switch.Handler.Safe about frames that
--   never make the switch leave an array, Switch.Handler.Released about what the ACKs free.
-- - Pipeline (repository/src/non_termination_switch.c): the switch without connections of its own.
--   Pipeline.Parts has its globals and the operations on a slot, Pipeline.Step every branch of
--   `pipeline`, Pipeline.Phase the behaviour of one slot of the root as seen from outside, which
--   Pipeline.Refine compares with the code; Pipeline.Stale is about the other switches.
-- - Host (repository/src/api.c): the five collective operations. Host.Allreduce has the buffers, the
--   window and the loop over completions of inccl_allreduce_sendrecv, Host.Reduce
--   inccl_reduce_sendrecv, Host.Broadcast inccl_broadcast_sendrecv with send_control_message,
--   Host.Write the two functions that send by RDMA writes, and Host.Setup how rank 0 learns of the
--   other ranks and registers them with the controller. The verbs calls are the adapter's: the
--   model records what is posted and takes the results of the polls as an argument, each completion
--   with the words of its receive buffer.
-- - External: what the next three use of yaml-cpp and libc, as a record of operations with their
--   documented laws; External.Tree is a value of it for concrete runs.
-- - Controller (repository/include/controller.h): the connections and the rules of a switch.
--   Controller.Route has calculate_route, Controller.Encode the YAML document for a switch,
--   Controller.Found and Controller.Served what a search finds in the rules, Controller.Generated
--   their number.
-- - Config (repository/termination_switch/src/controller_comm.cpp): parse_yaml_config. Config.ReadBack
--   reads one connection and one rule, Config.Connections and Config.Rules the loops over them,
--   Config.Applied the whole document; Config.TwoHosts and Config.Deployed join it with
--   calculate_route and lookup_rule.
-- - Link (repository/src/controller.cpp, repository/termination_switch/src/controller_comm.cpp): the
--   TCP connection between the two. Link.Framed has the frame at both ends, Link.Thread the loop of
--   the switch.
-- - Topology (repository/include/controller.h, repository/src/topo_parser.cpp): the file with all
--   switches, as the controller writes it, and what a host finds in it. Topology.Placed compares that
--   with the configured switch; Topology.Parse has the reader of the pipelined switch, and
--   Topology.Unread what it makes of the file.
-- - Transfer (repository/src/util.c, repository/src/controller.cpp): how that file goes over a socket.
--   Transfer.Sent has the sender, Transfer.Came the receiver, Transfer.Whole both.
-- - Session (repository/src/controller.cpp): group_session, the controller's answer to rank 0's requests.
--   Session.Served has each request, Session.Requests the bytes that rank 0 sends, Session.TwoRanks
--   both ends, Session.Connected what the ranks find in the file that comes back, and Session.Outside
--   the groups that an array has no room for.
-- - Network: hosts and the switch joined, for an AllReduce from the arrays of all hosts to the array
--   that each of them ends with. The network cards between them, which cut messages into frames, are
--   hypotheses.
--
-- A frame comes in at packet_handler, which looks for a rule in the routing table, answers on the
-- rule's ACK connection, and calls aggregate (on the way up) or cache_and_broadcast (on the way
-- down); both end in build_eth_packet. A step of the switch takes a state and gives the next state
-- and the frames that it sent, or `none` where the C code leaves an array or follows NULL. That the
-- connection has a place in the arrays and that the frame was captured whole is tested by
-- handle_captured. A run is a list of steps. The receiver threads take their frames one at a time here: the model orders whole
-- calls of packet_handler freely, and does not interleave their insides.
--
-- The switch's rules come from the controller: calculate_route makes them, generate_yaml_for_switch
-- writes them, send_yaml_to_switch sends them, receive_yaml_config reads the text and
-- parse_yaml_config stores them in the routing table that packet_handler searches.
--
-- Bounds: the carries of the checksum are folded on fuel 3, which is enough for ten words, and the
-- thread of a switch runs on fuel, of which one more than the bytes that come is enough; a session is
-- given the number of its requests. All other loops run over a list or a count. A payload fits the
-- buffer of send_packet up to 1009 words. PSN counters are unbounded numbers,
-- where the C code has an int of 32 bits; Switch.Handler.Grows.Ints is about runs that stay in its
-- range. build_eth_packet has the room for a checksum of its frame up to 5507 bytes of payload.
--
-- Not modelled: pcap and the threads around the handler, the set-up of verbs devices and queue pairs
-- in the host library, how the controller's main function waits for connections, the log, and
-- repository/src/switch.c, which is an older version of the switch that no longer fits
-- the rules. The frames of Packet are records, so the ICRC, which is over bytes, is not joined to them.
pub mod Base
pub mod Bits
pub mod Imm
pub mod Checksum
pub mod Packet
pub mod Rule
pub mod Switch
pub mod Pipeline
pub mod Host
pub mod External
pub mod Controller
pub mod Config
pub mod Topology
pub mod Link
pub mod Transfer
pub mod Session
pub mod Network
pub mod Crc
pub mod Icrc
