-- ===== src/Host/Reduce.antt =====
-- repository/src/api.c: inccl_reduce_sendrecv. The root waits for the messages by the loop that an
-- AllReduce has; the others wait for the completions of their own requests.
pub mod Drained
use inc_emulation.Base.{
  ℕ, ◌+◌, ◌/◌, Bool, true, false, ◌==◌, ltb, if◌then◌else◌, List, [], ◌∷◌, ◌++◌, length,
}
use inc_emulation.Imm.{build_imm_data, ctl_primitive_reduce, ctl_operator_sum, ctl_datatype_int32}
use inc_emulation.Host.Allreduce.{
  message_size, message_num, initial_sends, WcOpcode, recv, recv_rdma_with_imm, send, other, Wc,
  Loop, Result, Poll, error, batch, poll_loop,
}

unfoldable pub reduce_imm : (root_rank : ℕ) → ℕ
reduce_imm root_rank =
    build_imm_data root_rank ctl_primitive_reduce ctl_operator_sum ctl_datatype_int32

-- The variables of a sender's loop, and the requests given to the adapter, in order
pub record Sender : Type 0 where
  pub send_complete : ℕ
  pub send_num : ℕ
  pub posted : List ℕ

pub data Sending : Type 0 where
  sent_all broken pending : Sender → Sending

abbrev pub is_send : WcOpcode → Bool
is_send send = true
is_send _ = false

-- A completed request: count it, and send the next message if there is one.
unfoldable pub completed : (messages : ℕ) → Sender → Sender
completed messages s =
    let sends = ltb s.send_num messages in
    record {
      send_complete = s.send_complete + 1;
      send_num = if sends then s.send_num + 1 else s.send_num;
      posted = if sends then s.posted ++ (s.send_num ∷ []) else s.posted;
    }

-- The completions of one poll; a failed one ends the function.
unfoldable pub send_completions : (messages : ℕ) → List Wc → Sender → (Sender → Sending) → Sending
send_completions messages [] s k = k s
send_completions messages (wc ∷ wcs) s k =
    let next = if is_send wc.opcode then completed messages s else s in
    let rest = send_completions messages wcs next k in if wc.success then rest else broken s

-- `while (send_complete < send_num)`
unfoldable pub send_loop : (messages : ℕ) → List Poll → Sender → Sending
send_loop messages [] s = if ltb s.send_complete s.send_num then pending s else sent_all s
send_loop messages (error ∷ polls) s =
    if ltb s.send_complete s.send_num then broken s else sent_all s
send_loop messages (batch wcs ∷ polls) s =
    let more = send_completions messages wcs s (send_loop messages polls) in
    if ltb s.send_complete s.send_num then more else sent_all s

-- `inccl_reduce_sendrecv` behind the control message, with the results of the polls: on the root, and
-- on the other ranks
unfoldable pub reduce_root : (window_size len : ℕ) → (dst_data : ℕ → ℕ) → List Poll → Result
reduce_root window_size len dst_data polls =
    let sends = initial_sends (message_num len) 0 (window_size / message_size) in
    poll_loop len (message_num len) polls
      (record { receive_num = 0; send_num = length sends; posted = sends; dst_data = dst_data })

unfoldable pub reduce_sender : (window_size len : ℕ) → List Poll → Sending
reduce_sender window_size len polls =
    let sends = initial_sends (message_num len) 0 (window_size / message_size) in
    send_loop (message_num len) polls
      (record { send_complete = 0; send_num = length sends; posted = sends })
