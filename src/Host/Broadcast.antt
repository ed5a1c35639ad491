-- ===== src/Host/Broadcast.antt =====
-- repository/src/api.c: send_control_message and inccl_broadcast_sendrecv. The root sends and waits for
-- the completions of all its requests; the others only receive.
pub mod Delivered
mod Tests
use inc_emulation.Base.{
  ℕ, ◌+◌, ◌/◌, Bool, true, false, ◌==◌, ltb, if◌then◌else◌, Option, none, some, List, [], ◌∷◌, ◌++◌,
  ◌>>=◌, length,
}
use inc_emulation.Imm.{
  build_imm_data, ctl_primitive_broadcast, ctl_operator_sum, ctl_datatype_int32,
}
use inc_emulation.Host.Allreduce.{
  message_size, message_num, initial_sends, is_recv, Wc, copy_out, Poll, error, batch,
}
use inc_emulation.Host.Reduce.{Sender, Sending, sent_all, broken, pending, send_completions}

unfoldable pub broadcast_imm : (root_rank : ℕ) → ℕ
broadcast_imm root_rank =
    build_imm_data root_rank ctl_primitive_broadcast ctl_operator_sum ctl_datatype_int32

-- The result of one poll for the control message: none yet, a negative result, or a completion with
-- its success
pub data ControlPoll : Type 0 where
  empty negative : ControlPoll
  completion : Bool → ControlPoll

-- The wait for the completion: 0 is `true`, -1 is `false`, and `none` waits for further polls.
unfoldable pub wait_control : List ControlPoll → Option Bool
wait_control [] = none
wait_control (empty ∷ polls) = wait_control polls
wait_control (negative ∷ polls) = some false
wait_control (completion success ∷ polls) = some success

-- `send_control_message`; `posted` says whether the request was taken.
unfoldable pub send_control_message : (posted : Bool) → List ControlPoll → Option Bool
send_control_message posted polls = if posted then wait_control polls else some false

-- The root's loop, `while (send_complete < message_num)`
unfoldable pub root_loop : (messages : ℕ) → List Poll → Sender → Sending
root_loop messages [] s = if ltb s.send_complete messages then pending s else sent_all s
root_loop messages (error ∷ polls) s = if ltb s.send_complete messages then broken s else sent_all s
root_loop messages (batch wcs ∷ polls) s =
    let more = send_completions messages wcs s (root_loop messages polls) in
    if ltb s.send_complete messages then more else sent_all s

-- The root: whatever the control message comes to, the data follows it.
unfoldable pub broadcast_root :
    (posted : Bool) → List ControlPoll → (window_size len : ℕ) → List Poll → Option Sending
broadcast_root posted control window_size len polls =
    let sends = initial_sends (message_num len) 0 (window_size / message_size) in
    send_control_message posted control >>= λ _. some (
      root_loop (message_num len) polls
        (record { send_complete = 0; send_num = length sends; posted = sends }))

-- The variables of a receiver's loop
pub record Receiver : Type 0 where
  pub receive_num : ℕ
  pub contents : ℕ → ℕ

pub data Receiving : Type 0 where
  received_all failed waiting : Receiver → Receiving

-- A message that has come
unfoldable pub taken : (len : ℕ) → Wc → Receiver → Receiver
taken len wc r = record {
  receive_num = r.receive_num + 1;
  contents = copy_out len wc.wr_id wc.pack r.contents;
}

-- The completions of one poll; a failed one ends the function.
unfoldable pub receive_completions :
    (len : ℕ) → List Wc → Receiver → (Receiver → Receiving) → Receiving
receive_completions len [] r k = k r
receive_completions len (wc ∷ wcs) r k =
    let next = if is_recv wc.opcode then taken len wc r else r in
    let rest = receive_completions len wcs next k in if wc.success then rest else failed r

-- A receiver's loop, `while (receive_num < message_num)`
unfoldable pub receive_loop : (len : ℕ) → List Poll → Receiver → Receiving
receive_loop len [] r = if ltb r.receive_num (message_num len) then waiting r else received_all r
receive_loop len (error ∷ polls) r =
    if ltb r.receive_num (message_num len) then failed r else received_all r
receive_loop len (batch wcs ∷ polls) r =
    let more = receive_completions len wcs r (receive_loop len polls) in
    if ltb r.receive_num (message_num len) then more else received_all r

unfoldable pub broadcast_receiver : (len : ℕ) → (contents : ℕ → ℕ) → List Poll → Receiving
broadcast_receiver len contents polls =
    receive_loop len polls (record { receive_num = 0; contents = contents })
