-- ===== src/Host/Allreduce.antt =====
-- repository/src/api.c: inccl_allreduce_sendrecv, from the buffers to the loop over the completions.
use inc_emulation.Base.{
  ℕ, zero, suc, ◌+◌, ◌-◌, ◌*◌, ◌/◌, ◌^◌, Bool, true, false, ◌&&◌, ◌==◌, ltb, leb, if◌then◌else◌,
  List, [], ◌∷◌, ◌++◌, bswap32, length,
}
use inc_emulation.Imm.{
  build_imm_data, ctl_dest_rank_all, ctl_primitive_allreduce, ctl_operator_sum, ctl_datatype_int32,
}

-- `MESSAGE_SIZE` in bytes, and `PAYLOAD_COUNT` in words of 32 bits
abbrev pub message_size : ℕ
message_size = 4096

abbrev pub payload_count : ℕ
payload_count = 1024

-- The immediate data of the control message in front of the data
abbrev pub allreduce_imm : ℕ
allreduce_imm =
    build_imm_data ctl_dest_rank_all ctl_primitive_allreduce ctl_operator_sum ctl_datatype_int32

unfoldable pub message_num : ℕ → ℕ
message_num len = (len + payload_count - 1) / payload_count

-- `(int)len` where an index is compared with it: a length from 2 ^ 31 on is a negative number, below
-- which there is no index.
abbrev pub signed_len : ℕ → ℕ
signed_len len = if ltb len (2 ^ 31) then len else 0

-- The word j of message i in the send buffer
unfoldable pub prepared : (src : ℕ → ℕ) → (len i j : ℕ) → ℕ
prepared src len i j =
    if ltb (i * payload_count + j) (signed_len len)
    then bswap32 (src (i * payload_count + j))
    else 0

-- The requests of the initial window, from message i on, at most n of them
unfoldable pub initial_sends : (messages i n : ℕ) → List ℕ
initial_sends messages i zero = []
initial_sends messages i (suc n) =
    let rest = initial_sends messages (suc i) n in if ltb i messages then i ∷ rest else []

-- The opcode of a completion
pub data WcOpcode : Type 0 where
  recv recv_rdma_with_imm send rdma_write other : WcOpcode

-- A completion: whether its status is IBV_WC_SUCCESS, and the words that stand in the receive buffer
-- of its request when the loop reads them.
pub record Wc : Type 0 where
  pub success : Bool
  pub opcode : WcOpcode
  pub wr_id : ℕ
  pub pack : ℕ → ℕ

-- The variables of the loop, and the requests that were given to the adapter, in order
pub record Loop : Type 0 where
  pub receive_num : ℕ
  pub send_num : ℕ
  pub posted : List ℕ
  pub dst_data : ℕ → ℕ

-- The loop over a message in the receive buffer
unfoldable pub copy_out : (len idx : ℕ) → (ℕ → ℕ) → (ℕ → ℕ) → ℕ → ℕ
copy_out len idx pack dst k =
    if leb (idx * payload_count) k
      && ltb k (idx * payload_count + payload_count)
      && ltb k (signed_len len)
    then bswap32 (pack (k - idx * payload_count))
    else dst k

-- One completion of a received message: copy it out, count it, and send the next message if there is one
unfoldable pub received : (len messages : ℕ) → Wc → Loop → Loop
received len messages wc l =
    let sends = ltb l.send_num messages in
    record {
      receive_num = l.receive_num + 1;
      send_num = if sends then l.send_num + 1 else l.send_num;
      posted = if sends then l.posted ++ (l.send_num ∷ []) else l.posted;
      dst_data = copy_out len wc.wr_id wc.pack l.dst_data;
    }

-- What the function comes to: all messages received, a return because of an error, or the wait for
-- further completions.
pub data Result : Type 0 where
  finished failed waiting : Loop → Result

abbrev pub is_recv : WcOpcode → Bool
is_recv recv = true
is_recv recv_rdma_with_imm = true
is_recv _ = false

-- The completions of one poll; a failed one ends the function.
unfoldable pub completions : (len messages : ℕ) → List Wc → Loop → (Loop → Result) → Result
completions len messages [] l k = k l
completions len messages (wc ∷ wcs) l k =
    let next = if is_recv wc.opcode then received len messages wc l else l in
    let rest = completions len messages wcs next k in if wc.success then rest else failed l

-- The loop over the polls; `error` is a negative result of ibv_poll_cq.
pub data Poll : Type 0 where
  error : Poll
  batch : List Wc → Poll

unfoldable pub poll_loop : (len messages : ℕ) → List Poll → Loop → Result
poll_loop len messages [] l = if l.receive_num == messages then finished l else waiting l
poll_loop len messages (error ∷ polls) l =
    if l.receive_num == messages then finished l else failed l
poll_loop len messages (batch wcs ∷ polls) l =
    let more = completions len messages wcs l (poll_loop len messages polls) in
    if l.receive_num == messages then finished l else more

-- `inccl_allreduce_sendrecv` behind the control message, with the results of the polls
unfoldable pub inccl_allreduce_sendrecv :
    (window_size len : ℕ) → (dst_data : ℕ → ℕ) → List Poll → Result
inccl_allreduce_sendrecv window_size len dst_data polls =
    let messages = message_num len in
    let sends = initial_sends messages 0 (window_size / message_size) in
    poll_loop len messages polls
      (record { receive_num = 0; send_num = length sends; posted = sends; dst_data = dst_data })
