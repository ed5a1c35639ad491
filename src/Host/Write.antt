-- ===== src/Host/Write.antt =====
-- repository/src/api.c: post_send, inccl_allreduce_write and inccl_reduce_write, which send by RDMA
-- writes.
pub mod Lost
mod Tests
use inc_emulation.Base.{
  ℕ, ◌+◌, ◌-◌, ◌*◌, ◌/◌, ◌%◌, Bool, true, false, not, ◌&&◌, ◌==◌, ltb, leb, if◌then◌else◌, Option,
  none, some, List, [], ◌∷◌, ◌++◌, length, bswap32,
}
use inc_emulation.Host.Allreduce.{
  payload_count, message_size, initial_sends, WcOpcode, recv, rdma_write, Wc, Loop, Result,
  finished, failed, waiting, Poll, error, batch,
}
use inc_emulation.Host.Reduce.{Sender, Sending, sent_all, broken, pending, completed}

-- The number of messages of both functions
unfoldable pub whole_messages : ℕ → ℕ
whole_messages len = len / payload_count

-- The word j of the buffer that `post_send` fills for message idx
unfoldable pub post_send : (src_data : ℕ → ℕ) → (idx j : ℕ) → ℕ
post_send src_data idx j = bswap32 (src_data (idx * payload_count + j))

abbrev pub is_write : WcOpcode → Bool
is_write rdma_write = true
is_write _ = false

-- The copy of a message of inccl_allreduce_write, whatever the length of the array is
unfoldable pub copy_message : (idx : ℕ) → (ℕ → ℕ) → (ℕ → ℕ) → ℕ → ℕ
copy_message idx pack dst k =
    if leb (idx * payload_count) k && ltb k (idx * payload_count + payload_count)
    then bswap32 (pack (k - idx * payload_count))
    else dst k

-- A message that has come: copy it out by `copy`, count it, and send the next one if there is one.
abbrev pub came : (copy : (ℕ → ℕ) → ℕ → ℕ) → (messages : ℕ) → Loop → Loop
came copy messages l =
    let sends = ltb l.send_num messages in
    record {
      receive_num = l.receive_num + 1;
      send_num = if sends then l.send_num + 1 else l.send_num;
      posted = if sends then l.posted ++ (l.send_num ∷ []) else l.posted;
      dst_data = copy l.dst_data;
    }

-- The completion of a write counts as a message that has come; a failed completion is only printed.
unfoldable pub write_completed : (messages : ℕ) → Wc → Loop → Loop
write_completed messages wc l =
    if wc.success && is_write wc.opcode then came (copy_message wc.wr_id wc.pack) messages l else l

unfoldable pub writes_completed : (messages : ℕ) → List Wc → Loop → Loop
writes_completed messages [] l = l
writes_completed messages (wc ∷ wcs) l =
    writes_completed messages wcs (write_completed messages wc l)

unfoldable pub write_loop : (messages : ℕ) → List Poll → Loop → Result
write_loop messages [] l = if l.receive_num == messages then finished l else waiting l
write_loop messages (error ∷ polls) l = if l.receive_num == messages then finished l else failed l
write_loop messages (batch wcs ∷ polls) l =
    let more = write_loop messages polls (writes_completed messages wcs l) in
    if l.receive_num == messages then finished l else more

-- What both functions have posted and counted before their loops
unfoldable pub first_window : (window_size messages : ℕ) → (dst_data : ℕ → ℕ) → Loop
first_window window_size messages dst_data =
    let sends = initial_sends messages 0 (window_size / message_size) in
    record { receive_num = 0; send_num = length sends; posted = sends; dst_data = dst_data }

unfoldable pub inccl_allreduce_write :
    (window_size len : ℕ) → (dst_data : ℕ → ℕ) → List Poll → Result
inccl_allreduce_write window_size len dst_data polls =
    let messages = whole_messages len in
    write_loop messages polls (first_window window_size messages dst_data)

-- The word j of message i of inccl_reduce_write: the first message starts with the operation and the
-- root's rank.
unfoldable pub reduce_prepared : (root_rank : ℕ) → (src_data : ℕ → ℕ) → (len i j : ℕ) → ℕ
reduce_prepared root_rank src_data len i j =
    let src_idx = if i == 0 then j - 2 else payload_count - 2 + (i - 1) * payload_count + j in
    let word = if ltb src_idx len then bswap32 (src_data src_idx) else 0 in
    if i == 0 && j == 0 then bswap32 1 else if i == 0 && j == 1 then bswap32 root_rank else word

-- The root's copy of a message: the first one without its two words of metadata
unfoldable pub reduce_copy : (len idx : ℕ) → (ℕ → ℕ) → (ℕ → ℕ) → ℕ → ℕ
reduce_copy len idx pack dst k =
    let base = payload_count - 2 + (idx - 1) * payload_count in
    if idx == 0
    then (if ltb (k + 2) payload_count && ltb k len then bswap32 (pack (k + 2)) else dst k)
    else if leb base k && ltb k (base + payload_count) && ltb k len
    then bswap32 (pack (k - base))
    else dst k

abbrev pub is_plain_recv : WcOpcode → Bool
is_plain_recv recv = true
is_plain_recv _ = false

-- The root's loop over the completions of one poll; a failed one ends the function.
unfoldable pub root_completions : (len messages : ℕ) → List Wc → Loop → (Loop → Result) → Result
root_completions len messages [] l k = k l
root_completions len messages (wc ∷ wcs) l k =
    let next =
      if is_plain_recv wc.opcode then came (reduce_copy len wc.wr_id wc.pack) messages l else l in
    let rest = root_completions len messages wcs next k in if wc.success then rest else failed l

unfoldable pub write_root_loop : (len messages : ℕ) → List Poll → Loop → Result
write_root_loop len messages [] l = if l.receive_num == messages then finished l else waiting l
write_root_loop len messages (error ∷ polls) l =
    if l.receive_num == messages then finished l else failed l
write_root_loop len messages (batch wcs ∷ polls) l =
    let more = root_completions len messages wcs l (write_root_loop len messages polls) in
    if l.receive_num == messages then finished l else more

-- The other ranks' loop, which counts the completions of writes
unfoldable pub sender_completions : (messages : ℕ) → List Wc → Sender → (Sender → Sending) → Sending
sender_completions messages [] s k = k s
sender_completions messages (wc ∷ wcs) s k =
    let next = if is_write wc.opcode then completed messages s else s in
    let rest = sender_completions messages wcs next k in if wc.success then rest else broken s

unfoldable pub write_sender_loop : (messages : ℕ) → List Poll → Sender → Sending
write_sender_loop messages [] s = if ltb s.send_complete s.send_num then pending s else sent_all s
write_sender_loop messages (error ∷ polls) s =
    if ltb s.send_complete s.send_num then broken s else sent_all s
write_sender_loop messages (batch wcs ∷ polls) s =
    let more = sender_completions messages wcs s (write_sender_loop messages polls) in
    if ltb s.send_complete s.send_num then more else sent_all s

-- `inccl_reduce_write` on the root and on the others; `none` is the return for a length that is no
-- multiple of the message's.
unfoldable pub reduce_write_root :
    (window_size len : ℕ) → (dst_data : ℕ → ℕ) → List Poll → Option Result
reduce_write_root window_size len dst_data polls =
    let messages = whole_messages len in
    if not (len % payload_count == 0)
    then none
    else some (write_root_loop len messages polls (first_window window_size messages dst_data))

unfoldable pub reduce_write_sender : (window_size len : ℕ) → List Poll → Option Sending
reduce_write_sender window_size len polls =
    let messages = whole_messages len in
    let sends = initial_sends messages 0 (window_size / message_size) in
    if not (len % payload_count == 0)
    then none
    else some (
        write_sender_loop messages polls
          (record { send_complete = 0; send_num = length sends; posted = sends }))
