-- ===== src/Host/Write/Lost.antt =====
-- repository/src/api.c: the numbers that inccl_allreduce_write and inccl_reduce_write leave out.
use inc_emulation.Base.{
  ℕ, ◌+◌, ◌-◌, ◌*◌, ◌%◌, ◌≤◌, ◌<◌, ◌≡◌, refl, ◌∙◌, arith, Bool, true, false, ◌==◌, if◌then◌else◌,
  Bool-cases, inl, inr, List, [], ◌∷◌,
}
use inc_emulation.Host.Allreduce.{
  payload_count, Wc, Loop, Result, finished, failed, waiting, Poll, error, batch,
}
use inc_emulation.Host.Write.{
  whole_messages, copy_message, write_completed, writes_completed, write_loop, first_window,
  inccl_allreduce_write, reduce_prepared, reduce_copy,
}

-- The variables at the end, or at the point that is reached
abbrev pub last_of : Result → Loop
last_of (finished l) = l
last_of (failed l) = l
last_of (waiting l) = l

-- Completions of requests that were posted: their numbers are below that of the messages.
abbrev pub AllPosted : ℕ → List Wc → Type 0
AllPosted messages [] = Unit {0}
AllPosted messages (wc ∷ wcs) = (wc.wr_id < messages) × AllPosted messages wcs

abbrev pub PollsPosted : ℕ → List Poll → Type 0
PollsPosted messages [] = Unit {0}
PollsPosted messages (error ∷ polls) = PollsPosted messages polls
PollsPosted messages (batch wcs ∷ polls) = AllPosted messages wcs × PollsPosted messages polls

last_of-if :
    (b : Bool) (l : Loop) (r : Result) (k v : ℕ)
    → l.dst_data k ≡ v
    → (last_of r).dst_data k ≡ v
    → (last_of (if b then finished l else r)).dst_data k ≡ v
last_of-if true l r k v e f = e
last_of-if false l r k v e f = f

module _ (messages k : ℕ) (behind : messages * payload_count ≤ k) where
  write_completed-behind :
      (wc : Wc) (l : Loop)
      → wc.wr_id < messages
      → (write_completed messages wc l).dst_data k ≡ l.dst_data k
  unfolding write_completed copy_message
  write_completed-behind wc l lt = ground (arith, behind, lt)

  writes_completed-behind :
      (wcs : List Wc) (l : Loop)
      → AllPosted messages wcs
      → (writes_completed messages wcs l).dst_data k ≡ l.dst_data k
  unfolding writes_completed
  writes_completed-behind [] l p = refl
  writes_completed-behind (wc ∷ wcs) l (lt, p) =
      writes_completed-behind wcs (write_completed messages wc l) p ∙ write_completed-behind wc l lt

  write_loop-behind :
      (polls : List Poll) (l : Loop)
      → PollsPosted messages polls
      → (last_of (write_loop messages polls l)).dst_data k ≡ l.dst_data k
  unfolding write_loop
  write_loop-behind [] l p = last_of-if (l.receive_num == messages) l (waiting l) k _ refl refl
  write_loop-behind (error ∷ polls) l p =
      last_of-if (l.receive_num == messages) l (failed l) k _ refl refl
  write_loop-behind (batch wcs ∷ polls) l (now, p) =
      last_of-if (l.receive_num == messages) l
        (write_loop messages polls (writes_completed messages wcs l)) k _ refl
        (write_loop-behind polls (writes_completed messages wcs l) p
          ∙ writes_completed-behind wcs l now)

-- An AllReduce by writes never stores the numbers behind the last whole message: whatever the polls
-- give, the result keeps there what it held before. The completions are those of posted requests.
inccl_allreduce_write-rest :
    (window_size len k : ℕ) (dst_data : ℕ → ℕ) (polls : List Poll)
    → whole_messages len * payload_count ≤ k
    → PollsPosted (whole_messages len) polls
    → (last_of (inccl_allreduce_write window_size len dst_data polls)).dst_data k ≡ dst_data k
unfolding inccl_allreduce_write first_window
inccl_allreduce_write-rest window_size len k dst_data polls h p =
    write_loop-behind (whole_messages len) k h polls _ p

-- A Reduce by writes loses the last two numbers: the messages that a rank sends are the same whatever
-- these numbers are, since the metadata takes two words of the first message and no message is added,
-- and no message that the root copies out reaches their places. The length is a multiple of 1024,
-- as the function asks for.
pub reduce_write-last_two :
    (len root_rank : ℕ) (src src' : ℕ → ℕ)
    → len % payload_count ≡ 0
    → ((i : ℕ) → i + 2 < len → src i ≡ src' i)
    → ((i j : ℕ)
        → i < whole_messages len
        → j < payload_count
        → reduce_prepared root_rank src len i j ≡ reduce_prepared root_rank src' len i j)
      × ((idx k : ℕ) (pack dst : ℕ → ℕ)
          → idx < whole_messages len
          → len ≤ k + 2
          → reduce_copy len idx pack dst k ≡ dst k)
unfolding reduce_prepared reduce_copy whole_messages
reduce_write-last_two len root_rank src src' whole same = (
  λ i j lt in_message. elim (Bool-cases (i == 0)) [
    | inl first ↦ rw first (ground (arith, whole, first, lt, in_message, same (j - 2)))
    | inr later ↦ rw later (
        ground (
          arith,
          whole,
          later,
          lt,
          in_message,
          same (payload_count - 2 + (i - 1) * payload_count + j),
        ))
  ],
  λ idx k pack dst lt end. elim (Bool-cases (idx == 0)) [
    | inl first ↦ rw first (ground (arith, whole, first, lt, end))
    | inr later ↦ rw later (ground (arith, whole, later, lt, end))
  ],
)
