-- ===== src/Host/Result.antt =====
-- repository/src/api.c: what inccl_allreduce_sendrecv sends and what it returns.
use mathlib.Core.Path.{subst}
use native.Mathlib.Decide.{ℕ_discrete}
use inc_emulation.Base.{
  ℕ, ◌+◌, ◌*◌, ◌/◌, ◌%◌, ◌^◌, ◌≤◌, ◌<◌, ◌≡◌, ◌≢◌, refl, sym, ap, ◌∙◌, arith, true, List, [], ◌∷◌,
  map, bswap32, bswap32-bswap32, u32_mod, length,
}
use inc_emulation.Host.Allreduce.{
  message_size, payload_count, message_num, prepared, initial_sends, Wc, Loop, Result, finished,
  batch, poll_loop, inccl_allreduce_sendrecv,
}
use inc_emulation.Host.Window.{
  range, length-range, smaller, occurs, initial_sends_lem, ids_of, ids_all, ids_all_same, PollsGood,
  Holds, arrived, completions-good, arrived-Holds,
}

module _ (len window : ℕ) (x : ℕ → ℕ → ℕ) (dst : ℕ → ℕ) where
  -- The loop over the polls ends, with all messages received.
  record Ends (o : Result) (ids : List ℕ) : Type 0 where
    last : Loop
    outcome : o ≡ finished last
    held : Holds len window x dst last ids

  loop-Ends :
      (polls : List (List Wc)) (l : Loop) (ids : List ℕ)
      → PollsGood len window x dst polls
      → Holds len window x dst l ids
      → length (ids_all polls ids) ≡ message_num len
      → Ends (poll_loop len (message_num len) (map batch polls) l) (ids_all polls ids)
  unfolding poll_loop ids_all
  loop-Ends [] l ids good h e = record { last = l; outcome = ground (arith, h.count, e); held = h }
  loop-Ends (wcs ∷ polls) l ids good h e = elim (ℕ_discrete (length ids) (message_num len)) [
    | yes full ↦ record {
      last = l;
      outcome = ground (arith, h.count, full);
      held =
          subst (Holds len window x dst l) (sym (ids_all_same (wcs ∷ polls) ids (e ∙ sym full))) h;
    }
    | no more ↦
        further
          (loop-Ends polls next (ids_of wcs ids) good.1
            (arrived-Holds len window x dst wcs l ids good.0 h) e)
          more
  ]
    where
      next : Loop
      next = arrived len window x dst wcs l

      further :
          Ends
            (poll_loop len (message_num len) (map batch polls) next)
            (ids_all polls (ids_of wcs ids))
          → length ids ≢ message_num len
          → Ends
              (poll_loop len (message_num len) (map batch (wcs ∷ polls)) l)
              (ids_all polls (ids_of wcs ids))
      further r more = record {
        last = r.last;
        outcome = ground (
          arith,
          h.count,
          more,
          r.outcome,
          completions-good len window x dst wcs l
              (poll_loop len (message_num len) (map batch polls)) good.0,
        );
        held = r.held;
      }

  initial-Holds :
      (sends : List ℕ)
      → sends ≡ range 0 (smaller window (message_num len))
      → Holds len window x dst
          (record { receive_num = 0; send_num = length sends; posted = sends; dst_data = dst })
          []
  initial-Holds sends e = record {
    count = refl;
    sends =
        ap length e
        ∙ length-range 0 (smaller window (message_num len))
        ∙ ap (λ n. smaller n (message_num len)) (omega arith);
    posts =
        e ∙ ap (range 0) (sym (ap length e ∙ length-range 0 (smaller window (message_num len))));
    copied = λ i small k never. absurd (ground (arith, never));
    kept = λ i k. refl;
  }

-- An AllReduce ends with success once as many messages have come as the array needs. By then it has
-- posted every message once, in order, and nothing else. Each number of the result below the length
-- whose message has come is that message's word in host order, and the memory behind the length is
-- untouched. This holds for any order of the messages and any batches, with other completions in
-- between; the array has less than 2 ^ 31 numbers, all completions succeed, and the message of a request has the same words however often its
-- completion comes.
pub inccl_allreduce_sendrecv_lem :
    (window_size len : ℕ) (x : ℕ → ℕ → ℕ) (dst : ℕ → ℕ) (polls : List (List Wc))
    → len < 2 ^ 31
    → PollsGood len (window_size / message_size) x dst polls
    → length (ids_all polls []) ≡ message_num len
    → (last : Loop) × (inccl_allreduce_sendrecv window_size len dst (map batch polls)
        ≡ finished last)
      × (last.receive_num ≡ message_num len)
      × (last.posted ≡ range 0 (message_num len))
      × ((i : ℕ)
          → i < len
          → occurs (i / payload_count) (ids_all polls []) ≡ true
          → last.dst_data i ≡ bswap32 (x (i / payload_count) (i % payload_count)))
      × ((i : ℕ) → len ≤ i → last.dst_data i ≡ dst i)
unfolding inccl_allreduce_sendrecv
inccl_allreduce_sendrecv_lem window_size len x dst polls small good full = (
  r.last,
  r.outcome,
  r.held.count ∙ full,
  r.held.posts ∙ ap (range 0) all_sent,
  λ i. r.held.copied i small,
  r.held.kept,
)
  where
    r :
        Ends len
          (window_size / message_size)
          x
          dst
          (inccl_allreduce_sendrecv window_size len dst (map batch polls))
          (ids_all polls [])
    r =
        loop-Ends len (window_size / message_size) x dst polls _ [] good
          (initial-Holds len (window_size / message_size) x dst
            (initial_sends (message_num len) 0 (window_size / message_size))
            (initial_sends_lem (message_num len) 0 (window_size / message_size)
              (smaller (window_size / message_size) (message_num len)) (ground arith)))
          full

    all_sent : r.last.send_num ≡ message_num len
    all_sent = ground (arith, r.held.sends, full)

-- The messages that a host prepares hold its whole array: every number stands, in network order, in
-- one of the messages that are sent, at its place, the places behind the array are 0, and
-- there are less than 1024 of these. The numbers have 32 bits, and there are less than 2 ^ 31 of them.
pub prepared_lem :
    (src : ℕ → ℕ) (len : ℕ)
    → len < 2 ^ 31
    → ((k : ℕ) → k < len → src k < u32_mod)
    → ((k : ℕ)
        → k < len
        → (k / payload_count < message_num len)
          × (bswap32 (prepared src len (k / payload_count) (k % payload_count)) ≡ src k))
      × ((i j : ℕ) → len ≤ i * payload_count + j → prepared src len i j ≡ 0)
      × (message_num len * payload_count < len + payload_count)
unfolding message_num prepared
prepared_lem src len small words = (
  λ k h. (
    omega (arith, h),
    ap bswap32 (ground (arith, small, h, place k)) ∙ bswap32-bswap32 (src k) (words k h),
  ),
  λ i j h. ground (arith, small, h),
  omega arith,
)
  where
    place : (k : ℕ) → k / payload_count * payload_count + k % payload_count ≡ k
    place k = omega arith
