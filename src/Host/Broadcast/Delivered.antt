-- ===== src/Host/Broadcast/Delivered.antt =====
-- repository/src/api.c, inccl_broadcast_sendrecv: what the root has sent at its end, and what the
-- other ranks have.
use mathlib.Core.Path.{subst}
use native.Mathlib.Decide.{ℕ_discrete}
use inc_emulation.Base.{
  ℕ, ◌+◌, ◌*◌, ◌/◌, ◌%◌, ◌^◌, ◌≤◌, ◌<◌, ◌≡◌, refl, sym, ap, ◌∙◌, arith, Bool, true, false, ltb,
  if◌then◌else◌, Bool-cases, inl, inr, some, List, [], ◌∷◌, map, length, bswap32, bswap32-bswap32,
  u32_mod,
}
use inc_emulation.Host.Allreduce.{
  payload_count, message_size, message_num, signed_len, prepared, is_recv, Wc, copy_out, batch,
}
use inc_emulation.Host.Window.{
  range, occurs, ids_of, ids_all, ids_all_same, ids_all_longer, copy_out-own, copy_out-other,
}
use inc_emulation.Host.Reduce.{Sender, Sending, sent_all}
use inc_emulation.Host.Reduce.Drained.{
  started, started-HasSent, PollsSucceed, sends_in, sends_in_all, HasSent, behind,
  send_completions-good, behind-HasSent,
}
use inc_emulation.Host.Broadcast.{
  send_control_message, root_loop, broadcast_root, Receiver, Receiving, received_all, taken,
  receive_completions, receive_loop, broadcast_receiver, ControlPoll,
}

module _ (messages window : ℕ) where
  record AllSent (o : Sending) : Type 0 where
    last : Sender
    outcome : o ≡ sent_all last
    posted : last.posted ≡ range 0 messages

  root_loop-AllSent :
      (polls : List (List Wc)) (s : Sender) (n : ℕ)
      → 0 < window
      → PollsSucceed polls
      → HasSent messages window s n
      → n + sends_in_all polls ≡ messages
      → AllSent (root_loop messages (map batch polls) s)
  unfolding root_loop sends_in_all
  root_loop-AllSent [] s n room good h e = record {
    last = s;
    outcome = ground (arith, h.count, h.sends, e);
    posted = h.posts ∙ ap (range 0) (ground (arith, h.sends, e));
  }
  root_loop-AllSent (wcs ∷ polls) s n room good h e =
      elim (Bool-cases (ltb s.send_complete messages)) [
        | inl t ↦
            let r =
              root_loop-AllSent polls (behind messages window wcs s) (n + sends_in wcs) room good.1
                (behind-HasSent messages window wcs s n h) (omega (arith, e)) in
            record {
              last = r.last;
              outcome = ground (
                arith,
                t,
                r.outcome,
                send_completions-good messages window wcs s (root_loop messages (map batch polls))
                    good.0,
              );
              posted = r.posted;
            }
        | inr f ↦ record {
          last = s;
          outcome = rw (root_loop, f) refl;
          posted = h.posts ∙ ap (range 0) (ground (arith, h.count, h.sends, e, f));
        }
      ]

-- The root of a Broadcast comes to its end when as many of its requests are complete as it has
-- messages, in any batches: by then it has posted every message once, in order. The control message has
-- been answered, with success or not, the window has room for one message at least, and every
-- completion succeeds.
broadcast_root_lem :
    (posted answer : Bool) (control : List ControlPoll) (window_size len : ℕ)
    (polls : List (List Wc))
    → send_control_message posted control ≡ some answer
    → message_size ≤ window_size
    → PollsSucceed polls
    → sends_in_all polls ≡ message_num len
    → (last : Sender) × (broadcast_root posted control window_size len (map batch polls)
        ≡ some (sent_all last))
      × (last.posted ≡ range 0 (message_num len))
unfolding broadcast_root
broadcast_root_lem posted answer control window_size len polls answered room good full =
    (r.last, rw (answered, r.outcome) refl, r.posted)
  where
    window : ℕ
    window = window_size / message_size

    r :
        AllSent
          (message_num len)
          window
          (root_loop (message_num len) (map batch polls) (started (message_num len) window))
    r =
        root_loop-AllSent (message_num len) window polls (started (message_num len) window) 0
          (omega (arith, room)) good (started-HasSent (message_num len) window)
          (omega (arith, full))

module _ (len : ℕ) (src : ℕ → ℕ) (before : ℕ → ℕ) where
  -- Completions that succeed, each message with the words that the root has prepared for it
  abbrev pub AllPrepared : List Wc → Type 0
  AllPrepared [] = Unit {0}
  AllPrepared (wc ∷ wcs) =
      (wc.success ≡ true)
      × ((j : ℕ) → j < payload_count → wc.pack j ≡ prepared src len wc.wr_id j)
      × AllPrepared wcs

  abbrev pub PollsPrepared : List (List Wc) → Type 0
  PollsPrepared [] = Unit {0}
  PollsPrepared (wcs ∷ polls) = AllPrepared wcs × PollsPrepared polls

  -- The state of the loop when the messages `ids` have come
  record Holds (r : Receiver) (ids : List ℕ) : Type 0 where
    count : r.receive_num ≡ length ids
    copied : (i : ℕ) → i < len → occurs (i / payload_count) ids ≡ true → r.contents i ≡ src i
    kept : (i : ℕ) → len ≤ i → r.contents i ≡ before i

  module _ (small : len < 2 ^ 31) (words : (i : ℕ) → i < len → src i < u32_mod) where
    prepared-own :
        (i : ℕ)
        → i < len
        → bswap32 (prepared src len (i / payload_count) (i % payload_count)) ≡ src i
    unfolding prepared
    prepared-own i k = rw (← place i) (rw (inside i k) (bswap32-bswap32 (src i) (words i k)))
      where
        place : (i : ℕ) → i ≡ i / payload_count * payload_count + i % payload_count
        place i = omega arith

        inside : (i : ℕ) → i < len → ltb i (signed_len len) ≡ true
        inside i k = ground (arith, small, k)

    taken-Holds :
        (wc : Wc) (r : Receiver) (ids : List ℕ)
        → ((j : ℕ) → j < payload_count → wc.pack j ≡ prepared src len wc.wr_id j)
        → Holds r ids
        → Holds (taken len wc r) (wc.wr_id ∷ ids)
    unfolding taken copy_out
    taken-Holds wc r ids pack h = record {
      count = omega (arith, h.count);
      copied = λ i k e. elim (ℕ_discrete (i / payload_count) wc.wr_id) [
        | yes same ↦
            copy_out-own len wc.wr_id i wc.pack r.contents small k same
            ∙ ap bswap32 (
                pack (i % payload_count) (omega arith)
                ∙ ap (λ n. prepared src len n (i % payload_count)) (sym same))
            ∙ prepared-own i k
        | no differ ↦
            copy_out-other len wc.wr_id i wc.pack r.contents differ
            ∙ h.copied i k (ground (arith, e, differ))
      ];
      kept = λ i k. ground (arith, h.kept i k);
    }

    arrived : List Wc → Receiver → Receiver
    arrived [] r = r
    arrived (wc ∷ wcs) r = arrived wcs (if is_recv wc.opcode then taken len wc r else r)

    receive_completions-good :
        (wcs : List Wc) (r : Receiver) (k : Receiver → Receiving)
        → AllPrepared wcs
        → receive_completions len wcs r k ≡ k (arrived wcs r)
    unfolding receive_completions arrived taken
    receive_completions-good [] r k good = refl
    receive_completions-good (wc ∷ wcs) r k (ok, _, good) =
        rw ok
          (receive_completions-good wcs (if is_recv wc.opcode then taken len wc r else r) k good)

    arrived-Holds :
        (wcs : List Wc) (r : Receiver) (ids : List ℕ)
        → AllPrepared wcs
        → Holds r ids
        → Holds (arrived wcs r) (ids_of wcs ids)
    unfolding arrived ids_of
    arrived-Holds [] r ids good h = h
    arrived-Holds (wc ∷ wcs) r ids (_, pack, good) h = elim (Bool-cases (is_recv wc.opcode)) [
      | inl t ↦ rw t (arrived-Holds wcs _ _ good (taken-Holds wc r ids pack h))
      | inr f ↦ rw f (arrived-Holds wcs r ids good h)
    ]

    record Delivered (o : Receiving) (ids : List ℕ) : Type 0 where
      last : Receiver
      outcome : o ≡ received_all last
      holds : Holds last ids

    receive_loop-Delivered :
        (polls : List (List Wc)) (r : Receiver) (ids : List ℕ)
        → PollsPrepared polls
        → Holds r ids
        → length (ids_all polls ids) ≡ message_num len
        → Delivered (receive_loop len (map batch polls) r) (ids_all polls ids)
    unfolding receive_loop ids_all
    receive_loop-Delivered [] r ids good h e = record {
      last = r;
      outcome = ground (arith, h.count, e);
      holds = h;
    }
    receive_loop-Delivered (wcs ∷ polls) r ids good h e =
        elim (Bool-cases (ltb r.receive_num (message_num len))) [
          | inl t ↦
              let d =
                receive_loop-Delivered polls (arrived wcs r) (ids_of wcs ids) good.1
                  (arrived-Holds wcs r ids good.0 h) e in
              record {
                last = d.last;
                outcome = ground (
                  arith,
                  t,
                  d.outcome,
                  receive_completions-good wcs r (receive_loop len (map batch polls)) good.0,
                );
                holds = d.holds;
              }
          | inr f ↦ record {
            last = r;
            outcome = rw (receive_loop, f) refl;
            holds = subst (Holds r) (sym (ids_all_same (wcs ∷ polls) ids (stopped f))) h;
          }
        ]
      where
        stopped :
            ltb r.receive_num (message_num len) ≡ false
            → length (ids_all (wcs ∷ polls) ids) ≡ length ids
        stopped f = ground (arith, f, e, h.count, ids_all_longer (wcs ∷ polls) ids)

-- Every rank that receives a Broadcast ends with the sender's array: once as many messages have come as
-- the array needs, each with the words that the root has prepared for it, the function is at its end,
-- each number whose message is among them is the sender's, and the memory behind the length is
-- untouched. The messages come in any order and any batches, with other completions in between; all
-- completions succeed, the numbers have 32 bits, and there are less than 2 ^ 31 of them.
pub broadcast_receiver_lem :
    (len : ℕ) (src before : ℕ → ℕ) (polls : List (List Wc))
    → len < 2 ^ 31
    → ((i : ℕ) → i < len → src i < u32_mod)
    → PollsPrepared len src before polls
    → length (ids_all polls []) ≡ message_num len
    → (last : Receiver) × (broadcast_receiver len before (map batch polls) ≡ received_all last)
      × ((i : ℕ)
          → i < len
          → occurs (i / payload_count) (ids_all polls []) ≡ true
          → last.contents i ≡ src i)
      × ((i : ℕ) → len ≤ i → last.contents i ≡ before i)
unfolding broadcast_receiver
broadcast_receiver_lem len src before polls small words good full =
    (d.last, d.outcome, d.holds.copied, d.holds.kept)
  where
    start : Receiver
    start = record { receive_num = 0; contents = before }

    d :
        Delivered len src before small words
          (receive_loop len (map batch polls) start)
          (ids_all polls [])
    d =
        receive_loop-Delivered len src before small words polls start [] good
          (record { count = refl; copied = λ i k e. absurd (no_ids e); kept = λ i k. refl }) full
      where
        no_ids : false ≡ true → ⊥
        no_ids e = cc e
