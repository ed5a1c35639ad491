-- ===== src/Host/Reduce/Drained.antt =====
-- repository/src/api.c: a rank that only sends, in a Reduce.
use mathlib.Core.Path.{subst}
use inc_emulation.Base.{
  ℕ, ◌+◌, ◌/◌, ◌≤◌, ◌<◌, ◌≡◌, refl, sym, ap, ◌∙◌, arith, true, ltb, if◌then◌else◌, Bool-cases, inl,
  inr, List, [], ◌∷◌, map, length,
}
use inc_emulation.Host.Allreduce.{message_size, message_num, initial_sends, Wc, batch}
use inc_emulation.Host.Window.{range, range-next, length-range, smaller, initial_sends_lem}
use inc_emulation.Host.Reduce.{
  Sender, Sending, sent_all, is_send, completed, send_completions, send_loop, reduce_sender,
}

abbrev pub AllSucceed : List Wc → Type 0
AllSucceed [] = Unit {0}
AllSucceed (wc ∷ wcs) = (wc.success ≡ true) × AllSucceed wcs

abbrev pub PollsSucceed : List (List Wc) → Type 0
PollsSucceed [] = Unit {0}
PollsSucceed (wcs ∷ polls) = AllSucceed wcs × PollsSucceed polls

-- The completions of sends, in a batch and in all of them
unfoldable pub sends_in : List Wc → ℕ
sends_in [] = 0
sends_in (wc ∷ wcs) = if is_send wc.opcode then sends_in wcs + 1 else sends_in wcs

unfoldable pub sends_in_all : List (List Wc) → ℕ
sends_in_all [] = 0
sends_in_all (wcs ∷ polls) = sends_in wcs + sends_in_all polls

module _ (messages window : ℕ) where
  -- The state of the loop when n of the requests are complete
  pub record HasSent (s : Sender) (n : ℕ) : Type 0 where
    pub count : s.send_complete ≡ n
    pub sends : s.send_num ≡ smaller (window + n) messages
    pub posts : s.posted ≡ range 0 s.send_num

  completed-HasSent : (s : Sender) (n : ℕ) → HasSent s n → HasSent (completed messages s) (n + 1)
  unfolding completed
  completed-HasSent s n h = record {
    count = omega (arith, h.count);
    sends = ground (arith, h.sends);
    posts = ground (arith, h.posts, range-next s.send_num);
  }

  unfoldable pub behind : List Wc → Sender → Sender
  behind [] s = s
  behind (wc ∷ wcs) s = behind wcs (if is_send wc.opcode then completed messages s else s)

  pub send_completions-good :
      (wcs : List Wc) (s : Sender) (k : Sender → Sending)
      → AllSucceed wcs
      → send_completions messages wcs s k ≡ k (behind wcs s)
  unfolding send_completions behind
  send_completions-good [] s k good = refl
  send_completions-good (wc ∷ wcs) s k good =
      rw (good.0)
        (send_completions-good wcs (if is_send wc.opcode then completed messages s else s) k good.1)

  pub behind-HasSent :
      (wcs : List Wc) (s : Sender) (n : ℕ) → HasSent s n → HasSent (behind wcs s) (n + sends_in wcs)
  unfolding behind sends_in
  behind-HasSent [] s n h = subst (HasSent s) (omega arith) h
  behind-HasSent (wc ∷ wcs) s n h = elim (Bool-cases (is_send wc.opcode)) [
    | inl t ↦ rw t (
        subst (HasSent (behind wcs (completed messages s))) (omega arith)
          (behind-HasSent wcs (completed messages s) (n + 1) (completed-HasSent s n h)))
    | inr f ↦ rw f (behind-HasSent wcs s n h)
  ]

  -- The loop ends, with all messages posted and complete.
  record AllSent (o : Sending) : Type 0 where
    last : Sender
    outcome : o ≡ sent_all last
    posted : last.posted ≡ range 0 messages
    done : last.send_complete ≡ messages

  loop-AllSent :
      (polls : List (List Wc)) (s : Sender) (n : ℕ)
      → 0 < window
      → PollsSucceed polls
      → HasSent s n
      → n + sends_in_all polls ≡ messages
      → AllSent (send_loop messages (map batch polls) s)
  unfolding send_loop sends_in_all
  loop-AllSent [] s n open_window good h e = record {
    last = s;
    outcome = ground (arith, h.count, h.sends, e);
    posted = h.posts ∙ ap (range 0) (ground (arith, h.sends, e));
    done = omega (arith, h.count, e);
  }
  loop-AllSent (wcs ∷ polls) s n open_window good h e =
      elim (Bool-cases (ltb s.send_complete s.send_num)) [
        | inl t ↦ further t (
            loop-AllSent polls next (n + sends_in wcs) open_window good.1 (behind-HasSent wcs s n h)
              (omega (arith, e)))
        | inr f ↦ record {
          last = s;
          outcome = rw (send_loop, f) refl;
          posted = h.posts ∙ ap (range 0) (ground (arith, h.count, h.sends, e, f));
          done = ground (arith, h.count, h.sends, e, f);
        }
      ]
    where
      next : Sender
      next = behind wcs s

      further :
          ltb s.send_complete s.send_num ≡ true
          → AllSent (send_loop messages (map batch polls) next)
          → AllSent (send_loop messages (map batch (wcs ∷ polls)) s)
      further t r = record {
        last = r.last;
        outcome = ground (
          arith,
          t,
          r.outcome,
          send_completions-good wcs s (send_loop messages (map batch polls)) good.0,
        );
        posted = r.posted;
        done = r.done;
      }

-- What a sender's loop starts with, after the initial window
abbrev pub started : (messages window : ℕ) → Sender
started messages window =
    let sends = initial_sends messages 0 window in
    record { send_complete = 0; send_num = length sends; posted = sends }

pub started-HasSent : (messages window : ℕ) → HasSent messages window (started messages window) 0
started-HasSent messages window = record {
  count = refl;
  sends = number ∙ ap (λ n. smaller n messages) (omega arith);
  posts = listed ∙ ap (range 0) (sym number);
}
  where
    listed : initial_sends messages 0 window ≡ range 0 (smaller window messages)
    listed = initial_sends_lem messages 0 window (smaller window messages) (ground arith)

    number : length (initial_sends messages 0 window) ≡ smaller window messages
    number = ap length listed ∙ length-range 0 (smaller window messages)

-- A rank that only sends in a Reduce comes to its end when as many of its requests are complete as it
-- has messages, in any batches: by then it has posted every message once, in order, and all are
-- complete. The window has room for one message at least, and every completion succeeds.
pub reduce_sender_lem :
    (window_size len : ℕ) (polls : List (List Wc))
    → message_size ≤ window_size
    → PollsSucceed polls
    → sends_in_all polls ≡ message_num len
    → (last : Sender) × (reduce_sender window_size len (map batch polls) ≡ sent_all last)
      × (last.posted ≡ range 0 (message_num len))
      × (last.send_complete ≡ message_num len)
unfolding reduce_sender
reduce_sender_lem window_size len polls room good full = (r.last, r.outcome, r.posted, r.done)
  where
    window : ℕ
    window = window_size / message_size

    r : AllSent (message_num len) window (reduce_sender window_size len (map batch polls))
    r =
        loop-AllSent (message_num len) window polls _ 0 (omega (arith, room)) good
          (started-HasSent (message_num len) window) (omega (arith, full))
