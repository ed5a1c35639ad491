-- ===== src/Network/Tests.antt =====
-- Two hosts with arrays of three numbers, and the switch between them.
use mathlib.Core.List.{Permᴰ}
use inc_emulation.Base.{
  ℕ, ◌+◌, ◌*◌, ◌/◌, ◌%◌, ◌≤◌, ◌<◌, ◌≡◌, refl, arith, true, some, none, inl, List, [], ◌∷◌, map,
  u32_mod,
}
use inc_emulation.Host.Allreduce.{
  prepared, message_num, Wc, recv, Loop, finished, batch, inccl_allreduce_sendrecv,
}
use inc_emulation.Host.Window.{ids_all, ids_of}
use inc_emulation.Switch.State.{Context, Sent, Outcome}
use inc_emulation.Switch.Context.{init_psn_state, empty_buffer}
use inc_emulation.Switch.Aggregate.Sum.{Contribution, aggregate_all}
use inc_emulation.Switch.Examples.{two_hosts, host_rule, host_data}
use mathlib.Core.Path.{ap₂}
use inc_emulation.Packet.{extra_len}
use inc_emulation.Switch.Send.{
  cache_and_broadcast, cached_slot, broadcast_to, find_conn, send_next, send_packet,
  strip_immediate_opcode,
}
use inc_emulation.Switch.Aggregate.{aggregate, accumulate, complete, clear_aggregation}
use inc_emulation.Network.{sum_sources, Round}
use inc_emulation.Network.Allreduce.{allreduce_all}

abbrev sources : List (ℕ → ℕ)
sources = (λ k. k + 1) ∷ (λ k. 10 * k + 5) ∷ []

-- The packet of host c with the part p of its message i
abbrev packet_of : (c : ℕ) (src : ℕ → ℕ) (i p : ℕ) → Contribution
packet_of c src i p = record {
  conn_id = c;
  payload = λ j. prepared src 3 i (p * 256 + j);
  packet_type = 1;
}

abbrev packets : (i p : ℕ) → List Contribution
packets i p = packet_of 0 (λ k. k + 1) i p ∷ packet_of 1 (λ k. 10 * k + 5) i p ∷ []

abbrev out_of_order : (i p : ℕ) → List Contribution
out_of_order i p = packet_of 1 (λ k. 10 * k + 5) i p ∷ packet_of 0 (λ k. k + 1) i p ∷ []

-- What the switch makes of them, and the frame that it sends to host 0
abbrev added : (i p : ℕ) → Outcome
added i p = aggregate_all two_hosts (host_rule 0) 0 256 (out_of_order i p)

abbrev state_of : Outcome → Context
state_of none = two_hosts
state_of (some (ctx, sent)) = ctx

abbrev sent_of : Outcome → List Sent
sent_of none = []
sent_of (some (ctx, sent)) = sent

abbrev first_of : List Sent → Sent
first_of [] = record { conn = 0; frame = host_data 0 0 }
first_of (s ∷ sent) = s

-- The messages that come back
abbrev back : ℕ → ℕ → ℕ
back i k = (first_of (sent_of (added i (k / 256)))).frame.body (k % 256)

abbrev one_message : List (List Wc)
one_message = (record { success = true; opcode = recv; wr_id = 0; pack = back 0 } ∷ []) ∷ []

each_part : (i p : ℕ) → Round 3 256 sources back i p
unfolding aggregate_all aggregate accumulate complete cache_and_broadcast cached_slot broadcast_to
    find_conn send_next send_packet strip_immediate_opcode extra_len init_psn_state empty_buffer
    clear_aggregation
each_part i p = record {
  ctx = two_hosts;
  rule = host_rule 0;
  psn = 0;
  hosts = packets i p;
  arrived = out_of_order i p;
  last = state_of (added i p);
  sent = sent_of (added i p);
  frame = first_of (sent_of (added i p));
  parts = (λ j l. refl, (λ j l. refl, tt));
  order = Permᴰ.swap refl refl;
  full = refl;
  below = (omega arith, (omega arith, tt));
  free = refl;
  op = refl;
  is_root = refl;
  outcome = refl;
  is_sent = inl refl;
  comes_back = λ j l.
      ap₂ (λ k n. (first_of (sent_of (added i k))).frame.body n) (omega (arith, l))
        (omega (arith, l));
}

allreduce_all_example :
    (last : Loop) × (inccl_allreduce_sendrecv 8192 3 (λ _. 0) (map batch one_message)
      ≡ finished last)
    × ((k : ℕ) → k < 3 → last.dst_data k ≡ sum_sources sources k % u32_mod)
    × ((k : ℕ) → 3 ≤ k → last.dst_data k ≡ 0)
unfolding message_num ids_of ids_all
allreduce_all_example =
    allreduce_all 8192 3 256 4 sources back (λ _. 0) one_message (omega arith) (omega arith)
      (λ k l. omega (arith, l), (λ k l. omega (arith, l), tt)) (omega arith) refl
      (λ i p l h. each_part i p) (((refl, λ j l. refl), tt), tt) refl (λ i l. ground (arith, l))
