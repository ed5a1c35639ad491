-- ===== src/Switch/Aggregate/Reduced.antt =====
-- repository/termination_switch/src/switch_main.c: a Reduce on the root switch, whose sums go to one rank.
use mathlib.Core.List.{Permᴰ}
use inc_emulation.Base.{
  ℕ, ◌+◌, ◌%◌, ◌<◌, ◌≡◌, ◌≢◌, refl, arith, true, some, List, [], ◌∷◌, ◌++◌, pos, u32_mod, bswap32,
  length, update, append-nil, suc,
}
use inc_emulation.Rule.{Rule, reduce}
use inc_emulation.Switch.State.{Context, Sent, Outcome, slot, put_slot, max_ranks}
use inc_emulation.Switch.Send.{strip_immediate_opcode}
use inc_emulation.Switch.Send.Gapless.{
  Fits, Carry, data_frame, data_frame-body, send_next-Fits, targets,
}
use inc_emulation.Switch.Aggregate.{
  accumulate, clear_aggregation, reduce_to_root, complete, aggregate,
}
use inc_emulation.Switch.Aggregate.Sum.{
  Contribution, aggregate_all, sum_host, AreWords, Holds, after, plus, after-Holds,
}
use inc_emulation.Switch.Aggregate.Allreduce.{sum_host-Permᴰ}

module _ (rule : Rule) (psn len rank conn : ℕ) (fits : Fits len) where
  -- What a Reduce on the root leaves behind: the slot is free, and one connection has a frame with
  -- the sums.
  record Returned (o : Outcome) (sums : ℕ → ℕ) : Type 0 where
    last : Context
    sent : List Sent
    words : ℕ → ℕ
    outcome : o ≡ some (last, sent)
    freed : (slot last psn).degree ≡ 0
    reached : targets sent ≡ conn ∷ []
    carried : Carry len words sent
    added : (i : ℕ) → i < len → bswap32 (words i) ≡ sums i % u32_mod

  complete-Returned :
      (ctx : Context) (packet_type d : ℕ) (acc : ℕ → ℕ)
      → ctx.is_root ≡ true
      → rank < max_ranks
      → ctx.rank_to_conn rank ≡ pos conn
      → conn < ctx.fan_in
      → Holds (slot ctx psn) (suc d) len acc
      → Returned (complete ctx rule reduce (pos rank) psn len packet_type) acc
  unfolding complete reduce_to_root clear_aggregation targets Carry
  complete-Returned ctx packet_type d acc is_root known to below h = record {
    last = put_slot served psn (clear_aggregation (slot served psn));
    sent =
        data_frame ctx conn words len (ctx.send_psn conn) (strip_immediate_opcode packet_type) ∷ [];
    words = words;
    outcome = ground (
      arith,
      is_root,
      known,
      to,
      below,
      send_next-Fits ctx conn words len (strip_immediate_opcode packet_type) fits,
    );
    freed = ground arith;
    reached = refl;
    carried = (
      data_frame-body ctx conn words len (ctx.send_psn conn) (strip_immediate_opcode packet_type),
      tt,
    );
    added = λ i k. h.sums (λ e. omega (arith, e)) i k;
  }
    where
      words : ℕ → ℕ
      words = (slot ctx psn).agg_buffer.buffer

      served : Context
      served = record ctx { send_psn = update ctx.send_psn conn (ctx.send_psn conn + 1) }

  collect-last :
      (ctx : Context) (acc : ℕ → ℕ) (c : Contribution)
      → (slot ctx psn).degree + 1 ≡ ctx.fan_in
      → ctx.operation_type ≡ reduce
      → ctx.root_rank ≡ pos rank
      → Returned
          (complete (after rule psn len fits ctx c) rule reduce (pos rank) psn len c.packet_type)
          (plus rule psn len fits acc c)
      → Returned (aggregate_all ctx rule psn len (c ∷ [])) (λ i. acc i + sum_host (c ∷ []) i)
  unfolding aggregate_all aggregate sum_host accumulate
  collect-last ctx acc c full op root r = record {
    last = r.last;
    sent = r.sent ++ [];
    words = r.words;
    outcome = ground (arith, full, op, root, r.outcome);
    freed = r.freed;
    reached = rw append-nil r.reached;
    carried = rw append-nil r.carried;
    added = λ i k. ground (arith, r.added i k);
  }

  collect-more :
      (ctx : Context) (acc : ℕ → ℕ) (c : Contribution) (cs : List Contribution)
      → (slot ctx psn).degree + 1 < ctx.fan_in
      → ctx.operation_type ≡ reduce
      → Returned
          (aggregate_all (after rule psn len fits ctx c) rule psn len cs)
          (λ i. plus rule psn len fits acc c i + sum_host cs i)
      → Returned (aggregate_all ctx rule psn len (c ∷ cs)) (λ i. acc i + sum_host (c ∷ cs) i)
  unfolding aggregate_all aggregate sum_host accumulate
  collect-more ctx acc c cs full op r = record {
    last = r.last;
    sent = r.sent;
    words = r.words;
    outcome = ground (arith, full, op, r.outcome);
    freed = r.freed;
    reached = r.reached;
    carried = r.carried;
    added = λ i k. ground (arith, r.added i k);
  }

  -- The contributions that come after the d-th, into a slot that holds d of them
  collect :
      (ctx : Context) (d : ℕ) (acc : ℕ → ℕ) (c : Contribution) (cs : List Contribution)
      → Holds (slot ctx psn) d len acc
      → d + length (c ∷ cs) ≡ ctx.fan_in
      → ctx.operation_type ≡ reduce
      → ctx.root_rank ≡ pos rank
      → ctx.is_root ≡ true
      → rank < max_ranks
      → ctx.rank_to_conn rank ≡ pos conn
      → conn < ctx.fan_in
      → AreWords len (c ∷ cs)
      → Returned (aggregate_all ctx rule psn len (c ∷ cs)) (λ i. acc i + sum_host (c ∷ cs) i)
  collect ctx d acc c [] h full op root is_root known to below words =
      collect-last ctx acc c (omega (arith, full, h.count)) op root (
        complete-Returned (after rule psn len fits ctx c) c.packet_type d
          (plus rule psn len fits acc c) is_root known to below
          (after-Holds rule psn len fits ctx d acc c words.0 h))
  collect ctx d acc c (c' ∷ cs) h full op root is_root known to below words =
      collect-more ctx acc c (c' ∷ cs) (omega (arith, full, h.count)) op (
        collect (after rule psn len fits ctx c) (suc d) (plus rule psn len fits acc c) c' cs
          (after-Holds rule psn len fits ctx d acc c words.0 h) (omega (arith, full)) op root
          is_root known to below words.1)

  free-Returned :
      (ctx : Context) (cs : List Contribution)
      → (slot ctx psn).degree ≡ 0
      → cs ≢ []
      → length cs ≡ ctx.fan_in
      → ctx.operation_type ≡ reduce
      → ctx.root_rank ≡ pos rank
      → ctx.is_root ≡ true
      → rank < max_ranks
      → ctx.rank_to_conn rank ≡ pos conn
      → conn < ctx.fan_in
      → AreWords len cs
      → Returned (aggregate_all ctx rule psn len cs) (λ i. 0 + sum_host cs i)
  free-Returned ctx [] free some_cs full op root is_root known to below words =
      absurd (some_cs refl)
  free-Returned ctx (c ∷ cs) free some_cs full op root is_root known to below words =
      collect ctx 0 (λ _. 0) c cs
        (record { count = free; empty = λ _ _. refl; sums = λ e. absurd (e refl) })
        (omega (arith, full)) op root is_root known to below words

-- When the packets of all connections for one PSN have come in, in any order, a Reduce switch at the
-- root has sent one frame, to the connection of the root rank. Its word i is, read in host order, the
-- sum of the hosts' numbers i modulo 2 ^ 32. The slot of the PSN is free again. The root rank must be
-- below 128 and lead to one of the switch's connections, the slot must be free before, the payload
-- must fit the frame buffer, and its words have 32 bits.
pub aggregate_all_reduce :
    (ctx : Context) (rule : Rule) (psn len rank conn : ℕ) (hosts arrived : List Contribution)
    → Permᴰ arrived hosts
    → arrived ≢ []
    → length arrived ≡ ctx.fan_in
    → AreWords len arrived
    → Fits len
    → (slot ctx psn).degree ≡ 0
    → ctx.operation_type ≡ reduce
    → ctx.root_rank ≡ pos rank
    → ctx.is_root ≡ true
    → rank < max_ranks
    → ctx.rank_to_conn rank ≡ pos conn
    → conn < ctx.fan_in
    → (last : Context) × (sent : List Sent) × (words : ℕ → ℕ) × (aggregate_all ctx rule psn len
          arrived
        ≡ some (last, sent))
      × (targets sent ≡ conn ∷ [])
      × Carry len words sent
      × ((i : ℕ) → i < len → bswap32 (words i) ≡ sum_host hosts i % u32_mod)
      × ((slot last psn).degree ≡ 0)
aggregate_all_reduce ctx rule psn len rank conn hosts arrived order some_cs full words fits free op
      root is_root known to below =
    (
      r.last,
      r.sent,
      r.words,
      r.outcome,
      r.reached,
      r.carried,
      λ i k. omega (arith, r.added i k, sum_host-Permᴰ i arrived hosts order),
      r.freed,
    )
  where
    r :
        Returned rule psn len rank conn fits
          (aggregate_all ctx rule psn len arrived)
          (λ i. 0 + sum_host arrived i)
    r =
        free-Returned rule psn len rank conn fits ctx arrived free some_cs full op root is_root
          known to below words
