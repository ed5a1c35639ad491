-- ===== src/Switch/Aggregate/Sum.antt =====
-- The root's AllReduce: the payloads of one PSN, added up word by word.
use inc_emulation.Base.{
  ℤ, ℕ, zero, suc, ◌+◌, ◌%◌, ◌<◌, ◌≡◌, ◌≢◌, refl, ◌∙◌, arith, true, some, List, [], ◌∷◌, ◌++◌,
  u32_mod, add32, add32-lt, bswap32, bswap32-bswap32, bswap32-lt, length, append-nil,
}
use inc_emulation.Rule.{Rule, Primitive, allreduce}
use inc_emulation.Switch.State.{Context, Sent, Outcome, PsnState, slot, put_slot}
use inc_emulation.Switch.Send.{and_then, cache_and_broadcast, cached_slot, strip_immediate_opcode}
use inc_emulation.Switch.Send.Gapless.{Fits, targets, Carry, AllBelow, Served, serve}
use inc_emulation.Switch.Aggregate.{add_net, accumulate, clear_aggregation, complete, aggregate}

-- One packet of a PSN: the connection that it came in on, its payload and its opcode
pub record Contribution : Type 0 where
  pub conn_id : ℕ
  pub payload : ℕ → ℕ
  pub packet_type : ℕ

-- `aggregate` on one packet after another
unfoldable pub aggregate_all : Context → Rule → (psn len : ℕ) → List Contribution → Outcome
aggregate_all ctx rule psn len [] = some (ctx, [])
aggregate_all ctx rule psn len (c ∷ cs) =
    and_then (aggregate ctx rule c.conn_id psn c.payload len c.packet_type)
      (λ ctx'. aggregate_all ctx' rule psn len cs)

-- The sum of the i-th numbers that the hosts put in, `ntohl` of the words of the packets
unfoldable pub sum_host : List Contribution → ℕ → ℕ
sum_host [] i = 0
sum_host (c ∷ cs) i = bswap32 (c.payload i) + sum_host cs i

-- Words of 32 bits
abbrev pub AreWords : ℕ → List Contribution → Type 0
AreWords len [] = Unit {0}
AreWords len (c ∷ cs) = ((i : ℕ) → i < len → c.payload i < u32_mod) × AreWords len cs

-- The slot has taken d packets, which add up to `acc`.
pub record Holds (s : PsnState) (d len : ℕ) (acc : ℕ → ℕ) : Type 0 where
  pub count : s.degree ≡ d
  pub empty : d ≡ 0 → (i : ℕ) → acc i ≡ 0
  pub sums : d ≢ 0 → (i : ℕ) → i < len → bswap32 (s.agg_buffer.buffer i) ≡ acc i % u32_mod

ntohl-add_net : (a b : ℕ) → bswap32 (add_net a b) ≡ (bswap32 a + bswap32 b) % u32_mod
unfolding add_net
ntohl-add_net a b =
    bswap32-bswap32 (add32 (bswap32 a) (bswap32 b)) (add32-lt _ _) ∙ unfold add32 in refl

module _ (op : Primitive) (root : ℤ) (psn len : ℕ) (c : Contribution) where
  accumulate-Holds :
      (s : PsnState) (d : ℕ) (acc : ℕ → ℕ)
      → ((i : ℕ) → i < len → c.payload i < u32_mod)
      → Holds s d len acc
      → Holds
          (accumulate s op root c.conn_id psn c.payload len c.packet_type)
          (suc d)
          len
          (λ i. acc i + bswap32 (c.payload i))
  unfolding accumulate
  accumulate-Holds s zero acc words h = record {
    count = omega (arith, h.count);
    empty = λ e. absurd (omega arith);
    sums = λ e i below. ground (arith, h.count, h.empty refl i, bswap32-lt (c.payload i));
  }
  accumulate-Holds s (suc d) acc words h = record {
    count = omega (arith, h.count);
    empty = λ e. absurd (omega arith);
    sums = λ e i below. ground (
      arith,
      h.count,
      h.sums (λ e. omega (arith, e)) i below,
      ntohl-add_net (s.agg_buffer.buffer i) (c.payload i),
    );
  }

module _ (rule : Rule) (psn len : ℕ) (fits : Fits len) where
  -- What an AllReduce on the root leaves behind: the slot is free, and every connection of the rule
  -- has a frame with the sums.
  pub record Summed (o : Outcome) (sums : ℕ → ℕ) : Type 0 where
    pub last : Context
    pub sent : List Sent
    pub words : ℕ → ℕ
    pub outcome : o ≡ some (last, sent)
    pub freed : (slot last psn).degree ≡ 0
    pub reached : targets sent ≡ rule.out_conns
    pub carried : Carry len words sent
    pub added : (i : ℕ) → i < len → bswap32 (words i) ≡ sums i % u32_mod

  complete-Summed :
      (ctx : Context) (root : ℤ) (packet_type d : ℕ) (acc : ℕ → ℕ)
      → ctx.is_root ≡ true
      → AllBelow ctx.fan_in rule.out_conns
      → Holds (slot ctx psn) (suc d) len acc
      → Summed (complete ctx rule allreduce root psn len packet_type) acc
  unfolding complete cache_and_broadcast cached_slot clear_aggregation
  complete-Summed ctx root packet_type d acc is_root below h = record {
    last = put_slot served psn (clear_aggregation (slot served psn));
    sent = r.sent ++ [];
    words = cached.bcast_buffer.buffer;
    outcome = ground (arith, is_root, r.outcome);
    freed = ground arith;
    reached = rw append-nil r.reached;
    carried = rw append-nil r.carried;
    added = λ i k. ground (arith, h.sums (λ e. omega (arith, e)) i k);
  }
    where
      cached : PsnState
      cached = cached_slot (slot ctx psn) psn ((slot ctx psn).agg_buffer.buffer) len packet_type

      ctx' : Context
      ctx' = record (put_slot ctx psn cached) { down_epsn = ctx.down_epsn + 1 }

      r :
          Served
            (cached.bcast_buffer.buffer)
            len
            (strip_immediate_opcode packet_type)
            fits
            ctx'
            rule.out_conns
      r =
          serve (cached.bcast_buffer.buffer) len (strip_immediate_opcode packet_type) fits ctx'
            rule.out_conns below

      served : Context
      served = record ctx' { send_psn = r.psns }

  -- The slot and the state after one more contribution
  abbrev pub joined : Context → Contribution → PsnState
  joined ctx c =
      accumulate (slot ctx psn) ctx.operation_type ctx.root_rank c.conn_id psn c.payload len
        c.packet_type

  abbrev pub after : Context → Contribution → Context
  after ctx c = put_slot ctx psn (joined ctx c)

  abbrev pub plus : (ℕ → ℕ) → Contribution → ℕ → ℕ
  plus acc c i = acc i + bswap32 (c.payload i)

  pub after-Holds :
      (ctx : Context) (d : ℕ) (acc : ℕ → ℕ) (c : Contribution)
      → ((i : ℕ) → i < len → c.payload i < u32_mod)
      → Holds (slot ctx psn) d len acc
      → Holds (slot (after ctx c) psn) (suc d) len (plus acc c)
  after-Holds ctx d acc c words h = rw same held
    where
      same : slot (after ctx c) psn ≡ joined ctx c
      same = ground arith

      held : Holds (joined ctx c) (suc d) len (plus acc c)
      held =
          accumulate-Holds ctx.operation_type ctx.root_rank psn len c (slot ctx psn) d acc words h

  collect-last :
      (ctx : Context) (d : ℕ) (acc : ℕ → ℕ) (c : Contribution)
      → (slot ctx psn).degree + 1 ≡ ctx.fan_in
      → ctx.operation_type ≡ allreduce
      → Summed
          (complete (after ctx c) rule allreduce ctx.root_rank psn len c.packet_type)
          (plus acc c)
      → Summed (aggregate_all ctx rule psn len (c ∷ [])) (λ i. acc i + sum_host (c ∷ []) i)
  unfolding aggregate_all aggregate sum_host accumulate
  collect-last ctx d acc c full op r = record {
    last = r.last;
    sent = r.sent ++ [];
    words = r.words;
    outcome = ground (arith, full, op, r.outcome);
    freed = r.freed;
    reached = rw append-nil r.reached;
    carried = rw append-nil r.carried;
    added = λ i k. ground (arith, r.added i k);
  }

  collect-more :
      (ctx : Context) (acc : ℕ → ℕ) (c : Contribution) (cs : List Contribution)
      → (slot ctx psn).degree + 1 < ctx.fan_in
      → ctx.operation_type ≡ allreduce
      → Summed (aggregate_all (after ctx c) rule psn len cs) (λ i. plus acc c i + sum_host cs i)
      → Summed (aggregate_all ctx rule psn len (c ∷ cs)) (λ i. acc i + sum_host (c ∷ cs) i)
  unfolding aggregate_all aggregate sum_host accumulate
  collect-more ctx acc c cs full op r = record {
    last = r.last;
    sent = r.sent;
    words = r.words;
    outcome = ground (arith, full, op, r.outcome);
    freed = r.freed;
    reached = r.reached;
    carried = r.carried;
    added = λ i k. ground (arith, r.added i k);
  }

  -- The contributions that come after the d-th, into a slot that holds d of them
  pub collect :
      (ctx : Context) (d : ℕ) (acc : ℕ → ℕ) (c : Contribution) (cs : List Contribution)
      → Holds (slot ctx psn) d len acc
      → d + length (c ∷ cs) ≡ ctx.fan_in
      → ctx.operation_type ≡ allreduce
      → ctx.is_root ≡ true
      → AllBelow ctx.fan_in rule.out_conns
      → AreWords len (c ∷ cs)
      → Summed (aggregate_all ctx rule psn len (c ∷ cs)) (λ i. acc i + sum_host (c ∷ cs) i)
  collect ctx d acc c [] h full op is_root below words =
      collect-last ctx d acc c (omega (arith, full, h.count)) op (
        complete-Summed (after ctx c) ctx.root_rank c.packet_type d (plus acc c) is_root below
          (after-Holds ctx d acc c words.0 h))
  collect ctx d acc c (c' ∷ cs) h full op is_root below words =
      collect-more ctx acc c (c' ∷ cs) (omega (arith, full, h.count)) op (
        collect (after ctx c) (suc d) (plus acc c) c' cs (after-Holds ctx d acc c words.0 h)
          (omega (arith, full)) op is_root below words.1)
