-- ===== src/Switch/Handler/Grows/Sending.antt =====
-- What the sending and the aggregation of switch_main.c leave as it was.
use inc_emulation.Base.{
  ℕ, zero, suc, ◌+◌, refl, arith, ◌==◌, if◌then◌else◌, none, some, List, [], ◌∷◌, not, Option-cases,
  Bool-cases, inl, inr, ℤ, pos, negsuc, ltb, leb,
}
use inc_emulation.Rule.{eq_primitive, Primitive, null, allreduce, reduce, broadcast, Rule}
use inc_emulation.Packet.{data_packet}
use inc_emulation.Switch.State.{buffer_words, max_ranks, Context, PsnState, Outcome, slot, put_slot}
use inc_emulation.Switch.Send.{
  cached_slot, strip_immediate_opcode, send_packet, send_next, find_conn, broadcast_to,
  broadcast_from, handle_broadcast, cache_and_broadcast, forwarding,
}
use inc_emulation.Switch.Aggregate.{then_clear, reduce_to_root, complete, accumulate, aggregate}
use inc_emulation.Switch.Handler.Grows.{
  Grows, GrowsTo, Grows-refl, GrowsTo-trans, and_then-GrowsTo, if-GrowsTo, sent-Grows,
  put_slot-Grows,
}

send_next-GrowsTo :
    (a : Context) (conn : ℕ) (payload : ℕ → ℕ) (len opcode : ℕ)
    → GrowsTo a (send_next a conn payload len opcode)
unfolding send_next
send_next-GrowsTo a conn payload len opcode =
    elim (Option-cases (send_packet a conn data_packet payload len (a.send_psn conn) opcode)) [
      | inl e ↦ rw (send_next, e) tt
      | inr (s, e) ↦ rw (send_next, e) (sent-Grows a conn)
    ]

broadcast_to-GrowsTo :
    (a : Context) (cs : List ℕ) (payload : ℕ → ℕ) (len opcode : ℕ)
    → GrowsTo a (broadcast_to a cs payload len opcode)
unfolding broadcast_to
broadcast_to-GrowsTo a [] payload len opcode = Grows-refl a
broadcast_to-GrowsTo a (c ∷ cs) payload len opcode = elim (Option-cases (find_conn c 0 a.fan_in)) [
  | inl e ↦ rw (broadcast_to, e) (broadcast_to-GrowsTo a cs payload len opcode)
  | inr (i, e) ↦
      rw (broadcast_to, e)
        (and_then-GrowsTo a (send_next a i payload len opcode)
          (λ b. broadcast_to b cs payload len opcode) (send_next-GrowsTo a i payload len opcode)
          (λ b. broadcast_to-GrowsTo b cs payload len opcode))
]

broadcast_from-GrowsTo :
    (a : Context) (sender i n : ℕ) (payload : ℕ → ℕ) (len opcode : ℕ)
    → GrowsTo a (broadcast_from a sender i n payload len opcode)
unfolding broadcast_from
broadcast_from-GrowsTo a sender i zero payload len opcode = Grows-refl a
broadcast_from-GrowsTo a sender i (suc n) payload len opcode = elim (Bool-cases (i == sender)) [
  | inl e ↦ rw (broadcast_from, e) (broadcast_from-GrowsTo a sender (suc i) n payload len opcode)
  | inr e ↦
      rw (broadcast_from, e)
        (and_then-GrowsTo a (send_next a i payload len opcode)
          (λ b. broadcast_from b sender (suc i) n payload len opcode)
          (send_next-GrowsTo a i payload len opcode)
          (λ b. broadcast_from-GrowsTo b sender (suc i) n payload len opcode))
]

cached-Grows :
    (a : Context) (psn : ℕ) (s : PsnState)
    → Grows a (record (put_slot a psn s) { down_epsn = a.down_epsn + 1 })
cached-Grows a psn s = record {
  rules = refl;
  fan = refl;
  root = refl;
  ranks = refl;
  links = refl;
  epsn = λ c. omega arith;
  down_psn = omega arith;
  sends = λ c. omega arith;
  acks = λ c. omega arith;
  downs = omega arith;
}

pub cache_and_broadcast-GrowsTo :
    (a : Context) (rule : Rule) (psn : ℕ) (payload : ℕ → ℕ) (len pt : ℕ)
    → GrowsTo a (cache_and_broadcast a rule psn payload len pt)
unfolding cache_and_broadcast
cache_and_broadcast-GrowsTo a rule psn payload len pt =
    if-GrowsTo a (leb len buffer_words) _ none
      (GrowsTo-trans a _ _ (cached-Grows a psn (cached_slot (slot a psn) psn payload len pt))
        (broadcast_to-GrowsTo _ rule.out_conns _ len (strip_immediate_opcode pt)))
      tt

reduce_to_root-GrowsTo :
    (a : Context) (root : ℤ) (payload : ℕ → ℕ) (len opcode : ℕ)
    → GrowsTo a (reduce_to_root a root payload len opcode)
unfolding reduce_to_root
reduce_to_root-GrowsTo a (negsuc _) payload len opcode = tt
reduce_to_root-GrowsTo a (pos rank) payload len opcode =
    if-GrowsTo a (ltb rank max_ranks) _ none (to (a.rank_to_conn rank)) tt
  where
    to :
        (target : ℤ)
        → GrowsTo a (elim target [
          | negsuc _ ↦ some (a, [])
          | pos conn ↦
              if ltb conn a.fan_in then send_next a conn payload len opcode else some (a, [])
        ])
    to (negsuc _) = Grows-refl a
    to (pos conn) =
        if-GrowsTo a (ltb conn a.fan_in) _ _ (send_next-GrowsTo a conn payload len opcode)
          (Grows-refl a)

then_clear-GrowsTo :
    (a : Context) (psn : ℕ) (o : Outcome) → GrowsTo a o → GrowsTo a (then_clear psn o)
then_clear-GrowsTo a psn o h = and_then-GrowsTo a o _ h (λ b. put_slot-Grows b psn _)

complete-GrowsTo :
    (a : Context) (rule : Rule) (op : Primitive) (root : ℤ) (psn len pt : ℕ)
    → GrowsTo a (complete a rule op root psn len pt)
unfolding complete
complete-GrowsTo a rule op root psn len pt =
    if-GrowsTo a a.is_root _ _ (on_root op)
      (elim (Option-cases (
        forwarding a rule psn data_packet (slot a psn).agg_buffer.buffer len
          (strip_immediate_opcode pt))) [ inl e ↦ rw e tt | inr (s, e) ↦ rw e (Grows-refl a) ])
  where
    on_root :
        (op : Primitive)
        → GrowsTo a (elim op [
          | allreduce ↦
              then_clear psn (cache_and_broadcast a rule psn (slot a psn).agg_buffer.buffer len pt)
          | reduce ↦
              then_clear psn (
                reduce_to_root a root
                  (slot a psn).agg_buffer.buffer
                  len
                  (strip_immediate_opcode pt))
          | _ ↦ some (a, [])
        ])
    on_root allreduce = then_clear-GrowsTo a psn _ (cache_and_broadcast-GrowsTo a rule psn _ len pt)
    on_root reduce = then_clear-GrowsTo a psn _ (reduce_to_root-GrowsTo a root _ len _)
    on_root null = Grows-refl a
    on_root broadcast = Grows-refl a

pub aggregate-GrowsTo :
    (a : Context) (rule : Rule) (conn psn : ℕ) (payload : ℕ → ℕ) (len pt : ℕ)
    → GrowsTo a (aggregate a rule conn psn payload len pt)
unfolding aggregate handle_broadcast
aggregate-GrowsTo a rule conn psn payload len pt =
    if-GrowsTo a (eq_primitive a.operation_type broadcast) _ _
      (broadcast_from-GrowsTo a conn 0 a.fan_in payload len _)
      (if-GrowsTo a (not (leb len buffer_words)) none _ tt (
        if-GrowsTo a (s.degree == a.fan_in) _ _
          (GrowsTo-trans a (put_slot a psn s) _ (put_slot-Grows a psn s)
            (complete-GrowsTo (put_slot a psn s) rule _ _ psn len pt))
          (put_slot-Grows a psn s)))
  where
    s : PsnState
    s = accumulate (slot a psn) a.operation_type a.root_rank conn psn payload len pt
