-- ===== src/Switch/Handler/Safe/Sending.antt =====
-- Sending and aggregation of switch_main.c on payloads that fit the frame's buffer.
use inc_emulation.Base.{
  ℕ, zero, suc, ◌+◌, ◌*◌, ◌≤◌, ◌≡◌, refl, arith, Bool, true, ◌==◌, if◌then◌else◌, none, some, List,
  [], ◌∷◌, not, Option-cases, Bool-cases, inl, inr, ℤ, pos, negsuc, ltb, leb,
}
use inc_emulation.Rule.{eq_primitive, Primitive, null, allreduce, reduce, broadcast, Rule}
use inc_emulation.Packet.{PacketType, extra_len, data_packet, ack, nak}
use inc_emulation.Switch.State.{
  buffer_words, max_ranks, Context, Sent, PsnState, Outcome, slot, put_slot,
}
use inc_emulation.Switch.Send.{
  cached_slot, strip_immediate_opcode, send_packet, send_next, find_conn, broadcast_to,
  broadcast_from, handle_broadcast, cache_and_broadcast, forwarding, forward_ack, send_to_all,
}
use inc_emulation.Switch.Aggregate.{then_clear, reduce_to_root, complete, accumulate, aggregate}
use inc_emulation.Switch.Handler.Safe.{
  HasAck, IsRank, Succeeds, Succeeds-trans, and_then-Succeeds, if-Succeeds,
}

send_packet-some :
    (a : Context) (conn : ℕ) (type : PacketType) (payload : ℕ → ℕ) (len psn opcode : ℕ)
    → 58 + extra_len type + len * 4 ≤ 4096
    → (s : Sent) × (send_packet a conn type payload len psn opcode ≡ some s)
unfolding send_packet
send_packet-some a conn type payload len psn opcode h = picked _ _ small
  where
    small : leb (58 + extra_len type + len * 4) 4096 ≡ true
    small = ground (arith, h)

    picked : (b : Bool) (x : Sent) → b ≡ true → (s : Sent) × ((if b then some x else none) ≡ some s)
    picked b x e = (x, rw e refl)

-- An acknowledgement under a rule that has a connection for it
pub forwarding-ack :
    (a : Context) (rule : Rule) (psn : ℕ) (payload : ℕ → ℕ) (opcode : ℕ)
    → HasAck rule
    → (sent : List Sent) × (forwarding a rule psn ack payload 0 opcode ≡ some sent)
unfolding forwarding forward_ack
forwarding-ack a rule psn payload opcode (c, e) =
    let (s, es) = send_packet-some a c ack payload 0 psn opcode (unfold extra_len in omega arith) in
    (s ∷ [], rw (forward_ack, e, es) refl)

pub forwarding-nak :
    (a : Context) (rule : Rule) (psn : ℕ) (payload : ℕ → ℕ) (opcode : ℕ)
    → HasAck rule
    → (sent : List Sent) × (forwarding a rule psn nak payload 0 opcode ≡ some sent)
unfolding forwarding forward_ack
forwarding-nak a rule psn payload opcode (c, e) =
    let (s, es) = send_packet-some a c nak payload 0 psn opcode (unfold extra_len in omega arith) in
    (s ∷ [], rw (forward_ack, e, es) refl)

module _ (payload : ℕ → ℕ) (len : ℕ) (fits : len ≤ 1009) where
  data_packet-some :
      (a : Context) (conn psn opcode : ℕ)
      → (s : Sent) × (send_packet a conn data_packet payload len psn opcode ≡ some s)
  data_packet-some a conn psn opcode =
      send_packet-some a conn data_packet payload len psn opcode
        (unfold extra_len in omega (arith, fits))

  send_next-Succeeds :
      (a : Context) (conn opcode : ℕ) → Succeeds a (send_next a conn payload len opcode)
  unfolding send_next
  send_next-Succeeds a conn opcode =
      rw (send_next, (data_packet-some a conn (a.send_psn conn) opcode).1) (refl, refl, refl)

  broadcast_to-Succeeds :
      (a : Context) (cs : List ℕ) (opcode : ℕ) → Succeeds a (broadcast_to a cs payload len opcode)
  unfolding broadcast_to
  broadcast_to-Succeeds a [] opcode = (refl, refl, refl)
  broadcast_to-Succeeds a (c ∷ cs) opcode = elim (Option-cases (find_conn c 0 a.fan_in)) [
    | inl e ↦ rw (broadcast_to, e) (broadcast_to-Succeeds a cs opcode)
    | inr (i, e) ↦
        rw (broadcast_to, e)
          (and_then-Succeeds a _ (λ b. broadcast_to b cs payload len opcode)
            (send_next-Succeeds a i opcode) (λ b. broadcast_to-Succeeds b cs opcode))
  ]

  broadcast_from-Succeeds :
      (a : Context) (sender i n opcode : ℕ)
      → Succeeds a (broadcast_from a sender i n payload len opcode)
  unfolding broadcast_from
  broadcast_from-Succeeds a sender i zero opcode = (refl, refl, refl)
  broadcast_from-Succeeds a sender i (suc n) opcode = elim (Bool-cases (i == sender)) [
    | inl e ↦ rw (broadcast_from, e) (broadcast_from-Succeeds a sender (suc i) n opcode)
    | inr e ↦
        rw (broadcast_from, e)
          (and_then-Succeeds a _ (λ b. broadcast_from b sender (suc i) n payload len opcode)
            (send_next-Succeeds a i opcode)
            (λ b. broadcast_from-Succeeds b sender (suc i) n opcode))
  ]

  send_to_all-some :
      (a : Context) (cs : List ℕ) (psn opcode : ℕ)
      → (sent : List Sent) × (send_to_all a cs payload len psn opcode ≡ some sent)
  unfolding send_to_all
  send_to_all-some a [] psn opcode = ([], refl)
  send_to_all-some a (c ∷ cs) psn opcode =
      let (s, e) = data_packet-some a c psn opcode in
      let (rest, er) = send_to_all-some a cs psn opcode in (s ∷ rest, rw (send_to_all, e, er) refl)

then_clear-Succeeds :
    (a : Context) (psn : ℕ) (o : Outcome) → Succeeds a o → Succeeds a (then_clear psn o)
then_clear-Succeeds a psn o h = and_then-Succeeds a o _ h (λ b. (refl, refl, refl))

-- Every payload of that length fits, also the buffers that it is copied into.
module _ (len : ℕ) (fits : len ≤ 1009) where
  in_buffer : leb len buffer_words ≡ true
  in_buffer = ground (arith, fits)

  pub cache_and_broadcast-Succeeds :
      (a : Context) (rule : Rule) (psn : ℕ) (payload : ℕ → ℕ) (pt : ℕ)
      → Succeeds a (cache_and_broadcast a rule psn payload len pt)
  unfolding cache_and_broadcast
  cache_and_broadcast-Succeeds a rule psn payload pt =
      if-Succeeds a (leb len buffer_words) _ none
        (λ e.
          Succeeds-trans a b _ (refl, refl, refl)
            (broadcast_to-Succeeds _ len fits b rule.out_conns (strip_immediate_opcode pt)))
        (λ e. absurd (cc (in_buffer, e)))
    where
      b : Context
      b = record (put_slot a psn (cached_slot (slot a psn) psn payload len pt)) {
        down_epsn = a.down_epsn + 1;
      }

  reduce_to_root-Succeeds :
      (a : Context) (root : ℤ) (payload : ℕ → ℕ) (opcode : ℕ)
      → IsRank root
      → Succeeds a (reduce_to_root a root payload len opcode)
  unfolding reduce_to_root
  reduce_to_root-Succeeds a (negsuc _) payload opcode h = absurd h
  reduce_to_root-Succeeds a (pos rank) payload opcode h =
      if-Succeeds a (ltb rank max_ranks) _ none (λ e. to (a.rank_to_conn rank))
        (λ e. absurd (ground (arith, h, e)))
    where
      to :
          (target : ℤ)
          → Succeeds a (elim target [
            | negsuc _ ↦ some (a, [])
            | pos conn ↦
                if ltb conn a.fan_in then send_next a conn payload len opcode else some (a, [])
          ])
      to (negsuc _) = (refl, refl, refl)
      to (pos conn) =
          if-Succeeds a (ltb conn a.fan_in) _ _
            (λ e. send_next-Succeeds payload len fits a conn opcode) (λ e. (refl, refl, refl))

  complete-Succeeds :
      (a : Context) (rule : Rule) (op : Primitive) (root : ℤ) (psn pt : ℕ)
      → (op ≡ reduce → IsRank root)
      → Succeeds a (complete a rule op root psn len pt)
  unfolding complete forwarding
  complete-Succeeds a rule op root psn pt h =
      if-Succeeds a a.is_root _ _ (λ e. on_root op h) (λ e. inner)
    where
      payload : ℕ → ℕ
      payload = (slot a psn).agg_buffer.buffer

      on_root :
          (op : Primitive)
          → (op ≡ reduce → IsRank root)
          → Succeeds a (elim op [
            | allreduce ↦ then_clear psn (cache_and_broadcast a rule psn payload len pt)
            | reduce ↦
                then_clear psn (reduce_to_root a root payload len (strip_immediate_opcode pt))
            | _ ↦ some (a, [])
          ])
      on_root allreduce h =
          then_clear-Succeeds a psn _ (cache_and_broadcast-Succeeds a rule psn payload pt)
      on_root reduce h =
          then_clear-Succeeds a psn _ (reduce_to_root-Succeeds a root payload _ (h refl))
      on_root null h = (refl, refl, refl)
      on_root broadcast h = (refl, refl, refl)

      inner :
          Succeeds a
            (elim (forwarding a rule psn data_packet payload len (strip_immediate_opcode pt)) [
              | none ↦ none
              | some sent ↦ some (a, sent)
            ])
      inner =
          rw (send_to_all-some payload len fits a rule.out_conns psn (strip_immediate_opcode pt)).1
            (refl, refl, refl)

  pub aggregate-Succeeds :
      (a : Context) (rule : Rule) (conn psn : ℕ) (payload : ℕ → ℕ) (pt : ℕ)
      → (a.operation_type ≡ reduce → IsRank a.root_rank)
      → Succeeds a (aggregate a rule conn psn payload len pt)
  unfolding aggregate handle_broadcast
  aggregate-Succeeds a rule conn psn payload pt h =
      if-Succeeds a (eq_primitive a.operation_type broadcast) _ _
        (λ e. broadcast_from-Succeeds payload len fits a conn 0 a.fan_in _)
        (λ e.
          if-Succeeds a (not (leb len buffer_words)) none _
            (λ k. absurd (ground (arith, in_buffer, k)))
            (λ k.
              if-Succeeds a (s.degree == a.fan_in) _ _
                (λ d.
                  Succeeds-trans a (put_slot a psn s) _ (refl, refl, refl)
                    (complete-Succeeds (put_slot a psn s) rule _ _ psn pt h))
                (λ d. (refl, refl, refl))))
    where
      s : PsnState
      s = accumulate (slot a psn) a.operation_type a.root_rank conn psn payload len pt
