-- ===== src/Switch/Handler/Grows/Handling.antt =====
-- What the handler of switch_main.c leaves as it was.
use mathlib.Core.Path.{subst}
use inc_emulation.Base.{
  ◌/◌, ℕ, ◌+◌, ◌≡◌, true, false, ◌==◌, if◌then◌else◌, Option, none, some, List, [], ◌∷◌, ◌-◌, not,
  ◌⊎◌, ◌++◌, Bool-cases, inl, inr, ltb,
}
use inc_emulation.Rule.{up, down, Rule, lookup_rule}
use inc_emulation.Packet.{PacketType, Frame}
use inc_emulation.Switch.State.{Context, Sent, Outcome}
use inc_emulation.Switch.Send.{cache_and_broadcast, forwarding}
use inc_emulation.Switch.Aggregate.{aggregate}
use inc_emulation.Switch.Handler.{
  handle_downstream_ack, handle_upstream_ack, store_metadata, reply_then, stay, with_payload,
  downstream_data, upstream_data, control_message, dispatch, packet_handler, run,
}
use inc_emulation.Switch.Handler.Grows.{
  Grows, GrowsTo, Grows-refl, GrowsTo-trans, and_then-GrowsTo, if-GrowsTo,
}
use inc_emulation.Switch.Handler.Grows.Acks.{
  taken, taken-Grows, Grows-free, upstream_ack-Grows, downstream_ack-Grows,
}
use inc_emulation.Switch.Handler.Grows.Sending.{cache_and_broadcast-GrowsTo, aggregate-GrowsTo}
use inc_emulation.Switch.Handler.{
  has_imm_data, imm_primitive, imm_param, is_control_message, is_data_opcode, no_data, overhead,
  imm_words,
}
use inc_emulation.Rule.{Direction}
use inc_emulation.Packet.{ack, nak, frame_udp_len, frame_psn, frame_syndrome}
use inc_emulation.Switch.Send.{opcode_ack}

store_metadata-Grows : (a : Context) (f : Frame) → Grows a (store_metadata a f)
unfolding store_metadata
store_metadata-Grows a f = stored (Bool-cases (has_imm_data f))
  where
    stored : (has_imm_data f ≡ true) ⊎ (has_imm_data f ≡ false) → Grows a (store_metadata a f)
    stored (inl e) = rw (store_metadata, e) (Grows-free a _ _ _)
    stored (inr e) = rw (store_metadata, e) (Grows-refl a)

reply_then-GrowsTo :
    (a b : Context) (rule : Rule) (type : PacketType) (psn : ℕ) (k : Context → Outcome)
    → GrowsTo a (k b)
    → GrowsTo a (reply_then b rule type psn k)
reply_then-GrowsTo a b rule type psn k h =
    replied (forwarding b rule psn type no_data 0 opcode_ack) (k b) h
  where
    replied :
        (r : Option (List Sent)) (o : Outcome)
        → GrowsTo a o
        → GrowsTo a (elim r [
          | none ↦ none
          | some sent ↦ elim o [ none ↦ none | some (c, more) ↦ some (c, sent ++ more) ]
        ])
    replied none o h = tt
    replied (some sent) none h = tt
    replied (some sent) (some (c, more)) h = h

with_payload-GrowsTo :
    (a : Context) (f : Frame) (k : (ℕ → ℕ) → ℕ → Outcome)
    → ((payload : ℕ → ℕ) (len : ℕ) → GrowsTo a (k payload len))
    → GrowsTo a (with_payload f k)
with_payload-GrowsTo a f k h =
    if-GrowsTo a (ltb (frame_udp_len f) (overhead f)) none _ tt
      (h (λ i. f.body (i + imm_words f)) ((frame_udp_len f - overhead f) / 4))

module _ (a : Context) (rule : Rule) (f : Frame) where
  -- What the in-order packet of the two directions comes to
  abbrev cached : Context → Outcome
  cached c =
      with_payload f
        (λ payload len. cache_and_broadcast c rule (frame_psn f) payload len (f.bth.opcode))

  abbrev pub added : ℕ → Context → Outcome
  added conn c =
      with_payload f (λ payload len. aggregate c rule conn (frame_psn f) payload len (f.bth.opcode))

  downstream_data-GrowsTo : GrowsTo a (downstream_data a rule f)
  unfolding downstream_data
  downstream_data-GrowsTo =
      if-GrowsTo a (ltb (frame_psn f) a.down_epsn) _ _
        (reply_then-GrowsTo a a rule ack (a.down_epsn - 1) stay (Grows-refl a))
        (if-GrowsTo a (ltb a.down_epsn (frame_psn f)) _ _
          (reply_then-GrowsTo a a rule nak a.down_epsn stay (Grows-refl a))
          (reply_then-GrowsTo a a rule ack (frame_psn f) cached (
            with_payload-GrowsTo a f
              (λ payload len. cache_and_broadcast a rule (frame_psn f) payload len (f.bth.opcode))
              (λ payload len.
                cache_and_broadcast-GrowsTo a rule (frame_psn f) payload len f.bth.opcode))))

  pub added-GrowsTo :
      (conn : ℕ)
      → GrowsTo (taken a conn) (reply_then (taken a conn) rule ack (frame_psn f) (added conn))
  added-GrowsTo conn =
      reply_then-GrowsTo (taken a conn) (taken a conn) rule ack (frame_psn f) (added conn) (
        with_payload-GrowsTo (taken a conn) f
          (λ payload len.
            aggregate (taken a conn) rule conn (frame_psn f) payload len (f.bth.opcode))
          (λ payload len.
            aggregate-GrowsTo (taken a conn) rule conn (frame_psn f) payload len f.bth.opcode))

  upstream_data-GrowsTo : (conn : ℕ) → GrowsTo a (upstream_data a rule conn f)
  unfolding upstream_data
  upstream_data-GrowsTo conn =
      if-GrowsTo a (ltb (frame_psn f) (a.agg_epsn conn)) _ _
        (reply_then-GrowsTo a a rule ack (a.agg_epsn conn - 1) stay (Grows-refl a))
        (if-GrowsTo a (ltb (a.agg_epsn conn) (frame_psn f)) _ _
          (reply_then-GrowsTo a a rule nak (a.agg_epsn conn) stay (Grows-refl a))
          (GrowsTo-trans a (taken a conn) _ (taken-Grows a conn) (added-GrowsTo conn)))

  control_message-GrowsTo : (conn : ℕ) → GrowsTo a (control_message a rule conn f)
  unfolding control_message
  control_message-GrowsTo conn =
      reply_then-GrowsTo a (taken a conn) rule ack (frame_psn f) stay (taken-Grows a conn)

dispatch-GrowsTo :
    (a : Context) (rule : Rule) (conn : ℕ) (f : Frame) → GrowsTo a (dispatch a rule conn f)
unfolding dispatch
dispatch-GrowsTo a rule conn f =
    if-GrowsTo a (is_data_opcode f.bth.opcode) _ _ (data_to rule.direction)
      (if-GrowsTo a (f.bth.opcode == opcode_ack) _ _ (ack_to rule.direction) (Grows-refl a))
  where
    data_to :
        (d : Direction)
        → GrowsTo a (elim d [ down ↦ downstream_data a rule f | up ↦ upstream_data a rule conn f ])
    data_to down = downstream_data-GrowsTo a rule f
    data_to up = upstream_data-GrowsTo a rule f conn

    ack_to :
        (d : Direction)
        → GrowsTo a (elim d [
          | down ↦ stay (handle_downstream_ack a (frame_psn f) (not (frame_syndrome f == 0)))
          | up ↦ stay (handle_upstream_ack a conn (frame_psn f) (not (frame_syndrome f == 0)))
        ])
    ack_to down = downstream_ack-Grows a _ _
    ack_to up = upstream_ack-Grows a conn _ _

pub packet_handler-GrowsTo :
    (a : Context) (conn : ℕ) (f : Frame) → GrowsTo a (packet_handler a conn f)
unfolding packet_handler
packet_handler-GrowsTo a conn f = handled (
    lookup_rule a.routing_table f.ip.src_ip f.ip.dst_ip
      (if has_imm_data f then imm_primitive f else a.operation_type)
      (if has_imm_data f then imm_param f else a.root_rank))
  where
    b : Context
    b = store_metadata a f

    handled :
        (r : Option Rule)
        → GrowsTo a (elim r [
          | none ↦ stay b
          | some rule ↦
              if is_control_message f then control_message b rule conn f else dispatch b rule conn f
        ])
    handled none = store_metadata-Grows a f
    handled (some rule) =
        if-GrowsTo a (is_control_message f) _ _
          (GrowsTo-trans a b _ (store_metadata-Grows a f) (control_message-GrowsTo b rule f conn))
          (GrowsTo-trans a b _ (store_metadata-Grows a f) (dispatch-GrowsTo b rule conn f))

run-GrowsTo : (a : Context) (frames : List (ℕ × Frame)) → GrowsTo a (run a frames)
unfolding run
run-GrowsTo a [] = Grows-refl a
run-GrowsTo a ((conn, f) ∷ rest) =
    and_then-GrowsTo a (packet_handler a conn f) (λ b. run b rest) (packet_handler-GrowsTo a conn f)
      (λ b. run-GrowsTo b rest)

-- A run of frames as the model goes on, in which a counter has no upper end
pub run-keeps :
    (a b : Context) (frames : List (ℕ × Frame)) (sent : List Sent)
    → run a frames ≡ some (b, sent)
    → Grows a b
run-keeps a b frames sent e = subst (GrowsTo a) e (run-GrowsTo a frames)
