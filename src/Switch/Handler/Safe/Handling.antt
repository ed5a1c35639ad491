-- ===== src/Switch/Handler/Safe/Handling.antt =====
-- The handler of switch_main.c on a frame that fits, under a rule.
use inc_emulation.Base.{ℕ, ◌+◌, ◌-◌, ◌≤◌, ◌≡◌, refl, arith, true, ◌==◌, none, not, ltb, update}
use inc_emulation.Rule.{up, down, Direction, Rule, reduce}
use inc_emulation.Packet.{ack, nak, Frame, frame_udp_len, frame_psn, frame_syndrome}
use inc_emulation.Switch.State.{Context, Outcome}
use inc_emulation.Switch.Send.{cache_and_broadcast, opcode_ack}
use inc_emulation.Switch.Aggregate.{aggregate}
use inc_emulation.Switch.Handler.{
  handle_downstream_ack, handle_upstream_ack, reply_then, stay, with_payload, downstream_data,
  upstream_data, control_message, dispatch, is_data_opcode, no_data, overhead,
}
use inc_emulation.Switch.Handler.Safe.{
  HasAck, IsRank, Fits, Succeeds, Succeeds-trans, prepended, if-Succeeds,
}
use inc_emulation.Switch.Handler.Safe.Sending.{
  forwarding-ack, forwarding-nak, cache_and_broadcast-Succeeds, aggregate-Succeeds,
}
use inc_emulation.Switch.Handler.Safe.Acks.{downstream_ack-Keeps, upstream_ack-Keeps}

module _ (rule : Rule) (has_ack : HasAck rule) where
  ack_then-Succeeds :
      (a b : Context) (psn : ℕ) (k : Context → Outcome)
      → Succeeds a (k b)
      → Succeeds a (reply_then b rule ack psn k)
  ack_then-Succeeds a b psn k h =
      let (sent, e) = forwarding-ack b rule psn no_data opcode_ack has_ack in
      rw (reply_then, e) (prepended a sent (k b) h)

  nak_then-Succeeds :
      (a b : Context) (psn : ℕ) (k : Context → Outcome)
      → Succeeds a (k b)
      → Succeeds a (reply_then b rule nak psn k)
  nak_then-Succeeds a b psn k h =
      let (sent, e) = forwarding-nak b rule psn no_data opcode_ack has_ack in
      rw (reply_then, e) (prepended a sent (k b) h)

  module _ (a : Context) (f : Frame) (fits : Fits f) where
    with_payload-Succeeds :
        (k : (ℕ → ℕ) → ℕ → Outcome)
        → is_data_opcode (f.bth.opcode) ≡ true
        → ((payload : ℕ → ℕ) (len : ℕ) → len ≤ 1009 → Succeeds a (k payload len))
        → Succeeds a (with_payload f k)
    with_payload-Succeeds k has_payload h =
        if-Succeeds a (ltb (frame_udp_len f) (overhead f)) none _
          (λ e. absurd (ground (arith, e, fits.headers has_payload)))
          (λ e. h _ _ (fits.payload has_payload))

    -- What the in-order packet of the two directions comes to
    abbrev cached : Context → Outcome
    cached c =
        with_payload f
          (λ payload len. cache_and_broadcast c rule (frame_psn f) payload len (f.bth.opcode))

    abbrev added : ℕ → Context → Outcome
    added conn c =
        with_payload f
          (λ payload len. aggregate c rule conn (frame_psn f) payload len (f.bth.opcode))

    downstream_data-Succeeds :
        is_data_opcode (f.bth.opcode) ≡ true → Succeeds a (downstream_data a rule f)
    unfolding downstream_data
    downstream_data-Succeeds has_payload =
        if-Succeeds a (ltb (frame_psn f) a.down_epsn) _ _
          (λ e. ack_then-Succeeds a a (a.down_epsn - 1) stay (refl, refl, refl))
          (λ e.
            if-Succeeds a (ltb a.down_epsn (frame_psn f)) _ _
              (λ d. nak_then-Succeeds a a a.down_epsn stay (refl, refl, refl))
              (λ d. ack_then-Succeeds a a (frame_psn f) cached (
                with_payload-Succeeds _ has_payload (λ payload len small.
                  cache_and_broadcast-Succeeds len small a rule (frame_psn f) payload
                    (f.bth.opcode)))))

    upstream_data-Succeeds :
        (conn : ℕ)
        → is_data_opcode (f.bth.opcode) ≡ true
        → (a.operation_type ≡ reduce → IsRank a.root_rank)
        → Succeeds a (upstream_data a rule conn f)
    unfolding upstream_data
    upstream_data-Succeeds conn has_payload h =
        if-Succeeds a (ltb (frame_psn f) (a.agg_epsn conn)) _ _
          (λ e. ack_then-Succeeds a a (a.agg_epsn conn - 1) stay (refl, refl, refl))
          (λ e.
            if-Succeeds a (ltb (a.agg_epsn conn) (frame_psn f)) _ _
              (λ d. nak_then-Succeeds a a (a.agg_epsn conn) stay (refl, refl, refl))
              (λ d. ack_then-Succeeds a b (frame_psn f) (added conn) (
                with_payload-Succeeds _ has_payload (λ payload len small.
                  Succeeds-trans a b _ (refl, refl, refl)
                    (aggregate-Succeeds len small b rule conn (frame_psn f) payload (f.bth.opcode)
                      h)))))
      where
        b : Context
        b = record a { agg_epsn = update a.agg_epsn conn (a.agg_epsn conn + 1) }

module _ (a : Context) (rule : Rule) (has_ack : HasAck rule) (conn : ℕ) (f : Frame) where
  pub control_message-Succeeds : Succeeds a (control_message a rule conn f)
  unfolding control_message
  control_message-Succeeds =
      ack_then-Succeeds rule has_ack a b (frame_psn f) stay (refl, refl, refl)
    where
      b : Context
      b = record a { agg_epsn = update a.agg_epsn conn (a.agg_epsn conn + 1) }

  pub dispatch-Succeeds :
      Fits f
      → (a.operation_type ≡ reduce → IsRank a.root_rank)
      → Succeeds a (dispatch a rule conn f)
  unfolding dispatch
  dispatch-Succeeds fits h =
      if-Succeeds a (is_data_opcode (f.bth.opcode)) _ _ (data_to rule.direction) (λ e.
        if-Succeeds a (f.bth.opcode == opcode_ack) _ _ (λ d. ack_to rule.direction)
          (λ d. (refl, refl, refl)))
    where
      data_to :
          (d : Direction)
          → is_data_opcode (f.bth.opcode) ≡ true
          → Succeeds a
              (elim d [ down ↦ downstream_data a rule f | up ↦ upstream_data a rule conn f ])
      data_to down e = downstream_data-Succeeds rule has_ack a f fits e
      data_to up e = upstream_data-Succeeds rule has_ack a f fits conn e h

      ack_to :
          (d : Direction)
          → Succeeds a (elim d [
            | down ↦ stay (handle_downstream_ack a (frame_psn f) (not (frame_syndrome f == 0)))
            | up ↦ stay (handle_upstream_ack a conn (frame_psn f) (not (frame_syndrome f == 0)))
          ])
      ack_to down = downstream_ack-Keeps a _ _
      ack_to up = upstream_ack-Keeps a conn _ _
