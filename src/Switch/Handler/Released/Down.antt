-- ===== src/Switch/Handler/Released/Down.antt =====
-- repository/termination_switch/src/switch_main.c, `handle_downstream_ack`: which slots are free
-- after an ACK of the parent.
use native.Mathlib.Decide.{ℕ_discrete}
use mathlib.Core.Path.{subst}
use inc_emulation.Base.{
  ℕ, zero, suc, ◌+◌, ◌-◌, ◌≡◌, ◌≢◌, refl, sym, ap, ◌∙◌, arith, Bool, true, false, ltb, leb, ◌==◌,
  ◌&&◌, eq_ℤ, ℤ, pos, negsuc, if◌then◌else◌, Bool-cases, inl, inr,
}
use inc_emulation.Switch.State.{PsnState, Context, slot, put_slot, idx}
use inc_emulation.Switch.Aggregate.{clear_aggregation}
use inc_emulation.Switch.Handler.{release_slot, release_slots, handle_downstream_ack}

-- Whether slot i is in use for one of the n PSNs from p on
abbrev pub held_for : (p n i : ℕ) → (state : ℕ) → (psn : ℤ) → Bool
held_for p n i state (negsuc _) = false
held_for p n i state (pos q) = state == 1 && (leb p q && ltb q (p + n)) && idx q == i

abbrev pub is_acked : (p n i : ℕ) → PsnState → Bool
is_acked p n i s = held_for p n i s.agg_buffer.state s.agg_buffer.psn

abbrev pub freed_if : Bool → PsnState → PsnState
freed_if b s = if b then clear_aggregation s else s

held-here :
    (p state : ℕ) (psn : ℤ) → held_for p 1 (idx p) state psn ≡ state == 1 && eq_ℤ psn (pos p)
held-here p state (negsuc _) = ground arith
held-here p state (pos q) = ground arith

held-elsewhere : (p i state : ℕ) (psn : ℤ) → i ≢ idx p → held_for p 1 i state psn ≡ false
held-elsewhere p i state (negsuc _) ne = refl
held-elsewhere p i state (pos q) ne = ground (arith, ne)

-- A slot that is free is not freed again.
held-free : (p n i : ℕ) (psn : ℤ) → held_for p n i 0 psn ≡ false
held-free p n i (negsuc _) = refl
held-free p n i (pos q) = refl

held-split :
    (p n i state : ℕ) (psn : ℤ)
    → held_for p (suc n) i state psn
      ≡ (if held_for p 1 i state psn then true else held_for (suc p) n i state psn)
held-split p n i state (negsuc _) = refl
held-split p n i state (pos q) = ground arith

release_slot-here :
    (ctx : Context) (p : ℕ)
    → (release_slot ctx p).psn_states (idx p)
      ≡ freed_if (is_acked p 1 (idx p) (slot ctx p)) (slot ctx p)
unfolding release_slot
release_slot-here ctx p =
    let s = slot ctx p in
    rw (held-here p s.agg_buffer.state s.agg_buffer.psn)
      (test (s.agg_buffer.state == 1 && eq_ℤ s.agg_buffer.psn (pos p)))
  where
    test :
        (b : Bool)
        → (if b then put_slot ctx p (clear_aggregation (slot ctx p)) else ctx).psn_states (idx p)
          ≡ freed_if b (slot ctx p)
    test true = ground arith
    test false = refl

release_slot-elsewhere :
    (ctx : Context) (p i : ℕ)
    → i ≢ idx p
    → (release_slot ctx p).psn_states i
      ≡ freed_if (is_acked p 1 i (ctx.psn_states i)) (ctx.psn_states i)
unfolding release_slot
release_slot-elsewhere ctx p i ne =
    let s = ctx.psn_states i in
    rw (held-elsewhere p i s.agg_buffer.state s.agg_buffer.psn ne)
      (test ((slot ctx p).agg_buffer.state == 1 && eq_ℤ (slot ctx p).agg_buffer.psn (pos p)))
  where
    test :
        (b : Bool)
        → (if b then put_slot ctx p (clear_aggregation (slot ctx p)) else ctx).psn_states i
          ≡ ctx.psn_states i
    test true = ground (arith, ne)
    test false = refl

release_slot-one :
    (ctx : Context) (p i : ℕ)
    → (release_slot ctx p).psn_states i
      ≡ freed_if (is_acked p 1 i (ctx.psn_states i)) (ctx.psn_states i)
release_slot-one ctx p i = elim (ℕ_discrete i (idx p)) [
  | yes e ↦
      subst
        (λ j.
          (release_slot ctx p).psn_states j
          ≡ freed_if (is_acked p 1 j (ctx.psn_states j)) (ctx.psn_states j))
        (sym e) (release_slot-here ctx p)
  | no ne ↦ release_slot-elsewhere ctx p i ne
]

freed_twice :
    (p n i : ℕ) (s : PsnState)
    → freed_if
        (is_acked (suc p) n i (freed_if (is_acked p 1 i s) s))
        (freed_if (is_acked p 1 i s) s)
      ≡ freed_if (is_acked p (suc n) i s) s
unfolding clear_aggregation
freed_twice p n i s =
    rw (held-split p n i s.agg_buffer.state s.agg_buffer.psn) (test (is_acked p 1 i s))
  where
    test :
        (b : Bool)
        → freed_if (is_acked (suc p) n i (freed_if b s)) (freed_if b s)
          ≡ freed_if (if b then true else is_acked (suc p) n i s) s
    test true = rw (held-free (suc p) n i s.agg_buffer.psn) refl
    test false = refl

release_slots-all :
    (ctx : Context) (p n i : ℕ)
    → (release_slots ctx p n).psn_states i
      ≡ freed_if (is_acked p n i (ctx.psn_states i)) (ctx.psn_states i)
unfolding release_slots
release_slots-all ctx p zero i = sym (
    ap (λ b. freed_if b (ctx.psn_states i))
      (nothing (ctx.psn_states i).agg_buffer.state (ctx.psn_states i).agg_buffer.psn))
  where
    nothing : (state : ℕ) (psn : ℤ) → held_for p 0 i state psn ≡ false
    nothing state (negsuc _) = refl
    nothing state (pos q) = ground arith
release_slots-all ctx p (suc n) i =
    release_slots-all (release_slot ctx p) (suc p) n i
    ∙ ap (λ s. freed_if (is_acked (suc p) n i s) s) (release_slot-one ctx p i)
    ∙ freed_twice p n i (ctx.psn_states i)

-- What an ACK of the parent frees: whatever slot one looks at, it is cleared if it is in use for a PSN
-- behind the acknowledged one and up to the new one, and is as before if it is not. The acknowledged
-- PSN becomes the new one if that is larger.
pub handle_downstream_ack_lem :
    (ctx : Context) (psn i : ℕ)
    → ((handle_downstream_ack ctx psn false).psn_states i
        ≡ freed_if
            (is_acked (ctx.down_ack + 1) (psn - ctx.down_ack) i (ctx.psn_states i))
            (ctx.psn_states i))
      × ((handle_downstream_ack ctx psn false).down_ack
          ≡ (if ltb ctx.down_ack psn then psn else ctx.down_ack))
unfolding handle_downstream_ack release_slots
handle_downstream_ack_lem ctx psn i = elim (Bool-cases (ltb ctx.down_ack psn)) [
  | inl e ↦ (rw e (release_slots-all ctx (ctx.down_ack + 1) (psn - ctx.down_ack) i), rw e refl)
  | inr e ↦
      let none_new : psn - ctx.down_ack ≡ 0 = ground (arith, e) in
      (rw (e, none_new) (release_slots-all ctx (ctx.down_ack + 1) 0 i), rw e refl)
]
