-- ===== src/Switch/Handler/Grows/Acks.antt =====
-- What the acknowledgements and the counters of switch_main.c leave as it was.
use inc_emulation.Base.{
  ℕ, zero, suc, ◌+◌, ◌≡◌, refl, arith, Bool, true, false, ◌==◌, ◌-◌, eq_ℤ, ◌&&◌, ◌⊎◌, Bool-cases,
  inl, inr, ℤ, pos, update, ltb,
}
use inc_emulation.Rule.{Primitive}
use inc_emulation.Switch.State.{Context, slot}
use inc_emulation.Switch.Handler.{
  release_slot, release_slots, handle_downstream_ack, handle_upstream_ack,
}
use inc_emulation.Switch.Handler.Grows.{Grows, Grows-refl, Grows-trans, put_slot-Grows}

-- `agg_epsn` of a connection counted
abbrev pub taken : Context → ℕ → Context
taken a conn = record a { agg_epsn = update a.agg_epsn conn (a.agg_epsn conn + 1) }

pub taken-Grows : (a : Context) (conn : ℕ) → Grows a (taken a conn)
taken-Grows a conn = record {
  rules = refl;
  fan = refl;
  root = refl;
  ranks = refl;
  links = refl;
  epsn = λ c. ground arith;
  down_psn = omega arith;
  sends = λ c. omega arith;
  acks = λ c. omega arith;
  downs = omega arith;
}

-- The operation is free to change.
pub Grows-free :
    (a : Context) (op : Primitive) (root psn : ℤ)
    → Grows a (record a { operation_type = op; root_rank = root; ctrl_psn = psn })
Grows-free a op root psn = record {
  rules = refl;
  fan = refl;
  root = refl;
  ranks = refl;
  links = refl;
  epsn = λ c. omega arith;
  down_psn = omega arith;
  sends = λ c. omega arith;
  acks = λ c. omega arith;
  downs = omega arith;
}

release_slots-Grows : (a : Context) (p n : ℕ) → Grows a (release_slots a p n)
unfolding release_slots release_slot
release_slots-Grows a p zero = Grows-refl a
release_slots-Grows a p (suc n) =
    Grows-trans a (release_slot a p) _ (released (Bool-cases used))
      (release_slots-Grows (release_slot a p) (suc p) n)
  where
    used : Bool
    used = (slot a p).agg_buffer.state == 1 && eq_ℤ ((slot a p).agg_buffer.psn) (pos p)

    released : (used ≡ true) ⊎ (used ≡ false) → Grows a (release_slot a p)
    released (inl e) = rw (release_slot, e) (put_slot-Grows a p _)
    released (inr e) = rw (release_slot, e) (Grows-refl a)

pub upstream_ack-Grows :
    (a : Context) (conn psn : ℕ) (is_nak : Bool) → Grows a (handle_upstream_ack a conn psn is_nak)
unfolding handle_upstream_ack
upstream_ack-Grows a conn psn true = Grows-refl a
upstream_ack-Grows a conn psn false = acked (Bool-cases (ltb (a.latest_ack conn) psn))
  where
    acked :
        (ltb (a.latest_ack conn) psn ≡ true) ⊎ (ltb (a.latest_ack conn) psn ≡ false)
        → Grows a (handle_upstream_ack a conn psn false)
    acked (inl e) =
        rw (handle_upstream_ack, e)
          (record {
            rules = refl;
            fan = refl;
            root = refl;
            ranks = refl;
            links = refl;
            epsn = λ c. omega arith;
            down_psn = omega arith;
            sends = λ c. omega arith;
            acks = λ c. ground (arith, e);
            downs = omega arith;
          })
    acked (inr e) = rw (handle_upstream_ack, e) (Grows-refl a)

pub downstream_ack-Grows :
    (a : Context) (psn : ℕ) (is_nak : Bool) → Grows a (handle_downstream_ack a psn is_nak)
unfolding handle_downstream_ack
downstream_ack-Grows a psn true = Grows-refl a
downstream_ack-Grows a psn false = acked (Bool-cases (ltb a.down_ack psn))
  where
    r : Grows a (release_slots a (a.down_ack + 1) (psn - a.down_ack))
    r = release_slots-Grows a (a.down_ack + 1) (psn - a.down_ack)

    acked :
        (ltb a.down_ack psn ≡ true) ⊎ (ltb a.down_ack psn ≡ false)
        → Grows a (handle_downstream_ack a psn false)
    acked (inl e) =
        rw (handle_downstream_ack, e)
          (record {
            rules = r.rules;
            fan = r.fan;
            root = r.root;
            ranks = r.ranks;
            links = r.links;
            epsn = r.epsn;
            down_psn = r.down_psn;
            sends = r.sends;
            acks = r.acks;
            downs = ground (arith, e);
          })
    acked (inr e) = rw (handle_downstream_ack, e) (Grows-refl a)
