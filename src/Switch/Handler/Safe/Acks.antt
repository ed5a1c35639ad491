-- ===== src/Switch/Handler/Safe/Acks.antt =====
-- What the acknowledgements of switch_main.c leave as it was.
use inc_emulation.Base.{
  ℕ, ◌+◌, ◌-◌, ◌≡◌, refl, ◌∙◌, Bool, true, false, ◌==◌, ◌&&◌, ◌⊎◌, Bool-cases, inl, inr, ltb, zero,
  suc, eq_ℤ, pos,
}
use inc_emulation.Switch.State.{Context, slot}
use inc_emulation.Switch.Handler.{
  handle_downstream_ack, handle_upstream_ack, release_slot, release_slots,
}
use inc_emulation.Switch.Handler.Safe.{Keeps}

release_slots-Keeps : (a : Context) (p n : ℕ) → Keeps a (release_slots a p n)
unfolding release_slots release_slot
release_slots-Keeps a p zero = (refl, refl, refl)
release_slots-Keeps a p (suc n) =
    let (table, op, root) = release_slots-Keeps (release_slot a p) (suc p) n in
    let (table', op', root') = released (Bool-cases used) in
    (table ∙ table', op ∙ op', root ∙ root')
  where
    used : Bool
    used = (slot a p).agg_buffer.state == 1 && eq_ℤ ((slot a p).agg_buffer.psn) (pos p)

    released : (used ≡ true) ⊎ (used ≡ false) → Keeps a (release_slot a p)
    released (inl e) = rw (release_slot, e) (refl, refl, refl)
    released (inr e) = rw (release_slot, e) (refl, refl, refl)

pub downstream_ack-Keeps :
    (a : Context) (psn : ℕ) (is_nak : Bool) → Keeps a (handle_downstream_ack a psn is_nak)
unfolding handle_downstream_ack
downstream_ack-Keeps a psn true = (refl, refl, refl)
downstream_ack-Keeps a psn false = elim (Bool-cases (ltb a.down_ack psn)) [
  | inl e ↦
      rw (handle_downstream_ack, e) (release_slots-Keeps a (a.down_ack + 1) (psn - a.down_ack))
  | inr e ↦ rw (handle_downstream_ack, e) (refl, refl, refl)
]

pub upstream_ack-Keeps :
    (a : Context) (conn psn : ℕ) (is_nak : Bool) → Keeps a (handle_upstream_ack a conn psn is_nak)
unfolding handle_upstream_ack
upstream_ack-Keeps a conn psn true = (refl, refl, refl)
upstream_ack-Keeps a conn psn false = elim (Bool-cases (ltb (a.latest_ack conn) psn)) [
  | inl e ↦ rw (handle_upstream_ack, e) (refl, refl, refl)
  | inr e ↦ rw (handle_upstream_ack, e) (refl, refl, refl)
]
