-- ===== src/Switch/Context/Reset.antt =====
-- repository/termination_switch/src/switch_context.c: what the reset and the first state share, and
-- what the reset leaves behind.
use inc_emulation.Base.{
  ℕ, zero, suc, ◌<◌, ◌≡◌, refl, arith, true, some, ℤ, minus_one, ltb, Bool-cases, inl, inr,
}
use inc_emulation.Rule.{allreduce}
use inc_emulation.Switch.State.{AggBuffer, Context, PsnState, switch_array_length}
use inc_emulation.Switch.Context.{
  empty_buffer, init_psn_state, reset_psn_state, switch_context_init,
  switch_context_reset_psn_states, active_psn,
}

-- A slot that takes the next packet as the first of its PSN, in both directions: nothing is counted, and
-- neither buffer is in use or names a length or a PSN.
pub record IsFree (s : PsnState) : Type 0 where
  pub degree : s.degree ≡ 0
  pub arrival : (c : ℕ) → s.arrival c ≡ 0
  pub state : s.agg_buffer.state ≡ 0
  pub r_degree : s.r_degree ≡ 0
  pub r_arrival : (c : ℕ) → s.r_arrival c ≡ 0
  pub bcast_state : s.bcast_buffer.state ≡ 0
  pub len : s.agg_buffer.len ≡ 0
  pub psn : s.agg_buffer.psn ≡ minus_one
  pub bcast_len : s.bcast_buffer.len ≡ 0
  pub bcast_psn : s.bcast_buffer.psn ≡ minus_one

-- What the reset promises: the slots are free, the expected and the acknowledged PSNs are 0, and the
-- operation is that of a new context.
pub record IsFresh (ctx : Context) : Type 0 where
  pub slots : (i : ℕ) → i < switch_array_length → IsFree (ctx.psn_states i)
  pub unused : active_psn switch_array_length ctx.psn_states ≡ 0
  pub epsn : (c : ℕ) → ctx.agg_epsn c ≡ 0
  pub down_epsn : ctx.down_epsn ≡ 0
  pub acks : (c : ℕ) → ctx.latest_ack c ≡ 0
  pub down_ack : ctx.down_ack ≡ 0
  pub operation : ctx.operation_type ≡ allreduce
  pub root : ctx.root_rank ≡ minus_one

no_active :
    (n : ℕ) (states : ℕ → PsnState)
    → ((i : ℕ) → i < n → IsFree (states i))
    → active_psn n states ≡ 0
unfolding active_psn
no_active zero states free = refl
no_active (suc n) states free = ground (
  arith,
  (free n (omega arith)).state,
  (free n (omega arith)).bcast_state,
  no_active n states (λ i h. free i (omega (arith, h))),
)

reset-IsFree :
    (ctx : Context) (i : ℕ)
    → i < switch_array_length
    → IsFree ((switch_context_reset_psn_states ctx).psn_states i)
unfolding switch_context_reset_psn_states reset_psn_state
reset-IsFree ctx i h = record {
  degree = ground (arith, h);
  arrival = λ c. ground (arith, h);
  state = ground (arith, h);
  r_degree = ground (arith, h);
  r_arrival = λ c. ground (arith, h);
  bcast_state = ground (arith, h);
  len = ground (arith, h);
  psn = ground (arith, h);
  bcast_len = ground (arith, h);
  bcast_psn = ground (arith, h);
}

-- Two buffers with the same words, packet type, operation and root rank
abbrev pub IsSameContent : AggBuffer → AggBuffer → Type 0
IsSameContent a b =
    (b.buffer ≡ a.buffer)
    × (b.packet_type ≡ a.packet_type)
    × (b.operation_type ≡ a.operation_type)
    × (b.root_rank ≡ a.root_rank)

abbrev pub AreKept : PsnState → PsnState → Type 0
AreKept s t = IsSameContent s.agg_buffer t.agg_buffer × IsSameContent s.bcast_buffer t.bcast_buffer

reset-AreKept :
    (ctx : Context) (i : ℕ)
    → AreKept (ctx.psn_states i) ((switch_context_reset_psn_states ctx).psn_states i)
unfolding switch_context_reset_psn_states reset_psn_state
reset-AreKept ctx i = elim (Bool-cases (ltb i switch_array_length)) [
  | inl e ↦ rw e ((refl, refl, refl, refl), (refl, refl, refl, refl))
  | inr e ↦ rw e ((refl, refl, refl, refl), (refl, refl, refl, refl))
]

init-IsFree : IsFree init_psn_state
unfolding init_psn_state empty_buffer
init-IsFree = record {
  degree = refl;
  arrival = λ _. refl;
  state = refl;
  r_degree = refl;
  r_arrival = λ _. refl;
  bcast_state = refl;
  len = refl;
  psn = refl;
  bcast_len = refl;
  bcast_psn = refl;
}

-- The reset before a new topology frees every slot (no counts and arrivals, states and lengths 0, PSNs -1,
-- in both buffers), brings the expected and the acknowledged PSNs to 0, and the operation and the root
-- rank back to those of a new context, which has all of this too. What the reset keeps, and a new context
-- sets, is the next PSN of every connection (0 in a new one), the PSN of the last control message (-1),
-- and in each slot the words, the packet types, the operations and the root ranks of the buffers.
pub switch_context_reset_psn_states_lem :
    (ctx : Context)
    → IsFresh (switch_context_reset_psn_states ctx)
      × ((c : ℕ) → (switch_context_reset_psn_states ctx).send_psn c ≡ ctx.send_psn c)
      × ((switch_context_reset_psn_states ctx).ctrl_psn ≡ ctx.ctrl_psn)
      × ((i : ℕ) → AreKept (ctx.psn_states i) ((switch_context_reset_psn_states ctx).psn_states i))
      × ((id : ℤ)
          → (new : Context) × (switch_context_init id true ≡ some new)
            × IsFresh new
            × ((c : ℕ) → new.send_psn c ≡ 0)
            × (new.ctrl_psn ≡ minus_one))
unfolding switch_context_reset_psn_states switch_context_init reset_psn_state
switch_context_reset_psn_states_lem ctx = (
  record {
    slots = reset-IsFree ctx;
    unused =
        no_active switch_array_length (switch_context_reset_psn_states ctx).psn_states
          (reset-IsFree ctx);
    epsn = λ _. refl;
    down_epsn = refl;
    acks = λ _. refl;
    down_ack = refl;
    operation = refl;
    root = refl;
  },
  λ _. refl,
  refl,
  λ i. reset-AreKept ctx i,
  λ id. (
    _,
    refl,
    record {
      slots = λ _ _. init-IsFree;
      unused = no_active switch_array_length (λ _. init_psn_state) (λ _ _. init-IsFree);
      epsn = λ _. refl;
      down_epsn = refl;
      acks = λ _. refl;
      down_ack = refl;
      operation = refl;
      root = refl;
    },
    λ _. refl,
    refl,
  ),
)
