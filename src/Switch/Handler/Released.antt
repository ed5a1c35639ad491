-- ===== src/Switch/Handler/Released.antt =====
-- repository/termination_switch/src/switch_main.c: which slots the acknowledgements free.
pub mod Down
use native.Mathlib.Decide.{ℕ_discrete}
use inc_emulation.Base.{
  ℕ, zero, suc, ◌+◌, ◌-◌, ◌%◌, ◌≤◌, ◌<◌, ◌≡◌, ◌≢◌, refl, sym, ap, ◌∙◌, arith, ==_refl, true, false,
  ltb, ◌==◌, if◌then◌else◌, List, [], ◌∷◌, length, update,
}
use inc_emulation.Switch.State.{PsnState, Context, AggBuffer, slot, put_slot, idx}
use inc_emulation.Switch.Handler.{count_ack, handle_upstream_ack}

-- The ACKs of these connections for one PSN, in turn
abbrev pub ack_all : Context → (psn : ℕ) → List ℕ → Context
ack_all ctx psn [] = ctx
ack_all ctx psn (c ∷ cs) = ack_all (handle_upstream_ack ctx c psn false) psn cs

abbrev pub IsOther : ℕ → List ℕ → Type 0
IsOther c [] = Unit {0}
IsOther c (d ∷ ds) = (c ≢ d) × IsOther c ds

-- Different connections, none of which has acknowledged this PSN
abbrev pub AreWaiting : Context → (psn : ℕ) → List ℕ → Type 0
AreWaiting ctx psn [] = Unit {0}
AreWaiting ctx psn (c ∷ cs) =
    (ctx.latest_ack c < psn)
    × ((slot ctx psn).r_arrival c ≡ 0)
    × IsOther c cs
    × AreWaiting ctx psn cs

-- The state after one ACK
abbrev acked : Context → (psn c : ℕ) → Context
acked ctx psn c = record (put_slot ctx psn (count_ack (slot ctx psn) c ctx.fan_in)) {
  latest_ack = update ctx.latest_ack c psn;
}

handle_upstream_ack-acked :
    (ctx : Context) (psn c : ℕ)
    → ctx.latest_ack c < psn
    → handle_upstream_ack ctx c psn false ≡ acked ctx psn c
unfolding handle_upstream_ack
handle_upstream_ack-acked ctx psn c h = ground (arith, h)

slot-acked :
    (ctx : Context) (psn c : ℕ) → slot (acked ctx psn c) psn ≡ count_ack (slot ctx psn) c ctx.fan_in
slot-acked ctx psn c = ground arith

-- A slot with one more ACK, not the last one
abbrev pub counted : PsnState → ℕ → PsnState
counted s c = record s { r_arrival = update s.r_arrival c 1; r_degree = s.r_degree + 1 }

-- A slot that has counted the ACKs of these connections, not all of the switch's
abbrev pub tally : PsnState → List ℕ → PsnState
tally s [] = s
tally s (c ∷ cs) = tally (counted s c) cs

-- A slot whose broadcast has been acknowledged by all
abbrev pub completed : PsnState → PsnState
completed s = record s {
  r_arrival = λ _. 0;
  r_degree = 0;
  bcast_buffer = record (s.bcast_buffer) { state = 0 };
}

count_ack-counted :
    (s : PsnState) (c fan_in : ℕ)
    → s.r_arrival c ≡ 0
    → s.r_degree + 1 < fan_in
    → count_ack s c fan_in ≡ counted s c
unfolding count_ack
count_ack-counted s c fan_in h small = ground (arith, h, small)

count_ack-completed :
    (s : PsnState) (c fan_in : ℕ)
    → s.r_arrival c ≡ 0
    → s.r_degree + 1 ≡ fan_in
    → count_ack s c fan_in ≡ completed s
unfolding count_ack
count_ack-completed s c fan_in h full = ground (arith, h, full)

-- The others go on waiting.
AreWaiting-acked :
    (ctx : Context) (psn c : ℕ) (cs : List ℕ)
    → slot (acked ctx psn c) psn ≡ counted (slot ctx psn) c
    → IsOther c cs
    → AreWaiting ctx psn cs
    → AreWaiting (acked ctx psn c) psn cs
AreWaiting-acked ctx psn c [] e other h = tt
AreWaiting-acked ctx psn c (d ∷ ds) e (ne, other) (late, none_yet, new, h) = (
  ground (arith, late, ne),
  ap (λ (s : PsnState). s.r_arrival d) e ∙ ground (arith, none_yet, ne),
  new,
  AreWaiting-acked ctx psn c ds e other h,
)

tally-counts :
    (s : PsnState) (cs : List ℕ)
    → ((tally s cs).bcast_buffer ≡ s.bcast_buffer)
      × ((tally s cs).r_degree ≡ s.r_degree + length cs)
tally-counts s [] = (refl, omega arith)
tally-counts s (c ∷ cs) =
    let (buffer, degree) = tally-counts (counted s c) cs in (buffer, omega (arith, degree))

-- What the ACKs come to: the slot counts them, and with the last one it is complete. No other slot
-- changes.
record Acked (ctx : Context) (psn : ℕ) (cs : List ℕ) (after : Context) : Type 0 where
  pub others : (i : ℕ) → i ≢ idx psn → after.psn_states i ≡ ctx.psn_states i
  pub before_last :
      (slot ctx psn).r_degree + length cs < ctx.fan_in → slot after psn ≡ tally (slot ctx psn) cs
  pub last :
      0 < length cs
      → (slot ctx psn).r_degree + length cs ≡ ctx.fan_in
      → slot after psn ≡ completed (slot ctx psn)

acked-others :
    (ctx : Context) (psn c i : ℕ) → i ≢ idx psn → (acked ctx psn c).psn_states i ≡ ctx.psn_states i
acked-others ctx psn c i ne = ground (arith, ne)

ack_all-Acked :
    (ctx : Context) (psn : ℕ) (cs : List ℕ)
    → (slot ctx psn).r_degree + length cs ≤ ctx.fan_in
    → AreWaiting ctx psn cs
    → Acked ctx psn cs (ack_all ctx psn cs)
ack_all-Acked ctx psn [] room h = record {
  others = λ i _. refl;
  before_last = λ _. refl;
  last = λ some_acks. absurd (omega (arith, some_acks));
}
ack_all-Acked ctx psn (c ∷ []) room (late, none_yet, _, _) =
    rw (handle_upstream_ack-acked ctx psn c late) (record {
      others = acked-others ctx psn c;
      before_last = λ small.
          slot-acked ctx psn c ∙ count_ack-counted (slot ctx psn) c ctx.fan_in none_yet small;
      last = λ _ full.
          slot-acked ctx psn c ∙ count_ack-completed (slot ctx psn) c ctx.fan_in none_yet full;
    })
ack_all-Acked ctx psn (c ∷ d ∷ cs) room (late, none_yet, other, h) =
    let next = acked ctx psn c in
    let e : slot next psn ≡ counted (slot ctx psn) c =
      slot-acked ctx psn c
      ∙ count_ack-counted (slot ctx psn) c ctx.fan_in none_yet (omega (arith, room)) in
    let one_more : (slot next psn).r_degree ≡ (slot ctx psn).r_degree + 1 =
      ap (λ (s : PsnState). s.r_degree) e in
    let r =
      ack_all-Acked next psn (d ∷ cs) (omega (arith, one_more, room))
        (AreWaiting-acked ctx psn c (d ∷ cs) e other h) in
    rw (handle_upstream_ack-acked ctx psn c late) (record {
      others = λ i ne. r.others i ne ∙ acked-others ctx psn c i ne;
      before_last =
          λ small. r.before_last (omega (arith, one_more, small)) ∙ ap (λ s. tally s (d ∷ cs)) e;
      last = λ _ full. r.last (omega arith) (omega (arith, one_more, full)) ∙ ap completed e;
    })

-- When different connections acknowledge a PSN, in any order, its slot counts them; with the last of all
-- the connections of the switch, and not before, the slot's broadcast buffer is free and the count starts
-- again, from a slot that has no ACK of any connection. Every other slot stays as it is. The connections have not acknowledged this PSN, and the
-- slot has not counted an ACK yet.
pub handle_upstream_ack-all :
    (ctx : Context) (psn i : ℕ) (cs : List ℕ)
    → AreWaiting ctx psn cs
    → (slot ctx psn).r_degree ≡ 0
    → 0 < length cs
    → length cs ≤ ctx.fan_in
    → i ≢ idx psn
    → (slot (ack_all ctx psn cs) psn
        ≡ (if length cs == ctx.fan_in then completed (slot ctx psn) else tally (slot ctx psn) cs))
      × ((slot (ack_all ctx psn cs) psn).bcast_buffer.state
          ≡ (if length cs == ctx.fan_in then 0 else (slot ctx psn).bcast_buffer.state))
      × ((slot (ack_all ctx psn cs) psn).r_degree
          ≡ (if length cs == ctx.fan_in then 0 else length cs))
      × ((ack_all ctx psn cs).psn_states i ≡ ctx.psn_states i)
handle_upstream_ack-all ctx psn i cs h none_yet some_acks room ne =
    let r = ack_all-Acked ctx psn cs (omega (arith, none_yet, room)) h in
    elim (ℕ_discrete (length cs) ctx.fan_in) [
      | yes full ↦
          let e = r.last some_acks (omega (arith, none_yet, full)) in
          (
            e ∙ ground (arith, full),
            ap (λ (s : PsnState). s.bcast_buffer.state) e ∙ ground (arith, full),
            ap (λ (s : PsnState). s.r_degree) e ∙ ground (arith, full),
            r.others i ne,
          )
      | no few ↦
          let counts : (k : ℕ)
              → k ≡ (slot ctx psn).r_degree + length cs
              → k ≡ (if length cs == ctx.fan_in then 0 else length cs) =
            λ k e. ground (arith, e, none_yet, few) in
          let e = r.before_last (omega (arith, none_yet, room, few)) in
          let (buffer, degree) = tally-counts (slot ctx psn) cs in
          (
            e ∙ ground (arith, few),
            ap (λ (s : PsnState). s.bcast_buffer.state) e
                ∙ ap (λ (b : AggBuffer). b.state) buffer
                ∙ ground (arith, few),
            counts _ (ap (λ (s : PsnState). s.r_degree) e ∙ degree),
            r.others i ne,
          )
    ]
