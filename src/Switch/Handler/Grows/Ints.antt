-- ===== src/Switch/Handler/Grows/Ints.antt =====
-- repository/termination_switch/src/switch_main.c: runs whose PSN counters stay in the range of the
-- ints that they are in the source.
use mathlib.Core.Path.{subst}
use inc_emulation.Base.{ℕ, ◌^◌, ◌<◌, ◌≡◌, refl, ap, ◌∙◌, arith, some, none, List, [], ◌∷◌, ◌++◌}
use inc_emulation.Switch.State.{Context, Sent, Outcome}
use inc_emulation.Switch.Send.{and_then}
use inc_emulation.Switch.Handler.{
  Captured, in_arrays, packet_handler, handle_captured, run_captured,
}
use inc_emulation.Switch.Handler.Grows.{Grows, GrowsTo, Grows-refl, and_then-GrowsTo, if-GrowsTo}
use inc_emulation.Switch.Handler.Grows.Handling.{packet_handler-GrowsTo}

-- The PSN counters of a state, which are ints, are below 2 ^ 31.
pub record HasInts (ctx : Context) : Type 0 where
  pub epsn : (c : ℕ) → ctx.agg_epsn c < 2 ^ 31
  pub down_epsn : ctx.down_epsn < 2 ^ 31
  pub sends : (c : ℕ) → ctx.send_psn c < 2 ^ 31
  pub acks : (c : ℕ) → ctx.latest_ack c < 2 ^ 31
  pub down_ack : ctx.down_ack < 2 ^ 31

-- The counters only grow in the model, so those before fit where those behind do.
HasInts-before : (a b : Context) → Grows a b → HasInts b → HasInts a
HasInts-before a b g h = record {
  epsn = λ c. omega (arith, g.epsn c, h.epsn c);
  down_epsn = omega (arith, g.down_psn, h.down_epsn);
  sends = λ c. omega (arith, g.sends c, h.sends c);
  acks = λ c. omega (arith, g.acks c, h.acks c);
  down_ack = omega (arith, g.downs, h.down_ack);
}

and_then-some :
    (o : Outcome) (k : Context → Outcome) (b : Context) (sent : List Sent)
    → and_then o k ≡ some (b, sent)
    → (c : Context) × (first : List Sent) × (later : List Sent) × ◌≡◌ {A = Outcome} o
        (some (c, first))
      × (k c ≡ some (b, later))
and_then-some none k b sent e = absurd (cc e)
and_then-some (some (c, first)) k b sent e = from (k c) refl e
  where
    from :
        (o : Outcome)
        → k c ≡ o
        → ◌≡◌ {A = Outcome}
            (elim o [ none ↦ none | some (d, more) ↦ some (d, first ++ more) ])
            (some (b, sent))
        → (c' : Context) × (first' : List Sent) × (later : List Sent) × ◌≡◌ {A = Outcome}
            (some (c, first))
            (some (c', first'))
          × (k c' ≡ some (b, later))
    from none e' e = absurd (cc e)
    from (some (d, more)) e' e = (c, first, more, refl, e' ∙ ap (λ ctx. some (ctx, more)) (same e))
      where
        same : ◌≡◌ {A = Outcome} (some (d, first ++ more)) (some (b, sent)) → d ≡ b
        same e = cc e

handle_captured-GrowsTo : (a : Context) (c : Captured) → GrowsTo a (handle_captured a c)
unfolding handle_captured
handle_captured-GrowsTo a c =
    if-GrowsTo a (in_arrays a c) (packet_handler a c.conn_id c.frame) none
      (packet_handler-GrowsTo a c.conn_id c.frame) tt

run_captured-GrowsTo : (a : Context) (frames : List Captured) → GrowsTo a (run_captured a frames)
unfolding run_captured
run_captured-GrowsTo a [] = Grows-refl a
run_captured-GrowsTo a (c ∷ rest) =
    and_then-GrowsTo a (handle_captured a c) (λ b. run_captured b rest)
      (handle_captured-GrowsTo a c) (λ b. run_captured-GrowsTo b rest)

pub run_captured-keeps :
    (a b : Context) (frames : List Captured) (sent : List Sent)
    → run_captured a frames ≡ some (b, sent)
    → Grows a b
run_captured-keeps a b frames sent e = subst (GrowsTo a) e (run_captured-GrowsTo a frames)

-- A run in steps, each of which leaves counters that are ints
abbrev pub StaysInt : Context → List Captured → Type 0
StaysInt a [] = HasInts a
StaysInt a (c ∷ rest) =
    HasInts a
    × (b : Context) × (sent : List Sent) × (handle_captured a c ≡ some (b, sent))
    × StaysInt b rest

run_captured-StaysInt :
    (a b : Context) (frames : List Captured) (sent : List Sent)
    → run_captured a frames ≡ some (b, sent)
    → HasInts b
    → StaysInt a frames
unfolding run_captured
run_captured-StaysInt a b [] sent e h = subst HasInts (same e) h
  where
    same : ◌≡◌ {A = Outcome} (some (a, [])) (some (b, sent)) → b ≡ a
    same e = cc e
run_captured-StaysInt a b (f ∷ rest) sent e h =
    let (c, first, later, handled, ran) = and_then-some _ (λ ctx. run_captured ctx rest) b sent e in
    (
      HasInts-before a b (run_captured-keeps a b (f ∷ rest) sent e) h,
      c,
      first,
      handled,
      run_captured-StaysInt c b rest later ran h,
    )

-- Whatever frames a switch receives, if the run has not left an array or followed NULL, and the PSN
-- counters are below 2 ^ 31 at its end, then no counter has passed the range of its int at any frame, the
-- routing, the links and the place in the tree are as they were, and no expected PSN, next PSN or
-- acknowledged PSN has gone back.
pub run_captured-Grows :
    (a b : Context) (frames : List Captured) (sent : List Sent)
    → run_captured a frames ≡ some (b, sent)
    → HasInts b
    → Grows a b × StaysInt a frames
run_captured-Grows a b frames sent e h =
    (run_captured-keeps a b frames sent e, run_captured-StaysInt a b frames sent e h)
