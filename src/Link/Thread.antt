-- ===== src/Link/Thread.antt =====
-- repository/termination_switch/src/controller_comm.cpp, `controller_thread`: a switch that is
-- configured again and again.
use mathlib.Core.Path.{subst}
use inc_emulation.Base.{
  ℕ, zero, suc, ◌+◌, ◌<◌, ◌≡◌, ◌⊎◌, inl, inr, refl, sym, ◌∙◌, arith, ◌==◌, Bool, true, false, not,
  if◌then◌else◌, Option, some, none, List, [], ◌∷◌, ◌++◌, ◌>>=◌, length, first, rest_from, u32_mod,
  length-rest_from,
}
use inc_emulation.External.{Text, External}
use inc_emulation.Switch.State.{Context}
use inc_emulation.Config.{Status, done, failed, parse_yaml_config}
use inc_emulation.Link.{
  Incoming, Received, applied, retry, closed, outcome_of, c_string, with_content, receive_content,
  receive_yaml_config, apply_config, Progress, ended, controller_thread, stack_size, after_round,
}
use inc_emulation.Link.Framed.{frame, receive_yaml_config-frame}

-- The texts one after another on the wire
abbrev pub frames : List Text → Text
frames [] = []
frames (t ∷ ts) = frame t ++ frames ts

-- Texts that a frame can carry
abbrev pub AllPlain : List Text → Type 0
AllPlain [] = Unit {0}
AllPlain (t ∷ ts) = (length t + 1 < u32_mod) × (c_string t ≡ t) × AllPlain ts

-- Each text parsed in turn; one that fails to parse leaves what it has changed, and only the others
-- set the number of receivers.
abbrev pub settle : Context × Status → Context
settle (ctx, done) = apply_config ctx
settle (ctx, failed) = ctx

abbrev pub to_end : Option Context → Option Progress
to_end o = o >>= λ ctx. some (ended ctx)

-- The frame that is parsed is a round of the thread.
after-parsed :
    (next : Context → Incoming → Option Progress) (s : Incoming) (o : Option (Context × Status))
    (r : Option (Context × Received × Incoming))
    → r ≡ (o >>= λ parsed. some (parsed.0, outcome_of parsed.1, s))
    → after_round next r ≡ (o >>= λ parsed. next (settle parsed) s)
after-parsed next s none r e = rw e refl
after-parsed next s (some (ctx, done)) r e = rw e refl
after-parsed next s (some (ctx, failed)) r e = rw e refl

then-to_end :
    (o : Option (Context × Status)) (f : Context → Option Progress) (g : Context → Option Context)
    → ((ctx : Context) → f ctx ≡ to_end (g ctx))
    → (o >>= λ parsed. f (settle parsed)) ≡ to_end (o >>= λ parsed. g (settle parsed))
then-to_end none f g h = refl
then-to_end (some parsed) f g h = h (settle parsed)

-- The thread has ended, or run into undefined behaviour.
abbrev pub Ends : Option Progress → Type 0
Ends o = (o ≡ none) ⊎ ((ctx : Context) × (o ≡ some (ended ctx)))

-- If a round is not the last one, it leaves less than n bytes.
abbrev GoesOn : ℕ → Option (Context × Received × Incoming) → Type 0
GoesOn n none = Unit {0}
GoesOn n (some (_, closed, _)) = Unit {0}
GoesOn n (some (_, _, s)) = (s.broken ≡ false) × (length s.bytes < n)

if-GoesOn :
    (n : ℕ) (b : Bool) (o p : Option (Context × Received × Incoming))
    → GoesOn n o
    → GoesOn n p
    → GoesOn n (if b then o else p)
if-GoesOn n true o p g h = g
if-GoesOn n false o p g h = h

after-GoesOn :
    (n : ℕ) (next : Context → Incoming → Option Progress)
    (o : Option (Context × Received × Incoming))
    → GoesOn n o
    → ((ctx : Context) (s : Incoming) → s.broken ≡ false → length s.bytes < n → Ends (next ctx s))
    → Ends (after_round next o)
after-GoesOn n next none g h = inl refl
after-GoesOn n next (some (ctx, closed, s)) g h = inr (ctx, refl)
after-GoesOn n next (some (ctx, retry, s)) (whole, less) h = h ctx s whole less
after-GoesOn n next (some (ctx, applied, s)) (whole, less) h = h (apply_config ctx) s whole less

module _ (x : External) where
  abbrev pub configured_by : Context → List Text → Option Context
  configured_by ctx [] = some ctx
  configured_by ctx (t ∷ ts) =
      parse_yaml_config x ctx t >>= λ parsed. configured_by (settle parsed) ts

  parsed_text :
      (t : Text) (ctx : Context) (s : Incoming)
      → c_string t ≡ t
      → with_content x ctx t s
        ≡ (parse_yaml_config x ctx t >>= λ parsed. some (parsed.0, outcome_of parsed.1, s))
  unfolding with_content
  parsed_text t ctx s plain = rw plain refl

  -- A switch whose controller sends any number of texts and closes the connection: the thread ends
  -- after one round for each text and one more, and the state is that of parsing the texts in turn.
  pub controller_thread-frames :
      (old : Text) (ctx : Context) (texts : List Text)
      → AllPlain texts
      → controller_thread x old true
          (suc (length texts))
          ctx
          (record { bytes = frames texts; broken = false })
        ≡ to_end (configured_by ctx texts)
  unfolding controller_thread
  controller_thread-frames old ctx [] h = unfold receive_yaml_config in refl
  controller_thread-frames old ctx (t ∷ ts) (small, plain, h) =
      after-parsed (controller_thread x old true (suc (length ts)))
        (record { bytes = frames ts; broken = false }) (parse_yaml_config x ctx t) _
        (receive_yaml_config-frame x old ctx t (frames ts) false small plain
          ∙ parsed_text t ctx _ plain)
      ∙ then-to_end (parse_yaml_config x ctx t)
          (λ ctx'.
            controller_thread x old true (suc (length ts)) ctx'
              (record { bytes = frames ts; broken = false }))
          (λ ctx'. configured_by ctx' ts) (λ ctx'. controller_thread-frames old ctx' ts h)

  with_content-GoesOn :
      (ctx : Context) (content : Text) (s : Incoming) (n : ℕ)
      → s.broken ≡ false
      → length s.bytes < n
      → GoesOn n (with_content x ctx content s)
  unfolding with_content
  with_content-GoesOn ctx content s n whole shorter =
      parsed (parse_yaml_config x ctx (c_string content))
    where
      parsed :
          (o : Option (Context × Status))
          → GoesOn n (o >>= λ parsed. some (parsed.0, outcome_of parsed.1, s))
      parsed none = tt
      parsed (some (_, done)) = (whole, shorter)
      parsed (some (_, failed)) = (whole, shorter)

  receive_yaml_config-GoesOn :
      (old : Text) (memory : Bool) (ctx : Context) (bytes : Text)
      → GoesOn
          (length bytes)
          (receive_yaml_config x old memory ctx (record { bytes = bytes; broken = false }))
  unfolding receive_yaml_config receive_content
  receive_yaml_config-GoesOn old memory ctx [] = tt
  receive_yaml_config-GoesOn old memory ctx (b ∷ bs) =
      let size = stack_size old (first 4 (b ∷ bs)) in
      let content = first size (rest_from 3 bs) in
      let n = length (b ∷ bs) in
      let less = length-rest_from 3 bs in
      let fewer = length-rest_from size (rest_from 3 bs) in
      if-GoesOn n (length (first 4 (b ∷ bs)) == 0)
        (some (ctx, closed, record { bytes = rest_from 3 bs; broken = false })) _ tt
        (if-GoesOn n (not memory) _ _ (refl, omega (arith, less))
          (if-GoesOn n (size + 1 == u32_mod) none _ tt (
            if-GoesOn n (not (length content == size)) _ _ (refl, omega (arith, less, fewer))
              (with_content-GoesOn ctx content
                (record { bytes = rest_from size (rest_from 3 bs); broken = false }) n refl
                (omega (arith, less, fewer))))))

  -- On a connection that closes, the thread ends: as many rounds as there are bytes, and one more, are
  -- enough, whatever the bytes are, unless a text makes the parsing undefined.
  pub controller_thread-Ends :
      (old : Text) (memory : Bool) (rounds : ℕ) (ctx : Context) (bytes : Text)
      → length bytes < rounds
      → Ends (controller_thread x old memory rounds ctx (record { bytes = bytes; broken = false }))
  unfolding controller_thread
  controller_thread-Ends old memory zero ctx bytes h = absurd (omega (arith, h))
  controller_thread-Ends old memory (suc rounds) ctx bytes h =
      after-GoesOn (length bytes) (controller_thread x old memory rounds) _
        (receive_yaml_config-GoesOn old memory ctx bytes)
        (λ ctx' s whole shorter.
          subst (λ b. Ends (controller_thread x old memory rounds ctx' (record s { broken = b })))
            (sym whole)
            (controller_thread-Ends old memory rounds ctx' s.bytes (omega (arith, h, shorter))))
