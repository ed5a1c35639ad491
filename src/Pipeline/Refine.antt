-- ===== src/Pipeline/Refine.antt =====
-- repository/src/non_termination_switch.c: on the root, `pipeline` does for one PSN what the phases say.
use inc_emulation.Base.{
  ℕ, ◌+◌, ◌%◌, ◌<◌, ◌≡◌, refl, arith, true, some, none, List, [], ◌∷◌, ◌++◌, u32_mod, bswap32,
  bswap32-lt,
}
use inc_emulation.Packet.{Frame, frame_psn, frame_udp_len}
use inc_emulation.Switch.State.{Sent}
use inc_emulation.Switch.Send.Gapless.{targets-append, append-Carry, targets, Carry}
use inc_emulation.Pipeline.Parts.{Pipe, payload_words, count_packet}
use inc_emulation.Pipeline.Step.{PacketClass, up_data, classify, Effect, root_up_data, pipeline}
use inc_emulation.Pipeline.Phase.{
  Child, left, right, port_of, Phase, idle, only_left, only_right, done, next_phase, answered,
  phase_after, all_answered, phase_sum, phase_bits,
}
use inc_emulation.Pipeline.Slot.{
  Simulates, Answered, has_sent, is_done, both_sent, quiet-Answered, again-Answered, first-Answered,
  both-Answered,
}

-- `pipeline` on one packet after another, each with its port, as the loop of epoll_process_packets
-- calls it for the packets of one event
unfoldable pub pipeline_all : Pipe → PacketClass → List (ℕ × Frame) → Effect
pipeline_all s old [] = some (s, [])
pipeline_all s old ((port, f) ∷ rest) = elim (pipeline s old port f) [
  | none ↦ none
  | some (s', sent) ↦ elim (pipeline_all s' (classify f.bth.opcode port old) rest) [
    | none ↦ none
    | some (last, more) ↦ some (last, sent ++ more)
  ]
]

abbrev pub ports : List (Child × Frame) → List (ℕ × Frame)
ports [] = []
ports ((c, f) ∷ cs) = (port_of c, f) ∷ ports cs

abbrev pub children : List (Child × Frame) → List Child
children [] = []
children ((c, f) ∷ cs) = c ∷ children cs

module _ (psn : ℕ) (x : Child → ℕ → ℕ) where
  root_up_data-Answered :
      (s : Pipe) (p : Phase) (c : Child) (opcode : ℕ) (words : ℕ → ℕ)
      → ((i : ℕ) → i < payload_words → bswap32 (words i) ≡ x c i)
      → Simulates psn x s p
      → Answered psn x (root_up_data s (port_of c) psn opcode words) (next_phase p c) (answered p c)
  unfolding next_phase answered has_sent is_done both_sent phase_bits phase_sum
  root_up_data-Answered s idle left opcode words h sim =
      first-Answered psn x s idle left opcode words refl refl h refl
        (λ i k. omega (arith, h i k, bswap32-lt (words i))) sim
  root_up_data-Answered s idle right opcode words h sim =
      first-Answered psn x s idle right opcode words refl refl h refl
        (λ i k. omega (arith, h i k, bswap32-lt (words i))) sim
  root_up_data-Answered s only_left left opcode words h sim =
      quiet-Answered psn x s only_left left opcode words refl refl sim
  root_up_data-Answered s only_right right opcode words h sim =
      quiet-Answered psn x s only_right right opcode words refl refl sim
  root_up_data-Answered s only_left right opcode words h sim =
      both-Answered psn x s only_left right opcode words refl refl h refl (λ i k. omega arith) sim
  root_up_data-Answered s only_right left opcode words h sim =
      both-Answered psn x s only_right left opcode words refl refl h refl (λ i k. omega arith) sim
  root_up_data-Answered s done c opcode words h sim = again-Answered psn x s c opcode words sim

  -- A data packet of a child for the PSN, with that child's numbers
  pub record IsUp (c : Child) (f : Frame) : Type 0 where
    pub class : (old : PacketClass) → classify f.bth.opcode (port_of c) old ≡ up_data
    pub psn_is : frame_psn f ≡ psn
    pub len : frame_udp_len f ≡ 1048
    pub numbers : (i : ℕ) → i < payload_words → bswap32 (f.body i) ≡ x c i

  abbrev pub AllUp : List (Child × Frame) → Type 0
  AllUp [] = Unit {0}
  AllUp ((c, f) ∷ cs) = IsUp c f × AllUp cs

  count_packet-Simulates :
      (s : Pipe) (p : Phase) → Simulates psn x s p → Simulates psn x (count_packet s psn) p
  unfolding count_packet
  count_packet-Simulates s p sim = record {
    is_root = sim.is_root;
    bits = sim.bits;
    sums = sim.sums;
  }

  pipeline-root :
      (s : Pipe) (old : PacketClass) (c : Child) (f : Frame)
      → s.root ≡ true
      → IsUp c f
      → pipeline s old (port_of c) f
        ≡ some (root_up_data (count_packet s psn) (port_of c) psn f.bth.opcode f.body)
  unfolding pipeline
  pipeline-root s old c f root up = ground (arith, root, up.class old, up.psn_is, up.len)

  -- What a run leaves behind
  record Done (o : Effect) (p : Phase) (out : List ℕ) : Type 0 where
    last : Pipe
    sent : List Sent
    outcome : o ≡ some (last, sent)
    all : Answered psn x (last, sent) p out

  run-Done :
      (s : Pipe) (old : PacketClass) (p : Phase) (frames : List (Child × Frame))
      → AllUp frames
      → Simulates psn x s p
      → Done
          (pipeline_all s old (ports frames))
          (phase_after p (children frames))
          (all_answered p (children frames))
  unfolding pipeline_all phase_after all_answered targets Carry
  run-Done s old p [] ups sim = record {
    last = s;
    sent = [];
    outcome = refl;
    all = record { now = sim; reached = refl; carried = tt };
  }
  run-Done s old p ((c, f) ∷ frames) ups sim =
      more
        (run-Done o.0 (classify f.bth.opcode (port_of c) old) (next_phase p c) frames ups.1 r.now)
    where
      o : Pipe × List Sent
      o = root_up_data (count_packet s psn) (port_of c) psn f.bth.opcode f.body

      r : Answered psn x o (next_phase p c) (answered p c)
      r =
          root_up_data-Answered (count_packet s psn) p c f.bth.opcode f.body ups.0.numbers
            (count_packet-Simulates s p sim)

      more :
          Done
            (pipeline_all o.0 (classify f.bth.opcode (port_of c) old) (ports frames))
            (phase_after (next_phase p c) (children frames))
            (all_answered (next_phase p c) (children frames))
          → Done
              (pipeline_all s old (ports ((c, f) ∷ frames)))
              (phase_after p (children ((c, f) ∷ frames)))
              (all_answered p (children ((c, f) ∷ frames)))
      more d = record {
        last = d.last;
        sent = o.1 ++ d.sent;
        outcome = ground (arith, pipeline-root s old c f sim.is_root ups.0, d.outcome);
        all = record {
          now = record {
            is_root = d.all.now.is_root;
            bits = d.all.now.bits;
            sums = d.all.now.sums;
          };
          reached = rw (targets-append o.1 d.sent, r.reached, d.all.reached) refl;
          carried =
              append-Carry payload_words (λ i. (x left i + x right i) % u32_mod) o.1 d.sent
                r.carried d.all.carried;
        };
      }

-- The root of a pipelined switch and the two children that send their data packets for one PSN, in any
-- order and with any repetitions: the switch behaves as the phases. It adds the words that it reads in
-- network order, and sends an answer exactly when the phases say so, at the ports that they say, whose
-- words are the sum of both children modulo 2 ^ 32 as it stands in the switch's memory: they are not put
-- into network order again, so that a receiver that reads them as the switch does reads
-- each sum with its bytes reversed. A packet that comes again is never added again. Each child sends the same numbers in all its packets of the
-- PSN, the packets have the length that the switch asserts, and no packet of another PSN is among
-- them; the slot starts in a phase, such as the idle one after it was cleared.
pub pipeline_all-Phase :
    (psn : ℕ) (x : Child → ℕ → ℕ) (s : Pipe) (old : PacketClass) (p : Phase)
    (frames : List (Child × Frame))
    → AllUp psn x frames
    → Simulates psn x s p
    → (last : Pipe) × (sent : List Sent) × (pipeline_all s old (ports frames) ≡ some (last, sent))
      × Simulates psn x last (phase_after p (children frames))
      × (targets sent ≡ all_answered p (children frames))
      × Carry payload_words (λ i. (x left i + x right i) % u32_mod) sent
pipeline_all-Phase psn x s old p frames ups sim =
    (r.last, r.sent, r.outcome, r.all.now, r.all.reached, r.all.carried)
  where
    r :
        Done psn x
          (pipeline_all s old (ports frames))
          (phase_after p (children frames))
          (all_answered p (children frames))
    r = run-Done psn x s old p frames ups sim
