-- ===== src/Pipeline/Slot.antt =====
-- repository/src/non_termination_switch.c: the tests and the sums of a slot of the root, phase by phase.
use mathlib.Core.Path.{subst}
use Prim.Native.Nat.{bit_or}
use inc_emulation.Base.{
  ℕ, ◌+◌, ◌%◌, ◌<◌, ◌≡◌, sym, ap, ◌∙◌, refl, arith, Bool, true, false, List, [], ◌∷◌, u32_mod,
  add32, bswap32,
}
use inc_emulation.Packet.{build_eth_packet, packet_body}
use inc_emulation.Switch.State.{Sent}
use inc_emulation.Switch.Send.Gapless.{targets, Carry}
use inc_emulation.Pipeline.Parts.{
  mask_port, Pipe, payload_words, fan_in, window_size, idx, set_arrive_state, clear_state_data,
  recv_from_all_fan_in, recv_from_port, send_roce_data, add_data,
}
use inc_emulation.Pipeline.Step.{root_up_data, send_slot}
use inc_emulation.Pipeline.Phase.{
  Child, left, right, port_of, Phase, idle, only_left, only_right, done, next_phase, phase_sum,
  phase_bits,
}

module _ (psn : ℕ) (x : Child → ℕ → ℕ) where
  -- The slot of the PSN is in a phase, with the sums of that phase.
  pub record Simulates (s : Pipe) (p : Phase) : Type 0 where
    pub is_root : s.root ≡ true
    pub bits : s.arrival_state (idx psn) ≡ phase_bits p
    pub sums : (i : ℕ) → i < payload_words → s.aggregator (idx psn) i ≡ phase_sum p x i

  -- A step and its answer
  pub record Answered (o : Pipe × List Sent) (p : Phase) (ports : List ℕ) : Type 0 where
    pub now : Simulates o.0 p
    pub reached : targets o.1 ≡ ports
    pub carried : Carry payload_words (λ i. (x left i + x right i) % u32_mod) o.1

  -- What the tests of the code read in a phase
  unfoldable pub has_sent : Phase → Child → Bool
  has_sent idle c = false
  has_sent only_left left = true
  has_sent only_left right = false
  has_sent only_right left = false
  has_sent only_right right = true
  has_sent done c = true

  recv_from_child :
      (s : Pipe) (p : Phase) (c : Child)
      → Simulates s p
      → recv_from_port s (port_of c) psn ≡ has_sent p c
  unfolding recv_from_port has_sent phase_bits
  recv_from_child s idle left sim = rw sim.bits refl
  recv_from_child s idle right sim = rw sim.bits refl
  recv_from_child s only_left left sim = rw sim.bits refl
  recv_from_child s only_left right sim = rw sim.bits refl
  recv_from_child s only_right left sim = rw sim.bits refl
  recv_from_child s only_right right sim = rw sim.bits refl
  recv_from_child s done left sim = rw sim.bits refl
  recv_from_child s done right sim = rw sim.bits refl

  unfoldable pub is_done : Phase → Bool
  is_done done = true
  is_done _ = false

  recv_from_parent :
      (s : Pipe) (p : Phase) → Simulates s p → recv_from_port s fan_in psn ≡ is_done p
  unfolding recv_from_port is_done phase_bits
  recv_from_parent s idle sim = rw sim.bits refl
  recv_from_parent s only_left sim = rw sim.bits refl
  recv_from_parent s only_right sim = rw sim.bits refl
  recv_from_parent s done sim = rw sim.bits refl

  -- The first packet of a child, added
  added : Pipe → Child → (ℕ → ℕ) → Pipe
  added s c words = add_data (set_arrive_state s (port_of c) psn) psn words

  added_bits :
      (s : Pipe) (c : Child) (words : ℕ → ℕ)
      → (added s c words).arrival_state (idx psn)
        ≡ bit_or (s.arrival_state (idx psn)) (mask_port (port_of c))
  unfolding added add_data set_arrive_state
  added_bits s c words = ground arith

  unfoldable pub both_sent : Phase → Child → Bool
  both_sent only_left right = true
  both_sent only_right left = true
  both_sent _ _ = false

  added_all :
      (s : Pipe) (p : Phase) (c : Child) (words : ℕ → ℕ)
      → has_sent p c ≡ false
      → Simulates s p
      → recv_from_all_fan_in (added s c words) psn ≡ both_sent p c
  unfolding recv_from_all_fan_in has_sent both_sent phase_bits
  added_all s idle left words e sim = rw (added_bits s left words, sim.bits) refl
  added_all s idle right words e sim = rw (added_bits s right words, sim.bits) refl
  added_all s only_left right words e sim = rw (added_bits s right words, sim.bits) refl
  added_all s only_right left words e sim = rw (added_bits s left words, sim.bits) refl
  added_all s only_left left words e sim = absurd (ground (arith, e))
  added_all s only_right right words e sim = absurd (ground (arith, e))
  added_all s done c words e sim = absurd (ground (arith, e))

  added_sums :
      (s : Pipe) (p : Phase) (c : Child) (words : ℕ → ℕ) (i : ℕ)
      → i < payload_words
      → bswap32 (words i) ≡ x c i
      → Simulates s p
      → (added s c words).aggregator (idx psn) i ≡ (phase_sum p x i + x c i) % u32_mod
  unfolding added add_data set_arrive_state add32
  added_sums s p c words i k h sim = ground (arith, h, sim.sums i k)

  over : Pipe → Pipe
  over s = clear_state_data (set_arrive_state s fan_in psn) (psn + window_size)

  over_bits :
      (s : Pipe)
      → (over s).arrival_state (idx psn) ≡ bit_or (s.arrival_state (idx psn)) (mask_port fan_in)
  unfolding over clear_state_data set_arrive_state
  over_bits s = ground arith

  over_sums : (s : Pipe) (i : ℕ) → (over s).aggregator (idx psn) i ≡ s.aggregator (idx psn) i
  unfolding over clear_state_data set_arrive_state
  over_sums s i = ground arith

  pub slot_body :
      (s : Pipe) (port opcode i : ℕ)
      → i < payload_words
      → (send_slot s port psn opcode).frame.body i ≡ s.aggregator (idx psn) i
  unfolding send_roce_data build_eth_packet packet_body
  slot_body s port opcode i k = ground arith

  pub quiet-Answered :
      (s : Pipe) (p : Phase) (c : Child) (opcode : ℕ) (words : ℕ → ℕ)
      → has_sent p c ≡ true
      → is_done p ≡ false
      → Simulates s p
      → Answered (root_up_data s (port_of c) psn opcode words) p []
  unfolding root_up_data targets Carry
  quiet-Answered s p c opcode words old not_done sim =
      subst (λ o. Answered o p []) (sym outcome)
        (record { now = sim; reached = refl; carried = tt })
    where
      outcome : root_up_data s (port_of c) psn opcode words ≡ (s, [])
      outcome = ground (arith, recv_from_child s p c sim, recv_from_parent s p sim, old, not_done)

  pub again-Answered :
      (s : Pipe) (c : Child) (opcode : ℕ) (words : ℕ → ℕ)
      → Simulates s done
      → Answered (root_up_data s (port_of c) psn opcode words) done (port_of c ∷ [])
  unfolding root_up_data targets Carry has_sent is_done phase_sum send_roce_data
  again-Answered s c opcode words sim =
      subst (λ o. Answered o done (port_of c ∷ [])) (sym outcome)
        (record {
          now = sim;
          reached = refl;
          carried = (λ i k. slot_body s (port_of c) opcode i k ∙ sim.sums i k, tt);
        })
    where
      outcome :
          root_up_data s (port_of c) psn opcode words ≡ (s, send_slot s (port_of c) psn opcode ∷ [])
      outcome = ground (arith, recv_from_child s done c sim, recv_from_parent s done sim)

  pub first-Answered :
      (s : Pipe) (p : Phase) (c : Child) (opcode : ℕ) (words : ℕ → ℕ)
      → has_sent p c ≡ false
      → both_sent p c ≡ false
      → ((i : ℕ) → i < payload_words → bswap32 (words i) ≡ x c i)
      → phase_bits (next_phase p c) ≡ bit_or (phase_bits p) (mask_port (port_of c))
      → ((i : ℕ)
          → i < payload_words
          → phase_sum (next_phase p c) x i ≡ (phase_sum p x i + x c i) % u32_mod)
      → Simulates s p
      → Answered (root_up_data s (port_of c) psn opcode words) (next_phase p c) []
  unfolding root_up_data targets Carry added
  first-Answered s p c opcode words fresh alone h bits sums sim =
      subst (λ o. Answered o (next_phase p c) []) (sym outcome)
        (record {
          now = record {
            is_root = unfold added in unfold add_data in unfold set_arrive_state in sim.is_root;
            bits =
                added_bits s c words
                ∙ ap (λ b. bit_or b (mask_port (port_of c))) sim.bits
                ∙ sym bits;
            sums = λ i k. added_sums s p c words i k (h i k) sim ∙ sym (sums i k);
          };
          reached = refl;
          carried = tt;
        })
    where
      outcome : root_up_data s (port_of c) psn opcode words ≡ (added s c words, [])
      outcome =
          ground (arith, recv_from_child s p c sim, added_all s p c words fresh sim, fresh, alone)

  pub both-Answered :
      (s : Pipe) (p : Phase) (c : Child) (opcode : ℕ) (words : ℕ → ℕ)
      → has_sent p c ≡ false
      → both_sent p c ≡ true
      → ((i : ℕ) → i < payload_words → bswap32 (words i) ≡ x c i)
      → bit_or (bit_or (phase_bits p) (mask_port (port_of c))) (mask_port fan_in) ≡ 7
      → ((i : ℕ) → i < payload_words → phase_sum p x i + x c i ≡ x left i + x right i)
      → Simulates s p
      → Answered (root_up_data s (port_of c) psn opcode words) done (0 ∷ 1 ∷ [])
  unfolding root_up_data targets Carry added over phase_bits phase_sum send_roce_data
  both-Answered s p c opcode words fresh full h bits sums sim =
      subst (λ o. Answered o done (0 ∷ 1 ∷ [])) (sym outcome)
        (record {
          now = record {
            is_root =
                unfold clear_state_data in
                unfold add_data in unfold set_arrive_state in sim.is_root;
            bits =
                over_bits (added s c words)
                ∙ ap (λ b. bit_or b (mask_port fan_in))
                    (added_bits s c words ∙ ap (λ b. bit_or b (mask_port (port_of c))) sim.bits)
                ∙ bits;
            sums = total;
          };
          reached = refl;
          carried = (
            λ i k. slot_body (over (added s c words)) 0 opcode i k ∙ total i k,
            (λ i k. slot_body (over (added s c words)) 1 opcode i k ∙ total i k, tt),
          );
        })
    where
      total :
          (i : ℕ)
          → i < payload_words
          → (over (added s c words)).aggregator (idx psn) i ≡ (x left i + x right i) % u32_mod
      total i k =
          over_sums (added s c words) i
          ∙ added_sums s p c words i k (h i k) sim
          ∙ ap (λ n. n % u32_mod) (sums i k)

      outcome : root_up_data s (port_of c) psn opcode words ≡ (
        over (added s c words),
        send_slot (over (added s c words)) 0 psn opcode
            ∷ send_slot (over (added s c words)) 1 psn opcode
            ∷ [],
      )
      outcome =
          ground (arith, recv_from_child s p c sim, added_all s p c words fresh sim, fresh, full)
