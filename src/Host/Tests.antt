-- ===== src/Host/Tests.antt =====
-- An AllReduce of 2000 numbers, which are two messages.
use inc_emulation.Base.{
  ℕ, ◌+◌, ◌*◌, ◌/◌, ◌%◌, ◌≤◌, ◌<◌, ◌≡◌, refl, arith, true, List, [], ◌∷◌, map, bswap32,
}
use inc_emulation.Imm.{build_imm_data}
use inc_emulation.Host.Allreduce.{
  payload_count, allreduce_imm, message_num, recv, send, other, Wc, Loop, finished, batch,
  inccl_allreduce_sendrecv,
}
use inc_emulation.Host.Window.{range, occurs, ids_of, ids_all}
use inc_emulation.Host.Reduce.{Sender, sent_all, reduce_sender}
use inc_emulation.Host.Reduce.Drained.{sends_in, sends_in_all, reduce_sender_lem}
use inc_emulation.Host.Result.{inccl_allreduce_sendrecv_lem}

allreduce_imm_value : allreduce_imm ≡ 0xFFFF_1000
unfolding build_imm_data
allreduce_imm_value = refl

abbrev words : ℕ → ℕ → ℕ
words k j = k * 1000 + j

abbrev arrival : ℕ → Wc
arrival k = record { success = true; opcode = recv; wr_id = k; pack = words k }

abbrev sent : ℕ → Wc
sent k = record { success = true; opcode = other; wr_id = k; pack = words k }

abbrev late : List (List Wc)
late = (sent 0 ∷ arrival 1 ∷ []) ∷ [] ∷ (sent 1 ∷ arrival 0 ∷ []) ∷ []

inccl_allreduce_sendrecv_lem_example :
    (last : Loop) × (inccl_allreduce_sendrecv 8192 2000 (λ _. 0) (map batch late) ≡ finished last)
    × (last.receive_num ≡ message_num 2000)
    × (last.posted ≡ range 0 (message_num 2000))
    × ((i : ℕ)
        → i < 2000
        → occurs (i / payload_count) (0 ∷ 1 ∷ []) ≡ true
        → last.dst_data i ≡ bswap32 (words (i / payload_count) (i % payload_count)))
    × ((i : ℕ) → 2000 ≤ i → last.dst_data i ≡ 0)
unfolding message_num ids_of ids_all
inccl_allreduce_sendrecv_lem_example =
    inccl_allreduce_sendrecv_lem 8192 2000 words (λ _. 0) late (omega arith)
      (
        ((refl, λ _ _. refl), ((refl, λ _ _. refl), tt)),
        (tt, (((refl, λ _ _. refl), ((refl, λ _ _. refl), tt)), tt)),
      )
      refl

abbrev complete : ℕ → Wc
complete k = record { success = true; opcode = send; wr_id = k; pack = words k }

abbrev three_sends : List (List Wc)
three_sends = (complete 0 ∷ complete 1 ∷ []) ∷ [] ∷ (complete 2 ∷ []) ∷ []

reduce_sender_lem_example :
    (last : Sender) × (reduce_sender 8192 3000 (map batch three_sends) ≡ sent_all last)
    × (last.posted ≡ range 0 (message_num 3000))
    × (last.send_complete ≡ message_num 3000)
unfolding message_num sends_in sends_in_all
reduce_sender_lem_example =
    reduce_sender_lem 8192 3000 three_sends (omega arith)
      ((refl, (refl, tt)), (tt, ((refl, tt), tt))) refl
