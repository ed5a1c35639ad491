-- ===== src/Host/Broadcast/Tests.antt =====
-- A Broadcast of 2000 numbers, which are two messages.
use inc_emulation.Base.{ℕ, ◌+◌, ◌/◌, ◌≤◌, ◌<◌, ◌≡◌, refl, arith, true, List, [], ◌∷◌, map}
use inc_emulation.Host.Allreduce.{payload_count, message_num, prepared, recv, Wc, batch}
use inc_emulation.Host.Window.{occurs, ids_of, ids_all}
use inc_emulation.Host.Broadcast.{Receiver, received_all, broadcast_receiver}
use inc_emulation.Host.Broadcast.Delivered.{broadcast_receiver_lem}

abbrev counting : ℕ → ℕ
counting i = i + 7

abbrev arrival : ℕ → Wc
arrival k = record { success = true; opcode = recv; wr_id = k; pack = prepared counting 2000 k }

abbrev late : List (List Wc)
late = (arrival 1 ∷ []) ∷ [] ∷ (arrival 0 ∷ []) ∷ []

broadcast_receiver_lem_example :
    (last : Receiver) × (broadcast_receiver 2000 (λ _. 0) (map batch late) ≡ received_all last)
    × ((i : ℕ)
        → i < 2000
        → occurs (i / payload_count) (0 ∷ 1 ∷ []) ≡ true
        → last.contents i ≡ i + 7)
    × ((i : ℕ) → 2000 ≤ i → last.contents i ≡ 0)
unfolding message_num ids_of ids_all
broadcast_receiver_lem_example =
    broadcast_receiver_lem 2000 counting (λ _. 0) late (omega arith) (λ i h. omega (arith, h))
      ((refl, (λ _ _. refl), tt), (tt, ((refl, (λ _ _. refl), tt), tt))) refl
