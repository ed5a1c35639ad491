-- ===== src/Switch/Send/Tests.antt =====
-- A Broadcast on a switch with two hosts.
use inc_emulation.Base.{ℕ, ◌+◌, ◌<◌, ◌≤◌, ◌≡◌, ◌≢◌, arith, some, List, [], ◌∷◌}
use inc_emulation.Switch.State.{Sent}
use inc_emulation.Switch.Send.{handle_broadcast, strip_immediate_opcode}
use inc_emulation.Switch.Send.Gapless.{data_frame, frames_to, handle_broadcast_lem}
use inc_emulation.Switch.Examples.{two_hosts, counting}

handle_broadcast_lem_example :
    (psns : ℕ → ℕ) × (sent : List Sent) × (handle_broadcast two_hosts 0 counting 4 5
      ≡ some (record two_hosts { send_psn = psns }, sent))
    × ((c : ℕ)
        → c < 2
        → c ≢ 0
        → (psns c ≡ two_hosts.send_psn c + 1)
          × (frames_to c sent
              ≡ (data_frame two_hosts c counting 4
                  (two_hosts.send_psn c)
                  (strip_immediate_opcode 5)).frame
                ∷ []))
    × ((psns 0 ≡ two_hosts.send_psn 0) × (frames_to 0 sent ≡ []))
    × ((c : ℕ) → 2 ≤ c → (psns c ≡ two_hosts.send_psn c) × (frames_to c sent ≡ []))
handle_broadcast_lem_example = handle_broadcast_lem two_hosts 0 counting 4 5 (omega arith)
