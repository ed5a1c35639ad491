-- ===== src/Switch/Context/Tests.antt =====
-- The reset of a switch with two hosts.
use inc_emulation.Base.{ℕ, ◌≡◌, true, some, ℤ, minus_one}
use inc_emulation.Switch.State.{Context}
use inc_emulation.Switch.Context.{switch_context_init, switch_context_reset_psn_states}
use inc_emulation.Switch.Context.Reset.{AreKept, IsFresh, switch_context_reset_psn_states_lem}
use inc_emulation.Switch.Examples.{two_hosts}

switch_context_reset_psn_states_lem_example :
    IsFresh (switch_context_reset_psn_states two_hosts)
    × ((c : ℕ) → (switch_context_reset_psn_states two_hosts).send_psn c ≡ two_hosts.send_psn c)
    × ((switch_context_reset_psn_states two_hosts).ctrl_psn ≡ two_hosts.ctrl_psn)
    × ((i : ℕ)
        → AreKept
            (two_hosts.psn_states i)
            ((switch_context_reset_psn_states two_hosts).psn_states i))
    × ((id : ℤ)
        → (new : Context) × (switch_context_init id true ≡ some new)
          × IsFresh new
          × ((c : ℕ) → new.send_psn c ≡ 0)
          × (new.ctrl_psn ≡ minus_one))
switch_context_reset_psn_states_lem_example = switch_context_reset_psn_states_lem two_hosts
