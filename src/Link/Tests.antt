-- ===== src/Link/Tests.antt =====
-- The connection between controller and switch at concrete bytes.
use inc_emulation.Base.{◌≡◌, refl, arith, true, false, pos, [], ◌∷◌, ◌++◌}
use inc_emulation.External.{Text, External}
use inc_emulation.External.Tree.{trees, absent}
use inc_emulation.Switch.Examples.{two_hosts}
use inc_emulation.Config.{done}
use inc_emulation.Link.{
  Socket, send_yaml_to_switch, send, send_content, be_bytes, with_content, receive_yaml_config,
  controller_thread,
}
use inc_emulation.Link.Framed.{
  HasSent, frame, send_yaml_to_switch-HasSent, receive_yaml_config-frame,
}
use inc_emulation.Link.Thread.{
  frames, configured_by, to_end, Ends, controller_thread-frames, controller_thread-Ends,
}

abbrev x : External
x = trees absent

abbrev text : Text
text = 105 ∷ 100 ∷ 58 ∷ 49 ∷ []

-- The content goes out in two calls.
abbrev socket : Socket
socket = record { results = pos 4 ∷ pos 3 ∷ pos 9 ∷ []; wire = [] }

sent_in_parts : send_yaml_to_switch socket text ≡ (done, record { results = []; wire = frame text })
unfolding send_yaml_to_switch send send_content be_bytes
sent_in_parts = refl

send_yaml_to_switch-HasSent_example : HasSent [] (frame text) (send_yaml_to_switch socket text)
send_yaml_to_switch-HasSent_example = send_yaml_to_switch-HasSent socket text

receive_yaml_config-frame_example :
    receive_yaml_config x
      (9 ∷ 9 ∷ 9 ∷ 9 ∷ [])
      true
      two_hosts
      (record { bytes = frame text ++ (1 ∷ []); broken = false })
    ≡ with_content x two_hosts text (record { bytes = 1 ∷ []; broken = false })
receive_yaml_config-frame_example =
    receive_yaml_config-frame x (9 ∷ 9 ∷ 9 ∷ 9 ∷ []) two_hosts text (1 ∷ []) false (omega arith)
      refl

controller_thread-frames_example :
    controller_thread x [] true 3 two_hosts
      (record { bytes = frames (text ∷ text ∷ []); broken = false })
    ≡ to_end (configured_by x two_hosts (text ∷ text ∷ []))
controller_thread-frames_example =
    controller_thread-frames x [] two_hosts (text ∷ text ∷ [])
      (omega arith, refl, (omega arith, refl, tt))

controller_thread-Ends_example : Ends (
    controller_thread x
      (0 ∷ 0 ∷ 0 ∷ 0 ∷ [])
      true
      4
      two_hosts
      (record { bytes = 0 ∷ 0 ∷ 7 ∷ []; broken = false }))
controller_thread-Ends_example =
    controller_thread-Ends x (0 ∷ 0 ∷ 0 ∷ 0 ∷ []) true 4 two_hosts (0 ∷ 0 ∷ 7 ∷ []) (omega arith)
