-- ===== src/Topology/Unread.antt =====
-- repository/src/topo_parser.cpp, `parse_config`, on the file that the controller writes.
use inc_emulation.Base.{
  ℕ, ◌≡◌, refl, Bool, true, false, if◌then◌else◌, Bool-cases, inl, inr, ℤ, pos, minus_one, eq_ℤ,
  none, some, List, [], ◌∷◌, map,
}
use inc_emulation.External.{External}
use inc_emulation.Controller.{SwitchConfig}
use inc_emulation.Controller.Encode.{switch_fields, encode_switch}
use inc_emulation.Controller.Route.{Communicator}
use inc_emulation.Topology.{topology_document, generate_yaml}
use inc_emulation.Topology.Parse.{Ports, read_switch, find_switch, parse_config}

-- Whether a switch with that number is among them
abbrev pub has_switch : List SwitchConfig → ℤ → Bool
has_switch [] switch_id = false
has_switch (sw ∷ sws) switch_id =
    if eq_ℤ (pos sw.id) switch_id then true else has_switch sws switch_id

module _ (x : External) (max_count : ℕ) (ports : Ports) where
  read_switch-encode :
      (sw : SwitchConfig) → read_switch x max_count (encode_switch x sw) ports ≡ none
  unfolding encode_switch
  read_switch-encode sw =
      let (n, found, undefined) = x.get-absent (switch_fields x sw) "root" refl in
      rw (found, x.as_bool-undefined n undefined) refl

  find_switch-encode :
      (sws : List SwitchConfig) (switch_id : ℤ)
      → find_switch x max_count switch_id (map (encode_switch x) sws) ports
        ≡ (if has_switch sws switch_id then none else some (minus_one, ports))
  unfolding find_switch encode_switch
  find_switch-encode [] switch_id = refl
  find_switch-encode (sw ∷ sws) switch_id =
      rw
        (
          x.get-mapping (switch_fields x sw) "id" (x.of_int (pos sw.id)) refl,
          x.as_int-of_int (pos sw.id),
        )
        (elim (Bool-cases (eq_ℤ (pos sw.id) switch_id)) [
          | inl e ↦ rw e (read_switch-encode sw)
          | inr e ↦ rw e (find_switch-encode sws switch_id)
        ])

  -- The pipelined switch cannot be configured by the controller's file: for a switch that is in it
  -- the function throws, since the file has no field "root", and for any other it returns -1 with the
  -- ports as they were. The file reads back as it was written.
  pub parse_config-generate_yaml :
      (comm : Communicator) (switch_id : ℤ)
      → x.load (generate_yaml x comm)
        ≡ some (topology_document x comm.group.world_size comm.switches)
      → parse_config x (generate_yaml x comm) max_count switch_id ports
        ≡ (if has_switch comm.switches switch_id then none else some (minus_one, ports))
  unfolding parse_config topology_document
  parse_config-generate_yaml comm switch_id read =
      let sws = map (encode_switch x) comm.switches in
      rw
        (
          read,
          x.get-mapping
              (("world_size", x.of_int (pos comm.group.world_size))
                ∷ ("switches", x.sequence sws)
                ∷ [])
              "switches" (x.sequence sws) refl,
          x.items-sequence sws,
        )
        (find_switch-encode comm.switches switch_id)
