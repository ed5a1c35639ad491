-- ===== src/Controller/Encode.antt =====
-- repository/include/controller.h: the configuration of a switch as a YAML node, and as the text that
-- goes to the switch.
use Prim.Native.String.{String}
use inc_emulation.Base.{ℕ, ℤ, pos, negsuc, none, some, List, [], ◌∷◌, map}
use inc_emulation.External.{Text, External}
use inc_emulation.Controller.{ConnectionConfig, RuleConfig, SwitchConfig, get_elem?}
use inc_emulation.Controller.Route.{Communicator}

module _ (x : External) where
  open x use {Node, of_int, of_bool, of_text, sequence, mapping, emit}

  abbrev pub connection_fields : ConnectionConfig → List (String × Node)
  connection_fields conn =
      ("conn_id", of_int (pos conn.conn_id))
      ∷ ("is_switch", of_bool conn.is_switch)
      ∷ ("peer_id", of_int conn.peer_id)
      ∷ ("my_ip", of_text conn.my_ip)
      ∷ ("my_mac", of_text conn.my_mac)
      ∷ ("my_name", of_text conn.my_name)
      ∷ ("my_port", of_int (pos conn.my_port))
      ∷ ("my_qp", of_int (pos conn.my_qp))
      ∷ ("peer_ip", of_text conn.peer_ip)
      ∷ ("peer_mac", of_text conn.peer_mac)
      ∷ ("peer_port", of_int (pos conn.peer_port))
      ∷ ("peer_qp", of_int conn.peer_qp)
      ∷ []

  unfoldable pub encode_connection : ConnectionConfig → Node
  encode_connection conn = mapping (connection_fields conn)

  abbrev pub rule_fields : RuleConfig → List (String × Node)
  rule_fields rule =
      ("src_ip", of_text rule.src_ip)
      ∷ ("dst_ip", of_text rule.dst_ip)
      ∷ ("primitive", of_int (pos rule.primitive))
      ∷ ("primitive_param", of_int rule.primitive_param)
      ∷ ("conn_id", of_int (pos rule.conn_id))
      ∷ ("direction", of_int (pos rule.direction))
      ∷ ("root", of_bool rule.root)
      ∷ ("ack_conn", of_int (pos rule.ack_conn))
      ∷ ("out_conns", sequence (map of_int rule.out_conns))
      ∷ []

  unfoldable pub encode_rule : RuleConfig → Node
  encode_rule rule = mapping (rule_fields rule)

  abbrev pub switch_fields : SwitchConfig → List (String × Node)
  switch_fields sw =
      ("id", of_int (pos sw.id))
      ∷ ("connections", sequence (map encode_connection sw.connections))
      ∷ ("rules", sequence (map encode_rule sw.rules))
      ∷ []

  unfoldable pub encode_switch : SwitchConfig → Node
  encode_switch sw = mapping (switch_fields sw)

  -- The root node of the document for one switch
  unfoldable pub switch_document : ℕ → SwitchConfig → Node
  switch_document world_size sw =
      mapping (("world_size", of_int (pos world_size)) ∷ ("switch", encode_switch sw) ∷ [])

  -- `generate_yaml_for_switch`: the empty text for a number that is no switch's
  unfoldable pub generate_yaml_for_switch : Communicator → ℤ → Text
  generate_yaml_for_switch comm (negsuc _) = []
  generate_yaml_for_switch comm (pos switch_id) = elim (get_elem? comm.switches switch_id) [
    | none ↦ []
    | some sw ↦ emit (switch_document comm.group.world_size sw)
  ]
