-- ===== src/Config/ReadBack.antt =====
-- repository/termination_switch/src/controller_comm.cpp against repository/include/controller.h: the
-- switch reads what the controller has encoded.
use Prim.Native.String.{String}
use inc_emulation.Base.{
  ℕ, suc, ◌+◌, ◌≤◌, ◌≡◌, refl, arith, Bool, false, ℤ, pos, minus_one, none, some, List, [], ◌∷◌,
  ◌>>=◌, first, zero, inl, inr, Option-cases, if◌then◌else◌, ◌&&◌, map,
}
use inc_emulation.External.{Text, External, field}
use inc_emulation.Packet.{Connection}
use inc_emulation.Rule.{Primitive, null, Rule}
use inc_emulation.Controller.{ConnectionConfig, RuleConfig}
use inc_emulation.Controller.Encode.{connection_fields, encode_connection, rule_fields, encode_rule}
use inc_emulation.Config.{
  to_u32, to_u16, max_port_num, or_else, to_primitive, to_direction, to_conn, Link, int_or, bool_or,
  text_or, mac_of, read_connection, read_out_conns, read_rule,
}

module _ (x : External) where
  open x use {
    Node, of_int, of_bool, of_text, mapping, sequence, inet_addr, get-mapping, as_int-of_int,
    as_bool-of_bool, as_text-of_text,
  }

  module _ (fields : List (String × Node)) (key : String) where
    int_or-mapping :
        (z fallback : ℤ)
        → field key fields ≡ some (of_int z)
        → int_or x (mapping fields) key fallback ≡ some z
    unfolding int_or
    int_or-mapping z fallback h = rw (get-mapping fields key (of_int z) h, as_int-of_int z)

    bool_or-mapping :
        (b fallback : Bool)
        → field key fields ≡ some (of_bool b)
        → bool_or x (mapping fields) key fallback ≡ some b
    unfolding bool_or
    bool_or-mapping b fallback h = rw (get-mapping fields key (of_bool b) h, as_bool-of_bool b)

    text_or-mapping :
        (t fallback : Text)
        → field key fields ≡ some (of_text t)
        → text_or x (mapping fields) key fallback ≡ some t
    unfolding text_or
    text_or-mapping t fallback h = rw (get-mapping fields key (of_text t) h, as_text-of_text t)

  -- The connection that the switch makes of a configured one, over the memory that was there
  abbrev pub link_of : ConnectionConfig → Connection → Link
  link_of c old = record {
    conn_id = pos c.conn_id;
    is_switch = c.is_switch;
    peer_id = c.peer_id;
    conn = record {
      my_mac = mac_of x c.my_mac old.my_mac;
      peer_mac = mac_of x c.peer_mac old.peer_mac;
      my_ip = inet_addr c.my_ip;
      peer_ip = inet_addr c.peer_ip;
      my_port = to_u16 (pos c.my_port);
      peer_port = to_u16 (pos c.peer_port);
      my_qp = to_u32 (pos c.my_qp);
      peer_qp = to_u32 c.peer_qp;
    };
  }

  pub read_connection-encode :
      (c : ConnectionConfig) (conn_idx : ℕ) (old : Connection)
      → read_connection x (encode_connection x c) conn_idx old ≡ some (link_of c old)
  unfolding read_connection encode_connection
  read_connection-encode c conn_idx old =
      let fs = connection_fields x c in
      rw (
        int_or-mapping fs "conn_id" (pos c.conn_id) (pos conn_idx) refl,
        bool_or-mapping fs "is_switch" c.is_switch false refl,
        int_or-mapping fs "peer_id" c.peer_id minus_one refl,
        text_or-mapping fs "my_ip" c.my_ip [] refl,
        text_or-mapping fs "my_mac" c.my_mac [] refl,
        text_or-mapping fs "my_name" c.my_name [] refl,
        int_or-mapping fs "my_port" (pos c.my_port) (pos 4791) refl,
        int_or-mapping fs "my_qp" (pos c.my_qp) (pos 0) refl,
        text_or-mapping fs "peer_ip" c.peer_ip [] refl,
        text_or-mapping fs "peer_mac" c.peer_mac [] refl,
        int_or-mapping fs "peer_port" (pos c.peer_port) (pos 4791) refl,
        int_or-mapping fs "peer_qp" c.peer_qp (pos 0) refl,
      )

  -- The numbers of a list that are places in `conns`
  abbrev pub in_range : List ℤ → List ℕ
  in_range [] = []
  in_range (z ∷ zs) = elim (to_conn z) [ none ↦ in_range zs | some c ↦ c ∷ in_range zs ]

  read_out_conns-sequence :
      (n i : ℕ) (zs : List ℤ)
      → i + n ≡ max_port_num
      → read_out_conns x i (map of_int zs) ≡ first n (in_range zs)
  unfolding read_out_conns
  read_out_conns-sequence zero i [] h = refl
  read_out_conns-sequence (suc n) i [] h = refl
  read_out_conns-sequence zero i (z ∷ zs) h = ground arith
  read_out_conns-sequence (suc n) i (z ∷ zs) h = elim (Option-cases (to_conn z)) [
    | inl e ↦ ground (arith, as_int-of_int z, read_out_conns-sequence (suc n) i zs h)
    | inr (c, e) ↦
        ground (arith, as_int-of_int z, read_out_conns-sequence n (i + 1) zs (omega (arith, h)))
  ]

  -- The rule that the switch makes of a configured one
  abbrev pub rule_of : RuleConfig → Rule
  rule_of r = record {
    src_ip = inet_addr r.src_ip;
    dst_ip = inet_addr r.dst_ip;
    primitive = or_else (to_primitive (pos r.primitive)) null;
    primitive_param = r.primitive_param;
    conn_id = pos r.conn_id;
    direction = to_direction (pos r.direction);
    root = r.root;
    ack_conn = to_conn (pos r.ack_conn);
    out_conns = first max_port_num (in_range r.out_conns);
  }

  outs_of :
      (zs : List ℤ)
      → (if x.is_defined (sequence (map of_int zs)) && x.is_sequence (sequence (map of_int zs))
          then read_out_conns x 0 (x.items (sequence (map of_int zs)))
          else [])
        ≡ first max_port_num (in_range zs)
  outs_of zs =
      rw
        (
          x.is_defined-sequence (map of_int zs),
          x.is_sequence-sequence (map of_int zs),
          x.items-sequence (map of_int zs),
        )
        (read_out_conns-sequence max_port_num 0 zs refl)

  pub read_rule-encode :
      (r : RuleConfig) → r.primitive ≤ 3 → read_rule x (encode_rule x r) ≡ some (some (rule_of r))
  unfolding read_rule encode_rule
  read_rule-encode r h =
      let fs = rule_fields x r in
      rw
        (
          text_or-mapping fs "src_ip" r.src_ip [] refl,
          text_or-mapping fs "dst_ip" r.dst_ip [] refl,
          int_or-mapping fs "primitive" (pos r.primitive) (pos 0) refl,
          int_or-mapping fs "primitive_param" r.primitive_param minus_one refl,
          int_or-mapping fs "conn_id" (pos r.conn_id) (pos 0) refl,
          int_or-mapping fs "direction" (pos r.direction) (pos 0) refl,
          bool_or-mapping fs "root" r.root false refl,
          int_or-mapping fs "ack_conn" (pos r.ack_conn) minus_one refl,
          get-mapping fs "out_conns" (sequence (map of_int r.out_conns)) refl,
          outs_of r.out_conns,
        )
        (cast_ok r (elim (Option-cases (to_primitive (pos r.primitive))) [
          | inl e ↦ absurd (unfold to_primitive in ground arith)
          | inr e ↦ e
        ]))
    where
      cast_ok :
          (r : RuleConfig)
          → ((p : Primitive) × (to_primitive (pos r.primitive) ≡ some p))
          → some
              (to_primitive (pos r.primitive) >>= λ p. some (record (rule_of r) { primitive = p }))
            ≡ some (some (rule_of r))
      cast_ok r (p, e) = rw e refl
