-- ===== src/Topology/Found.antt =====
-- repository/src/topo_parser.cpp against repository/include/controller.h: what a host finds in the file
-- that the controller has written.
use inc_emulation.Base.{
  ℕ, ◌<◌, ◌≡◌, refl, if◌then◌else◌, Bool-cases, inl, inr, pos, eq_ℤ, Option, none, some, List, [],
  ◌∷◌, ◌++◌, map, u32_mod,
}
use inc_emulation.External.{External}
use inc_emulation.Controller.{ConnectionConfig, SwitchConfig}
use inc_emulation.Controller.Encode.{
  connection_fields, encode_connection, switch_fields, encode_switch,
}
use inc_emulation.Controller.Route.{Communicator}
use inc_emulation.Topology.{
  topology_document, generate_yaml, peer_of, get_ip, info_of, search_connections, search_switches,
  get_switch_info,
}

-- All connections of the switches, in order, and the first of them to a rank
abbrev pub all_connections : List SwitchConfig → List ConnectionConfig
all_connections [] = []
all_connections (sw ∷ sws) = sw.connections ++ all_connections sws

abbrev pub find_peer : List ConnectionConfig → ℕ → Option ConnectionConfig
find_peer [] rank = none
find_peer (conn ∷ conns) rank =
    if eq_ℤ conn.peer_id (pos rank) then some conn else find_peer conns rank

-- QPs that fit the 32 bits of the file's field
abbrev pub AllQps : List ConnectionConfig → Type 0
AllQps [] = Unit {0}
AllQps (conn ∷ conns) = (conn.my_qp < u32_mod) × AllQps conns

module _ (x : External) where
  abbrev pub place_of : ConnectionConfig → ℕ × ℕ
  place_of conn = (get_ip x conn.my_ip, conn.my_qp)

  abbrev pub places : Option ConnectionConfig → Option (ℕ × ℕ)
  places none = none
  places (some conn) = some (place_of conn)

  peer_of-encode :
      (conn : ConnectionConfig) → peer_of x (encode_connection x conn) ≡ some conn.peer_id
  unfolding peer_of encode_connection
  peer_of-encode conn = rw (
    x.get-mapping (connection_fields x conn) "peer_id" (x.of_int conn.peer_id) refl,
    x.is_defined-int conn.peer_id,
    x.as_int-of_int conn.peer_id,
  )

  info_of-encode :
      (conn : ConnectionConfig)
      → conn.my_qp < u32_mod
      → info_of x (encode_connection x conn) ≡ some (place_of conn)
  unfolding info_of encode_connection
  info_of-encode conn small =
      let fs = connection_fields x conn in
      rw (
        x.get-mapping fs "my_ip" (x.of_text conn.my_ip) refl,
        x.as_text-of_text conn.my_ip,
        x.get-mapping fs "my_qp" (x.of_int (pos conn.my_qp)) refl,
        x.as_uint-of_int conn.my_qp small,
      )

  search_connections-encode :
      (conns : List ConnectionConfig) (rank : ℕ)
      → AllQps conns
      → search_connections x (map (encode_connection x) conns) rank
        ≡ some (places (find_peer conns rank))
  unfolding search_connections
  search_connections-encode [] rank h = refl
  search_connections-encode (conn ∷ conns) rank (small, h) =
      elim (Bool-cases (eq_ℤ conn.peer_id (pos rank))) [
        | inl e ↦ rw (peer_of-encode conn, e, info_of-encode conn small) refl
        | inr e ↦ rw (peer_of-encode conn, e) (search_connections-encode conns rank h)
      ]

  find_peer-append :
      (front bs : List ConnectionConfig) (rank : ℕ)
      → find_peer (front ++ bs) rank
        ≡ (elim (find_peer front rank) [ some conn ↦ some conn | none ↦ find_peer bs rank ])
  find_peer-append [] bs rank = refl
  find_peer-append (conn ∷ front) bs rank = elim (Bool-cases (eq_ℤ conn.peer_id (pos rank))) [
    | inl e ↦ rw (find_peer, e) refl
    | inr e ↦ rw (find_peer, e) (find_peer-append front bs rank)
  ]

  AllQps-append :
      (front bs : List ConnectionConfig) → AllQps (front ++ bs) → AllQps front × AllQps bs
  AllQps-append [] bs h = (tt, h)
  AllQps-append (conn ∷ front) bs (small, h) =
      let (ha, hb) = AllQps-append front bs h in ((small, ha), hb)

  search_switches-encode :
      (sws : List SwitchConfig) (rank : ℕ)
      → AllQps (all_connections sws)
      → search_switches x (map (encode_switch x) sws) rank
        ≡ some (places (find_peer (all_connections sws) rank))
  unfolding search_switches encode_switch
  search_switches-encode [] rank h = refl
  search_switches-encode (sw ∷ sws) rank h =
      let (here, later) = AllQps-append sw.connections (all_connections sws) h in
      let conns = map (encode_connection x) sw.connections in
      rw
        (
          x.get-mapping (switch_fields x sw) "connections" (x.sequence conns) refl,
          x.items-sequence conns,
          search_connections-encode sw.connections rank here,
          find_peer-append sw.connections (all_connections sws) rank,
        )
        (first_or (find_peer sw.connections rank) (search_switches-encode sws rank later))
    where
      first_or :
          (found : Option ConnectionConfig)
          → search_switches x (map (encode_switch x) sws) rank
            ≡ some (places (find_peer (all_connections sws) rank))
          → (elim (places found) [
            | some info ↦ some (some info)
            | none ↦ search_switches x (map (encode_switch x) sws) rank
          ])
            ≡ some (
                places (elim found [
                  | some conn ↦ some conn
                  | none ↦ find_peer (all_connections sws) rank
                ]))
      first_or none e = e
      first_or (some conn) e = refl

  -- What a host of rank `rank` finds in the file that the controller has written: the address and the
  -- QP of the first connection, over all switches in order, whose peer is that rank, or -1 if there is
  -- none. The file reads back front it was written, and the QPs have 32 bits.
  pub get_switch_info-generate_yaml :
      (comm : Communicator) (rank : ℕ)
      → x.load (generate_yaml x comm)
        ≡ some (topology_document x comm.group.world_size comm.switches)
      → AllQps (all_connections comm.switches)
      → get_switch_info x (generate_yaml x comm) rank
        ≡ some (places (find_peer (all_connections comm.switches) rank))
  unfolding get_switch_info topology_document
  get_switch_info-generate_yaml comm rank e h =
      let sws = map (encode_switch x) comm.switches in
      rw
        (
          e,
          x.get-mapping
              (("world_size", x.of_int (pos comm.group.world_size))
                ∷ ("switches", x.sequence sws)
                ∷ [])
              "switches" (x.sequence sws) refl,
          x.items-sequence sws,
        )
        (search_switches-encode comm.switches rank h)
