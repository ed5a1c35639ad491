-- ===== src/Config/Connections.antt =====
-- repository/termination_switch/src/controller_comm.cpp, `parse_connections`: what the loop over the
-- connections that the controller has encoded makes of `conns` and `rank_to_conn`.
use inc_emulation.Base.{
  ℕ, zero, suc, ◌+◌, ◌≤◌, ◌<◌, ◌≡◌, refl, ap, ◌∙◌, arith, Bool, true, false, not, ◌&&◌, ℤ, pos,
  negsuc, eq_ℤ, eq_ℤ_iff, minus_one, some, List, [], ◌∷◌, length, map, update, inl, inr, Bool-cases,
}
use mathlib.Core.Path.{subst}
use inc_emulation.External.{External}
use inc_emulation.Packet.{Connection}
use inc_emulation.Switch.State.{Context, max_connections_num, max_ranks}
use inc_emulation.Switch.Context.{zero_connection}
use inc_emulation.Controller.{ConnectionConfig, get_conn_for_rank, get_elem?}
use inc_emulation.Controller.Encode.{encode_connection}
use inc_emulation.Config.{
  Status, read_connection, done, Link, map_rank, store_connection, parse_each_connection,
}
use inc_emulation.Config.ReadBack.{link_of, read_connection-encode}

-- No two connections lead to the same rank.
abbrev pub HasDistinctRanks : List ConnectionConfig → Type 0
HasDistinctRanks [] = Unit {0}
HasDistinctRanks (c ∷ cs) =
    ((r : ℕ) → c.is_switch ≡ false → c.peer_id ≡ pos r → get_conn_for_rank cs r ≡ minus_one)
    × HasDistinctRanks cs

module _ (g : ℕ → ℤ) (conn_id : ℤ) (is_switch : Bool) where
  map_rank-other :
      (peer_id : ℤ) (conn : Connection) (r : ℕ)
      → not is_switch && eq_ℤ peer_id (pos r) ≡ false
      → map_rank g
          (record { conn_id = conn_id; is_switch = is_switch; peer_id = peer_id; conn = conn })
          r
        ≡ g r
  unfolding map_rank
  map_rank-other (negsuc p) conn r e = refl
  map_rank-other (pos p) conn r e = ground (arith, e)

  map_rank-hit :
      (peer_id : ℤ) (conn : Connection) (r : ℕ)
      → r < max_ranks
      → not is_switch && eq_ℤ peer_id (pos r) ≡ true
      → map_rank g
          (record { conn_id = conn_id; is_switch = is_switch; peer_id = peer_id; conn = conn })
          r
        ≡ conn_id
  unfolding map_rank
  map_rank-hit (negsuc p) conn r lt e = ground (arith, e)
  map_rank-hit (pos p) conn r lt e = ground (arith, lt, e)

module _ (x : External) where
  -- The arrays after the loop over the connections
  abbrev pub conns_from : (ℕ → Connection) → ℕ → List ConnectionConfig → ℕ → Connection
  conns_from f i [] = f
  conns_from f i (c ∷ cs) = conns_from (update f i (link_of x c (f i)).conn) (i + 1) cs

  abbrev pub ranks_from : (ℕ → ℤ) → List ConnectionConfig → ℕ → ℤ
  ranks_from g [] = g
  ranks_from g (c ∷ cs) = ranks_from (map_rank g (link_of x c zero_connection)) cs

  step_connection :
      (ctx : Context) (i : ℕ) (n : x.Node) (ns : List x.Node) (link : Link)
      → i < max_connections_num
      → read_connection x n i (ctx.conns i) ≡ some link
      → parse_each_connection x ctx i (n ∷ ns)
        ≡ parse_each_connection x (store_connection ctx i link) (i + 1) ns
  unfolding parse_each_connection
  step_connection ctx i n ns link h e = ground (arith, h, e)

  unfoldable pub configured : Context → ℕ → (ℕ → Connection) → (ℕ → ℤ) → Context × Status
  configured ctx fan_in conns ranks =
      (record ctx { fan_in = fan_in; conns = conns; rank_to_conn = ranks }, done)

  pub parse_each_connection-encode :
      (ctx : Context) (i n : ℕ) (cs : List ConnectionConfig)
      → i + length cs ≡ n
      → n ≤ max_connections_num
      → parse_each_connection x ctx i (map (encode_connection x) cs)
        ≡ configured ctx n (conns_from ctx.conns i cs) (ranks_from ctx.rank_to_conn cs)
  unfolding configured store_connection map_rank
  parse_each_connection-encode ctx i n [] e h =
      unfold parse_each_connection in ap (λ n. (record ctx { fan_in = n }, done)) (omega (arith, e))
  parse_each_connection-encode ctx i n (c ∷ cs) e h =
      let link = link_of x c (ctx.conns i) in
      step_connection ctx i _ _ link (omega (arith, e, h))
        (read_connection-encode x c i (ctx.conns i))
      ∙ parse_each_connection-encode (store_connection ctx i link) (i + 1) n cs (omega (arith, e)) h

  conns_from-before :
      (f : ℕ → Connection) (i j : ℕ) (cs : List ConnectionConfig)
      → j < i
      → conns_from f i cs j ≡ f j
  conns_from-before f i j [] h = refl
  conns_from-before f i j (c ∷ cs) h =
      conns_from-before (update f i (link_of x c (f i)).conn) (i + 1) j cs (omega (arith, h))
      ∙ ground (arith, h)

  pub conns_from-at :
      (f : ℕ → Connection) (i k : ℕ) (cs : List ConnectionConfig) (c : ConnectionConfig)
      → get_elem? cs k ≡ some c
      → conns_from f i cs (k + i) ≡ (link_of x c (f (k + i))).conn
  conns_from-at f i k [] c h = cc
  conns_from-at f i zero (d ∷ cs) c h =
      subst (λ j. conns_from f i (d ∷ cs) j ≡ (link_of x c (f j)).conn) (omega arith)
        (conns_from-before (update f i (link_of x d (f i)).conn) (i + 1) i cs (omega arith)
          ∙ here f i (link_of x d (f i)).conn
          ∙ same d c h)
    where
      here : (f : ℕ → Connection) (i : ℕ) (v : Connection) → update f i v i ≡ v
      here f i v = ground arith

      same :
          (d c : ConnectionConfig)
          → some d ≡ some c
          → (link_of x d (f i)).conn ≡ (link_of x c (f i)).conn
      same d c h = cc
  conns_from-at f i (suc k) (d ∷ cs) c h =
      subst (λ j. conns_from f i (d ∷ cs) j ≡ (link_of x c (f j)).conn) (omega arith)
        (conns_from-at (update f i (link_of x d (f i)).conn) (i + 1) k cs c h
          ∙ ap (λ o. (link_of x c o).conn) (other f i (k + (i + 1)) _ (omega arith)))
    where
      other : (f : ℕ → Connection) (i j : ℕ) (v : Connection) → i < j → update f i v j ≡ f j
      other f i j v h = ground (arith, h)

  ranks_from-absent :
      (g : ℕ → ℤ) (r : ℕ) (cs : List ConnectionConfig)
      → get_conn_for_rank cs r ≡ minus_one
      → ranks_from g cs r ≡ g r
  unfolding get_conn_for_rank map_rank
  ranks_from-absent g r [] h = refl
  ranks_from-absent g r (c ∷ cs) h = elim (Bool-cases (not c.is_switch && eq_ℤ c.peer_id (pos r))) [
    | inl e ↦ ground (arith, h, e)
    | inr e ↦
        ranks_from-absent (map_rank g (link_of x c zero_connection)) r cs (ground (arith, h, e))
        ∙ map_rank-other g (pos c.conn_id) c.is_switch c.peer_id (link_of x c zero_connection).conn
            r e
  ]

  pub ranks_from-once :
      (g : ℕ → ℤ) (r : ℕ) (cs : List ConnectionConfig)
      → r < max_ranks
      → g r ≡ minus_one
      → HasDistinctRanks cs
      → ranks_from g cs r ≡ get_conn_for_rank cs r
  unfolding get_conn_for_rank map_rank
  ranks_from-once g r [] lt h d = h
  ranks_from-once g r (c ∷ cs) lt h (unique, d) =
      elim (Bool-cases (not c.is_switch && eq_ℤ c.peer_id (pos r))) [
        | inl e ↦
            ranks_from-absent (map_rank g (link_of x c zero_connection)) r cs
              (unique r (ground (arith, e)) (is_rank c.peer_id r (ground (arith, e))))
            ∙ map_rank-hit g (pos c.conn_id) c.is_switch c.peer_id
                (link_of x c zero_connection).conn r lt e
            ∙ ground (arith, e)
        | inr e ↦
            ranks_from-once (map_rank g (link_of x c zero_connection)) r cs lt
              (map_rank-other g (pos c.conn_id) c.is_switch c.peer_id
                  (link_of x c zero_connection).conn r e
                ∙ h)
              d
            ∙ ground (arith, e)
      ]
    where
      is_rank : (z : ℤ) (r : ℕ) → eq_ℤ z (pos r) ≡ true → z ≡ pos r
      is_rank z r e = (eq_ℤ_iff z (pos r)).0 e
