-- ===== src/Switch/Send/Gapless.antt =====
-- What the switch sends on its own: which connections get a frame, under which PSN, and with what.
use native.Mathlib.Decide.{ℕ_discrete}
use inc_emulation.Base.{
  ℕ, zero, suc, ◌+◌, ◌*◌, ◌%◌, ◌≤◌, ◌<◌, ◌≡◌, ◌≢◌, refl, ap, arith, Bool, false, ◌==◌, ltb,
  if◌then◌else◌, none, some, List, [], ◌∷◌, ◌++◌, update, u32_mod,
}
use inc_emulation.Packet.{data_packet, Frame, build_eth_packet, packet_body, extra_len}
use inc_emulation.Switch.State.{Context, Sent}
use inc_emulation.Switch.Send.{
  send_packet, find_conn, send_next, broadcast_to, broadcast_from, handle_broadcast,
  strip_immediate_opcode,
}

-- The frame that `send_packet` sends for data.
abbrev pub data_frame : Context → (conn : ℕ) → (ℕ → ℕ) → (len psn opcode : ℕ) → Sent
data_frame ctx conn payload len psn opcode = record {
  conn = conn;
  frame =
      build_eth_packet data_packet payload (len * 4) (ctx.conns conn) psn ((psn + 1) % u32_mod)
        opcode none;
}

-- A payload whose frame fits the buffer of `send_packet`
abbrev pub Fits : ℕ → Type 0
Fits len = 58 + len * 4 ≤ 4096

send_packet-Fits :
    (ctx : Context) (conn : ℕ) (payload : ℕ → ℕ) (len psn opcode : ℕ)
    → Fits len
    → send_packet ctx conn data_packet payload len psn opcode
      ≡ some (data_frame ctx conn payload len psn opcode)
unfolding send_packet extra_len
send_packet-Fits ctx conn payload len psn opcode h = ground arith

pub send_next-Fits :
    (ctx : Context) (conn : ℕ) (payload : ℕ → ℕ) (len opcode : ℕ)
    → Fits len
    → send_next ctx conn payload len opcode
      ≡ some (
        record ctx { send_psn = update ctx.send_psn conn (ctx.send_psn conn + 1) },
        data_frame ctx conn payload len (ctx.send_psn conn) opcode ∷ [],
      )
unfolding send_next
send_next-Fits ctx conn payload len opcode h =
    rw (send_packet-Fits ctx conn payload len (ctx.send_psn conn) opcode h, send_next) refl

find_conn_found : (conn j n : ℕ) → j ≤ conn → conn < j + n → find_conn conn j n ≡ some conn
unfolding find_conn
find_conn_found conn j zero h k = absurd (omega arith)
find_conn_found conn j (suc n) h k = ground (arith, find_conn_found conn (suc j) n)

-- The frames on one connection, in order
unfoldable pub frames_to : ℕ → List Sent → List Frame
frames_to c [] = []
frames_to c (s ∷ sent) = if s.conn == c then s.frame ∷ frames_to c sent else frames_to c sent

frames_to-append :
    (c : ℕ) (xs ys : List Sent) → frames_to c (xs ++ ys) ≡ frames_to c xs ++ frames_to c ys
unfolding frames_to
frames_to-append c [] ys = refl
frames_to-append c (x ∷ xs) ys = ground (arith, frames_to-append c xs ys)

module _ (sender : ℕ) (payload : ℕ → ℕ) (len opcode : ℕ) (fits : Fits len) where
  -- Whether the loop from i on, with n connections left, comes to connection c
  abbrev served : (i n c : ℕ) → Bool
  served i n c = if c == sender then false else if ltb c i then false else ltb c (i + n)

  -- What the loop of a Broadcast leaves behind from connection i on, with n connections left
  record Spread (ctx : Context) (i n : ℕ) : Type 0 where
    psns : ℕ → ℕ
    sent : List Sent
    outcome :
        broadcast_from ctx sender i n payload len opcode
        ≡ some (record ctx { send_psn = psns }, sent)
    counts : (c : ℕ) → psns c ≡ (if served i n c then ctx.send_psn c + 1 else ctx.send_psn c)
    frames :
        (c : ℕ)
        → frames_to c sent ≡ (
            if served i n c
            then (data_frame ctx c payload len (ctx.send_psn c) opcode).frame ∷ []
            else [])

  abbrev counted : Context → ℕ → Context
  counted ctx i = record ctx { send_psn = update ctx.send_psn i (ctx.send_psn i + 1) }

  Spread-skip : (ctx : Context) (i n : ℕ) → i ≡ sender → Spread ctx (suc i) n → Spread ctx i (suc n)
  unfolding broadcast_from
  Spread-skip ctx i n e r = record {
    psns = r.psns;
    sent = r.sent;
    outcome = ground (arith, r.outcome);
    counts = λ c. ground (arith, r.counts c);
    frames = λ c. ground (arith, r.frames c);
  }

  Spread-send :
      (ctx : Context) (i n : ℕ)
      → i ≢ sender
      → Spread (counted ctx i) (suc i) n
      → Spread ctx i (suc n)
  unfolding broadcast_from frames_to
  Spread-send ctx i n e r = record {
    psns = r.psns;
    sent = data_frame ctx i payload len (ctx.send_psn i) opcode ∷ r.sent;
    outcome = ground (arith, r.outcome, send_next-Fits ctx i payload len opcode fits);
    counts = λ c. ground (arith, r.counts c);
    frames = λ c. ground (arith, r.frames c);
  }

  spread : (ctx : Context) (i n : ℕ) → Spread ctx i n
  unfolding broadcast_from frames_to
  spread ctx i zero = record {
    psns = ctx.send_psn;
    sent = [];
    outcome = refl;
    counts = λ c. ground arith;
    frames = λ c. ground arith;
  }
  spread ctx i (suc n) = elim (ℕ_discrete i sender) [
    | yes e ↦ Spread-skip ctx i n e (spread ctx (suc i) n)
    | no e ↦ Spread-send ctx i n e (spread (counted ctx i) (suc i) n)
  ]

-- A Broadcast packet goes once to every connection of the switch but the sender's, under that
-- connection's next PSN, which the switch counts. The sender gets nothing, nor does a connection that the
-- switch does not have, and nothing else of the state changes. The payload must fit the 4096 bytes in which the frame is built.
pub handle_broadcast_lem :
    (ctx : Context) (sender : ℕ) (payload : ℕ → ℕ) (len packet_type : ℕ)
    → Fits len
    → (psns : ℕ → ℕ) × (sent : List Sent) × (handle_broadcast ctx sender payload len packet_type
        ≡ some (record ctx { send_psn = psns }, sent))
      × ((c : ℕ)
          → c < ctx.fan_in
          → c ≢ sender
          → (psns c ≡ ctx.send_psn c + 1)
            × (frames_to c sent
                ≡ (data_frame ctx c payload len
                    (ctx.send_psn c)
                    (strip_immediate_opcode packet_type)).frame
                  ∷ []))
      × ((psns sender ≡ ctx.send_psn sender) × (frames_to sender sent ≡ []))
      × ((c : ℕ) → ctx.fan_in ≤ c → (psns c ≡ ctx.send_psn c) × (frames_to c sent ≡ []))
unfolding handle_broadcast
handle_broadcast_lem ctx sender payload len packet_type fits = (
  r.psns,
  r.sent,
  r.outcome,
  λ c below other. (ground (arith, r.counts c), ground (arith, r.frames c)),
  (ground (arith, r.counts sender), ground (arith, r.frames sender)),
  λ c above. (ground (arith, above, r.counts c), ground (arith, above, r.frames c)),
)
  where
    r : Spread sender payload len (strip_immediate_opcode packet_type) fits ctx 0 ctx.fan_in
    r = spread sender payload len (strip_immediate_opcode packet_type) fits ctx 0 ctx.fan_in

-- The connections of a list of frames
unfoldable pub targets : List Sent → List ℕ
targets [] = []
targets (s ∷ sent) = s.conn ∷ targets sent

-- Every frame of the list carries the payload in its first words.
unfoldable pub Carry : (len : ℕ) → (ℕ → ℕ) → List Sent → Type 0
Carry len payload [] = Unit {0}
Carry len payload (s ∷ sent) =
    ((i : ℕ) → i < len → s.frame.body i ≡ payload i) × Carry len payload sent

abbrev pub AllBelow : ℕ → List ℕ → Type 0
AllBelow n [] = Unit {0}
AllBelow n (c ∷ cs) = (c < n) × AllBelow n cs

pub targets-append : (xs ys : List Sent) → targets (xs ++ ys) ≡ targets xs ++ targets ys
unfolding targets
targets-append [] ys = refl
targets-append (s ∷ xs) ys = ap (◌∷◌ s.conn) (targets-append xs ys)

pub append-Carry :
    (len : ℕ) (payload : ℕ → ℕ) (xs ys : List Sent)
    → Carry len payload xs
    → Carry len payload ys
    → Carry len payload (xs ++ ys)
unfolding Carry
append-Carry len payload [] ys h k = k
append-Carry len payload (s ∷ xs) ys h k = (h.0, append-Carry len payload xs ys h.1 k)

pub data_frame-body :
    (ctx : Context) (conn : ℕ) (payload : ℕ → ℕ) (len psn opcode i : ℕ)
    → i < len
    → (data_frame ctx conn payload len psn opcode).frame.body i ≡ payload i
unfolding build_eth_packet packet_body
data_frame-body ctx conn payload len psn opcode i h = ground arith

module _ (payload : ℕ → ℕ) (len opcode : ℕ) (fits : Fits len) where
  -- What the loop of `cache_and_broadcast` over a list of connections leaves behind
  pub record Served (ctx : Context) (cs : List ℕ) : Type 0 where
    pub psns : ℕ → ℕ
    pub sent : List Sent
    pub outcome :
        broadcast_to ctx cs payload len opcode ≡ some (record ctx { send_psn = psns }, sent)
    pub reached : targets sent ≡ cs
    pub carried : Carry len payload sent

  Served-cons :
      (ctx : Context) (c : ℕ) (cs : List ℕ)
      → c < ctx.fan_in
      → Served (record ctx { send_psn = update ctx.send_psn c (ctx.send_psn c + 1) }) cs
      → Served ctx (c ∷ cs)
  unfolding broadcast_to targets Carry
  Served-cons ctx c cs below rest = record {
    psns = rest.psns;
    sent = data_frame ctx c payload len (ctx.send_psn c) opcode ∷ rest.sent;
    outcome = ground (
      arith,
      find_conn_found c 0 ctx.fan_in,
      send_next-Fits ctx c payload len opcode fits,
      rest.outcome,
    );
    reached = ap (◌∷◌ c) rest.reached;
    carried = (data_frame-body ctx c payload len (ctx.send_psn c) opcode, rest.carried);
  }

  pub serve : (ctx : Context) (cs : List ℕ) → AllBelow ctx.fan_in cs → Served ctx cs
  unfolding broadcast_to targets Carry
  serve ctx [] h = record {
    psns = ctx.send_psn;
    sent = [];
    outcome = refl;
    reached = refl;
    carried = tt;
  }
  serve ctx (c ∷ cs) h =
      Served-cons ctx c cs h.0
        (serve (record ctx { send_psn = update ctx.send_psn c (ctx.send_psn c + 1) }) cs h.1)
