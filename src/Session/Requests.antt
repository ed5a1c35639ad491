-- ===== src/Session/Requests.antt =====
-- repository/src/api.c: the bytes of rank 0's two requests on the connection to the controller.
use inc_emulation.Base.{
  ℕ, zero, suc, ◌+◌, ◌≤◌, ◌≡◌, sym, ap, ◌∙◌, arith, ℤ, pos, negsuc, List, [], ◌∷◌, ◌++◌,
  append_assoc, append-nil, length, first-all,
}
use inc_emulation.External.{Text}
use inc_emulation.Link.{Socket, send}
use inc_emulation.Session.{le_bytes}
use inc_emulation.Session.Served.{words_bytes}
use inc_emulation.Host.Setup.{send_words, register_group, register_communicator}

-- The next n calls of `send` take four bytes and more.
abbrev pub IsOpen : ℕ → List ℤ → Type 0
IsOpen zero results = Unit {0}
IsOpen (suc n) (pos k ∷ results) = (4 ≤ k) × IsOpen n results
IsOpen (suc n) _ = ⊥

-- n calls and m more
abbrev pub calls : ℕ → ℕ → ℕ
calls zero m = m
calls (suc n) m = suc (calls n m)

abbrev Sent : ℕ → Socket → Text → Socket → Type 0
Sent n s bytes s' = IsOpen n s'.results × (s'.wire ≡ s.wire ++ bytes)

send-Sent :
    (n : ℕ) (results : List ℤ) (wire buffer : Text)
    → IsOpen (suc n) results
    → length buffer ≤ 4
    → Sent n
        (record { results = results; wire = wire })
        buffer
        (send (record { results = results; wire = wire }) buffer).1
unfolding send
send-Sent n [] wire buffer h small = absurd h
send-Sent n (negsuc k ∷ results) wire buffer h small = absurd h
send-Sent n (pos k ∷ results) wire buffer h small =
    (h.1, ap (λ t. wire ++ t) (first-all k buffer (omega (arith, h.0, small))))

pub length-le_bytes : (w : ℕ) → length (le_bytes w) ≤ 4
unfolding le_bytes
length-le_bytes w = omega arith

send_words-Sent :
    (n m i : ℕ) (list : ℕ → ℕ) (s : Socket)
    → IsOpen (calls n m) s.results
    → Sent m s (words_bytes n i list) (send_words n i list s)
unfolding send_words
send_words-Sent zero m i list s h = (h, sym (append-nil s.wire))
send_words-Sent (suc n) m i list s h =
    let (h', sent) =
      send-Sent (calls n m) s.results s.wire (le_bytes (list i)) h (length-le_bytes (list i)) in
    let (h'', sent') = send_words-Sent n m (i + 1) list (send s (le_bytes (list i))).1 h' in
    (
      h'',
      sent'
          ∙ ap (λ t. t ++ words_bytes n (i + 1) list) sent
          ∙ append_assoc s.wire (le_bytes (list i)) (words_bytes n (i + 1) list),
    )

-- The bytes of the two requests
abbrev pub group_request : (n : ℕ) → (ℕ → ℕ) → Text
group_request n list = 71 ∷ le_bytes n ++ words_bytes n 0 list

abbrev pub communicator_request : (n : ℕ) → (ℕ → ℕ) → Text
communicator_request n list = 67 ∷ words_bytes n 0 list

register_communicator-Sent :
    (n m : ℕ) (list : ℕ → ℕ) (s : Socket)
    → IsOpen (suc (calls n m)) s.results
    → Sent m s (communicator_request n list) (register_communicator n list s)
unfolding register_communicator
register_communicator-Sent n m list s h =
    let (h', sent) = send-Sent (calls n m) s.results s.wire (67 ∷ []) h (omega arith) in
    let (h'', sent') = send_words-Sent n m 0 list (send s (67 ∷ [])).1 h' in
    (
      h'',
      sent'
          ∙ ap (λ t. t ++ words_bytes n 0 list) sent
          ∙ append_assoc s.wire (67 ∷ []) (words_bytes n 0 list),
    )

register_group-Sent :
    (n m : ℕ) (list : ℕ → ℕ) (s : Socket)
    → IsOpen (suc (suc (calls n m))) s.results
    → Sent m s (group_request n list) (register_group n list s)
unfolding register_group
register_group-Sent n m list s h =
    let s1 = (send s (71 ∷ [])).1 in
    let (h1, sent1) = send-Sent (suc (calls n m)) s.results s.wire (71 ∷ []) h (omega arith) in
    let (h2, sent2) =
      send-Sent (calls n m) s1.results s1.wire (le_bytes n) h1 (length-le_bytes n) in
    let (h3, sent3) = send_words-Sent n m 0 list (send s1 (le_bytes n)).1 h2 in
    (
      h3,
      sent3
          ∙ ap (λ t. t ++ words_bytes n 0 list) (sent2 ∙ ap (λ t. t ++ le_bytes n) sent1)
          ∙ ap (λ t. t ++ words_bytes n 0 list) (append_assoc s.wire (71 ∷ []) (le_bytes n))
          ∙ append_assoc s.wire (71 ∷ le_bytes n) (words_bytes n 0 list),
    )

-- Both, one after the other, over a connection that nothing has been sent on
pub both_requests :
    (n : ℕ) (ips qps : ℕ → ℕ) (results : List ℤ)
    → IsOpen (suc (suc (calls n (suc (calls n 0))))) results
    → (register_communicator n qps
        (register_group n ips (record { results = results; wire = [] }))).wire
      ≡ group_request n ips ++ communicator_request n qps
both_requests n ips qps results h =
    let s : Socket = record { results = results; wire = [] } in
    let (h1, sent1) = register_group-Sent n (suc (calls n 0)) ips s h in
    let (_, sent2) = register_communicator-Sent n 0 qps (register_group n ips s) h1 in
    sent2 ∙ ap (λ t. t ++ communicator_request n qps) sent1
