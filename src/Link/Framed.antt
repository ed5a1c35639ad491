-- ===== src/Link/Framed.antt =====
-- repository/src/controller.cpp against repository/termination_switch/src/controller_comm.cpp: what is
-- on the wire after `send_yaml_to_switch`, and what `receive_yaml_config` makes of it.
use mathlib.Core.Path.{subst}
use inc_emulation.Base.{
  ℕ, zero, suc, ◌+◌, ◌%◌, ◌≤◌, ◌<◌, ◌≡◌, refl, sym, ap, ◌∙◌, arith, ◌==◌, ==_refl, Bool, true,
  false, ℤ, pos, negsuc, List, [], ◌∷◌, ◌++◌, append-nil, append_assoc, length, first, first-all,
  rest_from, first-rest_from, first-append, rest_from-append, u32_mod,
}
use inc_emulation.External.{Text, External}
use inc_emulation.Switch.State.{Context}
use inc_emulation.Config.{Status, done, failed}
use inc_emulation.Link.{
  be_bytes, be_number, Socket, send_by, send, all_sent, then_content, receive_content, send_content,
  send_yaml_to_switch, c_string, with_content, receive_yaml_config,
}

-- What stands for a document on the wire
abbrev pub frame : Text → Text
frame content = be_bytes (length content % u32_mod) ++ content

pub be_number-be_bytes : (w : ℕ) → w < u32_mod → be_number (be_bytes w) ≡ w
unfolding be_bytes
be_number-be_bytes w h = omega (arith, h)

-- What has gone out is a beginning of what is to go out, and all of it if the status says so.
abbrev pub HasSent : Text → Text → Status × Socket → Type 0
HasSent before text (status, s) =
    ((out left : Text) × (s.wire ≡ before ++ out) × (out ++ left ≡ text))
    × (status ≡ done → s.wire ≡ before ++ text)

nothing_sent : (before text : Text) (s : Socket) → s.wire ≡ before → HasSent before text (failed, s)
nothing_sent before text s e = (([], text, e ∙ sym (append-nil before), refl), λ e. absurd cc)

send_content-HasSent :
    (results : List ℤ) (wire content : Text)
    → HasSent wire content (send_content results wire content)
unfolding send_content
send_content-HasSent results wire [] =
    (([], [], sym (append-nil wire), refl), λ _. sym (append-nil wire))
send_content-HasSent [] wire (b ∷ bs) =
    nothing_sent wire (b ∷ bs) (record { results = []; wire = wire }) refl
send_content-HasSent (negsuc _ ∷ results) wire (b ∷ bs) =
    nothing_sent wire (b ∷ bs) (record { results = results; wire = wire }) refl
send_content-HasSent (pos zero ∷ results) wire (b ∷ bs) =
    nothing_sent wire (b ∷ bs) (record { results = results; wire = wire }) refl
send_content-HasSent (pos (suc n) ∷ results) wire (b ∷ bs) =
    let ((out, left, sent, whole), all) =
      send_content-HasSent results (wire ++ (b ∷ first n bs)) (rest_from n bs) in
    (
      (
        b ∷ (first n bs ++ out),
        left,
        sent ∙ append_assoc wire (b ∷ first n bs) out,
        ap (λ t. b ∷ t)
            (append_assoc (first n bs) out left
              ∙ ap (λ t. first n bs ++ t) whole
              ∙ first-rest_from n bs),
      ),
      λ e.
          all e
          ∙ append_assoc wire (b ∷ first n bs) (rest_from n bs)
          ∙ ap (λ t. wire ++ (b ∷ t)) (first-rest_from n bs),
    )

send-HasSent :
    (s : Socket) (text : Text) → HasSent s.wire text (all_sent (length text) (send s text))
unfolding send
send-HasSent s text = by_results s.results
  where
    part :
        (n : ℕ) (status : Status) (results : List ℤ)
        → (status ≡ done → length text ≤ n)
        → HasSent s.wire text (status, record { results = results; wire = s.wire ++ first n text })
    part n status results enough = (
      (first n text, rest_from n text, refl, first-rest_from n text),
      λ e. ap (λ t. s.wire ++ t) (first-all n text (enough e)),
    )

    by_results :
        (results : List ℤ) → HasSent s.wire text (all_sent (length text) (send_by s text results))
    by_results [] = nothing_sent s.wire text s refl
    by_results (negsuc n ∷ results) = nothing_sent s.wire text (record s { results = results }) refl
    by_results (pos n ∷ results) = part n _ results (λ e. ground (arith, e))

-- One part of a message after another
then-HasSent :
    (before first_part content : Text) (r : Status × Socket)
    → HasSent before first_part r
    → HasSent before (first_part ++ content) (then_content content r)
then-HasSent before a content (failed, s) ((out, left, sent, whole), all) = (
  (out, left ++ content, sent, sym (append_assoc out left content) ∙ ap (λ t. t ++ content) whole),
  λ e. absurd cc,
)
then-HasSent before a content (done, s) (_, all) =
    let ((out, left, sent, whole), rest) = send_content-HasSent s.results s.wire content in
    (
      (
        a ++ out,
        left,
        sent ∙ ap (λ t. t ++ out) (all refl) ∙ append_assoc before a out,
        append_assoc a out left ∙ ap (λ t. a ++ t) whole,
      ),
      λ e. rest e ∙ ap (λ t. t ++ content) (all refl) ∙ append_assoc before a content,
    )

-- Whatever the calls of `send` return, the bytes that have gone out are a beginning of the frame, and
-- when the controller reports success they are the whole frame: four bytes of length, most significant
-- first, and the content.
pub send_yaml_to_switch-HasSent :
    (s : Socket) (content : Text) → HasSent s.wire (frame content) (send_yaml_to_switch s content)
unfolding send_yaml_to_switch be_bytes
send_yaml_to_switch-HasSent s content =
    then-HasSent s.wire (be_bytes (length content % u32_mod)) content _
      (send-HasSent s (be_bytes (length content % u32_mod)))

receive_content-append :
    (x : External) (ctx : Context) (content rest : Text) (broken : Bool)
    → length content + 1 < u32_mod
    → c_string content ≡ content
    → receive_content x true ctx
        (length content)
        (record { bytes = content ++ rest; broken = broken })
      ≡ with_content x ctx content (record { bytes = rest; broken = broken })
unfolding receive_content
receive_content-append x ctx content rest broken small text = rw (
  first-append content rest,
  rest_from-append content rest,
  not_largest,
  ==_refl (length content),
)
  where
    not_largest : (length content + 1 == u32_mod) ≡ false
    not_largest = ground (arith, small)

-- A frame that comes in is parsed as the text that was sent, and what follows it stays for the next
-- round: the text is shorter than the largest length, has no NUL, and there is memory for it.
pub receive_yaml_config-frame :
    (x : External) (old : Text) (ctx : Context) (content rest : Text) (broken : Bool)
    → length content + 1 < u32_mod
    → c_string content ≡ content
    → receive_yaml_config x old true ctx (record { bytes = frame content ++ rest; broken = broken })
      ≡ with_content x ctx content (record { bytes = rest; broken = broken })
unfolding receive_yaml_config be_bytes
receive_yaml_config-frame x old ctx content rest broken small text =
    subst
      (λ n.
        receive_content x true ctx n (record { bytes = content ++ rest; broken = broken })
        ≡ with_content x ctx content (record { bytes = rest; broken = broken }))
      (sym (be_number-be_bytes (length content % u32_mod) (omega arith) ∙ omega (arith, small)))
      (receive_content-append x ctx content rest broken small text)
