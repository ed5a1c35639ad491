-- ===== src/Transfer/Sent.antt =====
-- repository/src/util.c, `send_file_with_length`: what goes out.
use inc_emulation.Base.{
  ℕ, zero, suc, ◌+◌, ◌≤◌, ◌≡◌, sym, ap, ◌∙◌, arith, ℤ, pos, negsuc, List, [], ◌∷◌, ◌++◌, append-nil,
  append_assoc, length, length-append, length-rest_from, first, rest_from, first-rest_from,
}
use inc_emulation.External.{Text}
use inc_emulation.Config.{Status, done}
use inc_emulation.Link.{Socket, send_content}
use inc_emulation.Transfer.{chunk_size, if_sent, send_chunks}

-- Calls of `send` that all take something
abbrev pub AllSend : List ℤ → Type 0
AllSend [] = Unit {0}
AllSend (pos (suc n) ∷ results) = AllSend results
AllSend (_ ∷ results) = ⊥

-- The text has gone out, and what is left of the results is enough for what follows.
pub record Sent (wire text : Text) (results : List ℤ) (o : Status × Socket) : Type 0 where
  pub left : List ℤ
  pub outcome : o ≡ (done, record { results = left; wire = wire ++ text })
  pub all : AllSend left
  pub enough : length results ≤ length left + length text

pub send_content-Sent :
    (results : List ℤ) (wire text : Text)
    → AllSend results
    → length text ≤ length results
    → Sent wire text results (send_content results wire text)
unfolding send_content
send_content-Sent results wire [] h e = record {
  left = results;
  outcome = ap (λ w. (done, record { results = results; wire = w })) (sym (append-nil wire));
  all = h;
  enough = omega arith;
}
send_content-Sent [] wire (b ∷ bs) h e = absurd (omega (arith, e))
send_content-Sent (negsuc n ∷ results) wire (b ∷ bs) h e = absurd h
send_content-Sent (pos zero ∷ results) wire (b ∷ bs) h e = absurd h
send_content-Sent (pos (suc n) ∷ results) wire (b ∷ bs) h e =
    let r =
      send_content-Sent results (wire ++ (b ∷ first n bs)) (rest_from n bs) h
        (omega (arith, e, length-rest_from n bs)) in
    record {
      left = r.left;
      outcome =
          r.outcome
          ∙ ap (λ w. (done, record { results = r.left; wire = w }))
              (append_assoc wire (b ∷ first n bs) (rest_from n bs)
                ∙ ap (λ t. wire ++ (b ∷ t)) (first-rest_from n bs));
      all = r.all;
      enough = omega (arith, r.enough, length-rest_from n bs);
    }

rest-smaller : (b : ℕ) (bs : Text) → length (rest_from chunk_size (b ∷ bs)) ≤ length bs
rest-smaller b bs = length-rest_from 4095 bs

pub first-and-rest : (k : ℕ) (xs : Text) → length (first k xs) + length (rest_from k xs) ≡ length xs
first-and-rest k xs =
    sym (length-append (first k xs) (rest_from k xs)) ∙ ap length (first-rest_from k xs)

pub send_chunks-Sent :
    (n : ℕ) (content : Text) (results : List ℤ) (wire : Text)
    → AllSend results
    → length content ≤ n
    → length content ≤ length results
    → Sent wire content results (send_chunks n content (record { results = results; wire = wire }))
unfolding send_chunks
send_chunks-Sent zero [] results wire h small e = record {
  left = results;
  outcome = ap (λ w. (done, record { results = results; wire = w })) (sym (append-nil wire));
  all = h;
  enough = omega arith;
}
send_chunks-Sent zero (b ∷ bs) results wire h small e = absurd (omega (arith, small))
send_chunks-Sent (suc n) [] results wire h small e = record {
  left = results;
  outcome = ap (λ w. (done, record { results = results; wire = w })) (sym (append-nil wire));
  all = h;
  enough = omega arith;
}
send_chunks-Sent (suc n) (b ∷ bs) results wire h small e =
    let chunk : Text = first chunk_size (b ∷ bs) in
    let rest : Text = rest_from chunk_size (b ∷ bs) in
    let sizes : length chunk + length rest ≡ length (b ∷ bs) = first-and-rest chunk_size (b ∷ bs) in
    let r = send_content-Sent results wire chunk h (omega (arith, e, sizes)) in
    let r' =
      send_chunks-Sent n rest r.left (wire ++ chunk) r.all (omega (arith, small, rest-smaller b bs))
        (omega (arith, e, sizes, r.enough)) in
    record {
      left = r'.left;
      outcome =
          ap (λ o. if_sent o (send_chunks n rest)) r.outcome
          ∙ r'.outcome
          ∙ ap (λ w. (done, record { results = r'.left; wire = w }))
              (append_assoc wire chunk rest
                ∙ ap (λ t. wire ++ t) (first-rest_from chunk_size (b ∷ bs)));
      all = r'.all;
      enough = omega (arith, r.enough, r'.enough, sizes);
    }
