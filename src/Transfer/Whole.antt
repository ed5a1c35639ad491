-- ===== src/Transfer/Whole.antt =====
-- repository/src/util.c: a file that is sent is received whole.
use inc_emulation.Base.{
  ℕ, ◌+◌, ◌%◌, ◌≤◌, ◌<◌, ◌≡◌, refl, ap, ◌∙◌, arith, true, ℤ, Option, some, List, ◌++◌, append_assoc,
  length, u32_mod,
}
use inc_emulation.External.{Text}
use inc_emulation.Config.{done}
use inc_emulation.Link.{be_bytes, send_content}
use inc_emulation.Link.Framed.{frame, be_number-be_bytes}
use inc_emulation.Transfer.{
  chunk_size, if_sent, send_chunks, send_file_with_length, Stream, receive_loop, receive_content,
  receive_file,
}
use inc_emulation.Transfer.Sent.{AllSend, Sent, send_content-Sent, send_chunks-Sent}
use inc_emulation.Transfer.Came.{AllTake, Came, receive_loop-Came}

length-be_bytes : (w : ℕ) → length (be_bytes w) ≡ 4
unfolding be_bytes
length-be_bytes w = refl

-- A file that is sent is received whole, whatever the sizes in which the calls of `send` take and the
-- calls of `recv` give the bytes: the sender reports success, and what it has sent behind what went out
-- before, with anything behind it, is received as that file, while what is behind stays. The file can be opened at both ends and has
-- less than 2 ^ 32 bytes, each call sends or receives at least one byte, and there are at least as many
-- calls as bytes.
pub receive_file-send_file_with_length :
    (results : List ℤ) (takes : List ℕ) (before content rest : Text)
    → AllSend results
    → AllTake takes
    → length content < u32_mod
    → 4 + length content ≤ length results
    → 4 + length content ≤ length takes
    → (left : List ℤ) × (left' : List ℕ) × (wire : Text) × (send_file_with_length
          (record { results = results; wire = before })
          (some content)
        ≡ (done, record { results = left; wire = before ++ wire }))
      × (receive_file true (record { bytes = wire ++ rest; takes = takes })
          ≡ (some content, record { bytes = rest; takes = left' }))
unfolding send_file_with_length receive_file be_bytes
receive_file-send_file_with_length results takes before content rest hs ht small es et = (
  sent.left,
  content_came.left,
  frame content,
  ap (λ o. if_sent o (send_chunks (length content) content)) size_sent.outcome
      ∙ sent.outcome
      ∙ ap (λ w. (done, record { results = sent.left; wire = w }))
          (append_assoc before size content),
  ap (λ bytes. receive_content true (receive_loop 4 takes bytes 4)) (append_assoc size content rest)
      ∙ ap (receive_content true) size_came.outcome
      ∙ ap (λ (n : ℕ). saved (receive_loop chunk_size size_came.left (content ++ rest) n))
          (be_number-be_bytes (length content % u32_mod) (omega arith) ∙ omega (arith, small))
      ∙ ap saved content_came.outcome,
)
  where
    size : Text
    size = be_bytes (length content % u32_mod)

    saved : Text × ℕ × Stream → Option Text × Stream
    saved (content, left, s) = (some content, s)

    size_sent : Sent before size results (send_content results before size)
    size_sent =
        send_content-Sent results before size hs
          (omega (arith, es, length-be_bytes (length content % u32_mod)))

    sent : Sent (before ++ size) content size_sent.left (
        send_chunks
          (length content)
          content
          (record { results = size_sent.left; wire = before ++ size }))
    sent =
        send_chunks-Sent (length content) content size_sent.left (before ++ size) size_sent.all
          (omega arith)
          (omega (arith, es, size_sent.enough, length-be_bytes (length content % u32_mod)))

    size_came :
        Came size (content ++ rest) takes (receive_loop 4 takes (size ++ (content ++ rest)) 4)
    size_came =
        receive_loop-Came 4 takes size (content ++ rest) 4 (omega arith) ht
          (length-be_bytes (length content % u32_mod)) (omega (arith, et))

    content_came :
        Came content rest size_came.left
          (receive_loop chunk_size size_came.left (content ++ rest) (length content))
    content_came =
        receive_loop-Came chunk_size size_came.left content rest (length content) (omega arith)
          size_came.all refl
          (omega (arith, et, size_came.enough, length-be_bytes (length content % u32_mod)))
