-- ===== src/Transfer.antt =====
-- How the file topology.yaml goes from the controller to rank 0, and from there to the other ranks:
-- `send_file_with_length`, which repository/src/util.c and repository/src/controller.cpp both have, and
-- `receive_file` of repository/src/util.c. A sender is given the results of its calls of `send`; a
-- receiver the bytes that come and how many of them each call of `recv` may return at most. A call of
-- `fread` reads as much of the file as it is asked for.
pub mod Sent
pub mod Came
pub mod Whole
mod Tests
use Prim.Native.Nat.{min}
use inc_emulation.Base.{
  ℕ, zero, suc, ◌+◌, ◌-◌, ◌%◌, Bool, true, false, ◌==◌, if◌then◌else◌, Option, none, some, List, [],
  ◌∷◌, ◌++◌, length, first, rest_from, u32_mod,
}
use inc_emulation.External.{Text}
use inc_emulation.Config.{Status, done, failed}
use inc_emulation.Link.{be_bytes, be_number, Socket, send_content}

-- The size of `buffer`
abbrev pub chunk_size : ℕ
chunk_size = 4096

-- What follows once everything so far has been sent
abbrev pub if_sent : Status × Socket → (Socket → Status × Socket) → Status × Socket
if_sent (failed, s) k = (failed, s)
if_sent (done, s) k = k s

-- One chunk after another, at most n of them; a chunk that is not sent ends the function.
unfoldable pub send_chunks : (n : ℕ) → (content : Text) → Socket → Status × Socket
send_chunks zero content s = (done, s)
send_chunks (suc n) [] s = (done, s)
send_chunks (suc n) (b ∷ bs) s =
    if_sent (send_content s.results s.wire (first chunk_size (b ∷ bs)))
      (send_chunks n (rest_from chunk_size (b ∷ bs)))

-- `send_file_with_length`; `none` where `fopen` fails, which leaves the socket as it is.
unfoldable pub send_file_with_length : Socket → (file : Option Text) → Status × Socket
send_file_with_length s none = (failed, s)
send_file_with_length s (some content) =
    if_sent (send_content s.results s.wire (be_bytes (length content % u32_mod)))
      (send_chunks (length content) content)

pub record Stream : Type 0 where
  pub bytes : Text
  pub takes : List ℕ

-- The loop that asks for what remains, at most `limit` bytes at a time: what came, how many bytes are still
-- missing when a call returns nothing, and the stream after it
unfoldable pub receive_loop :
    (limit : ℕ) → (takes : List ℕ) → (bytes : Text) → (remaining : ℕ) → Text × ℕ × Stream
receive_loop limit takes bytes zero = ([], zero, record { bytes = bytes; takes = takes })
receive_loop limit [] bytes (suc n) = ([], suc n, record { bytes = bytes; takes = [] })
receive_loop limit (t ∷ takes) bytes (suc n) =
    let k = min t (min limit (suc n)) in
    let came = first k bytes in
    let (more, left, s) = receive_loop limit takes (rest_from k bytes) (suc n - length came) in
    if length came == 0
    then ([], suc n, record { bytes = bytes; takes = takes })
    else (came ++ more, left, s)

-- `receive_file`, once the size is known: what the file holds at the end, all of it or a part
abbrev pub receive_content : (opens : Bool) → Text × ℕ × Stream → Option Text × Stream
receive_content opens (size, suc left, s) = (none, s)
receive_content false (size, zero, s) = (none, s)
receive_content true (size, zero, s) =
    let (content, left, s') = receive_loop chunk_size s.takes s.bytes (be_number size) in
    (some content, s')

-- `receive_file`; `opens` says whether `fopen` succeeds. `none` leaves the file as it was.
unfoldable pub receive_file : (opens : Bool) → Stream → Option Text × Stream
receive_file opens s = receive_content opens (receive_loop 4 s.takes s.bytes 4)
