-- ===== src/Link.antt =====
-- The connection over which the controller configures a switch: repository/src/controller.cpp
-- (`send_command`, `send_yaml_to_switch`) at one end, `receive_yaml_config` and `controller_thread` of
-- repository/termination_switch/src/controller_comm.cpp at the other. What the socket calls give
-- back is an argument: a sender is given the results of its calls of `send`, a receiver the bytes that
-- come before the connection closes or breaks.
pub mod Framed
pub mod Thread
mod Tests
use Prim.Native.Nat.{min}
use inc_emulation.Base.{
  ℕ, zero, suc, ◌+◌, ◌*◌, ◌/◌, ◌%◌, ◌^◌, Bool, false, not, ◌==◌, if◌then◌else◌, ℤ, eq_ℤ, pos,
  negsuc, minus_one, Option, none, some, List, [], ◌∷◌, ◌++◌, ◌>>=◌, length, first, rest_from,
  u32_mod,
}
use inc_emulation.External.{Text, External}
use inc_emulation.Switch.State.{Context}
use inc_emulation.Config.{Status, done, failed, parse_yaml_config}

-- The four bytes of `htonl(w)` in memory, and the number that they stand for
unfoldable pub be_bytes : ℕ → Text
be_bytes w = w / 2 ^ 24 % 256 ∷ w / 2 ^ 16 % 256 ∷ w / 256 % 256 ∷ w % 256 ∷ []

abbrev pub be_number : Text → ℕ
be_number (a ∷ b ∷ c ∷ d ∷ _) = a * 2 ^ 24 + b * 2 ^ 16 + c * 256 + d
be_number _ = 0

-- A socket that is written to: the results of the calls that follow, and the bytes that have gone out
pub record Socket : Type 0 where
  pub results : List ℤ
  pub wire : Text

-- What one call of `send` comes to, from the results that are left
abbrev pub send_by : Socket → Text → List ℤ → ℤ × Socket
send_by s buffer [] = (minus_one, s)
send_by s buffer (negsuc n ∷ results) = (negsuc n, record s { results = results })
send_by s buffer (pos n ∷ results) =
    (pos (min n (length buffer)), record { results = results; wire = s.wire ++ first n buffer })

-- `send(fd, buffer, length, 0)`: its result, which is at most the length, and the socket after it. When
-- no results are left, the call fails.
unfoldable pub send : Socket → Text → ℤ × Socket
send s buffer = send_by s buffer s.results

abbrev pub cmd_stall : ℕ
cmd_stall = 1

abbrev pub cmd_reset : ℕ
cmd_reset = 2

abbrev pub cmd_reset_psn : ℕ
cmd_reset_psn = 3

abbrev pub cmd_start : ℕ
cmd_start = 5

-- Whether a call of `send` has sent all n bytes
abbrev pub all_sent : ℕ → ℤ × Socket → Status × Socket
all_sent n (result, s) = (if eq_ℤ result (pos n) then done else failed, s)

unfoldable pub send_command : Socket → ℕ → Status × Socket
send_command s cmd = all_sent 1 (send s (cmd ∷ []))

unfoldable pub send_start_command : Socket → Status × Socket
send_start_command s = send_command s cmd_start

unfoldable pub send_reset_command : Socket → Status × Socket
send_reset_command s = send_command s cmd_reset

unfoldable pub send_reset_psn_command : Socket → Status × Socket
send_reset_psn_command s = send_command s cmd_reset_psn

unfoldable pub send_stall_command : Socket → Status × Socket
send_stall_command s = send_command s cmd_stall

-- The loop over what is left of the content: one round per result, as long as bytes are left
unfoldable pub send_content : List ℤ → (wire content : Text) → Status × Socket
send_content results wire [] = (done, record { results = results; wire = wire })
send_content [] wire (b ∷ bs) = (failed, record { results = []; wire = wire })
send_content (negsuc _ ∷ results) wire (b ∷ bs) =
    (failed, record { results = results; wire = wire })
send_content (pos zero ∷ results) wire (b ∷ bs) =
    (failed, record { results = results; wire = wire })
send_content (pos (suc n) ∷ results) wire (b ∷ bs) =
    send_content results (wire ++ (b ∷ first n bs)) (rest_from n bs)

-- The content goes out once the length has.
abbrev pub then_content : Text → Status × Socket → Status × Socket
then_content yaml_content (failed, s) = (failed, s)
then_content yaml_content (done, s) = send_content s.results s.wire yaml_content

-- The length in four bytes, then the content. A length that goes out in parts is a failure.
unfoldable pub send_yaml_to_switch : Socket → (yaml_content : Text) → Status × Socket
send_yaml_to_switch s yaml_content =
    then_content yaml_content (all_sent 4 (send s (be_bytes (length yaml_content % u32_mod))))

-- `controller_connect`: `sockfd` is the result of `socket`, the two others say whether `inet_pton` reads
-- the address and `connect` succeeds. `none` is -1.
unfoldable pub controller_connect :
    Context → (sockfd : ℤ) → (valid connected : Bool) → Option Context
controller_connect ctx (negsuc _) valid connected = none
controller_connect ctx (pos fd) valid connected =
    if not valid
    then none
    else if not connected
    then none
    else some (record ctx { controller_fd = pos fd })

-- A socket that is read from: the bytes that still come, and whether an error is reported behind them
-- before the connection counts as closed
pub record Incoming : Type 0 where
  pub bytes : Text
  pub broken : Bool

-- `recv(fd, buffer, n, MSG_WAITALL)` for n > 0: what `recv` stores; less than n bytes where the
-- connection ends. Of an empty `bytes` it returns 0 or, if an error is still to be reported, -1.
abbrev pub recv : ℕ → Incoming → Text × Incoming
recv n s = (first n s.bytes, record s { bytes = rest_from n s.bytes })

-- A C string ends before its first NUL.
abbrev pub c_string : Text → Text
c_string [] = []
c_string (b ∷ bs) = if b == 0 then [] else b ∷ c_string bs

-- The return values of `receive_yaml_config`: 0, -1 and 1
pub data Received : Type 0 where
  applied retry closed : Received

abbrev pub outcome_of : Status → Received
outcome_of done = applied
outcome_of failed = retry

-- The size as the four bytes on the stack: those that came, and what was there before
abbrev pub stack_size : (old : Text) → Text → ℕ
stack_size old came = be_number (came ++ rest_from (length came) old)

-- What a round of `controller_thread` stores when a configuration has been applied
abbrev pub apply_config : Context → Context
apply_config ctx = record ctx { num_receivers = ctx.fan_in }

-- How the thread stands after some rounds
pub data Progress : Type 0 where
  ended going : Context → Progress

-- One round: the thread ends, or goes on with `next`.
abbrev pub after_round :
    (Context → Incoming → Option Progress)
    → Option (Context × Received × Incoming)
    → Option Progress
after_round next none = none
after_round next (some (ctx, closed, s)) = some (ended ctx)
after_round next (some (ctx, retry, s)) = next ctx s
after_round next (some (ctx, applied, s)) = next (apply_config ctx) s

module _ (x : External) where
  -- Once the content has come; `none` where the parsing is undefined.
  unfoldable pub with_content : Context → Text → Incoming → Option (Context × Received × Incoming)
  with_content ctx content s = do
    parsed ← parse_yaml_config x ctx (c_string content)
    some (parsed.0, outcome_of parsed.1, s)

  -- What follows once the size is known. `memory` says whether `malloc` succeeds. `none` is the write
  -- behind the block of no bytes that is allocated for the largest size, since the sum in
  -- `malloc(yaml_size + 1)` has 32 bits.
  unfoldable pub receive_content :
      (memory : Bool)
      → Context
      → (yaml_size : ℕ) → Incoming
      → Option (Context × Received × Incoming)
  receive_content memory ctx yaml_size s =
      let (content, s') = recv yaml_size s in
      if not memory
      then some (ctx, retry, s)
      else if yaml_size + 1 == u32_mod
      then none
      else if not (length content == yaml_size)
      then some (ctx, retry, s')
      else with_content ctx content s'

  -- `old` are the four bytes that `yaml_size` has on the stack.
  unfoldable pub receive_yaml_config :
      (old : Text) (memory : Bool) → Context → Incoming → Option (Context × Received × Incoming)
  receive_yaml_config old memory ctx s =
      let (came, s') = recv 4 s in
      if length came == 0
      then some (ctx, if s.broken then retry else closed, record s' { broken = false })
      else receive_content memory ctx (stack_size old came) s'

  -- The loop of `controller_thread`, on fuel
  unfoldable pub controller_thread :
      (old : Text) (memory : Bool) → ℕ → Context → Incoming → Option Progress
  controller_thread old memory zero ctx s = some (going ctx)
  controller_thread old memory (suc rounds) ctx s =
      after_round (controller_thread old memory rounds) (receive_yaml_config old memory ctx s)
