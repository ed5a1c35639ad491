-- ===== src/Pipeline/Phase.antt =====
-- What the root of a pipelined switch does for one PSN, seen from outside: which of the two children
-- have sent, what their packets get in answer, and what the sum is.
use inc_emulation.Base.{ℕ, ◌+◌, ◌%◌, u32_mod, List, [], ◌∷◌, ◌++◌}

-- A child
pub data Child : Type 0 where
  left right : Child

abbrev pub port_of : Child → ℕ
port_of left = 0
port_of right = 1

-- Nobody has sent, one of the two, both.
pub data Phase : Type 0 where
  idle only_left only_right done : Phase

unfoldable pub next_phase : Phase → Child → Phase
next_phase idle left = only_left
next_phase idle right = only_right
next_phase only_left left = only_left
next_phase only_left right = done
next_phase only_right left = done
next_phase only_right right = only_right
next_phase done _ = done

-- The ports that get the sum in answer to a packet: both when the second child has sent, and later
-- the sender of a packet that comes again.
unfoldable pub answered : Phase → Child → List ℕ
answered only_left right = 0 ∷ 1 ∷ []
answered only_right left = 0 ∷ 1 ∷ []
answered done c = port_of c ∷ []
answered _ _ = []

unfoldable pub phase_after : Phase → List Child → Phase
phase_after p [] = p
phase_after p (c ∷ cs) = phase_after (next_phase p c) cs

unfoldable pub all_answered : Phase → List Child → List ℕ
all_answered p [] = []
all_answered p (c ∷ cs) = answered p c ++ all_answered (next_phase p c) cs

-- The sum of the children that have sent
unfoldable pub phase_sum : Phase → (Child → ℕ → ℕ) → ℕ → ℕ
phase_sum idle x i = 0
phase_sum only_left x i = x left i
phase_sum only_right x i = x right i
phase_sum done x i = (x left i + x right i) % u32_mod

-- The bitmap of the slot: a bit for each child, and one for the parent, which on the root says that
-- the sum is complete.
unfoldable pub phase_bits : Phase → ℕ
phase_bits idle = 0
phase_bits only_left = 1
phase_bits only_right = 2
phase_bits done = 7
