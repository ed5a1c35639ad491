-- ===== src/Host/Write/Tests.antt =====
-- The RDMA write functions at concrete values.
use inc_emulation.Base.{ℕ, ◌+◌, ◌≤◌, ◌<◌, ◌≡◌, refl, arith, none, [], if◌then◌else◌, ltb}
use inc_emulation.Host.Allreduce.{payload_count}
use inc_emulation.Host.Write.{
  whole_messages, reduce_prepared, reduce_copy, reduce_write_root, reduce_write_sender,
}
use inc_emulation.Host.Write.Lost.{reduce_write-last_two}

refused_length : reduce_write_root 8192 1500 (λ _. 0) [] ≡ none
unfolding reduce_write_root
refused_length = refl

refused_sender : reduce_write_sender 8192 1500 [] ≡ none
unfolding reduce_write_sender
refused_sender = refl

-- Two arrays that differ at the last two of 2048 places
abbrev here : ℕ → ℕ
here i = i

abbrev there : ℕ → ℕ
there i = if ltb i 2046 then i else 0

reduce_write-last_two_example :
    ((i j : ℕ)
      → i < 2
      → j < payload_count
      → reduce_prepared 3 here 2048 i j ≡ reduce_prepared 3 there 2048 i j)
    × ((idx k : ℕ) (pack dst : ℕ → ℕ)
        → idx < 2
        → 2048 ≤ k + 2
        → reduce_copy 2048 idx pack dst k ≡ dst k)
unfolding whole_messages
reduce_write-last_two_example =
    reduce_write-last_two 2048 3 here there refl (λ i h. ground (arith, h))
