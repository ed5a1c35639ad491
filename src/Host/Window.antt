-- ===== src/Host/Window.antt =====
-- repository/src/api.c: the window of inccl_allreduce_sendrecv, and what stands in the result at its end.
use native.Mathlib.Decide.{ℕ_discrete}
use inc_emulation.Base.{
  ◌≢◌, ℕ, zero, suc, ◌+◌, ◌-◌, ◌*◌, ◌/◌, ◌%◌, ◌^◌, ◌≤◌, ◌<◌, ◌≡◌, refl, sym, ap, ◌∙◌, arith, Bool,
  true, false, ◌==◌, ltb, if◌then◌else◌, Bool-cases, inl, inr, List, [], ◌∷◌, ◌++◌, bswap32, length,
}
use inc_emulation.Host.Allreduce.{
  payload_count, message_num, initial_sends, WcOpcode, recv, recv_rdma_with_imm, send, rdma_write,
  other, Wc, Loop, copy_out, received, Result, is_recv, completions,
}

-- The numbers i, i + 1, ..., k of them
unfoldable pub range : (i k : ℕ) → List ℕ
range i zero = []
range i (suc k) = i ∷ range (suc i) k

abbrev pub smaller : ℕ → ℕ → ℕ
smaller a b = if ltb a b then a else b

abbrev pub occurs : ℕ → List ℕ → Bool
occurs k [] = false
occurs k (x ∷ xs) = if k == x then true else occurs k xs

range-snoc : (i k : ℕ) → range i k ++ ((i + k) ∷ []) ≡ range i (suc k)
unfolding range
range-snoc i zero = ap (λ (n : ℕ). n ∷ []) (omega arith)
range-snoc i (suc k) =
    ap (λ (xs : List ℕ). i ∷ xs)
      (ap (λ (n : ℕ). range (suc i) k ++ (n ∷ [])) (omega arith) ∙ range-snoc (suc i) k)

pub range-next : (k : ℕ) → range 0 k ++ (k ∷ []) ≡ range 0 (k + 1)
range-next k =
    ap (λ (n : ℕ). range 0 k ++ (n ∷ [])) (omega arith)
    ∙ range-snoc 0 k
    ∙ ap (range 0) (omega arith)

pub length-range : (i k : ℕ) → length (range i k) ≡ k
unfolding range
length-range i zero = refl
length-range i (suc k) = omega (arith, length-range (suc i) k)

pub initial_sends_lem : (m i n k : ℕ) → k ≡ smaller n (m - i) → initial_sends m i n ≡ range i k
unfolding initial_sends range
initial_sends_lem m i zero zero e = refl
initial_sends_lem m i zero (suc k) e = absurd (ground (arith, e))
initial_sends_lem m i (suc n) zero e = ground (arith, e)
initial_sends_lem m i (suc n) (suc k) e = ground (arith, e, initial_sends_lem m (suc i) n k)

pub copy_out-own :
    (len idx i : ℕ) (pack dst : ℕ → ℕ)
    → len < 2 ^ 31
    → i < len
    → i / payload_count ≡ idx
    → copy_out len idx pack dst i ≡ bswap32 (pack (i % payload_count))
unfolding copy_out
copy_out-own len idx i pack dst small k e = rw place (ground (arith, small, k, e))
  where
    place : i % payload_count ≡ i - idx * payload_count
    place = omega (arith, e)

pub copy_out-other :
    (len idx i : ℕ) (pack dst : ℕ → ℕ)
    → i / payload_count ≢ idx
    → copy_out len idx pack dst i ≡ dst i
unfolding copy_out
copy_out-other len idx i pack dst e = ground (arith, e)

-- The requests whose messages have come, the last one first
unfoldable pub ids_of : List Wc → List ℕ → List ℕ
ids_of [] ids = ids
ids_of (wc ∷ wcs) ids = ids_of wcs (if is_recv wc.opcode then wc.wr_id ∷ ids else ids)

unfoldable pub ids_all : List (List Wc) → List ℕ → List ℕ
ids_all [] ids = ids
ids_all (wcs ∷ polls) ids = ids_all polls (ids_of wcs ids)

module _ (len window : ℕ) (x : ℕ → ℕ → ℕ) (dst : ℕ → ℕ) where
  -- Completions that succeed, the message of request k with the words `x k`
  abbrev pub AllGood : List Wc → Type 0
  AllGood [] = Unit {0}
  AllGood (wc ∷ wcs) =
      ((wc.success ≡ true) × ((j : ℕ) → j < payload_count → wc.pack j ≡ x wc.wr_id j)) × AllGood wcs

  abbrev pub PollsGood : List (List Wc) → Type 0
  PollsGood [] = Unit {0}
  PollsGood (wcs ∷ polls) = AllGood wcs × PollsGood polls

  -- The state of the loop when the messages of the requests `ids` have come
  pub record Holds (l : Loop) (ids : List ℕ) : Type 0 where
    pub count : l.receive_num ≡ length ids
    pub sends : l.send_num ≡ smaller (window + length ids) (message_num len)
    pub posts : l.posted ≡ range 0 l.send_num
    pub copied :
        (i : ℕ)
        → len < 2 ^ 31
        → i < len
        → occurs (i / payload_count) ids ≡ true
        → l.dst_data i ≡ bswap32 (x (i / payload_count) (i % payload_count))
    pub kept : (i : ℕ) → len ≤ i → l.dst_data i ≡ dst i

  received-Holds :
      (wc : Wc) (l : Loop) (ids : List ℕ)
      → ((j : ℕ) → j < payload_count → wc.pack j ≡ x wc.wr_id j)
      → Holds l ids
      → Holds (received len (message_num len) wc l) (wc.wr_id ∷ ids)
  unfolding received copy_out
  received-Holds wc l ids words h = record {
    count = omega (arith, h.count);
    sends = ground (arith, h.sends);
    posts = ground (arith, h.posts, range-next l.send_num);
    copied = λ i small k e. elim (ℕ_discrete (i / payload_count) wc.wr_id) [
      | yes same ↦
          copy_out-own len wc.wr_id i wc.pack l.dst_data small k same
          ∙ ap bswap32 (
              words (i % payload_count) (omega arith)
              ∙ ap (λ n. x n (i % payload_count)) (sym same))
      | no differ ↦
          copy_out-other len wc.wr_id i wc.pack l.dst_data differ
          ∙ h.copied i small k (ground (arith, e, differ))
    ];
    kept = λ i k. ground (arith, h.kept i k);
  }

  -- The state behind a batch of completions
  pub arrived : List Wc → Loop → Loop
  arrived [] l = l
  arrived (wc ∷ wcs) l =
      arrived wcs (if is_recv wc.opcode then received len (message_num len) wc l else l)

  pub completions-good :
      (wcs : List Wc) (l : Loop) (k : Loop → Result)
      → AllGood wcs
      → completions len (message_num len) wcs l k ≡ k (arrived wcs l)
  unfolding completions arrived received
  completions-good [] l k good = refl
  completions-good (wc ∷ wcs) l k good = rw (good.0.0) (
      completions-good wcs (if is_recv wc.opcode then received len (message_num len) wc l else l) k
        good.1)

  pub arrived-Holds :
      (wcs : List Wc) (l : Loop) (ids : List ℕ)
      → AllGood wcs
      → Holds l ids
      → Holds (arrived wcs l) (ids_of wcs ids)
  unfolding arrived ids_of
  arrived-Holds [] l ids good h = h
  arrived-Holds (wc ∷ wcs) l ids good h = arrived-Holds wcs _ _ good.1 (step wc.opcode)
    where
      step :
          (op : WcOpcode)
          → Holds
              (if is_recv op then received len (message_num len) wc l else l)
              (if is_recv op then wc.wr_id ∷ ids else ids)
      step recv = received-Holds wc l ids good.0.1 h
      step recv_rdma_with_imm = received-Holds wc l ids good.0.1 h
      step send = h
      step rdma_write = h
      step other = h

ids_of_longer : (wcs : List Wc) (ids : List ℕ) → length ids ≤ length (ids_of wcs ids)
unfolding ids_of
ids_of_longer [] ids = omega arith
ids_of_longer (wc ∷ wcs) ids =
    ground (arith, ids_of_longer wcs (wc.wr_id ∷ ids), ids_of_longer wcs ids)

ids_of_same :
    (wcs : List Wc) (ids : List ℕ) → length (ids_of wcs ids) ≡ length ids → ids_of wcs ids ≡ ids
unfolding ids_of
ids_of_same [] ids e = refl
ids_of_same (wc ∷ wcs) ids e = elim (Bool-cases (is_recv wc.opcode)) [
  | inl t ↦ absurd (ground (arith, t, e, ids_of_longer wcs (wc.wr_id ∷ ids)))
  | inr f ↦ rw f (ids_of_same wcs ids (ground (arith, f, e)))
]

pub ids_all_longer :
    (polls : List (List Wc)) (ids : List ℕ) → length ids ≤ length (ids_all polls ids)
unfolding ids_all
ids_all_longer [] ids = omega arith
ids_all_longer (wcs ∷ polls) ids =
    omega (arith, ids_all_longer polls (ids_of wcs ids), ids_of_longer wcs ids)

pub ids_all_same :
    (polls : List (List Wc)) (ids : List ℕ)
    → length (ids_all polls ids) ≡ length ids
    → ids_all polls ids ≡ ids
unfolding ids_all
ids_all_same [] ids e = refl
ids_all_same (wcs ∷ polls) ids e =
    ap (ids_all polls) here
    ∙ ids_all_same polls ids (ap (λ (n : List ℕ). length (ids_all polls n)) (sym here) ∙ e)
  where
    here : ids_of wcs ids ≡ ids
    here =
        ids_of_same wcs ids
          (omega (arith, e, ids_of_longer wcs ids, ids_all_longer polls (ids_of wcs ids)))
