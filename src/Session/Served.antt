-- ===== src/Session/Served.antt =====
-- repository/src/controller.cpp: what the controller makes of the requests that rank 0 sends.
use native.Mathlib.Decide.{ℕ_discrete}
use inc_emulation.Base.{
  ℕ, zero, suc, ◌+◌, ◌^◌, ◌≤◌, ◌<◌, ◌≡◌, refl, ap, ◌∙◌, arith, true, false, ltb, Option, none, some,
  [], ◌++◌, append_assoc, update, u32_mod,
}
use inc_emulation.External.{Text, External}
use inc_emulation.Controller.Route.{
  Group, Communicator, new_group, new_communicator, calculate_route,
}
use inc_emulation.Link.{Incoming, send}
use inc_emulation.Session.{
  le_bytes, recv_word, recv_words, State, Memory, read_group, create_group, create_communicator,
  distribute,
}

-- A connection from which these bytes still come before it closes
abbrev pub coming : Text → Incoming
coming bytes = record { bytes = bytes; broken = false }

-- An array in memory, from the place i on
abbrev pub words_bytes : (n i : ℕ) → (ℕ → ℕ) → Text
words_bytes zero i list = []
words_bytes (suc n) i list = le_bytes (list i) ++ words_bytes n (i + 1) list

pub recv_word-le_bytes :
    (old w : ℕ) (rest : Text)
    → w < u32_mod
    → recv_word old (coming (le_bytes w ++ rest)) ≡ (w, coming rest)
unfolding recv_word le_bytes
recv_word-le_bytes old w rest h = ap (λ n. (n, coming rest)) (omega (arith, h))

-- The array after the loop
record Filled (n i : ℕ) (old list : ℕ → ℕ) (rest : Text) (o : Option ((ℕ → ℕ) × Incoming))
    : Type 0 where
  words : ℕ → ℕ
  outcome : o ≡ some (words, coming rest)
  own : (j : ℕ) → i ≤ j → j < i + n → words j ≡ list j
  before : (j : ℕ) → j < i → words j ≡ old j

recv_words-Filled :
    (room n i : ℕ) (old list : ℕ → ℕ) (rest : Text)
    → i + n ≤ room
    → ((j : ℕ) → j < i + n → list j < u32_mod)
    → Filled n i old list rest (recv_words room n i old (coming (words_bytes n i list ++ rest)))
unfolding recv_words le_bytes
recv_words-Filled room zero i old list rest fits h = record {
  words = old;
  outcome = refl;
  own = λ j k l. absurd (omega (arith, k, l));
  before = λ j k. refl;
}
recv_words-Filled room (suc n) i old list rest fits h =
    let r =
      recv_words-Filled room n (i + 1) (update old i (list i)) list rest (omega (arith, fits))
        (λ j k. h j (omega (arith, k))) in
    record {
      words = r.words;
      outcome =
          ap (λ bytes. recv_words room (suc n) i old (coming bytes))
            (append_assoc (le_bytes (list i)) (words_bytes n (i + 1) list) rest)
          ∙ inside
              (recv_word (old i) (coming (le_bytes (list i) ++ words_bytes n (i + 1) list ++ rest)))
          ∙ ap (λ (o : ℕ × Incoming). recv_words room n (i + 1) (update old i o.0) o.1)
              (recv_word-le_bytes (old i) (list i) (words_bytes n (i + 1) list ++ rest)
                (h i (omega arith)))
          ∙ r.outcome;
      own = λ j k l. elim (ℕ_discrete j i) [
        | yes e ↦ r.before j (omega (arith, e)) ∙ ground (arith, e)
        | no d ↦ r.own j (omega (arith, k, d)) (omega (arith, l))
      ];
      before = λ j k. r.before j (omega (arith, k)) ∙ ground (arith, k);
    }
  where
    inside :
        (o : ℕ × Incoming)
        → (elim (ltb i room) [
          | true ↦ recv_words room n (i + 1) (update old i o.0) o.1
          | false ↦ none
        ])
          ≡ recv_words room n (i + 1) (update old i o.0) o.1
    inside o = ground (arith, fits)

-- Request 'G' as it comes in: the group that the controller makes
abbrev pub made_group : State → (n : ℕ) → (words : ℕ → ℕ) → State
made_group st n words = record st {
  group = some (record { id = st.group_num + 1; world_size = n; ip_list = words });
  world_size = n;
  group_num = st.group_num + 1;
  client = (send st.client (le_bytes (st.group_num + 1))).1;
}

pub create_group-coming :
    (memory : Memory) (st : State) (n : ℕ) (list : ℕ → ℕ) (rest : Text)
    → n < 2 ^ 31
    → n ≤ memory.room
    → ((j : ℕ) → j < n → list j < u32_mod)
    → (words : ℕ → ℕ) × ((j : ℕ) → j < n → words j ≡ list j)
      × (create_group memory st (coming (le_bytes n ++ words_bytes n 0 list ++ rest))
          ≡ some (made_group st n words, coming rest))
unfolding create_group read_group new_group recv_word le_bytes
create_group-coming memory st n list rest small fits h =
    let r =
      recv_words-Filled memory.room n 0 (update memory.words 0 n) list rest (omega (arith, fits))
        (λ j k. h j (omega (arith, k))) in
    (
      r.words,
      λ j k. r.own j (omega arith) (omega (arith, k)),
      ap (read_group memory st) (
            recv_word-le_bytes st.world_size n (words_bytes n 0 list ++ rest)
              (omega (arith, small)))
          ∙ rw (true_lem small, r.outcome) refl,
    )
  where
    true_lem : n < 2 ^ 31 → ltb n (2 ^ 31) ≡ true
    true_lem h = ground (arith, h)

module _ (x : External) where
  pub create_communicator-coming :
      (memory : Memory) (st : State) (group : Group) (list : ℕ → ℕ) (rest : Text)
      → st.group ≡ some group
      → st.world_size ≤ memory.room
      → ((j : ℕ) → j < st.world_size → list j < u32_mod)
      → (words : ℕ → ℕ) × ((j : ℕ) → j < st.world_size → words j ≡ list j)
        × ((routed : Communicator)
            → calculate_route x memory.conn st.info
                (record (new_communicator st.communicator_num group memory.words) {
                  qp_list = words;
                })
              ≡ some routed
            → create_communicator x memory st (coming (words_bytes st.world_size 0 list ++ rest))
              ≡ some (distribute x st routed, coming rest))
  unfolding create_communicator
  create_communicator-coming memory st group list rest known fits h =
      let r =
        recv_words-Filled memory.room st.world_size 0
          (new_communicator st.communicator_num group memory.words).qp_list list rest
          (omega (arith, fits)) (λ j k. h j (omega (arith, k))) in
      (
        r.words,
        λ j k. r.own j (omega arith) (omega (arith, k)),
        λ routed goes. rw (known, r.outcome, goes) refl,
      )
