-- ===== src/Icrc/Travel.antt =====
-- repository/src/util.c, `compute_icrc`: the fields that routers change do not enter the checksum.
use Prim.Native.Nat.{bit_or}
use native.Mathlib.Nat.{pow-suc, one-le-pow}
use mathlib.Core.Path.{ap₂, fun_ext}
use inc_emulation.Base.{
  ℕ, zero, suc, ◌+◌, ◌-◌, ◌*◌, ◌/◌, ◌^◌, ◌<◌, ◌≤◌, ◌≡◌, refl, ap, ◌∙◌, arith, Bool, true, false,
  List, [], ◌∷◌, none, some, ◌==◌, ltb, ◌||◌, if◌then◌else◌, Bool-cases, inl, inr, map,
}
use inc_emulation.Bits.{bit_or_digit, zero-bit_or}
use inc_emulation.Crc.{crc32}
use inc_emulation.Icrc.{total_length, pseudo_packet, set_ones, masked, compute_icrc}

-- Whether a byte is in a list of places
abbrev pub mem : ℕ → List ℕ → Bool
mem i [] = false
mem i (k ∷ ks) = if i == k then true else mem i ks

mem-map : (i : ℕ) (ks : List ℕ) → mem (6 + i) (map (λ k. 6 + k) ks) ≡ mem i ks
mem-map i [] = refl
mem-map i (k ∷ ks) = ap₂ (λ b m. if b then true else m) shifted (mem-map i ks)
  where
    shifted : ((6 + i) == (6 + k)) ≡ (i == k)
    shifted = ground arith

bit_or_ones : (k a : ℕ) → a < 2 ^ k → bit_or a (2 ^ k - 1) ≡ 2 ^ k - 1
bit_or_ones zero a h = rw a_zero (zero-bit_or 0)
  where
    a_zero : a ≡ 0
    a_zero = omega (arith, h)
bit_or_ones (suc k) a h = omega (
  arith,
  bit_or_digit a (2 ^ suc k - 1),
  pow-suc 2 k,
  one-le-pow k 2 (omega arith),
  ap (bit_or (a / 2)) ones_half,
  bit_or_ones k (a / 2) (omega (arith, h, pow-suc 2 k)),
)
  where
    ones_half : (2 ^ suc k - 1) / 2 ≡ 2 ^ k - 1
    ones_half = omega (arith, pow-suc 2 k, one-le-pow k 2 (omega arith))

abbrev Agree : List ℕ → (a b : ℕ → ℕ) → Type 0
Agree ks a b = (i : ℕ) → mem i ks ≡ false → a i ≡ b i

abbrev AllBytes : (ℕ → ℕ) → Type 0
AllBytes a = (i : ℕ) → a i < 256

set_ones-bytes : (k : ℕ) (a : ℕ → ℕ) → AllBytes a → AllBytes (set_ones k a)
unfolding set_ones
set_ones-bytes k a bytes i = elim (Bool-cases (i == k)) [
  | inl e ↦ rw (e, bit_or_ones 8 (a i) (bytes i)) (omega arith)
  | inr e ↦ rw e (bytes i)
]

abbrev Alike : List ℕ → (a b : ℕ → ℕ) → Type 0
Alike ks a b = AllBytes a × AllBytes b × Agree ks a b

set_ones-Alike :
    (k : ℕ) (ks : List ℕ) {a b : ℕ → ℕ}
    → Alike (k ∷ ks) a b
    → Alike ks (set_ones k a) (set_ones k b)
unfolding set_ones
set_ones-Alike k ks {a} {b} (bytes_a, bytes_b, agree) =
    (set_ones-bytes k a bytes_a, set_ones-bytes k b bytes_b, still)
  where
    still : Agree ks (set_ones k a) (set_ones k b)
    still i other = elim (Bool-cases (i == k)) [
      | inl e ↦ rw (e, bit_or_ones 8 (a i) (bytes_a i), bit_or_ones 8 (b i) (bytes_b i)) refl
      | inr e ↦ rw e (agree i (rw e other))
    ]

-- Where the fields stand in the packet
abbrev pub changing : List ℕ
changing = 15 ∷ 22 ∷ 24 ∷ 25 ∷ 40 ∷ 41 ∷ 46 ∷ []

abbrev in_pack : List ℕ
in_pack = 9 ∷ 16 ∷ 18 ∷ 19 ∷ 34 ∷ 35 ∷ 40 ∷ []

masked-Alike : {a b : ℕ → ℕ} → Alike in_pack a b → Alike [] (masked a) (masked b)
unfolding masked
masked-Alike alike = set_ones-Alike 40 [] (
    set_ones-Alike 35 (40 ∷ []) (
      set_ones-Alike 34 (35 ∷ 40 ∷ []) (
        set_ones-Alike 19 (34 ∷ 35 ∷ 40 ∷ []) (
          set_ones-Alike 18 (19 ∷ 34 ∷ 35 ∷ 40 ∷ []) (
            set_ones-Alike 16 (18 ∷ 19 ∷ 34 ∷ 35 ∷ 40 ∷ [])
              (set_ones-Alike 9 (16 ∷ 18 ∷ 19 ∷ 34 ∷ 35 ∷ 40 ∷ []) alike))))))

module _ (p q : ℕ → ℕ) (bytes_p : AllBytes p) (bytes_q : AllBytes q) where
  pseudo_packet-Alike :
      ((i : ℕ) → 14 ≤ i → mem i changing ≡ false → p i ≡ q i)
      → Alike in_pack (pseudo_packet p) (pseudo_packet q)
  unfolding pseudo_packet
  pseudo_packet-Alike same = (bytes p bytes_p, bytes q bytes_q, agree)
    where
      bytes : (r : ℕ → ℕ) → AllBytes r → AllBytes (pseudo_packet r)
      bytes r h i = ground (arith, h (14 + (i - 8)))

      agree : Agree in_pack (pseudo_packet p) (pseudo_packet q)
      agree i e = elim (Bool-cases (ltb i 8)) [
        | inl early ↦ rw early refl
        | inr late ↦ rw late (
            same (14 + (i - 8)) (omega arith)
              (ap (λ n. mem n changing) (place late) ∙ mem-map i in_pack ∙ e))
      ]
        where
          place : ltb i 8 ≡ false → 14 + (i - 8) ≡ 6 + i
          place late = ground (arith, late)

  -- The checksum of two packets, whose memory holds bytes, is the same (or missing from both) if
  -- they agree from the IP header on, but for the type of service, the time to live, the checksums
  -- of IP and UDP, and the reserved byte before the queue pair's number.
  pub compute_icrc-travels :
      ((i : ℕ) → 14 ≤ i → mem i changing ≡ false → p i ≡ q i) → compute_icrc p ≡ compute_icrc q
  unfolding compute_icrc
  compute_icrc-travels same =
      ap₂
        (λ total pack.
          if ltb total 4 || ltb 5555 (total - 4 + 8)
          then none
          else some (crc32 pack (total - 4 + 8)))
        totals (fun_ext (λ i. (masked-Alike (pseudo_packet-Alike same)).2 i refl))
    where
      totals : total_length p ≡ total_length q
      totals =
          unfold total_length in
          ap₂ (λ h l. h * 256 + l) (same 16 (omega arith) refl) (same 17 (omega arith) refl)
