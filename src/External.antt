-- ===== src/External.antt =====
-- What the controller and the switch's configuration call of yaml-cpp (`YAML::Node`, `YAML::Load`,
-- the output of a node to a stream) and of libc (`inet_addr`, `inet_ntop`, `inet_pton`, `sscanf` of a MAC address),
-- as one record of operations with their documented laws. A text is the list of its bytes, a key
-- of a mapping, always a literal in the source, a native string.
pub mod Tree
use Prim.Native.String.{String}
use text.Mathlib.Text.{◌==◌ as text_eq}
use inc_emulation.Base.{
  ℕ, ◌<◌, ◌≡◌, Bool, true, false, if◌then◌else◌, ℤ, pos, Option, none, some, List, [], ◌∷◌, u32_mod,
}

abbrev pub Text : Type 0
Text = List ℕ

-- The first field of that name
abbrev pub field {ℓ} : {A : Type ℓ} → String → List (String × A) → Option A
field key [] = none
field key ((k, a) ∷ rest) = if text_eq k key then some a else field key rest

pub record External : Type 1 where
  pub Node : Type 0
  -- `YAML::Load`; `none` where it throws.
  pub load : Text → Option Node
  -- `ss << node`
  pub emit : Node → Text
  -- `node[key]`; `none` where it throws. A key that is absent gives a node that is not defined.
  pub get : Node → String → Option Node
  pub is_defined : Node → Bool
  pub is_sequence : Node → Bool
  pub items : Node → List Node
  -- `node.as<int>()`, `as<unsigned int>`, `as<bool>`, `as<std::string>`; `none` where the conversion fails.
  pub as_int : Node → Option ℤ
  pub as_uint : Node → Option ℕ
  pub as_bool : Node → Option Bool
  pub as_text : Node → Option Text
  -- The nodes that assignments make
  pub of_int : ℤ → Node
  pub of_bool : Bool → Node
  pub of_text : Text → Node
  pub sequence : List Node → Node
  pub mapping : List (String × Node) → Node
  pub inet_addr : Text → ℕ
  pub inet_ntop : ℕ → Text
  -- `none` for a text that is no address
  pub inet_pton : Text → Option ℕ
  -- `sscanf(text, "%hhx:...", ...)`: the address as it was, with what the text gives.
  pub scan_mac : Text → ℕ → ℕ
  -- `sscanf(text, "%x:...", ...)`: the address of the numbers' low bytes; `none` for fewer than six.
  pub scan_hex : Text → Option ℕ
  pub get-mapping :
      (fields : List (String × Node)) (key : String) (n : Node)
      → field key fields ≡ some n
      → get (mapping fields) key ≡ some n
  pub get-absent :
      (fields : List (String × Node)) (key : String)
      → field key fields ≡ none
      → (n : Node) × (get (mapping fields) key ≡ some n) × (is_defined n ≡ false)
  pub as_bool-undefined : (n : Node) → is_defined n ≡ false → as_bool n ≡ none
  pub is_defined-int : (z : ℤ) → is_defined (of_int z) ≡ true
  pub is_defined-mapping : (fields : List (String × Node)) → is_defined (mapping fields) ≡ true
  pub is_defined-sequence : (ns : List Node) → is_defined (sequence ns) ≡ true
  pub is_sequence-sequence : (ns : List Node) → is_sequence (sequence ns) ≡ true
  pub items-sequence : (ns : List Node) → items (sequence ns) ≡ ns
  pub as_int-of_int : (z : ℤ) → as_int (of_int z) ≡ some z
  pub as_uint-of_int : (n : ℕ) → n < u32_mod → as_uint (of_int (pos n)) ≡ some n
  pub as_bool-of_bool : (b : Bool) → as_bool (of_bool b) ≡ some b
  pub as_text-of_text : (t : Text) → as_text (of_text t) ≡ some t
  pub inet_addr-inet_ntop : (ip : ℕ) → ip < u32_mod → inet_addr (inet_ntop ip) ≡ ip
  pub inet_addr-inet_pton : (t : Text) (ip : ℕ) → inet_pton t ≡ some ip → inet_addr t ≡ ip
