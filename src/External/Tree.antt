-- ===== src/External/Tree.antt =====
-- A concrete value for each thing that `External` leaves open, for runs at concrete inputs: nodes are
-- trees, an address is written as one code, and the only document that can be read is given.
use Prim.Native.String.{String}
use text.Mathlib.Text.{◌==◌ as text_eq}
use inc_emulation.Base.{
  ℕ, zero, ◌≡◌, refl, Bool, true, false, if◌then◌else◌, ℤ, pos, Option, none, some, List, [], ◌∷◌,
}
use inc_emulation.External.{Text, External, field}

pub data Tree : Type 0 where
  absent : Tree
  number : ℤ → Tree
  flag : Bool → Tree
  word : Text → Tree
  seq_end : Tree
  seq_item : Tree → Tree → Tree
  map_end : Tree
  map_field : String → Tree → Tree → Tree

abbrev get : Tree → String → Option Tree
get map_end key = some absent
get (map_field k n rest) key = if text_eq k key then some n else get rest key
get absent key = some absent
get seq_end key = some absent
get (seq_item _ _) key = some absent
get _ key = none

abbrev is_defined : Tree → Bool
is_defined absent = false
is_defined _ = true

abbrev is_sequence : Tree → Bool
is_sequence seq_end = true
is_sequence (seq_item _ _) = true
is_sequence _ = false

abbrev items : Tree → List Tree
items (seq_item n rest) = n ∷ items rest
items _ = []

abbrev sequence : List Tree → Tree
sequence [] = seq_end
sequence (n ∷ ns) = seq_item n (sequence ns)

abbrev mapping : List (String × Tree) → Tree
mapping [] = map_end
mapping ((k, n) ∷ rest) = map_field k n (mapping rest)

abbrev as_int : Tree → Option ℤ
as_int (number z) = some z
as_int _ = none

abbrev as_uint : Tree → Option ℕ
as_uint (number (pos n)) = some n
as_uint _ = none

abbrev as_bool : Tree → Option Bool
as_bool (flag b) = some b
as_bool _ = none

abbrev as_text : Tree → Option Text
as_text (word t) = some t
as_text _ = none

abbrev first_code : Text → ℕ
first_code [] = zero
first_code (c ∷ _) = c

pub get-mapping :
    (fields : List (String × Tree)) (key : String) (n : Tree)
    → field key fields ≡ some n
    → get (mapping fields) key ≡ some n
get-mapping [] key n h = cc
get-mapping ((k, m) ∷ rest) key n h = pick (text_eq k key) (some m) h (get-mapping rest key n)
  where
    pick :
        {n : Tree} {a b : Option Tree} (t : Bool) (o : Option Tree)
        → (if t then o else a) ≡ some n
        → (a ≡ some n → b ≡ some n)
        → (if t then o else b) ≡ some n
    pick true o h f = h
    pick false o h f = f h

pub get-absent :
    (fields : List (String × Tree)) (key : String)
    → field key fields ≡ none
    → get (mapping fields) key ≡ some absent
get-absent [] key h = refl
get-absent ((k, m) ∷ rest) key h = pick (text_eq k key) h (get-absent rest key)
  where
    pick :
        {a b : Option Tree} (t : Bool)
        → (if t then some m else a) ≡ none
        → (a ≡ none → b ≡ some absent)
        → (if t then some m else b) ≡ some absent
    pick true h f = absurd (cc h)
    pick false h f = f h

pub as_bool-undefined : (n : Tree) → is_defined n ≡ false → as_bool n ≡ none
as_bool-undefined (flag b) h = absurd (cc h)
as_bool-undefined absent h = refl
as_bool-undefined (number z) h = refl
as_bool-undefined (word t) h = refl
as_bool-undefined seq_end h = refl
as_bool-undefined (seq_item _ _) h = refl
as_bool-undefined map_end h = refl
as_bool-undefined (map_field _ _ _) h = refl

pub is_defined-mapping : (fields : List (String × Tree)) → is_defined (mapping fields) ≡ true
is_defined-mapping [] = refl
is_defined-mapping (_ ∷ _) = refl

pub is_defined-sequence : (ns : List Tree) → is_defined (sequence ns) ≡ true
is_defined-sequence [] = refl
is_defined-sequence (_ ∷ _) = refl

pub is_sequence-sequence : (ns : List Tree) → is_sequence (sequence ns) ≡ true
is_sequence-sequence [] = refl
is_sequence-sequence (_ ∷ _) = refl

pub items-sequence : (ns : List Tree) → items (sequence ns) ≡ ns
items-sequence [] = refl
items-sequence (n ∷ ns) = rw (items-sequence ns)

pub same_address : (t : Text) (ip : ℕ) → some (first_code t) ≡ some ip → first_code t ≡ ip
same_address t ip e = cc e

-- Every text is read as `document`.
abbrev pub trees : Tree → External
trees document = record {
  Node = Tree;
  load = λ _. some document;
  emit = λ _. 0 ∷ [];
  get = get;
  is_defined = is_defined;
  is_sequence = is_sequence;
  items = items;
  as_int = as_int;
  as_uint = as_uint;
  as_bool = as_bool;
  as_text = as_text;
  of_int = number;
  of_bool = flag;
  of_text = word;
  sequence = sequence;
  mapping = mapping;
  inet_addr = first_code;
  inet_ntop = λ ip. ip ∷ [];
  inet_pton = λ t. some (first_code t);
  scan_mac = λ t _. first_code t;
  scan_hex = λ t. some (first_code t);
  get-mapping = get-mapping;
  get-absent = λ fields key e. (absent, get-absent fields key e, refl);
  as_bool-undefined = as_bool-undefined;
  is_defined-int = λ _. refl;
  is_defined-mapping = is_defined-mapping;
  is_defined-sequence = is_defined-sequence;
  is_sequence-sequence = is_sequence-sequence;
  items-sequence = items-sequence;
  as_int-of_int = λ _. refl;
  as_uint-of_int = λ _ _. refl;
  as_bool-of_bool = λ _. refl;
  as_text-of_text = λ _. refl;
  inet_addr-inet_ntop = λ _ _. refl;
  inet_addr-inet_pton = same_address;
}

-- A document with a field "switch" is written as one byte, any other as no byte, and read back.
abbrev pub two_trees : (document file : Tree) → External
two_trees document file = record (trees absent) {
  load = λ t. elim t [ [] ↦ some file | _ ∷ _ ↦ some document ];
  emit = λ n. elim (get n "switch") [ some (map_field _ _ _) ↦ 0 ∷ [] | _ ↦ [] ];
}
