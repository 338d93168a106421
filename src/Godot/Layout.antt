-- ===== src/Godot/Layout.antt =====
-- variant.go: the layout that the comment at the top of the file describes, as the bytes that an
-- encoder writes. The program has no encoder; this is what its reader is compared with.
use gta.Base.{ℕ, zero, suc, ◌-◌, ◌/◌, ◌%◌, ◌<◌, ◌^◌, Bool, true, false, List, [], ◌∷◌, ◌++◌, length}
use gta.Godot.Buffer.{signed}
use gta.Godot.Values.{
  Value, nil, bool, int, single, double, str, dict, arr, Values, empty, cons, Entries, no_entries,
  set_entry,
}

-- A number in `n` bytes, the lowest first.
unfoldable pub le_bytes : ℕ → ℕ → List ℕ
le_bytes zero x = []
le_bytes (suc n) x = x % 256 ∷ le_bytes n (x / 256)

unfoldable pub zeros : ℕ → List ℕ
zeros zero = []
zeros (suc n) = 0 ∷ zeros n

-- From `n` to the next multiple of four.
abbrev pub gap : ℕ → ℕ
gap n = (4 - n % 4) % 4

-- What can be written: an integer is its pattern.
mutual
  pub data Tree : Type 0 where
    nil_tree : Tree
    bool_tree : Bool → Tree
    int32_tree int64_tree float32_tree float64_tree : ℕ → Tree
    string_tree : List ℕ → Tree
    array_tree : Trees → Tree
    dictionary_tree : TreePairs → Tree

  pub data Trees : Type 0 where
    no_trees : Trees
    tree_then : Tree → Trees → Trees

  pub data TreePairs : Type 0 where
    no_pairs : TreePairs
    pair_then : Tree → Tree → TreePairs → TreePairs

abbrev pub count : Trees → ℕ
count no_trees = 0
count (tree_then t ts) = suc (count ts)

abbrev pub count_pairs : TreePairs → ℕ
count_pairs no_pairs = 0
count_pairs (pair_then k t ps) = suc (count_pairs ps)

abbrev pub truth : Bool → ℕ
truth true = 1
truth false = 0

unfoldable mutual
  pub encode : Tree → List ℕ
  encode nil_tree = le_bytes 4 0 ++ []
  encode (bool_tree b) = le_bytes 4 1 ++ ((truth b ∷ []) ++ zeros 3)
  encode (int32_tree w) = le_bytes 4 2 ++ le_bytes 4 w
  encode (int64_tree w) = le_bytes 4 65538 ++ le_bytes 8 w
  encode (float32_tree w) = le_bytes 4 3 ++ le_bytes 4 w
  encode (float64_tree w) = le_bytes 4 65539 ++ le_bytes 8 w
  encode (string_tree s) = le_bytes 4 4 ++ (le_bytes 4 (length s) ++ (s ++ zeros (gap (length s))))
  encode (array_tree ts) = le_bytes 4 28 ++ (le_bytes 4 (count ts) ++ encode_all ts)
  encode (dictionary_tree ps) = le_bytes 4 27 ++ (le_bytes 4 (count_pairs ps) ++ encode_pairs ps)

  pub encode_all : Trees → List ℕ
  encode_all no_trees = []
  encode_all (tree_then t ts) = encode t ++ encode_all ts

  pub encode_pairs : TreePairs → List ℕ
  encode_pairs no_pairs = []
  encode_pairs (pair_then k t ps) = encode k ++ (encode t ++ encode_pairs ps)

-- The value that is written, as the plugin tells it: a key of a dictionary by its `%v` text, and
-- the last of two entries with the same text stays.
unfoldable mutual
  pub meaning : (Value → List ℕ) → Tree → Value
  meaning shown nil_tree = nil
  meaning shown (bool_tree b) = bool b
  meaning shown (int32_tree w) = int (signed 2147483648 w)
  meaning shown (int64_tree w) = int (signed 9223372036854775808 w)
  meaning shown (float32_tree w) = single w
  meaning shown (float64_tree w) = double w
  meaning shown (string_tree s) = str s
  meaning shown (array_tree ts) = arr (meanings shown ts)
  meaning shown (dictionary_tree ps) = dict (entries shown ps no_entries)

  pub meanings : (Value → List ℕ) → Trees → Values
  meanings shown no_trees = empty
  meanings shown (tree_then t ts) = cons (meaning shown t) (meanings shown ts)

  pub entries : (Value → List ℕ) → TreePairs → Entries → Entries
  entries shown no_pairs d = d
  entries shown (pair_then k t ps) d =
      entries shown ps (set_entry (shown (meaning shown k)) (meaning shown t) d)

-- Integers fit their width, texts their length, and containers have fewer than 100000 items.
unfoldable mutual
  pub IsFit : Tree → Type 0
  IsFit nil_tree = Unit
  IsFit (bool_tree b) = Unit
  IsFit (int32_tree w) = w < 256 ^ 4
  IsFit (int64_tree w) = w < 256 ^ 8
  IsFit (float32_tree w) = w < 256 ^ 4
  IsFit (float64_tree w) = w < 256 ^ 8
  IsFit (string_tree s) = length s < 256 ^ 4
  IsFit (array_tree ts) = (count ts < 100000) × AreFit ts
  IsFit (dictionary_tree ps) = (count_pairs ps < 100000) × AreFitPairs ps

  pub AreFit : Trees → Type 0
  AreFit no_trees = Unit
  AreFit (tree_then t ts) = IsFit t × AreFit ts

  pub AreFitPairs : TreePairs → Type 0
  AreFitPairs no_pairs = Unit
  AreFitPairs (pair_then k t ps) = IsFit k × IsFit t × AreFitPairs ps
