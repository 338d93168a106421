-- ===== src/Godot/RoundTrip.antt =====
-- variant.go: a variant in the documented layout is read back as what was written.
use gta.Base.{ℕ, zero, suc, ◌+◌, ◌≤◌, ◌≡◌, ◌∙◌, refl, ap, ◌++◌, length, length-append, arith}
use gta.Godot.Buffer.{Vbuf, Read, got}
use gta.Godot.Values.{Value, cons, empty, Values, Entries, no_entries, set_entry, Sprintf}
use gta.Godot.Variant.{decode_variant_full, read_many, read_entries}
use gta.Godot.Layout.{
  le_bytes, zeros, gap, Tree, nil_tree, bool_tree, int32_tree, int64_tree, float32_tree,
  float64_tree, string_tree, array_tree, dictionary_tree, Trees, no_trees, tree_then, TreePairs,
  no_pairs, pair_then, count, count_pairs, encode, encode_all, encode_pairs, meaning, meanings,
  entries, IsFit, AreFit, AreFitPairs,
}
use gta.Godot.Reading.{At, At-first, At-second, length-zeros, length-le_bytes}
use gta.Godot.Cases.{
  At-tail, length-le4, whole_value, nil-Reads, bool-Reads, int32-Reads, int64-Reads, float32-Reads,
  float64-Reads, string-Reads, array-Reads, dictionary-Reads,
}

ends_at : {A : Type 0} {a : A} {m n : ℕ} {r : Read A} → m ≡ n → r ≡ got a m → r ≡ got a n
ends_at {a = a} e h = h ∙ ap (got a) e

module _ (fmt : Sprintf) (v : Vbuf) where
  no_item : (item : ℕ → Read Value) (o : ℕ) → read_many item 0 o ≡ got empty (o + 0)
  unfolding read_many
  no_item item o = ap (got empty) (omega arith)

  no_entry :
      (item : ℕ → Read Value) (d : Entries) (o : ℕ)
      → read_entries fmt.shown item 0 d o ≡ got d (o + 0)
  unfolding read_entries
  no_entry item d o = ap (got d) (omega arith)

  -- One item in front of others.
  item_then :
      (item : ℕ → Read Value) (n o p q : ℕ) (x : Value) (xs : Values)
      → item o ≡ got x p
      → read_many item n p ≡ got xs q
      → read_many item (suc n) o ≡ got (cons x xs) q
  unfolding read_many
  item_then item n o p q x xs e e' = rw (e, e') refl

  entry_then :
      (item : ℕ → Read Value) (n o p q r : ℕ) (k x : Value) (d d' : Entries)
      → item o ≡ got k p
      → item p ≡ got x q
      → read_entries fmt.shown item n (set_entry (fmt.shown k) x d) q ≡ got d' r
      → read_entries fmt.shown item (suc n) d o ≡ got d' r
  unfolding read_entries
  entry_then item n o p q r k x d d' e e' e'' = rw (e, e', e'') refl

  length-encode_pos : (t : Tree) → 4 ≤ length (encode t)
  unfolding encode le_bytes
  length-encode_pos nil_tree = omega arith
  length-encode_pos (bool_tree b) = omega arith
  length-encode_pos (int32_tree w) = omega arith
  length-encode_pos (int64_tree w) = omega arith
  length-encode_pos (float32_tree w) = omega arith
  length-encode_pos (float64_tree w) = omega arith
  length-encode_pos (string_tree s) = omega arith
  length-encode_pos (array_tree ts) = omega arith
  length-encode_pos (dictionary_tree ps) = omega arith

  mutual
    unfolding encode meaning IsFit

    decode-encode :
        (t : Tree) (fuel o : ℕ)
        → IsFit t
        → length (encode t) ≤ fuel
        → At v o (encode t)
        → decode_variant_full fmt v fuel o ≡ got (meaning fmt.shown t) (o + length (encode t))
    decode-encode t zero o fit enough at = absurd (omega (arith, enough, length-encode_pos t))
    decode-encode nil_tree (suc fuel) o fit enough at =
        whole_value fmt v 0 fuel (o + 4) o _ _ (omega arith) at (nil-Reads fmt v _ o) (omega arith)
    decode-encode (bool_tree b) (suc fuel) o fit enough at =
        whole_value fmt v 1 fuel (o + 4 + 4) o _ _ (omega arith) at
          (bool-Reads fmt v _ b o (At-tail 1 _ at)) (omega (arith, length-zeros 3))
    decode-encode (int32_tree w) (suc fuel) o fit enough at =
        whole_value fmt v 2 fuel (o + 4 + 4) o _ _ (omega arith) at
          (int32-Reads fmt v _ w o fit (At-tail 2 _ at)) (omega (arith, length-le_bytes 4 w))
    decode-encode (int64_tree w) (suc fuel) o fit enough at =
        whole_value fmt v 65538 fuel (o + 4 + 8) o _ _ (omega arith) at
          (int64-Reads fmt v _ w o fit (At-tail 65538 _ at)) (omega (arith, length-le_bytes 8 w))
    decode-encode (float32_tree w) (suc fuel) o fit enough at =
        whole_value fmt v 3 fuel (o + 4 + 4) o _ _ (omega arith) at
          (float32-Reads fmt v _ w o fit (At-tail 3 _ at)) (omega (arith, length-le_bytes 4 w))
    decode-encode (float64_tree w) (suc fuel) o fit enough at =
        whole_value fmt v 65539 fuel (o + 4 + 8) o _ _ (omega arith) at
          (float64-Reads fmt v _ w o fit (At-tail 65539 _ at)) (omega (arith, length-le_bytes 8 w))
    decode-encode (string_tree s) (suc fuel) o fit enough at =
        whole_value fmt v 4 fuel (o + 4 + (4 + (length s + gap (length s)))) o _ _ (omega arith) at
          (string-Reads fmt v _ s o fit (At-tail 4 _ at))
          (omega (
            arith,
            length-le4 (length s) (s ++ zeros (gap (length s))),
            length-append s (zeros (gap (length s))),
            length-zeros (gap (length s)),
          ))
    decode-encode (array_tree ts) (suc fuel) o fit enough at =
        let inner = At-tail 28 _ at in
        whole_value fmt v 28 fuel (o + 4 + 4 + length (encode_all ts)) o _ _ (omega arith) at
          (array-Reads fmt v _ ts o fit.0 inner (
            decode-encode_all ts fuel (o + 4 + 4) fit.1
              (omega (
                arith,
                enough,
                length-le4 28 (le_bytes 4 (count ts) ++ encode_all ts),
                length-le4 (count ts) (encode_all ts),
              ))
              (At-tail (count ts) _ inner)))
          (omega (arith, length-le4 (count ts) (encode_all ts)))
    decode-encode (dictionary_tree ps) (suc fuel) o fit enough at =
        let inner = At-tail 27 _ at in
        whole_value fmt v 27 fuel (o + 4 + 4 + length (encode_pairs ps)) o _ _ (omega arith) at
          (dictionary-Reads fmt v _ ps o fit.0 inner (
            decode-encode_pairs ps fuel (o + 4 + 4) no_entries fit.1
              (omega (
                arith,
                enough,
                length-le4 27 (le_bytes 4 (count_pairs ps) ++ encode_pairs ps),
                length-le4 (count_pairs ps) (encode_pairs ps),
              ))
              (At-tail (count_pairs ps) _ inner)))
          (omega (arith, length-le4 (count_pairs ps) (encode_pairs ps)))

    decode-encode_all :
        (ts : Trees) (fuel o : ℕ)
        → AreFit ts
        → length (encode_all ts) ≤ fuel
        → At v o (encode_all ts)
        → read_many (decode_variant_full fmt v fuel) (count ts) o
          ≡ got (meanings fmt.shown ts) (o + length (encode_all ts))
    decode-encode_all no_trees fuel o fit enough at = no_item _ o
    decode-encode_all (tree_then t ts) fuel o fit enough at =
        ends_at (omega (arith, length-append (encode t) (encode_all ts))) (
          item_then (decode_variant_full fmt v fuel) (count ts) o (o + length (encode t)) _ _ _
            (decode-encode t fuel o fit.0
              (omega (arith, enough, length-append (encode t) (encode_all ts)))
              (At-first (encode t) (encode_all ts) at))
            (decode-encode_all ts fuel (o + length (encode t)) fit.1
              (omega (arith, enough, length-append (encode t) (encode_all ts)))
              (At-second (encode t) (encode_all ts) at)))

    decode-encode_pairs :
        (ps : TreePairs) (fuel o : ℕ) (d : Entries)
        → AreFitPairs ps
        → length (encode_pairs ps) ≤ fuel
        → At v o (encode_pairs ps)
        → read_entries fmt.shown (decode_variant_full fmt v fuel) (count_pairs ps) d o
          ≡ got (entries fmt.shown ps d) (o + length (encode_pairs ps))
    decode-encode_pairs no_pairs fuel o d fit enough at = no_entry _ d o
    decode-encode_pairs (pair_then k t ps) fuel o d fit enough at =
        let behind = At-second (encode k) (encode t ++ encode_pairs ps) at in
        let long = length-append (encode k) (encode t ++ encode_pairs ps) in
        let long' = length-append (encode t) (encode_pairs ps) in
        ends_at (omega (arith, long, long')) (
          entry_then (decode_variant_full fmt v fuel) (count_pairs ps) o (o + length (encode k))
            (o + length (encode k) + length (encode t)) _ _ _ d _
            (decode-encode k fuel o fit.0 (omega (arith, enough, long))
              (At-first (encode k) (encode t ++ encode_pairs ps) at))
            (decode-encode t fuel (o + length (encode k)) fit.1 (omega (arith, enough, long, long'))
              (At-first (encode t) (encode_pairs ps) behind))
            (decode-encode_pairs ps fuel (o + length (encode k) + length (encode t)) _ fit.2
              (omega (arith, enough, long, long')) (At-second (encode t) (encode_pairs ps) behind)))

-- A value in the documented layout, with integers that fit their width, texts shorter than 2 ^ 32
-- and containers of fewer than 100000 items, is read as what was written wherever it stands in the
-- buffer before the limit. The reader stops right behind it, and fuel for its bytes is enough.
pub decode_variant_full-encode :
    (fmt : Sprintf) (v : Vbuf) (t : Tree) (fuel o : ℕ)
    → IsFit t
    → length (encode t) ≤ fuel
    → At v o (encode t)
    → decode_variant_full fmt v fuel o ≡ got (meaning fmt.shown t) (o + length (encode t))
decode_variant_full-encode = decode-encode
