-- ===== src/Godot/Cases.antt =====
-- variant.go: what each case of the switch on the type answers where its documented layout stands.
use gta.Base.{
  ℕ, suc, ◌+◌, ◌<◌, ◌^◌, ◌≡◌, ◌∙◌, refl, ap, Bool, true, false, List, [], ◌∷◌, ◌++◌, length, arith,
}
use gta.Godot.Buffer.{
  Vbuf, Read, got, i32, i64, f64, signed, skip_pad, skip_loop, string_no_pad, string, padded,
}
use gta.Godot.Values.{Value, nil, bool, int, single, double, str, dict, arr, no_entries, Sprintf}
use gta.Godot.Variant.{
  decode_variant_full, decode_variant_body, decode_case, case_of, read_many, read_entries,
  container_rounds,
}
use gta.Godot.Layout.{
  le_bytes, zeros, gap, Tree, Trees, TreePairs, count, count_pairs, truth, encode, encode_all,
  encode_pairs, meaning, meanings, entries,
}
use gta.Godot.Reading.{
  At, At-first, At-second, u8-At, u32-At, f32-At, unlimited-At, payload-At, skip_pad-gap,
}

pub length-le4 : (x : ℕ) (ys : List ℕ) → length (le_bytes 4 x ++ ys) ≡ 4 + length ys
unfolding le_bytes
length-le4 x ys = omega arith

module _ {v : Vbuf} {o : ℕ} where
  At-head : (x : ℕ) (ys : List ℕ) → At v o (le_bytes 4 x ++ ys) → At v o (le_bytes 4 x)
  At-head x ys = At-first (le_bytes 4 x) ys

  pub At-tail : (x : ℕ) (ys : List ℕ) → At v o (le_bytes 4 x ++ ys) → At v (o + 4) ys
  unfolding le_bytes
  At-tail x ys at = At-second (le_bytes 4 x) ys at

module _ (fmt : Sprintf) (v : Vbuf) where
  -- What is left to do once the type was read.
  pub by_type :
      (typ fuel o : ℕ) (body : List ℕ)
      → typ < 256 ^ 4
      → At v o (le_bytes 4 typ ++ body)
      → decode_variant_full fmt v (suc fuel) o
        ≡ decode_variant_body fmt v (decode_variant_full fmt v fuel) typ o (o + 4)
  unfolding decode_variant_full
  by_type typ fuel o body h at = rw (u32-At typ h (At-head typ body at)) refl

  -- The cases whose payload holds no variant.
  pub nil-Reads :
      (nested : ℕ → Read Value) (o : ℕ)
      → decode_variant_body fmt v nested 0 o (o + 4) ≡ got nil (o + 4)
  unfolding decode_variant_body decode_case case_of
  nil-Reads nested o = refl

  bool_pad : (o : ℕ) → skip_pad (o + 4 + 1) o ≡ o + 4 + 4
  unfolding skip_pad skip_loop
  bool_pad o = ground arith

  pub bool-Reads :
      (nested : ℕ → Read Value) (b : Bool) (o : ℕ)
      → At v (o + 4) ((truth b ∷ []) ++ zeros 3)
      → decode_variant_body fmt v nested 1 o (o + 4) ≡ got (bool b) (o + 4 + 4)
  unfolding decode_variant_body decode_case case_of padded
  bool-Reads nested true o at = rw (u8-At 1 (At-first (1 ∷ []) (zeros 3) at), bool_pad o) refl
  bool-Reads nested false o at = rw (u8-At 0 (At-first (0 ∷ []) (zeros 3) at), bool_pad o) refl

  pub int32-Reads :
      (nested : ℕ → Read Value) (w o : ℕ)
      → w < 256 ^ 4
      → At v (o + 4) (le_bytes 4 w)
      → decode_variant_body fmt v nested 2 o (o + 4) ≡ got (int (signed 2147483648 w)) (o + 4 + 4)
  unfolding decode_variant_body decode_case case_of i32
  int32-Reads nested w o h at = rw (u32-At w h at) refl

  pub int64-Reads :
      (nested : ℕ → Read Value) (w o : ℕ)
      → w < 256 ^ 8
      → At v (o + 4) (le_bytes 8 w)
      → decode_variant_body fmt v nested 65538 o (o + 4)
        ≡ got (int (signed 9223372036854775808 w)) (o + 4 + 8)
  unfolding decode_variant_body decode_case case_of i64
  int64-Reads nested w o h at = rw (unlimited-At w h at) refl

  pub float32-Reads :
      (nested : ℕ → Read Value) (w o : ℕ)
      → w < 256 ^ 4
      → At v (o + 4) (le_bytes 4 w)
      → decode_variant_body fmt v nested 3 o (o + 4) ≡ got (single w) (o + 4 + 4)
  unfolding decode_variant_body decode_case case_of
  float32-Reads nested w o h at = rw (f32-At w h at) refl

  pub float64-Reads :
      (nested : ℕ → Read Value) (w o : ℕ)
      → w < 256 ^ 8
      → At v (o + 4) (le_bytes 8 w)
      → decode_variant_body fmt v nested 65539 o (o + 4) ≡ got (double w) (o + 4 + 8)
  unfolding decode_variant_body decode_case case_of f64
  float64-Reads nested w o h at = rw (unlimited-At w h at) refl

  pub string-Reads :
      (nested : ℕ → Read Value) (s : List ℕ) (o : ℕ)
      → length s < 256 ^ 4
      → At v (o + 4) (le_bytes 4 (length s) ++ (s ++ zeros (gap (length s))))
      → decode_variant_body fmt v nested 4 o (o + 4)
        ≡ got (str s) (o + 4 + (4 + (length s + gap (length s))))
  unfolding decode_variant_body decode_case case_of string string_no_pad padded
  string-Reads nested s o h at =
      let behind = At-tail (length s) (s ++ zeros (gap (length s))) at in
      rw
        (
          u32-At (length s) h (At-head (length s) (s ++ zeros (gap (length s))) at),
          payload-At s (At-first s (zeros (gap (length s))) behind),
          skip_pad-gap o (length s),
        )
        refl

  rounds : (n : ℕ) → n < 100000 → container_rounds n ≡ n
  rounds n h = ground (arith, h)

  pub array-Reads :
      (nested : ℕ → Read Value) (ts : Trees) (o : ℕ)
      → count ts < 100000
      → At v (o + 4) (le_bytes 4 (count ts) ++ encode_all ts)
      → read_many nested (count ts) (o + 4 + 4)
        ≡ got (meanings fmt.shown ts) (o + 4 + 4 + length (encode_all ts))
      → decode_variant_body fmt v nested 28 o (o + 4)
        ≡ got (arr (meanings fmt.shown ts)) (o + 4 + 4 + length (encode_all ts))
  unfolding decode_variant_body decode_case case_of
  array-Reads nested ts o h at items =
      rw
        (
          u32-At (count ts) (omega (arith, h)) (At-head (count ts) (encode_all ts) at),
          rounds (count ts) h,
          items,
        )
        refl

  pub dictionary-Reads :
      (nested : ℕ → Read Value) (ps : TreePairs) (o : ℕ)
      → count_pairs ps < 100000
      → At v (o + 4) (le_bytes 4 (count_pairs ps) ++ encode_pairs ps)
      → read_entries fmt.shown nested (count_pairs ps) no_entries (o + 4 + 4)
        ≡ got (entries fmt.shown ps no_entries) (o + 4 + 4 + length (encode_pairs ps))
      → decode_variant_body fmt v nested 27 o (o + 4)
        ≡ got (dict (entries fmt.shown ps no_entries)) (o + 4 + 4 + length (encode_pairs ps))
  unfolding decode_variant_body decode_case case_of
  dictionary-Reads nested ps o h at items =
      rw
        (
          u32-At (count_pairs ps) (omega (arith, h))
              (At-head (count_pairs ps) (encode_pairs ps) at),
          rounds (count_pairs ps) h,
          items,
        )
        refl

  abbrev pub Reads : ℕ → Tree → Type 0
  Reads fuel t =
      (o : ℕ)
      → At v o (encode t)
      → decode_variant_full fmt v fuel o ≡ got (meaning fmt.shown t) (o + length (encode t))

  -- The type in front and a payload of `n` bytes behind it.
  pub whole_value :
      (typ fuel n o : ℕ) (body : List ℕ) (x : Value)
      → typ < 256 ^ 4
      → At v o (le_bytes 4 typ ++ body)
      → decode_variant_body fmt v (decode_variant_full fmt v fuel) typ o (o + 4) ≡ got x n
      → n ≡ o + 4 + length body
      → decode_variant_full fmt v (suc fuel) o ≡ got x (o + length (le_bytes 4 typ ++ body))
  whole_value typ fuel n o body x h at e end =
      by_type typ fuel o body h at ∙ e ∙ ap (got x) (omega (arith, end, length-le4 typ body))
