-- ===== src/Godot/Oversized.antt =====
-- variant.go: a container that says it has 100000 items or more.
use gta.Base.{
  if◌then◌else◌, Bool, true, false, Bool, ℕ, suc, ◌+◌, ◌≤◌, ◌<◌, ◌^◌, ◌≡◌, ◌∙◌, refl, ◌++◌, arith,
}
use gta.Godot.Buffer.{Vbuf, Read, got}
use gta.Godot.Values.{Value, arr, dict, empty, no_entries, Sprintf}
use gta.Godot.Variant.{
  decode_variant_full, decode_variant_body, decode_case, case_of, read_many, read_entries,
  container_rounds,
}
use gta.Godot.Layout.{le_bytes}
use gta.Godot.Reading.{At, u32-At}
use gta.Godot.Cases.{At-tail, by_type}

no_rounds : (n : ℕ) → 100000 ≤ n → container_rounds n ≡ 0
no_rounds n h = ground (arith, h)

module _ (fmt : Sprintf) (v : Vbuf) where
  array_skipped :
      (nested : ℕ → Read Value) (cnt o : ℕ)
      → 100000 ≤ cnt
      → cnt < 256 ^ 4
      → At v (o + 4) (le_bytes 4 cnt)
      → decode_variant_body fmt v nested 28 o (o + 4) ≡ got (arr empty) (o + 4 + 4)
  unfolding decode_variant_body decode_case case_of read_many
  array_skipped nested cnt o big h at = rw (u32-At cnt h at, no_rounds cnt big) refl

  dictionary_skipped :
      (nested : ℕ → Read Value) (cnt o : ℕ)
      → 100000 ≤ cnt
      → cnt < 256 ^ 4
      → At v (o + 4) (le_bytes 4 cnt)
      → decode_variant_body fmt v nested 27 o (o + 4) ≡ got (dict no_entries) (o + 4 + 4)
  unfolding decode_variant_body decode_case case_of read_entries
  dictionary_skipped nested cnt o big h at = rw (u32-At cnt h at, no_rounds cnt big) refl

-- An array or a dictionary whose count is 100000 or more is read, with success, as an empty one, and
-- the reader stops in front of its first item, which whoever reads next takes for a value of theirs.
pub oversized_is_empty :
    (fmt : Sprintf) (v : Vbuf) (is_dictionary : Bool) (cnt fuel o : ℕ)
    → 100000 ≤ cnt
    → cnt < 256 ^ 4
    → At v o (le_bytes 4 (if is_dictionary then 27 else 28) ++ le_bytes 4 cnt)
    → decode_variant_full fmt v (suc fuel) o
      ≡ got (if is_dictionary then dict no_entries else arr empty) (o + 4 + 4)
oversized_is_empty fmt v true cnt fuel o big h at =
    by_type fmt v 27 fuel o (le_bytes 4 cnt) (omega arith) at
    ∙ dictionary_skipped fmt v (decode_variant_full fmt v fuel) cnt o big h (At-tail 27 _ at)
oversized_is_empty fmt v false cnt fuel o big h at =
    by_type fmt v 28 fuel o (le_bytes 4 cnt) (omega arith) at
    ∙ array_skipped fmt v (decode_variant_full fmt v fuel) cnt o big h (At-tail 28 _ at)
