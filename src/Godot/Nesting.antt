-- ===== src/Godot/Nesting.antt =====
-- variant.go: a variant nests no deeper than its bytes allow, and no read of it leaves the slice.
use gta.Base.{ℕ, zero, suc, ◌+◌, ◌/◌, ◌%◌, ◌≤◌, ◌<◌, List, length, arith, eqb}
use gta.Godot.Buffer.{◌>>=◌, string, padded, Vbuf, Read, limit, u32}
use gta.Godot.Values.{Value, Entries, int, str, set_entry, Sprintf}
use gta.Godot.Variant.{
  Case, nil_case, bool_case, int_case, float_case, string_case, dictionary_case, array_case,
  vector2_case, byte_array_case, int32_array_case, string_array_case, other_case, case_of,
  decode_case, decode_variant_body, decode_variant_full, compressed_int, decode_by_meta,
  decode_variant_arg, read_many, read_entries, vector2, byte_array, is_wide, container_rounds,
  packed_rounds,
}
use gta.Godot.Bounds.{
  i16-Sound, unlimited-Sound, i8-Sound, payload-Sound, string_no_pad-Sound, f32-Sound, f64-Sound,
  i32-Sound, i64-Sound, u8-Sound, u32-Sound, Sound, moved, f32-Sound, f64-Sound, Sound-widen,
  Sound-bind, Sound-map_read, Sound-if, padded-Sound, limit-le,
}

pub read_many-Sound :
    {item : ℕ → Read Value} {most : ℕ} (least n o : ℕ)
    → ((o' : ℕ) → o ≤ o' → Sound o' most (item o'))
    → least ≤ o
    → o ≤ most
    → Sound least most (read_many item n o)
unfolding read_many
read_many-Sound least zero o each low high = moved low high
read_many-Sound least (suc n) o each low high =
    Sound-bind (each o (omega arith)) (λ x o' low' high'. Sound-map_read _ (
      read_many-Sound least n o' (λ o'' le. each o'' (omega (arith, low', le)))
        (omega (arith, low, low')) high'))

read_entries-Sound :
    {item : ℕ → Read Value} {most : ℕ} (shown : Value → List ℕ) (least n : ℕ) (d : Entries) (o : ℕ)
    → ((o' : ℕ) → o ≤ o' → Sound o' most (item o'))
    → least ≤ o
    → o ≤ most
    → Sound least most (read_entries shown item n d o)
unfolding read_entries
read_entries-Sound shown least zero d o each low high = moved low high
read_entries-Sound shown least (suc n) d o each low high =
    Sound-bind (each o (omega arith)) (λ k o' low' high'.
      Sound-bind (each o' low') (λ x o'' low'' high''.
        read_entries-Sound shown least n (set_entry (shown k) x d) o''
          (λ p le. each p (omega (arith, low', low'', le))) (omega (arith, low, low', low''))
          high''))

module _ (fmt : Sprintf) (v : Vbuf) where
  abbrev far_end : ℕ
  far_end = length v.b + 3

  within_limit :
      {A : Type 0} {least least' : ℕ} {r : Read A}
      → Sound least (limit v) r
      → least' ≤ least
      → Sound least' far_end r
  within_limit h le = Sound-widen h le (omega (arith, limit-le v))

  within_slice :
      {A : Type 0} {least least' : ℕ} {r : Read A}
      → Sound least (length v.b) r
      → least' ≤ least
      → Sound least' far_end r
  within_slice h le = Sound-widen h le (omega arith)

  padded_top :
      {A : Type 0} {least least' : ℕ} {r : Read A} (start : ℕ)
      → Sound least (limit v) r
      → least' ≤ least
      → Sound least' far_end (padded start r)
  padded_top start h le = Sound-widen (padded-Sound start h) le (omega (arith, limit-le v))

  -- A count and what it counts.
  counted :
      {A : Type 0} {most : ℕ} (o : ℕ) {f : ℕ → ℕ → Read A}
      → ((cnt o' : ℕ) → o + 4 ≤ o' → o' ≤ limit v → Sound o most (f cnt o'))
      → Sound o most (u32 v o >>= f)
  counted o k = Sound-bind (u32-Sound v o) (λ cnt o' low high. k cnt o' low high)

  decode_case-Sound :
      (nested : ℕ → Read Value) (c : Case) (typ start o : ℕ)
      → o ≤ far_end
      → ((o' : ℕ) → o + 4 ≤ o' → Sound o' far_end (nested o'))
      → Sound o far_end (decode_case fmt v nested c typ start o)
  unfolding decode_case vector2 byte_array string
  decode_case-Sound nested nil_case typ start o h each = moved (omega arith) h
  decode_case-Sound nested bool_case typ start o h each =
      padded_top start (Sound-map_read _ (u8-Sound v o)) (omega arith)
  decode_case-Sound nested int_case typ start o h each = Sound-map_read int (
      Sound-if (is_wide typ) (λ e. within_slice (i64-Sound v o) (omega arith))
        (λ e. within_limit (i32-Sound v o) (omega arith)))
  decode_case-Sound nested float_case typ start o h each =
      Sound-if (is_wide typ) (λ e. Sound-map_read _ (within_slice (f64-Sound v o) (omega arith)))
        (λ e. Sound-map_read _ (within_slice (f32-Sound v o) (omega arith)))
  decode_case-Sound nested string_case typ start o h each =
      Sound-map_read str (padded_top start (string_no_pad-Sound v o) (omega arith))
  decode_case-Sound nested dictionary_case typ start o h each = counted o (λ cnt o' low high.
      Sound-map_read _ (
        read_entries-Sound fmt.shown o (container_rounds cnt) _ o'
          (λ p le. each p (omega (arith, low, le))) (omega (arith, low))
          (omega (arith, high, limit-le v))))
  decode_case-Sound nested array_case typ start o h each = counted o (λ cnt o' low high.
      Sound-map_read _ (
        read_many-Sound o (container_rounds cnt) o' (λ p le. each p (omega (arith, low, le)))
          (omega (arith, low)) (omega (arith, high, limit-le v))))
  decode_case-Sound nested vector2_case typ start o h each =
      Sound-bind (f32-Sound v o)
        (λ x o' low high. Sound-map_read _ (within_slice (f32-Sound v o') (omega (arith, low))))
  decode_case-Sound nested byte_array_case typ start o h each = counted o (λ n o' low high.
      padded_top start (Sound-map_read _ (payload-Sound v n o' high)) (omega (arith, low)))
  decode_case-Sound nested int32_array_case typ start o h each = counted o (λ n o' low high.
      padded_top start
        (Sound-map_read _ (
          read_many-Sound o (packed_rounds n) o'
            (λ p le. Sound-map_read int (Sound-widen (i32-Sound v p) (omega arith) (omega arith)))
            (omega (arith, low)) high))
        (omega arith))
  decode_case-Sound nested string_array_case typ start o h each = counted o (λ n o' low high.
      padded_top start
        (Sound-map_read _ (
          read_many-Sound o (packed_rounds n) o'
            (λ p le.
              Sound-map_read str
                (Sound-widen (string_no_pad-Sound v p) (omega arith) (omega arith)))
            (omega (arith, low)) high))
        (omega arith))
  decode_case-Sound nested other_case typ start o h each = moved (omega arith) h

  -- Reading a variant with fuel for the bytes that are left ends on every input: without a panic,
  -- without running out of fuel, and where it succeeds it has taken the four bytes of the type at
  -- least and stands at most three bytes, the padding, behind the end of the slice.
  pub decode_variant_full-Sound :
      (fuel o : ℕ)
      → length v.b < o + fuel
      → 0 < fuel
      → Sound (o + 4) (length v.b + 3) (decode_variant_full fmt v fuel o)
  unfolding decode_variant_full decode_variant_body
  decode_variant_full-Sound zero o enough pos = absurd (omega arith)
  decode_variant_full-Sound (suc fuel) o enough pos = Sound-bind (u32-Sound v o) (λ typ o' low high.
      Sound-widen
        (decode_case-Sound (decode_variant_full fmt v fuel) (case_of (typ % 65536)) typ o o'
          (omega (arith, high, limit-le v))
          (λ p le.
            Sound-widen
              (decode_variant_full-Sound fuel p (omega (arith, enough, le, low))
                (omega (arith, enough, le, low, high, limit-le v)))
              (omega arith) (omega arith)))
        low (omega arith))

  compressed_int-Sound : (meta o : ℕ) → Sound (o + 1) far_end (compressed_int fmt v meta o)
  unfolding compressed_int
  compressed_int-Sound meta o =
      Sound-if (eqb (meta / 64) 0) (λ e. within_limit (i8-Sound v o) (omega arith))
        (λ e.
          Sound-if (eqb (meta / 64) 1) (λ e'. within_limit (i16-Sound v o) (omega arith))
            (λ e'.
              Sound-if (eqb (meta / 64) 2) (λ e''. within_limit (i32-Sound v o) (omega arith))
                (λ e''. within_slice (i64-Sound v o) (omega arith))))

  -- The same for an argument of a remote call, which takes a byte at least.
  pub decode_variant_arg-Sound :
      (fuel o : ℕ)
      → length v.b < o + fuel
      → 0 < fuel
      → Sound (o + 1) (length v.b + 3) (decode_variant_arg fmt v fuel o)
  unfolding decode_variant_arg decode_by_meta
  decode_variant_arg-Sound fuel o enough pos =
      Sound-bind (unlimited-Sound v 1 o) (λ meta o' low high.
        Sound-if (eqb (meta % 64) 1) (λ e. moved (omega arith) (omega (arith, low, high)))
          (λ e.
            Sound-if (eqb (meta % 64) 2)
              (λ e'.
                Sound-map_read int
                  (Sound-widen (compressed_int-Sound meta (o + 1)) (omega arith) (omega arith)))
              (λ e'.
                Sound-widen (decode_variant_full-Sound fuel o enough pos) (omega arith)
                  (omega arith))))
