-- ===== src/Godot/Variant.antt =====
-- variant.go: the readers of a variant. The fuel bounds the nesting.
use gta.Base.{
  ◌||◌, string_eq, ℕ, zero, suc, ◌+◌, ◌/◌, ◌%◌, Bool, not, List, min, leb, ltb, eqb, if◌then◌else◌,
}
use gta.Godot.Buffer.{
  ℤ, Vbuf, Read, got, stuck, ◌>>=◌, map_read, u8, u32, i8, i16, i32, i64, f32, f64, payload, string,
  string_no_pad, padded, unlimited,
}
use gta.Godot.Values.{
  Value, nil, bool, int, single, rounded, double, str, dict, arr, Values, empty, cons, Entries,
  no_entries, set_entry, Sprintf,
}

-- The loops over `n` elements, with what one element is read by.
unfoldable pub read_many : (ℕ → Read Value) → ℕ → ℕ → Read Values
read_many item zero o = got empty o
read_many item (suc n) o = item o >>= λ x o'. map_read (cons x) (read_many item n o')

unfoldable pub read_entries : (Value → List ℕ) → (ℕ → Read Value) → ℕ → Entries → ℕ → Read Entries
unfolding set_entry
read_entries shown item zero d o = got d o
read_entries shown item (suc n) d o =
    item o >>= λ k o'. item o' >>= λ x o''. read_entries shown item n (set_entry (shown k) x d) o''

-- `i < cnt && cnt < 100000`, the rounds of a container.
abbrev pub container_rounds : ℕ → ℕ
container_rounds cnt = if ltb cnt 100000 then cnt else 0

-- `i < n && i < 100000`, the rounds of a packed array.
abbrev pub packed_rounds : ℕ → ℕ
packed_rounds n = min n 100000

-- Two floats, each rounded.
unfoldable pub vector2 : Vbuf → ℕ → Read Value
unfolding f32
vector2 v o =
    f32 v o >>= λ x o'. map_read (λ y. arr (cons (rounded x) (cons (rounded y) empty))) (f32 v o')

-- The bytes are passed over: only their number is told.
unfoldable pub byte_array : Sprintf → Vbuf → ℕ → ℕ → Read Value
unfolding payload
byte_array fmt v n o = map_read (λ _. str (fmt.bytes_of n)) (payload v n o)

-- ENCODE_FLAG_64.
abbrev pub is_wide : ℕ → Bool
is_wide typ = eqb ((typ / 65536) % 2) 1

-- The cases of the switch on the type.
pub data Case : Type 0 where
  nil_case bool_case int_case float_case string_case dictionary_case array_case vector2_case : Case
  byte_array_case int32_array_case string_array_case other_case : Case

unfoldable pub case_of : ℕ → Case
case_of base =
    if eqb base 0
    then nil_case
    else if eqb base 1
    then bool_case
    else if eqb base 2
    then int_case
    else if eqb base 3
    then float_case
    else if eqb base 4 || eqb base 21 || eqb base 22
    then string_case
    else if eqb base 27
    then dictionary_case
    else if eqb base 28
    then array_case
    else if eqb base 5
    then vector2_case
    else if eqb base 19
    then byte_array_case
    else if eqb base 30
    then int32_array_case
    else if eqb base 34
    then string_array_case
    else other_case

module _ (fmt : Sprintf) (v : Vbuf) where
  -- What each case does, with the reader of a nested value.
  unfoldable pub decode_case : (ℕ → Read Value) → Case → ℕ → ℕ → ℕ → Read Value
  unfolding u8 u32 i32 i64 f32 f64 string string_no_pad padded byte_array vector2 read_many
      read_entries
  decode_case nested nil_case typ start o = got nil o
  decode_case nested bool_case typ start o =
      padded start (map_read (λ b. bool (not (eqb b 0))) (u8 v o))
  decode_case nested int_case typ start o = map_read int (if is_wide typ then i64 v o else i32 v o)
  decode_case nested float_case typ start o =
      if is_wide typ then map_read double (f64 v o) else map_read single (f32 v o)
  decode_case nested string_case typ start o = map_read str (string v start o)
  decode_case nested dictionary_case typ start o = u32 v o >>= λ cnt o'.
      map_read dict (read_entries fmt.shown nested (container_rounds cnt) no_entries o')
  decode_case nested array_case typ start o =
      u32 v o >>= λ cnt o'. map_read arr (read_many nested (container_rounds cnt) o')
  decode_case nested vector2_case typ start o = vector2 v o
  decode_case nested byte_array_case typ start o =
      u32 v o >>= λ n o'. padded start (byte_array fmt v n o')
  decode_case nested int32_array_case typ start o = u32 v o >>= λ n o'.
      padded start (map_read arr (read_many (λ i. map_read int (i32 v i)) (packed_rounds n) o'))
  decode_case nested string_array_case typ start o = u32 v o >>= λ n o'.
      padded start
        (map_read arr (read_many (λ i. map_read str (string_no_pad v i)) (packed_rounds n) o'))
  decode_case nested other_case typ start o = got (str (fmt.type_of typ)) o

  unfoldable pub decode_variant_body : (ℕ → Read Value) → ℕ → ℕ → ℕ → Read Value
  unfolding decode_case case_of
  decode_variant_body nested typ start o = decode_case nested (case_of (typ % 65536)) typ start o

  unfoldable pub decode_variant_full : ℕ → ℕ → Read Value
  unfolding u32 decode_variant_body
  decode_variant_full zero o = stuck
  decode_variant_full (suc fuel) o =
      u32 v o >>= λ typ o'. decode_variant_body (decode_variant_full fuel) typ o o'

  -- An integer in the compressed form, whose width stands in the first byte.
  unfoldable pub compressed_int : ℕ → ℕ → Read ℤ
  unfolding i8 i16 i32 i64
  compressed_int meta o =
      if eqb (meta / 64) 0
      then i8 v o
      else if eqb (meta / 64) 1
      then i16 v o
      else if eqb (meta / 64) 2
      then i32 v o
      else i64 v o

  -- By the first byte, which the full form does not consume.
  unfoldable pub decode_by_meta : (ℕ → Read Value) → ℕ → ℕ → Read Value
  unfolding compressed_int
  decode_by_meta full meta o =
      if eqb (meta % 64) 1
      then got (bool (leb 128 meta)) (o + 1)
      else if eqb (meta % 64) 2
      then map_read int (compressed_int meta (o + 1))
      else full o

  unfoldable pub decode_variant_arg : ℕ → ℕ → Read Value
  unfolding decode_by_meta decode_variant_full unlimited
  decode_variant_arg fuel o =
      unlimited v 1 o >>= λ meta _. decode_by_meta (decode_variant_full fuel) meta o
