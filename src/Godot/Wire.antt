-- ===== src/Godot/Wire.antt =====
-- wire.go: the registry of paths and the readers of one value by its wire type.
use gta.Base.{
  ℕ, zero, suc, ◌+◌, not, Option, none, some, List, [], ◌∷◌, length, ltb, eqb, if◌then◌else◌,
  nat_eq, ascii,
}
use gta.Base.Dict.{Dict, insert, lookup}
use gta.Godot.Buffer.{
  remaining, Vbuf, Read, got, fails, ◌>>=◌, map_read, u8, u16, u32, i8, i16, i32, i64, f32, f64,
  payload, string_no_pad, unlimited, pos,
}
use gta.Godot.Values.{Value, bool, int, uint, single, double, str, Sprintf}
use gta.Godot.Variant.{vector2, byte_array, decode_variant_full}
use gta.Godot.Half.{half_to_single}

-- The constants of Wire.Type; 15, 16 and all from 20 on are no type.
pub data WireType : Type 0 where
  variant_type bool_type u8_type u16_type u32_type u64_type s8_type s16_type : WireType
  s32_type s64_type f16_type f32_type f64_type str16_type str32_type : WireType
  bytes16_type bytes32_type vec2_type unknown_type : WireType

abbrev wire_types : List WireType
wire_types =
    variant_type ∷ bool_type ∷ u8_type ∷ u16_type ∷ u32_type ∷ u64_type ∷ s8_type ∷ s16_type
    ∷ s32_type ∷ s64_type ∷ f16_type ∷ f32_type ∷ f64_type ∷ str16_type ∷ str32_type ∷ unknown_type
    ∷ unknown_type ∷ bytes16_type ∷ bytes32_type ∷ vec2_type ∷ []

unfoldable pub at_index : List WireType → ℕ → WireType
at_index [] n = unknown_type
at_index (t ∷ ts) zero = t
at_index (t ∷ ts) (suc n) = at_index ts n

abbrev pub wire_type : ℕ → WireType
unfolding at_index
wire_type = at_index wire_types

pub record PathField : Type 0 where
  pub path : List ℕ
  pub wt : ℕ

abbrev pub PathRegistry : Type 0
PathRegistry = Dict ℕ PathField

unfoldable pub set_path : ℕ → List ℕ → ℕ → PathRegistry → PathRegistry
unfolding insert
set_path pid path wt r = insert pid (record { path = path; wt = wt }) r

unfoldable pub new_path_registry : PathRegistry
unfolding set_path ascii
new_path_registry = set_path 13 (ascii "StatsComponent:stats:mana_max") 11 (
    set_path 12 (ascii "StatsComponent:stats:mana") 11 (
      set_path 11 (ascii "StatsComponent:stats:health_max") 11 (
        set_path 10 (ascii "StatsComponent:stats:health") 11 (
          set_path 9 (ascii "EquipmentComponent:mainhand_id") 3 (
            set_path 8 (ascii ":zone_flags") 3 (
              set_path 7 (ascii ":skin_id") 3 (
                set_path 6 (ascii ":display_name") 0 (
                  set_path 5 (ascii ":scale") 19 (
                    set_path 4 (ascii ":pivot") 10 (
                      set_path 3 (ascii ":anim") 2 (
                        set_path 2 (ascii ":flipped") 1
                          (set_path 1 (ascii ":position") 19 []))))))))))))

unfoldable pub known_or : ℕ → Sprintf → Option PathField → PathField
known_or pid fmt (some f) = f
known_or pid fmt none = record { path = fmt.pid_of pid; wt = 0 }

unfoldable pub field : Sprintf → PathRegistry → ℕ → PathField
unfolding known_or lookup
field fmt r pid = known_or pid fmt (lookup pid r)

module _ (fmt : Sprintf) (v : Vbuf) where
  -- After the value the offset is where the size says, in the slice.
  unfoldable pub at_size : ℕ → ℕ → Read Value → Read Value
  at_size start size r =
      r >>= λ val _. got val (if ltb (length v.b) (start + size) then length v.b else start + size)

  unfoldable pub decode_put_var : ℕ → ℕ → Read Value
  unfolding u32 remaining at_size decode_variant_full
  decode_put_var fuel o = u32 v o >>= λ size start.
      if ltb (remaining v start) size
      then fails
      else at_size start size (decode_variant_full fmt v fuel start)

  unfoldable pub read_typed : ℕ → WireType → ℕ → ℕ → Read Value
  unfolding decode_put_var u8 u16 u32 i8 i16 i32 i64 f32 f64 string_no_pad unlimited vector2
      byte_array payload half_to_single
  read_typed fuel variant_type wt o = decode_put_var fuel o
  read_typed fuel bool_type wt o = map_read (λ b. bool (not (eqb b 0))) (u8 v o)
  read_typed fuel u8_type wt o = map_read (λ x. int (pos x)) (u8 v o)
  read_typed fuel u16_type wt o = map_read (λ x. int (pos x)) (u16 v o)
  read_typed fuel u32_type wt o = map_read (λ x. int (pos x)) (u32 v o)
  read_typed fuel u64_type wt o = map_read uint (unlimited v 8 o)
  read_typed fuel s8_type wt o = map_read int (i8 v o)
  read_typed fuel s16_type wt o = map_read int (i16 v o)
  read_typed fuel s32_type wt o = map_read int (i32 v o)
  read_typed fuel s64_type wt o = map_read int (i64 v o)
  read_typed fuel f16_type wt o = map_read (λ h. single (half_to_single h)) (unlimited v 2 o)
  read_typed fuel f32_type wt o = map_read single (f32 v o)
  read_typed fuel f64_type wt o = map_read double (f64 v o)
  read_typed fuel str16_type wt o = u16 v o >>= λ n o'. map_read str (payload v n o')
  read_typed fuel str32_type wt o = map_read str (string_no_pad v o)
  read_typed fuel bytes16_type wt o = u16 v o >>= λ n o'. byte_array fmt v n o'
  read_typed fuel bytes32_type wt o = u32 v o >>= λ n o'. byte_array fmt v n o'
  read_typed fuel vec2_type wt o = vector2 v o
  read_typed fuel unknown_type wt o = got (str (fmt.wire_type_of wt)) o

  unfoldable pub decode_wire_value : ℕ → ℕ → ℕ → Read Value
  unfolding read_typed
  decode_wire_value fuel wt o = read_typed fuel (wire_type wt) wt o
