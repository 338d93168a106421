-- ===== src/Godot/Payloads.antt =====
-- wire.go: the state payloads are read without a panic, whatever the bytes and the registry are.
use gta.Base.{ℕ, zero, suc, ◌+◌, ◌%◌, ◌≤◌, ◌<◌, List, length, min, arith, ltb}
use gta.Godot.Buffer.{Vbuf, Read, ◌>>=◌, u8, u16, u32, string_no_pad, remaining, limit}
use gta.Godot.Values.{Value, Sprintf}
use gta.Godot.Variant.{vector2, byte_array}
use gta.Godot.Wire.{
  PathRegistry, WireType, variant_type, bool_type, u8_type, u16_type, u32_type, u64_type, s8_type,
  s16_type, s32_type, s64_type, f16_type, f32_type, f64_type, str16_type, str32_type, bytes16_type,
  bytes32_type, vec2_type, unknown_type, at_size, decode_put_var, read_typed, decode_wire_value,
}
use gta.Godot.Blocks.{
  repeat, counted_list, MapUpdate, apply_map_updates, read_pair, decode_entity_block, read_update,
  read_objects, after_updates, read_spawn, read_container_pair, read_op, read_container, whole,
  decode_bootstrap, decode_delta, decode_container_block,
}
use gta.Godot.Bounds.{
  f64-Sound, f32-Sound, i64-Sound, i32-Sound, i16-Sound, i8-Sound, unlimited-Sound, payload-Sound,
  u8-Sound, u32-Sound, u16-Sound, string_no_pad-Sound, Sound, moved, failed, Sound-widen,
  Sound-bind, Sound-map_read, Sound-if, limit-le,
}
use gta.Godot.Nesting.{read_many-Sound, decode_variant_full-Sound}

repeat-Sound {ℓ} :
    {A : Type ℓ} {item : ℕ → Read A} {most : ℕ} (least n o : ℕ)
    → ((o' : ℕ) → o ≤ o' → o' ≤ most → Sound o' most (item o'))
    → least ≤ o
    → o ≤ most
    → Sound least most (repeat item n o)
unfolding repeat
repeat-Sound least zero o each low high = moved low high
repeat-Sound least (suc n) o each low high =
    Sound-bind (each o (omega arith) high) (λ x o' low' high'. Sound-map_read _ (
      repeat-Sound least n o' (λ p le. each p (omega (arith, low', le))) (omega (arith, low, low'))
        high'))

module _ (fmt : Sprintf) (v : Vbuf) where
  abbrev far_end : ℕ
  far_end = length v.b + 3

  u8_top : (o : ℕ) → Sound (o + 1) far_end (u8 v o)
  u8_top o = Sound-widen (u8-Sound v o) (omega arith) (omega (arith, limit-le v))

  u16_top : (o : ℕ) → Sound (o + 2) far_end (u16 v o)
  u16_top o = Sound-widen (u16-Sound v o) (omega arith) (omega (arith, limit-le v))

  u32_top : (o : ℕ) → Sound (o + 4) far_end (u32 v o)
  u32_top o = Sound-widen (u32-Sound v o) (omega arith) (omega (arith, limit-le v))

  string_top : (o : ℕ) → Sound (o + 4) far_end (string_no_pad v o)
  string_top o = Sound-widen (string_no_pad-Sound v o) (omega arith) (omega (arith, limit-le v))

  at_size-Sound :
      {least most : ℕ} (start size : ℕ) {r : Read Value}
      → Sound least most r
      → start ≤ length v.b
      → Sound start (length v.b) (at_size fmt v start size r)
  unfolding at_size
  at_size-Sound start size (moved low high) h = moved (ground (arith, h)) (ground (arith, h))
  at_size-Sound start size failed h = failed

  module _ (fuel : ℕ) (enough : length v.b < fuel) where
    decode_put_var-Sound : (o : ℕ) → Sound (o + 4) far_end (decode_put_var fmt v fuel o)
    unfolding decode_put_var
    decode_put_var-Sound o = Sound-bind (u32-Sound v o) (λ size start low high.
        Sound-if (ltb (remaining v start) size) (λ e. failed)
          (λ e.
            Sound-widen
              (at_size-Sound start size
                (decode_variant_full-Sound fmt v fuel start (omega (arith, enough))
                  (omega (arith, enough)))
                (omega (arith, high, limit-le v)))
              low (omega arith)))

    after_u16 :
        {A : Type 0} (o : ℕ) {f : ℕ → ℕ → Read A}
        → ((n o' : ℕ) → o + 2 ≤ o' → o' ≤ limit v → Sound o far_end (f n o'))
        → Sound o far_end (u16 v o >>= f)
    after_u16 o k = Sound-bind (u16-Sound v o) (λ n o' low high. k n o' low high)

    after_u32 :
        {A : Type 0} (o : ℕ) {f : ℕ → ℕ → Read A}
        → ((n o' : ℕ) → o + 4 ≤ o' → o' ≤ limit v → Sound o far_end (f n o'))
        → Sound o far_end (u32 v o >>= f)
    after_u32 o k = Sound-bind (u32-Sound v o) (λ n o' low high. k n o' low high)

    byte_array_top : (n o o' : ℕ) → o ≤ o' → o' ≤ limit v → Sound o far_end (byte_array fmt v n o')
    unfolding byte_array
    byte_array_top n o o' low high =
        Sound-map_read _
          (Sound-widen (payload-Sound v n o' high) (omega (arith, low)) (omega (arith, limit-le v)))

    read_typed-Sound :
        (t : WireType) (wt o : ℕ) → o ≤ far_end → Sound o far_end (read_typed fmt v fuel t wt o)
    unfolding read_typed vector2
    read_typed-Sound variant_type wt o h =
        Sound-widen (decode_put_var-Sound o) (omega arith) (omega arith)
    read_typed-Sound bool_type wt o h =
        Sound-map_read _ (Sound-widen (u8_top o) (omega arith) (omega arith))
    read_typed-Sound u8_type wt o h =
        Sound-map_read _ (Sound-widen (u8_top o) (omega arith) (omega arith))
    read_typed-Sound u16_type wt o h =
        Sound-map_read _ (Sound-widen (u16_top o) (omega arith) (omega arith))
    read_typed-Sound u32_type wt o h =
        Sound-map_read _ (Sound-widen (u32_top o) (omega arith) (omega arith))
    read_typed-Sound u64_type wt o h =
        Sound-map_read _ (Sound-widen (unlimited-Sound v 8 o) (omega arith) (omega arith))
    read_typed-Sound s8_type wt o h =
        Sound-map_read _ (Sound-widen (i8-Sound v o) (omega arith) (omega (arith, limit-le v)))
    read_typed-Sound s16_type wt o h =
        Sound-map_read _ (Sound-widen (i16-Sound v o) (omega arith) (omega (arith, limit-le v)))
    read_typed-Sound s32_type wt o h =
        Sound-map_read _ (Sound-widen (i32-Sound v o) (omega arith) (omega (arith, limit-le v)))
    read_typed-Sound s64_type wt o h =
        Sound-map_read _ (Sound-widen (i64-Sound v o) (omega arith) (omega arith))
    read_typed-Sound f16_type wt o h =
        Sound-map_read _ (Sound-widen (unlimited-Sound v 2 o) (omega arith) (omega arith))
    read_typed-Sound f32_type wt o h =
        Sound-map_read _ (Sound-widen (f32-Sound v o) (omega arith) (omega arith))
    read_typed-Sound f64_type wt o h =
        Sound-map_read _ (Sound-widen (f64-Sound v o) (omega arith) (omega arith))
    read_typed-Sound str16_type wt o h = after_u16 o (λ n o' low high.
        Sound-map_read _ (
          Sound-widen (payload-Sound v n o' high) (omega (arith, low)) (omega (arith, limit-le v))))
    read_typed-Sound str32_type wt o h =
        Sound-map_read _ (Sound-widen (string_top o) (omega arith) (omega arith))
    read_typed-Sound bytes16_type wt o h =
        after_u16 o (λ n o' low high. byte_array_top n o o' (omega (arith, low)) high)
    read_typed-Sound bytes32_type wt o h =
        after_u32 o (λ n o' low high. byte_array_top n o o' (omega (arith, low)) high)
    read_typed-Sound vec2_type wt o h = Sound-bind (f32-Sound v o) (λ x o' low high.
        Sound-map_read _ (Sound-widen (f32-Sound v o') (omega (arith, low)) (omega arith)))
    read_typed-Sound unknown_type wt o h = moved (omega arith) h

    counted_list-Sound {ℓ} :
        {A : Type ℓ} {item : ℕ → Read A} (o : ℕ)
        → ((o' : ℕ) → o' ≤ far_end → Sound o' far_end (item o'))
        → Sound (o + 2) far_end (counted_list v item o)
    unfolding counted_list
    counted_list-Sound o each =
        Sound-bind (u16_top o) (λ n o' low high.
          repeat-Sound (o + 2) (min n 100000) o' (λ p le le'. each p le') low high)

    read_pair-Sound :
        (r : PathRegistry) (fid o : ℕ)
        → o ≤ far_end
        → Sound o far_end (read_pair fmt v r fuel fid o)
    unfolding read_pair decode_wire_value
    read_pair-Sound r fid o h = Sound-map_read _ (read_typed-Sound _ _ o h)

    decode_entity_block-Sound :
        (r : PathRegistry) (o : ℕ) → Sound o far_end (decode_entity_block fmt v r fuel o)
    unfolding decode_entity_block
    decode_entity_block-Sound r o = after_u32 o (λ eid o' low high. Sound-map_read _ (
        Sound-widen
          (counted_list-Sound o' (λ p le. after_u16 p (λ pid q low' high'.
            Sound-widen (read_pair-Sound r pid q (omega (arith, high', limit-le v)))
              (omega (arith, low')) (omega arith))))
          (omega (arith, low)) (omega arith)))

    read_update-Sound : (o : ℕ) → Sound o far_end (read_update fmt v o)
    unfolding read_update
    read_update-Sound o = after_u16 o (λ pid o' low high.
        Sound-bind (string_top o') (λ path o'' low' high'.
          Sound-map_read _ (Sound-widen (u8_top o'') (omega (arith, low, low')) (omega arith))))

    read_objects-Sound :
        (r : PathRegistry) (o : ℕ) → Sound (o + 2) far_end (read_objects fmt v r fuel o)
    unfolding read_objects
    read_objects-Sound r o = counted_list-Sound o (λ p le. decode_entity_block-Sound r p)

    after_updates-Sound :
        (r : PathRegistry) {least : ℕ} {updates : Read (List MapUpdate)}
        → Sound least far_end updates
        → Sound (least + 2) far_end (after_updates fmt v r fuel updates).1
    unfolding after_updates
    after_updates-Sound r (moved {a = us} {o} low high) = Sound-map_read _ (
        Sound-widen (read_objects-Sound (apply_map_updates r us) o) (omega (arith, low))
          (omega arith))
    after_updates-Sound r failed = failed

    read_spawn-Sound : (o : ℕ) → Sound o far_end (read_spawn fmt v fuel o)
    unfolding read_spawn
    read_spawn-Sound o = after_u16 o (λ child o' low high.
        Sound-bind (u16_top o') (λ scene o'' low' high'.
          Sound-map_read _
            (Sound-widen (decode_put_var-Sound o'') (omega (arith, low, low')) (omega arith))))

    read_container_pair-Sound :
        (r : PathRegistry) (o : ℕ) → Sound o far_end (read_container_pair fmt v r fuel o)
    unfolding read_container_pair
    read_container_pair-Sound r o = after_u32 o (λ cpid o' low high. Sound-map_read _ (
        Sound-widen (read_pair-Sound r (cpid % 65536) o' (omega (arith, high, limit-le v)))
          (omega (arith, low)) (omega arith)))

    read_op-Sound : (o : ℕ) → Sound o far_end (read_op fmt v fuel o)
    unfolding read_op
    read_op-Sound o = after_u16 o (λ child o' low high.
        Sound-bind (string_top o') (λ method o'' low' high'.
          Sound-bind (u8_top o'') (λ argc p low'' high''. Sound-map_read _ (
            read_many-Sound o (min argc 64) p
              (λ q le. Sound-widen (decode_put_var-Sound q) (omega arith) (omega arith))
              (omega (arith, low, low', low'')) high''))))

    read_container-Sound :
        (r : PathRegistry) (o : ℕ) → Sound (o + 12) far_end (read_container fmt v r fuel o)
    unfolding read_container
    read_container-Sound r o = Sound-bind (u32_top o) (λ cid p l h.
        Sound-bind (counted_list-Sound p (λ q le. read_spawn-Sound q)) (λ spawns p' l' h'.
          Sound-bind (counted_list-Sound p' (λ q le. read_container_pair-Sound r q))
            (λ pairs p'' l'' h''.
              Sound-bind
                (counted_list-Sound p''
                  (λ q le. Sound-widen (u16_top q) (omega arith) (omega arith)))
                (λ despawns q m n. Sound-map_read _ (
                  Sound-widen (counted_list-Sound q (λ x le. read_op-Sound x))
                    (omega (arith, l, l', l'', m)) (omega arith))))))

-- On any bytes and with any registry the readers of a bootstrap, of a delta and of a container end
-- without a panic. Where they succeed they have taken the fixed part of the format, which is two
-- counts of two bytes, one such count, and four of them behind an id of four bytes, and they stand at
-- most three bytes behind the end of the payload.
pub payloads-Sound :
    (fmt : Sprintf) (r : PathRegistry) (b : List ℕ)
    → Sound 4 (length b + 3) (decode_bootstrap fmt r b).1
      × Sound 2 (length b + 3) (decode_delta fmt r b)
      × Sound 12 (length b + 3) (decode_container_block fmt r b)
unfolding decode_bootstrap decode_delta decode_container_block
payloads-Sound fmt r b = (
  after_updates-Sound fmt (whole b) (suc (length b)) (omega arith) r (
      counted_list-Sound fmt (whole b) (suc (length b)) (omega arith) 0
        (λ o le. read_update-Sound fmt (whole b) (suc (length b)) (omega arith) o)),
  read_objects-Sound fmt (whole b) (suc (length b)) (omega arith) r 0,
  read_container-Sound fmt (whole b) (suc (length b)) (omega arith) r 0,
)
