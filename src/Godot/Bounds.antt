-- ===== src/Godot/Bounds.antt =====
-- variant.go: every reader ends, stays inside of the slice and moves the offset on.
use gta.Base.{
  ℕ, zero, suc, ◌+◌, ◌-◌, ◌≤◌, ◌≡◌, refl, Bool, true, false, List, length, arith, leb, ltb,
  if◌then◌else◌, if_elim, Option,
}
use gta.Godot.Buffer.{
  Vbuf, Read, got, fails, ◌>>=◌, map_read, u8, u16, u32, i8, i16, i32, i64, f32, f64, payload,
  string_no_pad, padded, unlimited, take_bytes, limit, remaining, slice, or_panic, fixed, skip_pad,
  skip_loop, signed, little_endian,
}

-- The read ends without a panic, and where it succeeds the offset is between the two.
pub data Sound {ℓ} {A : Type ℓ} (least most : ℕ) : Read A → Type ℓ where
  moved : {a : A} {o : ℕ} → least ≤ o → o ≤ most → Sound least most (got a o)
  failed : Sound least most fails

module _ {ℓ} {A : Type ℓ} where
  pub Sound-widen :
      {least least' most most' : ℕ} {r : Read A}
      → Sound least most r
      → least' ≤ least
      → most ≤ most'
      → Sound least' most' r
  Sound-widen (moved low high) le le' = moved (omega arith) (omega arith)
  Sound-widen failed le le' = failed

  pub Sound-bind {κ} :
      {B : Type κ} {least most least' most' : ℕ} {r : Read A} {f : A → ℕ → Read B}
      → Sound least most r
      → ((a : A) (o : ℕ) → least ≤ o → o ≤ most → Sound least' most' (f a o))
      → Sound least' most' (r >>= f)
  Sound-bind (moved {a} {o} low high) k = k a o low high
  Sound-bind failed k = failed

  pub Sound-map_read {κ} :
      {B : Type κ} {least most : ℕ} (f : A → B) {r : Read A}
      → Sound least most r
      → Sound least most (map_read f r)
  Sound-map_read f (moved low high) = moved low high
  Sound-map_read f failed = failed

  pub Sound-if :
      {least most : ℕ} (b : Bool) {r s : Read A}
      → (b ≡ true → Sound least most r)
      → (b ≡ false → Sound least most s)
      → Sound least most (if b then r else s)
  Sound-if true p q = p refl
  Sound-if false p q = q refl

skip_loop-Bounds : (n o total : ℕ) → (o ≤ skip_loop n o total) × (skip_loop n o total ≤ o + n)
unfolding skip_loop
skip_loop-Bounds zero o total = omega arith
skip_loop-Bounds (suc n) o total = ground (arith, skip_loop-Bounds n (o + 1) (total + 1))

pub padded-Sound {ℓ} :
    {A : Type ℓ} (start : ℕ) {least most : ℕ} {r : Read A}
    → Sound least most r
    → Sound least (most + 3) (padded start r)
unfolding padded skip_pad
padded-Sound start (moved {a} {o} low high) =
    moved (omega (arith, skip_loop-Bounds 3 o (o - start)))
      (omega (arith, skip_loop-Bounds 3 o (o - start)))
padded-Sound start failed = failed

module _ (v : Vbuf) where
  pub limit-le : limit v ≤ length v.b
  unfolding limit
  limit-le = ground arith

  take_bytes-Sound : (n o : ℕ) → o + n ≤ length v.b → Sound (o + n) (o + n) (take_bytes v n o)
  unfolding take_bytes slice
  take_bytes-Sound n o h =
      if_elim (λ (s : Option (List ℕ)). Sound (o + n) (o + n) (or_panic s (o + n)))
        (leb (o + n) (length v.b)) _ _ (λ e. moved (omega arith) (omega arith))
        (λ e. absurd (ground (arith, e, h)))

  pub fixed-Sound : (bound n o : ℕ) → bound ≤ length v.b → Sound (o + n) bound (fixed v bound n o)
  unfolding fixed
  fixed-Sound bound n o h =
      Sound-if (ltb bound (o + n)) (λ e. failed)
        (λ e. Sound-map_read little_endian (
          Sound-widen (take_bytes-Sound n o (ground (arith, e, h))) (omega arith)
            (ground (arith, e))))

  pub payload-Sound : (n o : ℕ) → o ≤ limit v → Sound (o + n) (limit v) (payload v n o)
  unfolding payload remaining
  payload-Sound n o h =
      Sound-if (ltb (limit v - o) n) (λ e. failed)
        (λ e.
          Sound-widen (take_bytes-Sound n o (ground (arith, e, h, limit-le))) (omega arith)
            (ground (arith, e, h)))

  pub u8-Sound : (o : ℕ) → Sound (o + 1) (limit v) (u8 v o)
  unfolding u8
  u8-Sound o = fixed-Sound (limit v) 1 o limit-le

  pub u16-Sound : (o : ℕ) → Sound (o + 2) (limit v) (u16 v o)
  unfolding u16
  u16-Sound o = fixed-Sound (limit v) 2 o limit-le

  pub u32-Sound : (o : ℕ) → Sound (o + 4) (limit v) (u32 v o)
  unfolding u32
  u32-Sound o = fixed-Sound (limit v) 4 o limit-le

  pub unlimited-Sound : (n o : ℕ) → Sound (o + n) (length v.b) (unlimited v n o)
  unfolding unlimited
  unlimited-Sound n o = fixed-Sound (length v.b) n o (omega arith)

  pub string_no_pad-Sound : (o : ℕ) → Sound (o + 4) (limit v) (string_no_pad v o)
  unfolding string_no_pad
  string_no_pad-Sound o =
      Sound-bind (u32-Sound o)
        (λ n o' low high. Sound-widen (payload-Sound n o' high) (omega (arith, low)) (omega arith))

  pub i8-Sound : (o : ℕ) → Sound (o + 1) (limit v) (i8 v o)
  unfolding i8
  i8-Sound o = Sound-map_read (signed 128) (u8-Sound o)

  pub i16-Sound : (o : ℕ) → Sound (o + 2) (limit v) (i16 v o)
  unfolding i16
  i16-Sound o = Sound-map_read (signed 32768) (u16-Sound o)

  pub i32-Sound : (o : ℕ) → Sound (o + 4) (limit v) (i32 v o)
  unfolding i32
  i32-Sound o = Sound-map_read (signed 2147483648) (u32-Sound o)

  pub i64-Sound : (o : ℕ) → Sound (o + 8) (length v.b) (i64 v o)
  unfolding i64
  i64-Sound o = Sound-map_read (signed 9223372036854775808) (unlimited-Sound 8 o)

  pub f32-Sound : (o : ℕ) → Sound (o + 4) (length v.b) (f32 v o)
  unfolding f32
  f32-Sound o = unlimited-Sound 4 o

  pub f64-Sound : (o : ℕ) → Sound (o + 8) (length v.b) (f64 v o)
  unfolding f64
  f64-Sound o = unlimited-Sound 8 o
