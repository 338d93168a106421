-- ===== src/Godot/Reading.antt =====
-- variant.go: what the primitive reads answer where the bytes of a number stand.
use gta.Base.{
  ℕ, zero, suc, ◌+◌, ◌-◌, ◌/◌, ◌≤◌, ◌<◌, ◌^◌, ◌≡◌, ◌∙◌, refl, ap, sym, subst, List, [], ◌∷◌, ◌++◌,
  length, take, drop, append_assoc, length-append, take-append_length, drop-append_length, arith,
  leb, ltb, Option, if_elim,
}
use gta.Godot.Buffer.{
  Vbuf, got, map_read, or_panic, limit, slice, take_bytes, little_endian, fixed, u8, u32, f32,
  unlimited, payload, remaining, skip_pad, skip_loop,
}
use gta.Godot.Bounds.{limit-le}
use gta.Godot.Layout.{le_bytes, zeros, gap}

-- The bytes `xs` stand at the offset `o`, before the limit.
pub record At (v : Vbuf) (o : ℕ) (xs : List ℕ) : Type 0 where
  pub front : List ℕ
  pub rest : List ℕ
  pub bytes : v.b ≡ front ++ (xs ++ rest)
  pub offset : o ≡ length front
  pub fits : o + length xs ≤ limit v

module _ {v : Vbuf} {o : ℕ} (xs ys : List ℕ) where
  pub At-first : At v o (xs ++ ys) → At v o xs
  At-first h = record {
    front = h.front;
    rest = ys ++ h.rest;
    bytes = subst (λ z. v.b ≡ h.front ++ z) (append_assoc xs ys h.rest) h.bytes;
    offset = h.offset;
    fits = omega (arith, h.fits, length-append xs ys);
  }

  pub At-second : At v o (xs ++ ys) → At v (o + length xs) ys
  At-second h = record {
    front = h.front ++ xs;
    rest = h.rest;
    bytes =
        subst (λ z. v.b ≡ z) (sym (append_assoc h.front xs (ys ++ h.rest)))
          (subst (λ z. v.b ≡ h.front ++ z) (append_assoc xs ys h.rest) h.bytes);
    offset = omega (arith, h.offset, length-append h.front xs);
    fits = omega (arith, h.fits, length-append xs ys);
  }

module _ {v : Vbuf} {o : ℕ} {xs : List ℕ} (h : At v o xs) where
  cut : take (length xs) (drop o v.b) ≡ xs
  cut =
      subst (λ (b : List ℕ). take (length xs) (drop o b) ≡ xs) (sym h.bytes)
        (subst (λ (n : ℕ). take (length xs) (drop n (h.front ++ (xs ++ h.rest))) ≡ xs)
          (sym h.offset)
          (subst (λ (z : List ℕ). take (length xs) z ≡ xs)
            (sym (drop-append_length h.front (xs ++ h.rest))) (take-append_length xs h.rest)))

  pub take_bytes-At : take_bytes v (length xs) o ≡ got xs (o + length xs)
  unfolding take_bytes slice
  take_bytes-At =
      if_elim (λ (s : Option (List ℕ)). or_panic s (o + length xs) ≡ got xs (o + length xs))
        (leb (o + length xs) (length v.b)) _ _ (λ e. ap (λ z. got z (o + length xs)) cut)
        (λ e. absurd (ground (arith, e, h.fits, limit-le v)))

  pub fixed-At :
      (bound n : ℕ)
      → length xs ≡ n
      → limit v ≤ bound
      → fixed v bound n o ≡ got (little_endian xs) (o + n)
  unfolding fixed
  fixed-At bound n e le =
      subst (λ m. fixed v bound m o ≡ got (little_endian xs) (o + m)) e
        (if_elim (λ r. r ≡ got (little_endian xs) (o + length xs)) (ltb bound (o + length xs)) _ _
          (λ t. absurd (ground (arith, t, h.fits, le)))
          (λ t. ap (map_read little_endian) take_bytes-At))

pub length-le_bytes : (n x : ℕ) → length (le_bytes n x) ≡ n
unfolding le_bytes
length-le_bytes zero x = refl
length-le_bytes (suc n) x = ap suc (length-le_bytes n (x / 256))

le_bytes4 : (x : ℕ) → x < 256 ^ 4 → little_endian (le_bytes 4 x) ≡ x
unfolding little_endian le_bytes
le_bytes4 x h = omega (arith, h)

le_bytes8 : (x : ℕ) → x < 256 ^ 8 → little_endian (le_bytes 8 x) ≡ x
unfolding little_endian le_bytes
le_bytes8 x h = omega (arith, h)

module _ {v : Vbuf} {o : ℕ} where
  pub u32-At : (x : ℕ) → x < 256 ^ 4 → At v o (le_bytes 4 x) → u32 v o ≡ got x (o + 4)
  unfolding u32
  u32-At x h at =
      fixed-At at (limit v) 4 (length-le_bytes 4 x) (omega arith)
      ∙ ap (λ z. got z (o + 4)) (le_bytes4 x h)

  pub f32-At : (x : ℕ) → x < 256 ^ 4 → At v o (le_bytes 4 x) → f32 v o ≡ got x (o + 4)
  unfolding f32 unlimited
  f32-At x h at =
      fixed-At at (length v.b) 4 (length-le_bytes 4 x) (limit-le v)
      ∙ ap (λ z. got z (o + 4)) (le_bytes4 x h)

  pub unlimited-At : (x : ℕ) → x < 256 ^ 8 → At v o (le_bytes 8 x) → unlimited v 8 o ≡ got x (o + 8)
  unfolding unlimited
  unlimited-At x h at =
      fixed-At at (length v.b) 8 (length-le_bytes 8 x) (limit-le v)
      ∙ ap (λ z. got z (o + 8)) (le_bytes8 x h)

  pub u8-At : (x : ℕ) → At v o (x ∷ []) → u8 v o ≡ got x (o + 1)
  unfolding u8 little_endian
  u8-At x at = fixed-At at (limit v) 1 refl (omega arith) ∙ ap (λ z. got z (o + 1)) (omega arith)

  pub payload-At : (s : List ℕ) → At v o s → payload v (length s) o ≡ got s (o + length s)
  unfolding payload remaining
  payload-At s at =
      if_elim (λ r. r ≡ got s (o + length s)) (ltb (limit v - o) (length s)) _ _
        (λ t. absurd (ground (arith, t, at.fits))) (λ t. take_bytes-At at)

-- The padding of a text whose length stands four bytes behind the type.
pub skip_pad-gap :
    (start n : ℕ) → skip_pad (start + 4 + 4 + n) start ≡ start + 4 + (4 + (n + gap n))
unfolding skip_pad skip_loop
skip_pad-gap start n = ground arith

pub length-zeros : (n : ℕ) → length (zeros n) ≡ n
unfolding zeros
length-zeros zero = refl
length-zeros (suc n) = ap suc (length-zeros n)
