-- ===== src/Godot/Buffer.antt =====
-- variant.go: vbuf, the buffer that every reader of the plugin moves along. A read that Go would
-- make outside of the slice panics. `stuck` is no outcome of the program: a model that recurs ran
-- out of fuel.
use gta.Base.{
  ℕ, zero, suc, ◌+◌, ◌-◌, ◌*◌, ◌%◌, Option, none, some, List, [], ◌∷◌, ◌&&◌, length, take, drop,
  leb, ltb, eqb, if◌then◌else◌,
}

-- `b` and `end`; the offset `o` is passed along.
pub record Vbuf : Type 0 where
  pub b : List ℕ
  pub end : ℕ

-- Go's pair of a value and `true`, with the offset behind it, or `false`.
pub data Read {ℓ} (A : Type ℓ) : Type ℓ where
  got : A → ℕ → Read A
  fails panics stuck : Read A

module _ {ℓ κ} {A : Type ℓ} {B : Type κ} where
  infixl 5 ◌>>=◌
  abbrev pub ◌>>=◌ : Read A → (A → ℕ → Read B) → Read B
  got a o >>= f = f a o
  fails >>= f = fails
  panics >>= f = panics
  stuck >>= f = stuck

  -- The value read, in another form.
  abbrev pub map_read : (A → B) → Read A → Read B
  map_read f (got a o) = got (f a) o
  map_read f fails = fails
  map_read f panics = panics
  map_read f stuck = stuck

unfoldable pub limit : Vbuf → ℕ
limit v = if ltb 0 v.end && leb v.end (length v.b) then v.end else length v.b

-- `v.remaining()` where the offset is not past the limit.
unfoldable pub remaining : Vbuf → ℕ → ℕ
unfolding limit
remaining v o = limit v - o

-- Go's `b[o : o+n]`; `none` is out of range.
unfoldable pub slice : List ℕ → ℕ → ℕ → Option (List ℕ)
slice b o n = if leb (o + n) (length b) then some (take n (drop o b)) else none

abbrev pub or_panic : Option (List ℕ) → ℕ → Read (List ℕ)
or_panic (some bytes) o = got bytes o
or_panic none o = panics

-- Takes the next `n` bytes.
unfoldable pub take_bytes : Vbuf → ℕ → ℕ → Read (List ℕ)
unfolding slice
take_bytes v n o = or_panic (slice v.b o n) (o + n)

unfoldable pub little_endian : List ℕ → ℕ
little_endian [] = 0
little_endian (b ∷ bs) = b + 256 * little_endian bs

-- `n` bytes as a number, where they end at `bound` at the latest.
unfoldable pub fixed : Vbuf → ℕ → ℕ → ℕ → Read ℕ
unfolding take_bytes little_endian
fixed v bound n o = if ltb bound (o + n) then fails else map_read little_endian (take_bytes v n o)

unfoldable pub u8 : Vbuf → ℕ → Read ℕ
unfolding fixed limit
u8 v = fixed v (limit v) 1

unfoldable pub u16 : Vbuf → ℕ → Read ℕ
unfolding fixed limit
u16 v = fixed v (limit v) 2

unfoldable pub u32 : Vbuf → ℕ → Read ℕ
unfolding fixed limit
u32 v = fixed v (limit v) 4

-- What the readers of eight bytes and of floats take: they look at the length of the slice only.
unfoldable pub unlimited : Vbuf → ℕ → ℕ → Read ℕ
unfolding fixed
unlimited v = fixed v (length v.b)

-- A machine integer by its sign, `int64` whatever its width was.
pub data ℤ : Type 0 where
  pos negsuc : ℕ → ℤ

-- The number that a pattern of `2 * half` values stands for.
unfoldable pub signed : ℕ → ℕ → ℤ
signed half x = if ltb x half then pos x else negsuc (2 * half - 1 - x)

unfoldable pub i8 : Vbuf → ℕ → Read ℤ
unfolding u8 signed
i8 v o = map_read (signed 128) (u8 v o)

unfoldable pub i16 : Vbuf → ℕ → Read ℤ
unfolding u16 signed
i16 v o = map_read (signed 32768) (u16 v o)

unfoldable pub i32 : Vbuf → ℕ → Read ℤ
unfolding u32 signed
i32 v o = map_read (signed 2147483648) (u32 v o)

unfoldable pub i64 : Vbuf → ℕ → Read ℤ
unfolding unlimited signed
i64 v o = map_read (signed 9223372036854775808) (unlimited v 8 o)

-- The patterns of a `float32` and of a `float64`.
unfoldable pub f32 : Vbuf → ℕ → Read ℕ
unfolding unlimited
f32 v = unlimited v 4

unfoldable pub f64 : Vbuf → ℕ → Read ℕ
unfolding unlimited
f64 v = unlimited v 8

-- `fuel` rounds of the loop; three are enough.
unfoldable pub skip_loop : ℕ → ℕ → ℕ → ℕ
skip_loop zero o total = o
skip_loop (suc fuel) o total =
    let on = skip_loop fuel (o + 1) (total + 1) in if eqb (total % 4) 0 then o else on

unfoldable pub skip_pad : ℕ → ℕ → ℕ
unfolding skip_loop
skip_pad o start = skip_loop 3 o (o - start)

-- The guard of a payload of `n` bytes. `n` was just read, so the offset is not past the limit.
unfoldable pub payload : Vbuf → ℕ → ℕ → Read (List ℕ)
unfolding take_bytes remaining
payload v n o = if ltb (remaining v o) n then fails else take_bytes v n o

unfoldable pub string_no_pad : Vbuf → ℕ → Read (List ℕ)
unfolding u32 payload
string_no_pad v o = u32 v o >>= payload v

unfoldable pub padded {ℓ} : {A : Type ℓ} → ℕ → Read A → Read A
unfolding skip_pad
padded start r = r >>= λ a o. got a (skip_pad o start)

unfoldable pub string : Vbuf → ℕ → ℕ → Read (List ℕ)
unfolding string_no_pad padded
string v start o = padded start (string_no_pad v o)
