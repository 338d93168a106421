-- ===== src/Godot/HalfValues.antt =====
-- wire.go: what a half-precision float is worth before and after f16tof32. A finite value is counted
-- in units of 2 ^ -149, so that every finite `float32` and every finite half is a whole number.
use gta.Base.{
  ◌≢◌, subst, ℕ, zero, suc, ◌+◌, ◌-◌, ◌*◌, ◌/◌, ◌%◌, ◌^◌, ◌<◌, ◌≡◌, refl, Bool, true, ◌&&◌, ◌||◌,
  arith, eqb, if◌then◌else◌,
}
use gta.Godot.Half.{half_to_single, single_of, normalise}

-- The magnitude of a finite `float32`, by its fields.
unfoldable pub single_units : ℕ → ℕ
single_units w =
    let exp = (w / 8388608) % 256 in
    if eqb exp 0 then w % 8388608 else (8388608 + w % 8388608) * 2 ^ (exp - 1)

-- The magnitude of a finite half, by its fields.
unfoldable pub half_units : ℕ → ℕ
half_units h =
    let exp = (h / 1024) % 32 in
    (if eqb exp 0 then h % 1024 * 2 else (1024 + h % 1024) * 2 ^ exp) * 2 ^ 124

unfoldable pub sign_bit : ℕ → ℕ → ℕ
sign_bit top w = (w / top) % 2

all_below : ℕ → (ℕ → Bool) → Bool
all_below zero test = true
all_below (suc n) test = test n && all_below n test

all_below-at : (n k : ℕ) (test : ℕ → Bool) → all_below n test ≡ true → k < n → test k ≡ true
unfolding all_below
all_below-at zero k test h lt = absurd (omega (arith, lt))
all_below-at (suc n) k test h lt = ground (arith, all_below-at n k test)

-- The value that the code gives to a half: a subnormal comes out as one half of what it is.
fits : ℕ → ℕ → ℕ → ℕ → ℕ → Bool
fits exp sign sign' units units' =
    eqb sign sign'
    && (if eqb exp 0 then eqb (2 * units) units' else (eqb exp 31 || eqb units units'))

fits_lem :
    (exp sign sign' units units' : ℕ)
    → fits exp sign sign' units units' ≡ true
    → exp ≢ 31
    → (sign ≡ sign') × ((if eqb exp 0 then 2 * units else units) ≡ units')
unfolding fits
fits_lem exp sign sign' units units' h finite = ground (arith, h, finite)

kept : ℕ → Bool
unfolding single_units half_units half_to_single single_of normalise sign_bit fits
kept h =
    fits ((h / 1024) % 32) (sign_bit 2147483648 (half_to_single h)) (sign_bit 32768 h)
      (single_units (half_to_single h)) (half_units h)

row : ℕ → Bool
unfolding all_below kept
row r = all_below 1024 (λ f. kept (r * 1024 + f))

table : all_below 64 row ≡ true
unfolding all_below row
table = refl

kept_all : (h : ℕ) → h < 65536 → kept h ≡ true
unfolding row
kept_all h lt =
    let same : h / 1024 * 1024 + h % 1024 ≡ h = omega arith in
    subst (λ z. kept z ≡ true) same
      (all_below-at 1024 (h % 1024) (λ f. kept (h / 1024 * 1024 + f))
        (all_below-at 64 (h / 1024) row table (omega arith)) (omega arith))

kept-fits :
    (h : ℕ)
    → kept h ≡ true
    → fits
        ((h / 1024) % 32)
        (sign_bit 2147483648 (half_to_single h))
        (sign_bit 32768 h)
        (single_units (half_to_single h))
        (half_units h)
      ≡ true
unfolding kept
kept-fits h e = e

-- Every finite half-precision float keeps its sign. A normal one keeps its value, and a subnormal
-- one comes out as one half of its value.
pub half_to_single_lem :
    (h : ℕ)
    → h < 65536
    → (h / 1024) % 32 ≢ 31
    → (sign_bit 2147483648 (half_to_single h) ≡ sign_bit 32768 h)
      × ((if eqb ((h / 1024) % 32) 0
            then 2 * single_units (half_to_single h)
            else single_units (half_to_single h))
          ≡ half_units h)
half_to_single_lem h lt finite =
    fits_lem ((h / 1024) % 32) (sign_bit 2147483648 (half_to_single h)) (sign_bit 32768 h)
      (single_units (half_to_single h)) (half_units h) (kept-fits h (kept_all h lt)) finite
