-- ===== src/Godot/Half.antt =====
-- wire.go: a half-precision float made a `float32`.
use gta.Base.{ℕ, zero, suc, ◌+◌, ◌-◌, ◌*◌, ◌/◌, ◌%◌, eqb, if◌then◌else◌}
use Prim.Native.Nat.{bit_or}

-- `for m&0x400 == 0 { m <<= 1; e-- }` for `fuel` rounds; the pattern of the result, its exponent
-- as the `uint32` it is shifted as. `m` is not 0 and below 0x400, so that ten rounds are enough.
unfoldable pub normalise : ℕ → ℕ → ℕ → ℕ → ℕ
normalise zero sign e m = bit_or (bit_or (sign * 2147483648) (e % 512 * 8388608)) (m % 1024 * 8192)
normalise (suc fuel) sign e m =
    let on = normalise fuel sign (e - 1) (m * 2) in
    if eqb ((m / 1024) % 2) 0
    then on
    else bit_or (bit_or (sign * 2147483648) (e % 512 * 8388608)) (m % 1024 * 8192)

unfoldable pub single_of : ℕ → ℕ → ℕ → ℕ
unfolding normalise
single_of sign exp frac =
    if eqb exp 0
    then if eqb frac 0 then sign * 2147483648 else normalise 10 sign 112 frac
    else if eqb exp 31
    then bit_or (bit_or (sign * 2147483648) 2139095040) (frac * 8192)
    else bit_or (bit_or (sign * 2147483648) ((exp + 112) * 8388608)) (frac * 8192)

unfoldable pub half_to_single : ℕ → ℕ
unfolding single_of
half_to_single h = single_of ((h / 32768) % 2) ((h / 1024) % 32) (h % 1024)
