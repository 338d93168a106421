-- ===== src/Lease/Ports.antt =====
-- cmd/gt-pipeline/proxy_lease.go: `portRange`, the rotating allocator of a range of ports.
pub mod Search
mod Examples
use gta.Base.{
  ℕ, zero, suc, ◌+◌, ◌-◌, ◌%◌, Bool, true, false, ◌||◌, Option, none, some, List, [], ltb, nat_eq,
  if◌then◌else◌,
}
use gta.Base.Dict.{Dict, lookup, insert, delete}

pub record PortRange : Type 0 where
  pub base : ℕ
  pub max : ℕ
  pub used : Dict ℕ (Unit {0})
  pub cursor : ℕ

unfoldable pub new_port_range : ℕ → ℕ → PortRange
new_port_range base max = record { base = base; max = max; used = []; cursor = 0 }

abbrev pub is_some {ℓ} : {A : Type ℓ} → Option A → Bool
is_some none = false
is_some (some _) = true

abbrev pub taken : PortRange → ℕ → Bool
taken pr port = is_some (lookup port pr.used)

-- The number of ports. Where `max < base` Go's count is not positive, and the loop makes no round.
abbrev pub size : PortRange → ℕ
size pr = (pr.max + 1) - pr.base

-- The port that round `i` tries.
abbrev pub candidate : PortRange → ℕ → ℕ
candidate pr i = pr.base + (pr.cursor + i) % size pr

-- The loop of `allocate` from round `i`, with the rounds that are left: the first free candidate.
unfoldable pub scan : PortRange → ℕ → ℕ → Option (ℕ × ℕ)
scan pr i zero = none
scan pr i (suc left) =
    let rest = scan pr (i + 1) left in
    if taken pr (candidate pr i) then rest else some (candidate pr i, i)

-- `none` is the error "port range exhausted".
pub claim : PortRange → Option (ℕ × ℕ) → Option (ℕ × PortRange)
claim pr none = none
claim pr (some (port, i)) =
    some (port, record pr { used = insert port tt pr.used; cursor = (pr.cursor + i + 1) % size pr })

unfoldable pub allocate : PortRange → Option (ℕ × PortRange)
unfolding claim
allocate pr = claim pr (scan pr 0 (size pr))

unfoldable pub reserve : PortRange → ℕ → Bool × PortRange
reserve pr port =
    if ltb port pr.base || ltb pr.max port || taken pr port
    then (false, pr)
    else (true, record pr { used = insert port tt pr.used })

unfoldable pub release : PortRange → ℕ → PortRange
release pr port = record pr { used = delete port pr.used }
