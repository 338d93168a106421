-- ===== src/Lease/Ports/Search.antt =====
-- proxy_lease.go: what `allocate` finds, against the set of ports that are taken.
use native.Mathlib.Nat.{mod-lt}
use gta.Base.{
  ◌||◌, subst, ℕ_discrete, dec_lt, ℕ, zero, suc, ◌+◌, ◌-◌, ◌%◌, ◌≤◌, ◌<◌, ◌≡◌, refl, ◌⊎◌, inl, inr,
  true, false, Option, none, some, arith, Bool-cases, nat_eq, ◌==◌, if◌then◌else◌, ltb,
}
use gta.Base.Dict.{insert, lookup-insert, lookup-delete}
use gta.Lease.Ports.{
  new_port_range, PortRange, taken, size, candidate, scan, claim, allocate, reserve, release,
}

-- The answer of the search: a free candidate, with every earlier one taken, or all of them taken.
abbrev Found : PortRange → ℕ → ℕ → Option (ℕ × ℕ) → Type 0
Found pr i left none = (k : ℕ) → i ≤ k → k < i + left → taken pr (candidate pr k) ≡ true
Found pr i left (some (port, j)) =
    (port ≡ candidate pr j)
    × (i ≤ j)
    × (j < i + left)
    × (taken pr port ≡ false)
    × ((k : ℕ) → i ≤ k → k < j → taken pr (candidate pr k) ≡ true)

extend :
    (pr : PortRange) (i left : ℕ) (r : Option (ℕ × ℕ))
    → taken pr (candidate pr i) ≡ true
    → Found pr (i + 1) left r
    → Found pr i (suc left) r
extend pr i left none t f =
    λ k lo hi. elim (ℕ_discrete k i) [ yes e ↦ rw e t | no ne ↦ f k (omega arith) (omega arith) ]
extend pr i left (some (port, j)) t f = (
  f.0,
  omega (arith, f.1),
  omega (arith, f.2),
  f.3,
  λ k lo hi. elim (ℕ_discrete k i) [ yes e ↦ rw e t | no ne ↦ f.4 k (omega arith) hi ],
)

scan-Found : (pr : PortRange) (i left : ℕ) → Found pr i left (scan pr i left)
unfolding scan
scan-Found pr i zero = λ k lo hi. absurd (omega arith)
scan-Found pr i (suc left) = elim (Bool-cases (taken pr (candidate pr i))) [
  | inl t ↦ rw t (extend pr i left _ t (scan-Found pr (i + 1) left))
  | inr f ↦ rw f (refl, omega arith, omega arith, f, λ k lo hi. absurd (omega arith))
]

-- Every port of the range is the candidate of some round, from a cursor inside the range.
round_of : (n cursor d : ℕ) → cursor < n → d < n → (k : ℕ) × (k < n) × ((cursor + k) % n ≡ d)
round_of n cursor d c h = elim (dec_lt d cursor) [
  | yes before ↦ (d + n - cursor, omega arith, grind arith)
  | no after ↦ (d - cursor, omega arith, grind arith)
]

-- The range holds a port, and the cursor points into it.
pub record IsRange (pr : PortRange) : Type 0 where
  pub ordered : pr.base ≤ pr.max
  pub pointed : pr.cursor < size pr

pub new_port_range-IsRange : (base max : ℕ) → base ≤ max → IsRange (new_port_range base max)
unfolding new_port_range
new_port_range-IsRange base max h = record { ordered = h; pointed = omega arith }

-- Exactly `port` was added to the ports taken, and the bounds are as before.
pub record Took (pr : PortRange) (port : ℕ) (pr' : PortRange) : Type 0 where
  pub base_same : pr'.base ≡ pr.base
  pub max_same : pr'.max ≡ pr.max
  pub others_same : (q : ℕ) → taken pr' q ≡ (if port == q then true else taken pr q)

claim_inv :
    (pr : PortRange) (found : Option (ℕ × ℕ)) {port : ℕ} {pr' : PortRange}
    → claim pr found ≡ some (port, pr')
    → (i : ℕ) × (found ≡ some (port, i))
      × (pr' ≡ record pr { used = insert port tt pr.used; cursor = (pr.cursor + i + 1) % size pr })
unfolding claim
claim_inv pr none h = cc
claim_inv pr (some (p, i)) h = (i, ground arith, ground arith)

claim-none : (pr : PortRange) (found : Option (ℕ × ℕ)) → claim pr found ≡ none → found ≡ none
unfolding claim
claim-none pr none h = refl
claim-none pr (some (p, i)) h = cc

module _ (pr : PortRange) (r : IsRange pr) where
  candidate_bounds : (i : ℕ) → (pr.base ≤ candidate pr i) × (candidate pr i ≤ pr.max)
  candidate_bounds i =
      omega (arith, mod-lt (pr.cursor + i) {m = size pr} (omega (arith, r.ordered)), r.ordered)

  taken-insert :
      (port q c : ℕ)
      → taken (record pr { used = insert port tt pr.used; cursor = c }) q
        ≡ (if port == q then true else taken pr q)
  taken-insert port q c = ground (arith, lookup-insert port q tt pr.used)

  -- `allocate` gives a port of the range that was free, marks that port and no other, and leaves a
  -- range that can allocate again.
  pub allocate_sound :
      {port : ℕ} {pr' : PortRange}
      → allocate pr ≡ some (port, pr')
      → (pr.base ≤ port)
        × (port ≤ pr.max)
        × (taken pr port ≡ false)
        × Took pr port pr'
        × IsRange pr'
  unfolding allocate
  allocate_sound {port} {pr'} h =
      let (i, found, e) = claim_inv pr (scan pr 0 (size pr)) h in
      let f : Found pr 0 (size pr) (some (port, i)) =
        subst (Found pr 0 (size pr)) found (scan-Found pr 0 (size pr)) in
      rw e (
        omega (arith, f.0, candidate_bounds i),
        omega (arith, f.0, candidate_bounds i),
        f.3,
        record {
          base_same = refl;
          max_same = refl;
          others_same = λ q. taken-insert port q ((pr.cursor + i + 1) % size pr);
        },
        record {
          ordered = r.ordered;
          pointed = mod-lt (pr.cursor + i + 1) (omega (arith, r.ordered));
        },
      )

  -- `allocate` fails only when every port of the range is taken.
  pub allocate_exhausted :
      (port : ℕ) → allocate pr ≡ none → pr.base ≤ port → port ≤ pr.max → taken pr port ≡ true
  unfolding allocate
  allocate_exhausted port h lo hi =
      let (k, lt, e) = round_of (size pr) pr.cursor (port - pr.base) r.pointed (omega arith) in
      let all : Found pr 0 (size pr) none =
        subst (Found pr 0 (size pr)) (claim-none pr _ h) (scan-Found pr 0 (size pr)) in
      let here : candidate pr k ≡ port = omega (arith, e) in
      subst (λ p. taken pr p ≡ true) here (all k (omega arith) (omega arith))

  -- `reserve` succeeds exactly on a free port of the range, which it then marks; otherwise it
  -- changes nothing.
  pub reserve_lem :
      (port : ℕ)
      → (((reserve pr port).0 ≡ true)
          × (pr.base ≤ port)
          × (port ≤ pr.max)
          × (taken pr port ≡ false)
          × Took pr port (reserve pr port).1)
        ⊎ (((reserve pr port).0 ≡ false)
            × ((port < pr.base) ⊎ (pr.max < port) ⊎ (taken pr port ≡ true))
            × ((reserve pr port).1 ≡ pr))
  unfolding reserve
  reserve_lem port = elim (Bool-cases (ltb port pr.base || ltb pr.max port || taken pr port)) [
    | inl bad ↦ rw bad (inr (refl, ground arith, refl))
    | inr good ↦ rw good (
        inl (
          refl,
          ground arith,
          ground arith,
          ground arith,
          record {
            base_same = refl;
            max_same = refl;
            others_same = λ q. taken-insert port q pr.cursor;
          },
        ))
  ]

-- A released port is free again, and no other port changes.
pub taken-release :
    (pr : PortRange) (port q : ℕ)
    → taken (release pr port) q ≡ (if port == q then false else taken pr q)
unfolding release
taken-release pr port q = ground (arith, lookup-delete port q pr.used)

pub reserve-IsRange : (pr : PortRange) (port : ℕ) → IsRange pr → IsRange (reserve pr port).1
unfolding reserve
reserve-IsRange pr port r = ground arith

pub release-IsRange : (pr : PortRange) (port : ℕ) → IsRange pr → IsRange (release pr port)
unfolding release
release-IsRange pr port r = record { ordered = r.ordered; pointed = r.pointed }
