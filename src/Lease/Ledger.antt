-- ===== src/Lease/Ledger.antt =====
-- How many leases of the table hold a port, and the accounts of a range of ports: a port is taken
-- exactly when one lease holds it. These are the laws of the accounts under each change of table.
use gta.Base.{
  ℕ, ◌+◌, ◌<◌, ◌≡◌, refl, String, Bool, false, [], ◌∷◌, arith, eqb, string_eq, nat_eq, ◌==◌,
}
use gta.Base.Dict.{Dict}
unfoldable pub use gta.Tally.{tally}
pub use gta.Tally.{bit, tally-insert_new, tally-insert_old, tally-delete}
use gta.Lease.Ports.{PortRange, taken, release}
use gta.Lease.Ports.Search.{Took, taken-release}
use gta.Lease.{Lease, count_leases}

abbrev pub owns : String → Lease → Bool
owns owner l = l.owner == owner

pub count_leases-tally :
    (owner : String) (m : Dict String Lease) → count_leases owner m ≡ tally (owns owner) m
unfolding count_leases tally
count_leases-tally owner [] = refl
count_leases-tally owner ((j, l) ∷ m) = ground (arith, count_leases-tally owner m)

-- The number of leases that hold port `p` as their `f`.
abbrev pub holders : (Lease → ℕ) → ℕ → Dict String Lease → ℕ
holders f p = tally (λ l. eqb (f l) p)

-- Each port but the placeholder 0 is taken once by one lease, or by a call under way that has `q`,
-- or else it is free and held by none.
abbrev pub Accounts : (Lease → ℕ) → PortRange → ℕ → Dict String Lease → Type 0
Accounts f range q m = (p : ℕ) → 0 < p → holders f p m + bit (eqb q p) ≡ bit (taken range p)

module _ (f : Lease → ℕ) (range : PortRange) (m : Dict String Lease) where
  pub Accounts-take :
      (port : ℕ) (range' : PortRange)
      → Accounts f range 0 m
      → taken range port ≡ false
      → Took range port range'
      → Accounts f range' port m
  Accounts-take port range' acc free took p pos = ground (arith, acc p pos, took.others_same p)

  pub Accounts-rollback : (q : ℕ) → Accounts f range q m → Accounts f (release range q) 0 m
  Accounts-rollback q acc p pos = ground (arith, acc p pos, taken-release range q p)

  module _ (m' : Dict String Lease) (q : ℕ) (acc : Accounts f range q m) where
    pub Accounts-settle :
        ((p : ℕ) → 0 < p → holders f p m' ≡ bit (eqb q p) + holders f p m) → Accounts f range 0 m'
    Accounts-settle grows p pos = ground (arith, acc p pos, grows p pos)

    pub Accounts-give :
        (port : ℕ)
        → ((p : ℕ) → 0 < p → holders f p m' + bit (eqb port p) ≡ holders f p m)
        → Accounts f (release range port) q m'
    Accounts-give port shrinks p pos =
        ground (arith, acc p pos, taken-release range port p, shrinks p pos)

    pub Accounts-same : ((p : ℕ) → holders f p m' ≡ holders f p m) → Accounts f range q m'
    Accounts-same same p pos = ground (arith, acc p pos, same p)
