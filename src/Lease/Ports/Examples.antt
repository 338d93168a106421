-- ===== src/Lease/Ports/Examples.antt =====
-- The theorems on the allocator at a range of three ports with one taken.
use gta.Base.{◌≡◌, refl, none, some, [], arith, nat_eq}
use gta.Base.Dict.{lookup, insert}
use gta.Lease.Ports.{PortRange, scan, allocate}
use gta.Lease.Ports.Search.{IsRange}

abbrev three : PortRange
three = record { base = 7; max = 9; used = insert 7 tt []; cursor = 0 }

three-IsRange : IsRange three
three-IsRange = record { ordered = omega arith; pointed = omega arith }

allocate-three :
    allocate three ≡ some (8, record three { used = insert 8 tt (insert 7 tt []); cursor = 2 })
unfolding allocate scan lookup insert
allocate-three = refl

abbrev one : PortRange
one = record { base = 7; max = 7; used = insert 7 tt []; cursor = 0 }

one-IsRange : IsRange one
one-IsRange = record { ordered = omega arith; pointed = omega arith }

one_exhausted : allocate one ≡ none
unfolding allocate scan lookup insert
one_exhausted = refl
