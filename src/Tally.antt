-- ===== src/Tally.antt =====
-- How many entries of a map pass a test, and how that changes with the map.
use gta.Base.{ℕ, ◌+◌, ◌≡◌, Bool, none, some, [], ◌∷◌, arith, Eq, if◌then◌else◌}
use gta.Base.Dict.{Dict, lookup, insert, delete}
use gta.Base.Distinct.{Distinct}
use gta.Fifo.{keys, delete_absent}

abbrev pub bit : Bool → ℕ
bit b = if b then 1 else 0

module _ {ℓ κ} {K : Type ℓ} {V : Type κ} ⦃e : Eq K⦄ where
  unfoldable pub tally : (V → Bool) → Dict K V → ℕ
  tally t [] = 0
  tally t ((_, x) ∷ m) = bit (t x) + tally t m

  pub tally-insert_new :
      (t : V → Bool) (k : K) (x : V) (m : Dict K V)
      → lookup k m ≡ none
      → tally t (insert k x m) ≡ bit (t x) + tally t m
  unfolding tally lookup insert
  tally-insert_new t k x [] h = omega arith
  tally-insert_new t k x ((j, y) ∷ m) h = ground (arith, tally-insert_new t k x m)

  pub tally-insert_old :
      (t : V → Bool) (k : K) (x x' : V) (m : Dict K V)
      → lookup k m ≡ some x
      → tally t (insert k x' m) + bit (t x) ≡ bit (t x') + tally t m
  unfolding tally lookup insert
  tally-insert_old t k x x' [] h = cc
  tally-insert_old t k x x' ((j, y) ∷ m) h = ground (arith, tally-insert_old t k x x' m)

  pub tally-delete :
      (t : V → Bool) (k : K) (x : V) (m : Dict K V)
      → Distinct (keys m)
      → lookup k m ≡ some x
      → tally t (delete k m) + bit (t x) ≡ tally t m
  unfolding tally lookup delete
  tally-delete t k x [] d h = cc
  tally-delete t k x ((j, y) ∷ m) d h =
      ground (arith, e.beq_iff j k, delete_absent j m d.0, tally-delete t k x m d.1)
