-- ===== src/Base/Dict.antt =====
-- A Go map as an association list: `insert` overwrites in place or adds at the end, `delete`
-- drops the key, and a missing key reads as `none`.
use mathlib.Core.Path.{◌≡◌, refl}
use mathlib.Core.Logic.{◌≢◌}
use mathlib.Core.List.{List, [], ◌∷◌}
use mathlib.Core.Option.{Option, none, some}
use native.Mathlib.Omega.{arith}
use gta.Base.Tests.{if◌then◌else◌}
use gta.Base.Keys.{Eq, ◌==◌, eq_self, eq_ne}

abbrev pub Dict {ℓ κ} : Type ℓ → Type κ → Type (ℓ ⊔ κ)
Dict K V = List (K × V)

module _ {ℓ κ} {K : Type ℓ} {V : Type κ} ⦃e : Eq K⦄ where
  unfoldable pub delete : K → Dict K V → Dict K V
  delete key [] = []
  delete key (entry ∷ rest) =
      let kept = delete key rest in if entry.0 == key then kept else entry ∷ kept

  unfoldable pub insert : K → V → Dict K V → Dict K V
  insert key x [] = (key, x) ∷ []
  insert key x (entry ∷ rest) =
      if entry.0 == key then (key, x) ∷ rest else entry ∷ insert key x rest

  unfoldable pub lookup : K → Dict K V → Option V
  lookup key [] = none
  lookup key (entry ∷ rest) = if entry.0 == key then some entry.1 else lookup key rest

  pub lookup-delete :
      (key at : K) (m : Dict K V)
      → lookup at (delete key m) ≡ (if key == at then none else lookup at m)
  unfolding lookup delete
  lookup-delete key at [] = ground arith
  lookup-delete key at ((k, y) ∷ rest) =
      ground (arith, lookup-delete key at rest, e.beq_iff key at, e.beq_iff k key, e.beq_iff k at)

  pub lookup-insert :
      (key at : K) (x : V) (m : Dict K V)
      → lookup at (insert key x m) ≡ (if key == at then some x else lookup at m)
  unfolding lookup insert
  lookup-insert key at x [] = refl
  lookup-insert key at x ((k, y) ∷ rest) =
      ground (arith, lookup-insert key at x rest, e.beq_iff key at, e.beq_iff k key, e.beq_iff k at)

  pub lookup-delete_self : (key : K) (m : Dict K V) → lookup key (delete key m) ≡ none
  lookup-delete_self key m = ground (arith, lookup-delete key key m, eq_self key)

  pub lookup-insert_self : (key : K) (x : V) (m : Dict K V) → lookup key (insert key x m) ≡ some x
  lookup-insert_self key x m = ground (arith, lookup-insert key key x m, eq_self key)

  pub lookup-delete_ne :
      (key at : K) (m : Dict K V) → key ≢ at → lookup at (delete key m) ≡ lookup at m
  lookup-delete_ne key at m h = ground (arith, lookup-delete key at m, eq_ne key at)

  pub lookup-insert_ne :
      (key at : K) (x : V) (m : Dict K V) → key ≢ at → lookup at (insert key x m) ≡ lookup at m
  lookup-insert_ne key at x m h = ground (arith, lookup-insert key at x m, eq_ne key at)
