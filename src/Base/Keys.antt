-- ===== src/Base/Keys.antt =====
-- Decidable equality of keys as an instance argument, for numbers and for texts.
use Prim.Native.Nat.{ℕ}
use Prim.Native.String.{String}
use mathlib.Core.Path.{◌≡◌, refl}
use mathlib.Core.Logic.{◌≢◌, ◌↔◌}
use mathlib.Core.Bool.{Bool, true, false, ◌&&◌}
use mathlib.Core.List.{List, [], ◌∷◌}
use native.Mathlib.Omega.{arith}
use text.Mathlib.Text.{◌==◌ as str_eq}
use text.Mathlib.TextEquality.{eq_iff}
use gta.Base.Tests.{eqb, eqb_iff}

-- What Go's `==` on a comparable key type gives.
pub record Eq {ℓ} (K : Type ℓ) : Type ℓ where
  pub beq : K → K → Bool
  pub beq_iff : (a b : K) → (beq a b ≡ true) ↔ (a ≡ b)

instance abbrev pub string_eq : Eq String
string_eq = record { beq = str_eq; beq_iff = eq_iff }

instance abbrev pub nat_eq : Eq ℕ
nat_eq = record { beq = eqb; beq_iff = eqb_iff }

infix 50 ◌==◌
abbrev pub ◌==◌ {ℓ} : {Key : Type ℓ} ⦃same : Eq Key⦄ → Key → Key → Bool
◌==◌ ⦃same⦄ = same.beq

pub eq_self {ℓ} : {K : Type ℓ} ⦃e : Eq K⦄ (k : K) → (k == k) ≡ true
eq_self ⦃e⦄ k = (e.beq_iff k k).1 refl

pub eq_ne {ℓ} : {K : Type ℓ} ⦃e : Eq K⦄ (j k : K) → j ≢ k → (j == k) ≡ false
eq_ne ⦃e⦄ j k h = ground (arith, e.beq_iff j k)

module _ {ℓ} {K : Type ℓ} ⦃e : Eq K⦄ where
  unfoldable pub same_items : List K → List K → Bool
  same_items [] [] = true
  same_items [] (y ∷ ys) = false
  same_items (x ∷ xs) [] = false
  same_items (x ∷ xs) (y ∷ ys) = (x == y) && same_items xs ys

  pub same_items_iff : (xs ys : List K) → (same_items xs ys ≡ true) ↔ (xs ≡ ys)
  unfolding same_items
  same_items_iff [] [] = ground arith
  same_items_iff [] (y ∷ ys) = ground arith
  same_items_iff (x ∷ xs) [] = ground arith
  same_items_iff (x ∷ xs) (y ∷ ys) = ground (arith, e.beq_iff x y, same_items_iff xs ys)

instance abbrev pub list_eq {ℓ} : {K : Type ℓ} ⦃e : Eq K⦄ → Eq (List K)
list_eq = record { beq = same_items; beq_iff = same_items_iff }
