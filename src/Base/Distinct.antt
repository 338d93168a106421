-- ===== src/Base/Distinct.antt =====
-- Lists of keys: membership, keys that stand once, and the loop that removes the first hit.
use mathlib.Core.Path.{◌≡◌, refl}
use mathlib.Core.Logic.{inl, inr}
use mathlib.Core.Bool.{Bool, false, ◌||◌}
use mathlib.Core.List.{List, [], ◌∷◌, ◌++◌}
use Prim.Native.Nat.{ℕ, zero, suc}
use native.Mathlib.Omega.{arith}
use gta.Base.Tests.{if◌then◌else◌, Bool-cases}
use gta.Base.Lists.{drop}
use gta.Base.Keys.{Eq, ◌==◌}

module _ {ℓ} {K : Type ℓ} ⦃e : Eq K⦄ where
  unfoldable pub contains : K → List K → Bool
  contains k [] = false
  contains k (x ∷ xs) = x == k || contains k xs

  -- No key stands twice.
  abbrev pub Distinct : List K → Type 0
  Distinct [] = Unit
  Distinct (x ∷ xs) = (contains x xs ≡ false) × Distinct xs

  -- `for i, k := range order { if k == key { order = append(order[:i], order[i+1:]...); break } }`
  unfoldable pub remove_first : K → List K → List K
  remove_first k [] = []
  remove_first k (x ∷ xs) = if x == k then xs else x ∷ remove_first k xs

  pub contains-drop :
      (n : ℕ) (k : K) (xs : List K) → contains k xs ≡ false → contains k (drop n xs) ≡ false
  unfolding contains
  contains-drop zero k xs h = h
  contains-drop (suc n) k [] h = refl
  contains-drop (suc n) k (x ∷ xs) h = contains-drop n k xs (ground arith)

  pub Distinct-drop : (n : ℕ) (xs : List K) → Distinct xs → Distinct (drop n xs)
  Distinct-drop zero xs h = h
  Distinct-drop (suc n) [] h = tt
  Distinct-drop (suc n) (x ∷ xs) h = Distinct-drop n xs h.1

  pub contains-snoc :
      (k x : K) (xs : List K) → contains k (xs ++ x ∷ []) ≡ contains k xs || (x == k)
  unfolding contains
  contains-snoc k x [] = ground arith
  contains-snoc k x (y ∷ xs) = ground (arith, contains-snoc k x xs)

  pub Distinct-snoc :
      (x : K) (xs : List K) → contains x xs ≡ false → Distinct xs → Distinct (xs ++ x ∷ [])
  unfolding contains
  Distinct-snoc x [] h d = (refl, tt)
  Distinct-snoc x (y ∷ xs) h d =
      ground (arith, contains-snoc y x xs, Distinct-snoc x xs, e.beq_iff x y, e.beq_iff y x)

  pub contains-remove_first :
      (j k : K) (xs : List K) → contains j xs ≡ false → contains j (remove_first k xs) ≡ false
  unfolding contains remove_first
  contains-remove_first j k [] h = refl
  contains-remove_first j k (x ∷ xs) h = ground (arith, contains-remove_first j k xs)

  pub Distinct-remove_first : (k : K) (xs : List K) → Distinct xs → Distinct (remove_first k xs)
  unfolding remove_first
  Distinct-remove_first k [] h = tt
  Distinct-remove_first k (x ∷ xs) h = elim (Bool-cases (x == k)) [
    | inl hit ↦ rw hit h.1
    | inr miss ↦ rw miss (contains-remove_first x k xs h.0, Distinct-remove_first k xs h.1)
  ]
