-- ===== src/Base/Lists.antt =====
-- Lists measured and cut by native numbers, under the library's names.
use Prim.Native.Nat.{ℕ, zero, suc, ◌+◌, ◌-◌, min}
use Prim.Native.Nat.{◌≤◌}
use mathlib.Core.Path.{◌≡◌, refl, ap, subst}
use mathlib.Core.List.{List, [], ◌∷◌, ◌++◌}
use native.Mathlib.Omega.{arith}

module _ {ℓ} {A : Type ℓ} where
  abbrev pub length : List A → ℕ
  length [] = 0
  length (x ∷ xs) = suc (length xs)

  abbrev pub take : ℕ → List A → List A
  take zero xs = []
  take (suc n) [] = []
  take (suc n) (x ∷ xs) = x ∷ take n xs

  abbrev pub drop : ℕ → List A → List A
  drop zero xs = xs
  drop (suc n) [] = []
  drop (suc n) (x ∷ xs) = drop n xs

  -- A predicate that holds of every item of a list.
  abbrev pub All {κ} : (A → Type κ) → List A → Type κ
  All P [] = Unit
  All P (x ∷ xs) = P x × All P xs

  pub length-append : (xs ys : List A) → length (xs ++ ys) ≡ length xs + length ys
  length-append [] ys = omega arith
  length-append (x ∷ xs) ys = omega (arith, length-append xs ys)

  pub take-append-drop : (n : ℕ) (xs : List A) → take n xs ++ drop n xs ≡ xs
  take-append-drop zero xs = refl
  take-append-drop (suc n) [] = refl
  take-append-drop (suc n) (x ∷ xs) = ap (◌∷◌ x) (take-append-drop n xs)

  pub length-take : (n : ℕ) (xs : List A) → length (take n xs) ≡ min n (length xs)
  length-take zero xs = omega arith
  length-take (suc n) [] = omega arith
  length-take (suc n) (x ∷ xs) = omega (arith, length-take n xs)

  pub length-drop : (n : ℕ) (xs : List A) → length (drop n xs) ≡ length xs - n
  length-drop zero xs = omega arith
  length-drop (suc n) [] = omega arith
  length-drop (suc n) (x ∷ xs) = omega (arith, length-drop n xs)

  pub drop-drop : (m n : ℕ) (xs : List A) → drop n (drop m xs) ≡ drop (m + n) xs
  drop-drop zero n xs = ap (λ z. drop z xs) (omega arith)
  drop-drop (suc m) zero [] = ground arith
  drop-drop (suc m) (suc n) [] =
      subst (λ z. [] ≡ drop z []) (let e : suc (m + suc n) ≡ suc m + suc n = omega arith in e) refl
  drop-drop (suc m) n (x ∷ xs) =
      subst (λ z. drop n (drop m xs) ≡ drop z (x ∷ xs))
        (let e : suc (m + n) ≡ suc m + n = omega arith in e) (drop-drop m n xs)

  pub drop-append_length : (xs ys : List A) → drop (length xs) (xs ++ ys) ≡ ys
  drop-append_length [] ys = refl
  drop-append_length (x ∷ xs) ys = drop-append_length xs ys

  pub take-append_length : (xs ys : List A) → take (length xs) (xs ++ ys) ≡ xs
  take-append_length [] ys = refl
  take-append_length (x ∷ xs) ys = ap (◌∷◌ x) (take-append_length xs ys)

  pub append_nil : (xs : List A) → xs ++ [] ≡ xs
  append_nil [] = refl
  append_nil (x ∷ xs) = ap (◌∷◌ x) (append_nil xs)

  pub append_assoc : (xs ys zs : List A) → (xs ++ ys) ++ zs ≡ xs ++ (ys ++ zs)
  append_assoc [] ys zs = refl
  append_assoc (x ∷ xs) ys zs = ap (◌∷◌ x) (append_assoc xs ys zs)

  -- A cut that ends before the end of the first list does not see the second.
  pub take-drop-append :
      (off n : ℕ) (xs ys : List A)
      → off + n ≤ length xs
      → take n (drop off (xs ++ ys)) ≡ take n (drop off xs)
  take-drop-append zero zero xs ys h = refl
  take-drop-append zero (suc n) [] ys h = absurd (omega (arith, h))
  take-drop-append zero (suc n) (x ∷ xs) ys h =
      ap (◌∷◌ x) (take-drop-append zero n xs ys (omega (arith, h)))
  take-drop-append (suc off) zero [] ys h = absurd (omega (arith, h))
  take-drop-append (suc off) (suc n) [] ys h = absurd (omega (arith, h))
  take-drop-append (suc off) n (x ∷ xs) ys h = take-drop-append off n xs ys (omega (arith, h))

  pub take-length : (xs : List A) → take (length xs) xs ≡ xs
  take-length [] = refl
  take-length (x ∷ xs) = ap (◌∷◌ x) (take-length xs)

  pub drop_past : (n : ℕ) (xs : List A) → length xs ≤ n → drop n xs ≡ []
  drop_past zero [] h = refl
  drop_past (suc n) [] h = refl
  drop_past zero (x ∷ xs) h = absurd (omega (arith, h))
  drop_past (suc n) (x ∷ xs) h = drop_past n xs (omega (arith, h))

  pub take-split : (m n : ℕ) (xs : List A) → take (m + n) xs ≡ take m xs ++ take n (drop m xs)
  take-split zero n xs = ap (λ z. take z xs) (omega arith)
  take-split (suc m) zero [] = ap (λ z. take z []) (let e : suc m + 0 ≡ suc m = omega arith in e)
  take-split (suc m) (suc n) [] =
      subst (λ z. take z [] ≡ []) (let e : suc (m + suc n) ≡ suc m + suc n = omega arith in e) refl
  take-split (suc m) n (x ∷ xs) =
      subst (λ z. take z (x ∷ xs) ≡ x ∷ (take m xs ++ take n (drop m xs)))
        (let e : suc (m + n) ≡ suc m + n = omega arith in e) (ap (◌∷◌ x) (take-split m n xs))
