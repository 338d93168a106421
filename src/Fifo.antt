-- ===== src/Fifo.antt =====
-- The map with a list of its keys in order of arrival that pkg/protocol/correlation/correlation.go
-- and pkg/decode/dispatcher.go both keep: the loop that evicts the oldest keys, and its laws.
use gta.Base.{
  ◌==◌, Option-cases, ℕ, suc, ◌-◌, ◌≡◌, refl, ap, false, none, some, List, [], ◌∷◌, ◌++◌, arith,
  ltb, length, drop, Eq, if◌then◌else◌, Bool-cases, inl, inr, zero, eq_self, tests,
}
use gta.Base.Dict.{Dict, lookup, insert, delete}
use gta.Base.Distinct.{Distinct-snoc, contains, Distinct, remove_first}

module _ {ℓ κ} {K : Type ℓ} {V : Type κ} ⦃e : Eq K⦄ where
  abbrev pub keys : Dict K V → List K
  keys [] = []
  keys ((k, v) ∷ m) = k ∷ keys m

  -- `for len(order) > limit { old := order[0]; order = order[1:]; delete(entries, old) }`
  unfoldable pub evict : ℕ → List K → Dict K V → List K × Dict K V
  evict limit [] m = ([], m)
  evict limit (x ∷ xs) m =
      let rest = evict limit xs (delete x m) in
      if ltb limit (suc (length xs)) then rest else (x ∷ xs, m)

  pub lookup-contains : (k : K) (m : Dict K V) → lookup k m ≡ none → contains k (keys m) ≡ false
  unfolding lookup contains
  lookup-contains k [] h = refl
  lookup-contains k ((j, v) ∷ m) h = ground (arith, lookup-contains k m)

  pub contains-lookup : (k : K) (m : Dict K V) → contains k (keys m) ≡ false → lookup k m ≡ none
  unfolding lookup contains
  contains-lookup k [] h = refl
  contains-lookup k ((j, v) ∷ m) h = ground (arith, contains-lookup k m)

  pub keys-insert_new :
      (k : K) (v : V) (m : Dict K V) → lookup k m ≡ none → keys (insert k v m) ≡ keys m ++ k ∷ []
  unfolding lookup insert
  keys-insert_new k v [] h = refl
  keys-insert_new k v ((j, w) ∷ m) h = ground (arith, keys-insert_new k v m)

  pub keys-insert_old :
      (k : K) (v w : V) (m : Dict K V) → lookup k m ≡ some w → keys (insert k v m) ≡ keys m
  unfolding lookup insert
  keys-insert_old k v w [] h = ground arith
  keys-insert_old k v w ((j, u) ∷ m) h = ground (arith, e.beq_iff j k, keys-insert_old k v w m)

  pub delete_absent : (k : K) (m : Dict K V) → contains k (keys m) ≡ false → delete k m ≡ m
  unfolding delete contains
  delete_absent k [] h = refl
  delete_absent k ((j, v) ∷ m) h = ground (arith, delete_absent k m)

  pub keys-delete :
      (k : K) (m : Dict K V) → Distinct (keys m) → keys (delete k m) ≡ remove_first k (keys m)
  unfolding delete remove_first
  keys-delete k [] h = refl
  keys-delete k ((j, v) ∷ m) h = ground (arith, e.beq_iff j k, keys-delete k m, delete_absent j m)

  length-keys : (m : Dict K V) → length (keys m) ≡ length m
  length-keys [] = refl
  length-keys ((k, v) ∷ m) = ap suc (length-keys m)

  pub delete_head :
      (k : K) (v : V) (m : Dict K V) → contains k (keys m) ≡ false → delete k ((k, v) ∷ m) ≡ m
  unfolding delete
  delete_head k v m h = rw eq_self (delete_absent k m h)

  -- The loop drops as many of the oldest entries as there are too many.
  pub evict-drop :
      (limit : ℕ) (m : Dict K V)
      → Distinct (keys m)
      → evict limit (keys m) m ≡ (drop (length m - limit) (keys m), drop (length m - limit) m)
  unfolding evict
  evict-drop limit [] h = ground arith
  evict-drop limit ((k, v) ∷ m) h = elim (Bool-cases (ltb limit (suc (length (keys m))))) [
    | inl over ↦
        rw (over, delete_head k v m h.0)
          (let e : suc (length m) - limit ≡ suc (length m - limit) =
              omega (tests, over, length-keys m) in
            rw e (evict-drop limit m h.1))
    | inr within ↦
        rw within (let e : suc (length m) - limit ≡ 0 = ground (arith, length-keys m) in rw e)
  ]

  pub keys-drop : (n : ℕ) (m : Dict K V) → keys (drop n m) ≡ drop n (keys m)
  keys-drop zero m = refl
  keys-drop (suc n) [] = refl
  keys-drop (suc n) ((k, v) ∷ m) = keys-drop n m

  -- Writing a key leaves the keys distinct.
  pub Distinct-insert :
      (k : K) (v : V) (m : Dict K V) → Distinct (keys m) → Distinct (keys (insert k v m))
  Distinct-insert k v m d = elim (Option-cases (lookup k m)) [
    | inl e ↦ rw (keys-insert_new k v m e) (Distinct-snoc k (keys m) (lookup-contains k m e) d)
    | inr (w, e) ↦ rw (keys-insert_old k v w m e) d
  ]

  contains-delete :
      (j k : K) (m : Dict K V)
      → contains j (keys m) ≡ false
      → contains j (keys (delete k m)) ≡ false
  unfolding delete contains
  contains-delete j k [] h = refl
  contains-delete j k ((i, v) ∷ m) h = ground (arith, contains-delete j k m)

  pub Distinct-delete : (k : K) (m : Dict K V) → Distinct (keys m) → Distinct (keys (delete k m))
  unfolding delete
  Distinct-delete k [] d = tt
  Distinct-delete k ((i, v) ∷ m) d = elim (Bool-cases (i == k)) [
    | inl hit ↦ rw hit (Distinct-delete k m d.1)
    | inr miss ↦ rw miss (contains-delete i k m d.0, Distinct-delete k m d.1)
  ]
