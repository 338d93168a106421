-- ===== src/Correlation/Bounds.antt =====
-- correlation.go: the store never holds more than `limit` requests, the newest is always found,
-- and only the oldest one is given up.
use gta.Base.{
  eq_iff, ◌==◌, length-drop, Bool-cases, ◌⊎◌, dec_lt, ap, ◌≢◌, List, ℕ, suc, ◌-◌, ◌≤◌, ◌<◌, String,
  ◌≡◌, refl, sym, ◌∙◌, inl, inr, none, some, [], ◌∷◌, arith, length, drop, string_eq, Option-cases,
}
use gta.Base.Dict.{
  lookup-insert_ne, lookup-delete_ne, lookup-delete_self, lookup-insert_self, delete, Dict, lookup,
  insert,
}
use gta.Base.Distinct.{Distinct-remove_first, remove_first, Distinct-drop, Distinct, Distinct-snoc}
use gta.Fifo.{
  keys-delete, keys-drop, keys, evict-drop, keys-insert_new, keys-insert_old, lookup-contains,
}
use gta.Correlation.{
  forgets, remembers, len, Op, step, run, look_up, forget, Pending, Store, new, enlist, remember,
}

-- The order lists the keys of the map, each once and at most `limit` of them.
pub record Inv (s : Store) : Type 0 where
  pub listed : s.order ≡ keys s.pending
  pub distinct : Distinct (keys s.pending)
  pub bounded : length s.pending ≤ s.limit
  pub room : 0 < s.limit

new-Inv : (limit : ℕ) → Inv (new limit)
unfolding new
new-Inv limit = record { listed = refl; distinct = tt; bounded = omega arith; room = ground arith }

length-insert_new :
    (k : String) (v : Pending) (m : Dict String Pending)
    → lookup k m ≡ none
    → length (insert k v m) ≡ suc (length m)
unfolding lookup insert
length-insert_new k v [] h = refl
length-insert_new k v ((j, w) ∷ m) h = ground (arith, length-insert_new k v m)

length-insert_old :
    (k : String) (v w : Pending) (m : Dict String Pending)
    → lookup k m ≡ some w
    → length (insert k v m) ≡ length m
unfolding lookup insert
length-insert_old k v w [] h = ground arith
length-insert_old k v w ((j, u) ∷ m) h = ground (arith, length-insert_old k v w m)

module _ (s : Store) (key id : String) (now : ℕ) (v : Inv s) where
  abbrev entry : Pending
  entry = record { causation_id = id; timestamp = now }

  abbrev added : Dict String Pending
  added = insert key entry s.pending

  enlist-keys : enlist (lookup key s.pending) key s.order ≡ keys added
  enlist-keys = elim (Option-cases (lookup key s.pending)) [
    | inl e ↦ rw e (rw v.listed (sym (keys-insert_new key entry s.pending e)))
    | inr (w, e) ↦ rw e (v.listed ∙ sym (keys-insert_old key entry w s.pending e))
  ]

  Distinct-added : Distinct (keys added)
  Distinct-added = elim (Option-cases (lookup key s.pending)) [
    | inl e ↦
        rw (keys-insert_new key entry s.pending e)
          (Distinct-snoc key (keys s.pending) (lookup-contains key s.pending e) v.distinct)
    | inr (w, e) ↦ rw (keys-insert_old key entry w s.pending e) v.distinct
  ]

  remember_lem : remember s key id now ≡ record s {
    pending = drop (length added - s.limit) added;
    order = drop (length added - s.limit) (keys added);
  }
  unfolding remember
  remember_lem = rw enlist-keys (rw (evict-drop s.limit added Distinct-added))

  kept : length added ≤ s.limit → (remember s key id now).pending ≡ added
  kept h = rw remember_lem (let e : length added - s.limit ≡ 0 = omega arith in rw e)

  full :
      lookup key s.pending ≡ none
      → length s.pending ≡ s.limit
      → (remember s key id now).pending ≡ drop 1 added
  full new_key h = rw remember_lem (
      let e : length added - s.limit ≡ 1 =
        omega (arith, length-insert_new key entry s.pending new_key) in
      rw e)

  remember-Inv : Inv (remember s key id now)
  remember-Inv = rw remember_lem (record {
    listed = sym (keys-drop n added);
    distinct = rw (keys-drop n added) (Distinct-drop n (keys added) Distinct-added);
    bounded = omega (arith, length-drop n added);
    room = v.room;
  })
    where
      n : ℕ
      n = length added - s.limit

-- Dropping the oldest entry of a full map that gained a new key.
drop-insert_self :
    (key : String) (e : Pending) (m : Dict String Pending)
    → 0 < length m
    → lookup key m ≡ none
    → lookup key (drop 1 (insert key e m)) ≡ some e
unfolding lookup insert
drop-insert_self key e [] h n = absurd (omega arith)
drop-insert_self key e ((k, w) ∷ m) h n = ground (arith, lookup-insert_self key e m)

drop-insert_ne :
    (key j : String) (e : Pending) (m : Dict String Pending)
    → key ≢ j
    → lookup key m ≡ none
    → (lookup j (drop 1 (insert key e m)) ≡ lookup j m)
      ⊎ ((rest : List String) × (keys m ≡ j ∷ rest))
unfolding lookup insert
drop-insert_ne key j e [] ne n = inl refl
drop-insert_ne key j e ((k, w) ∷ m) ne n = elim (Bool-cases (k == j)) [
  | inl hit ↦ inr (keys m, ap (λ x. x ∷ keys m) ((eq_iff k j).0 hit))
  | inr miss ↦ inl (ground (arith, lookup-insert_ne key j e m ne))
]

module _ (s : Store) (key id : String) (now : ℕ) (v : Inv s) where
  -- The request just remembered is found, also when the store was full.
  pub look_up-remember :
      look_up (remember s key id now) key ≡ some (record { causation_id = id; timestamp = now })
  unfolding look_up
  look_up-remember = elim (Option-cases (lookup key s.pending)) [
    | inr (w, e) ↦
        rw (kept s key id now v (omega (arith, length-insert_old key _ w s.pending e, v.bounded)))
          (lookup-insert_self key _ s.pending)
    | inl e ↦ elim (dec_lt (length s.pending) s.limit) [
      | yes lt ↦
          rw (kept s key id now v (omega (arith, length-insert_new key _ s.pending e)))
            (lookup-insert_self key _ s.pending)
      | no ge ↦
          rw (full s key id now v e (omega (arith, v.bounded)))
            (drop-insert_self key _ s.pending (omega (arith, v.room, v.bounded)) e)
    ]
  ]

  -- Remembering a request changes the answer for another key only if the store was full, the key
  -- was new to it, and the other key was the oldest.
  pub remember_evicts_oldest :
      (j : String)
      → key ≢ j
      → (look_up (remember s key id now) j ≡ look_up s j)
        ⊎ ((look_up s key ≡ none)
            × (len s ≡ s.limit)
            × ((rest : List String) × (s.order ≡ j ∷ rest)))
  unfolding look_up len
  remember_evicts_oldest j ne = elim (Option-cases (lookup key s.pending)) [
    | inr (w, e) ↦ inl (
        rw (kept s key id now v (omega (arith, length-insert_old key _ w s.pending e, v.bounded)))
          (lookup-insert_ne key j _ s.pending ne))
    | inl e ↦ elim (dec_lt (length s.pending) s.limit) [
      | yes lt ↦ inl (
          rw (kept s key id now v (omega (arith, length-insert_new key _ s.pending e)))
            (lookup-insert_ne key j _ s.pending ne))
      | no ge ↦
          rw (full s key id now v e (omega (arith, v.bounded)))
            (elim (drop-insert_ne key j _ s.pending ne e) [
              | inl same ↦ inl same
              | inr (rest, at) ↦ inr (e, omega (arith, v.bounded), (rest, v.listed ∙ at))
            ])
    ]
  ]

length-delete_le : (k : String) (m : Dict String Pending) → length (delete k m) ≤ length m
unfolding delete
length-delete_le k [] = omega arith
length-delete_le k ((j, w) ∷ m) = ground (arith, length-delete_le k m)

forget-Inv : (s : Store) (key : String) → Inv s → Inv (forget s key)
unfolding forget
forget-Inv s key v = elim (Option-cases (lookup key s.pending)) [
  | inl e ↦ rw (e, forget) v
  | inr (w, e) ↦
      rw (e, forget)
        (record {
          listed = ap (remove_first key) v.listed ∙ sym (keys-delete key s.pending v.distinct);
          distinct =
              rw (keys-delete key s.pending v.distinct)
                (Distinct-remove_first key (keys s.pending) v.distinct);
          bounded = omega (arith, length-delete_le key s.pending, v.bounded);
          room = v.room;
        })
]

step-Inv : (s : Store) (op : Op) → Inv s → Inv (step s op)
unfolding step
step-Inv s (remembers key id now) v = remember-Inv s key id now v
step-Inv s (forgets key) v = forget-Inv s key v

run_from-Inv : (s : Store) (ops : List Op) → Inv s → Inv (run s ops)
unfolding run
run_from-Inv s [] v = v
run_from-Inv s (op ∷ ops) v = run_from-Inv (step s op) ops (step-Inv s op v)

-- After any history of `Remember` and `Forget` calls on a new store, the order lists each key of
-- the map once, and there are at most as many as the store's limit, which is positive.
pub run-new-Inv : (limit : ℕ) (ops : List Op) → Inv (run (new limit) ops)
run-new-Inv limit ops = run_from-Inv (new limit) ops (new-Inv limit)

-- A forgotten request is not found, and no other answer changes.
pub look_up-forget :
    (s : Store) (key j : String)
    → (look_up (forget s key) key ≡ none) × (key ≢ j → look_up (forget s key) j ≡ look_up s j)
unfolding look_up forget
look_up-forget s key j = elim (Option-cases (lookup key s.pending)) [
  | inl e ↦ rw (e, forget) (e, λ ne. refl)
  | inr (w, e) ↦
      rw (e, forget) (lookup-delete_self key s.pending, λ ne. lookup-delete_ne key j s.pending ne)
]
