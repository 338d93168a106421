-- ===== src/Correlation/Examples.antt =====
-- The theorems on the correlation store at a full store of two requests.
use gta.Base.{◌≡◌, ◌⊎◌, String, ◌≢◌, List, [], ◌∷◌, arith, eq_iff, none}
use gta.Correlation.{Store, Op, new, remember, look_up, len, run}
use gta.Correlation.Bounds.{Inv, run-new-Inv, remember_evicts_oldest}

abbrev history : List Op
history = Op.remembers "a" "e1" 1 ∷ Op.remembers "b" "e2" 2 ∷ Op.forgets "c" ∷ []

abbrev two : Store
two = run (new 2) history

run-new-Inv_example : Inv (run (new 2) history)
run-new-Inv_example = run-new-Inv 2 history

c-ne-b : ◌≢◌ {A = String} "c" "b"
c-ne-b = ground (arith, eq_iff "c" "b")

remember_evicts_oldest_example :
    (look_up (remember two "c" "e3" 3) "b" ≡ look_up two "b")
    ⊎ ((look_up two "c" ≡ none)
        × (len two ≡ two.limit)
        × ((rest : List String) × (two.order ≡ "b" ∷ rest)))
remember_evicts_oldest_example =
    remember_evicts_oldest two "c" "e3" 3 run-new-Inv_example "b" c-ne-b
