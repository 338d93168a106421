-- ===== src/Dispatch/Causation.antt =====
-- dispatcher.go: the causation index, the direction of a packet, and the events that a response
-- becomes.
use gta.Base.{
  ◌⊎◌, ℕ, suc, ◌-◌, ◌%◌, ◌≤◌, ◌<◌, ◌≡◌, ◌≢◌, refl, ap, sym, subst, ◌∙◌, String, Bool, true, false,
  not, ◌&&◌, Option, none, some, List, [], ◌∷◌, ◌++◌, arith, length, eqb, ltb, leb, ◌==◌, string_eq,
  if◌then◌else◌, if_elim, Option-cases, inl, inr, eq_iff, length-drop,
}
use gta.Base.Dict.{Dict, lookup, insert}
use gta.Base.Distinct.{Distinct, Distinct-drop, Distinct-snoc}
use gta.Fifo.{keys, evict, evict-drop, keys-insert_new, keys-drop, lookup-contains}
use gta.Dispatch.Events.{Value}
use gta.Dispatch.{
  Dispatcher, PendingInput, Response, Event, usable, event_of, convert_one, convert_from,
  convert_results_to_events,
}
use gta.Dispatch.Index.{CausationIndex, put, put_new, get, infer_direction}

-- The order lists the inputs of the index, each once, and they are within the limit.
pub record Bounded (c : CausationIndex) : Type 0 where
  pub listed : c.order ≡ keys c.entries
  pub distinct : Distinct (keys c.entries)
  pub within : length c.entries ≤ c.limit

length-keys : (m : Dict String String) → length (keys m) ≡ length m
length-keys [] = refl
length-keys ((k, v) ∷ m) = ap suc (length-keys m)

put_new-Bounded :
    (c : CausationIndex) (old : Option String) (input_id id : String)
    → lookup input_id c.entries ≡ old
    → Bounded c
    → Bounded (put_new c old input_id id)
unfolding put_new
put_new-Bounded c (some id') input_id id at b = b
put_new-Bounded c none input_id id at b =
    let m = insert input_id id c.entries in
    let ks : c.order ++ input_id ∷ [] ≡ keys m =
      ap (λ z. z ++ input_id ∷ []) b.listed ∙ sym (keys-insert_new input_id id c.entries at) in
    let d : Distinct (keys m) = subst Distinct (sym (keys-insert_new input_id id c.entries at)) (
      Distinct-snoc input_id (keys c.entries) (lookup-contains input_id c.entries at) b.distinct) in
    let e = ap (λ z. evict c.limit z m) ks ∙ evict-drop c.limit m d in
    subst {A = List String × Dict String String}
      (λ w. Bounded (record c { entries = w.1; order = w.0 })) (sym e)
      (record {
        listed = sym (keys-drop (length m - c.limit) m);
        distinct =
            subst Distinct (sym (keys-drop (length m - c.limit) m))
              (Distinct-drop (length m - c.limit) (keys m) d);
        within = omega (arith, length-drop (length m - c.limit) m);
      })

-- The first event registered for an input stays its main event: a second one changes nothing, and
-- the index stays within its limit, each input once.
pub put-Bounded :
    (c : CausationIndex) (input_id id : String)
    → Bounded c
    → Bounded (put c input_id id) × ((get c input_id ≡ none) ⊎ (put c input_id id ≡ c))
unfolding put put_new
put-Bounded c input_id id b = (
  put_new-Bounded c (lookup input_id c.entries) input_id id refl b,
  elim (Option-cases (lookup input_id c.entries)) [
    | inl absent ↦ inl absent
    | inr (x, e) ↦ inr (ap (λ old. put_new c old input_id id) e)
  ],
)

-- The direction seen from the other end.
unfoldable pub reversed : String → String
reversed s =
    if s == "client_to_server"
    then "server_to_client"
    else if s == "server_to_client"
    then "client_to_server"
    else s

-- At most one of the tests of a pair holds.
told_apart :
    (a b c d : Bool)
    → (a && b) ≡ false
    → (c && d) ≡ false
    → (if b
        then "client_to_server"
        else if a
        then "server_to_client"
        else if d
        then "client_to_server"
        else if c
        then "server_to_client"
        else "unknown")
      ≡ reversed (
          if a
          then "client_to_server"
          else if b
          then "server_to_client"
          else if c
          then "client_to_server"
          else if d
          then "server_to_client"
          else "unknown")
unfolding reversed
told_apart true true c d x y = cc
told_apart true false c d x y = refl
told_apart false true c d x y = refl
told_apart false false true true x y = cc
told_apart false false true false x y = refl
told_apart false false false true x y = refl
told_apart false false false false x y = refl

-- The two directions of one connection are told apart consistently: with the ports exchanged the
-- direction is the reverse one, whatever the hint.
pub infer_direction-swap :
    (a b server_port : ℕ)
    → infer_direction b a server_port ≡ reversed (infer_direction a b server_port)
unfolding infer_direction
infer_direction-swap a b server_port =
    let sp = server_port % 65536 in
    told_apart (ltb 0 server_port && eqb b sp && not (eqb a sp))
      (ltb 0 server_port && eqb a sp && not (eqb b sp)) (ltb b 1024 && leb 1024 a)
      (ltb a 1024 && leb 1024 b) (ground arith) (ground arith)

-- Which results become events, by their position.
unfoldable pub position : ℕ → Option Value → List ℕ
position i none = []
position i (some v) = i ∷ []

unfoldable pub positions : ℕ → List Response → List ℕ
unfolding position
positions i [] = []
positions i (r ∷ rs) = position i (usable r) ++ positions (suc i) rs

abbrev pub ordinals : List Event → List ℕ
ordinals [] = []
ordinals (e ∷ es) = e.message_ordinal ∷ ordinals es

ordinals-append : (es fs : List Event) → ordinals (es ++ fs) ≡ ordinals es ++ ordinals fs
ordinals-append [] fs = refl
ordinals-append (e ∷ es) fs = ap (◌∷◌ e.message_ordinal) (ordinals-append es fs)

module _ (d : Dispatcher) (p : PendingInput) (ids : ℕ → String) where
  convert_one-ordinals :
      (i : ℕ) (r : Response) (v : Option Value) (c : CausationIndex)
      → ordinals (convert_one d p ids i r v c).0 ≡ position i v
  unfolding convert_one event_of position
  convert_one-ordinals i r none c = refl
  convert_one-ordinals i r (some v) c = refl

  convert_from-ordinals :
      (i : ℕ) (rs : List Response) (c : CausationIndex)
      → ordinals (convert_from d p ids i rs c).0 ≡ positions i rs
  unfolding convert_from positions
  convert_from-ordinals i [] c = refl
  convert_from-ordinals i (r ∷ rs) c =
      let here = convert_one d p ids i r (usable r) c in
      ordinals-append here.0 (convert_from d p ids (suc i) rs here.1).0
      ∙ ap (λ z. z ++ ordinals (convert_from d p ids (suc i) rs here.1).0)
          (convert_one-ordinals i r (usable r) c)
      ∙ ap (λ z. position i (usable r) ++ z) (convert_from-ordinals (suc i) rs here.1)

  -- A response becomes one event for each of its usable results, in their order, and each event
  -- carries the position of its result.
  pub convert-ordinals : ordinals (convert_results_to_events d p ids).0 ≡ positions 0 p.results
  unfolding convert_results_to_events
  convert-ordinals = convert_from-ordinals 0 p.results d.causation

  skipped_one :
      (i : ℕ) (r : Response) (v : Option Value) (c : CausationIndex)
      → 0 < i
      → (convert_one d p ids i r v c).1 ≡ c
  unfolding convert_one
  skipped_one i r none c pos = refl
  skipped_one i r (some v) c pos = ground (arith, pos)

  skipped :
      (i : ℕ) (rs : List Response) (c : CausationIndex)
      → 0 < i
      → (convert_from d p ids i rs c).1 ≡ c
  unfolding convert_from
  skipped i [] c pos = refl
  skipped i (r ∷ rs) c pos =
      skipped (suc i) rs (convert_one d p ids i r (usable r) c).1 (omega arith)
      ∙ skipped_one i r (usable r) c pos

  -- If the first result of a response is an error, none of its events is registered as the main
  -- event of the input, although others follow.
  pub errored_first_unregistered :
      (r : Response) (rs : List Response)
      → p.results ≡ r ∷ rs
      → r.error ≢ ""
      → (convert_results_to_events d p ids).1 ≡ d.causation
  unfolding convert_results_to_events convert_from convert_one usable
  errored_first_unregistered r rs results err =
      subst (λ z. (convert_from d p ids 0 z d.causation).1 ≡ d.causation) (sym results)
        (if_elim
          (λ u.
            (convert_from d p ids 1 rs (convert_one d p ids 0 r u d.causation).1).1 ≡ d.causation)
          (not (r.error == "")) none r.payload (λ e. skipped 1 rs d.causation (omega arith))
          (λ e. absurd (ground (arith, e, eq_iff r.error "", err))))
