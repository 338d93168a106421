-- ===== src/Baseline/Faults.antt =====
-- baseline.go: what is kept of a deleted value and of an event that fails.
use gta.Base.{
  string_eq, ◌≡◌, ◌∙◌, sym, ap, refl, true, false, none, some, List, [], ◌∷◌, ◌++◌, All, if_elim,
  arith,
}
use gta.Base.Dict.{lookup}
use gta.Dispatch.Events.{Value, null}
use gta.Baseline.{
  key_eq, StateChange, BaselineStore, Origin, is_valid, is_null, key_of, known, with_before,
  put_change, apply_change, and_result, apply_changes,
}
use gta.Baseline.Past.{put_null, and_result-store, valid_round}

-- A valid "delete" of a known value, without a value after it, leaves the value in the baseline: it is
-- the resolved value before the next change of that path too.
pub deleted_value_remains :
    (o : Origin) (sc next : StateChange) (s : BaselineStore) (v : Value)
    → is_valid sc ≡ true
    → sc.op ≡ "delete"
    → sc.after ≡ null
    → is_valid next ≡ true
    → key_of o next ≡ key_of o sc
    → next.path ≡ sc.path
    → known sc.path (lookup (key_of o sc) s) ≡ some v
    → (apply_changes o (sc ∷ (next ∷ [])) s).1
      ≡ some (with_before o sc (some v) ∷ (with_before o next (some v) ∷ []))
unfolding apply_change apply_changes
deleted_value_remains o sc next s v ok deletes gone ok' same path at =
    ap (λ z. z.1)
      (valid_round o sc (next ∷ []) s ok
        ∙ ap (λ z. and_result (apply_change o sc s).1 (apply_changes o (next ∷ []) z))
            (put_null o sc s (ap is_null gone))
        ∙ ap (and_result (apply_change o sc s).1) (valid_round o next [] s ok'))
    ∙ ap
        (λ z. some (
          with_before o sc z
          ∷ (with_before o next (known next.path (lookup (key_of o next) s)) ∷ [])))
        at
    ∙ ap (λ z. some (with_before o sc (some v) ∷ (with_before o next z ∷ [])))
        (ap (λ z. known z (lookup (key_of o next) s)) path
          ∙ ap (λ z. known sc.path (lookup z s)) same
          ∙ at)

-- An invalid change behind valid ones fails the event, but the store keeps what the valid ones made of
-- it, and the changes behind it are not made.
pub failed_event_changes_store :
    (o : Origin) (scs : List StateChange) (bad : StateChange) (rest : List StateChange)
    (s : BaselineStore)
    → All (λ sc. is_valid sc ≡ true) scs
    → is_valid bad ≡ false
    → apply_changes o (scs ++ (bad ∷ rest)) s ≡ ((apply_changes o scs s).0, none)
unfolding apply_changes
failed_event_changes_store o [] bad rest s valid e =
    if_elim (λ z. z ≡ (s, none)) (is_valid bad) _ _ (λ t. absurd (ground (arith, t, e))) (λ f. refl)
failed_event_changes_store o (sc ∷ scs) bad rest s (ok, valid) e =
    valid_round o sc (scs ++ (bad ∷ rest)) s ok
    ∙ ap (and_result (apply_change o sc s).1)
        (failed_event_changes_store o scs bad rest (put_change o sc s) valid e)
    ∙ sym (
        ap (λ z. (z.0, none)) (valid_round o sc scs s ok)
        ∙ ap (λ z. (z, none)) (and_result-store (apply_change o sc s).1 _))
