-- ===== src/Baseline/Examples.antt =====
-- The theorems on baselines at a player whose gold is set, deleted and set again.
use gta.Base.{ℕ, ◌≡◌, refl, true, some, [], ◌∷◌, string_eq}
use gta.Base.Dict.{lookup}
use gta.Dispatch.Events.{
  Value, null, int_value, string_value, array_value, object_value, attribute, empty_object, element,
  empty_array,
}
use gta.Baseline.{
  key_eq, StateChange, BaselineStore, Origin, is_valid, known, with_before, put_change,
  apply_changes, key_of, updated,
}
use gta.Baseline.Past.{Agrees, last_after, after_all, expected, apply_changes-Agrees}
use gta.Baseline.Faults.{deleted_value_remains}
use gta.Baseline.Extraction.{extract_state_changes, extract_flow_id}

abbrev origin : Origin
origin = record { session_id = "s"; flow_id = "f"; event_id = "e1"; now = 5 }

abbrev sets : ℕ → StateChange
sets n = record {
  subject_type = "player";
  subject_id = "p1";
  op = "set";
  path = "gold";
  before = null;
  after = int_value n;
  version = 1;
  metadata = null;
}

abbrev deletes : StateChange
deletes = record (sets 0) { op = "delete"; after = null }

sets_valid : (n : ℕ) → is_valid (sets n) ≡ true
unfolding is_valid
sets_valid n = refl

deletes_valid : is_valid deletes ≡ true
unfolding is_valid
deletes_valid = refl

nothing-Agrees : Agrees [] []
unfolding known lookup last_after
nothing-Agrees = record { values = λ key path. refl; settled = λ key b e. absurd cc }

apply_changes-Agrees_example :
    ((apply_changes origin (sets 3 ∷ (deletes ∷ (sets 4 ∷ []))) []).1
      ≡ some (expected origin (sets 3 ∷ (deletes ∷ (sets 4 ∷ []))) []))
    × Agrees
        (apply_changes origin (sets 3 ∷ (deletes ∷ (sets 4 ∷ []))) []).0
        (after_all origin (sets 3 ∷ (deletes ∷ (sets 4 ∷ []))) [])
apply_changes-Agrees_example =
    apply_changes-Agrees origin (sets 3 ∷ (deletes ∷ (sets 4 ∷ []))) [] [] nothing-Agrees
      (sets_valid 3, (deletes_valid, (sets_valid 4, tt)))

abbrev three : BaselineStore
three = put_change origin (sets 3) []

deleted_value_remains_example :
    (apply_changes origin (deletes ∷ (sets 4 ∷ [])) three).1
    ≡ some (
        with_before origin deletes (some (int_value 3))
        ∷ (with_before origin (sets 4) (some (int_value 3)) ∷ []))
unfolding put_change key_of updated known lookup
deleted_value_remains_example =
    deleted_value_remains origin deletes (sets 4) three (int_value 3) deletes_valid refl refl
      (sets_valid 4) refl refl refl

-- A payload that declares a change without a version, and names its flow.
abbrev payload : Value
payload = object_value (
    attribute "_state_changes"
      (array_value (
        element
          (object_value (
            attribute "subject_type" (string_value "player") (
              attribute "subject_id" (string_value "p1") (
                attribute "op" (string_value "delete")
                  (attribute "path" (string_value "gold") empty_object)))))
          (element null empty_array)))
      (attribute "flow_id" (string_value "f") empty_object))

one_change : extract_state_changes payload ≡ record deletes { version = 0 } ∷ []
unfolding extract_state_changes
one_change = refl

flow_of_payload : extract_flow_id "" payload ≡ "f"
unfolding extract_flow_id
flow_of_payload = refl
