-- ===== src/Baseline/Extraction.antt =====
-- pkg/event/adapter.go and value.go: the changes that a payload declares; baseline.go: the flow of an
-- event and Apply as a whole. A map is its entries in some order, and an int64 its 64 bits.
use gta.Base.{
  ℕ, ◌^◌, Option, none, some, List, [], ◌∷◌, ltb, if◌then◌else◌, String, ◌==◌, string_eq,
}
use gta.Dispatch.Events.{
  Value, null, int_value, uint_value, array_value, Items, element, empty_array, Fields, as_string,
  as_object, get_field, field_in, object_in,
}
use gta.Baseline.{StateChange, BaselineStore, EnrichedStateChange, apply_changes}

unfoldable pub as_int : Value → Option ℕ
as_int (int_value n) = some n
as_int (uint_value n) = if ltb n (2 ^ 63) then some n else none
as_int _ = none

unfoldable pub as_array : Value → Option Items
as_array (array_value xs) = some xs
as_array _ = none

-- A field that is missing or is no text is the empty text.
unfoldable pub text_or_empty : Option Value → String
unfolding as_string
text_or_empty none = ""
text_or_empty (some v) = elim (as_string v) [ none ↦ "" | some s ↦ s ]

unfoldable pub value_or_null : Option Value → Value
value_or_null none = null
value_or_null (some v) = v

unfoldable pub int_or_zero : Option Value → ℕ
unfolding as_int
int_or_zero none = 0
int_or_zero (some v) = elim (as_int v) [ none ↦ 0 | some n ↦ n ]

-- One round of the loop, on an item that is an object.
unfoldable pub change_of : Fields → StateChange
unfolding text_or_empty value_or_null int_or_zero get_field
change_of io = record {
  subject_type = text_or_empty (get_field "subject_type" io);
  subject_id = text_or_empty (get_field "subject_id" io);
  op = text_or_empty (get_field "op" io);
  path = text_or_empty (get_field "path" io);
  before = value_or_null (get_field "before" io);
  after = value_or_null (get_field "after" io);
  version = int_or_zero (get_field "version" io);
  metadata = value_or_null (get_field "metadata" io);
}

abbrev pub item_change : Option Fields → List StateChange → List StateChange
item_change none scs = scs
item_change (some io) scs = change_of io ∷ scs

unfoldable pub changes_in : Items → List StateChange
unfolding change_of as_object
changes_in empty_array = []
changes_in (element item items) = item_change (as_object item) (changes_in items)

abbrev pub array_in : Option Value → Option Items
array_in none = none
array_in (some v) = as_array v

unfoldable pub extract_state_changes : Value → List StateChange
unfolding changes_in as_array field_in as_object
extract_state_changes v = elim (array_in (field_in "_state_changes" (as_object v))) [
  | none ↦ []
  | some items ↦ changes_in items
]

abbrev pub text_in : Option Value → Option String
text_in none = none
text_in (some v) = as_string v

abbrev pub first_text : Option String → Option String → String
first_text (some s) _ = s
first_text none (some s) = s
first_text none none = ""

-- The texts at _meta.flow_id and at flow_id, behind the flow of the context.
unfoldable pub extract_flow_id : String → Value → String
unfolding field_in object_in as_object as_string
extract_flow_id context v =
    if context == ""
    then first_text (text_in (field_in "flow_id" (object_in (field_in "_meta" (as_object v)))))
        (text_in (field_in "flow_id" (as_object v)))
    else context

-- What Apply reads of an event.
pub record BaselineEvent : Type 0 where
  pub id : String
  pub timestamp : ℕ
  pub context_flow_id : String
  pub payload : Value

-- An event without a change gives none; `none` is the error of an invalid change.
unfoldable pub apply :
    BaselineEvent → String → BaselineStore → BaselineStore × Option (List EnrichedStateChange)
unfolding apply_changes extract_state_changes extract_flow_id
apply ev session_id s =
    apply_changes
      record {
        session_id = session_id;
        flow_id = extract_flow_id ev.context_flow_id ev.payload;
        event_id = ev.id;
        now = ev.timestamp;
      }
      (extract_state_changes ev.payload) s
