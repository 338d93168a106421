-- ===== src/Dispatch/Events.antt =====
-- pkg/event/value.go and dispatcher.go: the payloads, as far as the dispatcher reads them, and the
-- direction that a payload may name. An int64 or a float64 is given by its 64 bits, and bytes are
-- numbers.
use gta.Base.{ℕ, List, String, Bool, Option, none, some, ◌==◌, string_eq, if◌then◌else◌}

mutual
  pub data Value : Type 0 where
    null : Value
    int_value uint_value float_value : ℕ → Value
    bytes_value : List ℕ → Value
    bool_value : Bool → Value
    string_value : String → Value
    array_value : Items → Value
    object_value : Fields → Value

  -- A map's entries in some order.
  pub data Fields : Type 0 where
    attribute : String → Value → Fields → Fields
    empty_object : Fields

  pub data Items : Type 0 where
    element : Value → Items → Items
    empty_array : Items

unfoldable pub as_string : Value → Option String
as_string (string_value s) = some s
as_string _ = none

unfoldable pub as_object : Value → Option Fields
as_object (object_value fs) = some fs
as_object _ = none

unfoldable pub get_field : String → Fields → Option Value
get_field name empty_object = none
get_field name (attribute k v fs) = if k == name then some v else get_field name fs

unfoldable pub direction_in : Option Value → Option String
unfolding as_string
direction_in none = none
direction_in (some v) = as_string v

unfoldable pub field_in : String → Option Fields → Option Value
unfolding get_field
field_in name none = none
field_in name (some fs) = get_field name fs

unfoldable pub object_in : Option Value → Option Fields
unfolding as_object
object_in none = none
object_in (some v) = as_object v

-- `extractDirectionOverride`.
unfoldable pub direction_override : Value → Option String
unfolding direction_in field_in object_in
direction_override v =
    direction_in (field_in "direction" (object_in (field_in "_meta" (as_object v))))
