-- ===== src/Godot/Calls.antt =====
-- decode.go: what a remote call, an authentication and a handshake become.
use gta.Base.{
  ℕ, zero, suc, ◌+◌, ◌-◌, Bool, true, false, Option, none, some, List, [], ◌∷◌, ◌++◌, length, take,
  drop, leb, eqb, ◌&&◌, if◌then◌else◌, String, ascii, string_eq, list_eq, nat_eq, ◌==◌,
}
use gta.Base.Dict.{insert}
use gta.Godot.Buffer.{little_endian}
use gta.Godot.Values.{Value, Values, dict, empty, cons, no_entries, Sprintf}
use gta.Godot.Packets.{SmPacket}
use gta.Godot.Texts.{index_bytes, first_line, capped_hex}
use gta.Godot.Events.{Field, text, value, values, Payload, Event, FlowState, direction_of}

-- An event without a correlation key; its schema is its type with `.v1`.
unfoldable pub plain : List ℕ → Payload → String → List ℕ → Bool → Event
unfolding ascii
plain event_type payload direction msg_name is_push = record {
  event_type = event_type;
  schema_id = event_type ++ ascii ".v1";
  payload = payload;
  direction = direction;
  msg_name = msg_name;
  is_push = is_push;
  correlation_key = [];
}

abbrev pub space : List ℕ
space = 32 ∷ []

-- The text between the first two spaces, as the payload keeps it.
unfoldable pub path_after : List ℕ → Option ℕ → Payload → Payload
unfolding insert
path_after rest (some n) payload = insert "path" (text (take n rest)) payload
path_after rest none payload = payload

unfoldable pub path_of : List ℕ → Option ℕ → Payload → Payload
unfolding path_after index_bytes
path_of line (some start) payload =
    let rest = drop (start + 1) line in path_after rest (index_bytes rest space) payload
path_of line none payload = payload

unfoldable pub handshake_event : FlowState → List ℕ → Event
unfolding plain path_of first_line direction_of insert index_bytes ascii
handshake_event fs hdr =
    let line = first_line hdr in
    let start = insert "request_line" (text line) [] in
    plain (ascii "godot_world.handshake")
      (if fs.is_server
        then insert "status" (text line) start
        else path_of line (index_bytes line space) start)
      (direction_of fs) (ascii "handshake") false

unfoldable pub decode_auth_token : List ℕ → List ℕ
unfolding little_endian capped_hex
decode_auth_token b =
    let n = little_endian (take 4 (drop 4 b)) in
    if leb 8 (length b) && eqb (little_endian (take 4 b)) 4 && leb n (length b - 8)
    then take n (drop 8 b)
    else capped_hex b

unfoldable pub auth_event : FlowState → SmPacket → Event
unfolding plain decode_auth_token direction_of insert ascii
auth_event fs p =
    plain (ascii "godot_world.auth")
      (if fs.is_server
        then insert "challenge" (text p.auth_payload) []
        else insert "auth_token" (text (decode_auth_token p.auth_payload)) [])
      (direction_of fs) (ascii "auth") false

-- `args[i]`, if there is one.
abbrev pub arg : Values → ℕ → Option Value
arg empty i = none
arg (cons x xs) zero = some x
arg (cons x xs) (suc i) = arg xs i

unfoldable pub put_some : String → (Value → Field) → Option Value → Payload → Payload
unfolding insert
put_some key as_field (some x) payload = insert key (as_field x) payload
put_some key as_field none payload = payload

-- `payload["data"]`, or the empty map.
unfoldable pub data_or_empty : Option Value → Payload → Payload
unfolding insert
data_or_empty (some x) payload = insert "data" (value x) payload
data_or_empty none payload = insert "data" (value (dict no_entries)) payload

-- The type of the message as a name, where there is one that is not empty.
unfoldable pub name_or : List ℕ → Option Value → (Value → List ℕ) → List ℕ
name_or name none shown = name
name_or name (some t) shown = if shown t == [] then name else shown t

-- correlationFor.
unfoldable pub correlation_for : (Value → List ℕ) → Option Value → List ℕ
unfolding ascii
correlation_for shown (some id) = ascii "req:" ++ shown id
correlation_for shown none = []

module _ (fmt : Sprintf) where
  abbrev shown_text : Value → Field
  shown_text x = text (fmt.shown x)

  -- The arguments are the id of the request, its type, its data and the instance.
  unfoldable pub data_rpc : String → List ℕ → List ℕ → SmPacket → Event
  unfolding plain put_some data_or_empty name_or correlation_for
  data_rpc dir ev_type name p =
      record (plain ev_type
        (put_some "instance_id" shown_text (arg p.args 3) (
          data_or_empty (arg p.args 2) (
            put_some "type" shown_text (arg p.args 1)
              (put_some "request_id" value (arg p.args 0) []))))
        dir (name_or name (arg p.args 1) fmt.shown) false) {
          correlation_key = correlation_for fmt.shown (arg p.args 0);
        }

  unfoldable pub data_push : String → SmPacket → Event
  unfolding plain put_some data_or_empty name_or ascii
  data_push dir p =
      plain (ascii "godot_world.data_push")
        (data_or_empty (arg p.args 1) (put_some "type" shown_text (arg p.args 0) [])) dir
        (name_or (ascii "data_push") (arg p.args 0) fmt.shown) true

  unfoldable pub put_args : Values → Payload → Payload
  unfolding insert
  put_args empty payload = payload
  put_args (cons x xs) payload = insert "args" (values (cons x xs)) payload

  -- The bytes, where there are some.
  unfoldable pub put_raw : Option (List ℕ) → Payload → Payload
  unfolding insert capped_hex
  put_raw none payload = payload
  put_raw (some []) payload = payload
  put_raw (some (b ∷ bs)) payload = insert "raw_hex" (text (capped_hex (b ∷ bs))) payload

  unfoldable pub generic_rpc : String → List ℕ → SmPacket → Event
  unfolding plain put_args put_raw insert ascii
  generic_rpc dir node p =
      plain (ascii "godot_world.rpc")
        (put_raw p.byte_only (
          put_args p.args
            (insert "method" (text (fmt.name_of p.name_id)) (insert "node" (text node) []))))
        dir node false
