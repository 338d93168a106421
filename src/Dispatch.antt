-- ===== src/Dispatch.antt =====
-- pkg/decode/dispatcher.go: packets go to the decoder plugin over one stream, and each answer
-- finds the caller that waits for it. The stream, the generated ids and the decoding of MsgPack are
-- arguments. A `Future` is a number, in the order of issue, and `resolved` logs each call of
-- `resolve`; a second one would close a closed channel. The mutex makes `Submit`, `Close` and each
-- round of `recvLoop` one step; `resolve` runs after the entry has left the map under the lock.
pub mod Events
pub mod Index
mod Examples
pub mod Futures
pub mod Causation
use gta.Base.{
  ℕ, suc, ◌+◌, ◌%◌, String, Bool, true, false, not, ◌&&◌, Option, none, some, List, [], ◌∷◌, ◌++◌,
  map, eqb, leb, ltb, ◌==◌, string_eq, if◌then◌else◌,
}
use gta.Base.Dict.{Dict, lookup, insert, delete}
use gta.Base.Distinct.{contains}
use gta.Fifo.{evict}
use Index.{CausationIndex, new_causation_index, put, get, infer_direction}
use Events.{Value, direction_override}

-- `flow_id` is what `FlowIDFromEndpoints` gives for the ends of the packet.
pub record Packet : Type 0 where
  pub id : String
  pub protocol : String
  pub flow_id : String
  pub src_port : ℕ
  pub dst_port : ℕ
  pub conn_id : String
  pub source : String
  pub timestamp : ℕ

pub record Request : Type 0 where
  pub input_id : String
  pub packet_id : String
  pub protocol_hint : String
  pub flow_id : String
  pub direction : String
  pub timestamp : ℕ

-- `payload` is what `UnmarshalValueMsgpack` makes of the bytes.
pub record Response : Type 0 where
  pub input_id : String
  pub done : Bool
  pub error : String
  pub payload : Option Value
  pub schema_id : String
  pub event_type : String
  pub correlation_key : String
  pub causation_input_id : String

pub record Event : Type 0 where
  pub id : String
  pub session_id : String
  pub event_type : String
  pub schema_id : String
  pub source_id : String
  pub payload : Value
  pub timestamp : ℕ
  pub flow_id : String
  pub raw_packet_id : String
  pub message_ordinal : ℕ
  pub direction : String
  pub conn_id : String
  pub source : String
  pub correlation : String
  pub causation : String

pub record PendingInput : Type 0 where
  pub req : Request
  pub conn_id : String
  pub source : String
  pub results : List Response
  pub future : ℕ

pub data Outcome : Type 0 where
  events : List Event → Outcome
  stream_failed dispatcher_closed : Outcome

pub record Dispatcher : Type 0 where
  pub session_id : String
  pub server_port : ℕ
  pub schemas : List String
  pub closed : Bool
  pub listening : Bool
  pub pending : Dict String PendingInput
  pub causation : CausationIndex
  pub issued : ℕ
  pub resolved : List (ℕ × Outcome)

unfoldable pub new_dispatcher : String → ℕ → List String → Dispatcher
unfolding new_causation_index
new_dispatcher session_id server_port schemas = record {
  session_id = session_id;
  server_port = server_port;
  schemas = schemas;
  closed = false;
  listening = true;
  pending = [];
  causation = new_causation_index 1024;
  issued = 0;
  resolved = [];
}

abbrev pub or_else {ℓ} : {A : Type ℓ} → Option A → A → A
or_else none x = x
or_else (some y) x = y

-- An unregistered schema falls back.
unfoldable pub schema_of : Dispatcher → String → String
schema_of d schema_id =
    if not (schema_id == "") && not (contains schema_id d.schemas) then "unknown.v1" else schema_id

unfoldable pub event_of :
    Dispatcher → PendingInput → CausationIndex → String → ℕ → Response → Value → Event
unfolding schema_of
event_of d p c id i r payload = record {
  id = id;
  session_id = d.session_id;
  event_type = r.event_type;
  schema_id = schema_of d r.schema_id;
  source_id = p.req.protocol_hint;
  payload = payload;
  timestamp = p.req.timestamp;
  flow_id = p.req.flow_id;
  raw_packet_id = p.req.packet_id;
  message_ordinal = i;
  direction = or_else (direction_override payload) p.req.direction;
  conn_id = p.conn_id;
  source = p.source;
  correlation = r.correlation_key;
  causation = if r.causation_input_id == "" then "" else or_else (get c r.causation_input_id) "";
}

-- The payload of a result that becomes an event.
unfoldable pub usable : Response → Option Value
usable r = if not (r.error == "") then none else r.payload

-- The loop from result `i`; `ids` generates the ids of the events.
unfoldable pub convert_one :
    Dispatcher
    → PendingInput
    → (ℕ → String)
    → ℕ
    → Response
    → Option Value
    → CausationIndex
    → List Event × CausationIndex
unfolding event_of put
convert_one d p ids i r none c = ([], c)
convert_one d p ids i r (some payload) c =
    (event_of d p c (ids i) i r payload ∷ [], if eqb i 0 then put c p.req.input_id (ids i) else c)

unfoldable pub convert_from :
    Dispatcher
    → PendingInput
    → (ℕ → String)
    → ℕ
    → List Response
    → CausationIndex
    → List Event × CausationIndex
unfolding convert_one usable
convert_from d p ids i [] c = ([], c)
convert_from d p ids i (r ∷ rs) c =
    let (here, c') = convert_one d p ids i r (usable r) c in
    let (rest, c'') = convert_from d p ids (suc i) rs c' in (here ++ rest, c'')

unfoldable pub convert_results_to_events :
    Dispatcher → PendingInput → (ℕ → String) → List Event × CausationIndex
unfolding convert_from
convert_results_to_events d p ids = convert_from d p ids 0 p.results d.causation

pub data SubmitResult : Type 0 where
  submitted : ℕ → SubmitResult
  submit_closed send_failed : SubmitResult

unfoldable pub request_of : Dispatcher → Packet → String → Request
unfolding infer_direction
request_of d pkt input_id = record {
  input_id = input_id;
  packet_id = if pkt.id == "" then input_id else pkt.id;
  protocol_hint = pkt.protocol;
  flow_id = pkt.flow_id;
  direction = infer_direction pkt.src_port pkt.dst_port d.server_port;
  timestamp = pkt.timestamp;
}

-- `input_id` is newly generated, and `sends` is what `Send` answers.
unfoldable pub submit : Dispatcher → Packet → String → Bool → Dispatcher × SubmitResult
unfolding request_of
submit d pkt input_id sends =
    if d.closed then (d, submit_closed) else if not sends then (d, send_failed) else (
      record d {
        pending =
            insert input_id
              (record {
                req = request_of d pkt input_id;
                conn_id = pkt.conn_id;
                source = pkt.source;
                results = [];
                future = d.issued;
              })
              d.pending;
        issued = suc d.issued;
      },
      submitted d.issued,
    )

unfoldable pub received : Dispatcher → Response → (ℕ → String) → Option PendingInput → Dispatcher
unfolding convert_results_to_events
received d resp ids none = d
received d resp ids (some p) =
    if resp.done
    then record d {
      pending = delete resp.input_id d.pending;
      causation = (convert_results_to_events d p ids).1;
      resolved = (p.future, events (convert_results_to_events d p ids).0) ∷ d.resolved;
    }
    else record d {
      pending = insert resp.input_id (record p { results = p.results ++ resp ∷ [] }) d.pending;
    }

-- One round of `recvLoop` with a response.
unfoldable pub receive : Dispatcher → Response → (ℕ → String) → Dispatcher
unfolding received
receive d resp ids =
    if resp.input_id == "" then d else received d resp ids (lookup resp.input_id d.pending)

unfoldable pub resolve_all :
    Outcome → Dict String PendingInput → List (ℕ × Outcome) → List (ℕ × Outcome)
resolve_all o [] log = log
resolve_all o ((_, p) ∷ m) log = (p.future, o) ∷ resolve_all o m log

unfoldable pub fail_all_pending : Dispatcher → Dispatcher
unfolding resolve_all
fail_all_pending d = record d {
  pending = [];
  resolved = resolve_all stream_failed d.pending d.resolved;
}

-- `recvLoop` ends with an error of the stream.
unfoldable pub stream_ends : Dispatcher → Dispatcher
unfolding fail_all_pending
stream_ends d = record (fail_all_pending d) { listening = false }

unfoldable pub close : Dispatcher → Dispatcher
unfolding resolve_all
close d = if d.closed then d else record d {
  closed = true;
  pending = [];
  resolved = resolve_all dispatcher_closed d.pending d.resolved;
}

abbrev pub is_healthy : Dispatcher → Bool
is_healthy d = d.listening
