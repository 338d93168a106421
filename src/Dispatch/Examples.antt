-- ===== src/Dispatch/Examples.antt =====
-- The theorems on the dispatcher at one that has two packets under way.
use gta.Base.{◌+◌, ◌≡◌, refl, String, true, false, none, some, [], ◌∷◌, arith, string_eq, nat_eq}
use gta.Base.Dict.{lookup, insert}
use gta.Dispatch.Events.{string_value, object_value, empty_object, attribute}
use gta.Dispatch.{Packet, Response, PendingInput, Dispatcher, new_dispatcher, submit, close}
use gta.Dispatch.Futures.{
  submits, closes, step, Reach, fresh, moved, waits, times, futures_once, closed_resolves,
}

abbrev packet : Packet
packet = record {
  id = "";
  protocol = "tcp";
  flow_id = "7";
  src_port = 50000;
  dst_port = 8989;
  conn_id = "c1";
  source = "proxy";
  timestamp = 9;
}

abbrev start : Dispatcher
start = new_dispatcher "s1" 8989 []

abbrev first_sent : Dispatcher
first_sent = step start (submits packet "in_1" true)

abbrev both_sent : Dispatcher
both_sent = step first_sent (submits packet "in_2" true)

distinct_ids : lookup "in_2" first_sent.pending ≡ none
unfolding step submit new_dispatcher lookup insert
distinct_ids = refl

Reach-both_sent : Reach "s1" 8989 [] both_sent
unfolding new_dispatcher lookup
Reach-both_sent =
    moved (moved fresh (submits packet "in_1" true) refl) (submits packet "in_2" true) distinct_ids

futures_once_example : waits 1 both_sent.pending + times 1 both_sent.resolved ≡ 1
unfolding step submit new_dispatcher
futures_once_example = futures_once 1 Reach-both_sent

shut : Dispatcher
shut = step both_sent closes

closed_resolves_example : times 1 shut.resolved ≡ 1
unfolding shut step submit new_dispatcher close
closed_resolves_example = closed_resolves 1 (moved Reach-both_sent closes tt) refl (omega arith)

abbrev answer : String → Response
answer error = record {
  input_id = "in_1";
  done = false;
  error = error;
  payload = some (
      object_value (
        attribute "_meta" (object_value (attribute "direction" (string_value "up") empty_object))
          empty_object));
  schema_id = "";
  event_type = "move";
  correlation_key = "";
  causation_input_id = "";
}

abbrev waiting : PendingInput
waiting = record {
  req = record {
    input_id = "in_1";
    packet_id = "in_1";
    protocol_hint = "tcp";
    flow_id = "7";
    direction = "client_to_server";
    timestamp = 9;
  };
  conn_id = "c1";
  source = "proxy";
  results = answer "bad" ∷ answer "" ∷ answer "" ∷ [];
  future = 0;
}
