-- ===== src/Godot/Stream.antt =====
-- decode.go: Decode. The segment that the SDK extracts and what its reassembler has buffered for the
-- flow are arguments, and the buffer that is left is a result.
use gta.Base.{
  ℕ, zero, suc, Bool, true, Option, none, some, List, [], ◌∷◌, ◌++◌, length, take, drop, eqb, ltb,
  ◌&&◌, not, if◌then◌else◌, String, string_eq,
}
use gta.Base.Dict.{Dict, insert, delete, lookup}
use gta.WebSocket.{WsFrame, parse_ws_frames}
use gta.Godot.Values.{Sprintf}
use gta.Godot.Wire.{PathRegistry, new_path_registry}
use gta.Godot.Texts.{looks_like_http, index_http_header, ws_resync}
use gta.Godot.Events.{Event, FlowState, new_flow}
use gta.Godot.Calls.{handshake_event}
use gta.Godot.Session.{Turn, on_frames}

-- How the loop over the buffer ends: with the buffer that is left, or in a panic, after which the
-- events are dropped. The fuel is the model's.
pub data Ending : Type 0 where
  ended panicked : FlowState → PathRegistry → List Event → List ℕ → Ending
  out_of_fuel : Ending

module _ (fmt : Sprintf) where
  -- `again` is the rest of the loop.
  abbrev pub Again : Type 0
  Again = FlowState → PathRegistry → List Event → List ℕ → Ending

  unfoldable pub after_frames :
      Again → FlowState → PathRegistry → List Event → List ℕ → Option Turn → Ending
  after_frames again fs reg events rest none = panicked fs reg events rest
  after_frames again fs reg events rest (some t) = again t.flow t.reg (events ++ t.events) rest

  unfoldable pub on_parse :
      Again → FlowState → PathRegistry → List Event → List ℕ → Option (List WsFrame × ℕ) → Ending
  unfolding after_frames on_frames ws_resync
  on_parse again fs reg events raw none = panicked fs reg events raw
  on_parse again fs reg events raw (some (frames, consumed)) =
      if eqb consumed 0
      then (if ltb 0 (ws_resync raw)
          then again fs reg events (drop (ws_resync raw) raw)
          else ended fs reg events raw)
      else after_frames again fs reg events (drop consumed raw) (on_frames fmt frames fs reg)

  unfoldable pub on_handshake :
      Again → FlowState → PathRegistry → List Event → List ℕ → Option ℕ → Ending
  unfolding handshake_event
  on_handshake again fs reg events raw none = ended fs reg events raw
  on_handshake again fs reg events raw (some n) =
      again (record fs { handshake_done = true }) reg
        (events ++ handshake_event fs (take n raw) ∷ []) (drop n raw)

  -- One round on a buffer that is not empty.
  unfoldable pub round : Again → FlowState → PathRegistry → List Event → List ℕ → Ending
  unfolding on_parse on_handshake looks_like_http index_http_header parse_ws_frames
  round again fs reg events raw =
      if not fs.handshake_done && looks_like_http raw
      then on_handshake again fs reg events raw (index_http_header raw)
      else on_parse again (record fs { handshake_done = true }) reg events raw (parse_ws_frames raw)

  unfoldable pub decode_loop : ℕ → Again
  unfolding round
  decode_loop zero fs reg events raw = out_of_fuel
  decode_loop (suc fuel) fs reg events [] = ended fs reg events []
  decode_loop (suc fuel) fs reg events (b ∷ bs) = round (decode_loop fuel) fs reg events (b ∷ bs)

-- What is kept between calls: `flowStates` and `regs`.
pub record Plugin : Type 0 where
  pub flows : Dict String FlowState
  pub regs : Dict String PathRegistry

-- What ExtractL7 finds in a frame.
pub record Segment : Type 0 where
  pub is_tcp : Bool
  pub syn : Bool
  pub has_payload : Bool
  pub flow : String
  pub canonical : String
  pub src_port : ℕ

abbrev pub reg_or_new : Option PathRegistry → PathRegistry
unfolding new_path_registry
reg_or_new (some r) = r
reg_or_new none = new_path_registry

abbrev pub flow_or_new : Bool → Option FlowState → FlowState
flow_or_new is_server (some fs) = fs
flow_or_new is_server none = new_flow is_server

unfoldable pub reset_flow : String → Plugin → Plugin
unfolding delete
reset_flow key s = record s { flows = delete key s.flows }

unfoldable pub store : Segment → FlowState → PathRegistry → Plugin → Plugin
unfolding insert
store seg fs reg s = record {
  flows = insert seg.flow fs s.flows;
  regs = insert seg.canonical reg s.regs;
}

-- The state, the events that Decode returns and the buffer that is left.
abbrev pub Answer : Type 0
Answer = Plugin × List Event × List ℕ

-- A panic drops the events.
unfoldable pub close_call : Segment → Plugin → List ℕ → Ending → Answer
unfolding store
close_call seg s raw (ended fs reg events rest) = (store seg fs reg s, events, rest)
close_call seg s raw (panicked fs reg events rest) = (store seg fs reg s, [], rest)
close_call seg s raw out_of_fuel = (s, [], raw)

unfoldable pub decode_flow : Sprintf → Segment → List ℕ → Plugin → Answer
unfolding close_call decode_loop new_flow lookup
decode_flow fmt seg raw s = close_call seg s raw (
    decode_loop fmt (suc (length raw))
      (flow_or_new (eqb seg.src_port 8087) (lookup seg.flow s.flows))
      (reg_or_new (lookup seg.canonical s.regs)) [] raw)

-- `none` is a frame from which nothing was extracted; `raw` is the buffer after the push.
unfoldable pub decode : Sprintf → Option Segment → List ℕ → Plugin → Answer
unfolding reset_flow decode_flow
decode fmt none raw s = (s, [], raw)
decode fmt (some seg) raw s =
    if not (seg.has_payload && seg.is_tcp)
    then (s, [], raw)
    else decode_flow fmt seg raw (if seg.syn then reset_flow seg.flow s else s)
