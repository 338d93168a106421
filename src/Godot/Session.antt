-- ===== src/Godot/Session.antt =====
-- decode.go: the packets of a flow, one after the other.
use gta.Base.{
  ℕ, true, false, Option, none, some, List, [], ◌∷◌, ◌++◌, length, eqb, ◌&&◌, if◌then◌else◌, String,
  ascii, string_eq, nat_eq,
}
use gta.Base.Dict.{insert}
use gta.WebSocket.{WsFrame}
use gta.Godot.Buffer.{Read, got, fails, panics, stuck, little_endian}
use gta.Godot.Values.{Sprintf}
use gta.Godot.Packets.{SmPacket, parse_sm, resolved_node}
use gta.Godot.Wire.{PathRegistry}
use gta.Godot.Texts.{capped_hex}
use gta.Godot.Events.{text, number, Event, FlowState, direction_of}
use gta.Godot.Calls.{plain, auth_event}
use gta.Godot.Rpc.{rpc_event}

-- What a flow and the registry of its conversation are after a step, with the events; `none` is a
-- panic.
pub record Turn : Type 0 where
  pub flow : FlowState
  pub reg : PathRegistry
  pub events : List Event

unfoldable pub peer_event : ℕ → Event
unfolding plain insert ascii
peer_event id =
    plain (ascii "godot_world.peer_id") (insert "peer_id" (number id) []) "server_to_client"
      (ascii "peer_id") false

unfoldable pub sys_event : String → SmPacket → Event
unfolding plain insert ascii
sys_event dir p =
    plain (ascii "godot_world.sys") (insert "sys_cmd" (number p.sys_cmd) []) dir (ascii "sys") true

unfoldable pub simplify_event : String → SmPacket → Event
unfolding plain insert ascii
simplify_event dir p =
    plain (ascii "godot_world.path_cache")
      (insert "path" (text p.path)
        (insert "psc_id" (number p.psc_id) (insert "cmd" (text (ascii "simplify")) [])))
      dir (ascii "simplify_path") false

unfoldable pub confirm_event : String → SmPacket → Event
unfolding plain insert ascii
confirm_event dir p =
    plain (ascii "godot_world.path_cache")
      (insert "psc_id" (number p.psc_id) (insert "cmd" (text (ascii "confirm")) [])) dir
      (ascii "confirm_path") false

unfoldable pub raw_event : String → SmPacket → Event
unfolding plain insert capped_hex ascii
raw_event dir p =
    plain (ascii "godot_world.raw")
      (insert "raw_hex" (text (capped_hex p.raw_body)) (insert "cmd" (text (ascii p.cmd_name)) []))
      dir (ascii p.cmd_name) true

unfoldable pub one : FlowState → PathRegistry → Event → Option Turn
one fs reg e = some (record { flow = fs; reg = reg; events = e ∷ [] })

unfoldable pub of_call : FlowState → PathRegistry × Option Event → Option Turn
unfolding one
of_call fs (reg, some e) = one fs reg e
of_call fs (reg, none) = none

module _ (fmt : Sprintf) where
  -- The switch on the command.
  unfoldable pub on_packet : FlowState → PathRegistry → SmPacket → Option Turn
  unfolding one of_call auth_event sys_event simplify_event confirm_event raw_event rpc_event
      resolved_node direction_of insert
  on_packet fs reg p =
      let dir = direction_of fs in
      if eqb p.cmd 7
      then one fs reg (if eqb p.sys_cmd 0 then auth_event fs p else sys_event dir p)
      else if eqb p.cmd 1
      then one (record fs { psc = insert p.psc_id p.path fs.psc }) reg (simplify_event dir p)
      else if eqb p.cmd 2
      then one fs reg (confirm_event dir p)
      else if eqb p.cmd 0
      then of_call fs (rpc_event fmt fs reg p (resolved_node fmt p fs.psc))
      else one fs reg (raw_event dir p)

  unfoldable pub on_parsed : FlowState → PathRegistry → Read SmPacket → Option Turn
  unfolding on_packet
  on_parsed fs reg (got p o) = on_packet fs reg p
  on_parsed fs reg fails = none
  on_parsed fs reg panics = none
  on_parsed fs reg stuck = none

  unfoldable pub process_packet : FlowState → PathRegistry → List ℕ → Option Turn
  unfolding one peer_event on_parsed parse_sm little_endian
  process_packet fs reg pkt =
      if fs.is_server && (fs.first_packet && eqb (length pkt) 4)
      then one (record fs { first_packet = false; peer_id = little_endian pkt }) reg
          (peer_event (little_endian pkt))
      else on_parsed (record fs { first_packet = false }) reg (parse_sm pkt fmt)

  -- One frame of the stream: parts of a binary message wait for the last one.
  unfoldable pub on_frame : FlowState → PathRegistry → WsFrame → Option Turn
  unfolding process_packet
  on_frame fs reg f =
      if eqb f.opcode 2
      then (if f.fin
          then process_packet (record fs { pending = [] }) reg (fs.pending ++ f.payload)
          else some (record {
            flow = record fs { pending = fs.pending ++ f.payload };
            reg = reg;
            events = [];
          }))
      else some (record { flow = fs; reg = reg; events = [] })

  unfoldable pub add_events : List Event → Option Turn → Option Turn
  add_events es none = none
  add_events es (some t) = some (record t { events = es ++ t.events })

  unfoldable pub and_then : Option Turn → (FlowState → PathRegistry → Option Turn) → Option Turn
  unfolding add_events
  and_then none rest = none
  and_then (some t) rest = add_events t.events (rest t.flow t.reg)

  unfoldable pub on_frames : List WsFrame → FlowState → PathRegistry → Option Turn
  unfolding on_frame and_then
  on_frames [] fs reg = some (record { flow = fs; reg = reg; events = [] })
  on_frames (f ∷ fs) flow reg = and_then (on_frame flow reg f) (on_frames fs)
