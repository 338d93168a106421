-- ===== src/Godot/Totality.antt =====
-- decode.go: a packet never panics, whatever its bytes and the state of the flow are.
use gta.Base.{
  ℕ, zero, suc, Bool, true, false, Option, none, some, List, [], ◌∷◌, ◌++◌, length, eqb, leb, ◌&&◌,
  if◌then◌else◌, String, ascii, ◌==◌, string_eq, list_eq, nat_eq,
}
use gta.WebSocket.{WsFrame}
use gta.Godot.Buffer.{Read}
use gta.Godot.Values.{Sprintf}
use gta.Godot.Bounds.{Sound, moved, failed}
use gta.Godot.Payloads.{payloads-Sound}
use gta.Godot.Answering.{Answers, answers}
use gta.Godot.Parsing.{parse_sm-Answers}
use gta.Godot.Packets.{parse_sm, SmPacket, resolved_node}
use gta.Godot.Wire.{PathRegistry}
use gta.Godot.Texts.{after_last_slash, index_bytes, is_some}
use gta.Godot.Events.{Event, FlowState, direction_of}
use gta.Godot.Rpc.{
  event_or, state_sync_method, state_sync_bytes, state_sync_rpc, rpc_event, Outcome, base_of,
  no_bytes,
}
use gta.Godot.Session.{
  Turn, one, of_call, on_packet, on_parsed, process_packet, on_frame, add_events, and_then,
  on_frames,
}

-- There is a value.
pub data Here {ℓ} {A : Type ℓ} : Option A → Type ℓ where
  here : {a : A} → Here (some a)

Here-if {ℓ} : {A : Type ℓ} (b : Bool) {x y : Option A} → Here x → Here y → Here (if b then x else y)
Here-if true p q = p
Here-if false p q = q

-- There is an event.
data HereEvent : Outcome → Type 0 where
  with_event : {reg : PathRegistry} {e : Option Event} → Here e → HereEvent (reg, e)

HereEvent-if :
    (b : Bool) {x y : Outcome} → HereEvent x → HereEvent y → HereEvent (if b then x else y)
HereEvent-if true p q = p
HereEvent-if false p q = q

event_or-Here {ℓ} :
    {A : Type ℓ} {least most : ℕ} {r : Read A} (event : A → Event) (other : Event)
    → Sound least most r
    → Here (event_or event other r)
unfolding event_or
event_or-Here event other (moved low high) = here
event_or-Here event other failed = here

module _ (fmt : Sprintf) (reg : PathRegistry) where
  state_sync_method-Here :
      (dir : String) (id : ℕ) (payload : List ℕ) (other : Event)
      → HereEvent (state_sync_method fmt reg dir id payload other)
  unfolding state_sync_method
  state_sync_method-Here dir zero payload other =
      with_event (event_or-Here _ other (payloads-Sound fmt reg payload).0)
  state_sync_method-Here dir (suc zero) payload other =
      with_event (event_or-Here _ other (payloads-Sound fmt reg payload).1)
  state_sync_method-Here dir (suc (suc zero)) payload other =
      with_event (event_or-Here _ other (payloads-Sound fmt reg payload).2)
  state_sync_method-Here dir (suc (suc (suc zero))) payload other =
      with_event (event_or-Here _ other (payloads-Sound fmt reg payload).2)
  state_sync_method-Here dir (suc (suc (suc (suc zero)))) payload other =
      with_event (event_or-Here _ other (payloads-Sound fmt reg payload).1)
  state_sync_method-Here dir (suc (suc (suc (suc (suc n))))) payload other = with_event here

  state_sync_bytes-Here :
      (dir : String) (p : SmPacket) (other : Event) (bytes : Option (List ℕ))
      → HereEvent (state_sync_bytes fmt reg dir p other bytes)
  unfolding state_sync_bytes
  state_sync_bytes-Here dir p other none = with_event here
  state_sync_bytes-Here dir p other (some payload) =
      state_sync_method-Here dir p.name_id payload other

  rpc_event-Here :
      (fs : FlowState) (p : SmPacket) (node : List ℕ) → HereEvent (rpc_event fmt fs reg p node)
  unfolding rpc_event state_sync_rpc
  rpc_event-Here fs p node = HereEvent-if (node == ascii ".") (with_event here) (
      HereEvent-if (base_of fmt node (after_last_slash node) == ascii "InstanceManager")
        (with_event here)
        (HereEvent-if (base_of fmt node (after_last_slash node) == ascii "StateSynchronizerManager")
          (state_sync_bytes-Here (direction_of fs) p _ p.byte_only)
          (HereEvent-if
            (is_some (index_bytes node (ascii "InstanceManager/"))
              && (leb p.name_id 2 && no_bytes fmt p.byte_only))
            (with_event here) (with_event here))))

  of_call-Here : (fs : FlowState) {call : Outcome} → HereEvent call → Here (of_call fs call)
  unfolding of_call one
  of_call-Here fs (with_event here) = here

  on_packet-Here : (fs : FlowState) (p : SmPacket) → Here (on_packet fmt fs reg p)
  unfolding on_packet one
  on_packet-Here fs p = Here-if (eqb p.cmd 7) here (
      Here-if (eqb p.cmd 1) here (
        Here-if (eqb p.cmd 2) here (
          Here-if (eqb p.cmd 0) (of_call-Here fs (rpc_event-Here fs p (resolved_node fmt p fs.psc)))
            here)))

  on_parsed-Here :
      {P : SmPacket → ℕ → Type 0} {r : Read SmPacket} (fs : FlowState)
      → Answers P r
      → Here (on_parsed fmt fs reg r)
  unfolding on_parsed
  on_parsed-Here fs (answers {a = p} h) = on_packet-Here fs p

  parsed-Here : (fs : FlowState) (pkt : List ℕ) → Here (on_parsed fmt fs reg (parse_sm pkt fmt))
  parsed-Here fs [] = on_parsed-Here fs (parse_sm-Answers fmt 0 []).1
  parsed-Here fs (meta ∷ body) = on_parsed-Here fs (parse_sm-Answers fmt meta body).0

  -- Every packet becomes events: nothing in it makes the reader panic or run on.
  pub process_packet-Here : (fs : FlowState) (pkt : List ℕ) → Here (process_packet fmt fs reg pkt)
  unfolding process_packet one
  process_packet-Here fs pkt =
      Here-if (fs.is_server && (fs.first_packet && eqb (length pkt) 4)) here
        (parsed-Here (record fs { first_packet = false }) pkt)

  on_frame-Here : (fs : FlowState) (f : WsFrame) → Here (on_frame fmt fs reg f)
  unfolding on_frame
  on_frame-Here fs f =
      Here-if (eqb f.opcode 2)
        (Here-if f.fin (process_packet-Here (record fs { pending = [] }) (fs.pending ++ f.payload))
          here)
        here

module _ (fmt : Sprintf) where
  and_then-Here :
      {t : Option Turn} (rest : FlowState → PathRegistry → Option Turn)
      → Here t
      → ((fs : FlowState) (reg : PathRegistry) → Here (rest fs reg))
      → Here (and_then fmt t rest)
  unfolding and_then add_events
  and_then-Here rest (here {a = t}) k = added (k t.flow t.reg)
    where
      added : {u : Option Turn} → Here u → Here (add_events fmt t.events u)
      added here = here

  pub on_frames-Here :
      (fs : List WsFrame) (flow : FlowState) (reg : PathRegistry) → Here (on_frames fmt fs flow reg)
  unfolding on_frames
  on_frames-Here [] flow reg = here
  on_frames-Here (f ∷ fs) flow reg =
      and_then-Here (on_frames fmt fs) (on_frame-Here fmt reg flow f) (on_frames-Here fs)
