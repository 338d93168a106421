-- ===== src/Godot/Conduct.antt =====
-- decode.go and sm.go: what the plugin makes of fragments, of paths, of requests and their responses,
-- and of a frame that it cannot slice.
use gta.Base.{
  ℕ, ◌≡◌, ◌≢◌, ◌∙◌, refl, sym, subst, ap, Bool, true, false, Option, none, some, List, [], ◌∷◌,
  ◌++◌, append_nil, eqb, if◌then◌else◌, if_elim, arith, String, string_eq, nat_eq, ascii,
}
use gta.Base.Dict.{Dict, insert, lookup, lookup-insert_self}
use gta.WebSocket.{WsFrame}
use gta.Godot.Values.{Value, Sprintf}
use gta.Godot.Wire.{PathRegistry}
use gta.Godot.Packets.{SmPacket, resolved_node, resolved_or}
use gta.Godot.Events.{FlowState, direction_of}
use gta.Godot.Calls.{arg, data_rpc, data_push, correlation_for, plain}
use gta.Godot.Rpc.{root_rpc}
use gta.Godot.Session.{
  Turn, one, simplify_event, on_packet, process_packet, on_frame, on_frames, and_then, add_events,
}

-- A frame by its opcode, with or without the mark of the last one.
abbrev pub frame_of : ℕ → Bool → List ℕ → WsFrame
frame_of opcode fin bytes = record { opcode = opcode; fin = fin; payload = bytes }

module _ (fmt : Sprintf) where
  nothing_more :
      (t : Option Turn)
      → and_then fmt t (λ fs reg. some (record { flow = fs; reg = reg; events = [] })) ≡ t
  unfolding and_then add_events
  nothing_more none = refl
  nothing_more (some t) = ap (λ es. some (record t { events = es })) (append_nil t.events)

  last_frame :
      (f : WsFrame) (flow : FlowState) (reg : PathRegistry)
      → on_frames fmt (f ∷ []) flow reg ≡ on_frame fmt flow reg f
  unfolding on_frames
  last_frame f flow reg = nothing_more (on_frame fmt flow reg f)

  nothing_yet : (t : Option Turn) → add_events fmt [] t ≡ t
  unfolding add_events
  nothing_yet none = refl
  nothing_yet (some t) = refl

  first_part :
      (front : List ℕ) (rest : List WsFrame) (flow : FlowState) (reg : PathRegistry)
      → on_frames fmt (frame_of 2 false front ∷ rest) flow reg
        ≡ on_frames fmt rest (record flow { pending = flow.pending ++ front }) reg
  unfolding on_frames on_frame and_then
  first_part front rest flow reg = nothing_yet _

  continuation :
      (fin : Bool) (middle : List ℕ) (rest : List WsFrame) (flow : FlowState) (reg : PathRegistry)
      → on_frames fmt (frame_of 0 fin middle ∷ rest) flow reg ≡ on_frames fmt rest flow reg
  unfolding on_frames on_frame and_then
  continuation fin middle rest flow reg = nothing_yet _

  whole_message :
      (back : List ℕ) (flow : FlowState) (reg : PathRegistry)
      → on_frame fmt flow reg (frame_of 2 true back)
        ≡ process_packet fmt (record flow { pending = [] }) reg (flow.pending ++ back)
  unfolding on_frame
  whole_message back flow reg = refl

-- A binary message in fragments is not put together: its continuation frames, which have opcode 0,
-- are dropped, and its first part is put in front of the next binary message, which is parsed as one
-- packet with it.
pub fragments_are_mixed :
    (fmt : Sprintf) (front middle back : List ℕ) (flow : FlowState) (reg : PathRegistry)
    → on_frames fmt
        (frame_of 2 false front ∷ (frame_of 0 true middle ∷ (frame_of 2 true back ∷ [])))
        flow
        reg
      ≡ process_packet fmt (record flow { pending = [] }) reg ((flow.pending ++ front) ++ back)
fragments_are_mixed fmt front middle back flow reg =
    first_part fmt front (frame_of 0 true middle ∷ (frame_of 2 true back ∷ [])) flow reg
    ∙ continuation fmt true middle (frame_of 2 true back ∷ [])
        (record flow { pending = flow.pending ++ front }) reg
    ∙ last_frame fmt (frame_of 2 true back) (record flow { pending = flow.pending ++ front }) reg
    ∙ whole_message fmt back (record flow { pending = flow.pending ++ front }) reg

-- What a packet leaves of the cache of paths.
abbrev pub cache_after : Option Turn → FlowState → FlowState
cache_after none fs = fs
cache_after (some t) fs = t.flow

second {ℓ} :
    {A : Type ℓ} (c : ℕ) (a b d : A) → c ≡ 1 → (if eqb c 7 then a else if eqb c 1 then b else d) ≡ b
second c a b d e = rw e refl

on_simplify :
    (fmt : Sprintf) (fs : FlowState) (reg : PathRegistry) (p : SmPacket)
    → p.cmd ≡ 1
    → on_packet fmt fs reg p
      ≡ one
          (record fs { psc = insert p.psc_id p.path fs.psc })
          reg
          (simplify_event (direction_of fs) p)
unfolding on_packet
on_simplify fmt fs reg p e = second p.cmd _ _ _ e

looked :
    (fmt : Sprintf) (is_path : Bool) (id : ℕ) (node path : List ℕ) (found : Option (List ℕ))
    → is_path ≡ false
    → id ≢ 0
    → found ≡ some path
    → (if is_path then node else if eqb id 0 then [] else resolved_or fmt id found) ≡ path
unfolding resolved_or
looked fmt true id node path found e some_id there = absurd (cc)
looked fmt false id node path found e some_id there =
    if_elim (λ z. z ≡ path) (eqb id 0) _ _ (λ e'. absurd (ground (arith, e', some_id)))
      (λ e'. ap (resolved_or fmt id) there)

resolved :
    (fmt : Sprintf) (psc : Dict ℕ (List ℕ)) (p call : SmPacket)
    → call.node_is_path ≡ false
    → call.node_psc ≡ p.psc_id
    → p.psc_id ≢ 0
    → resolved_node fmt call (insert p.psc_id p.path psc) ≡ p.path
unfolding resolved_node
resolved fmt psc p call by_id same some_id =
    subst
      (λ (id : ℕ).
        (if call.node_is_path
          then call.node_path
          else if eqb id 0
          then []
          else resolved_or fmt id (lookup id (insert p.psc_id p.path psc)))
        ≡ p.path)
      (sym same)
      (looked fmt call.node_is_path p.psc_id call.node_path p.path _ by_id some_id
        (lookup-insert_self p.psc_id p.path psc))

-- Once a packet has bound an id other than 0 to a path, a later call in the same direction that names
-- its node by this id is a call of the node at that path.
pub simplified_path_resolves :
    (fmt : Sprintf) (fs : FlowState) (reg : PathRegistry) (p call : SmPacket)
    → p.cmd ≡ 1
    → call.node_is_path ≡ false
    → call.node_psc ≡ p.psc_id
    → p.psc_id ≢ 0
    → resolved_node fmt call (cache_after (on_packet fmt fs reg p) fs).psc ≡ p.path
unfolding one
simplified_path_resolves fmt fs reg p call is_simplify by_id same some_id =
    subst (λ (t : Option Turn). resolved_node fmt call (cache_after t fs).psc ≡ p.path)
      (sym (on_simplify fmt fs reg p is_simplify)) (resolved fmt fs.psc p call by_id same some_id)

request_key :
    (fmt : Sprintf) (dir : String) (node : List ℕ) (p : SmPacket) (x : Value)
    → arg p.args 0 ≡ some x
    → (root_rpc fmt dir node p 0).correlation_key ≡ ascii "req:" ++ fmt.shown x
unfolding root_rpc data_rpc correlation_for
request_key fmt dir node p x e = ap (correlation_for fmt.shown) e

response_key :
    (fmt : Sprintf) (dir : String) (node : List ℕ) (p : SmPacket) (x : Value)
    → arg p.args 0 ≡ some x
    → (root_rpc fmt dir node p 1).correlation_key ≡ ascii "req:" ++ fmt.shown x
unfolding root_rpc data_rpc correlation_for
response_key fmt dir node p x e = ap (correlation_for fmt.shown) e

push_key :
    (fmt : Sprintf) (dir : String) (node : List ℕ) (p : SmPacket)
    → (root_rpc fmt dir node p 2).correlation_key ≡ []
unfolding root_rpc data_push plain
push_key fmt dir node p = refl

key_some : (k : List ℕ) → ascii "req:" ++ k ≢ []
unfolding ascii
key_some k e = cc

-- A data request and a data response whose request ids read alike carry the same correlation key,
-- and it is not empty; a push carries none.
pub response_meets_request :
    (fmt : Sprintf) (dir dir' : String) (node node' : List ℕ) (p q push : SmPacket) (x y : Value)
    → arg p.args 0 ≡ some x
    → arg q.args 0 ≡ some y
    → fmt.shown x ≡ fmt.shown y
    → ((root_rpc fmt dir node p 0).correlation_key ≡ (root_rpc fmt dir' node' q 1).correlation_key)
      × ((root_rpc fmt dir node p 0).correlation_key ≢ [])
      × ((root_rpc fmt dir node push 2).correlation_key ≡ [])
response_meets_request fmt dir dir' node node' p q push x y e e' same = (
  request_key fmt dir node p x e
      ∙ ap (λ k. ascii "req:" ++ k) same
      ∙ sym (response_key fmt dir' node' q y e'),
  λ none_left. key_some (fmt.shown x) (sym (request_key fmt dir node p x e) ∙ none_left),
  push_key fmt dir node push,
)
