-- ===== src/Godot/Rpc.antt =====
-- decode.go: the game event that a remote call stands for, by the node and the id of the method.
use gta.Base.{
  ℕ, zero, suc, Bool, true, false, not, Option, none, some, List, [], ◌∷◌, length, leb, ◌&&◌,
  if◌then◌else◌, String, ascii, string_eq, list_eq, nat_eq, ◌==◌,
}
use gta.Base.Dict.{insert}
use gta.Godot.Buffer.{Read, got, fails, panics, stuck}
use gta.Godot.Values.{Values, cons, Sprintf}
use gta.Godot.Packets.{SmPacket}
use gta.Godot.Wire.{PathRegistry}
use gta.Godot.Blocks.{
  EntityBlock, Bootstrap, Container, decode_bootstrap, decode_delta, decode_container_block,
}
use gta.Godot.Texts.{index_bytes, after_last_slash, is_some}
use gta.Godot.Events.{
  text, number, value, blocks, updates, spawned, container_pairs, despawned, operations, Payload,
  Event, FlowState, direction_of,
}
use gta.Godot.Calls.{plain, arg, put_some, data_rpc, data_push, generic_rpc}

-- What is read becomes an event, and what cannot be read another; `none` is a panic.
unfoldable pub event_or {ℓ} : {A : Type ℓ} → (A → Event) → Event → Read A → Option Event
event_or event other (got x o) = some (event x)
event_or event other fails = some other
event_or event other panics = none
event_or event other stuck = none

-- A registry and an event.
abbrev pub Outcome : Type 0
Outcome = PathRegistry × Option Event

unfoldable pub bootstrap_event : String → Bootstrap → Event
unfolding plain insert ascii
bootstrap_event dir d =
    plain (ascii "godot_world.state_bootstrap")
      (insert "method" (text (ascii "on_bootstrap"))
        (insert "objects" (blocks d.objects) (insert "map_updates" (updates d.map_updates) [])))
      dir (ascii "on_bootstrap") true

-- A map is counted by its number of items.
unfoldable pub delta_event : String → String → String → Bool → List EntityBlock → Event
unfolding plain insert ascii
delta_event dir event_type name is_push bs =
    plain (ascii event_type) (insert "count" (number (length bs)) (insert "blocks" (blocks bs) []))
      dir (ascii name) is_push

unfoldable pub container_event : String → String → String → Container → Event
unfolding plain insert ascii
container_event dir event_type name c =
    plain (ascii event_type)
      (insert "method" (text (ascii name)) (
        insert "ops_named" (operations c.ops_named) (
          insert "despawns" (despawned c.despawns) (
            insert "pairs" (container_pairs c.pairs)
              (insert "spawns" (spawned c.spawns) (insert "cid" (number c.cid) []))))))
      dir (ascii name) true

module _ (fmt : Sprintf) where
  -- By the id of the method; `other` is the event of what cannot be read.
  unfoldable pub state_sync_method : PathRegistry → String → ℕ → List ℕ → Event → Outcome
  unfolding decode_bootstrap decode_delta decode_container_block event_or bootstrap_event
      delta_event container_event
  state_sync_method reg dir zero payload other =
      let r = decode_bootstrap fmt reg payload in (r.0, event_or (bootstrap_event dir) other r.1)
  state_sync_method reg dir (suc zero) payload other = (
    reg,
    event_or (delta_event dir "godot_world.client_delta" "on_client_delta" false) other
        (decode_delta fmt reg payload),
  )
  state_sync_method reg dir (suc (suc zero)) payload other = (
    reg,
    event_or (container_event dir "godot_world.props_bootstrap" "on_props_bootstrap") other
        (decode_container_block fmt reg payload),
  )
  state_sync_method reg dir (suc (suc (suc zero))) payload other = (
    reg,
    event_or (container_event dir "godot_world.props_delta" "on_props_delta") other
        (decode_container_block fmt reg payload),
  )
  state_sync_method reg dir (suc (suc (suc (suc zero)))) payload other = (
    reg,
    event_or (delta_event dir "godot_world.state_delta" "on_state_delta" true) other
        (decode_delta fmt reg payload),
  )
  state_sync_method reg dir (suc (suc (suc (suc (suc n))))) payload other = (reg, some other)

  unfoldable pub state_sync_bytes :
      PathRegistry → String → SmPacket → Event → Option (List ℕ) → Outcome
  unfolding state_sync_method
  state_sync_bytes reg dir p other none = (reg, some other)
  state_sync_bytes reg dir p other (some payload) =
      state_sync_method reg dir p.name_id payload other

  unfoldable pub state_sync_rpc : PathRegistry → String → SmPacket → Outcome
  unfolding state_sync_bytes generic_rpc ascii
  state_sync_rpc reg dir p =
      state_sync_bytes reg dir p (generic_rpc fmt dir (ascii "StateSynchronizerManager") p)
        p.byte_only

  -- The root node of a client.
  unfoldable pub root_rpc : String → List ℕ → SmPacket → ℕ → Event
  unfolding data_rpc data_push generic_rpc ascii
  root_rpc dir node p zero =
      data_rpc fmt dir (ascii "godot_world.data_request") (ascii "data_request") p
  root_rpc dir node p (suc zero) =
      data_rpc fmt dir (ascii "godot_world.data_response") (ascii "data_response") p
  root_rpc dir node p (suc (suc zero)) = data_push fmt dir p
  root_rpc dir node p (suc (suc (suc n))) = generic_rpc fmt dir node p

  unfoldable pub instance_charge : String → List ℕ → SmPacket → ℕ → Values → Event
  unfolding plain insert generic_rpc ascii
  instance_charge dir node p zero (cons map_path (cons id rest)) =
      plain (ascii "godot_world.instance_charge")
        (insert "instance_id" (text (fmt.shown id))
          (insert "map_path" (text (fmt.shown map_path)) []))
        dir (ascii "charge_new_instance") true
  instance_charge dir node p zero _ = generic_rpc fmt dir node p
  instance_charge dir node p (suc n) args = generic_rpc fmt dir node p

  -- `names`; only the first three ids get here.
  unfoldable pub instance_method : ℕ → List ℕ
  unfolding ascii
  instance_method zero = ascii "despawn_player"
  instance_method (suc zero) = ascii "ready_to_enter_instance"
  instance_method (suc (suc n)) = ascii "spawn_player"

  unfoldable pub instance_id_from_node : Option (List ℕ) → List ℕ
  unfolding ascii
  instance_id_from_node none = []
  instance_id_from_node (some id) = if id == ascii "StateSynchronizerManager" then [] else id

  unfoldable pub put_id : List ℕ → Payload → Payload
  unfolding insert
  put_id [] payload = payload
  put_id (b ∷ bs) payload = insert "instance_id" (text (b ∷ bs)) payload

  unfoldable pub instance_rpc : FlowState → String → List ℕ → SmPacket → Event
  unfolding plain insert put_some put_id instance_id_from_node after_last_slash instance_method
      ascii
  instance_rpc fs dir node p =
      plain (ascii "godot_world.instance_rpc")
        (put_some "player_id" value (arg p.args 0) (
          put_id (instance_id_from_node (after_last_slash node))
            (insert "method" (text (instance_method p.name_id)) [])))
        dir (instance_method p.name_id) (not fs.is_server)

  abbrev pub no_bytes : Option (List ℕ) → Bool
  no_bytes none = true
  no_bytes (some []) = true
  no_bytes (some (b ∷ bs)) = false

  unfoldable pub base_of : List ℕ → Option (List ℕ) → List ℕ
  base_of node (some base) = base
  base_of node none = node

  unfoldable pub rpc_event : FlowState → PathRegistry → SmPacket → List ℕ → Outcome
  unfolding direction_of base_of after_last_slash root_rpc instance_charge state_sync_rpc
      instance_rpc generic_rpc index_bytes ascii
  rpc_event fs reg p node =
      let dir = direction_of fs in
      let base = base_of node (after_last_slash node) in
      if node == ascii "."
      then (reg, some (root_rpc dir node p p.name_id))
      else if base == ascii "InstanceManager"
      then (reg, some (instance_charge dir node p p.name_id p.args))
      else if base == ascii "StateSynchronizerManager"
      then state_sync_rpc reg dir p
      else if is_some (index_bytes node (ascii "InstanceManager/"))
          && (leb p.name_id 2 && no_bytes p.byte_only)
      then (reg, some (instance_rpc fs dir node p))
      else (reg, some (generic_rpc fmt dir node p))
