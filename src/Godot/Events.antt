-- ===== src/Godot/Events.antt =====
-- decode.go: the events of the plugin and the state it keeps of a flow.
use gta.Base.{ℕ, Bool, true, false, List, [], String, if◌then◌else◌, string_eq}
use gta.Base.Dict.{Dict}
use gta.Godot.Values.{Value, Values}
use gta.Godot.Blocks.{EntityBlock, MapUpdate, Spawn, ContainerPair, NamedOp}

-- What stands in a payload under its key.
pub data Field : Type 0 where
  text : List ℕ → Field
  number : ℕ → Field
  value : Value → Field
  values : Values → Field
  blocks : List EntityBlock → Field
  updates : List MapUpdate → Field
  spawned : List Spawn → Field
  container_pairs : List ContainerPair → Field
  despawned : List ℕ → Field
  operations : List NamedOp → Field

abbrev pub Payload : Type 0
Payload = Dict String Field

-- `Meta` by its three keys.
pub record Event : Type 0 where
  pub event_type : List ℕ
  pub schema_id : List ℕ
  pub payload : Payload
  pub direction : String
  pub msg_name : List ℕ
  pub is_push : Bool
  pub correlation_key : List ℕ

-- The registry and the key of the conversation are passed beside it.
pub record FlowState : Type 0 where
  pub is_server : Bool
  pub handshake_done : Bool
  pub first_packet : Bool
  pub peer_id : ℕ
  pub psc : Dict ℕ (List ℕ)
  pub pending : List ℕ

unfoldable pub new_flow : Bool → FlowState
new_flow is_server = record {
  is_server = is_server;
  handshake_done = false;
  first_packet = true;
  peer_id = 0;
  psc = [];
  pending = [];
}

unfoldable pub direction_of : FlowState → String
direction_of fs = if fs.is_server then "server_to_client" else "client_to_server"
