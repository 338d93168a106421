-- ===== src/Godot.antt =====
-- plugins/godot-world: what the plugin reads off the wire of a Godot game.
pub mod Buffer
pub mod Values
pub mod Variant
pub mod Half
pub mod HalfValues
pub mod Bounds
pub mod Nesting
pub mod Wire
pub mod Blocks
pub mod Payloads
pub mod Layout
pub mod Reading
pub mod Cases
pub mod RoundTrip
pub mod Oversized
pub mod Packets
pub mod Answering
pub mod Parsing
pub mod Texts
pub mod Events
pub mod Calls
pub mod Rpc
pub mod Session
pub mod Stream
pub mod Totality
pub mod Settling
pub mod Conduct
pub mod Resync
pub mod Commands
mod Examples
mod Runs
